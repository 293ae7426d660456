-- ===== src/Schema/Extend.antt =====
-- `SchemaRegistry::add_schema_node` of crates/netfyr-state/src/schema.rs. The source changes the
-- fragment's tree in place while it walks the path, also when it then refuses: a step returns what it
-- leaves of the node, with its outcome. The node comes from serde_json, `json_error` is its error text.
use netfyr.Base.{
  String, Bool, false, not, ◌&&◌, Option, none, some, List, [], ◌∷◌, any, find, is_none,
  if◌then◌else◌, Result, ok, err,
}
use netfyr.Base.Equality.{◌==◌, string_eq, option_eq}
use netfyr.Base.Text.{◌<>◌, is_empty_text, split}
use netfyr.Schema.Types.{
  FieldType, SchemaNode, node, Keywords, keywords, Properties, no_properties, properties, Props,
  last, prop, ItemSchema, get_prop, validate_schema_node, writable_object,
}
use netfyr.Schema.Walk.{same_type}
use netfyr.Schema.Registry.{Fragment, SchemaRegistry, derive_fields, sort_keys}

-- `get_or_insert_with(IndexMap::new)`
abbrev pub props_of : Properties → Props
props_of no_properties = last
props_of (properties ps) = ps

-- `IndexMap::insert` of an absent key: at the end.
abbrev pub push_prop : String → SchemaNode → Props → Props
push_prop name n last = prop name n last
push_prop name n (prop other m rest) = prop other m (push_prop name n rest)

-- `entry(part).or_insert_with(writable_object)`, by the entry of that name.
abbrev pub ensure_prop : Option SchemaNode → String → Props → Props
ensure_prop none name ps = push_prop name writable_object ps
ensure_prop (some n) name ps = ps

abbrev pub is_object : SchemaNode → Bool
is_object n = elim (keywords n).field_type [ none ↦ false | some t ↦ same_type t FieldType.object ]

-- A tree that a step may have changed, with its outcome.
abbrev pub Changed : Type 0 → Type 0
Changed A = A × Result (Unit {0}) String

-- The name of the last part, put into the properties of its parent, by the entry of that name.
abbrev pub add_here : Option SchemaNode → String → String → SchemaNode → Props → Changed Props
add_here (some n) path name new ps = (ps, err ("schema node '" <> path <> "' already exists"))
add_here none path name new ps = (push_prop name new ps, ok tt)

abbrev pub with_props : Keywords → ItemSchema → Changed Props → Changed SchemaNode
with_props k i (ps, outcome) = (node k (properties ps) i, outcome)

-- The child of that name is changed in place.
abbrev pub change_child : String → Props → Changed SchemaNode → Changed Props
change_child name rest (n, outcome) = (prop name n rest, outcome)

abbrev pub keep_child : String → SchemaNode → Changed Props → Changed Props
keep_child name n (rest, outcome) = (prop name n rest, outcome)

abbrev pub change_prop : String → (SchemaNode → Changed SchemaNode) → Props → Changed Props
change_prop name change last = (last, ok tt)
change_prop name change (prop other n rest) =
    if other == name
    then change_child other rest (change n)
    else keep_child other n (change_prop name change rest)

-- Below a child that is an object.
abbrev pub enter : String → SchemaNode → Changed SchemaNode → Changed SchemaNode
enter part child below =
    if not (is_object child)
    then (child, err ("schema path component '" <> part <> "' is not an object"))
    else below

-- The loop over all parts but the last, then the insertion.
unfoldable pub add_at : String → List String → SchemaNode → SchemaNode → Changed SchemaNode
add_at path [] new n = (n, ok tt)
add_at path (name ∷ []) new (node k p i) =
    with_props k i (add_here (get_prop name (props_of p)) path name new (props_of p))
add_at path (part ∷ q ∷ parts) new (node k p i) =
    let below = add_at path (q ∷ parts) new in
    with_props k i (
      change_prop part (λ child. enter part child (below child))
        (ensure_prop (get_prop part (props_of p)) part (props_of p)))

-- The flat fields are derived again when the node was added.
abbrev pub with_root : Fragment → Changed SchemaNode → Changed Fragment
with_root f (root, ok _) =
    (record f { root = root; fields = sort_keys (derive_fields root "" []) }, ok tt)
with_root f (root, err e) = (record f { root = root }, err e)

abbrev pub change_first : List Fragment → Changed Fragment → Changed (List Fragment)
change_first fs (f, outcome) = (f ∷ fs, outcome)

abbrev pub keep_first : Fragment → Changed (List Fragment) → Changed (List Fragment)
keep_first f (fs, outcome) = (f ∷ fs, outcome)

unfoldable pub change_fragment :
    String → (SchemaNode → Changed SchemaNode) → List Fragment → Changed (List Fragment)
change_fragment name change [] = ([], err ("unknown schema fragment '" <> name <> "'"))
change_fragment name change (f ∷ fs) =
    if f.name == name
    then change_first fs (with_root f (change f.root))
    else keep_first f (change_fragment name change fs)

abbrev pub is_base : Option Fragment → Bool
is_base none = false
is_base (some f) = is_none f.trigger_key

abbrev pub has_trigger : List Fragment → Option String → Bool
has_trigger fs key = any (λ (f : Fragment). f.trigger_key == key) fs

abbrev pub first_part : List String → Option String
first_part [] = none
first_part (p ∷ ps) = some p

-- A top-level base property would shadow a fragment.
unfoldable pub collides : List Fragment → String → List String → Bool
collides fs fragment parts =
    is_base (find (λ f. f.name == fragment) fs) && has_trigger fs (first_part parts)

abbrev pub part_text : Option String → String
part_text none = ""
part_text (some p) = p

abbrev pub malformed : String → String → String
malformed path e = "schema node at '" <> path <> "' is malformed: " <> e

-- The parsed node, if its types fit its formats.
abbrev pub checked_node : String → Result SchemaNode String → Result SchemaNode String
checked_node path (err e) = err (malformed path e)
checked_node path (ok n) = elim (validate_schema_node n) [
  | err e ↦ err (malformed path e)
  | ok _ ↦ ok n
]

abbrev pub with_fragments : Changed (List Fragment) → Changed SchemaRegistry
with_fragments (fs, outcome) = (record { fragments = fs }, outcome)

unfoldable pub add_node :
    SchemaRegistry → String → String → Result SchemaNode String → Changed SchemaRegistry
add_node r fragment path (err e) = (r, err e)
add_node r fragment path (ok n) =
    let parts = split b'.' path in
    if any is_empty_text parts
    then (r, err "schema node path must not be empty or contain empty components")
    else if collides r.fragments fragment parts
    then (
      r,
      err (
          "base property '"
          <> part_text (first_part parts)
          <> "' collides with a fragment trigger key"),
    )
    else with_fragments (change_fragment fragment (add_at path parts n) r.fragments)

unfoldable pub add_schema_node :
    SchemaRegistry → String → String → Result SchemaNode String → Changed SchemaRegistry
add_schema_node r fragment path json = add_node r fragment path (checked_node path json)
