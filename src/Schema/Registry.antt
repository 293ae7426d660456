-- ===== src/Schema/Registry.antt =====
-- `SchemaRegistry`: fragments, their flat field maps, and the validation of a whole state.
use Prim.Native.Nat.{Ordering}
use Prim.Native.String.{compare}
use netfyr.Base.{
  String, Bool, true, false, Option, none, some, List, [], ◌∷◌, ◌++◌, if◌then◌else◌, find,
  option_bind, option_map,
}
use netfyr.Base.Equality.{◌==◌, string_eq, option_eq}
use netfyr.Base.Dict
use netfyr.Base.Text.{is_empty_text}
use netfyr.Value.{IpAddr, Value, Entries}
use netfyr.Value.Map
use netfyr.Device.{State}
use netfyr.Schema.Types.{
  FieldInfo, FieldType, ValidationError, wrong_type, SchemaNode, node, Properties, no_properties,
  properties, Props, last, prop, ItemSchema, no_items, items, keywords, property, expected_type,
  join_path,
}
use netfyr.Schema.Walk.{walk_map, walk_property, value_type}

abbrev pub FieldMap : Type 0
FieldMap = Dict.Dict String FieldInfo

-- Every field at every nesting level, keyed by its dot path; `out` is the map so far.
unfoldable mutual
  unfolding expected_type join_path

  pub derive_fields : SchemaNode → String → FieldMap → FieldMap
  derive_fields (node k p i) prefix out = derive_items i prefix (derive_properties p prefix out)

  pub derive_properties : Properties → String → FieldMap → FieldMap
  derive_properties no_properties prefix out = out
  derive_properties (properties ps) prefix out = derive_props ps prefix out

  pub derive_props : Props → String → FieldMap → FieldMap
  derive_props last prefix out = out
  derive_props (prop name n rest) prefix out =
      let path = join_path prefix name in
      let info : FieldInfo = record {
        writable = (keywords n).writable;
        field_type = expected_type n;
      } in
      derive_props rest prefix (derive_fields n path (Dict.insert path info out))

  pub derive_items : ItemSchema → String → FieldMap → FieldMap
  derive_items no_items prefix out = out
  derive_items (items n) prefix out = derive_fields n prefix out

-- `IndexMap::sort_keys`
abbrev insert_sorted : String × FieldInfo → FieldMap → FieldMap
insert_sorted e [] = e ∷ []
insert_sorted e (f ∷ fs) = elim (compare f.0 e.0) [
  | Ordering.lt ↦ f ∷ insert_sorted e fs
  | _ ↦ e ∷ f ∷ fs
]

unfoldable pub sort_keys : FieldMap → FieldMap
sort_keys [] = []
sort_keys (e ∷ fs) = insert_sorted e (sort_keys fs)

pub record Fragment : Type 0 where
  pub name : String
  pub trigger_key : Option String
  pub root : SchemaNode
  pub fields : FieldMap

-- `parse_fragment`, from the parsed root.
unfoldable pub make_fragment : String → SchemaNode → Option String → Fragment
unfolding derive_fields sort_keys
make_fragment name root trigger_key = record {
  name = name;
  trigger_key = trigger_key;
  root = root;
  fields = sort_keys (derive_fields root "" []);
}

pub record SchemaRegistry : Type 0 where
  pub fragments : List Fragment

unfoldable pub field_info : SchemaRegistry → String → String → Option FieldInfo
field_info r fragment field =
    option_bind (find (λ f. f.name == fragment) r.fragments) (λ f. Dict.get field f.fields)

unfoldable pub fragment_fields : SchemaRegistry → String → Option FieldMap
fragment_fields r fragment =
    option_map (λ (f : Fragment). f.fields) (find (λ f. f.name == fragment) r.fragments)

-- The first trigger fragment of the state that implies a device type.
find_implied : List Fragment → Entries → Option String
find_implied [] fields = none
find_implied (f ∷ fs) fields =
    let rest = find_implied fs fields in
    elim f.trigger_key [
      | none ↦ rest
      | some trigger ↦
          if Map.contains_key trigger fields
          then elim (keywords f.root).implied_device_type [ some t ↦ some t | none ↦ rest ]
          else rest
    ]

unfoldable pub implied_device_type : SchemaRegistry → Entries → Option String
unfolding find_implied
implied_device_type r fields = find_implied r.fragments fields

abbrev pub trigger_keys : List Fragment → List String
trigger_keys [] = []
trigger_keys (f ∷ fs) = elim f.trigger_key [
  | none ↦ trigger_keys fs
  | some key ↦ key ∷ trigger_keys fs
]

module _ (parse_addr : String → Option IpAddr) where
  -- The device type of the state, checked as a known string in both modes. A base fragment with no
  -- `type` property would be a panic of the source; the embedded one has it.
  unfoldable pub device_type_errors : Fragment → State → List ValidationError
  device_type_errors f state =
      if is_empty_text state.device_type then [] else elim (property f.root "type") [
        | none ↦ []
        | some n ↦ walk_property parse_addr f.name false n (Value.string state.device_type) "type"
      ]

  -- A fragment with a trigger key, on the value at that key.
  unfoldable pub trigger_errors :
      String → SchemaNode → Bool → String → Option Value → List ValidationError
  trigger_errors name root writable_only key none = []
  trigger_errors name root writable_only key (some (Value.object inner)) =
      walk_map parse_addr name writable_only root inner key []
  trigger_errors name root writable_only key (some other) =
      wrong_type name key FieldType.object (value_type other) ∷ []

  -- The body of the loop of `validate_inner`, by the fragment's trigger key.
  unfoldable pub fragment_errors_at :
      List String → Bool → State → Fragment → Option String → List ValidationError
  fragment_errors_at triggers writable_only state f none =
      walk_map parse_addr f.name writable_only f.root state.fields "" triggers
      ++ device_type_errors f state
  fragment_errors_at triggers writable_only state f (some key) =
      trigger_errors f.name f.root writable_only key (Map.get key state.fields)

  unfoldable pub all_errors : List String → Bool → State → List Fragment → List ValidationError
  all_errors triggers writable_only state [] = []
  all_errors triggers writable_only state (f ∷ fs) =
      fragment_errors_at triggers writable_only state f f.trigger_key
      ++ all_errors triggers writable_only state fs

  unfoldable pub validate_inner : SchemaRegistry → State → Bool → List ValidationError
  validate_inner r state writable_only =
      all_errors (trigger_keys r.fragments) writable_only state r.fragments

  unfoldable pub validate : SchemaRegistry → State → List ValidationError
  unfolding validate_inner
  validate r state = validate_inner r state false

  unfoldable pub validate_writable : SchemaRegistry → State → List ValidationError
  unfolding validate_inner
  validate_writable r state = validate_inner r state true
