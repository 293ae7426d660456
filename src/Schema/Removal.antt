-- ===== src/Schema/Removal.antt =====
-- The removal of read-only fields: `remove_read_only_fields`, `remove_read_only_property`,
-- `remove_read_only_from_map`. The keys of an `IndexMap` are distinct, so the loop over a copy of the
-- keys visits each entry once: it is recursion on the entries. A function returns what is left and
-- the removed paths in the order of the pushes.
use netfyr.Base.{
  ℕ, suc, String, Option, none, some, List, [], ◌∷◌, ◌++◌, find, option_bind, if◌then◌else◌,
}
use netfyr.Base.Equality.{◌==◌, string_eq, option_eq}
use netfyr.Base.Text.{◌<>◌, decimal}
use netfyr.Value.{Value, Items, nil, item, Entries, end, entry}
use netfyr.Value.Map.{is_empty}
use netfyr.Device.{State}
use netfyr.Schema.Types.{SchemaNode, keywords, property, item_schema, join_path}
use netfyr.Schema.Registry.{Fragment, SchemaRegistry}

-- The first branch of `remove_read_only_property`, with what is left of the value and of the entries
-- behind it.
abbrev pub leave_entry :
    SchemaNode
    → String
    → String
    → Value × List String
    → Entries × List String
    → Entries × List String
leave_entry n key path (v, inside) (l, behind) =
    if (keywords n).writable then (entry key v l, inside ++ behind) else (l, path ∷ behind)

-- An entry that the schema does not know stays as it is.
abbrev pub leave_unknown : String → Value → Entries × List String → Entries × List String
leave_unknown key v (l, behind) = (entry key v l, behind)

-- One round of the loop, by the property of the key.
abbrev pub leave_at :
    Option SchemaNode
    → (SchemaNode → Value × List String)
    → String
    → String
    → Value
    → Entries × List String
    → Entries × List String
leave_at none left key path v behind = leave_unknown key v behind
leave_at (some p) left key path v behind = leave_entry p key path (left p) behind

abbrev pub leave_object : Entries × List String → Value × List String
leave_object (l, removed) = (Value.object l, removed)

abbrev pub leave_array : Items × List String → Value × List String
leave_array (l, removed) = (Value.array l, removed)

abbrev pub leave_list :
    Option SchemaNode → (SchemaNode → Items × List String) → Items → Value × List String
leave_list none left l = (Value.array l, [])
leave_list (some s) left l = leave_array (left s)

abbrev pub leave_item : Value × List String → Items × List String → Items × List String
leave_item (v, inside) (l, behind) = (item v l, inside ++ behind)

unfoldable mutual
  -- `remove_read_only_property` on the value of a writable property.
  pub remove_inside : SchemaNode → Value → String → Value × List String
  remove_inside n (Value.object inner) path = leave_object (remove_read_only_from_map n inner path)
  remove_inside n (Value.array l) path =
      leave_list (item_schema n) (λ s. remove_from_items s l path 0) l
  remove_inside n other path = (other, [])

  pub remove_from_items : SchemaNode → Items → String → ℕ → Items × List String
  remove_from_items s nil path index = (nil, [])
  remove_from_items s (item v l) path index =
      leave_item (remove_from_item s v (path <> "[" <> decimal index <> "]"))
        (remove_from_items s l path (suc index))

  -- Only the maps of a list are searched.
  pub remove_from_item : SchemaNode → Value → String → Value × List String
  remove_from_item s (Value.object inner) path =
      leave_object (remove_read_only_from_map s inner path)
  remove_from_item s other path = (other, [])

  pub remove_read_only_from_map : SchemaNode → Entries → String → Entries × List String
  remove_read_only_from_map n end prefix = (end, [])
  remove_read_only_from_map n (entry key v l) prefix =
      leave_at (property n key) (λ p. remove_inside p v (join_path prefix key)) key
        (join_path prefix key) v (remove_read_only_from_map n l prefix)

-- The value at a trigger key: a map that becomes empty goes without a path of its own.
unfoldable pub remove_from_fragment :
    SchemaNode → String → Value → Entries × List String → Entries × List String
remove_from_fragment root key (Value.object inner) (l, behind) =
    let (left, inside) = remove_read_only_from_map root inner key in
    if is_empty left
    then (l, inside ++ behind)
    else (entry key (Value.object left) l, inside ++ behind)
remove_from_fragment root key other (l, behind) = (entry key other l, behind)

abbrev pub fragment_of : String → List Fragment → Option Fragment
fragment_of key fs = find (λ f. f.trigger_key == some key) fs

-- The base fragment. A registry without one would be a panic of the source; `SchemaRegistry::new`
-- loads it.
abbrev pub base_of : List Fragment → Option Fragment
base_of fs = find (λ f. f.trigger_key == none) fs

abbrev pub base_property : List Fragment → String → Option SchemaNode
base_property fs key = option_bind (base_of fs) (λ f. property f.root key)

-- The body of the loop of `remove_read_only_fields`.
unfoldable pub remove_field :
    List Fragment → String → Value → Entries × List String → Entries × List String
remove_field fs key v behind = elim (fragment_of key fs) [
  | some f ↦ remove_from_fragment f.root key v behind
  | none ↦
      leave_at (base_property fs key) (λ p. remove_inside p v (join_path "" key)) key
        (join_path "" key) v behind
]

unfoldable pub remove_fields : List Fragment → Entries → Entries × List String
remove_fields fs end = (end, [])
remove_fields fs (entry key v l) = remove_field fs key v (remove_fields fs l)

unfoldable pub remove_read_only_fields : SchemaRegistry → State → State × List String
remove_read_only_fields r state =
    let (left, removed) = remove_fields r.fragments state.fields in
    (record state { fields = left }, removed)
