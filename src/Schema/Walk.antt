-- ===== src/Schema/Walk.antt =====
-- The walk of a value along a schema node: `walk_map`, `walk_property`, `walk_node`. The errors that
-- the source pushes are returned in the order of the pushes.
use netfyr.Base.{
  ℕ, suc, String, Bool, true, false, not, ◌&&◌, ◌||◌, Option, none, some, List, [], ◌∷◌, ◌++◌,
  if◌then◌else◌, leb, is_some, unwrap_or,
}
use netfyr.Base.Int.{ℤ, pos, ltb_ℤ}
use netfyr.Base.Equality.{string_eq, contains}
use netfyr.Base.Text.{◌<>◌, decimal}
use netfyr.Value.{IpAddr, v4, v6, Value, u64, i64, Items, nil, item, Entries, end, entry}
use netfyr.Value.Map.{contains_key}
use netfyr.Schema.Types.{
  FieldType, ValidationError, unknown_field, read_only_field, missing_field, out_of_range,
  wrong_type, enum_violation, invalid_format, SchemaNode, keywords, property, item_schema,
  expected_type, join_path,
}
use netfyr.Schema.Format.{parse_ip_network}

unfoldable pub value_type : Value → FieldType
value_type (Value.string s) = FieldType.string
value_type (u64 n) = FieldType.integer
value_type (i64 n) = FieldType.integer
value_type (Value.bool b) = FieldType.boolean
value_type (Value.ip_addr a) = FieldType.ip_address
value_type (Value.ip_network a p) = FieldType.ip_network
value_type (Value.array l) = FieldType.array
value_type (Value.object l) = FieldType.object

abbrev pub same_type : FieldType → FieldType → Bool
same_type FieldType.string FieldType.string = true
same_type FieldType.boolean FieldType.boolean = true
same_type FieldType.integer FieldType.integer = true
same_type FieldType.object FieldType.object = true
same_type FieldType.array FieldType.array = true
same_type FieldType.ip_address FieldType.ip_address = true
same_type FieldType.ip_network FieldType.ip_network = true
same_type s t = false

unfoldable pub type_accepts : SchemaNode → FieldType → FieldType → Bool
type_accepts n expected found =
    same_type expected found
    || (is_some (keywords n).format
        && same_type expected FieldType.ip_network
        && same_type found FieldType.string)

-- The integer of an accepted value; other values do not come here.
abbrev pub integer_value : Value → ℤ
integer_value (u64 n) = pos n
integer_value (i64 n) = n
integer_value other = pos 0

abbrev pub is_v4 : IpAddr → Bool
is_v4 (v4 a) = true
is_v4 (v6 a) = false

module _ (fragment : String) where
  unfoldable pub integer_errors : SchemaNode → Value → String → List ValidationError
  integer_errors n value path =
      let actual = integer_value value in
      let low : List ValidationError = elim (keywords n).minimum [
        | none ↦ []
        | some min ↦
            if ltb_ℤ actual min
            then out_of_range fragment path (some min) (keywords n).maximum ∷ []
            else []
      ] in
      let high : List ValidationError = elim (keywords n).maximum [
        | none ↦ []
        | some max ↦
            if ltb_ℤ max actual
            then out_of_range fragment path (keywords n).minimum (some max) ∷ []
            else []
      ] in
      low ++ high

  unfoldable pub enum_errors : SchemaNode → Value → String → List ValidationError
  enum_errors n (Value.string text) path = elim (keywords n).enum_values [
    | none ↦ []
    | some allowed ↦ if contains allowed text then [] else enum_violation fragment path allowed ∷ []
  ]
  enum_errors n other path = []

  -- The object is closed unless it allows additional properties.
  unfoldable pub unknown_errors : SchemaNode → String → List ValidationError
  unknown_errors n path =
      if not (unwrap_or (keywords n).additional_properties false)
      then unknown_field fragment path ∷ []
      else []

  unfoldable pub missing_errors :
      List String → Entries → String → List String → List ValidationError
  missing_errors [] map prefix ignore_keys = []
  missing_errors (key ∷ keys) map prefix ignore_keys =
      let rest = missing_errors keys map prefix ignore_keys in
      if not (contains_key key map) && not (contains ignore_keys key)
      then missing_field fragment (join_path prefix key) ∷ rest
      else rest

module _ (parse_addr : String → Option IpAddr) (fragment : String) where
  unfoldable pub is_ipv4_cidr : Value → Bool
  is_ipv4_cidr (Value.ip_network addr prefix) = is_v4 addr && leb prefix 32
  is_ipv4_cidr (Value.string text) = elim (parse_ip_network parse_addr text) [
    | none ↦ false
    | some (addr, prefix) ↦ is_v4 addr && leb prefix 32
  ]
  is_ipv4_cidr other = false

  unfoldable pub format_errors : Value → String → List ValidationError
  format_errors value path =
      if is_ipv4_cidr value then [] else invalid_format fragment path "ipv4-cidr" ∷ []

  -- The checks for an accepted value of each type; `inner` are the errors inside a container.
  unfoldable pub kind_errors :
      FieldType → SchemaNode → Value → String → List ValidationError → List ValidationError
  kind_errors FieldType.integer n value path inner = integer_errors fragment n value path
  kind_errors FieldType.string n value path inner = enum_errors fragment n value path
  kind_errors FieldType.ip_network n value path inner = format_errors value path
  kind_errors FieldType.object n value path inner = inner
  kind_errors FieldType.array n value path inner = inner
  kind_errors FieldType.boolean n value path inner = []
  kind_errors FieldType.ip_address n value path inner = []

  -- `walk_node` on a value whose inner errors, if it is a container, are `inner`: the type test
  -- first.
  unfoldable pub checked : SchemaNode → Value → String → List ValidationError → List ValidationError
  checked n value path inner =
      let expected = expected_type n in
      if type_accepts n expected (value_type value)
      then kind_errors expected n value path inner
      else wrong_type fragment path expected (value_type value) ∷ []

-- The errors below the schema that a lookup found, or `absent` where it found none.
unfoldable pub under :
    Option SchemaNode
    → (SchemaNode → List ValidationError)
    → List ValidationError
    → List ValidationError
under none walked absent = absent
under (some n) walked absent = walked n

module _ (parse_addr : String → Option IpAddr) (fragment : String) (writable_only : Bool) where
  -- `walk_property`, with the errors of `walk_node` on the same value.
  unfoldable pub with_read_only : SchemaNode → String → List ValidationError → List ValidationError
  with_read_only n path walked =
      if writable_only && not (keywords n).writable
      then read_only_field fragment path ∷ walked
      else walked

  unfoldable mutual
    pub walk_node : SchemaNode → Value → String → List ValidationError
    walk_node n (Value.object inner) path =
        checked parse_addr fragment n (Value.object inner) path (
          walk_entries n inner path []
          ++ missing_errors fragment (unwrap_or (keywords n).required []) inner path [])
    walk_node n (Value.array l) path =
        checked parse_addr fragment n (Value.array l) path
          (under (item_schema n) (λ s. walk_items s l path 0) [])
    walk_node n other path = checked parse_addr fragment n other path []

    pub walk_items : SchemaNode → Items → String → ℕ → List ValidationError
    walk_items s nil path index = []
    walk_items s (item v l) path index =
        walk_node s v (path <> "[" <> decimal index <> "]") ++ walk_items s l path (suc index)

    pub walk_entries : SchemaNode → Entries → String → List String → List ValidationError
    walk_entries n end prefix ignore_keys = []
    walk_entries n (entry key v l) prefix ignore_keys =
        let here : List ValidationError =
          under (property n key)
            (λ p. with_read_only p (join_path prefix key) (walk_node p v (join_path prefix key)))
            (unknown_errors fragment n (join_path prefix key)) in
        (if contains ignore_keys key then [] else here) ++ walk_entries n l prefix ignore_keys

  unfoldable pub walk_property : SchemaNode → Value → String → List ValidationError
  walk_property n value path = with_read_only n path (walk_node n value path)

  -- The present keys, then the required keys that are absent.
  unfoldable pub walk_map : SchemaNode → Entries → String → List String → List ValidationError
  walk_map n map prefix ignore_keys =
      walk_entries n map prefix ignore_keys
      ++ missing_errors fragment (unwrap_or (keywords n).required []) map prefix ignore_keys
