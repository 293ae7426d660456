-- ===== src/Yaml.antt =====
-- crates/netfyr-state/src/yaml.rs: the two YAML formats and their conversion to states. The library
-- serde_yaml gives the document tree; its numbers, its parser and its printer are parameters.
-- A mapping is its entries in order. The keys that the source inserts into a mapping are distinct,
-- since those of an `IndexMap` are, and the reserved ones are no fields: an insertion is at the end.
pub mod Write
pub mod RoundTrip
pub mod Decode
pub mod Policy
mod Tests
use netfyr.Base.{
  ℕ, suc, String, Bool, true, false, not, ◌&&◌, ◌||◌, Option, none, some, List, [], ◌∷◌,
  option_bind, if◌then◌else◌, Result, ok, err, ◌>>=◌, ok_or, any,
}
use netfyr.Base.Int.{ℤ}
use netfyr.Base.Equality.{◌==◌, string_eq, option_eq}
use netfyr.Base.Text.{◌<>◌, is_empty_text, decimal, is_blank, has_infix}
use netfyr.Value.{IpAddr, Value, u64, i64, Items, nil, item, Entries, end, entry, display}
use netfyr.Value.Map
use netfyr.Device.{Source, static, default_priority, Match, any_device, State}
use netfyr.Schema.Types.{SchemaNode, property, item_schema}
use netfyr.Schema.Registry.{SchemaRegistry, implied_device_type}
use netfyr.Schema.Routing.{top_level_schema, decode_string}
use netfyr.Error.{
  Error, yaml, multi_document, empty_input, invalid_top_level, unknown_kind,
  policy_wrapper_not_supported, unknown_match_key, match_not_mapping, invalid_field_key,
  match_value_not_string, unsupported_scalar, reserved_field_key,
}

-- `serde_yaml::Number`
pub record Numbers (N : Type 0) : Type 0 where
  pub as_u64 : N → Option ℕ
  pub as_i64 : N → Option ℤ
  pub of_u64 : ℕ → N
  pub of_i64 : ℤ → N
  pub number_text : N → String

-- `serde_yaml::Value`; a tagged value without the name of its tag, which the source does not read.
mutual
  pub data Yaml (N : Type 0) : Type 0 where
    null : Yaml N
    bool : Bool → Yaml N
    number : N → Yaml N
    string : String → Yaml N
    sequence : YamlItems N → Yaml N
    mapping : YamlEntries N → Yaml N
    tagged : Yaml N → Yaml N

  pub data YamlItems (N : Type 0) : Type 0 where
    last : YamlItems N
    next : Yaml N → YamlItems N → YamlItems N

  pub data YamlEntries (N : Type 0) : Type 0 where
    stop : YamlEntries N
    pair : Yaml N → Yaml N → YamlEntries N → YamlEntries N

-- `shape`
abbrev pub shape : {N : Type 0} → Yaml N → String
shape null = "null"
shape (bool b) = "a boolean"
shape (number n) = "a number"
shape (string s) = "a string"
shape (sequence l) = "a sequence"
shape (mapping m) = "a mapping"
shape (tagged v) = "a tagged value"

-- `parse_kind`
abbrev pub parse_kind : {N : Type 0} → Yaml N → Result (Unit {0}) Error
parse_kind (string kind) =
    if kind == "state"
    then ok tt
    else if kind == "policy"
    then err policy_wrapper_not_supported
    else err (unknown_kind kind)
parse_kind other = err (unknown_kind (shape other))

-- `as_str`, `as_mapping` and `as_i64` look at the value below all tags.
abbrev pub untag : {N : Type 0} → Yaml N → Yaml N
untag (tagged v) = untag v
untag other = other

abbrev pub string_in : {N : Type 0} → Yaml N → Option String
string_in (string s) = some s
string_in other = none

-- `as_str`
abbrev pub as_str : {N : Type 0} → Yaml N → Option String
as_str v = string_in (untag v)

abbrev pub text_pair : {N : Type 0} → String → Yaml N → YamlEntries N → YamlEntries N
text_pair key v m = pair (string key) v m

-- A field of `match:` that is absent is left out.
abbrev pub match_pair : {N : Type 0} → String → Option String → YamlEntries N → YamlEntries N
match_pair key none m = m
match_pair key (some v) m = text_pair key (string v) m

-- The `match:` section in its fixed order.
abbrev pub match_mapping : {N : Type 0} → Match → Yaml N
match_mapping m = mapping (
    match_pair "name" m.name (
      match_pair "type" m.device_type (
        match_pair "driver" m.driver
          (match_pair "pci_path" m.pci_path (match_pair "mac" m.mac stop)))))

-- The match on the key in `parse_match`.
abbrev pub set_match : String → String → Match → Result Match Error
set_match key s m =
    if key == "name"
    then ok (record m { name = some s })
    else if key == "type"
    then ok (record m { device_type = some s })
    else if key == "driver"
    then ok (record m { driver = some s })
    else if key == "pci_path"
    then ok (record m { pci_path = some s })
    else if key == "mac"
    then ok (record m { mac = some s })
    else err (unknown_match_key key)

abbrev pub is_reserved : String → Bool
is_reserved key = key == "match" || key == "type" || key == "kind"

-- What `mapping_to_state` has read so far.
pub record Reading : Type 0 where
  pub match_spec : Match
  pub device_type : String
  pub fields : Entries

abbrev pub empty_reading : Reading
empty_reading = record { match_spec = any_device; device_type = ""; fields = end }

-- The type that the fields imply, for a state with none of its own.
abbrev pub device_type_or : String → Option String → String
device_type_or device_type none = device_type
device_type_or device_type (some implied) =
    if is_empty_text device_type then implied else device_type

abbrev pub state_of : SchemaRegistry → Reading → State
state_of r x = record {
  device_type = device_type_or x.device_type (implied_device_type r x.fields);
  match_spec = x.match_spec;
  fields = x.fields;
  source = static "";
  priority = default_priority (static "");
}

module _ {N : Type 0} (numbers : Numbers N) where
  -- `key_to_string`
  abbrev pub key_to_string : Yaml N → Result String Error
  key_to_string (string s) = ok s
  key_to_string (number n) = ok (numbers.number_text n)
  key_to_string (bool true) = ok "true"
  key_to_string (bool false) = ok "false"
  key_to_string other = err (invalid_field_key (shape other))

  unfoldable pub parse_match_entries : YamlEntries N → Match → Result Match Error
  parse_match_entries stop m = ok m
  parse_match_entries (pair k v rest) m = key_to_string k >>= λ key.
      ok_or (as_str v) (match_value_not_string key) >>= λ s.
      set_match key s m >>= λ m'. parse_match_entries rest m'

  abbrev match_in : Yaml N → Result Match Error
  match_in (mapping m) = parse_match_entries m any_device
  match_in other = err match_not_mapping

  unfoldable pub parse_match : Yaml N → Result Match Error
  parse_match v = match_in (untag v)

  -- The number read as unsigned, then as signed.
  abbrev pub integer_value : Option ℕ → Option ℤ → Result Value Error
  integer_value (some u) i = ok (u64 u)
  integer_value none (some i) = ok (i64 i)
  integer_value none none = err (unsupported_scalar "float")

  abbrev pub number_to_model : N → Result Value Error
  number_to_model n = integer_value (numbers.as_u64 n) (numbers.as_i64 n)

  -- `schema.map_or_else(..)`
  abbrev pub decode_text : (String → Option IpAddr) → Option SchemaNode → String → Value
  decode_text parse_addr none s = Value.string s
  decode_text parse_addr (some n) s = decode_string parse_addr n s

  module _ (parse_addr : String → Option IpAddr) where
    -- The loops push to what they have: `out` is the items and the map so far.
    unfoldable mutual
      pub value_to_model : Yaml N → Option SchemaNode → Result Value Error
      value_to_model null schema = err (unsupported_scalar "null")
      value_to_model (bool b) schema = ok (Value.bool b)
      value_to_model (number n) schema = number_to_model n
      value_to_model (string s) schema = ok (decode_text parse_addr schema s)
      value_to_model (sequence l) schema =
          items_to_model l (option_bind schema item_schema) >>= λ out. ok (Value.array out)
      value_to_model (mapping m) schema =
          entries_to_model m schema end >>= λ out. ok (Value.object out)
      value_to_model (tagged v) schema = err (yaml "tagged YAML values are not supported")

      pub items_to_model : YamlItems N → Option SchemaNode → Result Items Error
      items_to_model last schema = ok nil
      items_to_model (next v l) schema =
          value_to_model v schema >>= λ v'. items_to_model l schema >>= λ l'. ok (item v' l')

      pub entries_to_model : YamlEntries N → Option SchemaNode → Entries → Result Entries Error
      entries_to_model stop schema out = ok out
      entries_to_model (pair k v rest) schema out = key_to_string k >>= λ key.
          value_to_model v (option_bind schema (λ n. property n key)) >>= λ v'.
          entries_to_model rest schema (Map.insert key v' out)

    -- The match on the key in `mapping_to_state`.
    unfoldable pub read_entry : SchemaRegistry → String → Yaml N → Reading → Result Reading Error
    read_entry r key v x =
        if key == "match"
        then (parse_match v >>= λ m. ok (record x { match_spec = m }))
        else if key == "kind"
        then (parse_kind v >>= λ _. ok x)
        else if key == "type"
        then (ok_or (as_str v) (unsupported_scalar (shape v)) >>= λ t.
            ok (record x { device_type = t }))
        else (value_to_model v (top_level_schema r key) >>= λ v'.
            ok (record x { fields = Map.insert key v' x.fields }))

    unfoldable pub read_entries : SchemaRegistry → YamlEntries N → Reading → Result Reading Error
    read_entries r stop x = ok x
    read_entries r (pair k v rest) x =
        key_to_string k >>= λ key. read_entry r key v x >>= λ x'. read_entries r rest x'

    unfoldable pub mapping_to_state : YamlEntries N → SchemaRegistry → Result State Error
    unfolding read_entries
    mapping_to_state m r = read_entries r m empty_reading >>= λ x. ok (state_of r x)

    abbrev list_element : SchemaRegistry → ℕ → Yaml N → Result State Error
    list_element r i (mapping m) = mapping_to_state m r
    list_element r i other = err (
        invalid_top_level
          ("list element " <> decimal i <> " is " <> shape other <> ", not a mapping"))

    abbrev list_elements : SchemaRegistry → ℕ → YamlItems N → Result (List State) Error
    list_elements r i last = ok []
    list_elements r i (next v l) =
        list_element r i v >>= λ s. list_elements r (suc i) l >>= λ ss. ok (s ∷ ss)

    -- The states of a parsed document.
    unfoldable pub document_to_states : Yaml N → SchemaRegistry → Result (List State) Error
    document_to_states (mapping m) r = mapping_to_state m r >>= λ s. ok (s ∷ [])
    document_to_states (sequence l) r = list_elements r 0 l
    document_to_states other r = err (invalid_top_level (shape other))

    abbrev pub read_error : String → Error
    read_error message =
        if has_infix "more than one document" message then multi_document else yaml message

    abbrev pub read_states : SchemaRegistry → Result (Yaml N) String → Result (List State) Error
    read_states r (ok doc) = document_to_states doc r
    read_states r (err message) = err (read_error message)

    -- `read` is `serde_yaml::from_str`, with the text of its error.
    unfoldable pub from_yaml_with_registry :
        (String → Result (Yaml N) String) → String → SchemaRegistry → Result (List State) Error
    from_yaml_with_registry read input r =
        if is_blank input then err empty_input else read_states r (read input)
