-- ===== src/Yaml/Write.antt =====
-- The printing of states in the two YAML formats: `model_to_value`, `state_to_mapping`, `render`.
use netfyr.Base.{
  ℕ, suc, String, Bool, ◌&&◌, ◌||◌, Option, none, some, List, [], ◌∷◌, option_bind, if◌then◌else◌,
  Result, ok, err, ◌>>=◌,
}
use netfyr.Base.Equality.{◌==◌, string_eq, option_eq}
use netfyr.Base.Text.{◌<>◌, is_empty_text, decimal}
use netfyr.Value.{IpAddr, Value, u64, i64, Items, nil, item, Entries, end, entry}
use netfyr.Device.{Match, State}
use netfyr.Schema.Types.{SchemaNode, property, item_schema}
use netfyr.Schema.Registry.{SchemaRegistry, implied_device_type}
use netfyr.Schema.Routing.{top_level_schema}
use netfyr.Error.{Error, yaml, reserved_field_key}
use netfyr.Yaml.{
  Yaml, YamlItems, YamlEntries, text_pair, match_mapping, is_reserved, bool, number, string,
  sequence, mapping, last, next, stop, Numbers,
}

module _ {N : Type 0} (numbers : Numbers N) where
  -- The printer of addresses is `display_ip`.
  module _ (display_ip : IpAddr → String) where
    -- The schema has no part in the result.
    unfoldable mutual
      pub model_to_value : Value → Option SchemaNode → Yaml N
      model_to_value (Value.string s) schema = string s
      model_to_value (u64 n) schema = number (numbers.of_u64 n)
      model_to_value (i64 n) schema = number (numbers.of_i64 n)
      model_to_value (Value.bool b) schema = bool b
      model_to_value (Value.ip_addr a) schema = string (display_ip a)
      model_to_value (Value.ip_network a prefix) schema =
          string (display_ip a <> "/" <> decimal prefix)
      model_to_value (Value.array l) schema =
          sequence (items_to_value l (option_bind schema item_schema))
      model_to_value (Value.object l) schema = mapping (entries_to_value l schema)

      pub items_to_value : Items → Option SchemaNode → YamlItems N
      items_to_value nil schema = last
      items_to_value (item v l) schema = next (model_to_value v schema) (items_to_value l schema)

      pub entries_to_value : Entries → Option SchemaNode → YamlEntries N
      entries_to_value end schema = stop
      entries_to_value (entry k v l) schema =
          text_pair k (model_to_value v (option_bind schema (λ n. property n k)))
            (entries_to_value l schema)

    -- The first reserved key among the fields.
    abbrev pub reserved_key : Entries → Option String
    reserved_key end = none
    reserved_key (entry k v l) = if is_reserved k then some k else reserved_key l

    unfoldable pub fields_to_value : SchemaRegistry → Entries → YamlEntries N
    fields_to_value r end = stop
    fields_to_value r (entry k v l) =
        text_pair k (model_to_value v (top_level_schema r k)) (fields_to_value r l)

    abbrev pub type_pair : Bool → String → YamlEntries N → YamlEntries N
    type_pair omit device_type m = if omit then m else text_pair "type" (string device_type) m

    abbrev pub omits_type : SchemaRegistry → Bool → State → Bool
    omits_type r include_match s =
        is_empty_text s.device_type
        || (include_match && implied_device_type r s.fields == some s.device_type)

    abbrev pub unless_reserved : ℕ → Option String → YamlEntries N → Result (YamlEntries N) Error
    unless_reserved index (some key) m = err (reserved_field_key key index)
    unless_reserved index none m = ok m

    abbrev pub match_section : Bool → Match → YamlEntries N → YamlEntries N
    match_section include_match m rest =
        if include_match then text_pair "match" (match_mapping m) rest else rest

    unfoldable pub state_to_mapping :
        SchemaRegistry → Bool → ℕ → State → Result (YamlEntries N) Error
    state_to_mapping r include_match index s = unless_reserved index (reserved_key s.fields) (
        match_section include_match s.match_spec
          (type_pair (omits_type r include_match s) s.device_type (fields_to_value r s.fields)))

    abbrev states_to_items : SchemaRegistry → Bool → ℕ → List State → Result (YamlItems N) Error
    states_to_items r include_match i [] = ok last
    states_to_items r include_match i (s ∷ ss) = state_to_mapping r include_match i s >>= λ m.
        states_to_items r include_match (suc i) ss >>= λ l. ok (next (mapping m) l)

    -- One state is a mapping, any other number of them a sequence.
    unfoldable pub states_to_document : List State → Bool → SchemaRegistry → Result (Yaml N) Error
    states_to_document (s ∷ []) include_match r =
        state_to_mapping r include_match 0 s >>= λ m. ok (mapping m)
    states_to_document ss include_match r =
        states_to_items r include_match 0 ss >>= λ l. ok (sequence l)

    abbrev printed : Result String String → Result String Error
    printed (ok text) = ok text
    printed (err message) = err (yaml message)

    -- `print` is `serde_yaml::to_string`, with the text of its error.
    unfoldable pub render :
        (Yaml N → Result String String) → List State → Bool → SchemaRegistry → Result String Error
    render print ss include_match r =
        states_to_document ss include_match r >>= λ doc. printed (print doc)
