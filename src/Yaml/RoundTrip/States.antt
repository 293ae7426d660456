-- ===== src/Yaml/RoundTrip/States.antt =====
-- Reading a state back from its policy or query mapping.
use netfyr.Base.{String, false, ◌≡◌, Option, none, ◌⊎◌}
use netfyr.Base.Equality.{string_eq}
use netfyr.Base.Text.{is_empty_text}
use netfyr.Value.{IpAddr, Value, Entries, end, entry}
use netfyr.Value.Map.{contains_key}
use netfyr.Device.{static, default_priority, State}
use netfyr.Schema.Registry.{SchemaRegistry, implied_device_type}
use netfyr.Schema.Format.Printed.{KeepsAddresses}
use netfyr.Schema.Routing.{top_level_schema}
use netfyr.Yaml.{Numbers, Yaml}
use netfyr.Yaml.Write.{reserved_key}
use netfyr.Yaml.RoundTrip.{KeepsIntegers, IsTold}

module _ {N : Type 0} (numbers : Numbers N) (pa : String → Option IpAddr)
    (di : IpAddr → String) where
  module _ (keeps : KeepsIntegers numbers) (shows : KeepsAddresses pa di) (r : SchemaRegistry) where
    -- The fields can be told along their schemas, and their keys are distinct.
    abbrev pub FieldsTold : Entries → Type 0
    FieldsTold end = Unit
    FieldsTold (entry k v l) =
        (contains_key k l ≡ false) × IsTold pa (top_level_schema r k) v × FieldsTold l

    -- A state that YAML can tell: it is static, with the default priority, no reserved key is one
    -- of its fields, the fields can be told along their schemas, and its type is stated or no field
    -- implies one.
    pub record IsTellable (s : State) : Type 0 where
      pub is_static : s.source ≡ static ""
      pub is_default : s.priority ≡ default_priority (static "")
      pub unreserved : reserved_key numbers di s.fields ≡ none
      pub told : FieldsTold s.fields
      pub typed : (is_empty_text s.device_type ≡ false) ⊎ (implied_device_type r s.fields ≡ none)
