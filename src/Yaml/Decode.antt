-- ===== src/Yaml/Decode.antt =====
-- `SchemaRegistry::decode_yaml` of crates/netfyr-state/src/schema.rs: the states of a document, checked
-- in one of two modes.
use netfyr.Base.{
  ℕ, suc, String, not, Option, none, some, List, [], ◌∷◌, ◌++◌, map, if◌then◌else◌, Result, ok, err,
  ◌>>=◌,
}
use netfyr.Base.Text.{is_empty_text}
use netfyr.Value.{IpAddr}
use netfyr.Device.{kernel, default_priority, is_empty_match, State}
use netfyr.Schema.Types.{ValidationError}
use netfyr.Schema.Registry.{SchemaRegistry, validate, validate_writable}
use netfyr.Schema.Routing.{field_string}
use netfyr.Error.{Error, unexpected_match, missing_match, validation, IndexedValidationError}
use netfyr.Yaml.{Numbers, Yaml, from_yaml_with_registry}

pub data DecodeMode : Type 0 where
  query policy : DecodeMode

abbrev type_of : String → Option String
type_of t = if is_empty_text t then none else some t

-- A query state's selector comes from its fields.
unfoldable pub as_observed : State → State
as_observed s = record s {
  match_spec = record s.match_spec {
    name = field_string s.fields "name";
    device_type = type_of s.device_type;
    driver = field_string s.fields "driver";
    mac = field_string s.fields "mac";
  };
  source = kernel;
  priority = default_priority kernel;
}

abbrev pub finish : DecodeMode → List State → List State
finish query ss = map as_observed ss
finish policy ss = ss

module _ (parse_addr : String → Option IpAddr) (r : SchemaRegistry) where
  -- The match on the mode: whether a selector must be absent or present, and the violations.
  unfoldable pub check_state : DecodeMode → ℕ → State → Result (List ValidationError) Error
  check_state query i s =
      if not (is_empty_match s.match_spec)
      then err (unexpected_match i)
      else ok (validate parse_addr r s)
  check_state policy i s =
      if is_empty_match s.match_spec
      then err (missing_match i)
      else ok (validate_writable parse_addr r s)

  abbrev pub indexed : ℕ → ValidationError → IndexedValidationError
  indexed i e = record { state_index = i; error = e }

  unfoldable pub check_from :
      DecodeMode → ℕ → List State → Result (List IndexedValidationError) Error
  check_from mode i [] = ok []
  check_from mode i (s ∷ ss) = check_state mode i s >>= λ here.
      check_from mode (suc i) ss >>= λ later. ok (map (indexed i) here ++ later)

  abbrev pub unless_invalid : List IndexedValidationError → List State → Result (List State) Error
  unless_invalid [] ss = ok ss
  unless_invalid (e ∷ es) ss = err (validation (e ∷ es))

  unfoldable pub check_states : DecodeMode → List State → Result (List State) Error
  check_states mode ss = check_from mode 0 ss >>= λ errors. unless_invalid errors (finish mode ss)

  unfoldable pub decode_yaml :
      {N : Type 0}
      → Numbers N
      → (String → Result (Yaml N) String)
      → String
      → DecodeMode
      → Result (List State) Error
  decode_yaml numbers read input mode =
      from_yaml_with_registry numbers parse_addr read input r >>= λ ss. check_states mode ss
