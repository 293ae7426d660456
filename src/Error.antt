-- ===== src/Error.antt =====
-- crates/netfyr-state/src/error.rs: the errors of the state crate and their text.
use netfyr.Base.{ℕ, String, List, [], ◌∷◌}
use netfyr.Base.Text.{◌<>◌, decimal}
use netfyr.Schema.Types.{ValidationError, validation_error_text}

pub record IndexedValidationError : Type 0 where
  pub state_index : ℕ
  pub error : ValidationError

pub data Error : Type 0 where
  yaml : (message : String) → Error
  multi_document empty_input policy_wrapper_not_supported match_not_mapping : Error
  invalid_top_level unknown_kind unknown_match_key invalid_field_key : String → Error
  match_value_not_string unsupported_scalar : String → Error
  unexpected_match missing_match : (state_index : ℕ) → Error
  no_match_field reserved_field_key : String → (state_index : ℕ) → Error
  validation : List IndexedValidationError → Error

abbrev indexed_texts : List IndexedValidationError → String
indexed_texts [] = ""
indexed_texts (e ∷ es) =
    "; state " <> decimal e.state_index <> ": " <> validation_error_text e.error <> indexed_texts es

-- `impl Display for Error`
unfoldable pub error_text : Error → String
error_text (yaml message) = "YAML error: " <> message
error_text multi_document =
    "input contains more than one YAML document ('---' separator); netfyr's format expresses multiple devices as a top-level list"
error_text empty_input = "input is empty"
error_text (invalid_top_level shape) =
    "invalid top level: expected a device mapping or a list of device mappings, found " <> shape
error_text (unknown_kind kind) = "unknown kind '" <> kind <> "'; expected 'state' (or omit the key)"
error_text policy_wrapper_not_supported =
    "kind 'policy' documents are not parsed here; policy wrappers are handled by the policy parser"
error_text (unknown_match_key key) =
    "unknown match field '" <> key <> "'; valid fields are: name, type, driver, pci_path, mac"
error_text match_not_mapping =
    "the 'match' section must be a mapping of field names to string values"
error_text (match_value_not_string key) = "match field '" <> key <> "' must be a string"
error_text (unexpected_match index) =
    "state at index " <> decimal index <> " has a match section, which is not allowed in query YAML"
error_text (missing_match index) =
    "state at index " <> decimal index <> " has no match section, which is required in policy YAML"
error_text (invalid_field_key shape) =
    "invalid field key (found " <> shape <> "); keys must be strings or numbers"
error_text (unsupported_scalar kind) =
    "unsupported YAML value of type " <> kind <> "; quote the value to store it as a string"
error_text (no_match_field field index) =
    "state at index "
    <> decimal index
    <> " has no '"
    <> field
    <> "' field, which is needed to generate its match"
error_text (reserved_field_key key index) =
    "state at index "
    <> decimal index
    <> " has field '"
    <> key
    <> "', but 'match', 'type', and 'kind' are reserved top-level YAML keys"
error_text (validation errors) = "schema validation failed" <> indexed_texts errors
