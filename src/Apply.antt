-- ===== src/Apply.antt =====
-- crates/netfyr-state/src/apply.rs: the preparation of states for `apply`. The parser and the printer
-- of addresses are parameters, as in the schema and in `Value`.
pub mod Prepared
pub mod Again
mod Tests
use netfyr.Base.{
  ℕ, suc, String, Bool, true, false, not, ◌&&◌, ◌||◌, Option, none, some, List, [], ◌∷◌, ◌++◌, map,
  any, is_nil, if◌then◌else◌, Result, ok, err, ◌>>=◌, ok_or,
}
use netfyr.Base.Equality.{◌==◌, string_eq}
use netfyr.Base.Text.{◌<>◌, is_empty_text}
use netfyr.Value.{IpAddr, Value, display}
use netfyr.Value.Map.{get, shift_remove, keys}
use netfyr.Device.{Source, kernel, Match, any_device, is_empty_match, State}
use netfyr.Schema.Types.{ValidationError}
use netfyr.Schema.Registry.{SchemaRegistry, field_info, validate, validate_writable}
use netfyr.Schema.Embedded.{new_registry}
use netfyr.Schema.Removal.{remove_read_only_fields}
use netfyr.Error.{Error, no_match_field, validation, IndexedValidationError}

pub data MatchBy : Type 0 where
  by_name by_mac : MatchBy

-- `ApplyOptions`
abbrev pub ApplyOptions : Type 0
ApplyOptions = MatchBy

pub record Warning : Type 0 where
  pub key : String
  pub known_read_only : Bool

-- `impl Display for Warning`
unfoldable pub warning_text : Warning → String
warning_text w =
    if w.known_read_only
    then "dropping field '" <> w.key <> "' (not settable by policy)"
    else "dropping field '" <> w.key <> "'"

pub record ApplyOutcome : Type 0 where
  pub states : List State
  pub warnings : List Warning

abbrev pub is_kernel : Source → Bool
is_kernel kernel = true
is_kernel other = false

-- The base fragment defines the key read-only.
abbrev pub is_read_only_key : SchemaRegistry → String → Bool
is_read_only_key r key = elim (field_info r "base" key) [
  | none ↦ false
  | some field ↦ not field.writable
]

-- The state reads as an observation of the kernel.
unfoldable pub is_observation : SchemaRegistry → State → Bool
is_observation r s =
    is_kernel s.source
    && (not (is_empty_text s.device_type) || any (is_read_only_key r) (keys s.fields))

-- The body of the first loop.
unfoldable pub reset_match : SchemaRegistry → State → State
reset_match r s = if is_observation r s then record s { match_spec = any_device } else s

abbrev pub match_field : MatchBy → String
match_field by_name = "name"
match_field by_mac = "mac"

abbrev pub set_selector : MatchBy → String → State → State
set_selector by_name text s = record s {
  match_spec = record s.match_spec { name = some text };
  fields = shift_remove "name" s.fields;
}
set_selector by_mac text s = record s {
  match_spec = record s.match_spec { mac = some text };
  fields = shift_remove "mac" s.fields;
}

abbrev pub dropped : String → Warning
dropped key = record { key = key; known_read_only = true }

-- The device type becomes a part of the selector.
unfoldable pub select_type : State → State
select_type s = if is_empty_text s.device_type then s else record s {
  match_spec = record s.match_spec { device_type = some s.device_type };
  device_type = "";
}

abbrev pub indexed : ℕ → ValidationError → IndexedValidationError
indexed i e = record { state_index = i; error = e }

module _ (parse_addr : String → Option IpAddr) (display_ip : IpAddr → String) where
  -- The violations of the state at the index `i`.
  abbrev pub state_errors : SchemaRegistry → Bool → State → List ValidationError
  state_errors r final_states s =
      if final_states || not (is_empty_match s.match_spec)
      then validate_writable parse_addr r s
      else validate parse_addr r s

  unfoldable pub collect_from : SchemaRegistry → Bool → ℕ → List State → List IndexedValidationError
  collect_from r final_states i [] = []
  collect_from r final_states i (s ∷ ss) =
      map (indexed i) (state_errors r final_states s) ++ collect_from r final_states (suc i) ss

  unfoldable pub collect_validation_errors :
      List State → SchemaRegistry → Bool → List IndexedValidationError
  unfolding collect_from
  collect_validation_errors ss r final_states = collect_from r final_states 0 ss

  -- A value that is no string is coerced to its text.
  abbrev pub match_text : Value → String
  match_text (Value.string s) = s
  match_text other = display display_ip other

  -- The part of the second loop's body for an empty match, from the value of the match field.
  unfoldable pub prepare_with : SchemaRegistry → MatchBy → State → Value → State × List Warning
  prepare_with r by s value =
      let (left, removed) = remove_read_only_fields r (set_selector by (match_text value) s) in
      (select_type left, map dropped removed)

  -- The body of the second loop.
  unfoldable pub prepare_state :
      SchemaRegistry → MatchBy → ℕ → State → Result (State × List Warning) Error
  prepare_state r by i s =
      if not (is_empty_match s.match_spec)
      then ok (s, [])
      else ok_or (get (match_field by) s.fields) (no_match_field (match_field by) i) >>= λ value.
          ok (prepare_with r by s value)

  unfoldable pub prepare_from :
      SchemaRegistry → MatchBy → ℕ → List State → Result (List State × List Warning) Error
  prepare_from r by i [] = ok ([], [])
  prepare_from r by i (s ∷ ss) = prepare_state r by i s >>= λ (s', warnings).
      prepare_from r by (suc i) ss >>= λ (ss', later). ok (s' ∷ ss', warnings ++ later)

  -- A list of states with no violation.
  abbrev pub refuse_invalid : List IndexedValidationError → Result (Unit {0}) Error
  refuse_invalid [] = ok tt
  refuse_invalid (e ∷ es) = err (validation (e ∷ es))

  unfoldable pub prepare_for_apply_with_registry :
      List State → ApplyOptions → SchemaRegistry → Result ApplyOutcome Error
  prepare_for_apply_with_registry states by r =
      let reset = map (reset_match r) states in
      refuse_invalid (collect_validation_errors reset r false) >>= λ _.
      prepare_from r by 0 reset >>= λ (prepared, warnings).
      refuse_invalid (collect_validation_errors prepared r true) >>= λ _.
      ok (record { states = prepared; warnings = warnings })

  unfoldable pub prepare_for_apply : List State → ApplyOptions → Result ApplyOutcome Error
  unfolding prepare_for_apply_with_registry
  prepare_for_apply states by = prepare_for_apply_with_registry states by new_registry
