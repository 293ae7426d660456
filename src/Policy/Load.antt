-- ===== src/Policy/Load.antt =====
-- The reading of policy documents: `load_document` and `policy_from_mapping`. The parser and the
-- printer of serde_yaml are `read` and `print`, with the texts of their errors; a name that was seen
-- is an entry of a list.
use netfyr.Base.{
  ℕ, suc, ◌+◌, String, Bool, true, false, ◌&&◌, ◌||◌, Option, none, some, List, [], ◌∷◌, ◌++◌,
  is_nil, leb, if◌then◌else◌, Result, ok, err, ◌>>=◌, ok_or, option_bind,
}
use netfyr.Base.Int.{ℤ, pos, negsuc}
use netfyr.Base.Equality.{◌==◌, string_eq, contains, option_eq}
use netfyr.Base.Text.{◌<>◌, is_empty_text, decimal, has_infix}
use netfyr.Value.{IpAddr, Value, u64, i64, Items, nil, item, Entries, end}
use netfyr.Value.Map
use netfyr.Device.{State, is_empty_match}
use netfyr.Schema.Registry.{SchemaRegistry, validate_writable}
use netfyr.Apply.{ApplyOptions, Warning, prepare_for_apply_with_registry}
use netfyr.Yaml.{
  Numbers, Yaml, YamlItems, YamlEntries, null, bool, number, string, sequence, mapping, tagged,
  last, next, stop, pair, shape, untag, string_in, as_str, from_yaml_with_registry,
}
use netfyr.Policy.{
  PolicyError, yaml, invalid_top_level, unknown_kind, duplicate_name, multi_document, empty_name,
  missing_match, invalid_priority, metadata_not_mapping, validation, Policy, schema_registry,
}

pub record LoadOutcome : Type 0 where
  pub policies : List Policy
  pub warnings : List Warning

-- `mapping_get`: the value at a string key; a tagged key is another one.
abbrev pub mapping_get : {N : Type 0} → YamlEntries N → String → Option (Yaml N)
mapping_get stop name = none
mapping_get (pair k v rest) name =
    if string_in k == some name then some v else mapping_get rest name

-- Whether the document is an explicit policy.
abbrev pub is_explicit : {N : Type 0} → Option (Yaml N) → Result Bool PolicyError
is_explicit none = ok false
is_explicit (some (string kind)) =
    if kind == "state"
    then ok false
    else if kind == "policy"
    then ok true
    else err (unknown_kind kind)
is_explicit (some other) = err (unknown_kind (shape other))

abbrev pub non_empty : Option String → Option String
non_empty none = none
non_empty (some name) = if is_empty_text name then none else some name

abbrev pub policy_name : {N : Type 0} → Bool → YamlEntries N → String → Result String PolicyError
policy_name explicit m fallback =
    if explicit
    then ok_or (non_empty (option_bind (mapping_get m "name") as_str)) empty_name
    else ok fallback

-- `i32::try_from`
abbrev pub as_i32 : ℤ → Option ℤ
as_i32 (pos n) = if leb n 2147483647 then some (pos n) else none
as_i32 (negsuc k) = if leb k 2147483647 then some (negsuc k) else none

-- A key of the policy wrapper, which is no part of the state.
abbrev pub is_wrapper_key : Bool → String → Bool
is_wrapper_key explicit key =
    key == "kind" || key == "metadata" || key == "priority" || (explicit && key == "name")

abbrev pub is_wrapper : {N : Type 0} → Bool → Yaml N → Bool
is_wrapper explicit k = elim (as_str k) [ none ↦ false | some key ↦ is_wrapper_key explicit key ]

unfoldable pub state_entries : {N : Type 0} → Bool → YamlEntries N → YamlEntries N
state_entries explicit stop = stop
state_entries explicit (pair k v rest) =
    let others = state_entries explicit rest in
    if is_wrapper explicit k then others else pair k v others

abbrev pub yaml_error : String → PolicyError
yaml_error message =
    if has_infix "more than one document" message then multi_document else yaml message

abbrev pub print_error : Result String String → Result String PolicyError
print_error (ok text) = ok text
print_error (err message) = err (yaml message)

abbrev pub state_error : {A : Type 0} → Result A netfyr.Error.Error → Result A PolicyError
state_error (ok a) = ok a
state_error (err e) = err (PolicyError.state e)

-- `pop().expect(..)` and `next().expect(..)`: the one state of a mapping. For none the source would
-- panic.
abbrev pub one_state : List State → Result State PolicyError
one_state [] = err (yaml "mapping yields one state")
one_state (s ∷ []) = ok s
one_state (s ∷ t ∷ ss) = one_state (t ∷ ss)

module _ {N : Type 0} (numbers : Numbers N) where
  abbrev priority_in : Yaml N → Result ℤ PolicyError
  priority_in (number n) = ok_or (option_bind (numbers.as_i64 n) as_i32) invalid_priority
  priority_in other = err invalid_priority

  unfoldable pub parse_priority : Yaml N → Result ℤ PolicyError
  parse_priority v = priority_in (untag v)

  abbrev pub parse_priority_at : Option (Yaml N) → Result (Option ℤ) PolicyError
  parse_priority_at none = ok none
  parse_priority_at (some v) = parse_priority v >>= λ p. ok (some p)

  abbrev pub metadata_number : Option ℕ → Option ℤ → Result Value PolicyError
  metadata_number (some u) i = ok (u64 u)
  metadata_number none (some i) = ok (i64 i)
  metadata_number none none = err (yaml "floating-point metadata values are unsupported")

  unfoldable mutual
    pub yaml_map_to_model : Yaml N → Result Value PolicyError
    yaml_map_to_model null = err (yaml "null metadata values are unsupported")
    yaml_map_to_model (bool b) = ok (Value.bool b)
    yaml_map_to_model (number n) = metadata_number (numbers.as_u64 n) (numbers.as_i64 n)
    yaml_map_to_model (string s) = ok (Value.string s)
    yaml_map_to_model (sequence l) = metadata_items l >>= λ l'. ok (Value.array l')
    yaml_map_to_model (mapping m) = metadata_entries m end >>= λ m'. ok (Value.object m')
    yaml_map_to_model (tagged v) = err (yaml "tagged metadata values are unsupported")

    pub metadata_items : YamlItems N → Result Items PolicyError
    metadata_items last = ok nil
    metadata_items (next v l) =
        yaml_map_to_model v >>= λ v'. metadata_items l >>= λ l'. ok (item v' l')

    pub metadata_entries : YamlEntries N → Entries → Result Entries PolicyError
    metadata_entries stop out = ok out
    metadata_entries (pair k v rest) out =
        ok_or (as_str k) (yaml "metadata keys must be strings") >>= λ key.
        yaml_map_to_model v >>= λ v'. metadata_entries rest (Map.insert key v' out)

  -- `into_map`
  abbrev pub into_map : Value → Result Entries PolicyError
  into_map (Value.object l) = ok l
  into_map other = err metadata_not_mapping

  abbrev pub parse_metadata : Option (Yaml N) → Result (Option Entries) PolicyError
  parse_metadata none = ok none
  parse_metadata (some v) = yaml_map_to_model v >>= λ x. into_map x >>= λ l. ok (some l)

  module _ (parse_addr : String → Option IpAddr) (display_ip : IpAddr → String)
      (read : String → Result (Yaml N) String) (print : Yaml N → Result String String)
      (options : ApplyOptions) where
    unfoldable pub validate_policy_state : State → SchemaRegistry → Result (Unit {0}) PolicyError
    validate_policy_state s r =
        if is_nil (validate_writable parse_addr r s)
        then ok tt
        else err (validation (validate_writable parse_addr r s))

    -- The state's match decides how it is checked or prepared.
    unfoldable pub settle :
        Bool → State → SchemaRegistry → Result (State × List Warning) PolicyError
    settle explicit s r =
        if explicit
        then (if is_empty_match s.match_spec
            then err missing_match
            else (validate_policy_state s r >>= λ _. ok (s, [])))
        else if is_empty_match s.match_spec
        then (state_error (prepare_for_apply_with_registry parse_addr display_ip (s ∷ []) options r)
            >>= λ prepared. one_state prepared.states >>= λ s'. ok (s', prepared.warnings))
        else (validate_policy_state s r >>= λ _. ok (s, []))

    abbrev pub policy_of_state :
        String → Option ℤ → Option Entries → State × List Warning → Policy × List Warning
    policy_of_state name priority metadata (s, warnings) = (
      record {
        name = name;
        match_spec = s.match_spec;
        device_type = s.device_type;
        fields = s.fields;
        priority = priority;
        metadata = metadata;
      },
      warnings,
    )

    unfoldable pub policy_from_mapping :
        YamlEntries N → String → Result (Policy × List Warning) PolicyError
    policy_from_mapping m fallback = is_explicit (mapping_get m "kind") >>= λ explicit.
        policy_name explicit m fallback >>= λ name.
        parse_priority_at (mapping_get m "priority") >>= λ priority.
        parse_metadata (mapping_get m "metadata") >>= λ metadata.
        print_error (print (mapping (state_entries explicit m))) >>= λ text.
        state_error (from_yaml_with_registry numbers parse_addr read text schema_registry)
        >>= λ states. one_state states >>= λ s. settle explicit s schema_registry >>= λ settled.
            ok (policy_of_state name priority metadata settled)

    -- A policy whose name is new joins the outcome.
    abbrev pub add_loaded :
        List String → Policy × List Warning → LoadOutcome → Result LoadOutcome PolicyError
    add_loaded names (p, warnings) out =
        if contains names p.name
        then err (duplicate_name p.name)
        else ok (record { policies = out.policies ++ p ∷ []; warnings = out.warnings ++ warnings })

    abbrev pub fallback_name : Bool → String → ℕ → String
    fallback_name multiple stem index =
        if multiple then stem <> "-" <> decimal (index + 1) else stem

    unfoldable pub load_mappings :
        Bool
        → String
        → ℕ
        → List (YamlEntries N)
        → List String
        → LoadOutcome
        → Result LoadOutcome PolicyError
    load_mappings multiple stem index [] names out = ok out
    load_mappings multiple stem index (m ∷ ms) names out =
        policy_from_mapping m (fallback_name multiple stem index) >>= λ loaded.
        add_loaded names loaded out >>= λ out'.
        load_mappings multiple stem (suc index) ms (loaded.0.name ∷ names) out'

    abbrev mapping_or : String → Yaml N → Result (YamlEntries N) PolicyError
    mapping_or text (mapping m) = ok m
    mapping_or text other = err (invalid_top_level text)

    abbrev pub as_mapping : Yaml N → Result (YamlEntries N) PolicyError
    as_mapping v = mapping_or (shape v) (untag v)

    abbrev pub mappings_of : YamlItems N → Result (List (YamlEntries N)) PolicyError
    mappings_of last = ok []
    mappings_of (next v l) = as_mapping v >>= λ m. mappings_of l >>= λ ms. ok (m ∷ ms)

    abbrev pub nothing_loaded : LoadOutcome
    nothing_loaded = record { policies = []; warnings = [] }

    unfoldable pub load_value : String → Yaml N → Result LoadOutcome PolicyError
    load_value stem (mapping m) = load_mappings false stem 0 (m ∷ []) [] nothing_loaded
    load_value stem (sequence l) =
        mappings_of l >>= λ ms. load_mappings true stem 0 ms [] nothing_loaded
    load_value stem other = err (invalid_top_level (shape other))

    abbrev pub read_document : Result (Yaml N) String → Result (Yaml N) PolicyError
    read_document (ok doc) = ok doc
    read_document (err message) = err (yaml_error message)

    unfoldable pub load_document : String → String → Result LoadOutcome PolicyError
    load_document input stem = read_document (read input) >>= λ doc. load_value stem doc
