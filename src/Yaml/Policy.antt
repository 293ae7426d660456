-- ===== src/Yaml/Policy.antt =====
-- A policy document reaches `apply` as it is written.
use netfyr.Base.{
  ℕ, suc, ◌≡◌, refl, sym, ap, ◌∙◌, subst, String, false, Option, List, [], ◌∷◌, ◌++◌, map, All,
  Bool-cases, inl, inr, Result, ok, err, ◌>>=◌, binds, bind-ok,
}
use netfyr.Base.Text.{is_blank}
use netfyr.Value.{IpAddr}
use netfyr.Device.{static, State, is_empty_match}
use netfyr.Schema.Registry.{SchemaRegistry, validate_writable}
use netfyr.Schema.Types.{ValidationError}
use netfyr.Error.{IndexedValidationError}
use netfyr.Apply.{ApplyOptions, is_observation, prepare_for_apply_with_registry}
use netfyr.Apply.Prepared.{IsPrepared, prepare_for_apply-unchanged, append-eq_nil, map-eq_nil}
use netfyr.Yaml.{
  Numbers, Yaml, YamlItems, YamlEntries, null, bool, number, string, sequence, mapping, tagged,
  last, next, empty_reading, read_entries, state_of, mapping_to_state, list_element, list_elements,
  document_to_states, from_yaml_with_registry, read_states,
}
use netfyr.Yaml.Decode.{
  policy, indexed, check_state, check_from, unless_invalid, check_states, decode_yaml,
}

abbrev IsStatic : State → Type 0
IsStatic s = s.source ≡ static ""

module _ {N : Type 0} (numbers : Numbers N) (pa : String → Option IpAddr) (r : SchemaRegistry) where
  mapping_to_state-IsStatic :
      (m : YamlEntries N) (s : State) → mapping_to_state numbers pa m r ≡ ok s → IsStatic s
  unfolding mapping_to_state
  mapping_to_state-IsStatic m s h =
      elim (bind-ok (read_entries numbers pa r m empty_reading) (λ x. ok (state_of r x)) s h) [
        | binds x read done ↦
            let same : state_of r x ≡ s = cc in sym (ap (λ (t : State). t.source) same)
      ]

  list_element-IsStatic :
      (i : ℕ) (v : Yaml N) (s : State) → list_element numbers pa r i v ≡ ok s → IsStatic s
  list_element-IsStatic i (mapping m) s h = mapping_to_state-IsStatic m s h
  list_element-IsStatic i null s h = cc
  list_element-IsStatic i (bool b) s h = cc
  list_element-IsStatic i (number n) s h = cc
  list_element-IsStatic i (string t) s h = cc
  list_element-IsStatic i (sequence l) s h = cc
  list_element-IsStatic i (tagged v) s h = cc

  list_elements-IsStatic :
      (i : ℕ) (l : YamlItems N) (ss : List State)
      → list_elements numbers pa r i l ≡ ok ss
      → All IsStatic ss
  list_elements-IsStatic i last ss h = let same : [] ≡ ss = cc in subst (All IsStatic) same tt
  list_elements-IsStatic i (next v l) ss h =
      elim (bind-ok (list_element numbers pa r i v)
        (λ s. list_elements numbers pa r (suc i) l >>= λ rest. ok (s ∷ rest)) ss h) [
          | binds s one e ↦
              elim (bind-ok (list_elements numbers pa r (suc i) l) (λ rest. ok (s ∷ rest)) ss e) [
                | binds rest later done ↦
                    let same : s ∷ rest ≡ ss = cc in
                    subst (All IsStatic) same
                      (list_element-IsStatic i v s one, list_elements-IsStatic (suc i) l rest later)
              ]
        ]

  document-IsStatic :
      (doc : Yaml N) (ss : List State)
      → document_to_states numbers pa doc r ≡ ok ss
      → All IsStatic ss
  unfolding document_to_states
  document-IsStatic (mapping m) ss h =
      elim (bind-ok (mapping_to_state numbers pa m r) (λ s. ok (s ∷ [])) ss h) [
        | binds s one done ↦
            let same : s ∷ [] ≡ ss = cc in
            subst (All IsStatic) same (mapping_to_state-IsStatic m s one, tt)
      ]
  document-IsStatic (sequence l) ss h = list_elements-IsStatic 0 l ss h
  document-IsStatic null ss h = cc
  document-IsStatic (bool b) ss h = cc
  document-IsStatic (number n) ss h = cc
  document-IsStatic (string t) ss h = cc
  document-IsStatic (tagged v) ss h = cc

  from_yaml-IsStatic :
      (read : String → Result (Yaml N) String) (input : String) (ss : List State)
      → from_yaml_with_registry numbers pa read input r ≡ ok ss
      → All IsStatic ss
  unfolding from_yaml_with_registry
  from_yaml-IsStatic read input ss h = elim (Bool-cases (is_blank input)) [
    | inl blank ↦ let no : err _ ≡ ok ss = rw blank at h in cc
    | inr given ↦ read_document (read input) (rw given at h)
  ]
    where
      read_document :
          (doc : Result (Yaml N) String) → read_states numbers pa r doc ≡ ok ss → All IsStatic ss
      read_document (ok d) e = document-IsStatic d ss e
      read_document (err m) e = cc

module _ (pa : String → Option IpAddr) (di : IpAddr → String) (r : SchemaRegistry) where
  check_state-ok :
      (i : ℕ) (s : State) (es : List ValidationError)
      → check_state pa r policy i s ≡ ok es
      → (is_empty_match s.match_spec ≡ false) × (es ≡ validate_writable pa r s)
  unfolding check_state
  check_state-ok i s es h = elim (Bool-cases (is_empty_match s.match_spec)) [
    | inl absent ↦ let no : err _ ≡ ok es = rw absent at h in cc
    | inr given ↦ let same : ok (validate_writable pa r s) ≡ ok es = rw given at h in (given, cc)
  ]

  policy-IsPrepared :
      (i : ℕ) (ss : List State) (es : List IndexedValidationError)
      → check_from pa r policy i ss ≡ ok es
      → es ≡ []
      → All (IsPrepared pa di r) ss
  unfolding check_from
  policy-IsPrepared i [] es h none_found = tt
  policy-IsPrepared i (s ∷ ss) es h none_found =
      elim (bind-ok (check_state pa r policy i s)
        (λ here.
          check_from pa r policy (suc i) ss >>= λ later. ok (map (indexed pa r i) here ++ later))
        es h) [
          | binds here one e ↦
              elim (bind-ok (check_from pa r policy (suc i) ss)
                (λ later. ok (map (indexed pa r i) here ++ later)) es e) [
                  | binds later rest done ↦
                      let all : map (indexed pa r i) here ++ later ≡ [] = cc in
                      let (here_nil, later_nil) =
                        append-eq_nil (map (indexed pa r i) here) later all in
                      let (given, errors) = check_state-ok i s here one in
                      (
                        (given, sym errors ∙ map-eq_nil (indexed pa r i) here here_nil),
                        policy-IsPrepared (suc i) ss later rest later_nil,
                      )
                ]
        ]

  check_states-policy :
      (ss out : List State)
      → check_states pa r policy ss ≡ ok out
      → (ss ≡ out) × All (IsPrepared pa di r) ss
  unfolding check_states
  check_states-policy ss out h =
      elim (bind-ok (check_from pa r policy 0 ss) (λ es. unless_invalid pa r es ss) out h) [
        | binds es checked valid ↦
            let (none_found, same) = no_errors es valid in
            (same, policy-IsPrepared 0 ss es checked none_found)
      ]
    where
      no_errors :
          (es : List IndexedValidationError)
          → unless_invalid pa r es ss ≡ ok out
          → (es ≡ []) × (ss ≡ out)
      no_errors [] e = (refl, cc)
      no_errors (x ∷ es) e = cc

  static-settled : (ss : List State) → All IsStatic ss → All (λ s. is_observation r s ≡ false) ss
  unfolding is_observation
  static-settled [] h = tt
  static-settled (s ∷ ss) (h, hs) = (rw h refl, static-settled ss hs)

  -- The states of a policy document that decodes are prepared for `apply` unchanged and with no
  -- warning, by either selector: what is applied is what is written.
  pub decode_yaml-prepare_for_apply :
      {N : Type 0} (numbers : Numbers N) (read : String → Result (Yaml N) String) (input : String)
      (by : ApplyOptions) (states : List State)
      → decode_yaml pa r numbers read input policy ≡ ok states
      → prepare_for_apply_with_registry pa di states by r
        ≡ ok (record { states = states; warnings = [] })
  unfolding decode_yaml
  decode_yaml-prepare_for_apply numbers read input by states h =
      elim (bind-ok (from_yaml_with_registry numbers pa read input r) (check_states pa r policy)
        states h) [
          | binds ss given checked ↦
              let (same, prepared) = check_states-policy ss states checked in
              subst
                (λ x.
                  prepare_for_apply_with_registry pa di x by r
                  ≡ ok (record { states = x; warnings = [] }))
                same
                (prepare_for_apply-unchanged pa di r ss by
                  (static-settled ss (from_yaml-IsStatic numbers pa r read input ss given))
                  prepared)
        ]
