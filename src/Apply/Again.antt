-- ===== src/Apply/Again.antt =====
-- What a second preparation finds.
use netfyr.Base.{
  ℕ, suc, ◌≡◌, refl, subst, arith, String, true, false, not, ◌&&◌, ◌||◌, ◌⊎◌, List, [], ◌∷◌, ◌++◌,
  map, any, All, Bool-cases, inl, inr, ok, ◌>>=◌, ok_or, binds, bind-ok, Option, Result,
}
use netfyr.Base.Text.{is_empty_text}
use netfyr.Value.{IpAddr, Value}
use netfyr.Value.Map.{get, keys}
use netfyr.Device.{State, is_empty_match}
use netfyr.Schema.Registry.{SchemaRegistry}
use netfyr.Schema.Removal.{remove_read_only_fields}
use netfyr.Error.{Error, no_match_field}
use netfyr.Apply.{
  ApplyOptions, ApplyOutcome, MatchBy, Warning, is_kernel, is_read_only_key, is_observation,
  reset_match, match_field, select_type, collect_from, collect_validation_errors, prepare_with,
  prepare_state, prepare_from, refuse_invalid, prepare_for_apply_with_registry,
}
use netfyr.Apply.Prepared.{prepare_for_apply-prepares, prepare_for_apply-unchanged}

-- The state is not the kernel's with a device type.
abbrev Untyped : State → Type 0
Untyped s = (is_kernel s.source && not (is_empty_text s.device_type)) ≡ false

select_type-Untyped : (s : State) → Untyped (select_type s)
unfolding select_type
select_type-Untyped s = elim (Bool-cases (is_empty_text s.device_type)) [
  | inl e ↦ rw e (rw e (ground arith))
  | inr e ↦ rw e (ground arith)
]

-- Either the preparation takes a selector from the fields, or it leaves no type to clear.
abbrev Settles : State → Type 0
Settles s = (is_empty_match s.match_spec ≡ true) ⊎ Untyped s

module _ (r : SchemaRegistry) where
  -- No field has a key that the base schema has read-only.
  abbrev pub NoReadOnlyKey : State → Type 0
  NoReadOnlyKey s = any (is_read_only_key r) (keys s.fields) ≡ false

  reset_match-Settles : (s : State) → Settles (reset_match r s)
  unfolding reset_match is_observation is_empty_match
  reset_match-Settles s =
      elim (Bool-cases (
        is_kernel s.source
        && (not (is_empty_text s.device_type) || any (is_read_only_key r) (keys s.fields)))) [
          | inl e ↦ rw e (inl refl)
          | inr e ↦ rw e (inr (ground (arith, e)))
        ]

  map-Settles : (ss : List State) → All Settles (map (reset_match r) ss)
  map-Settles [] = tt
  map-Settles (s ∷ ss) = (reset_match-Settles s, map-Settles ss)

  is_observation-Untyped : (s : State) → Untyped s → NoReadOnlyKey s → is_observation r s ≡ false
  unfolding is_observation
  is_observation-Untyped s e f = ground (arith, e, f)

  none_observed :
      (ss : List State)
      → All Untyped ss
      → All NoReadOnlyKey ss
      → All (λ s. is_observation r s ≡ false) ss
  none_observed [] es fs = tt
  none_observed (s ∷ ss) (e, es) (f, fs) = (is_observation-Untyped s e f, none_observed ss es fs)

  module _ (pa : String → Option IpAddr) (di : IpAddr → String) where
    prepare_with-Untyped :
        (by : MatchBy) (s : State) (value : Value) → Untyped (prepare_with pa di r by s value).0
    unfolding prepare_with remove_read_only_fields
    prepare_with-Untyped by s value = select_type-Untyped _

    prepare_state-Untyped :
        (by : MatchBy) (i : ℕ) (s : State) (x : State × List Warning)
        → Settles s
        → prepare_state pa di r by i s ≡ ok x
        → Untyped x.0
    unfolding prepare_state
    prepare_state-Untyped by i s x settles h = elim (Bool-cases (is_empty_match s.match_spec)) [
      | inr given ↦
          let same : ok (s, []) ≡ ok x = rw given at h in
          let equal : (s, []) ≡ x = cc in
          subst (λ (y : State × List Warning). Untyped y.0) equal (unreset given settles)
      | inl absent ↦
          let e : (ok_or (get (match_field by) s.fields) (no_match_field (match_field by) i)
                >>= λ value. ok (prepare_with pa di r by s value))
              ≡ ok x =
            rw absent at h in
          elim (bind-ok (ok_or (get (match_field by) s.fields) (no_match_field (match_field by) i))
            (λ value. ok (prepare_with pa di r by s value)) x e) [
              | binds value found done ↦
                  let equal : prepare_with pa di r by s value ≡ x = cc in
                  subst (λ (y : State × List Warning). Untyped y.0) equal
                    (prepare_with-Untyped by s value)
            ]
    ]
      where
        unreset : is_empty_match s.match_spec ≡ false → Settles s → Untyped s
        unreset given (inl absent) = cc
        unreset given (inr untyped) = untyped

    prepare_from-Untyped :
        (by : MatchBy) (i : ℕ) (ss : List State) (x : List State × List Warning)
        → All Settles ss
        → prepare_from pa di r by i ss ≡ ok x
        → All Untyped x.0
    unfolding prepare_from
    prepare_from-Untyped by i [] x settles h =
        let equal : ([], []) ≡ x = cc in
        subst (λ (y : List State × List Warning). All Untyped y.0) equal tt
    prepare_from-Untyped by i (s ∷ ss) x (first, others) h =
        elim (bind-ok (prepare_state pa di r by i s)
          (λ (y : State × List Warning).
            prepare_from pa di r by (suc i) ss >>= λ (z : List State × List Warning).
            ok (y.0 ∷ z.0, y.1 ++ z.1))
          x h) [
            | binds y one rest ↦
                elim (bind-ok (prepare_from pa di r by (suc i) ss)
                  (λ (z : List State × List Warning). ok (y.0 ∷ z.0, y.1 ++ z.1)) x rest) [
                    | binds z later done ↦
                        let equal : (y.0 ∷ z.0, y.1 ++ z.1) ≡ x = cc in
                        subst (λ (w : List State × List Warning). All Untyped w.0) equal
                          (
                            prepare_state-Untyped by i s y first one,
                            prepare_from-Untyped by (suc i) ss z others later,
                          )
                  ]
          ]

    prepared-Untyped :
        (states : List State) (by : ApplyOptions) (out : ApplyOutcome)
        → prepare_for_apply_with_registry pa di states by r ≡ ok out
        → All Untyped out.states
    unfolding prepare_for_apply_with_registry collect_validation_errors
    prepared-Untyped states by out h =
        let reset = map (reset_match r) states in
        let last : List State × List Warning → Result ApplyOutcome Error = λ x.
          refuse_invalid pa di (collect_from pa di r true 0 x.0) >>= λ _.
          ok (record { states = x.0; warnings = x.1 }) in
        elim (bind-ok (refuse_invalid pa di (collect_from pa di r false 0 reset))
          (λ _. prepare_from pa di r by 0 reset >>= last) out h) [
            | binds u valid rest ↦ elim (bind-ok (prepare_from pa di r by 0 reset) last out rest) [
              | binds x prepared ended ↦
                  elim (bind-ok (refuse_invalid pa di (collect_from pa di r true 0 x.0))
                    (λ _. ok (record { states = x.0; warnings = x.1 })) out ended) [
                      | binds v final done ↦
                          let equal : record { states = x.0; warnings = x.1 } ≡ out = cc in
                          subst (λ (o : ApplyOutcome). All Untyped o.states) equal
                            (prepare_from-Untyped by 0 reset x (map-Settles states) prepared)
                    ]
            ]
          ]

    -- What the preparation gives is prepared again, by either selector, to itself and with no warning,
    -- when no field that it leaves has a key that the base schema has read-only.
    pub prepare_for_apply-again :
        (states : List State) (by by' : ApplyOptions) (out : ApplyOutcome)
        → prepare_for_apply_with_registry pa di states by r ≡ ok out
        → All NoReadOnlyKey out.states
        → prepare_for_apply_with_registry pa di out.states by' r
          ≡ ok (record { states = out.states; warnings = [] })
    prepare_for_apply-again states by by' out h plain =
        prepare_for_apply-unchanged pa di r out.states by'
          (none_observed out.states (prepared-Untyped states by out h) plain)
          (prepare_for_apply-prepares pa di r states by out h).1
