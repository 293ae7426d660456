-- ===== src/Apply/Prepared.antt =====
-- What the preparation of states gives, and which states it leaves alone.
use netfyr.Base.{
  ℕ, suc, ◌≡◌, refl, ap, ◌∙◌, subst, arith, String, Bool, true, false, Option, List, [], ◌∷◌, ◌++◌,
  map, length, All, Bool-cases, inl, inr, Result, ok, ◌>>=◌, ok_or, binds, bind-ok,
}
use netfyr.Value.{IpAddr, Value, Entries}
use netfyr.Value.Map.{get}
use netfyr.Device.{State, is_empty_match}
use netfyr.Schema.Registry.{SchemaRegistry, validate_writable}
use netfyr.Schema.Removal.{remove_read_only_fields}
use netfyr.Error.{Error, no_match_field, IndexedValidationError}
use netfyr.Apply.{
  ApplyOptions, ApplyOutcome, MatchBy, by_name, by_mac, Warning, is_observation, reset_match,
  match_field, set_selector, select_type, indexed, collect_from, collect_validation_errors,
  match_text, prepare_with, prepare_state, prepare_from, refuse_invalid,
  prepare_for_apply_with_registry,
}

pub append-eq_nil : {A : Type 0} (xs ys : List A) → xs ++ ys ≡ [] → (xs ≡ []) × (ys ≡ [])
append-eq_nil [] ys h = (refl, h)
append-eq_nil (x ∷ xs) ys h = cc

pub map-eq_nil : {A B : Type 0} (f : A → B) (xs : List A) → map f xs ≡ [] → xs ≡ []
map-eq_nil f [] h = refl
map-eq_nil f (x ∷ xs) h = cc

length-map : {A B : Type 0} (f : A → B) (xs : List A) → length (map f xs) ≡ length xs
length-map f [] = refl
length-map f (x ∷ xs) = ap suc (length-map f xs)

abbrev HasMatch : State → Type 0
HasMatch s = is_empty_match s.match_spec ≡ false

select_type-HasMatch :
    (by : MatchBy) (text : String) (s : State) (l : Entries)
    → HasMatch (select_type (record (set_selector by text s) { fields = l }))
unfolding select_type is_empty_match
select_type-HasMatch by_name text s l = ground arith
select_type-HasMatch by_mac text s l = ground arith

module _ (pa : String → Option IpAddr) (di : IpAddr → String) (r : SchemaRegistry) where
  abbrev Valid : State → Type 0
  Valid s = validate_writable pa r s ≡ []

  -- A state that can be applied as it is.
  abbrev pub IsPrepared : State → Type 0
  IsPrepared s = (is_empty_match s.match_spec ≡ false) × (validate_writable pa r s ≡ [])

  collect_from-Valid :
      (i : ℕ) (ss : List State) → collect_from pa di r true i ss ≡ [] → All Valid ss
  unfolding collect_from
  collect_from-Valid i [] h = tt
  collect_from-Valid i (s ∷ ss) h =
      let (here, later) = append-eq_nil (map (indexed i) (validate_writable pa r s)) _ h in
      (map-eq_nil (indexed i) _ here, collect_from-Valid (suc i) ss later)

  prepare_with-HasMatch :
      (by : MatchBy) (s : State) (value : Value) → HasMatch (prepare_with pa di r by s value).0
  unfolding prepare_with remove_read_only_fields
  prepare_with-HasMatch by s value = select_type-HasMatch by (match_text pa di value) s _

  prepare_state-HasMatch :
      (by : MatchBy) (i : ℕ) (s : State) (x : State × List Warning)
      → prepare_state pa di r by i s ≡ ok x
      → HasMatch x.0
  unfolding prepare_state
  prepare_state-HasMatch by i s x h = elim (Bool-cases (is_empty_match s.match_spec)) [
    | inr given ↦
        let same : ok (s, []) ≡ ok x = rw given at h in
        let equal : (s, []) ≡ x = cc in
        subst (λ (y : State × List Warning). HasMatch y.0) equal given
    | inl absent ↦
        let e : (ok_or (get (match_field by) s.fields) (no_match_field (match_field by) i)
              >>= λ value. ok (prepare_with pa di r by s value))
            ≡ ok x =
          rw absent at h in
        elim (bind-ok (ok_or (get (match_field by) s.fields) (no_match_field (match_field by) i))
          (λ value. ok (prepare_with pa di r by s value)) x e) [
            | binds value found done ↦
                let equal : prepare_with pa di r by s value ≡ x = cc in
                subst (λ (y : State × List Warning). HasMatch y.0) equal
                  (prepare_with-HasMatch by s value)
          ]
  ]

  -- The loop over the states.
  data Prepares (ss : List State) (x : List State × List Warning) : Type 0 where
    prepares : All HasMatch x.0 → length x.0 ≡ length ss → Prepares ss x

  prepare_from-Prepares :
      (by : MatchBy) (i : ℕ) (ss : List State) (x : List State × List Warning)
      → prepare_from pa di r by i ss ≡ ok x
      → Prepares ss x
  unfolding prepare_from
  prepare_from-Prepares by i [] x h =
      let equal : ([], []) ≡ x = cc in subst (Prepares []) equal (prepares tt refl)
  prepare_from-Prepares by i (s ∷ ss) x h =
      elim (bind-ok (prepare_state pa di r by i s)
        (λ (y : State × List Warning).
          prepare_from pa di r by (suc i) ss >>= λ (z : List State × List Warning).
          ok (y.0 ∷ z.0, y.1 ++ z.1))
        x h) [
          | binds y one rest ↦
              elim (bind-ok (prepare_from pa di r by (suc i) ss)
                (λ (z : List State × List Warning). ok (y.0 ∷ z.0, y.1 ++ z.1)) x rest) [
                  | binds z later done ↦
                      let equal : (y.0 ∷ z.0, y.1 ++ z.1) ≡ x = cc in
                      subst (Prepares (s ∷ ss)) equal (
                        add_state s ss y z (prepare_state-HasMatch by i s y one)
                          (prepare_from-Prepares by (suc i) ss z later))
                ]
        ]
    where
      add_state :
          (s : State) (ss : List State) (y : State × List Warning) (z : List State × List Warning)
          → HasMatch y.0
          → Prepares ss z
          → Prepares (s ∷ ss) (y.0 ∷ z.0, y.1 ++ z.1)
      add_state s ss y z has (prepares all count) = prepares (has, all) (ap suc count)

  refuse_invalid-ok :
      (es : List IndexedValidationError) (u : Unit {0}) → refuse_invalid pa di es ≡ ok u → es ≡ []
  refuse_invalid-ok [] u h = refl
  refuse_invalid-ok (e ∷ es) u h = cc

  zip-IsPrepared : (ss : List State) → All HasMatch ss → All Valid ss → All IsPrepared ss
  zip-IsPrepared [] h v = tt
  zip-IsPrepared (s ∷ ss) (h, hs) (v, vs) = ((h, v), zip-IsPrepared ss hs vs)

  -- What the preparation gives has one state for each given state, and each of them can be applied:
  -- it has a selector, and no violation in the policy mode.
  pub prepare_for_apply-prepares :
      (states : List State) (by : ApplyOptions) (out : ApplyOutcome)
      → prepare_for_apply_with_registry pa di states by r ≡ ok out
      → (length out.states ≡ length states) × All IsPrepared out.states
  unfolding prepare_for_apply_with_registry collect_validation_errors
  prepare_for_apply-prepares states by out h =
      let reset = map (reset_match r) states in
      let last : List State × List Warning → Result ApplyOutcome Error = λ x.
        refuse_invalid pa di (collect_from pa di r true 0 x.0) >>= λ _.
        ok (record { states = x.0; warnings = x.1 }) in
      elim (bind-ok (refuse_invalid pa di (collect_from pa di r false 0 reset))
        (λ _. prepare_from pa di r by 0 reset >>= last) out h) [
          | binds u valid rest ↦ elim (bind-ok (prepare_from pa di r by 0 reset) last out rest) [
            | binds x prepared ended ↦
                elim (bind-ok (refuse_invalid pa di (collect_from pa di r true 0 x.0))
                  (λ _. ok (record { states = x.0; warnings = x.1 })) out ended) [
                    | binds v final done ↦
                        let equal : record { states = x.0; warnings = x.1 } ≡ out = cc in
                        subst
                          (λ (o : ApplyOutcome).
                            (length o.states ≡ length states) × All IsPrepared o.states)
                          equal
                          (summary x (prepare_from-Prepares by 0 reset x prepared)
                            (collect_from-Valid 0 x.0 (refuse_invalid-ok _ v final)))
                  ]
          ]
        ]
    where
      summary :
          (x : List State × List Warning)
          → Prepares (map (reset_match r) states) x
          → All Valid x.0
          → (length x.0 ≡ length states) × All IsPrepared x.0
      summary x (prepares has count) valid =
          (count ∙ length-map (reset_match r) states, zip-IsPrepared x.0 has valid)

  prepared-collected :
      (final_states : Bool) (i : ℕ) (ss : List State)
      → All IsPrepared ss
      → collect_from pa di r final_states i ss ≡ []
  unfolding collect_from
  prepared-collected final_states i [] h = refl
  prepared-collected final_states i (s ∷ ss) ((has, valid), hs) = elim (Bool-cases final_states) [
    | inl e ↦ rw (e, valid) (prepared-collected final_states (suc i) ss hs)
    | inr e ↦ rw (e, has, valid) (prepared-collected final_states (suc i) ss hs)
  ]

  prepared-unchanged :
      (by : MatchBy) (i : ℕ) (ss : List State)
      → All IsPrepared ss
      → prepare_from pa di r by i ss ≡ ok (ss, [])
  unfolding prepare_from prepare_state
  prepared-unchanged by i [] h = refl
  prepared-unchanged by i (s ∷ ss) ((has, valid), hs) =
      rw (has, prepared-unchanged by (suc i) ss hs) refl

  map-reset_match :
      (ss : List State) → All (λ s. is_observation r s ≡ false) ss → map (reset_match r) ss ≡ ss
  unfolding reset_match
  map-reset_match [] h = refl
  map-reset_match (s ∷ ss) (e, es) = rw (e, map-reset_match ss es) refl

  -- States that can be applied as they are, of which none reads as an observation of the kernel, are
  -- prepared unchanged and with no warning, by either selector.
  pub prepare_for_apply-unchanged :
      (states : List State) (by : ApplyOptions)
      → All (λ s. is_observation r s ≡ false) states
      → All IsPrepared states
      → prepare_for_apply_with_registry pa di states by r
        ≡ ok (record { states = states; warnings = [] })
  unfolding prepare_for_apply_with_registry collect_validation_errors
  prepare_for_apply-unchanged states by given prepared =
      rw
        (
          map-reset_match states given,
          prepared-collected false 0 states prepared,
          prepared-unchanged by 0 states prepared,
          prepared-collected true 0 states prepared,
        )
        refl
