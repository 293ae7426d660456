-- ===== src/Registry/Plans.antt =====
-- What `select` and `resolve_plan` promise of the backend that they return.
use netfyr.Base.{
  ℕ, suc, ◌≡◌, ◌≢◌, inl, inr, refl, sym, ap, ◌∙◌, subst, arith, true, Option, none, some, List, [],
  ◌∷◌, get_elem?, Bool-cases, Result, ok, err, ◌>>=◌, ok_or, Result-cases, ◌&&◌, All, &&_split,
  binds, bind-ok, eqb_iff,
}
use netfyr.Base.Dict.{get}
use netfyr.Base.Equality.{◌==◌, nat_eq, string_eq, pair_eq, contains}
use netfyr.Plan.Identity.{namespace_eq, interface_eq, same_namespace_iff, same_interface_iff}
use netfyr.Plan.{DeviceObservation, Observation, Operation, StateDiff}
use netfyr.Report.{BackendError, context_of}
use netfyr.Executor.Locate.Sound.{find_from-get_elem?}
use netfyr.Registry.Merge.{some_injective}
use netfyr.Registry.{
  Backend, Backends, owns, find_target, find_owner, check_owner, select, Observations,
  observe_namespace, agree, resolve_from, resolve_plan,
}

-- The backend stands at the position, and it may carry out the operation: it owns the type of the
-- target in the target's namespace, and it supports the kind.
pub record Serves (bs : Backends) (found : ℕ × Backend) (op : Operation) : Type 0 where
  pub listed : get_elem? bs found.0 ≡ some found.1
  pub home : found.1.namespace ≡ op.target.namespace
  pub owning : contains found.1.supported_entities op.target.device_type ≡ true
  pub supported : found.1.supports_operation op.kind ≡ true

ok_or-some : {A : Type 0} (o : Option A) (e : BackendError) (a : A) → ok_or o e ≡ ok a → o ≡ some a
ok_or-some none e a h = cc
ok_or-some (some b) e a h = cc

check_owner-Serves :
    (bs : Backends) (n : ℕ) (op : Operation) (d : DeviceObservation) (i : ℕ) (b : Backend)
    (found : ℕ × Backend)
    → get_elem? bs i ≡ some b
    → (b.namespace == d.identity.namespace && owns b d) ≡ true
    → check_owner (context_of n op) d (i, b) ≡ ok found
    → Serves bs found op
unfolding check_owner
check_owner-Serves bs n op d i b found at own h = elim (Bool-cases (d.identity == op.target)) [
  | inr differs ↦ let no : err _ ≡ ok found = rw differs at h in cc
  | inl exact ↦
      let g = rw exact at h in
      elim (Bool-cases (b.supports_operation op.kind)) [
        | inr unsupported ↦ let no : err _ ≡ ok found = rw unsupported at g in cc
        | inl supported ↦
            let same : ok (i, b) ≡ ok found = rw supported at g in
            let identity = (same_interface_iff d.identity op.target).0 exact in
            let (home, owning) = &&_split (b.namespace == d.identity.namespace) (owns b d) own in
            subst (λ f. Serves bs f op) (cc)
              (record {
                listed = at;
                home =
                    (same_namespace_iff b.namespace d.identity.namespace).0 home
                    ∙ ap (λ k. k.namespace) identity;
                owning =
                    subst (λ k. contains b.supported_entities k.device_type ≡ true) identity owning;
                supported = supported;
              })
      ]
]

select-Serves :
    (bs : Backends) (n : ℕ) (op : Operation) (o : Observation) (found : ℕ × Backend)
    → select bs (context_of n op) o ≡ ok found
    → Serves bs found op
unfolding select find_owner
select-Serves bs n op o found h = elim (Result-cases (find_target (context_of n op) o)) [
  | inr (e, missing) ↦ let no : err e ≡ ok found = rw missing at h in cc
  | inl (d, target) ↦
      let g = rw target at h in
      elim (Result-cases (find_owner bs (context_of n op) d)) [
        | inr (e, unowned) ↦ let no : err e ≡ ok found = rw unowned at g in cc
        | inl (candidate, owner) ↦
            let (i, b) = candidate in
            let last : check_owner (context_of n op) d (i, b) ≡ ok found = rw owner at g in
            let (k, index, listed, own) =
              find_from-get_elem? 0 _ bs i b (ok_or-some _ _ (i, b) owner) in
            check_owner-Serves bs n op d i b found
              (subst (λ m. get_elem? bs m ≡ some b) (omega arith) listed) own last
      ]
]

-- The backend that is resolved so far stands in the registry.
abbrev Stays : Backends → Option (ℕ × Backend) → Type 0
Stays bs resolved = (f : ℕ × Backend) → resolved ≡ some f → get_elem? bs f.0 ≡ some f.1

agree-kept :
    (bs : Backends) (n : ℕ) (op : Operation) (resolved : Option (ℕ × Backend)) (found : ℕ × Backend)
    (next : Option (ℕ × Backend))
    → Stays bs resolved
    → Serves bs found op
    → agree (context_of n op) resolved found ≡ ok next
    → (next ≡ some found) × (resolved ≢ none → resolved ≡ some found)
unfolding agree
agree-kept bs n op none found next stays s e = (cc, λ q. absurd (q refl))
agree-kept bs n op (some (i, first)) (j, b) next stays s e = elim (Bool-cases (i == j)) [
  | inr differs ↦ let no : err _ ≡ ok next = rw differs at e in cc
  | inl same_position ↦
      let position : i ≡ j = (eqb_iff i j).0 same_position in
      let kept : ok (some (i, first)) ≡ ok next = rw same_position at e in
      let backend : first ≡ b =
        some_injective
          (sym (stays (i, first) refl) ∙ ap (λ k. get_elem? bs k) position ∙ s.listed) in
      let same : ◌≡◌ {A = ℕ × Backend} (i, first) (j, b) = λ k. (position k, backend k) in
      (cc, λ q. ap some same)
]

-- Every operation is served by the backend that the loop ends with.
data Resolves (bs : Backends) (ops : List Operation) (resolved : Option (ℕ × Backend))
    : Option (ℕ × Backend) → Type 0 where
  nothing_left : ops ≡ [] → Resolves bs ops resolved resolved
  all_served :
      (found : ℕ × Backend)
      → ops ≢ []
      → All (Serves bs found) ops
      → (resolved ≢ none → resolved ≡ some found)
      → Resolves bs ops resolved (some found)

resolve_next :
    (bs : Backends) (n : ℕ) (op : Operation) (ops : List Operation)
    (resolved next last : Option (ℕ × Backend)) (found : ℕ × Backend)
    → Stays bs resolved
    → Serves bs found op
    → agree (context_of n op) resolved found ≡ ok next
    → Resolves bs ops next last
    → Resolves bs (op ∷ ops) resolved last
resolve_next bs n op ops resolved next last found stays s e (nothing_left finished) =
    let (same, before) = agree-kept bs n op resolved found next stays s e in
    subst (Resolves bs (op ∷ ops) resolved) (sym same)
      (all_served found (λ q. cc) (s, subst (All (Serves bs found)) (sym finished) tt) before)
resolve_next bs n op ops resolved next last found stays s e
      (all_served final some_left later kept) =
    let (same, before) = agree-kept bs n op resolved found next stays s e in
    let equal : found ≡ final = some_injective (sym same ∙ kept (λ q. cc)) in
    all_served final (λ q. cc) (subst (λ f. Serves bs f op) equal s, later)
      (λ q. before q ∙ ap some equal)

agree-Stays :
    (bs : Backends) (n : ℕ) (op : Operation) (resolved : Option (ℕ × Backend)) (found : ℕ × Backend)
    (next : Option (ℕ × Backend))
    → Stays bs resolved
    → Serves bs found op
    → agree (context_of n op) resolved found ≡ ok next
    → Stays bs next
agree-Stays bs n op resolved found next stays s e f h =
    let (same, before) = agree-kept bs n op resolved found next stays s e in
    let equal : found ≡ f = some_injective (sym same ∙ h) in
    subst (λ (g : ℕ × Backend). get_elem? bs g.0 ≡ some g.1) equal s.listed

resolve_from-Resolves :
    (bs : Backends) (n : ℕ) (ops : List Operation) (seen : Observations)
    (resolved last : Option (ℕ × Backend))
    → Stays bs resolved
    → resolve_from bs n ops seen resolved ≡ ok last
    → Resolves bs ops resolved last
unfolding resolve_from
resolve_from-Resolves bs n [] seen resolved last stays e =
    let same : resolved ≡ last = cc in subst (Resolves bs [] resolved) same (nothing_left refl)
resolve_from-Resolves bs n (op ∷ ops) seen resolved last stays e =
    let context = context_of n op in
    let end : Option (ℕ × Backend) → Observations → Result (Option (ℕ × Backend)) BackendError =
      λ next seen'. resolve_from bs (suc n) ops seen' next in
    let rest : Observations → ℕ × Backend → Result (Option (ℕ × Backend)) BackendError =
      λ seen' found. agree context resolved found >>= λ next. end next seen' in
    elim (bind-ok
      (observe_namespace bs context op.target.namespace (get op.target.namespace seen) seen)
      (λ (x : Observation × Observations). select bs context x.0 >>= λ found. rest x.1 found) last
      e) [
        | binds (o, seen') observed e₁ ↦ elim (bind-ok (select bs context o) (rest seen') last e₁) [
          | binds found selected e₂ ↦
              elim (bind-ok (agree context resolved found) (λ next. end next seen') last e₂) [
                | binds next agreed e₃ ↦
                    let s = select-Serves bs n op o found selected in
                    resolve_next bs n op ops resolved next last found stays s agreed (
                      resolve_from-Resolves bs (suc n) ops seen' next last
                        (agree-Stays bs n op resolved found next stays s agreed) e₃)
              ]
        ]
      ]

Resolves-served :
    (bs : Backends) (ops : List Operation) (last : Option (ℕ × Backend)) (found : ℕ × Backend)
    → last ≡ some found
    → Resolves bs ops none last
    → (ops ≢ []) × All (Serves bs found) ops
Resolves-served bs ops last found e (nothing_left finished) = cc
Resolves-served bs ops last found e (all_served final some_left served kept) =
    let same : final ≡ found = cc in (some_left, subst (λ f. All (Serves bs f) ops) same served)

-- When a plan is resolved, the plan has an operation, and every operation of it is served by the
-- resolved backend: the backend stands at the returned position of the registry, its namespace is
-- the target's, it owns the target's device type, and it supports the kind of the operation.
pub resolve_plan-Serves :
    (bs : Backends) (diff : StateDiff) (found : ℕ × Backend)
    → resolve_plan bs diff ≡ ok found
    → (diff.operations ≢ []) × All (Serves bs found) diff.operations
unfolding resolve_plan
resolve_plan-Serves bs diff found e =
    elim (bind-ok (resolve_from bs 0 diff.operations [] none) (λ resolved. ok_or resolved _) found
      e) [
        | binds last resolved ended ↦
            Resolves-served bs diff.operations last found (ok_or-some last _ found ended)
              (resolve_from-Resolves bs 0 diff.operations [] none last (λ f q. cc) resolved)
      ]
