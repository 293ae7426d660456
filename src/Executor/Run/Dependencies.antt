-- ===== src/Executor/Run/Dependencies.antt =====
-- An operation runs only after all that it depends on.
use netfyr.Base.{
  eqb_refl, ℕ, suc, zero, ◌+◌, ◌<◌, ◌≤◌, ◌≡◌, inl, inr, refl, sym, ◌∙◌, subst, arith, String, Bool,
  true, false, not, Option, some, List, [], ◌∷◌, eqb, leb, any, keep, All, All-map, get_elem?,
  get_or, replicate, length, Bool-cases,
}
use netfyr.Value.{IpAddr}
use netfyr.Plan.{Operation, StateDiff}
use netfyr.Schema.Registry.{SchemaRegistry}
use netfyr.Schema.Embedded.{new_registry}
use netfyr.Report.{ApplyReport}
use netfyr.Executor.Action.{Io, Execution}
use netfyr.Executor.Step.{step}
use netfyr.Executor.Step.Keeps.{Anything-IsClosed}
use netfyr.Executor.Step.Frame.{step-Keeps}
use netfyr.Executor.Run.{empty_report, run_step, run_one, run_from, run_with, run, start}
use netfyr.Executor.Run.Advances.{
  done, Advances, dependencies_ready, failed-Advances, blocked-Advances, result-Advances,
}

module _ {W : Type 0} (pa : String → Option IpAddr) (schema : SchemaRegistry) (io : Io W)
    (diff : StateDiff) (preview : Bool) where
  run_step-Advances :
      (n : ℕ) (op : Operation) (blocked : List ℕ) (x : Execution W) (r : ApplyReport)
      → any (λ d. leb n d) op.depends_on ≡ false
      → keep (λ d. not (get_or x.eligible d false)) op.depends_on ≡ blocked
      → let (y, r') = run_step pa schema io diff preview n op blocked x r in Advances n op x y r r'
  unfolding run_step
  run_step-Advances n op (d ∷ ds) x r h k = blocked-Advances n op x r (d ∷ ds)
  run_step-Advances n op [] x r h k =
      let (s, y) = step pa schema io diff preview n op x in
      let (same, unblocked) =
        (step-Keeps pa schema io diff preview _ (Anything-IsClosed io) n op).at x in
      result-Advances n op x r y same (dependencies_ready n x.eligible op.depends_on h k) s
        unblocked

  run_one-Advances :
      (n : ℕ) (op : Operation) (x : Execution W) (r : ApplyReport)
      → let (y, r') = run_one pa schema io diff preview n op x r in Advances n op x y r r'
  unfolding run_one
  run_one-Advances n op x r = elim (Bool-cases (any (λ d. leb n d) op.depends_on)) [
    | inl bad ↦ rw bad (failed-Advances n op x r _)
    | inr good ↦ rw good (run_step-Advances n op _ x r good refl)
  ]

  -- All marks are of operations that are done, and no operation from `n` on is done.
  record IsSound (n : ℕ) (x : Execution W) (r : ApplyReport) : Type 0 where
    marked_done : (d : ℕ) → get_or x.eligible d false ≡ true → done d r ≡ true
    fresh : (i : ℕ) → n ≤ i → done i r ≡ false

  one-IsSound :
      (n : ℕ) (op : Operation) (x y : Execution W) (r r' : ApplyReport)
      → Advances n op x y r r'
      → IsSound n x r
      → IsSound (suc n) y r'
  one-IsSound n op x y r r' a s = record {
    marked_done = λ d h. elim (a.marks d h) [
      | inl old ↦ elim (Bool-cases (eqb d n)) [
        | inl same ↦ absurd (clash d old same)
        | inr other ↦ a.others d (λ e. ground (arith, eqb_refl n)) ∙ s.marked_done d old
      ]
      | inr (e, finished) ↦ subst (λ i. done i r' ≡ true) (sym e) finished
    ];
    fresh = λ i h. a.others i (λ e. omega arith) ∙ s.fresh i (omega arith);
  }
    where
      clash : (d : ℕ) → get_or x.eligible d false ≡ true → eqb d n ≡ true → ⊥
      clash d old same = ground (arith, s.marked_done d old, s.fresh d)

  -- What is done before `n` stays so, and what is not does not become done.
  run_from-done :
      (n : ℕ) (ops : List Operation) (x : Execution W) (r : ApplyReport) (i : ℕ)
      → i < n
      → done i (run_from pa schema io diff preview n ops x r).1 ≡ done i r
  unfolding run_from
  run_from-done n [] x r i h = refl
  run_from-done n (op ∷ ops) x r i h =
      let a = run_one-Advances n op x r in
      let (y, r') = run_one pa schema io diff preview n op x r in
      run_from-done (suc n) ops y r' i (omega arith) ∙ a.others i (λ e. omega arith)

  -- The first operation of a run.
  first-dependencies :
      (n : ℕ) (op : Operation) (ops : List Operation) (x y : Execution W) (r r' : ApplyReport)
      → IsSound n x r
      → Advances n op x y r r'
      → let final = (run_from pa schema io diff preview (suc n) ops y r').1 in
        done n final ≡ true → All (λ d. (d < n) × (done d final ≡ true)) op.depends_on
  first-dependencies n op ops x y r r' s a h =
      let now : done n r' ≡ true = sym (run_from-done (suc n) ops y r' n (omega arith)) ∙ h in
      elim (a.ready now) [
        | inl old ↦ ground (arith, s.fresh n, old)
        | inr deps ↦ All-map carried op.depends_on deps
      ]
    where
      carried :
          (d : ℕ)
          → (d < n) × (get_or x.eligible d false ≡ true)
          → (d < n) × (done d (run_from pa schema io diff preview (suc n) ops y r').1 ≡ true)
      carried d (lt, mark) = (
        lt,
        run_from-done (suc n) ops y r' d (omega arith)
            ∙ a.others d (λ e. omega arith)
            ∙ s.marked_done d mark,
      )

  run_from-dependencies :
      (n : ℕ) (ops : List Operation) (x : Execution W) (r : ApplyReport)
      → IsSound n x r
      → (k m : ℕ) (op : Operation) → m ≡ n + k
      → get_elem? ops k ≡ some op
      → let final = (run_from pa schema io diff preview n ops x r).1 in
        done m final ≡ true → All (λ d. (d < m) × (done d final ≡ true)) op.depends_on
  unfolding run_from
  run_from-dependencies n [] x r s k m op i e h = cc
  run_from-dependencies n (op ∷ ops) x r s zero m op' i e h =
      let a = run_one-Advances n op x r in
      let (y, r') = run_one pa schema io diff preview n op x r in
      let final = (run_from pa schema io diff preview (suc n) ops y r').1 in
      let n_m : n ≡ m = omega arith in
      let same : op ≡ op' = cc in
      subst (λ o. All (λ d. (d < m) × (done d final ≡ true)) o.depends_on) same
        (subst (λ j. All (λ d. (d < j) × (done d final ≡ true)) op.depends_on) n_m
          (first-dependencies n op ops x y r r' s a (subst (λ j. done j final ≡ true) (sym n_m) h)))
  run_from-dependencies n (op ∷ ops) x r s (suc k) m op' i e h =
      let a = run_one-Advances n op x r in
      let (y, r') = run_one pa schema io diff preview n op x r in
      run_from-dependencies (suc n) ops y r' (one-IsSound n op x y r r' a s) k m op' (omega arith) e
        h

  get_or-replicate : (k d : ℕ) → get_or (replicate k false) d false ≡ false
  get_or-replicate zero d = refl
  get_or-replicate (suc k) zero = refl
  get_or-replicate (suc k) (suc d) = get_or-replicate k d

  start-IsSound : (w : W) → IsSound 0 (start pa schema io diff preview w) empty_report
  unfolding done
  start-IsSound w = record {
    marked_done = λ d h. ground (arith, get_or-replicate (length diff.operations) d);
    fresh = λ i h. refl;
  }

-- When a run reports that an operation succeeded, or that there was nothing to write for it, then
-- the same holds of every operation that it depends on, and each of them stands earlier in the plan.
-- This holds for real runs and for previews.
pub run-dependencies_done :
    {W : Type 0} (pa : String → Option IpAddr) (io : Io W) (diff : StateDiff) (preview : Bool)
    (w : W) (i : ℕ) (op : Operation)
    → get_elem? diff.operations i ≡ some op
    → done i (run pa io diff preview w).0 ≡ true
    → All (λ d. (d < i) × (done d (run pa io diff preview w).0 ≡ true)) op.depends_on
unfolding run run_with done
run-dependencies_done pa io diff preview w i op e h =
    run_from-dependencies pa new_registry io diff preview 0 diff.operations
      (start pa new_registry io diff preview w) empty_report
      (start-IsSound pa new_registry io diff preview w) i i op (omega arith) e h
