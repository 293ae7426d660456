-- ===== src/Executor/Run/Completeness.antt =====
-- Every operation of a plan is reported exactly once.
use mathlib.Core.List.{append_assoc, append-nil, map-append}
use netfyr.Base.{
  ℕ, suc, ◌<◌, ◌≡◌, refl, sym, ap, ◌∙◌, subst, String, Bool, true, false, Option, List, [], ◌∷◌,
  ◌++◌, map, Result, ok, err, some, none, arith, All-append, All-map, All-split, is_nil, Bool-cases,
  inl, inr, any, leb, keep, not, get_or,
}
use netfyr.Base.Sort.{sort_by, sort_by_largest, Below}
use netfyr.Value.{IpAddr}
use netfyr.Plan.{Operation, StateDiff}
use netfyr.Schema.Registry.{SchemaRegistry}
use netfyr.Schema.Embedded.{new_registry}
use netfyr.Report.{
  BackendError, OperationContext, context_of, SkipReason, dependency_failed, SkippedOperation,
  FailedOperation, ApplyReport, PlannedOperation,
}
use netfyr.Executor.Action.{Io, Execution}
use netfyr.Executor.Step.{step}
use netfyr.Executor.Run.{
  empty_report, push_failed, push_skipped, push_succeeded, failed_from, failed_one, failed_report,
  planned_write, planned_skip, planned_fail, plan_index, planned, preview_report, record_result,
  run_step, run_one, run_from, run_with, run, preview_plan, start,
}

abbrev entry_context : PlannedOperation → OperationContext
entry_context p = p.context

lt_suc : {m n : ℕ} → m < n → m < suc n
lt_suc h = omega arith

-- The operations of a report, each list's entries together, in plan order.
abbrev pub reported : ApplyReport → List OperationContext
reported r = map entry_context (sort_by plan_index (planned r))

-- The operations of a plan, from the index `n` on.
abbrev pub contexts_from : ℕ → List Operation → List OperationContext
contexts_from n [] = []
contexts_from n (op ∷ ops) = context_of n op ∷ contexts_from (suc n) ops

-- All entries have indices below `n`.
abbrev IsBefore : ℕ → ApplyReport → Type 0
IsBefore n r = Below plan_index n (planned r)

-- A new entry with the largest index, wherever it stands among the old ones.
insert_entry :
    (n : ℕ) (xs : List PlannedOperation) (p : PlannedOperation) (ys : List PlannedOperation)
    → plan_index p ≡ n
    → Below plan_index n (xs ++ ys)
    → (map entry_context (sort_by plan_index (xs ++ p ∷ ys))
        ≡ map entry_context (sort_by plan_index (xs ++ ys)) ++ p.context ∷ [])
      × Below plan_index (suc n) (xs ++ p ∷ ys)
insert_entry n xs p ys e b =
    let (bx, by) = All-split (λ q. plan_index q < n) xs ys b in
    let raise = λ (q : PlannedOperation) (h : plan_index q < n). lt_suc h in
    (
      ap (map entry_context) (
            sort_by_largest plan_index xs p ys (subst (λ k. Below plan_index k xs) (sym e) bx)
              (subst (λ k. Below plan_index k ys) (sym e) by))
          ∙ map-append entry_context (sort_by plan_index (xs ++ ys)) (p ∷ []),
      All-append (λ q. plan_index q < suc n) xs (p ∷ ys) (All-map raise xs bx)
          (omega arith, All-map raise ys by),
    )

-- The report `r'` has the entries of `r` and one more, of the operation `c`.
record Extends (n : ℕ) (r : ApplyReport) (c : OperationContext) (r' : ApplyReport) : Type 0 where
  one_more : reported r' ≡ reported r ++ c ∷ []
  before : IsBefore (suc n) r'

-- The same, with the entries of the new report written in two parts around the new one.
extends :
    (n : ℕ) (r r' : ApplyReport) (xs : List PlannedOperation) (p : PlannedOperation)
    (ys : List PlannedOperation)
    → plan_index p ≡ n
    → planned r ≡ xs ++ ys
    → planned r' ≡ xs ++ p ∷ ys
    → IsBefore n r
    → Extends n r p.context r'
extends n r r' xs p ys e old new b =
    let (more, below) = insert_entry n xs p ys e (subst (Below plan_index n) old b) in
    record {
      one_more =
          ap (λ l. map entry_context (sort_by plan_index l)) new
          ∙ more
          ∙ ap (λ l. map entry_context (sort_by plan_index l) ++ p.context ∷ []) (sym old);
      before = subst (Below plan_index (suc n)) (sym new) below;
    }

module _ (n : ℕ) (op : Operation) (r : ApplyReport) (b : IsBefore n r) where
  abbrev writes : List PlannedOperation
  writes = map planned_write r.succeeded

  abbrev skips : List PlannedOperation
  skips = map planned_skip r.skipped

  abbrev fails : List PlannedOperation
  fails = map planned_fail r.failed

  succeeded-Extends : Extends n r (context_of n op) (push_succeeded (context_of n op) r)
  succeeded-Extends =
      extends n r (push_succeeded (context_of n op) r) writes (planned_write (context_of n op))
        (skips ++ fails) refl refl
        (ap (λ l. l ++ (skips ++ fails))
            (map-append planned_write r.succeeded (context_of n op ∷ []))
          ∙ append_assoc writes (planned_write (context_of n op) ∷ []) (skips ++ fails))
        b

  skipped-Extends :
      (s : SkipReason) → Extends n r (context_of n op) (push_skipped (context_of n op) s r)
  skipped-Extends s =
      let e : SkippedOperation = record { context = context_of n op; reason = s } in
      extends n r (push_skipped (context_of n op) s r) (writes ++ skips) (planned_skip e) fails refl
        (sym (append_assoc writes skips fails))
        (ap (λ l. writes ++ (l ++ fails)) (map-append planned_skip r.skipped (e ∷ []))
          ∙ ap (λ l. writes ++ l) (append_assoc skips (planned_skip e ∷ []) fails)
          ∙ sym (append_assoc writes skips (planned_skip e ∷ fails)))
        b

  failed-Extends :
      (x : BackendError) → Extends n r (context_of n op) (push_failed (context_of n op) x r)
  failed-Extends x =
      let e : FailedOperation = record { context = context_of n op; error = x } in
      extends n r (push_failed (context_of n op) x r) (writes ++ (skips ++ fails)) (planned_fail e)
        [] refl (sym (append-nil (writes ++ (skips ++ fails))))
        (ap (λ l. writes ++ (skips ++ l)) (map-append planned_fail r.failed (e ∷ []))
          ∙ ap (λ l. writes ++ l) (sym (append_assoc skips fails (planned_fail e ∷ [])))
          ∙ sym (append_assoc writes (skips ++ fails) (planned_fail e ∷ [])))
        b

  result-Extends :
      (x : Result (Option SkipReason) BackendError)
      → Extends n r (context_of n op) (record_result (context_of n op) x r)
  result-Extends (ok none) = succeeded-Extends
  result-Extends (ok (some s)) = skipped-Extends s
  result-Extends (err e) = failed-Extends e

module _ {W : Type 0} (pa : String → Option IpAddr) (schema : SchemaRegistry) (io : Io W)
    (diff : StateDiff) (preview : Bool) where
  run_step-Extends :
      (n : ℕ) (op : Operation) (blocked : List ℕ) (x : Execution W) (r : ApplyReport)
      → IsBefore n r
      → Extends n r (context_of n op) (run_step pa schema io diff preview n op blocked x r).1
  unfolding run_step
  run_step-Extends n op (d ∷ ds) x r b = skipped-Extends n op r b (dependency_failed (d ∷ ds))
  run_step-Extends n op [] x r b = result-Extends n op r b (step pa schema io diff preview n op x).0

  run_one-Extends :
      (n : ℕ) (op : Operation) (x : Execution W) (r : ApplyReport)
      → IsBefore n r
      → Extends n r (context_of n op) (run_one pa schema io diff preview n op x r).1
  unfolding run_one
  run_one-Extends n op x r b = elim (Bool-cases (any (λ d. leb n d) op.depends_on)) [
    | inl bad ↦ rw bad (failed-Extends n op r b _)
    | inr good ↦
        rw good
          (run_step-Extends n op (keep (λ d. not (get_or x.eligible d false)) op.depends_on) x r b)
  ]

  run_from-reported :
      (n : ℕ) (ops : List Operation) (x : Execution W) (r : ApplyReport)
      → IsBefore n r
      → reported (run_from pa schema io diff preview n ops x r).1
        ≡ reported r ++ contexts_from n ops
  unfolding run_from
  run_from-reported n [] x r b = sym (append-nil (reported r))
  run_from-reported n (op ∷ ops) x r b =
      let step = run_one-Extends n op x r b in
      let (y, r') = run_one pa schema io diff preview n op x r in
      run_from-reported (suc n) ops y r' step.before
      ∙ ap (λ l. l ++ contexts_from (suc n) ops) step.one_more
      ∙ append_assoc (reported r) (context_of n op ∷ []) (contexts_from (suc n) ops)

-- Every operation of the plan stands exactly once in the report of a run, among the succeeded, the
-- failed or the skipped ones, with its own index, target and kind: the entries together, ordered by
-- their indices, are the plan's operations. This holds for real runs and for previews.
pub run-reports_all :
    {W : Type 0} (pa : String → Option IpAddr) (io : Io W) (diff : StateDiff) (preview : Bool)
    (w : W)
    → reported (run pa io diff preview w).0 ≡ contexts_from 0 diff.operations
unfolding run run_with sort_by
run-reports_all pa io diff preview w =
    run_from-reported pa new_registry io diff preview 0 diff.operations
      (start pa new_registry io diff preview w) empty_report tt

-- The operations of a dry run's report are the plan's, each once, in plan order.
preview_plan-in_order :
    {W : Type 0} (pa : String → Option IpAddr) (io : Io W) (diff : StateDiff) (w : W)
    → map entry_context (preview_plan pa io diff w).0.operations ≡ contexts_from 0 diff.operations
unfolding preview_plan preview_report run_with sort_by
preview_plan-in_order pa io diff w =
    let quiet = record io { cancelled = λ v. (false, v) } in
    run_from-reported pa new_registry quiet diff true 0 diff.operations
      (start pa new_registry quiet diff true w) empty_report tt

module _ (e : BackendError) where
  failed_one-Extends :
      (n : ℕ) (op : Operation) (r : ApplyReport)
      → IsBefore n r
      → Extends n r (context_of n op) (failed_one n op e r)
  failed_one-Extends n op r b = elim (Bool-cases (is_nil op.depends_on)) [
    | inl root ↦ rw root (failed-Extends n op r b e)
    | inr dependent ↦ rw dependent (skipped-Extends n op r b (dependency_failed op.depends_on))
  ]

  failed_from-reported :
      (n : ℕ) (ops : List Operation) (r : ApplyReport)
      → IsBefore n r
      → reported (failed_from n ops e r) ≡ reported r ++ contexts_from n ops
  unfolding failed_from
  failed_from-reported n [] r b = sym (append-nil (reported r))
  failed_from-reported n (op ∷ ops) r b =
      let next = failed_one-Extends n op r b in
      failed_from-reported (suc n) ops (failed_one n op e r) next.before
      ∙ ap (λ l. l ++ contexts_from (suc n) ops) next.one_more
      ∙ append_assoc (reported r) (context_of n op ∷ []) (contexts_from (suc n) ops)

-- The report of a plan that no worker took has every operation of the plan exactly once too: its
-- entries together, ordered by their indices, are the plan's operations.
pub failed_report-reports_all :
    (diff : StateDiff) (e : BackendError)
    → reported (failed_report diff e) ≡ contexts_from 0 diff.operations
unfolding failed_report sort_by
failed_report-reports_all diff e =
    failed_from-reported e 0 diff.operations
      (record empty_report { diagnostics = diff.diagnostics }) tt
