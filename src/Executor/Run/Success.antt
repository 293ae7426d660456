-- ===== src/Executor/Run/Success.antt =====
-- `is_success` of a report, of its preview, and of a plan that no worker took.
use netfyr.Base.{
  ℕ, suc, Bool, true, false, not, ◌&&◌, ◌||◌, ◌≡◌, refl, ap, ◌∙◌, sym, List, [], ◌∷◌, ◌++◌, map,
  any, is_nil, any-append, arith, some, Bool-cases, inl, inr,
}
use mathlib.Core.Path.{ap₂}
use netfyr.Base.Sort.{sort_by, any-sort_by}
use netfyr.Plan.{Operation, StateDiff}
use netfyr.Report.{
  BackendError, OperationContext, context_of, SkippedOperation, ApplyReport, PlannedOperation,
  dependency_failed, is_blocked, status_skip, no_failures, apply_is_success, dry_run_is_success,
}
use netfyr.Executor.Run.{
  empty_report, push_failed, push_skipped, failed_from, failed_one, failed_report, planned_write,
  planned_skip, planned_fail, plan_index, planned, preview_report,
}

any-map :
    {A B : Type 0} (p : B → Bool) (f : A → B) (xs : List A)
    → any p (map f xs) ≡ any (λ x. p (f x)) xs
any-map p f [] = refl
any-map p f (x ∷ xs) = ap (λ b. p (f x) || b) (any-map p f xs)

any_never : {A : Type 0} (xs : List A) → any (λ x. false) xs ≡ false
any_never [] = refl
any_never (x ∷ xs) = any_never xs

abbrev entry_blocked : PlannedOperation → Bool
entry_blocked p = is_blocked (status_skip p.status)

-- Only the skipped entries can be blocked.
planned-blocked :
    (r : ApplyReport)
    → any entry_blocked (planned r)
      ≡ any (λ (s : SkippedOperation). is_blocked (some s.reason)) r.skipped
planned-blocked r =
    any-append entry_blocked (map planned_write r.succeeded)
      (map planned_skip r.skipped ++ map planned_fail r.failed)
    ∙ ap₂ (λ a b. a || b) (any-map entry_blocked planned_write r.succeeded ∙ any_never r.succeeded)
        (any-append entry_blocked (map planned_skip r.skipped) (map planned_fail r.failed)
          ∙ ap₂ (λ a b. a || b) (any-map entry_blocked planned_skip r.skipped)
              (any-map entry_blocked planned_fail r.failed ∙ any_never r.failed)
          ∙ or_false _)
  where
    or_false : (b : Bool) → (b || false) ≡ b
    or_false true = refl
    or_false false = refl

-- A dry run succeeds exactly when the report that it was made from does.
dry_run_is_success-preview_report :
    (diff : StateDiff) (r : ApplyReport)
    → dry_run_is_success (preview_report diff r) ≡ apply_is_success r
unfolding dry_run_is_success apply_is_success no_failures preview_report
dry_run_is_success-preview_report diff r =
    ap (λ b. is_nil r.failed && not b)
      (any-map is_blocked (λ (p : PlannedOperation). status_skip p.status)
          (sort_by plan_index (planned r))
        ∙ any-sort_by plan_index entry_blocked (planned r)
        ∙ planned-blocked r
        ∙ sym (any-map is_blocked (λ (s : SkippedOperation). some s.reason) r.skipped))

is_nil_snoc : {A : Type 0} (xs : List A) (x : A) → is_nil (xs ++ x ∷ []) ≡ false
is_nil_snoc [] x = refl
is_nil_snoc (y ∷ xs) x = refl

push_failed_fails :
    (c : OperationContext) (e : BackendError) (r : ApplyReport)
    → apply_is_success (push_failed c e r) ≡ false
unfolding apply_is_success no_failures
push_failed_fails c e r = rw (is_nil_snoc r.failed (record { context = c; error = e })) refl

push_blocked_fails :
    (c : OperationContext) (ds : List ℕ) (r : ApplyReport)
    → apply_is_success (push_skipped c (dependency_failed ds) r) ≡ false
unfolding apply_is_success no_failures
push_blocked_fails c ds r =
    let entry : SkippedOperation = record { context = c; reason = dependency_failed ds } in
    let blocked : any is_blocked
          (map (λ (s : SkippedOperation). some s.reason) (r.skipped ++ entry ∷ []))
        ≡ true =
      any-map is_blocked (λ (s : SkippedOperation). some s.reason) (r.skipped ++ entry ∷ [])
      ∙ any-append (λ (s : SkippedOperation). is_blocked (some s.reason)) r.skipped (entry ∷ [])
      ∙ or_true _ in
    ground arith
  where
    or_true : (b : Bool) → (b || true) ≡ true
    or_true true = refl
    or_true false = refl

module _ (e : BackendError) where
  failed_one_fails :
      (n : ℕ) (op : Operation) (r : ApplyReport) → apply_is_success (failed_one n op e r) ≡ false
  failed_one_fails n op r = elim (Bool-cases (is_nil op.depends_on)) [
    | inl root ↦ rw root (push_failed_fails (context_of n op) e r)
    | inr dependent ↦ rw dependent (push_blocked_fails (context_of n op) op.depends_on r)
  ]

  failed_from_fails :
      (n : ℕ) (ops : List Operation) (r : ApplyReport)
      → apply_is_success r ≡ false
      → apply_is_success (failed_from n ops e r) ≡ false
  unfolding failed_from
  failed_from_fails n [] r h = h
  failed_from_fails n (op ∷ ops) r h =
      failed_from_fails (suc n) ops (failed_one n op e r) (failed_one_fails n op r)

  failed_from-success :
      (ops : List Operation) (r : ApplyReport)
      → apply_is_success r ≡ true
      → apply_is_success (failed_from 0 ops e r) ≡ is_nil ops
  unfolding failed_from
  failed_from-success [] r h = h
  failed_from-success (op ∷ ops) r h =
      failed_from_fails 1 ops (failed_one 0 op e r) (failed_one_fails 0 op r)

-- The report of a plan that no worker took is a success exactly when the plan has no operations.
failed_report-success :
    (diff : StateDiff) (e : BackendError)
    → apply_is_success (failed_report diff e) ≡ is_nil diff.operations
unfolding failed_report apply_is_success no_failures
failed_report-success diff e =
    failed_from-success e diff.operations (record empty_report { diagnostics = diff.diagnostics })
      refl
