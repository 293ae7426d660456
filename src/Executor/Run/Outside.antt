-- ===== src/Executor/Run/Outside.antt =====
-- What each call of the outside keeps, a whole run keeps.
use netfyr.Base.{
  ℕ, suc, ◌≡◌, refl, sym, subst, String, Bool, true, false, Option, List, [], ◌∷◌, any, leb,
  Bool-cases, inl, inr, Result, ok, err,
}
use netfyr.Value.{IpAddr}
use netfyr.Plan.{Operation, StateDiff}
use netfyr.Schema.Registry.{SchemaRegistry}
use netfyr.Schema.Embedded.{new_registry}
use netfyr.Report.{BackendError, SkipReason, ApplyReport}
use netfyr.Executor.Action.{Io, Execution}
use netfyr.Executor.Step.{step}
use netfyr.Executor.Step.Keeps.{IsClosed}
use netfyr.Executor.Step.Frame.{step-Keeps}
use netfyr.Executor.Run.{
  empty_report, mark_eligible, run_step, run_one, run_from, run_with, run, start, apply_plan,
  preview_plan,
}

mark_eligible-world :
    {W : Type 0} (n : ℕ) (r : Result (Option SkipReason) BackendError) (x : Execution W)
    → (mark_eligible n r x).world ≡ x.world
mark_eligible-world n (ok s) x = refl
mark_eligible-world n (err e) x = refl

module _ {W : Type 0} (J : W → Type 0) (pa : String → Option IpAddr) where
  module _ (schema : SchemaRegistry) (io : Io W) (closed : IsClosed io J) (diff : StateDiff)
      (preview : Bool) where
    run_step-outside :
        (n : ℕ) (op : Operation) (blocked : List ℕ) (x : Execution W) (r : ApplyReport)
        → J x.world
        → J (run_step pa schema io diff preview n op blocked x r).0.world
    unfolding run_step
    run_step-outside n op (d ∷ ds) x r j = j
    run_step-outside n op [] x r j =
        let (s, y) = step pa schema io diff preview n op x in
        let after = (step-Keeps pa schema io diff preview J closed n op).stays x j in
        subst J (sym (mark_eligible-world n s y)) after

    run_one-outside :
        (n : ℕ) (op : Operation) (x : Execution W) (r : ApplyReport)
        → J x.world
        → J (run_one pa schema io diff preview n op x r).0.world
    unfolding run_one
    run_one-outside n op x r j = elim (Bool-cases (any (λ d. leb n d) op.depends_on)) [
      | inl bad ↦ rw bad j
      | inr good ↦ rw good (run_step-outside n op _ x r j)
    ]

    run_from-outside :
        (n : ℕ) (ops : List Operation) (x : Execution W) (r : ApplyReport)
        → J x.world
        → J (run_from pa schema io diff preview n ops x r).0.world
    unfolding run_from
    run_from-outside n [] x r j = j
    run_from-outside n (op ∷ ops) x r j =
        let (y, r') = run_one pa schema io diff preview n op x r in
        run_from-outside (suc n) ops y r' (run_one-outside n op x r j)

    run_with-outside : (w : W) → J w → J (run_with pa schema io diff preview w).1
    unfolding run_with
    run_with-outside w j =
        run_from-outside 0 diff.operations (start pa schema io diff preview w) empty_report j

  module _ (io : Io W) (closed : IsClosed io J) (diff : StateDiff) where
    pub apply_plan-outside : (w : W) → J w → J (apply_plan pa io diff w).1
    unfolding apply_plan run
    apply_plan-outside w j = run_with-outside new_registry io closed diff false w j

    pub preview_plan-outside : (w : W) → J w → J (preview_plan pa io diff w).1
    unfolding preview_plan
    preview_plan-outside w j =
        run_with-outside new_registry (record io { cancelled = λ v. (false, v) })
          (record {
            inventory = closed.inventory;
            execute = closed.execute;
            now = closed.now;
            cancelled = λ v h. h;
          })
          diff true w j
