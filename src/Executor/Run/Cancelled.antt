-- ===== src/Executor/Run/Cancelled.antt =====
-- A run that is cancelled from the start.
use netfyr.Base.{
  ℕ, suc, String, true, false, Option, List, [], ◌∷◌, ◌≡◌, refl, any, leb, Bool-cases, inl, inr,
}
use netfyr.Value.{IpAddr}
use netfyr.Plan.{Operation, StateDiff}
use netfyr.Schema.Registry.{SchemaRegistry}
use netfyr.Schema.Embedded.{new_registry}
use netfyr.Report.{ApplyReport}
use netfyr.Executor.Action.{Io, Execution, ◌>>=◌}
use netfyr.Executor.Step.{step}
use netfyr.Executor.Step.Trace.{Log, logged}
use netfyr.Executor.Run.{
  empty_report, run_step, run_one, run_from, run_with, run, apply_plan, start,
}

module _ {W : Type 0} (pa : String → Option IpAddr) (schema : SchemaRegistry) (io : Io W)
    (diff : StateDiff) (stopped : (w : W) → (io.cancelled w).0 ≡ true) where
  -- Nothing was logged, and nothing succeeded.
  abbrev IsUntouched : Execution (W × Log) × ApplyReport → Type 0
  IsUntouched (x, r) = (x.world.1 ≡ []) × (r.succeeded ≡ [])

  run_step-IsUntouched :
      (n : ℕ) (op : Operation) (blocked : List ℕ) (x : Execution (W × Log)) (r : ApplyReport)
      → IsUntouched (x, r)
      → IsUntouched (run_step pa schema (logged io) diff false n op blocked x r)
  unfolding run_step step ◌>>=◌
  run_step-IsUntouched n op (d ∷ ds) x r h = h
  run_step-IsUntouched n op [] x r h = rw (stopped x.world.0) h

  run_from-IsUntouched :
      (n : ℕ) (ops : List Operation) (x : Execution (W × Log)) (r : ApplyReport)
      → IsUntouched (x, r)
      → IsUntouched (run_from pa schema (logged io) diff false n ops x r)
  unfolding run_from run_one
  run_from-IsUntouched n [] x r h = h
  run_from-IsUntouched n (op ∷ ops) x r h =
      let next : IsUntouched (run_one pa schema (logged io) diff false n op x r) =
        elim (Bool-cases (any (λ d. leb n d) op.depends_on)) [
          | inl bad ↦ rw bad h
          | inr good ↦ rw good (run_step-IsUntouched n op _ x r h)
        ] in
      let (y, r') = run_one pa schema (logged io) diff false n op x r in
      run_from-IsUntouched (suc n) ops y r' next

-- When the cancellation test says so from the start, a real run observes nothing, writes nothing and
-- reports no operation as succeeded.
pub apply_plan-cancelled :
    {W : Type 0} (pa : String → Option IpAddr) (io : Io W) (diff : StateDiff) (w : W)
    → ((v : W) → (io.cancelled v).0 ≡ true)
    → let (report, final) = apply_plan pa (logged io) diff (w, []) in
      (final.1 ≡ []) × (report.succeeded ≡ [])
unfolding apply_plan run run_with
apply_plan-cancelled pa io diff w stopped =
    run_from-IsUntouched pa new_registry io diff stopped 0 diff.operations
      (start pa new_registry (logged io) diff false (w, [])) empty_report (refl, refl)
