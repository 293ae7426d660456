-- ===== src/Executor/Run/Writes.antt =====
-- Every write of a run comes directly after an observation that shows its target.
use netfyr.Base.{
  ℕ, suc, String, false, Option, List, [], ◌∷◌, Result, ok, err, any, leb, Bool-cases, inl, inr,
}
use netfyr.Value.{IpAddr}
use netfyr.Plan.{Operation, StateDiff}
use netfyr.Schema.Registry.{SchemaRegistry}
use netfyr.Schema.Embedded.{new_registry}
use netfyr.Report.{BackendError, SkipReason, ApplyReport}
use netfyr.Executor.Action.{Io, Execution}
use netfyr.Executor.Step.{step}
use netfyr.Executor.Step.Trace.{Log, logged, IsJustified, Inv, view, After}
use netfyr.Executor.Step.Writes.{step-Triple}
use netfyr.Executor.Run.{
  empty_report, mark_eligible, run_step, run_one, run_from, run_with, run, apply_plan, start,
}

module _ {W : Type 0} (pa : String → Option IpAddr) (schema : SchemaRegistry) (io : Io W)
    (diff : StateDiff) where
  abbrev Holds : Execution (W × Log) × ApplyReport → Type 0
  Holds (x, r) = Inv io.namespace (view x)

  marked_Inv :
      (n : ℕ) (s : Result (Option SkipReason) BackendError) (y : Execution (W × Log))
      → After io.namespace (λ (_ : Option SkipReason). Inv io.namespace) (s, y)
      → Inv io.namespace (view (mark_eligible n s y))
  marked_Inv n (ok s) y i = i
  marked_Inv n (err e) y i = i

  run_step-Inv :
      (n : ℕ) (op : Operation) (blocked : List ℕ) (x : Execution (W × Log)) (r : ApplyReport)
      → Inv io.namespace (view x)
      → Holds (run_step pa schema (logged io) diff false n op blocked x r)
  unfolding run_step
  run_step-Inv n op (d ∷ ds) x r i = i
  run_step-Inv n op [] x r i =
      let (s, y) = step pa schema (logged io) diff false n op x in
      marked_Inv n s y ((step-Triple pa schema io diff n op).at x i)

  run_one-Inv :
      (n : ℕ) (op : Operation) (x : Execution (W × Log)) (r : ApplyReport)
      → Inv io.namespace (view x)
      → Holds (run_one pa schema (logged io) diff false n op x r)
  unfolding run_one
  run_one-Inv n op x r i = elim (Bool-cases (any (λ d. leb n d) op.depends_on)) [
    | inl bad ↦ rw bad i
    | inr good ↦ rw good (run_step-Inv n op _ x r i)
  ]

  run_from-Inv :
      (n : ℕ) (ops : List Operation) (x : Execution (W × Log)) (r : ApplyReport)
      → Inv io.namespace (view x)
      → Holds (run_from pa schema (logged io) diff false n ops x r)
  unfolding run_from
  run_from-Inv n [] x r i = i
  run_from-Inv n (op ∷ ops) x r i =
      let next = run_one-Inv n op x r i in
      let (y, r') = run_one pa schema (logged io) diff false n op x r in
      run_from-Inv (suc n) ops y r' next

-- In the log of a real run each write comes directly after an inventory that lists the very
-- interface it writes to, with its whole identity, as an Ethernet device of the backend's namespace:
-- no other write stands between the two.
pub apply_plan-writes_seen :
    {W : Type 0} (pa : String → Option IpAddr) (io : Io W) (diff : StateDiff) (w : W)
    → IsJustified io.namespace (apply_plan pa (logged io) diff (w, [])).1.1
unfolding apply_plan run run_with
apply_plan-writes_seen pa io diff w =
    (run_from-Inv pa new_registry io diff 0 diff.operations
      (start pa new_registry (logged io) diff false (w, [])) empty_report (tt, tt)).0
