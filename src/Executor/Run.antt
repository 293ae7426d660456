-- ===== src/Executor/Run.antt =====
-- `run`, which executes or previews a plan in order and reports every operation, `apply_plan`,
-- `preview_plan`, `preview_report` and `failed_report`.
pub mod Advances
pub mod Dependencies
pub mod Writes
pub mod Cancelled
pub mod Preview
pub mod Completeness
pub mod Success
pub mod Outside
use netfyr.Base.{
  ℕ, suc, ◌≤◌, String, Bool, true, false, not, Option, none, some, List, [], ◌∷◌, ◌++◌, map,
  if◌then◌else◌, any, keep, is_nil, length, replicate, get_or, set, leb, Result, ok, err,
}
use netfyr.Base.Sort.{sort_by}
use netfyr.Value.{IpAddr}
use netfyr.Plan.{Operation, StateDiff}
use netfyr.Schema.Registry.{SchemaRegistry}
use netfyr.Schema.Embedded.{new_registry}
use netfyr.Report.{
  BackendError, backend_error, unsupported_operation, OperationContext, context_of, SkipReason,
  dependency_failed, FailedOperation, SkippedOperation, ApplyReport, PlannedStatus,
  PlannedOperation, DryRunReport,
}
use netfyr.Executor.Action.{Io, Execution}
use netfyr.Executor.Step.{step}

abbrev pub empty_report : ApplyReport
empty_report = record { succeeded = []; failed = []; skipped = []; diagnostics = [] }

abbrev pub push_failed : OperationContext → BackendError → ApplyReport → ApplyReport
push_failed c e r = record r { failed = r.failed ++ record { context = c; error = e } ∷ [] }

abbrev pub push_skipped : OperationContext → SkipReason → ApplyReport → ApplyReport
push_skipped c s r = record r { skipped = r.skipped ++ record { context = c; reason = s } ∷ [] }

abbrev pub push_succeeded : OperationContext → ApplyReport → ApplyReport
push_succeeded c r = record r { succeeded = r.succeeded ++ c ∷ [] }

-- One operation of a plan that no worker took: it failed, or its dependencies did.
abbrev pub failed_one : ℕ → Operation → BackendError → ApplyReport → ApplyReport
failed_one index op failure report =
    if is_nil op.depends_on
    then push_failed (context_of index op) failure report
    else push_skipped (context_of index op) (dependency_failed op.depends_on) report

-- `failed_report`: the report of a plan that no worker took.
unfoldable pub failed_from : ℕ → List Operation → BackendError → ApplyReport → ApplyReport
failed_from index [] failure report = report
failed_from index (op ∷ ops) failure report =
    failed_from (suc index) ops failure (failed_one index op failure report)

unfoldable pub failed_report : StateDiff → BackendError → ApplyReport
failed_report diff failure =
    failed_from 0 diff.operations failure (record empty_report { diagnostics = diff.diagnostics })

abbrev pub planned_write : OperationContext → PlannedOperation
planned_write c = record { context = c; status = PlannedStatus.write }

abbrev pub planned_skip : SkippedOperation → PlannedOperation
planned_skip s = record { context = s.context; status = PlannedStatus.skip s.reason }

abbrev pub planned_fail : FailedOperation → PlannedOperation
planned_fail f = record { context = f.context; status = PlannedStatus.fail }

abbrev pub plan_index : PlannedOperation → ℕ
plan_index p = p.context.index

-- All entries of a report, before they are sorted.
abbrev pub planned : ApplyReport → List PlannedOperation
planned r =
    map planned_write r.succeeded ++ (map planned_skip r.skipped ++ map planned_fail r.failed)

unfoldable pub preview_report : StateDiff → ApplyReport → DryRunReport
preview_report diff report = record {
  changes = diff.changes;
  operations = sort_by plan_index (planned report);
  failed = report.failed;
  diagnostics = report.diagnostics;
}

-- A step's result in the report, and whether later operations may depend on it.
abbrev pub record_result :
    OperationContext → Result (Option SkipReason) BackendError → ApplyReport → ApplyReport
record_result c (ok (some reason)) r = push_skipped c reason r
record_result c (ok none) r = push_succeeded c r
record_result c (err e) r = push_failed c e r

module _ {W : Type 0} where
  abbrev pub mark_eligible : ℕ → Result (Option SkipReason) BackendError → Execution W → Execution W
  mark_eligible index (ok s) x = record x { eligible = set x.eligible index true }
  mark_eligible index (err e) x = x

module _ {W : Type 0} (parse_addr : String → Option IpAddr) (schema : SchemaRegistry) (io : Io W)
    (diff : StateDiff) (preview : Bool) where
  -- The body of the loop once the dependencies are found, `blocked` the ones that did not succeed.
  unfoldable pub run_step :
      ℕ → Operation → List ℕ → Execution W → ApplyReport → Execution W × ApplyReport
  run_step index op (d ∷ ds) x report =
      (x, push_skipped (context_of index op) (dependency_failed (d ∷ ds)) report)
  run_step index op [] x report =
      let (result, y) = step parse_addr schema io diff preview index op x in
      (mark_eligible index result y, record_result (context_of index op) result report)

  unfoldable pub run_one : ℕ → Operation → Execution W → ApplyReport → Execution W × ApplyReport
  run_one index op x report =
      if any (λ d. leb index d) op.depends_on
      then (
        x,
        push_failed (context_of index op)
            (backend_error unsupported_operation
              "dependencies must identify earlier operation indices")
            report,
      )
      else run_step index op (keep (λ d. not (get_or x.eligible d false)) op.depends_on) x report

  unfoldable pub run_from :
      ℕ → List Operation → Execution W → ApplyReport → Execution W × ApplyReport
  run_from index [] x report = (x, report)
  run_from index (op ∷ ops) x report =
      let (y, report') = run_one index op x report in run_from (suc index) ops y report'

  abbrev pub start : W → Execution W
  start w = record {
    world = w;
    groups = [];
    eligible = replicate (length diff.operations) false;
    current = none;
    diagnostics = diff.diagnostics;
  }

  unfoldable pub run_with : W → ApplyReport × W
  run_with w =
      let (x, report) = run_from 0 diff.operations (start w) empty_report in
      (record report { diagnostics = x.diagnostics }, x.world)

module _ {W : Type 0} (parse_addr : String → Option IpAddr) (io : Io W) (diff : StateDiff) where
  -- `run`, with the embedded schema
  unfoldable pub run : Bool → W → ApplyReport × W
  run preview = run_with parse_addr new_registry io diff preview

  unfoldable pub apply_plan : W → ApplyReport × W
  apply_plan = run false

  -- The preview is never cancelled.
  unfoldable pub preview_plan : W → DryRunReport × W
  preview_plan w =
      let (report, w') =
        run_with parse_addr new_registry (record io { cancelled = λ v. (false, v) }) diff true w in
      (preview_report diff report, w')
