-- ===== src/Executor/Run/Preview.antt =====
-- A preview reads and never writes.
use netfyr.Base.{
  ℕ, suc, String, Bool, true, false, Option, none, some, List, [], ◌∷◌, ◌≡◌, refl, ap, ◌∙◌, Result,
  not, keep, get_or, if◌then◌else◌, any, leb,
}
use netfyr.Value.{IpAddr}
use netfyr.Plan.{
  InterfaceId, Ipv4Address, DeviceObservation, Observation, Operation, OperationKind, StateDiff,
  ipv4_address,
}
use netfyr.Schema.Registry.{SchemaRegistry}
use netfyr.Schema.Embedded.{new_registry}
use netfyr.Report.{BackendError, backend_error, unsupported_operation, context_of, ApplyReport}
use netfyr.Executor.Decode.{decode}
use netfyr.Executor.Locate.{locate}
use netfyr.Executor.Satisfied.{satisfied}
use netfyr.Executor.Action.{
  Io, Execution, pure, lift, ◌>>=◌, ◌>>◌, ask, stop_if, modify, with_state,
}
use netfyr.Executor.Step.{
  absorb, observe_from, observe, preview_write, update_groups, perform, attempt, validated,
  step_decoded, step, push_diagnostic,
}
use netfyr.Executor.Cascade.{check_cascade}
use netfyr.Executor.Project.{collateral}
use netfyr.Executor.Run.{
  run_step, run_one, run_from, run_with, preview_plan, preview_report, start, mark_eligible,
  record_result, push_failed, empty_report,
}

module _ {W : Type 0} (pa : String → Option IpAddr) (schema : SchemaRegistry) (io : Io W)
    (write : InterfaceId → OperationKind → W → Result (Unit {0}) BackendError × W)
    (diff : StateDiff) where
  -- The same outside, but for its writes.
  abbrev other : Io W
  other = record io { execute = write }

  observe_from-same :
      (o : Option Observation)
      → observe_from pa schema other diff true o ≡ observe_from pa schema io diff true o
  unfolding observe_from absorb
  observe_from-same (some o) = refl
  observe_from-same none = refl

  observe-same : observe pa schema other diff true ≡ observe pa schema io diff true
  unfolding observe
  observe-same k = with_state (λ x. observe_from-same x.current k)

  update_groups-same :
      (op : Operation) (a : Option Ipv4Address) (d : DeviceObservation)
      → update_groups pa schema other diff true op a d ≡ update_groups pa schema io diff true op a d
  unfolding update_groups
  update_groups-same op none d = refl
  update_groups-same op (some a) d = refl

  perform-same :
      (n : ℕ) (op : Operation) (position : ℕ) (d : DeviceObservation) (kind : OperationKind)
      → perform pa schema other diff true n op position d kind
        ≡ perform pa schema io diff true n op position d kind
  unfolding perform preview_write
  perform-same n op position d kind k = do
    predicted ← preview_write pa schema io diff true position d kind
    modify (λ x. record x {
      diagnostics = push_diagnostic pa schema io diff true (collateral d kind) x.diagnostics;
    })
    update_groups-same op (ipv4_address kind) predicted k

  attempt-same :
      (n : ℕ) (op : Operation) (position : ℕ) (d : DeviceObservation) (kind : OperationKind)
      (done : Bool)
      → attempt pa schema other diff true n op position d kind done
        ≡ attempt pa schema io diff true n op position d kind done
  unfolding attempt
  attempt-same n op position d kind true = refl
  attempt-same n op position d kind false = λ k. do
    with_state (λ x. lift (check_cascade diff n d kind x.eligible))
    perform-same n op position d kind k
    pure none

  step_decoded-same :
      (n : ℕ) (op : Operation) (position : ℕ) (d : DeviceObservation) (kind : Option OperationKind)
      → step_decoded pa schema other diff true n op position d kind
        ≡ step_decoded pa schema io diff true n op position d kind
  unfolding step_decoded
  step_decoded-same n op position d none = refl
  step_decoded-same n op position d (some kind) = λ k. do
    validated pa schema io diff true op d kind
    done ← lift (satisfied kind d op)
    attempt-same n op position d kind done k

  step-same :
      (n : ℕ) (op : Operation)
      → step pa schema other diff true n op ≡ step pa schema io diff true n op
  unfolding step
  step-same n op k = do
    stop ← ask io.cancelled
    stop_if stop "plan execution cancelled; earlier writes may have applied"
    kind ← lift (decode pa schema op.kind)
    observation ← observe-same k
    (position, device) ← lift (locate observation op.target io.namespace)
    step_decoded-same n op position device kind k

  run_step-same :
      (n : ℕ) (op : Operation) (blocked : List ℕ) (x : Execution W) (r : ApplyReport)
      → run_step pa schema other diff true n op blocked x r
        ≡ run_step pa schema io diff true n op blocked x r
  unfolding run_step
  run_step-same n op (d ∷ ds) x r = refl
  run_step-same n op [] x r = λ k.
      let (result, y) = step-same n op k x in
      (mark_eligible n result y, record_result (context_of n op) result r)

  run_one-same :
      (n : ℕ) (op : Operation) (x : Execution W) (r : ApplyReport)
      → run_one pa schema other diff true n op x r ≡ run_one pa schema io diff true n op x r
  unfolding run_one
  run_one-same n op x r k =
      if any (λ d. leb n d) op.depends_on
      then (
        x,
        push_failed (context_of n op)
            (backend_error unsupported_operation
              "dependencies must identify earlier operation indices")
            r,
      )
      else run_step-same n op (keep (λ d. not (get_or x.eligible d false)) op.depends_on) x r k

  run_from-same :
      (n : ℕ) (ops : List Operation) (x : Execution W) (r : ApplyReport)
      → run_from pa schema other diff true n ops x r ≡ run_from pa schema io diff true n ops x r
  unfolding run_from
  run_from-same n [] x r = refl
  run_from-same n (op ∷ ops) x r =
      ap (λ p. run_from pa schema other diff true (suc n) ops p.0 p.1) (run_one-same n op x r)
      ∙ let (y, r') = run_one pa schema io diff true n op x r in run_from-same (suc n) ops y r'

  run_with-same : (w : W) → run_with pa schema other diff true w ≡ run_with pa schema io diff true w
  unfolding run_with
  run_with-same w k =
      let (x, r) =
        run_from-same 0 diff.operations (start pa schema io diff true w) empty_report k in
      (record r { diagnostics = x.diagnostics }, x.world)

-- A preview does not depend on what a write does, nor on whether the caller cancels: with any other
-- `execute` and any other cancellation test it gives the same report and leaves the same world.
pub preview_plan-writes_nothing :
    {W : Type 0} (pa : String → Option IpAddr) (io : Io W) (diff : StateDiff) (w : W)
    (write : InterfaceId → OperationKind → W → Result (Unit {0}) BackendError × W)
    (stop : W → Bool × W)
    → preview_plan pa (record io { execute = write; cancelled = stop }) diff w
      ≡ preview_plan pa io diff w
unfolding preview_plan
preview_plan-writes_nothing pa io diff w write stop k =
    let quiet = record io { cancelled = λ v. (false, v) } in
    let (r, w') = run_with-same pa new_registry quiet write diff w k in (preview_report diff r, w')
