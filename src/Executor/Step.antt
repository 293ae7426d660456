-- ===== src/Executor/Step.antt =====
-- `Execution::step` and the methods that it calls: the execution of one operation.
pub mod Keeps
pub mod Trace
pub mod Observing
pub mod Writes
pub mod Frame
use netfyr.Base.{
  ℕ, String, Bool, true, false, not, ◌&&◌, ◌||◌, Option, none, some, List, [], ◌∷◌, ◌++◌,
  if◌then◌else◌, any, all, keep, set, Result, ok, err,
}
use netfyr.Base.Bits.{clear}
use netfyr.Base.Dict.{contains_key, insert}
use netfyr.Base.Equality.{contains}
use netfyr.Value.{IpAddr}
use netfyr.Plan.{
  NamespaceId, InterfaceId, Ipv4Address, AddressObservation, DeviceObservation, Diagnostic,
  Observation, Operation, OperationKind, remove_ipv4, StateDiff, ipv4_address, same_identity,
}
use netfyr.Plan.Identity.{diagnostic_eq}
use netfyr.Schema.Registry.{SchemaRegistry}
use netfyr.Report.{
  BackendError, backend_error, outcome_unknown, stale_state, SkipReason, already_satisfied,
  read_only,
}
use netfyr.Executor.Lifetime.{ifa_f_secondary}
use netfyr.Executor.Decode.{decode}
use netfyr.Executor.Locate.{locate}
use netfyr.Executor.Groups.{
  Groups, GroupKey, key_eq, group_key, in_group, group_addresses, group_matches, validate_group,
}
use netfyr.Executor.Satisfied.{satisfied}
use netfyr.Executor.Cascade.{check_cascade, removal_is_covered, is_secondary}
use netfyr.Executor.Project.{project, rebase_lifetimes, collateral, unconfirmed, cancelled_error}
use netfyr.Executor.Action.{
  Io, Execution, Action, pure, lift, ◌>>=◌, ◌>>◌, modify, with_state, ask, call, reject_if, stop_if,
  resume,
}

-- `absorb`
unfoldable pub absorb_into : List Diagnostic → List Diagnostic → List Diagnostic
absorb_into seen [] = seen
absorb_into seen (d ∷ ds) = absorb_into (if contains seen d then seen else seen ++ d ∷ []) ds

-- What a removal may leave of the expected group: a secondary that is gone, and whose removal the
-- plan provides for, is not expected any more.
unfoldable pub still_expected :
    StateDiff → ℕ → InterfaceId → List Bool → List AddressObservation → AddressObservation → Bool
still_expected diff index target eligible actual_group e =
    let absent = not (any (λ o. same_identity e.address o.address) actual_group) in
    not (absent && is_secondary e && removal_is_covered diff index target e.address eligible)

-- With promote_secondaries the surviving first member becomes primary.
unfoldable pub promote : List AddressObservation → List AddressObservation → List AddressObservation
promote (first ∷ rest) (actual_first ∷ more) =
    if same_identity first.address actual_first.address && not (is_secondary actual_first)
    then record first { flags = clear first.flags ifa_f_secondary } ∷ rest
    else first ∷ rest
promote expected actual = expected

unfoldable pub expected_after :
    StateDiff
    → ℕ
    → InterfaceId
    → List Bool
    → OperationKind
    → List AddressObservation
    → List AddressObservation
    → List AddressObservation
expected_after diff index target eligible (remove_ipv4 a) actual_group expected =
    promote (keep (still_expected diff index target eligible actual_group) expected) actual_group
expected_after diff index target eligible other actual_group expected = expected

-- Every address outside the group is still there.
unfoldable pub outside_survives : GroupKey → DeviceObservation → DeviceObservation → Bool
outside_survives key predicted actual =
    all (λ e. any (λ o. same_identity e.address o.address) actual.addresses)
      (keep (λ e. not (in_group key e.address)) predicted.addresses)

module _ {W : Type 0} (parse_addr : String → Option IpAddr) (schema : SchemaRegistry) (io : Io W)
    (diff : StateDiff) (preview : Bool) where
  unfoldable pub absorb : Observation → Action W (Unit {0})
  absorb observation =
      modify (λ x. record x { diagnostics = absorb_into x.diagnostics observation.diagnostics })

  -- The kept observation, else a fresh inventory, which is kept.
  unfoldable pub observe_from : Option Observation → Action W Observation
  observe_from (some observation) = pure observation
  observe_from none = do
    observation ← call io.inventory
    absorb observation
    modify (λ x. record x { current = some observation })
    pure observation

  unfoldable pub observe : Action W Observation
  observe = with_state (λ x. observe_from x.current)

  -- The device after an address write is not as predicted.
  unfoldable pub differs_after_write :
      ℕ
      → Operation
      → OperationKind
      → GroupKey
      → DeviceObservation
      → DeviceObservation
      → List Bool
      → Bool
  differs_after_write index op kind key predicted actual eligible =
      let actual_group = group_addresses actual key in
      let expected =
        expected_after diff index op.target eligible kind actual_group
          (group_addresses predicted key) in
      not (
        group_matches (record { addresses = expected; observed_at = predicted.observed_at })
          actual_group actual.observed_at)
      || not (outside_survives key predicted actual)

  unfoldable pub verify_device :
      ℕ
      → Operation
      → OperationKind
      → Ipv4Address
      → DeviceObservation
      → Observation
      → DeviceObservation
      → Action W DeviceObservation
  verify_device index op kind addr predicted after actual = do
    reject_if (not actual.addresses_complete)
        (backend_error outcome_unknown "write acknowledged but the address inventory is incomplete")
    key ← lift (group_key op addr)
    with_state λ x. reject_if (differs_after_write index op kind key predicted actual x.eligible) (
        backend_error stale_state
          "addresses changed unexpectedly during the write; earlier changes may have applied")
    modify (λ x. record x { current = some after })
    pure actual

  abbrev pub reobserved : Result Observation BackendError → Result Observation BackendError
  reobserved (ok after) = ok after
  reobserved (err e) = err (unconfirmed "write acknowledged but not re-observed" e)

  unfoldable pub reobserve : Action W Observation
  reobserve = call (λ w. let (r, w') = io.inventory w in (reobserved r, w'))

  unfoldable pub verify_address_write :
      ℕ → Operation → OperationKind → Ipv4Address → DeviceObservation → Action W DeviceObservation
  verify_address_write index op kind addr predicted = do
    after ← reobserve
    absorb after
    (position, actual) ← lift (locate after op.target io.namespace)
    verify_device index op kind addr predicted after actual

  -- The device as it is predicted at the time `now`, after the write.
  abbrev pub predict : DeviceObservation → OperationKind → ℕ → DeviceObservation
  predict device kind now = project (rebase_lifetimes device now) kind

  -- The preview's branch: the prediction takes the device's place in the kept observation.
  abbrev pub place : ℕ → DeviceObservation → Option Observation → Option Observation
  place position predicted none = none
  place position predicted (some o) = some (record o { devices = set o.devices position predicted })

  unfoldable pub preview_write : ℕ → DeviceObservation → OperationKind → Action W DeviceObservation
  preview_write position device kind = do
    now ← ask io.now
    let predicted = predict device kind now
    modify (λ x. record x { current = place position predicted x.current })
    pure predicted

  unfoldable pub confirm_write :
      ℕ
      → Operation
      → OperationKind
      → Option Ipv4Address
      → DeviceObservation
      → Action W DeviceObservation
  confirm_write index op kind none predicted = pure predicted
  confirm_write index op kind (some addr) predicted =
      verify_address_write index op kind addr predicted

  -- The other branch: the write, and for an address the check of its effect.
  unfoldable pub real_write :
      ℕ → Operation → DeviceObservation → OperationKind → Action W DeviceObservation
  real_write index op device kind = do
    stop ← ask io.cancelled
    stop_if stop "plan execution cancelled before write"
    modify (λ x. record x { current = none })
    call (io.execute op.target kind)
    now ← ask io.now
    confirm_write index op kind (ipv4_address kind) (predict device kind now)

  abbrev pub push_diagnostic : Option Diagnostic → List Diagnostic → List Diagnostic
  push_diagnostic none ds = ds
  push_diagnostic (some d) ds = ds ++ d ∷ []

  -- The group that the write changed is expected as predicted, if the plan guards it.
  unfoldable pub update_groups :
      Operation → Option Ipv4Address → DeviceObservation → Action W (Unit {0})
  update_groups op none predicted = pure tt
  update_groups op (some addr) predicted = do
    key ← lift (group_key op addr)
    modify λ x.
        if contains_key key x.groups
        then record x {
          groups =
              insert key
                (record {
                  addresses = group_addresses predicted key;
                  observed_at = predicted.observed_at;
                })
                x.groups;
        }
        else x

  unfoldable pub perform :
      ℕ → Operation → ℕ → DeviceObservation → OperationKind → Action W (Unit {0})
  perform index op position device kind = do
    predicted ←
        (if preview then preview_write position device kind else real_write index op device kind)
    modify (λ x. record x { diagnostics = push_diagnostic (collateral device kind) x.diagnostics })
    update_groups op (ipv4_address kind) predicted

  abbrev pub validated : Operation → DeviceObservation → OperationKind → Action W (Unit {0})
  validated op device kind x =
      let (r, groups) = validate_group op device kind x.groups in (r, record x { groups = groups })

  unfoldable pub attempt :
      ℕ → Operation → ℕ → DeviceObservation → OperationKind → Bool → Action W (Option SkipReason)
  attempt index op position device kind true = pure (some already_satisfied)
  attempt index op position device kind false = do
    with_state (λ x. lift (check_cascade diff index device kind x.eligible))
    perform index op position device kind
    pure none

  unfoldable pub step_decoded :
      ℕ → Operation → ℕ → DeviceObservation → Option OperationKind → Action W (Option SkipReason)
  step_decoded index op position device none = pure (some read_only)
  step_decoded index op position device (some kind) = do
    validated op device kind
    done ← lift (satisfied kind device op)
    attempt index op position device kind done

  unfoldable pub step : ℕ → Operation → Action W (Option SkipReason)
  step index op = do
    stop ← ask io.cancelled
    stop_if stop "plan execution cancelled; earlier writes may have applied"
    kind ← lift (decode parse_addr schema op.kind)
    observation ← observe
    (position, device) ← lift (locate observation op.target io.namespace)
    step_decoded index op position device kind
