-- ===== src/Executor/Cascade.antt =====
-- Removing a primary address may take its secondaries along: `removal_is_covered`, `check_cascade`.
use netfyr.Base.{
  ℕ, suc, ◌+◌, Bool, true, false, not, ◌&&◌, ◌||◌, Option, none, some, List, [], ◌∷◌, ◌++◌,
  if◌then◌else◌, any, all, find, take, drop, get_or, ltb, eqb, Result, ok, err,
}
use netfyr.Base.Bits.{has_bit}
use netfyr.Base.Equality.{◌==◌, nat_eq, option_eq, pair_eq}
use netfyr.Plan.{
  InterfaceId, Ipv4Address, AddressObservation, DeviceObservation, Operation, OperationKind,
  remove_ipv4, StateDiff, group, kernel_group, same_identity,
}
use netfyr.Plan.Identity.{interface_eq}
use netfyr.Report.{BackendError, backend_error, stale_state}
use netfyr.Executor.Lifetime.{ifa_f_secondary}

-- The operations from `position` on that can still run, given which ones before it can.
unfoldable pub extend_runnable : ℕ → List Operation → List Bool → List Bool
extend_runnable position [] runnable = runnable
extend_runnable position (op ∷ ops) runnable =
    extend_runnable (suc position) ops
      (runnable ++ all (λ d. ltb d position && get_or runnable d false) op.depends_on ∷ [])

abbrev pub removes : OperationKind → Ipv4Address → Bool
removes (remove_ipv4 other) addr = same_identity addr other
removes kind addr = false

-- Some operation from `position` on can run and removes the address from the interface.
unfoldable pub removed_from : ℕ → List Operation → List Bool → InterfaceId → Ipv4Address → Bool
removed_from position [] runnable target addr = false
removed_from position (op ∷ ops) runnable target addr =
    (get_or runnable position false && op.target == target && removes op.kind addr)
    || removed_from (suc position) ops runnable target addr

unfoldable pub removal_is_covered : StateDiff → ℕ → InterfaceId → Ipv4Address → List Bool → Bool
removal_is_covered diff index target addr eligible =
    let later = drop (index + 1) diff.operations in
    let runnable = extend_runnable (index + 1) later (take index eligible ++ true ∷ []) in
    removed_from (index + 1) later runnable target addr

abbrev pub is_secondary : AddressObservation → Bool
is_secondary e = has_bit e.flags ifa_f_secondary

-- A secondary of the primary's kernel group whose removal the plan does not provide for.
unfoldable pub is_uncovered :
    StateDiff
    → ℕ
    → InterfaceId
    → Ipv4Address
    → List Bool
    → AddressObservation
    → AddressObservation
    → Bool
is_uncovered diff index target addr eligible primary secondary =
    is_secondary secondary
    && (kernel_group secondary == kernel_group primary && eqb secondary.scope primary.scope)
    && (not (group secondary.address == group addr)
        || not (removal_is_covered diff index target secondary.address eligible))

unfoldable pub check_removal :
    StateDiff
    → ℕ
    → DeviceObservation
    → Ipv4Address
    → List Bool
    → Option AddressObservation
    → Result (Unit {0}) BackendError
check_removal diff index device addr eligible none = ok tt
check_removal diff index device addr eligible (some primary) =
    if any (is_uncovered diff index device.identity addr eligible primary) device.addresses
    then err (
        backend_error stale_state
          "primary removal could delete a secondary outside its executable prefix-group plan; remove peer-group secondaries first")
    else ok tt

-- The first address of the device that the removal names and that is no secondary.
abbrev pub find_primary : Ipv4Address → DeviceObservation → Option AddressObservation
find_primary addr device =
    find (λ e. same_identity e.address addr && not (is_secondary e)) device.addresses

unfoldable pub check_cascade :
    StateDiff → ℕ → DeviceObservation → OperationKind → List Bool → Result (Unit {0}) BackendError
check_cascade diff index device (remove_ipv4 addr) eligible =
    check_removal diff index device addr eligible (find_primary addr device)
check_cascade diff index device other eligible = ok tt
