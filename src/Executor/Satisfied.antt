-- ===== src/Executor/Satisfied.antt =====
-- `satisfied`: whether the device already is as a decoded operation wants it.
use netfyr.Base.{
  ℕ, ◌-◌, Bool, true, false, not, ◌&&◌, Option, none, some, if◌then◌else◌, any, find, eqb, Result,
  ok, err,
}
use netfyr.Base.Equality.{◌==◌, option_eq}
use netfyr.Value.{Value, u64}
use netfyr.Value.Equality.{value_eq}
use netfyr.Value.Map.{get}
use netfyr.Plan.{
  Ipv4Address, AddressObservation, DeviceObservation, AddressGroupPrecondition, Operation,
  OperationKind, set_mtu, set_enabled, add_ipv4, remove_ipv4, replace_ipv4, lifetimes,
  same_identity,
}
use netfyr.Plan.Identity.{same_address}
use netfyr.Report.{BackendError, backend_error, not_found, apply_failed}
use netfyr.Executor.Lifetime.{lifetime_matches}

-- The time since the precondition, if it holds the very address.
unfoldable pub precondition_age : Option AddressGroupPrecondition → Ipv4Address → ℕ → Option ℕ
precondition_age none addr now = none
precondition_age (some g) addr now =
    if any (λ e. same_address e.address addr) g.addresses then some (now - g.observed_at) else none

unfoldable pub lifetimes_equal : Option ℕ → Ipv4Address → Ipv4Address → Bool
lifetimes_equal (some elapsed) addr existing =
    lifetime_matches (lifetimes addr).0 (lifetimes existing).0 elapsed
    && lifetime_matches (lifetimes addr).1 (lifetimes existing).1 elapsed
lifetimes_equal none addr existing =
    eqb (lifetimes addr).0 (lifetimes existing).0 && eqb (lifetimes addr).1 (lifetimes existing).1

unfoldable pub find_address : Ipv4Address → DeviceObservation → Option AddressObservation
find_address addr device = find (λ e. same_identity e.address addr) device.addresses

-- The branch of additions and replacements; `replaces` tells them apart.
unfoldable pub address_satisfied :
    Bool
    → Ipv4Address
    → Option AddressObservation
    → DeviceObservation
    → Operation
    → Result Bool BackendError
address_satisfied replaces addr none device op =
    if replaces
    then err (backend_error not_found "address replacement requires an existing address")
    else ok false
address_satisfied replaces addr (some existing) device op =
    if lifetimes_equal (precondition_age op.address_group addr device.observed_at) addr
      existing.address
    then ok true
    else if replaces
    then ok false
    else err (
        backend_error apply_failed
          "address exists with different lifetimes; an explicit replacement is required")

unfoldable pub satisfied : OperationKind → DeviceObservation → Operation → Result Bool BackendError
satisfied (set_mtu mtu) device op = ok (get "mtu" device.state.fields == some (u64 mtu))
satisfied (set_enabled enabled) device op =
    ok (get "enabled" device.state.fields == some (Value.bool enabled))
satisfied (remove_ipv4 addr) device op =
    ok (not (any (λ e. same_identity e.address addr) device.addresses))
satisfied (add_ipv4 addr) device op =
    address_satisfied false addr (find_address addr device) device op
satisfied (replace_ipv4 addr) device op =
    address_satisfied true addr (find_address addr device) device op
satisfied other device op = ok false
