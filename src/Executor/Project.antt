-- ===== src/Executor/Project.antt =====
-- The effect of a write on the model of a device: `project`, `rebase_lifetimes`; and `collateral`,
-- `unconfirmed`, `cancelled_error`.
pub mod Effect
use netfyr.Base.{
  ℕ, ◌-◌, ◌/◌, ◌^◌, String, Bool, false, not, Option, none, some, List, [], ◌∷◌, ◌++◌, map,
  if◌then◌else◌, any, keep, eqb, ltb,
}
use netfyr.Base.Bits.{bit_or, clear}
use netfyr.Base.Equality.{◌==◌, nat_eq, option_eq, pair_eq}
use netfyr.Base.Text.{◌<>◌}
use netfyr.Value.{Value, u64}
use netfyr.Value.Map.{insert}
use netfyr.Plan.{
  Ipv4Address, AddressObservation, DeviceObservation, Diagnostic, OperationKind, set_mtu,
  set_enabled, add_ipv4, remove_ipv4, replace_ipv4, lifetimes, same_identity, group, kernel_group,
  kind_field,
}
use netfyr.Report.{BackendError, backend_error, outcome_unknown, apply_failed}
use netfyr.Executor.Lifetime.{
  whole_seconds, decay, lifetime_flags, ifa_f_secondary, ifa_f_permanent, ifa_f_deprecated,
  rt_scope_host,
}

-- `Ipv4Addr::is_loopback`: 127.0.0.0/8.
abbrev pub is_loopback : ℕ → Bool
is_loopback ip = eqb (ip / 2 ^ 24) 127

-- The observation that an added address is expected to give.
unfoldable pub added : Ipv4Address → List AddressObservation → AddressObservation
added addr existing = record {
  address = addr;
  flags =
      bit_or (lifetime_flags addr)
        (if any (λ e. kernel_group e == group addr) existing then ifa_f_secondary else 0);
  scope = if is_loopback addr.ip then rt_scope_host else 0;
  peer = none;
}

-- The first address with the identity of `addr`, replaced; the others unchanged.
unfoldable pub replace_first : Ipv4Address → List AddressObservation → List AddressObservation
replace_first addr [] = []
replace_first addr (e ∷ es) =
    if same_identity e.address addr
    then record e {
      address = addr;
      flags =
          bit_or (clear e.flags (bit_or ifa_f_permanent ifa_f_deprecated)) (lifetime_flags addr);
    }
      ∷ es
    else e ∷ replace_first addr es

abbrev with_field : DeviceObservation → String → Value → DeviceObservation
with_field device key v = record device {
  state = record (device.state) { fields = insert key v device.state.fields };
}

unfoldable pub project : DeviceObservation → OperationKind → DeviceObservation
project device (set_mtu mtu) = with_field device "mtu" (u64 mtu)
project device (set_enabled enabled) = with_field device "enabled" (Value.bool enabled)
project device (remove_ipv4 addr) = record device {
  addresses = keep (λ e. not (same_identity e.address addr)) device.addresses;
}
project device (add_ipv4 addr) = record device {
  addresses = device.addresses ++ added addr device.addresses ∷ [];
}
project device (replace_ipv4 addr) = record device {
  addresses = replace_first addr device.addresses;
}
project device other = device

-- One address, `elapsed` whole seconds later.
unfoldable pub rebase_address : ℕ → AddressObservation → AddressObservation
rebase_address elapsed e =
    let (valid, preferred) = lifetimes e.address in
    let later = decay preferred elapsed in
    record e {
      address = record (e.address) {
        valid_lft = some (decay valid elapsed);
        preferred_lft = some later;
      };
      flags = if eqb later 0 then bit_or e.flags ifa_f_deprecated else e.flags;
    }

unfoldable pub rebase_lifetimes : DeviceObservation → ℕ → DeviceObservation
rebase_lifetimes device now =
    let elapsed = whole_seconds (now - device.observed_at) in
    record device { addresses = map (rebase_address elapsed) device.addresses; observed_at = now }

abbrev side_effect : DeviceObservation → OperationKind → String → Option Diagnostic
side_effect device kind message =
    some (record { target = some device.identity; field = kind_field kind; message = message })

unfoldable pub collateral : DeviceObservation → OperationKind → Option Diagnostic
collateral device (set_mtu mtu) =
    if ltb mtu 1280
    then side_effect device (set_mtu mtu)
        "an MTU below 1280 disables IPv6 on the device and removes its IPv6 addresses"
    else none
collateral device (set_enabled false) =
    side_effect device (set_enabled false)
      "disabling the device removes its IPv4 routes and, unless keep_addr_on_down is set, its IPv6 addresses"
collateral device other = none

unfoldable pub unconfirmed : String → BackendError → BackendError
unconfirmed message cause =
    record (backend_error outcome_unknown (message <> ": " <> cause.message)) {
      errno = cause.errno;
      extack = cause.extack;
    }

unfoldable pub cancelled_error : String → BackendError
cancelled_error message = backend_error apply_failed message
