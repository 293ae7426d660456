-- ===== src/Executor/Locate.antt =====
-- `locate`: the device that an operation targets, in a fresh observation.
pub mod Sound
use netfyr.Base.{ℕ, String, not, none, some, if◌then◌else◌, find_from, Result, ok, err}
use netfyr.Base.Equality.{◌==◌, nat_eq, string_eq}
use netfyr.Base.Text.{◌<>◌, decimal}
use netfyr.Plan.{NamespaceId, InterfaceId, Observation, DeviceObservation}
use netfyr.Plan.Identity.{namespace_eq, interface_eq}
use netfyr.Report.{BackendError, backend_error, stale_state, not_found, unsupported_entity_type}

-- `ETHERNET` of crates/netfyr-backend/src/lib.rs
abbrev pub ethernet : String
ethernet = "ethernet"

-- The checks on the device at the found position.
unfoldable pub confirm :
    InterfaceId → ℕ × DeviceObservation → Result (ℕ × DeviceObservation) BackendError
confirm identity (position, device) =
    if not (device.identity == identity)
    then err (
        backend_error stale_state
          ("interface " <> identity.name <> " was replaced or its identity changed"))
    else if not (device.identity.device_type == ethernet)
    then err (
        backend_error unsupported_entity_type (
          identity.name <> " is " <> device.identity.device_type
          <> ", which this backend cannot manage"))
    else ok (position, device)

-- The position, with the device that stands there: the callers index the observation by it.
unfoldable pub locate :
    Observation → InterfaceId → NamespaceId → Result (ℕ × DeviceObservation) BackendError
locate observation identity namespace =
    if not (identity.namespace == namespace)
    then err (backend_error stale_state "plan namespace differs from backend namespace")
    else elim (find_from 0 (λ d. d.identity.index == identity.index) observation.devices) [
      | none ↦ err (
          backend_error not_found (
            "interface "
            <> identity.name
            <> " (index "
            <> decimal identity.index
            <> ") disappeared"))
      | some found ↦ confirm identity found
    ]
