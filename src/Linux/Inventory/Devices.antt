-- ===== src/Linux/Inventory/Devices.antt =====
-- crates/netfyr-backend/src/linux.rs: what `inventory` makes of the answers it gathers for the links.
use netfyr.Base.{
  ℕ, zero, suc, String, Bool, not, ◌++◌, Option, none, some, List, [], ◌∷◌, any, if◌then◌else◌,
  Result, ok, err, ◌>>=◌,
}
use netfyr.Base.Dict.{Dict, get}
use netfyr.Base.Equality.{◌==◌, nat_eq, string_eq, option_eq}
use netfyr.Value.{string, object}
use netfyr.Value.Map as Map
use netfyr.Device.{State}
use netfyr.Plan.{InterfaceId, Diagnostic, DeviceObservation}
use netfyr.Report.{BackendError, backend_error, from_io, query_failed}
use netfyr.Linux.Interface.{IoError, is_interrupted, unsupported_ioctl}
use netfyr.Linux.Optional.{EthtoolAnswer, Attributes, ethernet_attributes, renamed_during_inventory}
use netfyr.Linux.Transport.{LinuxTransport}

abbrev pub diagnostic : Option InterfaceId → String → String → Diagnostic
diagnostic target field message = record { target = target; field = some field; message = message }

-- What the loop over the links has gathered: the targets of the link-mode queries have the position
-- of their device.
pub record Gathered : Type 0 where
  pub devices : List DeviceObservation
  pub diagnostics : List Diagnostic
  pub targets : List (ℕ × (String × ℕ))

abbrev pub push_diagnostics :
    InterfaceId → List (String × String) → List Diagnostic → List Diagnostic
push_diagnostics identity [] ds = ds
push_diagnostics identity ((field, message) ∷ rest) ds =
    push_diagnostics identity rest (ds ++ diagnostic (some identity) field message ∷ [])

abbrev pub set_driver : Option String → State → State
set_driver none state = state
set_driver (some driver) state = record state {
  fields = Map.insert "driver" (string driver) state.fields;
}

abbrev pub with_driver : Option String → Option String → State → State
with_driver driver pci_path state =
    let named = set_driver driver state in
    record named { match_spec = record named.match_spec { driver = driver; pci_path = pci_path } }

-- The state after the driver's call, with the diagnostics.
pub record Enriched : Type 0 where
  pub state : State
  pub diagnostics : List Diagnostic

unfoldable pub enrich_state :
    InterfaceId
    → Result (Option String × Option String) IoError
    → State
    → List Diagnostic
    → Result Enriched BackendError
enrich_state identity (ok (driver, pci_path)) state ds =
    ok (record { state = with_driver driver pci_path state; diagnostics = ds })
enrich_state identity (err e) state ds =
    if unsupported_ioctl e
    then ok (record { state = state; diagnostics = ds })
    else if is_interrupted e.kind
    then err renamed_during_inventory
    else ok (record {
      state = state;
      diagnostics = ds ++ diagnostic (some identity) "driver" e.text ∷ [];
    })

abbrev pub legacy_result : Result Bool IoError → Result Bool BackendError
legacy_result (ok b) = ok b
legacy_result (err e) =
    if is_interrupted e.kind
    then err renamed_during_inventory
    else err (from_io query_failed e.raw_os_error e.text)

abbrev pub set_generations : Dict ℕ ℕ → LinuxTransport → LinuxTransport
set_generations generations t = record t {
  tracking = record t.tracking { generations = generations };
}

-- The device at a position with the fields of its link modes.
abbrev pub insert_modes : Attributes → DeviceObservation → DeviceObservation
insert_modes a d =
    if not (Map.is_empty a.fields)
    then record d {
      state = record d.state { fields = Map.insert "ethernet" (object a.fields) d.state.fields };
    }
    else d

abbrev pub update_at :
    ℕ → (DeviceObservation → DeviceObservation) → List DeviceObservation → List DeviceObservation
update_at n f [] = []
update_at zero f (d ∷ ds) = f d ∷ ds
update_at (suc n) f (d ∷ ds) = d ∷ update_at n f ds

abbrev pub mode_diagnostics : InterfaceId → List String → List Diagnostic → List Diagnostic
mode_diagnostics identity [] ds = ds
mode_diagnostics identity (message ∷ rest) ds =
    mode_diagnostics identity rest (ds ++ diagnostic (some identity) "ethernet" message ∷ [])

abbrev pub identity_at : List DeviceObservation → ℕ → Option InterfaceId
identity_at [] n = none
identity_at (d ∷ ds) zero = some d.identity
identity_at (d ∷ ds) (suc n) = identity_at ds n

abbrev pub mode_diagnostics_at :
    Option InterfaceId → List String → List Diagnostic → List Diagnostic
mode_diagnostics_at none messages ds = ds
mode_diagnostics_at (some identity) messages ds = mode_diagnostics identity messages ds

abbrev pub apply_attributes : ℕ → Attributes → Gathered → Gathered
apply_attributes position a g = record g {
  devices = update_at position (insert_modes a) g.devices;
  diagnostics = mode_diagnostics_at (identity_at g.devices position) a.diagnostics g.diagnostics;
}

-- The loop over the targets and the answers to their link-mode queries.
unfoldable pub apply_modes :
    List (ℕ × (String × ℕ)) → List EthtoolAnswer → Gathered → Result Gathered BackendError
apply_modes [] answers g = ok g
apply_modes (target ∷ targets) [] g = ok g
apply_modes ((position, (name, index)) ∷ targets) (answer ∷ answers) g =
    ethernet_attributes index answer >>= λ a.
    apply_modes targets answers (apply_attributes position a g)

abbrev pub retained : List DeviceObservation → Dict ℕ ℕ → Dict ℕ ℕ
retained devices [] = []
retained devices ((index, generation) ∷ d) =
    if any (λ (o : DeviceObservation). o.identity.index == index) devices
    then (index, generation) ∷ retained devices d
    else retained devices d

-- Every device's generation is still the one of its index.
unfoldable pub check_generations :
    Dict ℕ ℕ → List DeviceObservation → Result (Unit {0}) BackendError
check_generations generations [] = ok tt
check_generations generations (d ∷ ds) =
    if not (get d.identity.index generations == some d.identity.generation)
    then err (backend_error query_failed "interface disappeared during inventory; query again")
    else check_generations generations ds
