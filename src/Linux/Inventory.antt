-- ===== src/Linux/Inventory.antt =====
-- crates/netfyr-backend/src/linux.rs: `inventory`, the observation of all links with their
-- addresses, from two dumps and what the optional calls tell.
pub mod Devices
pub mod Assign
pub mod Distinct
pub mod Bare
pub mod Tracked
pub mod Renewed
pub mod Assigning
pub mod Namespaced
mod Tests
use netfyr.Base.{
  ℕ, zero, suc, map, String, Bool, true, false, not, ◌++◌, Option, none, some, List, [], ◌∷◌,
  length, any, get_or, set, if◌then◌else◌, Result, ok, err,
}
use netfyr.Base.Dict.{Dict, get, insert}
use netfyr.Base.Equality.{◌==◌, nat_eq, string_eq, option_eq}
use netfyr.Value.{string, object}
use netfyr.Value.Map as Map
use netfyr.Device.{Match, State}
use netfyr.Plan.{NamespaceId, InterfaceId, Diagnostic, DeviceObservation, Observation}
use netfyr.Report.{BackendError, backend_error, from_io, query_failed, internal}
use netfyr.Executor.Locate.{ethernet}
use netfyr.Linux.{Tracking, RoutePacket, validate_deletion_epoch}
use netfyr.Linux.Messages.{AddressMessage, inet, empty_address_message, empty_link_message}
use netfyr.Linux.Exchange.{dump, Library}
use netfyr.Linux.Links.{ParsedLink, parse_link, classify_link, link_state}
use netfyr.Linux.Interface.{
  Ioctl, IoError, is_interrupted, while_named, driver_info, legacy_wireless, unsupported_ioctl,
}
use netfyr.Linux.Optional.{
  WirelessAnswer, wireless_indices, no_wireless, EthtoolAnswer, Attributes, ethernet_attributes,
  renamed_during_inventory,
}
use netfyr.Linux.Transport.{
  RouteMessage, get_link, get_address, Socket, AddressKey, LinuxTransport, Connection, Action, pure,
  lift, ◌>>=◌, ◌>>◌, with_transport, new_link_number, drain, request,
}
use netfyr.Linux.Inventory.Devices.{
  diagnostic, Gathered, push_diagnostics, set_driver, with_driver, Enriched, enrich_state,
  legacy_result, set_generations, insert_modes, update_at, mode_diagnostics, identity_at,
  mode_diagnostics_at, apply_attributes, apply_modes, retained, check_generations,
}
use netfyr.Linux.Inventory.Assign.{Assigned, assign_all, with_addresses}

-- All that the transport asks. The wireless and the ethtool connection may be missing.
pub record System (W : Type 0) : Type 0 where
  pub socket : Socket W
  pub ioctl : Ioctl W
  pub random : W → Result ℕ IoError × W
  pub now : W → ℕ × W
  pub wireless : Option (W → WirelessAnswer × W)
  pub ethtool : Option (String → ℕ → W → EthtoolAnswer × W)

module _ {W : Type 0} (library : Library) (system : System W) where
  abbrev ask : {A : Type 0} → (W → A × W) → Action W A
  ask call c = let (a, w) = call c.world in (ok a, record c { world = w })

  abbrev modify : (LinuxTransport → LinuxTransport) → Action W (Unit {0})
  modify f c = (ok tt, record c { transport = f c.transport })

  unfoldable pub fresh_generation : Action W ℕ
  fresh_generation c =
      let (r, w) = system.random c.world in (random_result r, record c { world = w })
    where
      random_result : Result ℕ IoError → Result ℕ BackendError
      random_result (ok n) = ok n
      random_result (err e) = err (from_io internal e.raw_os_error e.text)

  -- The generation of an index, a fresh one for a new index.
  abbrev pub generation_from : ℕ → Option ℕ → Action W ℕ
  generation_from index (some generation) = pure generation
  generation_from index none = do
    generation ← fresh_generation
    modify (λ t. set_generations (insert index generation t.tracking.generations) t)
    pure generation

  unfoldable pub generation_of : ℕ → Action W ℕ
  generation_of index = with_transport λ t. generation_from index (get index t.tracking.generations)

  abbrev io_call : {A : Type 0} → (W → Result A IoError × W) → Action W (Result A IoError)
  io_call call c = let (r, w) = call c.world in (ok r, record c { world = w })

  abbrev legacy_call : String → W → Result Bool IoError × W
  legacy_call name w = let (b, next) = legacy_wireless library system.ioctl name w in (ok b, next)

  -- The wireless interfaces, or why they are not known.
  abbrev wireless_answer : Option (W → WirelessAnswer × W) → Action W (Result (List ℕ) String)
  wireless_answer none = pure (err no_wireless)
  wireless_answer (some call) = do answer ← ask call; pure (wireless_indices answer)

  abbrev indices_of : Result (List ℕ) String → Option (List ℕ)
  indices_of (ok indices) = some indices
  indices_of (err text) = none

  abbrev wireless_diagnostics : Result (List ℕ) String → List Diagnostic → List Diagnostic
  wireless_diagnostics (ok indices) ds = ds
  wireless_diagnostics (err text) ds = ds ++ diagnostic none "type" text ∷ []

  abbrev identity_with : NamespaceId → ParsedLink → ℕ → String → Option String → InterfaceId
  identity_with namespace link generation device_type mac = record {
    namespace = namespace;
    index = link.message.header.index;
    generation = generation;
    name = link.name;
    device_type = device_type;
    mac = mac;
  }

  -- A device before its addresses are known.
  abbrev pub bare_device : InterfaceId → State → ℕ → DeviceObservation
  bare_device identity state observed_at = record {
    identity = identity;
    state = state;
    addresses = [];
    addresses_complete = identity.device_type == ethernet;
    observed_at = observed_at;
  }

  abbrev target_of : Bool → InterfaceId → ℕ → List (ℕ × (String × ℕ))
  target_of enriched identity position =
      if enriched
      then (if identity.device_type == ethernet
          then (position, (identity.name, identity.index)) ∷ []
          else [])
      else []

  unfoldable pub enriched : Bool → InterfaceId → State → List Diagnostic → Action W Enriched
  enriched false identity state ds = pure (record { state = state; diagnostics = ds })
  enriched true identity state ds = do
    r ← io_call (
        while_named library system.ioctl identity.name identity.index
          (driver_info library system.ioctl identity.name))
    lift (enrich_state identity r state ds)

  module _ (enrich : Match → Bool) (wireless : Option (List ℕ)) (observed_at : ℕ) where
    abbrev check_kind : RoutePacket → Result (Unit {0}) BackendError
    check_kind packet =
        if not (packet.kind == new_link_number)
        then err (backend_error query_failed "unexpected response in link dump")
        else ok tt

    abbrev pub add_device : Gathered → InterfaceId → Bool → Enriched → Gathered
    add_device g identity wanted e = record {
      devices = g.devices ++ bare_device identity e.state observed_at ∷ [];
      diagnostics = e.diagnostics;
      targets = g.targets ++ target_of wanted identity (length g.devices);
    }

    -- The rest of a link's round, from its device type and its generation.
    abbrev pub observe_link : ParsedLink → String → ℕ → Gathered → Action W Gathered
    observe_link link device_type generation g = do
      let (state, mac) = link_state link device_type
      identity ←
          with_transport λ t. pure (identity_with t.namespace link generation device_type mac)
      let wanted = enrich state.match_spec
      e ← enriched wanted identity state (push_diagnostics identity link.diagnostics g.diagnostics)
      pure (add_device g identity wanted e)

    unfoldable pub add_link : RoutePacket → Gathered → Action W Gathered
    add_link packet g = do
      lift (check_kind packet)
      link ← lift (parse_link packet)
      called ← io_call (
          while_named library system.ioctl link.name link.message.header.index
            (legacy_call link.name))
      legacy ← lift (legacy_result called)
      let device_type = if legacy then "wifi" else classify_link link wireless
      generation ← generation_of link.message.header.index
      observe_link link device_type generation g

    unfoldable pub add_links : List RoutePacket → Gathered → Action W Gathered
    add_links [] g = pure g
    add_links (p ∷ ps) g = add_link p g >>= λ h. add_links ps h

  abbrev pub query_modes :
      (String → ℕ → W → EthtoolAnswer × W) → List (ℕ × (String × ℕ)) → Action W (List EthtoolAnswer)
  query_modes call [] = pure []
  query_modes call ((position, (name, index)) ∷ targets) = do
    answer ← ask (call name index)
    rest ← query_modes call targets
    pure (answer ∷ rest)

  abbrev pub add_modes : Option (String → ℕ → W → EthtoolAnswer × W) → Gathered → Action W Gathered
  add_modes none g = pure g
  add_modes (some call) g = do
    answers ← query_modes call g.targets
    lift (apply_modes g.targets answers g)

  abbrev pub start_assigned : Gathered → Assigned
  start_assigned g = record {
    devices = g.devices;
    diagnostics = g.diagnostics;
    messages = [];
    duplicated = [];
  }

  -- The last part: no deletion since the start, and every device still tracked.
  unfoldable pub conclude : ℕ → Assigned → Action W Observation
  conclude epoch a = do
    let devices = map with_addresses a.devices
    drain library system.socket
    with_transport λ t. lift (validate_deletion_epoch epoch t.tracking.epoch)
    with_transport λ t. lift (check_generations t.tracking.generations devices)
    modify (λ t. record t { address_messages = a.messages })
    pure (record { devices = devices; diagnostics = a.diagnostics })

  abbrev retain_generations : Gathered → Action W (Unit {0})
  retain_generations g = modify (λ t. set_generations (retained g.devices t.tracking.generations) t)

  abbrev address_request : AddressMessage
  address_request = record empty_address_message {
    header = record empty_address_message.header { family = inet };
  }

  unfoldable pub observe_devices : (Match → Bool) → List RoutePacket → Action W Gathered
  observe_devices enrich links = do
    observed_at ← ask system.now
    initial ← with_transport λ t. pure t.initialization_diagnostics
    answer ← wireless_answer system.wireless
    g ←
        add_links enrich (indices_of answer) observed_at links
          (record { devices = []; diagnostics = wireless_diagnostics answer initial; targets = [] })
    add_modes system.ethtool g

  unfoldable pub inventory : (Match → Bool) → Action W Observation
  inventory enrich = do
    drain library system.socket
    epoch ← with_transport λ t. pure t.tracking.epoch
    links ← request library system.socket (get_link empty_link_message) dump 0
    addresses ← request library system.socket (get_address address_request) dump 0
    g ← observe_devices enrich links
    retain_generations g
    a ← lift (assign_all addresses (start_assigned g))
    conclude epoch a
