-- ===== src/Linux/Inventory/Assign.antt =====
-- crates/netfyr-backend/src/linux.rs: how `inventory` gives the dumped addresses to the devices.
use netfyr.Base.{
  ℕ, String, Bool, false, not, ◌++◌, Option, none, some, List, [], ◌∷◌, set, is_some, find_from,
  if◌then◌else◌, Result, ok, err, ◌>>=◌,
}
use netfyr.Base.Dict.{Dict, get, insert}
use netfyr.Base.Equality.{◌==◌, nat_eq, string_eq, pair_eq, contains}
use netfyr.Base.Text.{◌<>◌, decimal}
use netfyr.Value.{Items, nil, item, object, array, end, entry}
use netfyr.Value.Map as Map
use netfyr.Plan.{AddressObservation, DeviceObservation, InterfaceId, Diagnostic}
use netfyr.Report.{BackendError, backend_error, query_failed}
use netfyr.Executor.Locate.{ethernet}
use netfyr.Linux.{RoutePacket}
use netfyr.Linux.Messages.{AddressMessage, is_inet}
use netfyr.Linux.Addresses.{parse_address, address_value}
use netfyr.Linux.Transport.{AddressKey}

-- The variables of the loop over the addresses.
pub record Assigned : Type 0 where
  pub devices : List DeviceObservation
  pub diagnostics : List Diagnostic
  pub messages : Dict AddressKey AddressMessage
  pub duplicated : List ℕ

-- `RTM_NEWADDR`
abbrev pub new_address_number : ℕ
new_address_number = 20

abbrev pub key_of : ℕ → AddressObservation → AddressKey
key_of index o = (index, (o.address.ip, o.address.prefix_len))

abbrev pub peers_diagnostic : InterfaceId → Diagnostic
peers_diagnostic identity = record {
  target = some identity;
  field = some "ipv4.addresses";
  message =
      "local address assigned more than once with different peers; address operations are refused";
}

abbrev pub incomplete : DeviceObservation → DeviceObservation
incomplete d = record d { addresses_complete = false }

abbrev pub push_address : AddressObservation → DeviceObservation → DeviceObservation
push_address o d = record d { addresses = d.addresses ++ o ∷ [] }

abbrev pub refuse_duplicate : ℕ → ℕ → DeviceObservation → Assigned → Assigned
refuse_duplicate index position d a = record a {
  devices = set a.devices position (incomplete d);
  diagnostics =
      if contains a.duplicated index
      then a.diagnostics
      else a.diagnostics ++ peers_diagnostic d.identity ∷ [];
  duplicated = if contains a.duplicated index then a.duplicated else index ∷ a.duplicated;
}

-- The table has the newest message of each key; the device the address of the first one.
abbrev pub add_address :
    AddressMessage → ℕ → DeviceObservation → AddressObservation → Assigned → Assigned
add_address message position d o a =
    let key = key_of message.header.index o in
    let b = record a { messages = insert key message a.messages } in
    if is_some (get key a.messages)
    then refuse_duplicate message.header.index position d b
    else record b { devices = set a.devices position (push_address o d) }

abbrev pub parsed_with :
    AddressMessage
    → ℕ
    → DeviceObservation
    → Assigned
    → Result AddressObservation String
    → Result Assigned BackendError
parsed_with message position d a (err text) =
    err (backend_error query_failed (d.identity.name <> ": incomplete IPv4 observation: " <> text))
parsed_with message position d a (ok o) = ok (add_address message position d o a)

abbrev pub assign_to :
    AddressMessage → Assigned → Option (ℕ × DeviceObservation) → Result Assigned BackendError
assign_to message a none = err (
    backend_error query_failed (
      "address inventory contains an unobserved interface "
      <> decimal message.header.index
      <> "; query again"))
assign_to message a (some (position, d)) =
    if not (d.identity.device_type == ethernet)
    then ok a
    else parsed_with message position d a (parse_address message)

abbrev pub has_index : ℕ → DeviceObservation → Bool
has_index index d = d.identity.index == index

abbrev pub assign_message : Assigned → Result AddressMessage String → Result Assigned BackendError
assign_message a (err text) =
    err (backend_error query_failed ("incomplete IPv4 observation: " <> text))
assign_message a (ok message) =
    if not (is_inet message.header.family)
    then ok a
    else assign_to message a (find_from 0 (has_index message.header.index) a.devices)

unfoldable pub assign : RoutePacket → Assigned → Result Assigned BackendError
assign packet a =
    if not (packet.kind == new_address_number)
    then err (backend_error query_failed "unexpected response in address dump")
    else assign_message a packet.address

unfoldable pub assign_all : List RoutePacket → Assigned → Result Assigned BackendError
assign_all [] a = ok a
assign_all (p ∷ ps) a = assign p a >>= λ b. assign_all ps b

abbrev values : List AddressObservation → Items
values [] = nil
values (o ∷ rest) = item (address_value o) (values rest)

-- The addresses of an Ethernet device as a field of its state.
unfoldable pub with_addresses : DeviceObservation → DeviceObservation
with_addresses d =
    if d.identity.device_type == ethernet
    then record d {
      state = record d.state {
        fields =
            Map.insert "ipv4" (object (entry "addresses" (array (values d.addresses)) end))
              d.state.fields;
      };
    }
    else d
