-- ===== src/Samples.antt =====
-- Data for the examples: an interface with two addresses, a plan of four operations, and an outside
-- world in which a write has the effect that `project` describes.
use netfyr.Base.{
  ℕ, ◌+◌, ◌*◌, ◌^◌, String, true, false, Option, none, some, List, [], ◌∷◌, map, if◌then◌else◌, ok,
}
use netfyr.Base.Equality.{◌==◌, nat_eq, string_eq}
use netfyr.Base.Int.{ℤ, pos, negsuc}
use netfyr.Yaml.{Numbers}
use netfyr.Value.{IpAddr, v4, Value, u64, end, entry}
use netfyr.Device.{State, kernel, new_state}
use netfyr.Plan.{
  NamespaceId, InterfaceId, Ipv4Address, AddressObservation, DeviceObservation, Operation,
  OperationKind, set_mtu, set_field, add_ipv4, StateDiff,
}
use netfyr.Executor.Project.{project}
use netfyr.Executor.Action.{Io}

-- A parser of addresses that knows one address.
abbrev pub parse_one : String → Option IpAddr
parse_one s = if s == "10.0.0.1" then some (v4 (10 * 2 ^ 24 + 1)) else none

abbrev pub netns : NamespaceId
netns = record { device = 4; inode = 99 }

abbrev pub eth0 : InterfaceId
eth0 = record {
  namespace = netns;
  index = 2;
  generation = 1;
  name = "eth0";
  device_type = "ethernet";
  mac = some "aa:bb:cc:00:11:22";
}

abbrev pub address_a : Ipv4Address
address_a = record { ip = 10 * 2 ^ 24 + 1; prefix_len = 24; valid_lft = none; preferred_lft = none }

abbrev pub address_b : Ipv4Address
address_b = record {
  ip = 10 * 2 ^ 24 + 2;
  prefix_len = 24;
  valid_lft = some 3600;
  preferred_lft = some 1800;
}

abbrev pub observed : Ipv4Address → AddressObservation
observed a = record { address = a; flags = 0x80; scope = 0; peer = none }

abbrev pub sample_state : State
sample_state = record (new_state kernel) {
  device_type = "ethernet";
  fields = entry "mtu" (u64 1500) (entry "enabled" (Value.bool true) end);
}

abbrev pub device_eth0 : DeviceObservation
device_eth0 = record {
  identity = eth0;
  state = sample_state;
  addresses = observed address_a ∷ [];
  addresses_complete = true;
  observed_at = 1_000;
}

abbrev pub operation : OperationKind → List ℕ → Operation
operation kind depends_on = record {
  target = eth0;
  kind = kind;
  depends_on = depends_on;
  address_group = none;
}

-- An MTU write, an assignment that fails, an operation that depends on it, and one whose dependency
-- is no earlier operation.
abbrev pub sample_plan : StateDiff
sample_plan = record {
  changes = [];
  operations =
      operation (set_mtu 9000) []
      ∷ operation (set_field "mtu" (Value.string "big")) []
      ∷ operation (add_ipv4 address_b) (1 ∷ [])
      ∷ operation (set_mtu 1400) (3 ∷ [])
      ∷ [];
  diagnostics = [];
}

abbrev pub World : Type 0
World = List DeviceObservation

abbrev pub write_device : InterfaceId → OperationKind → DeviceObservation → DeviceObservation
write_device target kind d = if d.identity.index == target.index then project d kind else d

abbrev pub sample_io : Io World
sample_io = record {
  namespace = netns;
  inventory = λ w. (ok (record { devices = w; diagnostics = [] }), w);
  execute = λ target kind w. (ok tt, map (write_device target kind) w);
  now = λ w. (2_000, w);
  cancelled = λ w. (false, w);
}

abbrev pub sample_world : World
sample_world = device_eth0 ∷ []

-- A printer of addresses.
abbrev pub no_text : IpAddr → String
no_text a = ""

-- Numbers that are integers.
abbrev unsigned_of : ℤ → Option ℕ
unsigned_of (pos n) = some n
unsigned_of (negsuc k) = none

abbrev pub integers : Numbers ℤ
integers = record {
  as_u64 = unsigned_of;
  as_i64 = λ z. some z;
  of_u64 = pos;
  of_i64 = λ z. z;
  number_text = λ z. "";
}
