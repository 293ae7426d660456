-- ===== src/Device.antt =====
-- crates/netfyr-state/src/source.rs, match_spec.rs and state.rs: who produced a state, which device
-- it targets, and the state itself. `StateMetadata` (a fresh UUID and a timestamp) is bookkeeping
-- that no code reads; the model leaves it out.
pub mod Selector
pub mod Content
use netfyr.Base.{ℕ, String, Bool, true, false, Option, none, some, ◌&&◌, is_none}
use netfyr.Base.Int.{ℤ, pos}
use netfyr.Base.Equality.{◌==◌, string_eq, option_eq}
use netfyr.Base.Text.{eq_ignore_ascii_case}
use netfyr.Value.{Entries, end, same_entries}

pub data Source : Type 0 where
  static vpn dhcp ra : String → Source
  kernel : Source

unfoldable pub default_priority : Source → ℤ
default_priority (static policy) = pos 100
default_priority (vpn policy) = pos 75
default_priority (dhcp policy) = pos 50
default_priority (ra policy) = pos 25
default_priority kernel = pos 0

unfoldable pub policy_of : Source → Option String
policy_of (static policy) = some policy
policy_of (vpn policy) = some policy
policy_of (dhcp policy) = some policy
policy_of (ra policy) = some policy
policy_of kernel = none

pub record Match : Type 0 where
  pub name : Option String
  pub device_type : Option String
  pub driver : Option String
  pub pci_path : Option String
  pub mac : Option String

-- `Match::default()`
abbrev pub any_device : Match
any_device = record { name = none; device_type = none; driver = none; pci_path = none; mac = none }

unfoldable pub field_matches : Option String → Option String → Bool
field_matches (some a) (some b) = a == b
field_matches (some a) none = false
field_matches none b = true

unfoldable pub mac_matches : Option String → Option String → Bool
mac_matches (some a) (some b) = eq_ignore_ascii_case a b
mac_matches (some a) none = false
mac_matches none b = true

unfoldable pub matches : Match → Match → Bool
matches m other =
    field_matches m.name other.name
    && field_matches m.device_type other.device_type
    && field_matches m.driver other.driver
    && field_matches m.pci_path other.pci_path
    && mac_matches m.mac other.mac

unfoldable pub is_empty_match : Match → Bool
is_empty_match m =
    is_none m.name
    && is_none m.device_type
    && is_none m.driver
    && is_none m.pci_path
    && is_none m.mac

abbrev pub same_match : Match → Match → Bool
same_match a b =
    a.name == b.name
    && a.device_type == b.device_type
    && a.driver == b.driver
    && a.pci_path == b.pci_path
    && a.mac == b.mac

pub record State : Type 0 where
  pub device_type : String
  pub match_spec : Match
  pub fields : Entries
  pub source : Source
  pub priority : ℤ

unfoldable pub new_state : Source → State
unfolding default_priority
new_state source = record {
  device_type = "";
  match_spec = any_device;
  fields = end;
  source = source;
  priority = default_priority source;
}

unfoldable pub content_eq : State → State → Bool
content_eq a b =
    a.device_type == b.device_type
    && same_match a.match_spec b.match_spec
    && same_entries a.fields b.fields
