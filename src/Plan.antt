-- ===== src/Plan.antt =====
-- crates/netfyr-state/src/plan.rs: observations of the kernel's devices, and the plans of operations
-- on them. An IPv4 address is its 32 bits, most significant octet first; an `Instant` is a number of
-- nanoseconds. A `u32`, `u8` or `u64` is a number whose range the type of the source gives.
pub mod Identity
pub mod Address
pub mod Prefix
use netfyr.Base.{
  ℕ, ◌-◌, ◌*◌, ◌%◌, ◌^◌, String, Bool, true, false, Option, none, some, List, ◌&&◌, ltb, eqb, leb,
  if◌then◌else◌, unwrap_or, Result, ok, err,
}
use netfyr.Base.Bits.{bit_and, u32_max}
use netfyr.Base.Equality.{◌==◌, nat_eq, string_eq, option_eq}
use netfyr.Value.{Value}
use netfyr.Device.{Source, State}

pub record NamespaceId : Type 0 where
  pub device : ℕ
  pub inode : ℕ

pub record InterfaceId : Type 0 where
  pub namespace : NamespaceId
  pub index : ℕ
  pub generation : ℕ
  pub name : String
  pub device_type : String
  pub mac : Option String

pub record Ipv4Address : Type 0 where
  pub ip : ℕ
  pub prefix_len : ℕ
  pub valid_lft : Option ℕ
  pub preferred_lft : Option ℕ

-- `u32::MAX.checked_shl(shift).unwrap_or(0)`
unfoldable pub prefix_mask : ℕ → ℕ
prefix_mask shift = if ltb shift 32 then u32_max * 2 ^ shift % 2 ^ 32 else 0

unfoldable pub masked : ℕ → ℕ → Option (ℕ × ℕ)
masked ip prefix_len =
    if ltb 32 prefix_len
    then none
    else some (bit_and ip (prefix_mask (32 - prefix_len)), prefix_len)

unfoldable pub group : Ipv4Address → Option (ℕ × ℕ)
group a = masked a.ip a.prefix_len

unfoldable pub same_identity : Ipv4Address → Ipv4Address → Bool
same_identity a b = eqb a.ip b.ip && eqb a.prefix_len b.prefix_len

unfoldable pub lifetimes : Ipv4Address → ℕ × ℕ
lifetimes a = let valid = unwrap_or a.valid_lft u32_max in (valid, unwrap_or a.preferred_lft valid)

pub data AddressError : Type 0 where
  prefix_too_long zero_valid_lifetime preferred_exceeds_valid : AddressError

unfoldable pub address_error_text : AddressError → String
address_error_text prefix_too_long = "IPv4 prefix length exceeds 32"
address_error_text zero_valid_lifetime = "IPv4 valid lifetime must be greater than zero"
address_error_text preferred_exceeds_valid = "IPv4 preferred lifetime exceeds valid lifetime"

unfoldable pub validate_address : Ipv4Address → Result (Unit {0}) AddressError
unfolding lifetimes
validate_address a =
    let (valid, preferred) = lifetimes a in
    if ltb 32 a.prefix_len
    then err prefix_too_long
    else if eqb valid 0
    then err zero_valid_lifetime
    else if ltb valid preferred
    then err preferred_exceeds_valid
    else ok tt

pub record AddressObservation : Type 0 where
  pub address : Ipv4Address
  pub flags : ℕ
  pub scope : ℕ
  pub peer : Option ℕ

unfoldable pub kernel_group : AddressObservation → Option (ℕ × ℕ)
kernel_group o = masked (unwrap_or o.peer o.address.ip) o.address.prefix_len

pub record DeviceObservation : Type 0 where
  pub identity : InterfaceId
  pub state : State
  pub addresses : List AddressObservation
  pub addresses_complete : Bool
  pub observed_at : ℕ

pub record Diagnostic : Type 0 where
  pub target : Option InterfaceId
  pub field : Option String
  pub message : String

pub record Observation : Type 0 where
  pub devices : List DeviceObservation
  pub diagnostics : List Diagnostic

pub record AddressGroupPrecondition : Type 0 where
  pub addresses : List AddressObservation
  pub observed_at : ℕ

pub data OperationKind : Type 0 where
  set_mtu : ℕ → OperationKind
  set_enabled : Bool → OperationKind
  add_ipv4 remove_ipv4 replace_ipv4 : Ipv4Address → OperationKind
  set_field : String → Value → OperationKind
  add_entity remove_entity : OperationKind

unfoldable pub kind_name : OperationKind → String
kind_name (set_mtu m) = "set_mtu"
kind_name (set_enabled b) = "set_enabled"
kind_name (add_ipv4 a) = "add_ipv4"
kind_name (remove_ipv4 a) = "remove_ipv4"
kind_name (replace_ipv4 a) = "replace_ipv4"
kind_name (set_field f v) = "set_field"
kind_name add_entity = "add_entity"
kind_name remove_entity = "remove_entity"

unfoldable pub ipv4_address : OperationKind → Option Ipv4Address
ipv4_address (add_ipv4 a) = some a
ipv4_address (remove_ipv4 a) = some a
ipv4_address (replace_ipv4 a) = some a
ipv4_address kind = none

unfoldable pub kind_field : OperationKind → Option String
kind_field (set_mtu m) = some "mtu"
kind_field (set_enabled b) = some "enabled"
kind_field (add_ipv4 a) = some "ipv4.addresses"
kind_field (remove_ipv4 a) = some "ipv4.addresses"
kind_field (replace_ipv4 a) = some "ipv4.addresses"
kind_field (set_field f v) = some f
kind_field add_entity = none
kind_field remove_entity = none

pub record Operation : Type 0 where
  pub target : InterfaceId
  pub kind : OperationKind
  pub depends_on : List ℕ
  pub address_group : Option AddressGroupPrecondition

pub record FieldChange : Type 0 where
  pub target : InterfaceId
  pub field : String
  pub old : Option Value
  pub desired : Option Value
  pub source : Source

pub record StateDiff : Type 0 where
  pub changes : List FieldChange
  pub operations : List Operation
  pub diagnostics : List Diagnostic
