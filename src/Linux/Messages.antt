-- ===== src/Linux/Messages.antt =====
-- The messages that crates/netfyr-backend/src/linux.rs exchanges with the kernel, with the fields
-- and attributes that it reads or writes. The library that the source takes them from defines more
-- of each; an attribute that the source passes over is one of the last constructor.
use netfyr.Base.{ℕ, String, Bool, true, false, List, []}
use netfyr.Value.{IpAddr}

pub data AddressFamily : Type 0 where
  unspec inet : AddressFamily
  other_family : ℕ → AddressFamily

abbrev pub is_unspec : AddressFamily → Bool
is_unspec unspec = true
is_unspec family = false

abbrev pub is_inet : AddressFamily → Bool
is_inet inet = true
is_inet family = false

pub record CacheInfo : Type 0 where
  pub ifa_preferred : ℕ
  pub ifa_valid : ℕ
  pub cstamp : ℕ
  pub tstamp : ℕ

pub data AddressAttribute : Type 0 where
  local_address peer_address : IpAddr → AddressAttribute
  label : String → AddressAttribute
  address_flags : ℕ → AddressAttribute
  cache : CacheInfo → AddressAttribute
  other_attribute : ℕ → AddressAttribute

pub record AddressHeader : Type 0 where
  pub family : AddressFamily
  pub prefix_len : ℕ
  pub flags : ℕ
  pub scope : ℕ
  pub index : ℕ

pub record AddressMessage : Type 0 where
  pub header : AddressHeader
  pub attributes : List AddressAttribute

-- `AddressMessage::default()`, whose scope is `Universe`, the number 0.
abbrev pub empty_address_message : AddressMessage
empty_address_message = record {
  header = record { family = unspec; prefix_len = 0; flags = 0; scope = 0; index = 0 };
  attributes = [];
}

-- The link-layer type of a link: Ethernet, loopback, another one.
pub data LayerType : Type 0 where
  ether loopback : LayerType
  other_layer : ℕ → LayerType

abbrev pub is_ether : LayerType → Bool
is_ether ether = true
is_ether layer = false

abbrev pub is_loopback : LayerType → Bool
is_loopback loopback = true
is_loopback layer = false

-- `InfoKind`: `Veth`, or another kind with its text.
pub data InfoKind : Type 0 where
  veth : InfoKind
  other_kind : String → InfoKind

pub data LinkInfo : Type 0 where
  info_kind : InfoKind → LinkInfo
  other_info : ℕ → LinkInfo

pub data LinkAttribute : Type 0 where
  if_name : String → LinkAttribute
  mac_address : List ℕ → LinkAttribute
  mtu : ℕ → LinkAttribute
  carrier : ℕ → LinkAttribute
  link_info : List LinkInfo → LinkAttribute
  other_link_attribute : ℕ → LinkAttribute

-- `flags.contains(LinkFlags::Up)` is `is_up`, and `change_mask` holds `Up` when `changes_up` is true.
pub record LinkHeader : Type 0 where
  pub family : AddressFamily
  pub layer_type : LayerType
  pub index : ℕ
  pub is_up : Bool
  pub changes_up : Bool

pub record LinkMessage : Type 0 where
  pub header : LinkHeader
  pub attributes : List LinkAttribute

-- `LinkMessage::default()`, whose link-layer type is `Netrom`, the number 0.
abbrev pub empty_link_message : LinkMessage
empty_link_message = record {
  header = record {
    family = unspec;
    layer_type = other_layer 0;
    index = 0;
    is_up = false;
    changes_up = false;
  };
  attributes = [];
}
