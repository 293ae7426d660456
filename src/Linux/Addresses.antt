-- ===== src/Linux/Addresses.antt =====
-- crates/netfyr-backend/src/linux.rs: how an address message is read as an observation, and how the
-- messages of the address writes are built.
pub mod Written
use netfyr.Base.{
  ℕ, String, Bool, true, false, not, ◌||◌, ◌++◌, Option, none, some, List, [], ◌∷◌, ltb, or_else,
  keep, if◌then◌else◌, Result, ok, err, ◌>>=◌, ok_or,
}
use netfyr.Base.Equality.{◌==◌, nat_eq}
use netfyr.Value.{IpAddr, v4, v6, Value, u64, ip_network, object, Entries, end, entry}
use netfyr.Value.Map.{insert}
use netfyr.Plan.{Ipv4Address, AddressObservation, lifetimes}
use netfyr.Linux.Messages.{
  inet, is_inet, CacheInfo, AddressAttribute, local_address, peer_address, label, address_flags,
  cache, other_attribute, AddressHeader, AddressMessage, empty_address_message,
}

-- What the loop of `parse_address` has found.
pub record Parts : Type 0 where
  pub local_ip : Option ℕ
  pub address_ip : Option ℕ
  pub flags : ℕ
  pub cache_info : Option CacheInfo

unfoldable pub take_attribute : AddressAttribute → Parts → Result Parts String
take_attribute (local_address (v4 ip)) p = ok (record p { local_ip = some ip })
take_attribute (local_address (v6 ip)) p = err "IPv6 attribute in IPv4 address record"
take_attribute (peer_address (v4 ip)) p = ok (record p { address_ip = some ip })
take_attribute (peer_address (v6 ip)) p = err "IPv6 attribute in IPv4 address record"
take_attribute (address_flags value) p = ok (record p { flags = value })
take_attribute (cache value) p = ok (record p { cache_info = some value })
take_attribute (label text) p = ok p
take_attribute (other_attribute kind) p = ok p

unfoldable pub take_attributes : List AddressAttribute → Parts → Result Parts String
take_attributes [] p = ok p
take_attributes (a ∷ attributes) p = take_attribute a p >>= λ q. take_attributes attributes q

-- `address.filter(|address| *address != ip)`
unfoldable pub peer_of : Option ℕ → ℕ → Option ℕ
peer_of none ip = none
peer_of (some address) ip = if not (address == ip) then some address else none

abbrev pub observed_address : AddressHeader → Parts → ℕ → CacheInfo → AddressObservation
observed_address header p ip cache_info = record {
  address = record {
    ip = ip;
    prefix_len = header.prefix_len;
    valid_lft = some cache_info.ifa_valid;
    preferred_lft = some cache_info.ifa_preferred;
  };
  flags = p.flags;
  scope = header.scope;
  peer = peer_of p.address_ip ip;
}

unfoldable pub with_lifetimes :
    AddressHeader → Parts → ℕ → CacheInfo → Result AddressObservation String
with_lifetimes header p ip cache_info =
    if ltb cache_info.ifa_valid cache_info.ifa_preferred
    then err "preferred lifetime exceeds valid lifetime"
    else ok (observed_address header p ip cache_info)

unfoldable pub assemble : AddressHeader → Parts → Result AddressObservation String
assemble header p =
    ok_or (or_else p.local_ip p.address_ip) "address record has no assigned local address" >>= λ ip.
    ok_or p.cache_info "address record has no lifetime observation" >>= λ cache_info.
    with_lifetimes header p ip cache_info

abbrev pub no_parts : ℕ → Parts
no_parts flags = record { local_ip = none; address_ip = none; flags = flags; cache_info = none }

unfoldable pub parse_address : AddressMessage → Result AddressObservation String
parse_address message =
    if not (is_inet message.header.family) || ltb 32 message.header.prefix_len
    then err "invalid IPv4 family or prefix length"
    else (take_attributes message.attributes (no_parts message.header.flags) >>= λ p.
        assemble message.header p)

unfoldable pub cache_info : Ipv4Address → AddressAttribute
unfolding lifetimes
cache_info address =
    let (valid, preferred) = lifetimes address in
    cache (record { ifa_preferred = preferred; ifa_valid = valid; cstamp = 0; tstamp = 0 })

unfoldable pub address_message : ℕ → Ipv4Address → Bool → AddressMessage
address_message index address include_lifetimes = record {
  header = record empty_address_message.header {
    index = index;
    family = inet;
    prefix_len = address.prefix_len;
  };
  attributes =
      local_address (v4 address.ip)
      ∷ peer_address (v4 address.ip)
      ∷ (if include_lifetimes then cache_info address ∷ [] else []);
}

abbrev pub is_not_cache : AddressAttribute → Bool
is_not_cache (cache info) = false
is_not_cache a = true

unfoldable pub replacement_message : Option AddressMessage → ℕ → Ipv4Address → AddressMessage
replacement_message none index address = address_message index address true
replacement_message (some observed) index address = record observed {
  attributes = keep is_not_cache observed.attributes ++ cache_info address ∷ [];
}

abbrev pub is_identifying : AddressAttribute → Bool
is_identifying (local_address ip) = true
is_identifying (peer_address ip) = true
is_identifying (label text) = true
is_identifying a = false

abbrev pub only_identifying : AddressMessage → AddressMessage
only_identifying message = record message { attributes = keep is_identifying message.attributes }

unfoldable pub removal_message : Option AddressMessage → ℕ → Ipv4Address → AddressMessage
removal_message none index address = only_identifying (address_message index address false)
removal_message (some observed) index address = only_identifying observed

abbrev with_lifetime : String → Option ℕ → Entries → Entries
with_lifetime key none fields = fields
with_lifetime key (some lifetime) fields = insert key (u64 lifetime) fields

unfoldable pub address_value : AddressObservation → Value
address_value observation =
    let address = observation.address in
    object (
      with_lifetime "preferred_lft" address.preferred_lft (
        with_lifetime "valid_lft" address.valid_lft
          (entry "ip" (ip_network (v4 address.ip) address.prefix_len) end)))
