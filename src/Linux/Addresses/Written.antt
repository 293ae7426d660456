-- ===== src/Linux/Addresses/Written.antt =====
-- The address messages that the transport writes, read back.
use netfyr.Base.{
  ℕ, ◌≤◌, ◌≡◌, refl, arith, Bool, true, false, ◌++◌, Option, none, some, List, [], ◌∷◌, ltb, keep,
  ok, err, ◌>>=◌, binds, bind-ok, Bool-cases, inl, inr, not, ◌||◌, ok_or, or_else,
}
use netfyr.Value.{v4, v6}
use netfyr.Plan.{Ipv4Address, AddressObservation, lifetimes, validate_address}
use netfyr.Plan.Address.{validate_address_iff}
use netfyr.Base.Equality.{same_refl, nat_eq}
use netfyr.Linux.Messages.{
  is_inet, CacheInfo, AddressAttribute, local_address, peer_address, label, address_flags, cache,
  other_attribute, AddressHeader, AddressMessage,
}
use netfyr.Linux.Addresses.{
  Parts, take_attribute, take_attributes, peer_of, observed_address, with_lifetimes, assemble,
  no_parts, parse_address, cache_info, address_message, is_not_cache, replacement_message,
}

abbrev pub set_cache : Option CacheInfo → Parts → Parts
set_cache c p = record p { cache_info = c }

-- The new lifetimes take the place of the old ones, wherever these stand.
take_attributes-keep :
    (attributes : List AddressAttribute) (info : CacheInfo) (c : Option CacheInfo) (p q : Parts)
    → take_attributes attributes p ≡ ok q
    → take_attributes (keep is_not_cache attributes ++ cache info ∷ []) (set_cache c p)
      ≡ ok (set_cache (some info) q)
unfolding take_attributes take_attribute
take_attributes-keep [] info c p q h = cc
take_attributes-keep (local_address (v4 ip) ∷ rest) info c p q h =
    take_attributes-keep rest info c (record p { local_ip = some ip }) q h
take_attributes-keep (local_address (v6 ip) ∷ rest) info c p q h = cc
take_attributes-keep (peer_address (v4 ip) ∷ rest) info c p q h =
    take_attributes-keep rest info c (record p { address_ip = some ip }) q h
take_attributes-keep (peer_address (v6 ip) ∷ rest) info c p q h = cc
take_attributes-keep (address_flags value ∷ rest) info c p q h =
    take_attributes-keep rest info c (record p { flags = value }) q h
take_attributes-keep (cache value ∷ rest) info c p q h =
    take_attributes-keep rest info c (record p { cache_info = some value }) q h
take_attributes-keep (label text ∷ rest) info c p q h = take_attributes-keep rest info c p q h
take_attributes-keep (other_attribute kind ∷ rest) info c p q h =
    take_attributes-keep rest info c p q h

abbrev not_inet : AddressHeader → Bool
not_inet header = not (is_inet header.family) || ltb 32 header.prefix_len

-- The parts that an address message is read into, and what they give.
data Reads (m : AddressMessage) (o : AddressObservation) : Type 0 where
  reads :
      (p : Parts)
      → not_inet m.header ≡ false
      → take_attributes m.attributes (no_parts m.header.flags) ≡ ok p
      → assemble m.header p ≡ ok o
      → Reads m o

parse_address-Reads :
    (m : AddressMessage) (o : AddressObservation) → parse_address m ≡ ok o → Reads m o
unfolding parse_address
parse_address-Reads m o h = elim (Bool-cases (not_inet m.header)) [
  | inl bad ↦ let no : err _ ≡ ok o = rw bad at h in cc
  | inr good ↦
      let read : (take_attributes m.attributes (no_parts m.header.flags) >>= λ (p : Parts).
      assemble m.header p)
          ≡ ok o =
        rw good at h in
      elim (bind-ok (take_attributes m.attributes (no_parts m.header.flags))
        (λ (p : Parts). assemble m.header p) o read) [
          | binds p taken rest ↦ reads p good taken rest
        ]
]

Reads-parse_address :
    (m : AddressMessage) (o : AddressObservation) → Reads m o → parse_address m ≡ ok o
unfolding parse_address
Reads-parse_address m o (reads p good taken rest) = rw (good, taken) rest

abbrev pub renewed : AddressObservation → CacheInfo → AddressObservation
renewed o info = record o {
  address = record o.address {
    valid_lft = some info.ifa_valid;
    preferred_lft = some info.ifa_preferred;
  };
}

-- With other lifetimes the same parts give the same observation with these.
assemble-set_cache :
    (header : AddressHeader) (p : Parts) (o : AddressObservation) (info : CacheInfo)
    → ltb info.ifa_valid info.ifa_preferred ≡ false
    → assemble header p ≡ ok o
    → assemble header (set_cache (some info) p) ≡ ok (renewed o info)
unfolding assemble with_lifetimes
assemble-set_cache header p o info ordered h =
    elim (bind-ok
      (ok_or (or_else p.local_ip p.address_ip) "address record has no assigned local address")
      (λ (ip : ℕ).
        ok_or p.cache_info "address record has no lifetime observation" >>= λ (info : CacheInfo).
        with_lifetimes header p ip info)
      o h) [
        | binds ip found rest ↦
            elim (bind-ok (ok_or p.cache_info "address record has no lifetime observation")
              (λ (info : CacheInfo). with_lifetimes header p ip info) o rest) [
                | binds old _ last ↦ elim (Bool-cases (ltb old.ifa_valid old.ifa_preferred)) [
                  | inl bad ↦ let no : err _ ≡ ok o = rw bad at last in cc
                  | inr good ↦
                      let same : ok (observed_address header p ip old) ≡ ok o = rw good at last in
                      let e : observed_address header p ip old ≡ o = cc in
                      rw (found, ordered, ← e) refl
                ]
              ]
      ]

abbrev pub cache_of : Ipv4Address → CacheInfo
cache_of a = record {
  ifa_preferred = (lifetimes a).1;
  ifa_valid = (lifetimes a).0;
  cstamp = 0;
  tstamp = 0;
}

ordered_lifetimes :
    (a : Ipv4Address) → validate_address a ≡ ok tt → ltb (lifetimes a).0 (lifetimes a).1 ≡ false
ordered_lifetimes a h =
    let (_, _, ordered) = (validate_address_iff a).0 h in
    let most : (lifetimes a).1 ≤ (lifetimes a).0 = ordered in ground arith

-- The message that replaces an observed address by a valid one reads back as the observation with
-- the new lifetimes: the address, its prefix, flags, scope and peer are those observed.
pub parse_address-replacement_message :
    (message : AddressMessage) (o : AddressObservation) (index : ℕ) (a : Ipv4Address)
    → parse_address message ≡ ok o
    → validate_address a ≡ ok tt
    → parse_address (replacement_message (some message) index a) ≡ ok (renewed o (cache_of a))
unfolding replacement_message cache_info
parse_address-replacement_message m o index a h valid = elim (parse_address-Reads m o h) [
  | reads p good taken rest ↦
      Reads-parse_address (replacement_message (some m) index a) (renewed o (cache_of a)) (
        reads (set_cache (some (cache_of a)) p) good
          (take_attributes-keep m.attributes (cache_of a) none (no_parts m.header.flags) p taken)
          (assemble-set_cache m.header p o (cache_of a) (ordered_lifetimes a valid) rest))
]

-- What an address that is written anew is observed as.
abbrev pub written : Ipv4Address → AddressObservation
written a = record {
  address = record a { valid_lft = some (lifetimes a).0; preferred_lft = some (lifetimes a).1 };
  flags = 0;
  scope = 0;
  peer = none;
}

peer_of-same : (ip : ℕ) → peer_of (some ip) ip ≡ none
unfolding peer_of
peer_of-same ip = ground (arith, same_refl ip)

prefix_bound : (a : Ipv4Address) → validate_address a ≡ ok tt → ltb 32 a.prefix_len ≡ false
prefix_bound a h = let (bound, _, _) = (validate_address_iff a).0 h in ground arith

-- The message that adds a valid address reads back as that address, with its lifetimes filled in
-- and without flags or a peer.
pub parse_address-address_message :
    (index : ℕ) (a : Ipv4Address)
    → validate_address a ≡ ok tt
    → parse_address (address_message index a true) ≡ ok (written a)
unfolding parse_address address_message take_attributes take_attribute assemble with_lifetimes
    cache_info
parse_address-address_message index a valid =
    rw (prefix_bound a valid, ordered_lifetimes a valid, peer_of-same a.ip) refl
