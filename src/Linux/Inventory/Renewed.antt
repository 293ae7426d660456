-- ===== src/Linux/Inventory/Renewed.antt =====
-- How an address that an inventory observed is replaced.
use netfyr.Base.{
  ℕ, ◌≡◌, refl, ap, subst, Bool, Option, none, some, [], ◌∷◌, ok, inl, inr, Bool-cases,
}
use netfyr.Base.Dict.{get}
use netfyr.Base.Equality.{◌==◌, nat_eq, pair_eq}
use netfyr.Device.{Match}
use netfyr.Plan.{
  Ipv4Address, AddressObservation, Observation, replace_ipv4, lifetimes, validate_address,
}
use netfyr.Linux.Messages.{AddressMessage}
use netfyr.Linux.Addresses.{parse_address, address_message, replacement_message}
use netfyr.Linux.Addresses.Written.{
  renewed, cache_of, written, parse_address-replacement_message, parse_address-address_message,
}
use netfyr.Linux.Exchange.{Library}
use netfyr.Linux.Transport.{new_address, AddressKey, Connection, observed_message, write_message}
use netfyr.Linux.Inventory.{System, inventory}
use netfyr.Linux.Inventory.Distinct.{Messages, ReadsAs, IsIndexed}
use netfyr.Linux.Inventory.Tracked.{inventory-IsSound}

-- The message is for this interface, and reads as this address, with its lifetimes filled in.
pub record IsReplacement (index : ℕ) (a : Ipv4Address) (message : AddressMessage) : Type 0 where
  pub observation : AddressObservation
  pub parsed : parse_address message ≡ ok observation
  pub at_index : message.header.index ≡ index
  pub address :
      observation.address
      ≡ record a { valid_lft = some (lifetimes a).0; preferred_lft = some (lifetimes a).1 }

get-ReadsAs :
    (key : AddressKey) (messages : Messages) (message : AddressMessage)
    → IsIndexed messages
    → get key messages ≡ some message
    → ReadsAs (key, message)
get-ReadsAs key [] message i h = cc
get-ReadsAs key ((j, m) ∷ rest) message i h = elim (Bool-cases (j == key)) [
  | inl same ↦
      let e : j ≡ key = (pair_eq.same_iff j key).0 same in
      let found : some m ≡ some message = rw same at h in
      let q : m ≡ message = cc in subst ReadsAs (λ k. (e k, q k)) i.0
  | inr other ↦ get-ReadsAs key rest message i.1 (rw other at h)
]

built-IsReplacement :
    (messages : Messages) (index : ℕ) (a : Ipv4Address)
    → IsIndexed messages
    → validate_address a ≡ ok tt
    → IsReplacement index a (replacement_message (observed_message messages index a) index a)
unfolding replacement_message address_message
built-IsReplacement messages index a i valid = go (observed_message messages index a) refl
  where
    go :
        (o : Option AddressMessage)
        → observed_message messages index a ≡ o
        → IsReplacement index a (replacement_message o index a)
    go none e = record {
      observation = written a;
      parsed = parse_address-address_message index a valid;
      at_index = refl;
      address = refl;
    }
    go (some message) e =
        let (o, parsed, keyed) = get-ReadsAs (index, (a.ip, a.prefix_len)) messages message i e in
        record {
          observation = renewed o (cache_of a);
          parsed = parse_address-replacement_message message o index a parsed valid;
          at_index = ap (λ (k : AddressKey). k.0) keyed;
          address = λ k. record a {
            ip = (keyed k).1.0;
            prefix_len = (keyed k).1.1;
            valid_lft = some (lifetimes a).0;
            preferred_lft = some (lifetimes a).1;
          };
        }

-- After an inventory that succeeds, the write that replaces a valid address of the plan is built of a message for
-- the same interface that reads as this address and its lifetimes, whether or not the address was
-- observed: the kept message that it is made from is never one of another address.
pub inventory-IsReplacement :
    {W : Type 0} (library : Library) (system : System W) (enrich : Match → Bool) (c : Connection W)
    (o : Observation) (d : Connection W) (index : ℕ) (a : Ipv4Address)
    → inventory library system enrich c ≡ (ok o, d)
    → validate_address a ≡ ok tt
    → (message : AddressMessage) × (flags : ℕ) × (write_message d.transport.address_messages index
          (replace_ipv4 a)
        ≡ ok (new_address message, flags))
      × IsReplacement index a message
unfolding write_message
inventory-IsReplacement library system enrich c o d index a h valid = (
  replacement_message (observed_message d.transport.address_messages index a) index a,
  256,
  refl,
  built-IsReplacement d.transport.address_messages index a
      (inventory-IsSound library system enrich c o d h).indexed valid,
)
