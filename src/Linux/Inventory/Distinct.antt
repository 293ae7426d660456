-- ===== src/Linux/Inventory/Distinct.antt =====
-- What the loop over the dumped addresses keeps: no device has two addresses of one identity, and
-- the table of messages is indexed by what they read as.
use netfyr.Base.{
  ℕ, String, suc, ◌+◌, ◌≡◌, refl, sym, ap, ◌∙◌, subst, arith, Bool, true, false, ◌++◌, Option, none,
  some, List, [], ◌∷◌, All, All-append, All-map, set, is_some, find_from, Result, ok, err, binds,
  bind-ok, Bool-cases, inl, inr,
}
use netfyr.Base.Dict.{Dict, get, insert, contains_key, get-insert_self, get-insert_ne}
use netfyr.Base.Equality.{◌==◌, nat_eq, string_eq, pair_eq, ne_of_same}
use netfyr.Plan.{AddressObservation, DeviceObservation, same_identity}
use netfyr.Executor.Locate.{ethernet}
use netfyr.Linux.{RoutePacket}
use netfyr.Linux.Messages.{AddressMessage, is_inet}
use netfyr.Linux.Addresses.{parse_address}
use netfyr.Linux.Transport.{AddressKey}
use netfyr.Linux.Inventory.Assign.{
  Assigned, new_address_number, key_of, incomplete, push_address, add_address, parsed_with,
  assign_to, has_index, assign_message, assign, assign_all,
}

abbrev pub Messages : Type 0
Messages = Dict AddressKey AddressMessage

-- A message reads as an address of its key.
abbrev pub ReadsAs : AddressKey × AddressMessage → Type 0
ReadsAs (key, message) =
    (o : AddressObservation) × (parse_address message ≡ ok o)
    × (key_of message.header.index o ≡ key)

-- Each message is under the key of what it reads as.
abbrev pub IsIndexed : Messages → Type 0
IsIndexed messages = All ReadsAs messages

abbrev pub IsDistinct : List AddressObservation → Type 0
IsDistinct [] = Unit
IsDistinct (o ∷ os) = All (λ p. same_identity o.address p.address ≡ false) os × IsDistinct os

abbrev Listed : Messages → ℕ → AddressObservation → Type 0
Listed messages index o = contains_key (key_of index o) messages ≡ true

abbrev pub Sound : Messages → DeviceObservation → Type 0
Sound messages d = IsDistinct d.addresses × All (Listed messages d.identity.index) d.addresses

pub record Inv (a : Assigned) : Type 0 where
  pub sound : All (Sound a.messages) a.devices
  pub indexed : IsIndexed a.messages

insert-IsIndexed :
    (key : AddressKey) (message : AddressMessage) (messages : Messages)
    → ReadsAs (key, message)
    → IsIndexed messages
    → IsIndexed (insert key message messages)
insert-IsIndexed key message [] r i = (r, tt)
insert-IsIndexed key message ((j, old) ∷ rest) r i = elim (Bool-cases (j == key)) [
  | inl same ↦
      let e : j ≡ key = (pair_eq.same_iff j key).0 same in
      rw same (subst (λ k. ReadsAs (k, message)) (sym e) r, i.1)
  | inr other ↦ rw other (i.0, insert-IsIndexed key message rest r i.1)
]

contains_key-insert :
    (k key : AddressKey) (message : AddressMessage) (messages : Messages)
    → contains_key k messages ≡ true
    → contains_key k (insert key message messages) ≡ true
contains_key-insert k key message messages h = elim (Bool-cases (key == k)) [
  | inl same ↦
      let e : key ≡ k = (pair_eq.same_iff key k).0 same in
      subst (λ j. contains_key j (insert key message messages) ≡ true) e
        (ap is_some (get-insert_self key message messages))
  | inr other ↦ ap is_some (get-insert_ne key k message messages (ne_of_same key k other)) ∙ h
]

Sound-insert :
    (key : AddressKey) (message : AddressMessage) (messages : Messages) (d : DeviceObservation)
    → Sound messages d
    → Sound (insert key message messages) d
Sound-insert key message messages d (distinct, listed) = (
  distinct,
  All-map (λ o. contains_key-insert (key_of d.identity.index o) key message messages) d.addresses
      listed,
)

-- A found element has the property, and so has the list with another such element in its place.
pub data Replaces (P : DeviceObservation → Type 0) (p : DeviceObservation → Bool)
    (ds : List DeviceObservation) (n i : ℕ) (d : DeviceObservation) : Type 0 where
  replaces :
      (k : ℕ)
      → i ≡ n + k
      → p d ≡ true
      → P d
      → ((e : DeviceObservation) → P e → All P (set ds k e))
      → Replaces P p ds n i d

pub found-Replaces :
    (P : DeviceObservation → Type 0) (p : DeviceObservation → Bool) (n : ℕ)
    (ds : List DeviceObservation) (i : ℕ) (d : DeviceObservation)
    → All P ds
    → find_from n p ds ≡ some (i, d)
    → Replaces P p ds n i d
found-Replaces P p n [] i d all h = cc
found-Replaces P p n (x ∷ ds) i d all h = elim (Bool-cases (p x)) [
  | inl yes_x ↦
      let e : ◌≡◌ {A = Option (ℕ × DeviceObservation)} (some (n, x)) (some (i, d)) =
        rw yes_x at h in
      let same : x ≡ d = cc in
      let place : n ≡ i = cc in
      replaces 0 (omega arith) (subst (λ y. p y ≡ true) same yes_x) (subst P same all.0)
        (λ (y : DeviceObservation) q. (q, all.1))
  | inr no_x ↦ elim (found-Replaces P p (suc n) ds i d all.1 (rw no_x at h)) [
    | replaces k place holds q go ↦
        replaces (suc k) (omega (arith, place)) holds q λ (y : DeviceObservation) r. (all.0, go y r)
  ]
]

absent_Listed :
    (messages : Messages) (index : ℕ) (o : AddressObservation) (os : List AddressObservation)
    → is_some (get (key_of index o) messages) ≡ false
    → All (Listed messages index) os
    → All (λ p. same_identity p.address o.address ≡ false) os
unfolding same_identity
absent_Listed messages index o [] absent listed = tt
absent_Listed messages index o (p ∷ os) absent listed = (
  elim (Bool-cases (same_identity p.address o.address)) [
    | inr other ↦ other
    | inl same ↦
        let (ips, prefixes) : (p.address.ip ≡ o.address.ip)
            × (p.address.prefix_len ≡ o.address.prefix_len) =
          ground arith in
        let key : key_of index p ≡ key_of index o = λ i. (index, (ips i, prefixes i)) in
        let no : true ≡ false = sym listed.0 ∙ ap (λ k. is_some (get k messages)) key ∙ absent in cc
  ],
  absent_Listed messages index o os absent listed.1,
)

append-IsDistinct :
    (os : List AddressObservation) (o : AddressObservation)
    → IsDistinct os
    → All (λ p. same_identity p.address o.address ≡ false) os
    → IsDistinct (os ++ o ∷ [])
append-IsDistinct [] o d a = (tt, tt)
append-IsDistinct (p ∷ os) o d a =
    (All-append _ os (o ∷ []) d.0 (a.0, tt), append-IsDistinct os o d.1 a.1)

add_address-Inv :
    (message : AddressMessage) (i : ℕ) (d : DeviceObservation) (o : AddressObservation)
    (a : Assigned)
    → Inv a
    → parse_address message ≡ ok o
    → find_from 0 (has_index message.header.index) a.devices ≡ some (i, d)
    → Inv (add_address message i d o a)
add_address-Inv message i d o a inv parsed found =
    elim (found-Replaces (Sound a.messages) (has_index message.header.index) 0 a.devices i d
      inv.sound found) [
        | replaces k place holds q go ↦
            let key = key_of message.header.index o in
            let index : d.identity.index ≡ message.header.index =
              (nat_eq.same_iff d.identity.index message.header.index).0 holds in
            let table = insert-IsIndexed key message a.messages (o, parsed, refl) inv.indexed in
            let more = Sound-insert key message a.messages in
            elim (found-Replaces (Sound (insert key message a.messages))
              (has_index message.header.index) 0 a.devices i d (All-map more a.devices inv.sound)
              found) [
                | replaces j same _ r put ↦
                    let e : j ≡ i = omega (arith, same) in
                    elim (Bool-cases (is_some (get key a.messages))) [
                      | inl taken ↦ rw taken (record {
                        sound =
                            subst
                              (λ n.
                                All (Sound (insert key message a.messages))
                                  (set a.devices n (incomplete d)))
                              e (put (incomplete d) r);
                        indexed = table;
                      })
                      | inr absent ↦ rw absent (record {
                        sound =
                            subst
                              (λ n.
                                All (Sound (insert key message a.messages))
                                  (set a.devices n (push_address o d)))
                              e
                              (put (push_address o d) (
                                append-IsDistinct d.addresses o q.0 (
                                    absent_Listed a.messages message.header.index o d.addresses
                                      absent
                                      (subst (λ n. All (Listed a.messages n) d.addresses) index
                                        q.1)),
                                All-append _ d.addresses (o ∷ []) r.1 (
                                  subst (λ n. Listed (insert key message a.messages) n o)
                                      (sym index)
                                      (ap is_some (get-insert_self key message a.messages)),
                                  tt,
                                ),
                              ));
                        indexed = table;
                      })
                    ]
              ]
      ]

assign-Inv : (packet : RoutePacket) (a b : Assigned) → Inv a → assign packet a ≡ ok b → Inv b
unfolding assign
assign-Inv packet a b inv h = elim (Bool-cases (packet.kind == new_address_number)) [
  | inr other ↦ let no : err _ ≡ ok b = rw other at h in cc
  | inl yes_new ↦ message_Inv packet.address (rw yes_new at h)
]
  where
    parsed_Inv :
        (message : AddressMessage) (i : ℕ) (d : DeviceObservation)
        → find_from 0 (has_index message.header.index) a.devices ≡ some (i, d)
        → (r : Result AddressObservation String) → parse_address message ≡ r
        → parsed_with message i d a r ≡ ok b
        → Inv b
    parsed_Inv message i d found (err text) p g = cc
    parsed_Inv message i d found (ok o) p g =
        let same : add_address message i d o a ≡ b = cc in
        subst Inv same (add_address-Inv message i d o a inv p found)

    found_Inv :
        (message : AddressMessage) (o : Option (ℕ × DeviceObservation))
        → find_from 0 (has_index message.header.index) a.devices ≡ o
        → assign_to message a o ≡ ok b
        → Inv b
    found_Inv message none found g = cc
    found_Inv message (some (i, d)) found g =
        elim (Bool-cases (d.identity.device_type == ethernet)) [
          | inr other ↦
              let e : ok a ≡ ok b = rw other at g in let same : a ≡ b = cc in subst Inv same inv
          | inl yes_ethernet ↦
              parsed_Inv message i d found (parse_address message) refl (rw yes_ethernet at g)
        ]

    message_Inv : (r : Result AddressMessage String) → assign_message a r ≡ ok b → Inv b
    message_Inv (err text) g = cc
    message_Inv (ok message) g = elim (Bool-cases (is_inet message.header.family)) [
      | inr other ↦
          let e : ok a ≡ ok b = rw other at g in let same : a ≡ b = cc in subst Inv same inv
      | inl yes_inet ↦
          found_Inv message (find_from 0 (has_index message.header.index) a.devices) refl
            (rw yes_inet at g)
    ]

pub assign_all-Inv :
    (packets : List RoutePacket) (a b : Assigned) → Inv a → assign_all packets a ≡ ok b → Inv b
unfolding assign_all
assign_all-Inv [] a b inv h = let same : a ≡ b = cc in subst Inv same inv
assign_all-Inv (p ∷ ps) a b inv h =
    elim (bind-ok (assign p a) (λ (c : Assigned). assign_all ps c) b h) [
      | binds c first rest ↦ assign_all-Inv ps c b (assign-Inv p a c inv first) rest
    ]
