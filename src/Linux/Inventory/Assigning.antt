-- ===== src/Linux/Inventory/Assigning.antt =====
-- What the loop over the dumped addresses does not change.
use netfyr.Base.{
  ℕ, ◌≡◌, refl, subst, arith, String, Option, none, some, List, [], ◌∷◌, All, set, is_some,
  find_from, Result, ok, err, binds, bind-ok, Bool-cases, inl, inr,
}
use netfyr.Base.Dict.{get}
use netfyr.Base.Equality.{◌==◌, nat_eq, string_eq, pair_eq}
use netfyr.Plan.{AddressObservation, DeviceObservation}
use netfyr.Executor.Locate.{ethernet}
use netfyr.Linux.{RoutePacket}
use netfyr.Linux.Messages.{AddressMessage, is_inet}
use netfyr.Linux.Addresses.{parse_address}
use netfyr.Linux.Inventory.Assign.{
  Assigned, new_address_number, key_of, incomplete, push_address, add_address, parsed_with,
  assign_to, has_index, assign_message, assign, assign_all,
}
use netfyr.Linux.Inventory.Distinct.{replaces, found-Replaces}

-- A property of devices that neither a further address nor an incomplete list changes.
module _ (Q : DeviceObservation → Type 0)
    (pushes : (o : AddressObservation) (d : DeviceObservation) → Q d → Q (push_address o d))
    (refuses : (d : DeviceObservation) → Q d → Q (incomplete d)) where
  abbrev Kept : Assigned → Type 0
  Kept a = All Q a.devices

  add_address-Kept :
      (message : AddressMessage) (i : ℕ) (d : DeviceObservation) (o : AddressObservation)
      (a : Assigned)
      → Kept a
      → find_from 0 (has_index message.header.index) a.devices ≡ some (i, d)
      → Kept (add_address message i d o a)
  add_address-Kept message i d o a h found =
      elim (found-Replaces Q (has_index message.header.index) 0 a.devices i d h found) [
        | replaces k place holds q put ↦
            let e : k ≡ i = omega (arith, place) in
            let at_place = λ (x : DeviceObservation) (r : Q x).
              subst (λ j. All Q (set a.devices j x)) e (put x r) in
            elim (Bool-cases (is_some (get (key_of message.header.index o) a.messages))) [
              | inl taken ↦ rw taken (at_place (incomplete d) (refuses d q))
              | inr absent ↦ rw absent (at_place (push_address o d) (pushes o d q))
            ]
      ]

  parsed_with-Kept :
      (message : AddressMessage) (i : ℕ) (d : DeviceObservation) (a b : Assigned)
      (r : Result AddressObservation String)
      → Kept a
      → find_from 0 (has_index message.header.index) a.devices ≡ some (i, d)
      → parsed_with message i d a r ≡ ok b
      → Kept b
  parsed_with-Kept message i d a b (err text) h found g = cc
  parsed_with-Kept message i d a b (ok o) h found g =
      let same : add_address message i d o a ≡ b = cc in
      subst Kept same (add_address-Kept message i d o a h found)

  assign_to-Kept :
      (message : AddressMessage) (a b : Assigned) (o : Option (ℕ × DeviceObservation))
      → Kept a
      → find_from 0 (has_index message.header.index) a.devices ≡ o
      → assign_to message a o ≡ ok b
      → Kept b
  assign_to-Kept message a b none h found g = cc
  assign_to-Kept message a b (some (i, d)) h found g =
      elim (Bool-cases (d.identity.device_type == ethernet)) [
        | inr other ↦
            let e : ok a ≡ ok b = rw other at g in let same : a ≡ b = cc in subst Kept same h
        | inl yes_ethernet ↦
            parsed_with-Kept message i d a b (parse_address message) h found (rw yes_ethernet at g)
      ]

  assign_message-Kept :
      (a b : Assigned) (r : Result AddressMessage String)
      → Kept a
      → assign_message a r ≡ ok b
      → Kept b
  assign_message-Kept a b (err text) h g = cc
  assign_message-Kept a b (ok message) h g = elim (Bool-cases (is_inet message.header.family)) [
    | inr other ↦ let e : ok a ≡ ok b = rw other at g in let same : a ≡ b = cc in subst Kept same h
    | inl yes_inet ↦
        assign_to-Kept message a b (find_from 0 (has_index message.header.index) a.devices) h refl
          (rw yes_inet at g)
  ]

  assign-Kept : (packet : RoutePacket) (a b : Assigned) → Kept a → assign packet a ≡ ok b → Kept b
  unfolding assign
  assign-Kept packet a b h g = elim (Bool-cases (packet.kind == new_address_number)) [
    | inr other ↦ let no : err _ ≡ ok b = rw other at g in cc
    | inl yes_new ↦ assign_message-Kept a b packet.address h (rw yes_new at g)
  ]

  pub assign_all-Kept :
      (packets : List RoutePacket) (a b : Assigned) → Kept a → assign_all packets a ≡ ok b → Kept b
  unfolding assign_all
  assign_all-Kept [] a b h g = let same : a ≡ b = cc in subst Kept same h
  assign_all-Kept (p ∷ ps) a b h g =
      elim (bind-ok (assign p a) (λ (c : Assigned). assign_all ps c) b g) [
        | binds c first rest ↦ assign_all-Kept ps c b (assign-Kept p a c h first) rest
      ]
