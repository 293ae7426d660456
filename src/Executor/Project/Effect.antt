-- ===== src/Executor/Project/Effect.antt =====
-- A projected write has the effect that `satisfied` asks for.
use netfyr.Base.{
  ℕ, ◌<◌, Option, eqb_refl, Bool, true, false, not, none, some, List, [], ◌∷◌, ◌++◌, ◌≡◌, ◌≢◌, refl,
  ap, arith, any, find, keep, Bool-cases, inl, inr, Option-cases, ok, err,
}
use netfyr.Base.Equality.{option_eq, same_refl}
use netfyr.Value.{Value, u64}
use netfyr.Value.Equality.{value_eq}
use netfyr.Value.Map.{get-insert_self}
use netfyr.Plan.{
  Ipv4Address, lifetimes, AddressObservation, DeviceObservation, Operation, OperationKind, set_mtu,
  set_enabled, add_ipv4, remove_ipv4, replace_ipv4, set_field, add_entity, remove_entity,
  same_identity,
}
use netfyr.Plan.Identity.{same_identity_refl}
use netfyr.Executor.Satisfied.{
  satisfied, address_satisfied, find_address, lifetimes_equal, precondition_age,
}
use netfyr.Executor.Lifetime.{lifetime_matches, whole_seconds}
use netfyr.Executor.Project.{project, replace_first, added}

-- The kinds that `decode` gives.
abbrev pub is_write : OperationKind → Bool
is_write (set_field f v) = false
is_write add_entity = false
is_write remove_entity = false
is_write other = true

any-keep-not : {A : Type 0} (p : A → Bool) (xs : List A) → any p (keep (λ x. not (p x)) xs) ≡ false
any-keep-not p [] = refl
any-keep-not p (x ∷ xs) = ground (arith, any-keep-not p xs)

find-append_last :
    {A : Type 0} (p : A → Bool) (xs : List A) (a : A)
    → find p xs ≡ none
    → p a ≡ true
    → find p (xs ++ a ∷ []) ≡ some a
find-append_last p [] a h k = ground arith
find-append_last p (x ∷ xs) a h k = ground (arith, find-append_last p xs a)

-- The first address with the identity carries the new lifetimes after the replacement.
find-replace_first :
    (a : Ipv4Address) (xs : List AddressObservation) (e : AddressObservation)
    → find (λ e. same_identity e.address a) xs ≡ some e
    → (o : AddressObservation) × (find (λ e. same_identity e.address a) (replace_first a xs)
        ≡ some o)
      × (o.address ≡ a)
unfolding replace_first
find-replace_first a [] e h = cc
find-replace_first a (x ∷ xs) e h = elim (Bool-cases (same_identity x.address a)) [
  | inl same ↦ rw same (rw (same_identity_refl a) (_, refl, refl))
  | inr other ↦
      let (o, found, address) = find-replace_first a xs e (rw other at h) in
      rw other (rw other (o, found, address))
]

-- The time since the precondition, if there is one, is less than two seconds.
abbrev pub IsRecent : Option ℕ → Type 0
IsRecent none = Unit
IsRecent (some t) = t < 2000000000

lifetime_matches_refl : (s t : ℕ) → t < 2000000000 → lifetime_matches s s t ≡ true
unfolding lifetime_matches whole_seconds
lifetime_matches_refl s t h = ground arith

lifetimes_equal_refl :
    (age : Option ℕ) (a : Ipv4Address) → IsRecent age → lifetimes_equal age a a ≡ true
unfolding lifetimes_equal
lifetimes_equal_refl none a h = ground (arith, eqb_refl (lifetimes a).0, eqb_refl (lifetimes a).1)
lifetimes_equal_refl (some t) a h =
    rw (lifetime_matches_refl (lifetimes a).0 t h, lifetime_matches_refl (lifetimes a).1 t h) refl

-- The time since the precondition of the written address, for a write that lifetimes decide.
abbrev pub IsFresh : OperationKind → DeviceObservation → Operation → Type 0
IsFresh (add_ipv4 a) d op = IsRecent (precondition_age op.address_group a d.observed_at)
IsFresh (replace_ipv4 a) d op = IsRecent (precondition_age op.address_group a d.observed_at)
IsFresh other d op = Unit

module _ (op : Operation) where
  found_satisfied :
      (replaces : Bool) (a : Ipv4Address) (o : AddressObservation) (d : DeviceObservation)
      → o.address ≡ a
      → IsRecent (precondition_age op.address_group a d.observed_at)
      → address_satisfied replaces a (some o) d op ≡ ok true
  unfolding address_satisfied
  found_satisfied replaces a o d e recent =
      rw e (
        rw (lifetimes_equal_refl (precondition_age op.address_group a d.observed_at) a recent) refl)

  -- An addition finds no address with the identity, or fails.
  not_pending :
      (a : Ipv4Address) (e : AddressObservation) (d : DeviceObservation)
      → address_satisfied false a (some e) d op ≢ ok false
  unfolding address_satisfied
  not_pending a e d h =
      elim (Bool-cases
        (lifetimes_equal (precondition_age op.address_group a d.observed_at) a e.address)) [
          | inl equal ↦ let no : ok true ≡ ok false = rw equal at h in cc
          | inr differ ↦ let no : err _ ≡ ok false = rw differ at h in cc
        ]

  added_satisfied :
      (a : Ipv4Address) (d : DeviceObservation)
      → IsRecent (precondition_age op.address_group a d.observed_at)
      → satisfied (add_ipv4 a) d op ≡ ok false
      → satisfied (add_ipv4 a) (project d (add_ipv4 a)) op ≡ ok true
  unfolding satisfied project find_address added
  added_satisfied a d recent h = elim (Option-cases (find_address a d)) [
    | inl missing ↦
        rw
          (find-append_last (λ e. same_identity e.address a) d.addresses (added a d.addresses)
            missing (same_identity_refl a))
          (found_satisfied false a (added a d.addresses) (project d (add_ipv4 a)) refl recent)
    | inr (e, found) ↦ absurd (not_pending a e d (rw found at h))
  ]

  needs_address :
      (a : Ipv4Address) (d : DeviceObservation) → address_satisfied true a none d op ≢ ok false
  unfolding address_satisfied
  needs_address a d h = cc

  replaced_satisfied :
      (a : Ipv4Address) (d : DeviceObservation)
      → IsRecent (precondition_age op.address_group a d.observed_at)
      → satisfied (replace_ipv4 a) d op ≡ ok false
      → satisfied (replace_ipv4 a) (project d (replace_ipv4 a)) op ≡ ok true
  unfolding satisfied project find_address
  replaced_satisfied a d recent h = elim (Option-cases (find_address a d)) [
    | inl missing ↦ absurd (needs_address a d (rw missing at h))
    | inr (e, found) ↦
        let (o, there, address) = find-replace_first a d.addresses e found in
        rw there (found_satisfied true a o (project d (replace_ipv4 a)) address recent)
  ]

-- Of a write of the MTU, of the enabled flag or of an address: when the device is not as it wants,
-- then the device that its projection predicts is. For an added or replaced address that the
-- operation's group holds, the group was observed less than two seconds before the device.
pub project-satisfied :
    (kind : OperationKind) (d : DeviceObservation) (op : Operation)
    → is_write kind ≡ true
    → IsFresh kind d op
    → satisfied kind d op ≡ ok false
    → satisfied kind (project d kind) op ≡ ok true
unfolding satisfied project
project-satisfied (set_mtu m) d op w g h =
    rw (get-insert_self "mtu" (u64 m) d.state.fields) (ap ok (same_refl (some (u64 m))))
project-satisfied (set_enabled b) d op w g h =
    rw (get-insert_self "enabled" (Value.bool b) d.state.fields)
      (ap ok (same_refl (some (Value.bool b))))
project-satisfied (add_ipv4 a) d op w g h = added_satisfied op a d g h
project-satisfied (remove_ipv4 a) d op w g h =
    rw (any-keep-not (λ e. same_identity e.address a) d.addresses) refl
project-satisfied (replace_ipv4 a) d op w g h = replaced_satisfied op a d g h
project-satisfied (set_field f v) d op w g h = cc
project-satisfied add_entity d op w g h = cc
project-satisfied remove_entity d op w g h = cc
