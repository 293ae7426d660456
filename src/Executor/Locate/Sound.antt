-- ===== src/Executor/Locate/Sound.antt =====
-- What `locate` finds.
use text.Mathlib.TextEquality.{eq_iff}
use netfyr.Base.{
  ℕ, suc, zero, ◌+◌, Bool, true, Option, some, List, [], ◌∷◌, ◌≡◌, sym, ap, ◌∙◌, subst, arith,
  find_from, get_elem?, Bool-cases, inl, inr, unwrap_or, Result, ok, err, Option-cases,
}
use netfyr.Base.Equality.{◌==◌, nat_eq, string_eq}
use netfyr.Plan.{NamespaceId, InterfaceId, DeviceObservation, Observation}
use netfyr.Plan.Identity.{namespace_eq, interface_eq, same_namespace_iff, same_interface_iff}
use netfyr.Report.{BackendError}
use netfyr.Executor.Locate.{ethernet, confirm, locate}

-- `find_from` gives an element with its position.
pub find_from-get_elem? :
    {A : Type 0} (n : ℕ) (p : A → Bool) (xs : List A) (i : ℕ) (a : A)
    → find_from n p xs ≡ some (i, a)
    → (k : ℕ) × (i ≡ n + k) × (get_elem? xs k ≡ some a) × (p a ≡ true)
find_from-get_elem? {A = A} n p [] i a h = cc
find_from-get_elem? {A = A} n p (x ∷ xs) i a h = elim (Bool-cases (p x)) [
  | inl holds ↦
      let e : some (n, x) ≡ some (i, a) = rw holds at h in
      let index : n ≡ i = ap (λ (o : Option (ℕ × A)). (unwrap_or o (n, x)).0) e in
      let element : x ≡ a = ap (λ (o : Option (ℕ × A)). (unwrap_or o (n, x)).1) e in
      (zero, omega arith, ap some element, ap p (sym element) ∙ holds)
  | inr misses ↦
      let e : find_from (suc n) p xs ≡ some (i, a) = rw misses at h in
      let (k, at, got, holds) = find_from-get_elem? (suc n) p xs i a e in
      (suc k, omega arith, got, holds)
]

abbrev value_or :
    ℕ × DeviceObservation → Result (ℕ × DeviceObservation) BackendError → ℕ × DeviceObservation
value_or d (ok a) = a
value_or d (err e) = d

-- What `confirm` accepts.
confirm-ok :
    (t : InterfaceId) (i : ℕ) (d : DeviceObservation) (j : ℕ) (e : DeviceObservation)
    → confirm t (i, d) ≡ ok (j, e)
    → (i ≡ j) × (d ≡ e) × (d.identity ≡ t) × (t.device_type ≡ ethernet)
unfolding confirm
confirm-ok t i d j e h = elim (Bool-cases (d.identity == t)) [
  | inr differs ↦ let no : err _ ≡ ok (j, e) = rw differs at h in cc
  | inl exact ↦
      let g = rw exact at h in
      elim (Bool-cases (d.identity.device_type == ethernet)) [
        | inr other ↦ let no : err _ ≡ ok (j, e) = rw other at g in cc
        | inl managed ↦
            let same : ok (i, d) ≡ ok (j, e) = rw managed at g in
            let identity = (same_interface_iff d.identity t).0 exact in
            (
              ap (λ r. (value_or (i, d) r).0) same,
              ap (λ r. (value_or (i, d) r).1) same,
              identity,
              ap (λ k. k.device_type) (sym identity)
                  ∙ (eq_iff d.identity.device_type ethernet).0 managed,
            )
      ]
]

-- A found device stands in the observation at the position that is returned, and it is the very
-- interface that the operation targets, an Ethernet device of the backend's namespace.
pub locate_sound :
    (o : Observation) (t : InterfaceId) (ns : NamespaceId) (i : ℕ) (d : DeviceObservation)
    → locate o t ns ≡ ok (i, d)
    → (get_elem? o.devices i ≡ some d)
      × (d.identity ≡ t)
      × (t.device_type ≡ ethernet)
      × (t.namespace ≡ ns)
unfolding locate
locate_sound o t ns i d h = elim (Bool-cases (t.namespace == ns)) [
  | inr foreign ↦ let no : err _ ≡ ok (i, d) = rw foreign at h in cc
  | inl home ↦
      let g = rw home at h in
      elim (Option-cases (find_from 0 (λ d. d.identity.index == t.index) o.devices)) [
        | inl missing ↦ let no : err _ ≡ ok (i, d) = rw missing at g in cc
        | inr (found, got) ↦
            let (j, e) = found in
            let checked : confirm t (j, e) ≡ ok (i, d) = rw got at g in
            let (same_i, same_d, exact, managed) = confirm-ok t j e i d checked in
            let (k, at, listed, holds) = find_from-get_elem? 0 _ o.devices j e got in
            (
              subst (λ n. get_elem? o.devices n ≡ some d) (omega arith) (listed ∙ ap some same_d),
              sym (ap (λ x. x.identity) same_d) ∙ exact,
              managed,
              (same_namespace_iff t.namespace ns).0 home,
            )
      ]
]
