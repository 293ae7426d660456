-- ===== src/Registry/Merge.antt =====
-- What a query over several backends returns.
use netfyr.Base.{
  ℕ, suc, zero, ◌≡◌, ◌≢◌, ◌⊎◌, inl, inr, refl, sym, ap, ◌∙◌, subst, arith, Bool, true, false,
  Option, none, some, List, [], ◌∷◌, ◌++◌, length, get_elem?, set, Bool-cases, eqb, eqb_iff, ok,
}
use netfyr.Base.Dict.{get, insert, get-insert_self, get-insert_ne}
use netfyr.Base.Equality.{Eq, ne_of_same, pair_eq, nat_eq}
use netfyr.Plan.Identity.{namespace_eq}
use netfyr.Device.{Match}
use netfyr.Plan.{DeviceObservation, Observation}
use netfyr.Registry.{Backend, Backends, owns, Key, key_of, Merging, push_device, place}

module _ {A : Type 0} where
  get_elem?-append_last :
      (xs : List A) (a : A) (i : ℕ) (e : A)
      → get_elem? (xs ++ a ∷ []) i ≡ some e
      → (get_elem? xs i ≡ some e) ⊎ ((i ≡ length xs) × (a ≡ e))
  get_elem?-append_last [] a zero e h = inr (refl, cc)
  get_elem?-append_last [] a (suc i) e h = cc
  get_elem?-append_last (x ∷ xs) a zero e h = inl h
  get_elem?-append_last (x ∷ xs) a (suc i) e h = elim (get_elem?-append_last xs a i e h) [
    | inl old ↦ inl old
    | inr (n, same) ↦ inr (ap suc n, same)
  ]

  get_elem?-append_old :
      (xs ys : List A) (i : ℕ) (e : A) → get_elem? xs i ≡ some e → get_elem? (xs ++ ys) i ≡ some e
  get_elem?-append_old [] ys i e h = cc
  get_elem?-append_old (x ∷ xs) ys zero e h = h
  get_elem?-append_old (x ∷ xs) ys (suc i) e h = get_elem?-append_old xs ys i e h

  get_elem?-append_new : (xs : List A) (a : A) → get_elem? (xs ++ a ∷ []) (length xs) ≡ some a
  get_elem?-append_new [] a = refl
  get_elem?-append_new (x ∷ xs) a = get_elem?-append_new xs a

  get_elem?-set_self :
      (xs : List A) (i : ℕ) (a e : A) → get_elem? xs i ≡ some e → get_elem? (set xs i a) i ≡ some a
  get_elem?-set_self [] i a e h = cc
  get_elem?-set_self (x ∷ xs) zero a e h = refl
  get_elem?-set_self (x ∷ xs) (suc i) a e h = get_elem?-set_self xs i a e h

  get_elem?-set_ne :
      (xs : List A) (i j : ℕ) (a : A) → i ≢ j → get_elem? (set xs i a) j ≡ get_elem? xs j
  get_elem?-set_ne [] i j a h = refl
  get_elem?-set_ne (x ∷ xs) zero zero a h = absurd (h refl)
  get_elem?-set_ne (x ∷ xs) zero (suc j) a h = refl
  get_elem?-set_ne (x ∷ xs) (suc i) zero a h = refl
  get_elem?-set_ne (x ∷ xs) (suc i) (suc j) a h = get_elem?-set_ne xs i j a (λ e. h (ap suc e))

  pub some_injective : {a b : A} → some a ≡ some b → a ≡ b
  some_injective h = cc

abbrev pub key_eq : Eq Key
key_eq = pair_eq

-- The backend answers the query with this view of a device, among others.
abbrev pub Answered : Match → Backend → DeviceObservation → Type 0
Answered selector b d =
    (answer : Observation) × (n : ℕ) × (b.query selector ≡ ok answer)
    × (get_elem? answer.devices n ≡ some d)

-- A backend of the registry and of the device's namespace owns the device, and it answers the
-- query with this very view of the device.
pub record Owned (bs : Backends) (selector : Match) (d : DeviceObservation) : Type 0 where
  pub position : ℕ
  pub owner : Backend
  pub listed : get_elem? bs position ≡ some owner
  pub owning : owns owner d ≡ true
  pub home : d.identity.namespace ≡ owner.namespace
  pub answered : Answered selector owner d

module _ (bs : Backends) (selector : Match) where
  -- A device stands under its key at the position that `seen` gives.
  pub record Stands (m : Merging) (k : Key) (i : ℕ) (o : Bool) : Type 0 where
    pub device : DeviceObservation
    pub at : get_elem? m.devices i ≡ some device
    pub keyed : key_of device ≡ k
    pub view : o ≡ true → Owned bs selector device

  -- `seen` tells of each device where it stands, and whether it is its owner's view.
  pub record Tracks (m : Merging) : Type 0 where
    pub placed :
        (i : ℕ) (d : DeviceObservation)
        → get_elem? m.devices i ≡ some d
        → (o : Bool) × (get (key_of d) m.seen ≡ some (i, o))
    pub stands : (k : Key) (i : ℕ) (o : Bool) → get k m.seen ≡ some (i, o) → Stands m k i o

  module _ (m : Merging) (t : Tracks m) (d : DeviceObservation) (owned : Bool)
      (view : owned ≡ true → Owned bs selector d) where
    -- What `insert` changes, for a key that is or is not the device's.
    pub lookup_cases :
        (k : Key) (v : ℕ × Bool) (p : ℕ × Bool)
        → get k (insert (key_of d) v m.seen) ≡ some p
        → ((key_of d ≡ k) × (v ≡ p)) ⊎ ((key_of d ≢ k) × (get k m.seen ≡ some p))
    lookup_cases k v p h = elim (Bool-cases (key_eq.same (key_of d) k)) [
      | inl yes_k ↦
          let same : key_of d ≡ k = (key_eq.same_iff (key_of d) k).0 yes_k in
          let found : get k (insert (key_of d) v m.seen) ≡ some v =
            subst (λ j. get j (insert (key_of d) v m.seen) ≡ some v) same
              (get-insert_self (key_of d) v m.seen) in
          inl (same, some_injective (sym found ∙ h))
      | inr no_k ↦
          let other : key_of d ≢ k = λ e. ne_of_same (key_of d) k no_k e in
          inr (other, sym (get-insert_ne (key_of d) k v m.seen other) ∙ h)
    ]

    push-Stands :
        (k : Key) (i : ℕ) (o : Bool)
        → get k (push_device d owned m).seen ≡ some (i, o)
        → Stands (push_device d owned m) k i o
    push-Stands k i o h = elim (lookup_cases k (length m.devices, owned) (i, o) h) [
      | inl (same, v) ↦ record {
        device = d;
        at =
            subst (λ n. get_elem? (m.devices ++ d ∷ []) n ≡ some d) (ap (λ p. p.0) v)
              (get_elem?-append_new m.devices d);
        keyed = same;
        view = λ e. view (ap (λ p. p.1) v ∙ e);
      }
      | inr (other, found) ↦
          let s = t.stands k i o found in
          record {
            device = s.device;
            at = get_elem?-append_old m.devices (d ∷ []) i s.device s.at;
            keyed = s.keyed;
            view = s.view;
          }
    ]

    push-Tracks : get (key_of d) m.seen ≡ none → Tracks (push_device d owned m)
    push-Tracks fresh = record {
      placed = λ i e h. elim (get_elem?-append_last m.devices d i e h) [
        | inl old ↦
            let (o, found) = t.placed i e old in
            let other : ¬ (key_of d ≡ key_of e) = λ q. cc in
            (o, get-insert_ne (key_of d) (key_of e) _ m.seen other ∙ found)
        | inr (n, same) ↦ (owned, last_placed i e n same)
      ];
      stands = push-Stands;
    }
      where
        last_placed :
            (i : ℕ) (e : DeviceObservation)
            → i ≡ length m.devices
            → d ≡ e
            → get (key_of e) (push_device d owned m).seen ≡ some (i, owned)
        last_placed i e n same =
            subst (λ x. get (key_of x) (push_device d owned m).seen ≡ some (i, owned)) same
              (get-insert_self (key_of d) (length m.devices, owned) m.seen
                ∙ ap (λ j. some (j, owned)) (sym n))

    -- A view that is not its owner's gives way.
    abbrev replaced : ℕ → Merging
    replaced i = record m { devices = set m.devices i d; seen = insert (key_of d) (i, true) m.seen }

    replaced-Tracks :
        (i : ℕ) → owned ≡ true → get (key_of d) m.seen ≡ some (i, false) → Tracks (replaced i)
    replaced-Tracks i own found = record {
      placed = λ j e h. elim (Bool-cases (eqb i j)) [
        | inl yes_j ↦
            let index : i ≡ j = (eqb_iff i j).0 yes_j in
            let set_here = get_elem?-set_self m.devices i d s.device s.at in
            let same : d ≡ e =
              some_injective (sym set_here ∙ ap (get_elem? (set m.devices i d)) index ∙ h) in
            (
              true,
              subst (λ x. get (key_of x) (replaced i).seen ≡ some (j, true)) same
                  (get-insert_self (key_of d) (i, true) m.seen ∙ ap (λ n. some (n, true)) index),
            )
        | inr no_j ↦
            let apart : i ≢ j = λ q. ground (arith, no_j, q) in
            let (o, there) = t.placed j e (sym (get_elem?-set_ne m.devices i j d apart) ∙ h) in
            let other : ¬ (key_of d ≡ key_of e) = λ q.
              apart
                (ap (λ p. p.0) (some_injective (sym found ∙ ap (λ k. get k m.seen) q ∙ there))) in
            (o, get-insert_ne (key_of d) (key_of e) _ m.seen other ∙ there)
      ];
      stands = λ k j o h. elim (lookup_cases k (i, true) (j, o) h) [
        | inl (same, v) ↦ record {
          device = d;
          at =
              subst (λ n. get_elem? (set m.devices i d) n ≡ some d) (ap (λ p. p.0) v)
                (get_elem?-set_self m.devices i d s.device s.at);
          keyed = same;
          view = λ e. view own;
        }
        | inr (other, there) ↦
            let u = t.stands k j o there in
            let apart : i ≢ j = λ q. other (
              sym s.keyed
              ∙ ap key_of (some_injective (sym s.at ∙ ap (get_elem? m.devices) q ∙ u.at))
              ∙ u.keyed) in
            record {
              device = u.device;
              at = get_elem?-set_ne m.devices i j d apart ∙ u.at;
              keyed = u.keyed;
              view = u.view;
            }
      ];
    }
      where
        s : Stands m (key_of d) i false
        s = t.stands (key_of d) i false found

    pub place-Tracks :
        (f : Option (ℕ × Bool)) → get (key_of d) m.seen ≡ f → Tracks (place f d owned m)
    unfolding place
    place-Tracks none h = push-Tracks h
    place-Tracks (some (i, true)) h = t
    place-Tracks (some (i, false)) h = elim (Bool-cases owned) [
      | inl own ↦ rw own (replaced-Tracks i own h)
      | inr foreign ↦ rw foreign t
    ]
