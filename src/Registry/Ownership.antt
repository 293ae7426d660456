-- ===== src/Registry/Ownership.antt =====
-- Registered backends: no two own a device type in one namespace.
use netfyr.Base.{
  ℕ, suc, zero, ◌≡◌, inl, inr, refl, sym, ap, ◌∙◌, subst, arith, String, true, false, some, List,
  [], ◌∷◌, ◌++◌, any, All, All-append, any-eq_false→All, get_elem?, Bool-cases, ok, err,
}
use netfyr.Base.Equality.{◌==◌, string_eq, contains}
use netfyr.Plan.Identity.{namespace_eq, same_namespace_iff}
use netfyr.Plan.{NamespaceId}
use netfyr.Registry.{Backend, Backends, conflicts, register}

-- The backends share no device type of a namespace.
abbrev pub Apart : Backend → Backend → Type 0
Apart a b = conflicts a b ≡ false

-- Each backend is apart from all that were registered before it.
abbrev pub IsExclusive : Backends → Type 0
IsExclusive [] = Unit
IsExclusive (b ∷ bs) = All (Apart b) bs × IsExclusive bs

append-IsExclusive :
    (bs : Backends) (b : Backend)
    → IsExclusive bs
    → All (λ a. Apart a b) bs
    → IsExclusive (bs ++ b ∷ [])
append-IsExclusive [] b h k = (tt, tt)
append-IsExclusive (a ∷ bs) b (apart, rest) (now, later) =
    (All-append (Apart a) bs (b ∷ []) apart (now, tt), append-IsExclusive bs b rest later)

-- The registries that a sequence of successful registrations builds.
pub data IsRegistered : Backends → Type 0 where
  new : IsRegistered []
  registered :
      {bs bs' : Backends} (b : Backend)
      → IsRegistered bs
      → register bs b ≡ ok bs'
      → IsRegistered bs'

register_step :
    (bs bs' : Backends) (b : Backend) → register bs b ≡ ok bs' → IsExclusive bs → IsExclusive bs'
unfolding register
register_step bs bs' b e h = elim (Bool-cases (any (λ r. conflicts r b) bs)) [
  | inl clash ↦ let no : err _ ≡ ok bs' = rw clash at e in cc
  | inr free ↦
      let same : ok (bs ++ b ∷ []) ≡ ok bs' = rw free at e in
      subst IsExclusive (cc)
        (append-IsExclusive bs b h (any-eq_false→All (λ r. conflicts r b) (λ a k. k) bs free))
]

pub IsRegistered-IsExclusive : {bs : Backends} → IsRegistered bs → IsExclusive bs
IsRegistered-IsExclusive new = tt
IsRegistered-IsExclusive (registered {bs} {bs'} b r e) =
    register_step bs bs' b e (IsRegistered-IsExclusive r)

-- A common device type is a conflict.
any-contains :
    (xs ys : List String) (t : String)
    → contains xs t ≡ true
    → contains ys t ≡ true
    → any (λ e. contains ys e) xs ≡ true
any-contains [] ys t h k = cc
any-contains (x ∷ xs) ys t h k = elim (Bool-cases (x == t)) [
  | inl same ↦ let e : x ≡ t = (string_eq.same_iff x t).0 same in rw (ap (contains ys) e ∙ k) refl
  | inr other ↦ ground (arith, any-contains xs ys t, h, k, other)
]

-- The backend owns the type in the namespace.
abbrev pub OwnsIn : NamespaceId → String → Backend → Type 0
OwnsIn ns t b = (b.namespace ≡ ns) × (contains b.supported_entities t ≡ true)

owners_conflict :
    (ns : NamespaceId) (t : String) (a b : Backend)
    → OwnsIn ns t a
    → OwnsIn ns t b
    → conflicts a b ≡ true
unfolding conflicts
owners_conflict ns t a b (na, oa) (nb, ob) =
    let same = (same_namespace_iff a.namespace b.namespace).1 (na ∙ sym nb) in
    let common = any-contains a.supported_entities b.supported_entities t oa ob in
    ground (arith, same, common)

All-get_elem? :
    {A : Type 0} (P : A → Type 0) (xs : List A) (i : ℕ) (a : A)
    → All P xs
    → get_elem? xs i ≡ some a
    → P a
All-get_elem? P [] i a h e = cc
All-get_elem? P (x ∷ xs) zero a h e = subst P (cc) h.0
All-get_elem? P (x ∷ xs) (suc i) a h e = All-get_elem? P xs i a h.1 e

exclusive_owner :
    (ns : NamespaceId) (t : String) (bs : Backends) (i j : ℕ) (a b : Backend)
    → IsExclusive bs
    → get_elem? bs i ≡ some a
    → get_elem? bs j ≡ some b
    → OwnsIn ns t a
    → OwnsIn ns t b
    → i ≡ j
exclusive_owner ns t [] i j a b h e f o p = cc
exclusive_owner ns t (c ∷ bs) zero zero a b h e f o p = refl
exclusive_owner ns t (c ∷ bs) zero (suc j) a b h e f o p =
    let apart = All-get_elem? (Apart c) bs j b h.0 f in
    let first : c ≡ a = cc in
    let clash = owners_conflict ns t c b (subst (OwnsIn ns t) (sym first) o) p in
    ground (arith, apart, clash)
exclusive_owner ns t (c ∷ bs) (suc i) zero a b h e f o p =
    let apart = All-get_elem? (Apart c) bs i a h.0 e in
    let first : c ≡ b = cc in
    let clash = owners_conflict ns t c a (subst (OwnsIn ns t) (sym first) p) o in
    ground (arith, apart, clash)
exclusive_owner ns t (c ∷ bs) (suc i) (suc j) a b h e f o p =
    ap suc (exclusive_owner ns t bs i j a b h.1 e f o p)

-- In a registry that registrations built from the empty one, a device type of a namespace has one
-- owner: two backends that both list the type and belong to the namespace stand at one position.
pub register-one_owner :
    (bs : Backends) (ns : NamespaceId) (t : String) (i j : ℕ) (a b : Backend)
    → IsRegistered bs
    → get_elem? bs i ≡ some a
    → get_elem? bs j ≡ some b
    → OwnsIn ns t a
    → OwnsIn ns t b
    → i ≡ j
register-one_owner bs ns t i j a b r e f o p =
    exclusive_owner ns t bs i j a b (IsRegistered-IsExclusive r) e f o p
