-- ===== src/Base/Order.antt =====
-- `Ord` of the source, as an interface: a Boolean test that is a strict total order; the order of
-- lists by their first difference; and a stable sort.
use Prim.Native.Nat.{ℕ}
use mathlib.Core.Path.{◌≡◌, ◌∙◌, refl, sym, ap}
use mathlib.Core.Logic.{◌≢◌, ◌⊎◌, inl, inr}
use mathlib.Core.Bool.{Bool, true, false}
use mathlib.Core.List.{List, [], ◌∷◌}
use native.Mathlib.Omega.{arith}
use netfyr.Base.Tests.{ltb, Bool-cases, if◌then◌else◌}

pub record Order (A : Type 0) : Type 0 where
  pub less : A → A → Bool
  pub asym : (a b : A) → less a b ≡ true → less b a ≡ false
  pub total : (a b : A) → less a b ≡ false → less b a ≡ false → a ≡ b
  pub cotrans : (a b c : A) → less a b ≡ true → (less a c ≡ true) ⊎ (less c b ≡ true)

pub ltb-asym : (a b : ℕ) → ltb a b ≡ true → ltb b a ≡ false
ltb-asym a b h = ground arith

pub ltb-total : (a b : ℕ) → ltb a b ≡ false → ltb b a ≡ false → a ≡ b
ltb-total a b h g = ground arith

pub ltb-cotrans : (a b c : ℕ) → ltb a b ≡ true → (ltb a c ≡ true) ⊎ (ltb c b ≡ true)
ltb-cotrans a b c h = elim (Bool-cases (ltb a c)) [
  | inl low ↦ inl low
  | inr high ↦ inr (ground arith)
]

abbrev pub nat_order : Order ℕ
nat_order = record { less = ltb; asym = ltb-asym; total = ltb-total; cotrans = ltb-cotrans }

module _ {A : Type 0} (o : Order A) where
  pub not_less : (a b c : A) → o.less a c ≡ false → o.less c b ≡ false → o.less a b ≡ false
  not_less a b c h g = elim (Bool-cases (o.less a b)) [
    | inr high ↦ high
    | inl low ↦ elim (o.cotrans a b c low) [ inl p ↦ cc | inr q ↦ cc ]
  ]

  abbrev pub lex : List A → List A → Bool
  lex xs [] = false
  lex [] (y ∷ ys) = true
  lex (x ∷ xs) (y ∷ ys) =
      let rest = lex xs ys in if o.less x y then true else if o.less y x then false else rest

  pub lex-asym : (xs ys : List A) → lex xs ys ≡ true → lex ys xs ≡ false
  lex-asym xs [] h = cc
  lex-asym [] (y ∷ ys) h = refl
  lex-asym (x ∷ xs) (y ∷ ys) h = elim (Bool-cases (o.less x y)) [
    | inl low ↦ rw (o.asym x y low, low) refl
    | inr high ↦ elim (Bool-cases (o.less y x)) [
      | inl more ↦ let no : false ≡ true = rw (high, more) at h in cc
      | inr same ↦ rw (high, same) (lex-asym xs ys (rw (high, same) at h))
    ]
  ]

  pub lex-total : (xs ys : List A) → lex xs ys ≡ false → lex ys xs ≡ false → xs ≡ ys
  lex-total [] [] h g = refl
  lex-total (x ∷ xs) [] h g = cc
  lex-total [] (y ∷ ys) h g = cc
  lex-total (x ∷ xs) (y ∷ ys) h g = elim (Bool-cases (o.less x y)) [
    | inl low ↦ let no : true ≡ false = rw low at h in cc
    | inr high ↦ elim (Bool-cases (o.less y x)) [
      | inl more ↦ let no : true ≡ false = rw more at g in cc
      | inr same ↦
          let rest = lex-total xs ys (rw (high, same) at h) (rw (high, same) at g) in
          let first = o.total x y high same in λ i. first i ∷ rest i
    ]
  ]

  pub lex-cotrans : (xs ys zs : List A) → lex xs ys ≡ true → (lex xs zs ≡ true) ⊎ (lex zs ys ≡ true)
  lex-cotrans xs [] zs h = cc
  lex-cotrans [] (y ∷ ys) [] h = inr refl
  lex-cotrans (x ∷ xs) (y ∷ ys) [] h = inr refl
  lex-cotrans [] (y ∷ ys) (z ∷ zs) h = inl refl
  lex-cotrans (x ∷ xs) (y ∷ ys) (z ∷ zs) h = elim (Bool-cases (o.less x z)) [
    | inl low ↦ inl (rw low refl)
    | inr high ↦ elim (Bool-cases (o.less z y)) [
      | inl more ↦ inr (rw more refl)
      | inr least ↦
          let up = not_less x y z high least in
          elim (Bool-cases (o.less y x)) [
            | inl more ↦ let no : false ≡ true = rw (up, more) at h in cc
            | inr down ↦
                let zx = not_less z x y least down in
                let yz = not_less y z x down high in
                elim (lex-cotrans xs ys zs (rw (up, down) at h)) [
                  | inl p ↦ inl (rw (high, zx) p)
                  | inr q ↦ inr (rw (least, yz) q)
                ]
          ]
    ]
  ]

abbrev pub list_order : {A : Type 0} → Order A → Order (List A)
list_order o = record {
  less = lex o;
  asym = lex-asym o;
  total = lex-total o;
  cotrans = lex-cotrans o;
}

-- `sort_by` with `cmp` of the keys: stable, here by insertion.
module _ {A K : Type 0} (o : Order K) (key : A → K) where
  abbrev pub insert_by : A → List A → List A
  insert_by x [] = x ∷ []
  insert_by x (y ∷ ys) = if o.less (key y) (key x) then y ∷ insert_by x ys else x ∷ y ∷ ys

  unfoldable pub sort_by : List A → List A
  sort_by [] = []
  sort_by (x ∷ xs) = insert_by x (sort_by xs)

  -- Lists that exchanges of elements with different keys make equal.
  pub data Reorder : List A → List A → Type 0 where
    same : {xs : List A} → Reorder xs xs
    swap : {x y : A} {xs : List A} → key x ≢ key y → Reorder (x ∷ y ∷ xs) (y ∷ x ∷ xs)
    keep : {x : A} {xs ys : List A} → Reorder xs ys → Reorder (x ∷ xs) (x ∷ ys)
    chain : {xs ys zs : List A} → Reorder xs ys → Reorder ys zs → Reorder xs zs

  insert_by_comm :
      (x y : A) (zs : List A)
      → o.less (key x) (key y) ≡ true
      → insert_by x (insert_by y zs) ≡ insert_by y (insert_by x zs)
  insert_by_comm x y [] low = rw (o.asym (key x) (key y) low, low) refl
  insert_by_comm x y (z ∷ zs) low = elim (Bool-cases (o.less (key z) (key y))) [
    | inr above ↦
        let down = o.asym (key x) (key y) low in
        let over = not_less o (key z) (key x) (key y) above down in
        rw (above, over, down, low, above) refl
    | inl below ↦ elim (Bool-cases (o.less (key z) (key x))) [
      | inl under ↦ rw (below, under, below) (ap (λ l. z ∷ l) (insert_by_comm x y zs low))
      | inr over ↦ rw (below, over, low, below) refl
    ]
  ]

  insert_by-swap :
      (x y : A) (zs : List A)
      → key x ≢ key y
      → insert_by x (insert_by y zs) ≡ insert_by y (insert_by x zs)
  insert_by-swap x y zs apart = elim (Bool-cases (o.less (key x) (key y))) [
    | inl low ↦ insert_by_comm x y zs low
    | inr high ↦ elim (Bool-cases (o.less (key y) (key x))) [
      | inl low ↦ sym (insert_by_comm y x zs low)
      | inr also_high ↦ absurd (apart (o.total (key x) (key y) high also_high))
    ]
  ]

  -- Sorting forgets the order of elements with different keys.
  pub sort_by-Reorder : {xs ys : List A} → Reorder xs ys → sort_by xs ≡ sort_by ys
  unfolding sort_by
  sort_by-Reorder same = refl
  sort_by-Reorder (swap {x = x} {y = y} {xs = xs} apart) = insert_by-swap x y (sort_by xs) apart
  sort_by-Reorder (keep {x = x} r) = ap (insert_by x) (sort_by-Reorder r)
  sort_by-Reorder (chain r q) = sort_by-Reorder r ∙ sort_by-Reorder q
