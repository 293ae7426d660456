-- ===== src/Policy/Names.antt =====
-- The names of a policy set are distinct.
use netfyr.Base.{
  ◌≡◌, refl, sym, ap, ◌∙◌, subst, arith, String, true, false, ◌||◌, List, [], ◌∷◌, ◌++◌, map, All,
  All-append, Bool-cases, inl, inr, ok, err,
}
use netfyr.Base.Equality.{◌==◌, string_eq, contains}
use netfyr.Base.Text.{is_empty_text}
use netfyr.Policy.{Policy, PolicySet, contains_name, insert}

abbrev pub name_of : Policy → String
name_of p = p.name

-- No text stands twice in the list.
abbrev pub AreDistinct : List String → Type 0
AreDistinct [] = Unit
AreDistinct (x ∷ xs) = (contains xs x ≡ false) × AreDistinct xs

contains-append :
    (xs : List String) (y x : String)
    → contains xs x ≡ false
    → (y == x) ≡ false
    → contains (xs ++ y ∷ []) x ≡ false
contains-append [] y x h e = ground (arith, h, e)
contains-append (z ∷ xs) y x h e = ground (arith, h, e, contains-append xs y x)

differs_sym : (x y : String) → (x == y) ≡ false → (y == x) ≡ false
differs_sym x y h = elim (Bool-cases (y == x)) [
  | inr e ↦ e
  | inl e ↦
      let same : (x == y) ≡ true =
        (string_eq.same_iff x y).1 (sym ((string_eq.same_iff y x).0 e)) in
      cc
]

pub append-AreDistinct :
    (xs : List String) (y : String)
    → AreDistinct xs
    → contains xs y ≡ false
    → AreDistinct (xs ++ y ∷ [])
append-AreDistinct [] y d h = (refl, tt)
append-AreDistinct (x ∷ xs) y (apart, d) h = (
  contains-append xs y x apart (differs_sym x y (head_differs h)),
  append-AreDistinct xs y d (rest_free h),
)
  where
    head_differs : contains (x ∷ xs) y ≡ false → (x == y) ≡ false
    head_differs e = ground (arith, e)

    rest_free : contains (x ∷ xs) y ≡ false → contains xs y ≡ false
    rest_free e = ground (arith, e)

-- A set that insertions built.
pub data IsBuilt : PolicySet → Type 0 where
  new : IsBuilt []
  inserted : {ps ps' : PolicySet} (p : Policy) → IsBuilt ps → insert ps p ≡ ok ps' → IsBuilt ps'

contains-map : (ps : PolicySet) (n : String) → contains (map name_of ps) n ≡ contains_name ps n
contains-map [] n = refl
contains-map (p ∷ ps) n = ap (λ b. p.name == n || b) (contains-map ps n)

pub map-append_one :
    (ps : PolicySet) (p : Policy) → map name_of (ps ++ p ∷ []) ≡ map name_of ps ++ p.name ∷ []
map-append_one [] p = refl
map-append_one (q ∷ ps) p = ap (λ l. q.name ∷ l) (map-append_one ps p)

abbrev pub IsNamed : Policy → Type 0
IsNamed p = is_empty_text p.name ≡ false

insert_keeps :
    (ps ps' : PolicySet) (p : Policy)
    → insert ps p ≡ ok ps'
    → AreDistinct (map name_of ps) × All IsNamed ps
    → AreDistinct (map name_of ps') × All IsNamed ps'
unfolding insert
insert_keeps ps ps' p h (distinct, named) = elim (Bool-cases (is_empty_text p.name)) [
  | inl empty ↦ let no : err _ ≡ ok ps' = rw empty at h in cc
  | inr given ↦
      let g = rw given at h in
      elim (Bool-cases (contains_name ps p.name)) [
        | inl taken ↦ let no : err _ ≡ ok ps' = rw taken at g in cc
        | inr free ↦
            let done : ok (ps ++ p ∷ []) ≡ ok ps' = rw free at g in
            let same : ps ++ p ∷ [] ≡ ps' = cc in
            subst (λ qs. AreDistinct (map name_of qs) × All IsNamed qs) same
              (
                subst AreDistinct (sym (map-append_one ps p)) (
                    append-AreDistinct (map name_of ps) p.name distinct
                      (contains-map ps p.name ∙ free)),
                All-append IsNamed ps (p ∷ []) named (given, tt),
              )
      ]
]

-- In a policy set that insertions built from the empty one, no two policies have the same name, and
-- no name is empty.
pub insert-AreDistinct :
    (ps : PolicySet) → IsBuilt ps → AreDistinct (map name_of ps) × All IsNamed ps
insert-AreDistinct _ new = (tt, tt)
insert-AreDistinct _ (inserted {ps} {ps'} p b e) = insert_keeps ps ps' p e (insert-AreDistinct ps b)
