-- ===== src/Base/Sort.antt =====
-- `sort_by_key` with a numeric key: a stable sort, here by insertion.
use Prim.Native.Nat.{ℕ, ◌<◌}
use mathlib.Core.Path.{◌≡◌, refl}
use mathlib.Core.Bool.{Bool, ◌||◌}
use mathlib.Core.List.{List, [], ◌∷◌, ◌++◌}
use native.Mathlib.Omega.{arith}
use netfyr.Base.Tests.{ltb, if◌then◌else◌}
use netfyr.Base.Lists.{All, any}

module _ {A : Type 0} (key : A → ℕ) where
  abbrev pub insert_by : A → List A → List A
  insert_by x [] = x ∷ []
  insert_by x (y ∷ ys) = if ltb (key y) (key x) then y ∷ insert_by x ys else x ∷ y ∷ ys

  unfoldable pub sort_by : List A → List A
  sort_by [] = []
  sort_by (x ∷ xs) = insert_by x (sort_by xs)

  -- All keys are below `n`.
  abbrev pub Below : ℕ → List A → Type 0
  Below n = All (λ y. key y < n)

  insert_by-Below :
      (n : ℕ) (x : A) (ys : List A) → key x < n → Below n ys → Below n (insert_by x ys)
  insert_by-Below n x [] h b = (h, tt)
  insert_by-Below n x (y ∷ ys) h b = ground (arith, insert_by-Below n x ys h b.1)

  pub sort_by-Below : (n : ℕ) (xs : List A) → Below n xs → Below n (sort_by xs)
  unfolding sort_by
  sort_by-Below n [] b = tt
  sort_by-Below n (x ∷ xs) b = insert_by-Below n x (sort_by xs) b.0 (sort_by-Below n xs b.1)

  insert_by_last : (x : A) (ys : List A) → Below (key x) ys → insert_by x ys ≡ ys ++ x ∷ []
  insert_by_last x [] b = refl
  insert_by_last x (y ∷ ys) b = ground (arith, insert_by_last x ys b.1)

  insert_by-snoc :
      (a x : A) (ys : List A)
      → key a < key x
      → insert_by a (ys ++ x ∷ []) ≡ insert_by a ys ++ x ∷ []
  insert_by-snoc a x [] h = ground arith
  insert_by-snoc a x (y ∷ ys) h = ground (arith, insert_by-snoc a x ys h)

  -- Wherever the element with the largest key stands, sorting puts it last.
  pub sort_by_largest :
      (xs : List A) (x : A) (ys : List A)
      → Below (key x) xs
      → Below (key x) ys
      → sort_by (xs ++ x ∷ ys) ≡ sort_by (xs ++ ys) ++ x ∷ []
  unfolding sort_by
  sort_by_largest [] x ys b c = insert_by_last x (sort_by ys) (sort_by-Below (key x) ys c)
  sort_by_largest (a ∷ xs) x ys b c =
      rw (sort_by_largest xs x ys b.1 c) (insert_by-snoc a x (sort_by (xs ++ ys)) b.0)

  any-insert_by : (p : A → Bool) (x : A) (ys : List A) → any p (insert_by x ys) ≡ (p x || any p ys)
  any-insert_by p x [] = refl
  any-insert_by p x (y ∷ ys) = ground (arith, any-insert_by p x ys)

  -- Sorting does not change what `any` finds.
  pub any-sort_by : (p : A → Bool) (xs : List A) → any p (sort_by xs) ≡ any p xs
  unfolding sort_by
  any-sort_by p [] = refl
  any-sort_by p (x ∷ xs) = rw (any-insert_by p x (sort_by xs), any-sort_by p xs)
