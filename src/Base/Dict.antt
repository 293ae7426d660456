-- ===== src/Base/Dict.antt =====
-- `HashMap` and `HashSet` lookups over a key type with equality, as association lists: `insert`
-- replaces the value of a key that is present, and adds an absent key at the end.
use mathlib.Core.Path.{◌≡◌}
use mathlib.Core.Bool.{Bool}
use mathlib.Core.Option.{Option, none, some}
use mathlib.Core.List.{List, [], ◌∷◌}
use native.Mathlib.Omega.{arith}
use netfyr.Base.Tests.{if◌then◌else◌, is_some}
use netfyr.Base.Equality.{Eq, same_refl, same_of_ne}

abbrev pub Dict : Type 0 → Type 0 → Type 0
Dict K V = List (K × V)

module _ {K V : Type 0} ⦃e : Eq K⦄ where
  abbrev pub get : K → Dict K V → Option V
  get k [] = none
  get k ((j, v) ∷ d) = if e.same j k then some v else get k d

  abbrev pub contains_key : K → Dict K V → Bool
  contains_key k d = is_some (get k d)

  abbrev pub insert : K → V → Dict K V → Dict K V
  insert k v [] = (k, v) ∷ []
  insert k v ((j, w) ∷ d) = if e.same j k then (j, v) ∷ d else (j, w) ∷ insert k v d

  -- `entry(k).or_insert(v)`
  abbrev pub or_insert : K → V → Dict K V → Dict K V
  or_insert k v d = if contains_key k d then d else insert k v d

  abbrev pub remove : K → Dict K V → Dict K V
  remove k [] = []
  remove k ((j, v) ∷ d) = if e.same j k then remove k d else (j, v) ∷ remove k d

  pub get-insert_self : (k : K) (v : V) (d : Dict K V) → get k (insert k v d) ≡ some v
  get-insert_self k v [] = ground (arith, same_refl k)
  get-insert_self k v ((j, w) ∷ d) = ground (arith, get-insert_self k v d)

  pub get-insert_ne : (k j : K) (v : V) (d : Dict K V) → ¬ (k ≡ j) → get j (insert k v d) ≡ get j d
  get-insert_ne k j v [] n = ground (arith, same_of_ne k j n)
  get-insert_ne k j v ((i, w) ∷ d) n =
      ground (arith, get-insert_ne k j v d n, e.same_iff i k, e.same_iff i j, same_of_ne k j n)
