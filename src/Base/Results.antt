-- ===== src/Base/Results.antt =====
-- `Result<A, E>` and its `?`.
use mathlib.Core.Path.{◌≡◌, refl}
use mathlib.Core.Option.{Option, none, some}
use mathlib.Core.Bool.{Bool, true, false}
use mathlib.Core.Logic.{◌⊎◌, inl, inr}

pub data Result (A E : Type 0) : Type 0 where
  ok : A → Result A E
  err : E → Result A E

module _ {A B E : Type 0} where
  infixl 5 ◌>>=◌
  abbrev pub ◌>>=◌ : Result A E → (A → Result B E) → Result B E
  ok a >>= f = f a
  err e >>= f = err e

module _ {A E : Type 0} where
  abbrev pub ok_or : Option A → E → Result A E
  ok_or none e = err e
  ok_or (some a) e = ok a

  abbrev pub is_ok : Result A E → Bool
  is_ok (ok a) = true
  is_ok (err e) = false

  pub Result-cases : (r : Result A E) → ((a : A) × (r ≡ ok a)) ⊎ ((e : E) × (r ≡ err e))
  Result-cases (ok a) = inl (a, refl)
  Result-cases (err e) = inr (e, refl)

module _ {A B E : Type 0} where
  -- How a chain succeeds.
  pub data Binds (r : Result A E) (f : A → Result B E) (b : B) : Type 0 where
    binds : (a : A) → r ≡ ok a → f a ≡ ok b → Binds r f b

  pub bind-ok : (r : Result A E) (f : A → Result B E) (b : B) → (r >>= f) ≡ ok b → Binds r f b
  bind-ok (ok a) f b h = binds a refl h
  bind-ok (err e) f b h = cc
