-- ===== src/Base/Equality.antt =====
-- `==` of the source, as an interface: a Boolean test that decides equality.
use Prim.Native.Nat.{ℕ}
use Prim.Native.String.{String}
use text.Mathlib.Text.{◌==◌ as str_eq}
use text.Mathlib.TextEquality.{eq_iff}
use mathlib.Core.Path.{◌≡◌, refl, ap}
use mathlib.Core.Logic.{◌↔◌, inl, inr}
use mathlib.Core.Bool.{Bool, true, false, ◌&&◌, ◌||◌}
use mathlib.Core.Option.{Option, none, some}
use mathlib.Core.List.{List, [], ◌∷◌}
use native.Mathlib.Omega.{arith}
use netfyr.Base.Tests.{eqb, eqb_iff, Bool-cases}

pub record Eq (A : Type 0) : Type 0 where
  pub same : A → A → Bool
  pub same_iff : (a b : A) → (same a b ≡ true) ↔ (a ≡ b)

infix 50 ◌==◌
abbrev pub ◌==◌ : {A : Type 0} ⦃e : Eq A⦄ → A → A → Bool
◌==◌ ⦃e⦄ = e.same

instance abbrev pub nat_eq : Eq ℕ
nat_eq = record { same = eqb; same_iff = eqb_iff }

instance abbrev pub string_eq : Eq String
string_eq = record { same = str_eq; same_iff = eq_iff }

abbrev pub same_bool : Bool → Bool → Bool
same_bool true true = true
same_bool false false = true
same_bool a b = false

pub same_bool_iff : (a b : Bool) → (same_bool a b ≡ true) ↔ (a ≡ b)
same_bool_iff a b = ground arith

instance abbrev pub bool_eq : Eq Bool
bool_eq = record { same = same_bool; same_iff = same_bool_iff }

module _ {A : Type 0} ⦃e : Eq A⦄ where
  pub same_refl : (a : A) → e.same a a ≡ true
  same_refl a = (e.same_iff a a).1 refl

  -- A failed test refutes the equation.
  pub ne_of_same : (a b : A) → e.same a b ≡ false → ¬ (a ≡ b)
  ne_of_same a b h q = cc ((e.same_iff a b).1 q)

  pub same_of_ne : (a b : A) → ¬ (a ≡ b) → e.same a b ≡ false
  same_of_ne a b n = elim (Bool-cases (e.same a b)) [
    | inl y ↦ absurd (n ((e.same_iff a b).0 y))
    | inr z ↦ z
  ]

  abbrev pub same_option : Option A → Option A → Bool
  same_option none none = true
  same_option (some a) (some b) = e.same a b
  same_option a b = false

  pub same_option_iff : (a b : Option A) → (same_option a b ≡ true) ↔ (a ≡ b)
  same_option_iff none none = (λ _. refl, λ _. refl)
  same_option_iff none (some b) = (λ h. cc, λ h. cc)
  same_option_iff (some a) none = (λ h. cc, λ h. cc)
  same_option_iff (some a) (some b) =
      (λ h. ap some ((e.same_iff a b).0 h), λ h. (e.same_iff a b).1 (cc))

  abbrev pub same_list : List A → List A → Bool
  same_list [] [] = true
  same_list (a ∷ l) (b ∷ bs) = e.same a b && same_list l bs
  same_list a b = false

  pub same_list_iff : (a b : List A) → (same_list a b ≡ true) ↔ (a ≡ b)
  same_list_iff [] [] = (λ _. refl, λ _. refl)
  same_list_iff [] (b ∷ bs) = (λ h. cc, λ h. cc)
  same_list_iff (a ∷ l) [] = (λ h. cc, λ h. cc)
  same_list_iff (a ∷ l) (b ∷ m) =
      let head = e.same_iff a b in
      let tail = same_list_iff l m in
      (λ h. ground (arith, head, tail), λ h. ground (arith, head, tail))

  -- `contains`
  abbrev pub contains : List A → A → Bool
  contains [] a = false
  contains (x ∷ xs) a = e.same x a || contains xs a

instance abbrev pub option_eq : {A : Type 0} ⦃e : Eq A⦄ → Eq (Option A)
option_eq = record { same = same_option; same_iff = same_option_iff }

instance abbrev pub list_eq : {A : Type 0} ⦃e : Eq A⦄ → Eq (List A)
list_eq = record { same = same_list; same_iff = same_list_iff }

module _ {A B : Type 0} ⦃e : Eq A⦄ ⦃d : Eq B⦄ where
  abbrev pub same_pair : A × B → A × B → Bool
  same_pair (a, b) (x, y) = e.same a x && d.same b y

  pub same_pair_iff : (p q : A × B) → (same_pair p q ≡ true) ↔ (p ≡ q)
  same_pair_iff (a, b) (x, y) =
      let left = e.same_iff a x in
      let right = d.same_iff b y in
      (λ h. ground (arith, left, right), λ h. ground (arith, left, right))

instance abbrev pub pair_eq : {A B : Type 0} ⦃e : Eq A⦄ ⦃d : Eq B⦄ → Eq (A × B)
pair_eq = record { same = same_pair; same_iff = same_pair_iff }
