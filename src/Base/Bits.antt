-- ===== src/Base/Bits.antt =====
-- Bits of 32-bit words: the native `bit_and` and `bit_or`, complement, and masks of leading ones.
use Prim.Native.Nat.{
  ℕ, zero, suc, ◌+◌, ◌-◌, ◌*◌, ◌/◌, ◌%◌, ◌^◌, ◌≤◌, ◌<◌, min, digits, bit_and-bitwise,
}
use mathlib.Core.Path.{◌≡◌, refl}
use mathlib.Core.Bool.{Bool, not}
use native.Mathlib.Omega.{arith}
use native.Mathlib.Nat.{pow-suc, div-div-eq-div-mul, mul_comm}
use netfyr.Base.Tests.{eqb}
pub use Prim.Native.Nat.{bit_and, bit_or}

abbrev pub u32_max : ℕ
u32_max = 4294967295

-- `!w` on a u32, and `word & !mask`.
abbrev pub complement : ℕ → ℕ
complement w = u32_max - w

abbrev pub clear : ℕ → ℕ → ℕ
clear word mask = bit_and word (complement mask)

-- `word & mask != 0`
abbrev pub has_bit : ℕ → ℕ → Bool
has_bit word mask = not (eqb (bit_and word mask) 0)

-- `bit_and` one binary digit at a time, whatever count of digits the native definition is given.
abbrev common : ℕ → ℕ → ℕ → ℕ
common count a b = digits (λ _. zero) min count a b

common_enough : (k l a b : ℕ) → a ≤ k → a ≤ l → common k a b ≡ common l a b
common_enough zero zero a b p q = refl
common_enough zero (suc l) zero b p q = refl
common_enough zero (suc l) (suc a) b p q = absurd (omega arith)
common_enough (suc k) zero zero b p q = refl
common_enough (suc k) zero (suc a) b p q = absurd (omega arith)
common_enough (suc k) (suc l) zero b p q = refl
common_enough (suc k) (suc l) (suc a) b p q =
    omega (arith, common_enough k l (suc a / 2) (b / 2) (omega arith) (omega arith))

bit_and_digit : (a b : ℕ) → bit_and a b ≡ bit_and (a / 2) (b / 2) * 2 + min (a % 2) (b % 2)
bit_and_digit zero b = omega (arith, bit_and-bitwise 0 b, bit_and-bitwise 0 (b / 2))
bit_and_digit (suc a) b = omega (
  arith,
  bit_and-bitwise (suc a) b,
  bit_and-bitwise (suc a / 2) (b / 2),
  common_enough a (suc a / 2) (suc a / 2) (b / 2) (omega arith) (omega arith),
)

-- The digit that a mask is built with decides the digit of the result.
bit_and_shifted :
    (x m d : ℕ) → d < 2 → bit_and x (m * 2 + d) ≡ bit_and (x / 2) m * 2 + min (x % 2) d
bit_and_shifted x m d h =
    let half : (m * 2 + d) / 2 ≡ m = omega arith in
    let rest : (m * 2 + d) % 2 ≡ d = omega arith in rw (bit_and_digit x (m * 2 + d), half, rest)

-- `n` ones above `k` zeros.
abbrev ones : ℕ → ℕ
ones zero = 0
ones (suc n) = ones n * 2 + 1

abbrev pub leading : ℕ → ℕ → ℕ
leading n zero = ones n
leading n (suc k) = leading n k * 2 + 0

bit_and-ones : (n x : ℕ) → x < 2 ^ n → bit_and x (ones n) ≡ x
bit_and-ones zero x h = let e : x ≡ 0 = omega arith in rw e
bit_and-ones (suc n) x h =
    omega (arith, bit_and_shifted x (ones n) 1, bit_and-ones n (x / 2) (omega (arith, pow-suc 2 n)))

-- The `k` low bits of a word, cleared one at a time.
abbrev pub drop_low : ℕ → ℕ → ℕ
drop_low zero x = x
drop_low (suc k) x = drop_low k (x / 2) * 2

pub bit_and-leading : (n k x : ℕ) → x < 2 ^ (n + k) → bit_and x (leading n k) ≡ drop_low k x
bit_and-leading n zero x h = let e : n + 0 ≡ n = omega arith in bit_and-ones n x (rw e at h)
bit_and-leading n (suc k) x h =
    let e : n + suc k ≡ suc (n + k) = omega arith in
    let h' : x < 2 ^ suc (n + k) = rw e at h in
    omega (
      arith,
      bit_and_shifted x (leading n k) 0,
      bit_and-leading n k (x / 2) (omega (arith, pow-suc 2 (n + k))),
    )

pub drop_low_lem : (k x : ℕ) → drop_low k x ≡ x / 2 ^ k * 2 ^ k
drop_low_lem zero x = omega arith
drop_low_lem (suc k) x =
    rw (drop_low_lem k (x / 2), div-div-eq-div-mul x 2 (2 ^ k), pow-suc 2 k, mul_comm (2 ^ k) 2)
      (omega arith)
