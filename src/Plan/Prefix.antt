-- ===== src/Plan/Prefix.antt =====
-- The prefix groups: what the mask arithmetic computes.
use netfyr.Base.{
  ℕ, zero, suc, ◌+◌, ◌-◌, ◌*◌, ◌/◌, ◌^◌, ◌≤◌, ◌<◌, ◌≡◌, refl, ◌↔◌, Bool, true, ◌&&◌, some, arith,
  eqb, eqb_iff, ap, ◌∙◌, sym, subst,
}
use native.Mathlib.Decide.{ℕ_discrete}
use native.Mathlib.Nat.{pow-suc}
use netfyr.Base.Bits.{bit_and, leading, drop_low_lem, bit_and-leading}
use netfyr.Plan.{Ipv4Address, prefix_mask, masked, group}

-- The 33 masks are leading ones, by evaluation.
masks_agree : ℕ → Bool
masks_agree zero = eqb (prefix_mask 32) (leading 0 32)
masks_agree (suc n) = eqb (prefix_mask (32 - suc n)) (leading (suc n) (32 - suc n)) && masks_agree n

masks_table : masks_agree 32 ≡ true
unfolding masks_agree prefix_mask
masks_table = refl

masks_below : (m n : ℕ) → n ≤ m → masks_agree m ≡ true → prefix_mask (32 - n) ≡ leading n (32 - n)
unfolding masks_agree
masks_below zero zero h t = ground (arith, eqb_iff (prefix_mask 32) (leading 0 32))
masks_below zero (suc n) h t = absurd (omega arith)
masks_below (suc m) n h t = elim (ℕ_discrete n (suc m)) [
  | yes e ↦ rw e (ground (arith, eqb_iff (prefix_mask (32 - suc m)) (leading (suc m) (32 - suc m))))
  | no ne ↦ masks_below m n (omega arith) (ground arith)
]

network_eq :
    (ip n : ℕ)
    → ip < 2 ^ 32
    → n ≤ 32
    → bit_and ip (prefix_mask (32 - n)) ≡ ip / 2 ^ (32 - n) * 2 ^ (32 - n)
network_eq ip n small h =
    let whole : n + (32 - n) ≡ 32 = omega arith in
    let small' : ip < 2 ^ (n + (32 - n)) = rw whole small in
    rw (masks_below 32 n h masks_table)
      (bit_and-leading n (32 - n) ip small' ∙ drop_low_lem (32 - n) ip)

masked_lem :
    (ip n : ℕ) → ip < 2 ^ 32 → n ≤ 32 → masked ip n ≡ some (ip / 2 ^ (32 - n) * 2 ^ (32 - n), n)
unfolding masked
masked_lem ip n small h = ground (arith, network_eq ip n small h)

div_of_multiple : (a b k : ℕ) → 0 < k → a * k ≡ b * k → a ≡ b
div_of_multiple a b k h e = grind arith

pow_pos : (k : ℕ) → 0 < 2 ^ k
pow_pos zero = omega arith
pow_pos (suc k) = omega (arith, pow-suc 2 k, pow_pos k)

module _ (x y m n : ℕ) (sx : x < 2 ^ 32) (sy : y < 2 ^ 32) (hm : m ≤ 32) (hn : n ≤ 32) where
  masked-eq→ : masked x m ≡ masked y n → (m ≡ n) × (x / 2 ^ (32 - m) ≡ y / 2 ^ (32 - m))
  masked-eq→ h =
      let e = sym (masked_lem x m sx hm) ∙ h ∙ masked_lem y n sy hn in
      let l : m ≡ n = ground arith in
      let w : x / 2 ^ (32 - m) * 2 ^ (32 - m) ≡ y / 2 ^ (32 - n) * 2 ^ (32 - n) = ground arith in
      (
        l,
        div_of_multiple (x / 2 ^ (32 - m)) (y / 2 ^ (32 - m)) (2 ^ (32 - m)) (pow_pos (32 - m)) (
            subst (λ k. x / 2 ^ (32 - m) * 2 ^ (32 - m) ≡ y / 2 ^ (32 - k) * 2 ^ (32 - k)) (sym l)
              w),
      )

  masked-eq← : m ≡ n → x / 2 ^ (32 - m) ≡ y / 2 ^ (32 - m) → masked x m ≡ masked y n
  masked-eq← l q =
      let w : x / 2 ^ (32 - m) * 2 ^ (32 - m) ≡ y / 2 ^ (32 - n) * 2 ^ (32 - n) =
        ap (λ t. t * 2 ^ (32 - m)) q ∙ ap (λ k. y / 2 ^ (32 - k) * 2 ^ (32 - k)) l in
      masked_lem x m sx hm ∙ (λ i. some (w i, l i)) ∙ sym (masked_lem y n sy hn)

-- Two 32-bit addresses with prefixes of at most 32 bits are in the same prefix group exactly when
-- their prefix lengths are equal and they agree on that many leading bits.
pub group-eq_iff :
    (a b : Ipv4Address)
    → a.ip < 2 ^ 32
    → b.ip < 2 ^ 32
    → a.prefix_len ≤ 32
    → b.prefix_len ≤ 32
    → (group a ≡ group b) ↔ (
        (a.prefix_len ≡ b.prefix_len)
        × (a.ip / 2 ^ (32 - a.prefix_len) ≡ b.ip / 2 ^ (32 - a.prefix_len)))
unfolding group
group-eq_iff a b sa sb ha hb = (
  masked-eq→ a.ip b.ip a.prefix_len b.prefix_len sa sb ha hb,
  λ (e, f). masked-eq← a.ip b.ip a.prefix_len b.prefix_len sa sb ha hb e f,
)
