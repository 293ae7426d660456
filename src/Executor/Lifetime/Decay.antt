-- ===== src/Executor/Lifetime/Decay.antt =====
-- Which lifetimes match after a time.
use netfyr.Base.{
  ℕ, ◌+◌, ◌*◌, ◌≤◌, ◌<◌, ◌≡◌, sym, ◌∙◌, ◌⊎◌, ◌↔◌, arith, Bool, true, ◌&&◌, ◌||◌, Bool-cases, inl,
  inr, eqb, leb, ltb, if◌then◌else◌, ◌%◌,
}
use netfyr.Base.Int.{sub_ℕ, leb_ℤ, pos}
use netfyr.Executor.Lifetime.{whole_seconds, lifetime_matches}

-- One second for a part of a second.
abbrev pub part : ℕ → ℕ
part n = if ltb 0 n then 1 else 0

seconds_of : (k n : ℕ) → n < 1000000000 → k ≤ 4294967295 → whole_seconds (k * 1000000000 + n) ≡ k
unfolding whole_seconds
seconds_of k n h b = ground arith

rest_of : (k n : ℕ) → n < 1000000000 → (k * 1000000000 + n) % 1000000000 ≡ n
rest_of k n h = omega (arith, h)

finite_iff :
    (s a floor ceil : ℕ)
    → floor ≤ ceil
    → ((((leb_ℤ (sub_ℕ floor 1) (sub_ℕ s a) && leb_ℤ (sub_ℕ s a) (pos (ceil + 1)))
            || (eqb a 0 && leb s (ceil + 1)))
          ≡ true)
        ↔ (((floor + a ≤ s + 1) × (s ≤ a + ceil + 1)) ⊎ ((a ≡ 0) × (s ≤ ceil + 1))))
finite_iff s a floor ceil h =
    (λ e. ground arith, λ e. elim e [ inl p ↦ ground (arith, p) | inr p ↦ ground (arith, p) ])

-- What a lifetime of `s` seconds may be after `k` whole seconds and `n` nanoseconds: an infinite one
-- is infinite; of a finite one `k` seconds are gone, one more for a part of a second, and one more or
-- less for the rounding of the kernel; or it is over, when it had no more than that.
abbrev pub Remains : ℕ → ℕ → ℕ → ℕ → Type 0
Remains s a k n =
    ((s ≡ 4294967295) × (a ≡ 4294967295))
    ⊎ ((s < 4294967295)
        × (a < 4294967295)
        × (((k + a ≤ s + 1) × (s ≤ a + (k + part n) + 1)) ⊎ ((a ≡ 0) × (s ≤ k + part n + 1))))

-- The test, from the elapsed seconds and one for a part of a second.
abbrev test : ℕ → ℕ → ℕ → ℕ → Bool
test s a floor p =
    if eqb s 4294967295 || eqb a 4294967295
    then eqb s a
    else (leb_ℤ (sub_ℕ floor 1) (sub_ℕ s a) && leb_ℤ (sub_ℕ s a) (pos (floor + p + 1)))
      || (eqb a 0 && leb s (floor + p + 1))

test_iff :
    (s a k n : ℕ) → s ≤ 4294967295 → a ≤ 4294967295 → (test s a k (part n) ≡ true) ↔ Remains s a k n
test_iff s a k n hs ha = elim (Bool-cases (eqb s 4294967295)) [
  | inl forever ↦ rw forever (
    λ e. inl (ground (arith, forever), ground (arith, forever, e)),
    λ e. ground (arith, forever, e),
  )
  | inr finite ↦ elim (Bool-cases (eqb a 4294967295)) [
    | inl endless ↦
        rw (finite, endless)
          (λ e. ground (arith, finite, endless, e), λ e. ground (arith, finite, endless, e))
    | inr ends ↦
        let (there, back) = finite_iff s a k (k + part n) (omega arith) in
        rw (finite, ends)
          (
            λ e. inr (ground (arith, finite), ground (arith, ends), there e),
            λ e. elim e [ inl both ↦ ground (arith, finite, both) | inr (x, y, z) ↦ back z ],
          )
  ]
]

-- Two lifetimes of at most `u32::MAX` seconds match, after `k` seconds, at most `u32::MAX`, and `n`
-- nanoseconds, less than a second, exactly when both are infinite, or when both are finite and the
-- second is less than the first by at least `k` seconds less one and at most `k` plus one, and one more
-- when `n` is not zero, or it is zero and the first is at most that.
pub lifetime_matches_iff :
    (s a k n : ℕ)
    → s ≤ 4294967295
    → a ≤ 4294967295
    → k ≤ 4294967295
    → n < 1000000000
    → (lifetime_matches s a (k * 1000000000 + n) ≡ true) ↔ Remains s a k n
unfolding lifetime_matches
lifetime_matches_iff s a k n hs ha hk hn =
    let same : lifetime_matches s a (k * 1000000000 + n) ≡ test s a k (part n) =
      λ i. test s a (seconds_of k n hn hk i) (part (rest_of k n hn i)) in
    let (there, back) = test_iff s a k n hs ha in (λ e. there (sym same ∙ e), λ e. same ∙ back e)
