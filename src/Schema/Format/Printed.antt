-- ===== src/Schema/Format/Printed.antt =====
-- Reading the text of a network, as `Display` of `IpNetwork` writes it.
use netfyr.Base.{
  ℕ, zero, suc, ◌^◌, ◌<◌, ◌≤◌, ◌≡◌, refl, ap, ◌∙◌, arith, String, Bool, true, false, ◌&&◌, Option,
  none, some, Bool-cases, inl, inr, eqb, leb, eqb_iff, if◌then◌else◌,
}
use Prim.Native.Char.{code}
use text.Mathlib.TextLemmas.{nil-append, cons-append}
use netfyr.Base.Text.{◌<>◌, decimal, split_once}
use netfyr.Value.{IpAddr, v4, v6}
use netfyr.Schema.Format.{parse_u8, max_prefix, parse_ip_network}

-- An address that its width holds.
abbrev pub IsAddress : IpAddr → Type 0
IsAddress (v4 n) = n < 2 ^ 32
IsAddress (v6 n) = n < 2 ^ 128

-- What the documentation of `std::net::IpAddr` says: the text of an address is read as the address, and
-- no slash is in it.
pub record KeepsAddresses (pa : String → Option IpAddr) (di : IpAddr → String) : Type 0 where
  pub parsed : (a : IpAddr) → IsAddress a → pa (di a) ≡ some a
  pub no_slash : (a : IpAddr) → IsAddress a → split_once b'/' (di a) ≡ none

split_once-first : (t : String) → split_once b'/' ("/" <> t) ≡ some ("", t)
unfolding split_once
split_once-first t =
    ap (split_once b'/') (cons-append "/" "" t ∙ ap (String.◌∷◌ "/") (nil-append t)) ∙ refl

split_once-slash :
    (s t : String) → split_once b'/' s ≡ none → split_once b'/' (s <> "/" <> t) ≡ some (s, t)
unfolding split_once
split_once-slash String.[] t h = ap (split_once b'/') (nil-append ("/" <> t)) ∙ split_once-first t
split_once-slash (String.◌∷◌ c s) t h = elim (Bool-cases (eqb (code c) b'/')) [
  | inl slash ↦ let no : some _ ≡ none = rw slash at h in cc
  | inr other ↦
      let rest = split_once-slash s t (without (split_once b'/' s) (rw other at h)) in
      ap (split_once b'/') (cons-append c s ("/" <> t)) ∙ rw (other, rest) refl
]
  where
    without :
        (o : Option (String × String))
        → ◌≡◌ {A = Option (String × String)}
            (elim o [ none ↦ none | some (a, b) ↦ some (String.◌∷◌ c a, b) ])
            none
        → o ≡ none
    without none e = refl
    without (some x) e = cc

abbrev reads : ℕ → Option ℕ → Bool
reads n none = false
reads n (some m) = eqb m n

reads-some : (n : ℕ) (o : Option ℕ) → reads n o ≡ true → o ≡ some n
reads-some n none h = cc
reads-some n (some m) h = ap some ((eqb_iff m n).0 h)

-- The numbers below a bound are read from their digits.
abbrev all_read : ℕ → Bool
all_read zero = true
all_read (suc n) = reads n (parse_u8 (decimal n)) && all_read n

all_read-reads : (k n : ℕ) → all_read k ≡ true → n < k → reads n (parse_u8 (decimal n)) ≡ true
all_read-reads zero n h below = absurd (omega arith)
all_read-reads (suc k) n h below = elim (Bool-cases (eqb n k)) [
  | inl same ↦ let e : n ≡ k = (eqb_iff n k).0 same in rw e (ground (arith, h))
  | inr other ↦ all_read-reads k n (ground (arith, h)) (ground arith)
]

prefixes : all_read 129 ≡ true
unfolding parse_u8 decimal
prefixes = refl

within_129 : (a : IpAddr) (p : ℕ) → p ≤ max_prefix a → p < 129
within_129 (v4 n) p h = omega arith
within_129 (v6 n) p h = omega arith

-- What is read of the parts, once they are known.
abbrev of_prefix : IpAddr → Option ℕ → Option (IpAddr × ℕ)
of_prefix addr o = elim o [
  | none ↦ none
  | some prefix ↦ if leb prefix (max_prefix addr) then some (addr, prefix) else none
]

abbrev of_addr : Option IpAddr → Option ℕ → Option (IpAddr × ℕ)
of_addr o n = elim o [ none ↦ none | some addr ↦ of_prefix addr n ]

abbrev of_parts : (String → Option IpAddr) → Option (String × String) → Option (IpAddr × ℕ)
of_parts pa o = elim o [
  | none ↦ none
  | some (addr_text, prefix_text) ↦ of_addr (pa addr_text) (parse_u8 prefix_text)
]

-- The address and its prefix length, printed with a slash between them, are read as they are.
pub parse_ip_network-printed :
    (pa : String → Option IpAddr) (di : IpAddr → String) (a : IpAddr) (p : ℕ)
    → KeepsAddresses pa di
    → IsAddress a
    → p ≤ max_prefix a
    → parse_ip_network pa (di a <> "/" <> decimal p) ≡ some (a, p)
unfolding parse_ip_network split_once parse_u8
parse_ip_network-printed pa di a p keeps valid fits =
    let prefix =
      reads-some p (parse_u8 (decimal p)) (all_read-reads 129 p prefixes (within_129 a p fits)) in
    let short : leb p (max_prefix a) ≡ true = ground arith in
    let parts = split_once-slash (di a) (decimal p) (keeps.no_slash a valid) in
    ap (of_parts pa) parts ∙ (λ i. of_addr (keeps.parsed a valid i) (prefix i)) ∙ rw short refl
