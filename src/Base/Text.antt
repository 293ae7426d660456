-- ===== src/Base/Text.antt =====
-- What the source does with text: concatenation by `format!`, decimal `Display` of integers,
-- `split_once`, `str::is_empty` and `eq_ignore_ascii_case`.
use Prim.Native.Nat.{ℕ, zero, suc, ◌+◌, ◌/◌, ◌%◌}
use Prim.Native.Char.{code}
use Prim.Native.String.{String}
use mathlib.Core.Path.{◌≡◌, refl}
use mathlib.Core.Bool.{Bool, true, false, ◌&&◌, ◌||◌}
use mathlib.Core.Option.{Option, none, some}
use mathlib.Core.List.{List, [], ◌∷◌, ◌++◌}
use native.Mathlib.Omega.{arith}
use netfyr.Base.Tests.{eqb, leb, ltb, if◌then◌else◌}

infixr 65 ◌<>◌
abbrev pub ◌<>◌ : String → String → String
s <> t = Prim.Native.String.◌++◌ s t

abbrev pub is_empty_text : String → Bool
is_empty_text String.[] = true
is_empty_text (String.◌∷◌ c s) = false

abbrev digit : ℕ → String
digit zero = "0"
digit (suc zero) = "1"
digit (suc (suc zero)) = "2"
digit (suc (suc (suc zero))) = "3"
digit (suc (suc (suc (suc zero)))) = "4"
digit (suc (suc (suc (suc (suc zero))))) = "5"
digit (suc (suc (suc (suc (suc (suc zero)))))) = "6"
digit (suc (suc (suc (suc (suc (suc (suc zero))))))) = "7"
digit (suc (suc (suc (suc (suc (suc (suc (suc zero)))))))) = "8"
digit n = "9"

-- The fuel is a bound on the number of digits; `decimal` gives the number itself plus one.
decimal_from : ℕ → ℕ → String
decimal_from zero n = ""
decimal_from (suc fuel) n =
    let rest = decimal_from fuel (n / 10) <> digit (n % 10) in if ltb n 10 then digit n else rest

unfoldable pub decimal : ℕ → String
unfolding decimal_from
decimal n = decimal_from (n + 1) n

-- `text.split_once(c)` for a one-byte character, given by its code.
unfoldable pub split_once : ℕ → String → Option (String × String)
split_once c String.[] = none
split_once c (String.◌∷◌ d s) =
    if eqb (code d) c
    then some ("", s)
    else elim (split_once c s) [ none ↦ none | some (a, b) ↦ some (String.◌∷◌ d a, b) ]

-- `items.join(separator)`
unfoldable pub join : String → List String → String
join sep [] = ""
join sep (s ∷ []) = s
join sep (s ∷ t ∷ ts) = s <> sep <> join sep (t ∷ ts)

pub lower : ℕ → ℕ
lower c = if leb b'A' c && leb c b'Z' then c + 32 else c

unfoldable pub eq_ignore_ascii_case : String → String → Bool
unfolding lower
eq_ignore_ascii_case String.[] String.[] = true
eq_ignore_ascii_case (String.◌∷◌ c s) (String.◌∷◌ d t) =
    eqb (lower (code c)) (lower (code d)) && eq_ignore_ascii_case s t
eq_ignore_ascii_case s t = false

pub eq_ignore_ascii_case_refl : (s : String) → eq_ignore_ascii_case s s ≡ true
unfolding eq_ignore_ascii_case
eq_ignore_ascii_case_refl String.[] = refl
eq_ignore_ascii_case_refl (String.◌∷◌ c s) = ground (arith, eq_ignore_ascii_case_refl s)

pub eq_ignore_ascii_case_trans :
    (s t u : String)
    → eq_ignore_ascii_case s t ≡ true
    → eq_ignore_ascii_case t u ≡ true
    → eq_ignore_ascii_case s u ≡ true
unfolding eq_ignore_ascii_case
eq_ignore_ascii_case_trans String.[] String.[] u p q = q
eq_ignore_ascii_case_trans String.[] (String.◌∷◌ d t) u p q = cc
eq_ignore_ascii_case_trans (String.◌∷◌ c s) String.[] u p q = cc
eq_ignore_ascii_case_trans (String.◌∷◌ c s) (String.◌∷◌ d t) String.[] p q = cc
eq_ignore_ascii_case_trans (String.◌∷◌ c s) (String.◌∷◌ d t) (String.◌∷◌ f u) p q =
    ground (arith, eq_ignore_ascii_case_trans s t u)

-- `char::is_whitespace`, the characters of Unicode's White_Space.
is_white : ℕ → Bool
is_white c =
    (leb 9 c && leb c 13)
    || eqb c 0x20
    || eqb c 0x85
    || eqb c 0xa0
    || eqb c 0x1680
    || (leb 0x2000 c && leb c 0x200a)
    || eqb c 0x2028
    || eqb c 0x2029
    || eqb c 0x202f
    || eqb c 0x205f
    || eqb c 0x3000

-- `text.trim().is_empty()`
unfoldable pub is_blank : String → Bool
unfolding is_white
is_blank String.[] = true
is_blank (String.◌∷◌ c s) = is_white (code c) && is_blank s

abbrev has_prefix : String → String → Bool
has_prefix String.[] s = true
has_prefix (String.◌∷◌ c p) String.[] = false
has_prefix (String.◌∷◌ c p) (String.◌∷◌ d s) = eqb (code c) (code d) && has_prefix p s

-- `text.contains(part)`
unfoldable pub has_infix : String → String → Bool
has_infix part String.[] = has_prefix part ""
has_infix part (String.◌∷◌ c s) = has_prefix part (String.◌∷◌ c s) || has_infix part s

abbrev cons_first : String → List String → List String
cons_first s [] = s ∷ []
cons_first s (t ∷ ts) = (s <> t) ∷ ts

-- `text.split(c)` for a one-byte character: the pieces between its occurrences, at least one.
unfoldable pub split : ℕ → String → List String
split c String.[] = "" ∷ []
split c (String.◌∷◌ d s) =
    let rest = split c s in
    if eqb (code d) c then "" ∷ rest else cons_first (String.◌∷◌ d String.[]) rest

-- The bytes of a character in UTF-8.
abbrev utf8 : ℕ → List ℕ
utf8 c =
    if ltb c 128
    then c ∷ []
    else if ltb c 2048
    then (192 + c / 64) ∷ (128 + c % 64) ∷ []
    else if ltb c 65536
    then (224 + c / 4096) ∷ (128 + c / 64 % 64) ∷ (128 + c % 64) ∷ []
    else (240 + c / 262144) ∷ (128 + c / 4096 % 64) ∷ (128 + c / 64 % 64) ∷ (128 + c % 64) ∷ []

-- `text.bytes()`
unfoldable pub bytes : String → List ℕ
bytes String.[] = []
bytes (String.◌∷◌ c s) = utf8 (code c) ++ bytes s

-- The last occurrence of a one-byte character: `text.rsplit_once(c)`.
unfoldable pub rsplit_once : ℕ → String → Option (String × String)
rsplit_once c String.[] = none
rsplit_once c (String.◌∷◌ d s) = elim (rsplit_once c s) [
  | some (a, b) ↦ some (String.◌∷◌ d a, b)
  | none ↦ if eqb (code d) c then some ("", s) else none
]
