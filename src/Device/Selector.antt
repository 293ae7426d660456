-- ===== src/Device/Selector.antt =====
-- What `Match::matches` promises of selectors.
use netfyr.Base.{String, true, ◌≡◌, refl, sym, ap, ◌↔◌, Option, none, some, arith, ◌∙◌}
use netfyr.Base.Text.{eq_ignore_ascii_case, eq_ignore_ascii_case_refl, eq_ignore_ascii_case_trans}
use text.Mathlib.TextEquality.{eq_iff}
use netfyr.Device.{Match, any_device, field_matches, mac_matches, matches, is_empty_match}

field_matches_refl : (a : Option String) → field_matches a a ≡ true
unfolding field_matches
field_matches_refl none = refl
field_matches_refl (some a) = (eq_iff a a).1 refl

mac_matches_refl : (a : Option String) → mac_matches a a ≡ true
unfolding mac_matches
mac_matches_refl none = refl
mac_matches_refl (some a) = eq_ignore_ascii_case_refl a

field_matches_trans :
    (a b c : Option String)
    → field_matches a b ≡ true
    → field_matches b c ≡ true
    → field_matches a c ≡ true
unfolding field_matches
field_matches_trans none b c p q = refl
field_matches_trans (some a) none c p q = cc
field_matches_trans (some a) (some b) none p q = cc
field_matches_trans (some a) (some b) (some c) p q =
    (eq_iff a c).1 ((eq_iff a b).0 p ∙ (eq_iff b c).0 q)

mac_matches_trans :
    (a b c : Option String)
    → mac_matches a b ≡ true
    → mac_matches b c ≡ true
    → mac_matches a c ≡ true
unfolding mac_matches
mac_matches_trans none b c p q = refl
mac_matches_trans (some a) none c p q = cc
mac_matches_trans (some a) (some b) none p q = cc
mac_matches_trans (some a) (some b) (some c) p q = eq_ignore_ascii_case_trans a b c p q

-- The matching is a preorder on selectors: each selector matches itself, and a selector that
-- matches a second, which matches a third, matches the third too.
matches_preorder :
    ((m : Match) → matches m m ≡ true)
    × ((a b c : Match) → matches a b ≡ true → matches b c ≡ true → matches a c ≡ true)
unfolding matches
matches_preorder = (
  λ m. ground (
    arith,
    field_matches_refl m.name,
    field_matches_refl m.device_type,
    field_matches_refl m.driver,
    field_matches_refl m.pci_path,
    mac_matches_refl m.mac,
  ),
  λ a b c p q. ground (
    arith,
    field_matches_trans a.name b.name c.name,
    field_matches_trans a.device_type b.device_type c.device_type,
    field_matches_trans a.driver b.driver c.driver,
    field_matches_trans a.pci_path b.pci_path c.pci_path,
    mac_matches_trans a.mac b.mac c.mac,
  ),
)

-- A selector is empty exactly when it matches every device description.
is_empty_match_iff :
    (m : Match) → (is_empty_match m ≡ true) ↔ ((other : Match) → matches m other ≡ true)
unfolding matches is_empty_match field_matches mac_matches
is_empty_match_iff m = (λ h other. ground arith, λ all. ground (arith, all any_device))

-- The text that a criterion asks for, if it asks for one, is there.
abbrev pub Asks : Option String → Option String → Type 0
Asks none other = Unit
Asks (some a) other = other ≡ some a

-- The same for a MAC address, whose letters may differ in case.
abbrev pub AsksMac : Option String → Option String → Type 0
AsksMac none other = Unit
AsksMac (some a) none = ⊥
AsksMac (some a) (some b) = eq_ignore_ascii_case a b ≡ true

-- Every criterion of the selector is met.
abbrev pub Meets : Match → Match → Type 0
Meets m other =
    Asks m.name other.name
    × Asks m.device_type other.device_type
    × Asks m.driver other.driver
    × Asks m.pci_path other.pci_path
    × AsksMac m.mac other.mac

field_matches_iff : (a b : Option String) → (field_matches a b ≡ true) ↔ Asks a b
unfolding field_matches
field_matches_iff none b = (λ h. tt, λ h. refl)
field_matches_iff (some a) none = (λ h. cc, λ h. cc)
field_matches_iff (some a) (some b) =
    (λ h. ap some (sym ((eq_iff a b).0 h)), λ h. let same : b ≡ a = cc in (eq_iff a b).1 (sym same))

mac_matches_iff : (a b : Option String) → (mac_matches a b ≡ true) ↔ AsksMac a b
unfolding mac_matches
mac_matches_iff none b = (λ h. tt, λ h. refl)
mac_matches_iff (some a) none = (λ h. cc, λ h. elim h [ ])
mac_matches_iff (some a) (some b) = (λ h. h, λ h. h)

pub matches_iff : (m other : Match) → (matches m other ≡ true) ↔ Meets m other
unfolding matches
matches_iff m other =
    let name = field_matches_iff m.name other.name in
    let kind = field_matches_iff m.device_type other.device_type in
    let driver = field_matches_iff m.driver other.driver in
    let path = field_matches_iff m.pci_path other.pci_path in
    let mac = mac_matches_iff m.mac other.mac in
    (
      λ h. (
        name.0 (ground (arith, h)),
        kind.0 (ground (arith, h)),
        driver.0 (ground (arith, h)),
        path.0 (ground (arith, h)),
        mac.0 (ground (arith, h)),
      ),
      λ (n, k, d, p, a).
          let n' = name.1 n in
          let k' = kind.1 k in
          let d' = driver.1 d in
          let p' = path.1 p in let a' = mac.1 a in ground (arith, n', k', d', p', a'),
    )
