-- ===== src/Device/Content.antt =====
-- What `State::content_eq` compares.
use netfyr.Base.{true, ◌≡◌, refl, ◌↔◌, arith, &&_split, subst}
use netfyr.Base.Equality.{Eq, ◌==◌, string_eq, option_eq, same_option_iff}
use text.Mathlib.TextEquality.{eq_iff}
use netfyr.Value.{same_entries}
use netfyr.Value.Equality.{same_entries_iff}
use netfyr.Device.{Match, same_match, State, content_eq}

same_match_sound : (a b : Match) → same_match a b ≡ true → a ≡ b
same_match_sound a b h =
    let (h₁, m) = &&_split _ (a.mac == b.mac) h in
    let (h₂, p) = &&_split _ (a.pci_path == b.pci_path) h₁ in
    let (h₃, d) = &&_split _ (a.driver == b.driver) h₂ in
    let (n, t) = &&_split (a.name == b.name) (a.device_type == b.device_type) h₃ in
    λ i. record {
      name = (same_option_iff a.name b.name).0 n i;
      device_type = (same_option_iff a.device_type b.device_type).0 t i;
      driver = (same_option_iff a.driver b.driver).0 d i;
      pci_path = (same_option_iff a.pci_path b.pci_path).0 p i;
      mac = (same_option_iff a.mac b.mac).0 m i;
    }

same_match_refl : (a : Match) → same_match a a ≡ true
same_match_refl a = ground (
  arith,
  (same_option_iff a.name a.name).1 refl,
  (same_option_iff a.device_type a.device_type).1 refl,
  (same_option_iff a.driver a.driver).1 refl,
  (same_option_iff a.pci_path a.pci_path).1 refl,
  (same_option_iff a.mac a.mac).1 refl,
)

pub same_match_iff : (a b : Match) → (same_match a b ≡ true) ↔ (a ≡ b)
same_match_iff a b =
    (same_match_sound a b, λ e. subst (λ x. same_match a x ≡ true) e (same_match_refl a))

instance abbrev pub match_eq : Eq Match
match_eq = record { same = same_match; same_iff = same_match_iff }

-- Two states have equal content exactly when their device types, their selectors and their fields,
-- in order, are equal; the source and the priority do not matter.
content_eq_iff :
    (a b : State)
    → (content_eq a b ≡ true)
      ↔ ((a.device_type ≡ b.device_type) × (a.match_spec ≡ b.match_spec) × (a.fields ≡ b.fields))
unfolding content_eq
content_eq_iff a b = (
  λ h.
      let (r, f) = &&_split _ (same_entries a.fields b.fields) h in
      let (t, m) =
        &&_split (a.device_type == b.device_type) (same_match a.match_spec b.match_spec) r in
      (
        (eq_iff a.device_type b.device_type).0 t,
        same_match_sound a.match_spec b.match_spec m,
        (same_entries_iff a.fields b.fields).0 f,
      ),
  λ (t, m, f). ground (
    arith,
    (eq_iff a.device_type b.device_type).1 t,
    (same_match_iff a.match_spec b.match_spec).1 m,
    (same_entries_iff a.fields b.fields).1 f,
  ),
)
