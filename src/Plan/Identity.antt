-- ===== src/Plan/Identity.antt =====
-- The derived equalities of the plan's records, and that they decide equality.
use netfyr.Base.{Bool, true, ◌≡◌, refl, ◌↔◌, ◌&&◌, &&_split, arith, eqb, eqb_iff, subst}
use netfyr.Base.Equality.{Eq, ◌==◌, nat_eq, string_eq, option_eq, same_option_iff, pair_eq}
use text.Mathlib.TextEquality.{eq_iff}
use netfyr.Plan.{NamespaceId, InterfaceId, Ipv4Address, Diagnostic, same_identity}

abbrev pub same_namespace : NamespaceId → NamespaceId → Bool
same_namespace a b = eqb a.device b.device && eqb a.inode b.inode

pub same_namespace_iff : (a b : NamespaceId) → (same_namespace a b ≡ true) ↔ (a ≡ b)
same_namespace_iff a b = (
  λ h.
      let (d, i) = &&_split (eqb a.device b.device) (eqb a.inode b.inode) h in
      λ k. record {
        device = (eqb_iff a.device b.device).0 d k;
        inode = (eqb_iff a.inode b.inode).0 i k;
      },
  λ e. subst (λ x. same_namespace a x ≡ true) e (ground arith),
)

instance abbrev pub namespace_eq : Eq NamespaceId
namespace_eq = record { same = same_namespace; same_iff = same_namespace_iff }

abbrev pub same_interface : InterfaceId → InterfaceId → Bool
same_interface a b =
    same_namespace a.namespace b.namespace
    && eqb a.index b.index
    && eqb a.generation b.generation
    && a.name == b.name
    && a.device_type == b.device_type
    && a.mac == b.mac

same_interface_sound : (a b : InterfaceId) → same_interface a b ≡ true → a ≡ b
same_interface_sound a b h =
    let (h₁, m) = &&_split _ (a.mac == b.mac) h in
    let (h₂, t) = &&_split _ (a.device_type == b.device_type) h₁ in
    let (h₃, n) = &&_split _ (a.name == b.name) h₂ in
    let (h₄, g) = &&_split _ (eqb a.generation b.generation) h₃ in
    let (s, x) = &&_split (same_namespace a.namespace b.namespace) (eqb a.index b.index) h₄ in
    λ k. record {
      namespace = (same_namespace_iff a.namespace b.namespace).0 s k;
      index = (eqb_iff a.index b.index).0 x k;
      generation = (eqb_iff a.generation b.generation).0 g k;
      name = (eq_iff a.name b.name).0 n k;
      device_type = (eq_iff a.device_type b.device_type).0 t k;
      mac = (same_option_iff a.mac b.mac).0 m k;
    }

same_interface_refl : (a : InterfaceId) → same_interface a a ≡ true
same_interface_refl a = ground (
  arith,
  (same_namespace_iff a.namespace a.namespace).1 refl,
  (eq_iff a.name a.name).1 refl,
  (eq_iff a.device_type a.device_type).1 refl,
  (same_option_iff a.mac a.mac).1 refl,
)

pub same_interface_iff : (a b : InterfaceId) → (same_interface a b ≡ true) ↔ (a ≡ b)
same_interface_iff a b = (
  same_interface_sound a b,
  λ e. subst (λ x. same_interface a x ≡ true) e (same_interface_refl a),
)

instance abbrev pub interface_eq : Eq InterfaceId
interface_eq = record { same = same_interface; same_iff = same_interface_iff }

-- `#[derive(PartialEq)]` of `Ipv4Address`: the lifetimes count too, unlike `same_identity`.
abbrev pub same_address : Ipv4Address → Ipv4Address → Bool
same_address a b =
    eqb a.ip b.ip
    && eqb a.prefix_len b.prefix_len
    && a.valid_lft == b.valid_lft
    && a.preferred_lft == b.preferred_lft

abbrev pub same_diagnostic : Diagnostic → Diagnostic → Bool
same_diagnostic a b = a.target == b.target && a.field == b.field && a.message == b.message

same_diagnostic_sound : (a b : Diagnostic) → same_diagnostic a b ≡ true → a ≡ b
same_diagnostic_sound a b h =
    let (h₁, m) = &&_split _ (a.message == b.message) h in
    let (t, f) = &&_split (a.target == b.target) (a.field == b.field) h₁ in
    λ k. record {
      target = (same_option_iff a.target b.target).0 t k;
      field = (same_option_iff a.field b.field).0 f k;
      message = (eq_iff a.message b.message).0 m k;
    }

same_diagnostic_refl : (a : Diagnostic) → same_diagnostic a a ≡ true
same_diagnostic_refl a = ground (
  arith,
  (same_option_iff a.target a.target).1 refl,
  (same_option_iff a.field a.field).1 refl,
  (eq_iff a.message a.message).1 refl,
)

pub same_diagnostic_iff : (a b : Diagnostic) → (same_diagnostic a b ≡ true) ↔ (a ≡ b)
same_diagnostic_iff a b = (
  same_diagnostic_sound a b,
  λ e. subst (λ x. same_diagnostic a x ≡ true) e (same_diagnostic_refl a),
)

instance abbrev pub diagnostic_eq : Eq Diagnostic
diagnostic_eq = record { same = same_diagnostic; same_iff = same_diagnostic_iff }

pub same_identity_refl : (a : Ipv4Address) → same_identity a a ≡ true
unfolding same_identity
same_identity_refl a = ground arith
