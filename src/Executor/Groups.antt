-- ===== src/Executor/Groups.antt =====
-- Prefix groups that the plan's preconditions establish, and their check against the device.
use netfyr.Base.{
  ℕ, ◌-◌, Bool, true, false, not, ◌&&◌, Option, none, some, List, if◌then◌else◌, any, keep, length,
  zip_all, eqb, Result, ok, err, ◌≡◌, ◌↔◌, refl, &&_split, subst, arith, eqb_iff,
}
use netfyr.Base.Equality.{Eq, ◌==◌, nat_eq, option_eq, pair_eq}
use netfyr.Base.Dict.{Dict, get, or_insert}
use netfyr.Plan.{
  InterfaceId, Ipv4Address, AddressObservation, DeviceObservation, AddressGroupPrecondition,
  Operation, OperationKind, remove_ipv4, replace_ipv4, ipv4_address, group, same_identity,
}
use netfyr.Plan.Identity.{interface_eq, same_interface, same_interface_iff}
use netfyr.Report.{BackendError, backend_error, unsupported_operation, query_failed, stale_state}
use netfyr.Executor.Lifetime.{address_matches}

pub record ExpectedGroup : Type 0 where
  pub addresses : List AddressObservation
  pub observed_at : ℕ

pub record GroupKey : Type 0 where
  pub target : InterfaceId
  pub network : ℕ
  pub prefix_len : ℕ

abbrev pub same_key : GroupKey → GroupKey → Bool
same_key a b =
    same_interface a.target b.target && eqb a.network b.network && eqb a.prefix_len b.prefix_len

same_key_sound : (a b : GroupKey) → same_key a b ≡ true → a ≡ b
same_key_sound a b h =
    let (h₁, p) = &&_split _ (eqb a.prefix_len b.prefix_len) h in
    let (t, n) = &&_split (same_interface a.target b.target) (eqb a.network b.network) h₁ in
    λ k. record {
      target = (same_interface_iff a.target b.target).0 t k;
      network = (eqb_iff a.network b.network).0 n k;
      prefix_len = (eqb_iff a.prefix_len b.prefix_len).0 p k;
    }

same_key_refl : (a : GroupKey) → same_key a a ≡ true
same_key_refl a = ground (arith, (same_interface_iff a.target a.target).1 refl)

pub same_key_iff : (a b : GroupKey) → (same_key a b ≡ true) ↔ (a ≡ b)
same_key_iff a b = (same_key_sound a b, λ e. subst (λ x. same_key a x ≡ true) e (same_key_refl a))

instance abbrev pub key_eq : Eq GroupKey
key_eq = record { same = same_key; same_iff = same_key_iff }

abbrev pub Groups : Type 0
Groups = Dict GroupKey ExpectedGroup

-- `GroupKey::new`
unfoldable pub group_key : Operation → Ipv4Address → Result GroupKey BackendError
group_key op addr = elim (group addr) [
  | none ↦ err (backend_error unsupported_operation "invalid prefix")
  | some (network, prefix_len) ↦
      ok (record { target = op.target; network = network; prefix_len = prefix_len })
]

-- `GroupKey::contains`
unfoldable pub in_group : GroupKey → Ipv4Address → Bool
in_group key address = group address == some (key.network, key.prefix_len)

unfoldable pub group_addresses : DeviceObservation → GroupKey → List AddressObservation
group_addresses device key = keep (λ e. in_group key e.address) device.addresses

unfoldable pub group_matches : ExpectedGroup → List AddressObservation → ℕ → Bool
group_matches expected actual now =
    let elapsed = now - expected.observed_at in
    eqb (length expected.addresses) (length actual)
    && zip_all (λ old new. address_matches old new elapsed) expected.addresses actual

abbrev pub is_destructive : OperationKind → Bool
is_destructive (remove_ipv4 a) = true
is_destructive (replace_ipv4 a) = true
is_destructive other = false

-- The match on `groups.get(&key)`.
unfoldable pub check_group :
    Option ExpectedGroup
    → GroupKey
    → DeviceObservation
    → OperationKind
    → Ipv4Address
    → Result (Unit {0}) BackendError
check_group (some expected) key device kind addr =
    if not (group_matches expected (group_addresses device key) device.observed_at)
    then err (
        backend_error stale_state
          "address group membership, ordering or attributes changed; obtain a fresh plan")
    else ok tt
check_group none key device kind addr =
    if is_destructive kind && any (λ e. same_identity e.address addr) device.addresses
    then err (
        backend_error stale_state
          "destructive address operation requires a complete group precondition")
    else ok tt

abbrev pub to_expected : AddressGroupPrecondition → ExpectedGroup
to_expected p = record { addresses = p.addresses; observed_at = p.observed_at }

-- The check with the operation's key: its own precondition establishes the group, unless an earlier
-- operation did. The groups come back on the error paths too.
unfoldable pub validate_key :
    Option AddressGroupPrecondition
    → GroupKey
    → DeviceObservation
    → OperationKind
    → Ipv4Address
    → Groups
    → Result (Unit {0}) BackendError × Groups
validate_key none key device kind addr groups =
    (check_group (get key groups) key device kind addr, groups)
validate_key (some precondition) key device kind addr groups =
    if any (λ e. not (in_group key e.address)) precondition.addresses
    then (
      err (backend_error stale_state "address precondition describes a different prefix group"),
      groups,
    )
    else let groups' = or_insert key (to_expected precondition) groups in
      (check_group (get key groups') key device kind addr, groups')

unfoldable pub validate_address_group :
    Operation
    → DeviceObservation
    → OperationKind
    → Option Ipv4Address
    → Groups
    → Result (Unit {0}) BackendError × Groups
validate_address_group op device kind none groups = (ok tt, groups)
validate_address_group op device kind (some addr) groups =
    if not device.addresses_complete
    then (err (backend_error query_failed "IPv4 inventory is incomplete"), groups)
    else elim (group_key op addr) [
      | err e ↦ (err e, groups)
      | ok key ↦ validate_key op.address_group key device kind addr groups
    ]

unfoldable pub validate_group :
    Operation → DeviceObservation → OperationKind → Groups → Result (Unit {0}) BackendError × Groups
validate_group op device kind groups =
    validate_address_group op device kind (ipv4_address kind) groups
