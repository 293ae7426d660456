-- ===== src/Executor/Decode/Writable.antt =====
-- What `decode` gives.
use netfyr.Base.{
  ◌≤◌, ◌≡◌, refl, String, true, not, Option, none, some, Result, ok, err, ltb, subst, Bool-cases,
  inl, inr, arith, ◌^◌,
}
use netfyr.Base.Equality.{◌==◌, string_eq}
use netfyr.Value.{IpAddr, Value, u64, i64}
use netfyr.Plan.{
  OperationKind, set_mtu, set_enabled, add_ipv4, remove_ipv4, replace_ipv4, set_field, add_entity,
  remove_entity, validate_address, group, masked,
}
use netfyr.Schema.Types.{FieldInfo}
use netfyr.Schema.Registry.{SchemaRegistry}
use netfyr.Report.{BackendError}
use netfyr.Executor.Project.Effect.{is_write}
use netfyr.Executor.Decode.{
  assignment, as_write, decode_known, decode_field, decode_kind, check_decoded, accept,
  decode_result, decode,
}

-- A write, if the result has one.
abbrev Assigned : Result OperationKind BackendError → Type 0
Assigned (ok kind) = is_write kind ≡ true
Assigned (err e) = Unit

abbrev Decoded : Result (Option OperationKind) BackendError → Type 0
Decoded (ok none) = Unit
Decoded (ok (some kind)) = is_write kind ≡ true
Decoded (err e) = Unit

abbrev pub PrefixFits : OperationKind → Type 0
PrefixFits (add_ipv4 a) = a.prefix_len ≤ 32
PrefixFits (remove_ipv4 a) = a.prefix_len ≤ 32
PrefixFits (replace_ipv4 a) = a.prefix_len ≤ 32
PrefixFits kind = Unit

assignment-Assigned : (field : String) (value : Value) → Assigned (assignment field value)
unfolding assignment
assignment-Assigned field (u64 m) = elim (Bool-cases (field == "mtu")) [
  | inl mtu ↦
      rw mtu
        (elim (Bool-cases (ltb m (2 ^ 32))) [ inl small ↦ rw small refl | inr large ↦ rw large tt ])
  | inr other ↦ rw other tt
]
assignment-Assigned field (Value.bool b) = elim (Bool-cases (field == "enabled")) [
  | inl enabled ↦ rw enabled refl
  | inr other ↦ rw other tt
]
assignment-Assigned field (Value.string s) = tt
assignment-Assigned field (i64 n) = tt
assignment-Assigned field (Value.ip_addr a) = tt
assignment-Assigned field (Value.ip_network a p) = tt
assignment-Assigned field (Value.array l) = tt
assignment-Assigned field (Value.object l) = tt

as_write-Decoded : (r : Result OperationKind BackendError) → Assigned r → Decoded (as_write r)
as_write-Decoded (ok kind) h = h
as_write-Decoded (err e) h = tt

known-Decoded :
    (info : Option FieldInfo) (field : String) (value : Value)
    → Decoded (decode_known info field value)
unfolding decode_known
known-Decoded none field value = tt
known-Decoded (some info) field value = elim (Bool-cases (not info.writable)) [
  | inl fixed ↦ rw fixed tt
  | inr writable ↦
      rw writable (as_write-Decoded (assignment field value) (assignment-Assigned field value))
]

module _ (pa : String → Option IpAddr) (schema : SchemaRegistry) where
  field-Decoded : (field : String) (value : Value) → Decoded (decode_field pa schema field value)
  unfolding decode_field
  field-Decoded field value = known-Decoded _ field value

  kind-Decoded : (kind : OperationKind) → Decoded (decode_kind pa schema kind)
  unfolding decode_kind
  kind-Decoded (set_mtu m) = refl
  kind-Decoded (set_enabled b) = refl
  kind-Decoded (add_ipv4 a) = refl
  kind-Decoded (remove_ipv4 a) = refl
  kind-Decoded (replace_ipv4 a) = refl
  kind-Decoded (set_field f v) = field-Decoded f v
  kind-Decoded add_entity = tt
  kind-Decoded remove_entity = tt

  checked-PrefixFits :
      (kind : OperationKind) → check_decoded pa schema kind ≡ ok tt → PrefixFits kind
  unfolding check_decoded validate_address group masked
  checked-PrefixFits (add_ipv4 b) h = ground arith
  checked-PrefixFits (remove_ipv4 b) h = ground arith
  checked-PrefixFits (replace_ipv4 b) h = ground arith
  checked-PrefixFits (set_mtu m) h = tt
  checked-PrefixFits (set_enabled b) h = tt
  checked-PrefixFits (set_field f v) h = tt
  checked-PrefixFits add_entity h = tt
  checked-PrefixFits remove_entity h = tt

  -- What the caller may rely on.
  abbrev Usable : OperationKind → Type 0
  Usable kind = (is_write kind ≡ true) × PrefixFits kind

  accepted-Usable :
      (decoded kind : OperationKind) (c : Result (Unit {0}) BackendError)
      → is_write decoded ≡ true
      → check_decoded pa schema decoded ≡ c
      → accept pa schema decoded c ≡ ok (some kind)
      → Usable kind
  accepted-Usable decoded kind (ok tt) w e h =
      let same : decoded ≡ kind = cc in subst Usable same (w, checked-PrefixFits decoded e)
  accepted-Usable decoded kind (err x) w e h = cc

  result-Usable :
      (r : Result (Option OperationKind) BackendError) (kind : OperationKind)
      → Decoded r
      → decode_result pa schema r ≡ ok (some kind)
      → Usable kind
  unfolding decode_result
  result-Usable (err e) kind d h = cc
  result-Usable (ok none) kind d h = cc
  result-Usable (ok (some decoded)) kind d h =
      accepted-Usable decoded kind (check_decoded pa schema decoded) d refl h

-- What `decode` gives is a write of the MTU, of the enabled flag or of an address, never an
-- assignment or an operation on a whole interface, and the prefix of its address has at most 32 bits.
pub decode-is_write :
    (pa : String → Option IpAddr) (schema : SchemaRegistry) (operation kind : OperationKind)
    → decode pa schema operation ≡ ok (some kind)
    → (is_write kind ≡ true) × PrefixFits kind
unfolding decode
decode-is_write pa schema operation kind h =
    result-Usable pa schema (decode_kind pa schema operation) kind
      (kind-Decoded pa schema operation) h
