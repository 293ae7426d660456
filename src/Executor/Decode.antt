-- ===== src/Executor/Decode.antt =====
-- `decode`: which write an operation of the plan stands for. `none` is a read-only field assignment,
-- which is skipped.
pub mod Writable
use netfyr.Base.{
  ℕ, ◌^◌, String, not, Option, none, some, List, [], ◌∷◌, map, if◌then◌else◌, ltb, Result, ok, err,
  is_none, unwrap_or,
}
use netfyr.Base.Equality.{◌==◌, string_eq}
use netfyr.Base.Text.{◌<>◌, split_once, join}
use netfyr.Value.{IpAddr, Value, u64}
use netfyr.Value.Map.{insert}
use netfyr.Device.{State, kernel, new_state}
use netfyr.Plan.{
  OperationKind, set_mtu, set_enabled, add_ipv4, remove_ipv4, replace_ipv4, set_field, add_entity,
  remove_entity, validate_address, address_error_text, group,
}
use netfyr.Schema.Types.{FieldInfo, validation_error_text, ValidationError}
use netfyr.Schema.Registry.{SchemaRegistry, field_info, validate_writable}
use netfyr.Report.{BackendError, backend_error, unsupported_operation}

abbrev unsupported : {A : Type 0} → String → Result A BackendError
unsupported message = err (backend_error unsupported_operation message)

-- The match on `(field, value)` for a writable field.
unfoldable pub assignment : String → Value → Result OperationKind BackendError
assignment field (u64 mtu) =
    if field == "mtu"
    then (if ltb mtu (2 ^ 32) then ok (set_mtu mtu) else unsupported "MTU overflows u32")
    else unsupported ("unsupported assignment to " <> field <> "; use explicit address operations")
assignment field (Value.bool enabled) =
    if field == "enabled"
    then ok (set_enabled enabled)
    else unsupported ("unsupported assignment to " <> field <> "; use explicit address operations")
assignment field other =
    unsupported ("unsupported assignment to " <> field <> "; use explicit address operations")

abbrev pub as_write : Result OperationKind BackendError → Result (Option OperationKind) BackendError
as_write (ok kind) = ok (some kind)
as_write (err e) = err e

-- The assignment, by what the schema says of the field.
unfoldable pub decode_known :
    Option FieldInfo → String → Value → Result (Option OperationKind) BackendError
decode_known none field value = unsupported ("unknown field " <> field)
decode_known (some info) field value =
    if not info.writable then ok none else as_write (assignment field value)

module _ (parse_addr : String → Option IpAddr) (schema : SchemaRegistry) where
  unfoldable pub decode_field : String → Value → Result (Option OperationKind) BackendError
  decode_field field value =
      let (fragment, name) = unwrap_or (split_once b'.' field) ("base", field) in
      decode_known (field_info schema fragment name) field value

  -- The first match of `decode`.
  unfoldable pub decode_kind : OperationKind → Result (Option OperationKind) BackendError
  decode_kind (set_field field value) = decode_field field value
  decode_kind add_entity = unsupported "whole-interface lifecycle operations are not supported"
  decode_kind remove_entity = unsupported "whole-interface lifecycle operations are not supported"
  decode_kind other = ok (some other)

  -- The state that `decode` validates an MTU with.
  abbrev pub mtu_state : ℕ → State
  mtu_state mtu = record (new_state kernel) {
    fields = insert "mtu" (u64 mtu) (new_state kernel).fields;
  }

  abbrev reject_errors : List ValidationError → Result (Unit {0}) BackendError
  reject_errors [] = ok tt
  reject_errors (e ∷ es) = unsupported (join "; " (map validation_error_text (e ∷ es)))

  -- The second match of `decode`: the check of the decoded operation.
  unfoldable pub check_decoded : OperationKind → Result (Unit {0}) BackendError
  check_decoded (set_mtu mtu) = reject_errors (validate_writable parse_addr schema (mtu_state mtu))
  check_decoded (add_ipv4 addr) = elim (validate_address addr) [
    | ok _ ↦ ok tt
    | err reason ↦ unsupported (address_error_text reason)
  ]
  check_decoded (replace_ipv4 addr) = elim (validate_address addr) [
    | ok _ ↦ ok tt
    | err reason ↦ unsupported (address_error_text reason)
  ]
  check_decoded (remove_ipv4 addr) =
      if is_none (group addr) then unsupported "IPv4 prefix length exceeds 32" else ok tt
  check_decoded other = ok tt

  abbrev pub accept :
      OperationKind → Result (Unit {0}) BackendError → Result (Option OperationKind) BackendError
  accept decoded (ok _) = ok (some decoded)
  accept decoded (err e) = err e

  unfoldable pub decode_result :
      Result (Option OperationKind) BackendError → Result (Option OperationKind) BackendError
  decode_result (err e) = err e
  decode_result (ok none) = ok none
  decode_result (ok (some decoded)) = accept decoded (check_decoded decoded)

  unfoldable pub decode : OperationKind → Result (Option OperationKind) BackendError
  decode kind = decode_result (decode_kind kind)
