-- ===== src/Apply/Tests.antt =====
-- The theorems on the preparation at an observation of one interface.
use netfyr.Base.{
  ℕ, ◌≡◌, refl, Bool, true, false, Option, none, some, List, [], ◌∷◌, ok, All, length, String,
}
use netfyr.Value.{IpAddr, v4, v6, Value, u64, entry, end}
use netfyr.Device.{State, Match, any_device, kernel, new_state}
use netfyr.Schema.Embedded.{new_registry}
use netfyr.Schema.Removal.{remove_read_only_from_map}
use netfyr.Schema.Removed.{remove_read_only_from_map-agrees}
use netfyr.Schema.Walk.{walk_map}
use netfyr.Schema.Embedded.{base_root}
use netfyr.Apply.{
  by_name, by_mac, prepare_for_apply_with_registry, ApplyOutcome, is_observation, dropped,
}
use netfyr.Apply.Again.{NoReadOnlyKey, prepare_for_apply-again}
use netfyr.Apply.Prepared.{IsPrepared, prepare_for_apply-prepares, prepare_for_apply-unchanged}
use netfyr.Samples.{parse_one, no_text}

abbrev observed_state : State
observed_state = record (new_state kernel) {
  device_type = "ethernet";
  fields =
      entry "name" (Value.string "eth0")
        (entry "mtu" (u64 1500) (entry "carrier" (Value.bool true) end));
}

abbrev prepared_state : State
prepared_state = record (new_state kernel) {
  match_spec = record any_device { name = some "eth0"; device_type = some "ethernet" };
  fields = entry "mtu" (u64 1500) end;
}

abbrev outcome : ApplyOutcome
outcome = record { states = prepared_state ∷ []; warnings = dropped "carrier" ∷ [] }

prepare_one :
    prepare_for_apply_with_registry parse_one no_text (observed_state ∷ []) by_name new_registry
    ≡ ok outcome
unfolding netfyr.Apply.warning_text netfyr.Apply.is_observation netfyr.Apply.reset_match
    netfyr.Apply.select_type netfyr.Apply.collect_from netfyr.Apply.collect_validation_errors
    netfyr.Apply.prepare_with netfyr.Apply.prepare_state netfyr.Apply.prepare_from
    netfyr.Apply.prepare_for_apply_with_registry netfyr.Apply.prepare_for_apply
    netfyr.Schema.Removal.remove_inside netfyr.Schema.Removal.remove_from_fragment
    netfyr.Schema.Removal.remove_field netfyr.Schema.Removal.remove_fields
    netfyr.Schema.Removal.remove_read_only_fields netfyr.Schema.Registry.derive_fields
    netfyr.Schema.Registry.sort_keys netfyr.Schema.Registry.make_fragment
    netfyr.Schema.Registry.field_info netfyr.Schema.Registry.fragment_fields
    netfyr.Schema.Registry.implied_device_type netfyr.Schema.Registry.device_type_errors
    netfyr.Schema.Registry.trigger_errors netfyr.Schema.Registry.fragment_errors_at
    netfyr.Schema.Registry.all_errors netfyr.Schema.Registry.validate_inner
    netfyr.Schema.Registry.validate netfyr.Schema.Registry.validate_writable
    netfyr.Schema.Walk.value_type netfyr.Schema.Walk.type_accepts netfyr.Schema.Walk.integer_errors
    netfyr.Schema.Walk.enum_errors netfyr.Schema.Walk.unknown_errors
    netfyr.Schema.Walk.missing_errors netfyr.Schema.Walk.is_ipv4_cidr
    netfyr.Schema.Walk.format_errors netfyr.Schema.Walk.kind_errors netfyr.Schema.Walk.checked
    netfyr.Schema.Walk.under netfyr.Schema.Walk.with_read_only netfyr.Schema.Walk.walk_node
    netfyr.Schema.Walk.walk_property netfyr.Schema.Walk.walk_map netfyr.Schema.Types.field_type_text
    netfyr.Schema.Types.validation_error_text netfyr.Schema.Types.semantic_type
    netfyr.Schema.Types.expected_type netfyr.Schema.Types.validate_schema_node
    netfyr.Schema.Types.join_path netfyr.Schema.Format.parse_u8
    netfyr.Schema.Format.parse_ip_network netfyr.Schema.Embedded.new_registry
    netfyr.Device.default_priority netfyr.Device.policy_of netfyr.Device.field_matches
    netfyr.Device.mac_matches netfyr.Device.matches netfyr.Device.is_empty_match
    netfyr.Device.new_state netfyr.Device.content_eq netfyr.Value.same_value netfyr.Value.display
    netfyr.Base.Text.decimal netfyr.Base.Text.split_once netfyr.Base.Text.join
    netfyr.Base.Text.eq_ignore_ascii_case
prepare_one = refl

outcome-IsPrepared : All (IsPrepared parse_one no_text new_registry) outcome.states
outcome-IsPrepared =
    (prepare_for_apply-prepares parse_one no_text new_registry (observed_state ∷ []) by_name outcome
      prepare_one).1

outcome_settled : All (λ s. is_observation new_registry s ≡ false) outcome.states
unfolding netfyr.Apply.warning_text netfyr.Apply.is_observation netfyr.Apply.reset_match
    netfyr.Apply.select_type netfyr.Apply.collect_from netfyr.Apply.collect_validation_errors
    netfyr.Apply.prepare_with netfyr.Apply.prepare_state netfyr.Apply.prepare_from
    netfyr.Apply.prepare_for_apply_with_registry netfyr.Apply.prepare_for_apply
    netfyr.Schema.Removal.remove_inside netfyr.Schema.Removal.remove_from_fragment
    netfyr.Schema.Removal.remove_field netfyr.Schema.Removal.remove_fields
    netfyr.Schema.Removal.remove_read_only_fields netfyr.Schema.Registry.derive_fields
    netfyr.Schema.Registry.sort_keys netfyr.Schema.Registry.make_fragment
    netfyr.Schema.Registry.field_info netfyr.Schema.Registry.fragment_fields
    netfyr.Schema.Registry.implied_device_type netfyr.Schema.Registry.device_type_errors
    netfyr.Schema.Registry.trigger_errors netfyr.Schema.Registry.fragment_errors_at
    netfyr.Schema.Registry.all_errors netfyr.Schema.Registry.validate_inner
    netfyr.Schema.Registry.validate netfyr.Schema.Registry.validate_writable
    netfyr.Schema.Walk.value_type netfyr.Schema.Walk.type_accepts netfyr.Schema.Walk.integer_errors
    netfyr.Schema.Walk.enum_errors netfyr.Schema.Walk.unknown_errors
    netfyr.Schema.Walk.missing_errors netfyr.Schema.Walk.is_ipv4_cidr
    netfyr.Schema.Walk.format_errors netfyr.Schema.Walk.kind_errors netfyr.Schema.Walk.checked
    netfyr.Schema.Walk.under netfyr.Schema.Walk.with_read_only netfyr.Schema.Walk.walk_node
    netfyr.Schema.Walk.walk_property netfyr.Schema.Walk.walk_map netfyr.Schema.Types.field_type_text
    netfyr.Schema.Types.validation_error_text netfyr.Schema.Types.semantic_type
    netfyr.Schema.Types.expected_type netfyr.Schema.Types.validate_schema_node
    netfyr.Schema.Types.join_path netfyr.Schema.Format.parse_u8
    netfyr.Schema.Format.parse_ip_network netfyr.Schema.Embedded.new_registry
    netfyr.Device.default_priority netfyr.Device.policy_of netfyr.Device.field_matches
    netfyr.Device.mac_matches netfyr.Device.matches netfyr.Device.is_empty_match
    netfyr.Device.new_state netfyr.Device.content_eq netfyr.Value.same_value netfyr.Value.display
    netfyr.Base.Text.decimal netfyr.Base.Text.split_once netfyr.Base.Text.join
    netfyr.Base.Text.eq_ignore_ascii_case
outcome_settled = (refl, tt)

prepare_for_apply-prepares_example :
    (length outcome.states ≡ 1) × All (IsPrepared parse_one no_text new_registry) outcome.states
prepare_for_apply-prepares_example =
    prepare_for_apply-prepares parse_one no_text new_registry (observed_state ∷ []) by_name outcome
      prepare_one

prepare_for_apply-unchanged_example :
    prepare_for_apply_with_registry parse_one no_text outcome.states by_mac new_registry
    ≡ ok (record { states = outcome.states; warnings = [] })
prepare_for_apply-unchanged_example =
    prepare_for_apply-unchanged parse_one no_text new_registry outcome.states by_mac outcome_settled
      outcome-IsPrepared

outcome_plain : All (NoReadOnlyKey new_registry) outcome.states
unfolding netfyr.Apply.warning_text netfyr.Apply.is_observation netfyr.Apply.reset_match
    netfyr.Apply.select_type netfyr.Apply.collect_from netfyr.Apply.collect_validation_errors
    netfyr.Apply.prepare_with netfyr.Apply.prepare_state netfyr.Apply.prepare_from
    netfyr.Apply.prepare_for_apply_with_registry netfyr.Apply.prepare_for_apply
    netfyr.Schema.Removal.remove_inside netfyr.Schema.Removal.remove_from_fragment
    netfyr.Schema.Removal.remove_field netfyr.Schema.Removal.remove_fields
    netfyr.Schema.Removal.remove_read_only_fields netfyr.Schema.Registry.derive_fields
    netfyr.Schema.Registry.sort_keys netfyr.Schema.Registry.make_fragment
    netfyr.Schema.Registry.field_info netfyr.Schema.Registry.fragment_fields
    netfyr.Schema.Registry.implied_device_type netfyr.Schema.Registry.device_type_errors
    netfyr.Schema.Registry.trigger_errors netfyr.Schema.Registry.fragment_errors_at
    netfyr.Schema.Registry.all_errors netfyr.Schema.Registry.validate_inner
    netfyr.Schema.Registry.validate netfyr.Schema.Registry.validate_writable
    netfyr.Schema.Walk.value_type netfyr.Schema.Walk.type_accepts netfyr.Schema.Walk.integer_errors
    netfyr.Schema.Walk.enum_errors netfyr.Schema.Walk.unknown_errors
    netfyr.Schema.Walk.missing_errors netfyr.Schema.Walk.is_ipv4_cidr
    netfyr.Schema.Walk.format_errors netfyr.Schema.Walk.kind_errors netfyr.Schema.Walk.checked
    netfyr.Schema.Walk.under netfyr.Schema.Walk.with_read_only netfyr.Schema.Walk.walk_node
    netfyr.Schema.Walk.walk_property netfyr.Schema.Walk.walk_map netfyr.Schema.Types.field_type_text
    netfyr.Schema.Types.validation_error_text netfyr.Schema.Types.semantic_type
    netfyr.Schema.Types.expected_type netfyr.Schema.Types.validate_schema_node
    netfyr.Schema.Types.join_path netfyr.Schema.Format.parse_u8
    netfyr.Schema.Format.parse_ip_network netfyr.Schema.Embedded.new_registry
    netfyr.Device.default_priority netfyr.Device.policy_of netfyr.Device.field_matches
    netfyr.Device.mac_matches netfyr.Device.matches netfyr.Device.is_empty_match
    netfyr.Device.new_state netfyr.Device.content_eq netfyr.Value.same_value netfyr.Value.display
    netfyr.Base.Text.decimal netfyr.Base.Text.split_once netfyr.Base.Text.join
    netfyr.Base.Text.eq_ignore_ascii_case
outcome_plain = (refl, tt)

prepare_for_apply-again_example :
    prepare_for_apply_with_registry parse_one no_text outcome.states by_mac new_registry
    ≡ ok (record { states = outcome.states; warnings = [] })
prepare_for_apply-again_example =
    prepare_for_apply-again new_registry parse_one no_text (observed_state ∷ []) by_name by_mac
      outcome prepare_one outcome_plain

remove_read_only_from_map-agrees_example :
    walk_map parse_one "base" true base_root
      (remove_read_only_from_map base_root observed_state.fields "").0
      ""
      []
    ≡ walk_map parse_one "base" false base_root
        (remove_read_only_from_map base_root observed_state.fields "").0
        ""
        []
remove_read_only_from_map-agrees_example =
    remove_read_only_from_map-agrees parse_one "base" base_root observed_state.fields "" "" []
      (tt, (tt, (tt, tt)))
