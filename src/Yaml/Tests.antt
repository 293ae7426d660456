-- ===== src/Yaml/Tests.antt =====
-- The round trips at a state with an address, and numbers that are integers.
use netfyr.Base.{
  ℕ, zero, suc, ◌≡◌, ◌≢◌, refl, ap, arith, ◌<◌, ◌/◌, ◌%◌, eqb, eqb_iff, Bool-cases, if◌then◌else◌,
  Bool, false, Option, none, some, List, [], ◌∷◌, Result, ok, err, String, inl, inr, ◌+◌, ◌*◌, ◌^◌,
}
use Prim.Native.Char.{code}
use netfyr.Base.Text.{split_once}
use netfyr.Schema.Format.Printed.{IsAddress, KeepsAddresses}
use netfyr.Base.Int.{ℤ, pos, negsuc}
use netfyr.Value.{IpAddr, v4, v6, Value, u64, i64, Items, nil, item, Entries, entry, end}
use netfyr.Device.{State, Match, any_device, static, new_state}
use netfyr.Schema.Embedded.{new_registry}
use netfyr.Yaml.{
  Numbers, Yaml, YamlEntries, mapping, string, number, pair, stop, value_to_model, mapping_to_state,
  parse_match,
}
use netfyr.Yaml.Write.{model_to_value, state_to_mapping}
use netfyr.Schema.Routing.{top_level_schema}
use netfyr.Yaml.RoundTrip.{IsTold, KeepsIntegers, value_to_model-model_to_value}
use netfyr.Yaml.RoundTrip.States.{IsTellable}
use netfyr.Yaml.Decode.{decode_yaml, policy}
use netfyr.Yaml.Policy.{decode_yaml-prepare_for_apply}
use netfyr.Apply.{prepare_for_apply_with_registry, by_name}
use netfyr.Samples.{parse_one, integers}

abbrev show_one : IpAddr → String
show_one a = "10.0.0.1"

-- An address in binary, the lowest digit first, after the number of its version.
abbrev binary : ℕ → ℕ → String
binary zero n = ""
binary (suc k) n =
    let rest = binary k (n / 2) in
    if eqb (n % 2) 1 then String.◌∷◌ "1" rest else String.◌∷◌ "0" rest

abbrev read_binary : String → ℕ
read_binary String.[] = 0
read_binary (String.◌∷◌ c s) =
    let rest = read_binary s in if eqb (code c) b'1' then 1 + rest * 2 else rest * 2

abbrev show_binary : IpAddr → String
show_binary (v4 n) = String.◌∷◌ "4" (binary 32 n)
show_binary (v6 n) = String.◌∷◌ "6" (binary 128 n)

abbrev parse_binary : String → Option IpAddr
parse_binary String.[] = none
parse_binary (String.◌∷◌ c s) =
    if eqb (code c) b'4' then some (v4 (read_binary s)) else some (v6 (read_binary s))

read_binary-binary : (k n : ℕ) → n < 2 ^ k → read_binary (binary k n) ≡ n
read_binary-binary zero n h = omega arith
read_binary-binary (suc k) n h =
    let rest = read_binary-binary k (n / 2) (omega arith) in
    elim (Bool-cases (eqb (n % 2) 1)) [
      | inl odd ↦ rw odd (let e : n % 2 ≡ 1 = (eqb_iff (n % 2) 1).0 odd in omega (arith, rest, e))
      | inr even ↦ rw even (ground (arith, rest))
    ]

split_once-binary : (k n : ℕ) → split_once b'/' (binary k n) ≡ none
unfolding split_once
split_once-binary zero n = refl
split_once-binary (suc k) n =
    let rest = split_once-binary k (n / 2) in
    elim (Bool-cases (eqb (n % 2) 1)) [
      | inl odd ↦ rw (odd, rest) refl
      | inr even ↦ rw (even, rest) refl
    ]

abbrev own_text : (a : IpAddr) → IsAddress a → parse_binary (show_binary a) ≡ some a
own_text (v4 n) h = ap (λ m. some (v4 m)) (read_binary-binary 32 n h)
own_text (v6 n) h = ap (λ m. some (v6 m)) (read_binary-binary 128 n h)

no_slash_in : (a : IpAddr) → split_once b'/' (show_binary a) ≡ none
unfolding split_once
no_slash_in (v4 n) = rw (split_once-binary 32 n) refl
no_slash_in (v6 n) = rw (split_once-binary 128 n) refl

binary-KeepsAddresses : KeepsAddresses parse_binary show_binary
binary-KeepsAddresses = record { parsed = own_text; no_slash = λ a h. no_slash_in a }

integers-KeepsIntegers : KeepsIntegers integers
integers-KeepsIntegers = record {
  unsigned = λ n. refl;
  not_unsigned = λ k. refl;
  signed = λ k. refl;
}

abbrev one_address : Value
one_address = Value.object (
    entry "addresses"
      (Value.array
        (item (Value.object (entry "ip" (Value.ip_network (v4 (10 * 2 ^ 24 + 1)) 24) end)) nil))
      end)

abbrev policy_state : State
policy_state = record (new_state (static "")) {
  match_spec = record any_device { name = some "eth0"; mac = some "aa:bb:cc:00:11:22" };
  fields = entry "mtu" (u64 1500) (entry "offset" (i64 (negsuc 4)) (entry "ipv4" one_address end));
}

policy_state-IsTellable :
    IsTellable integers parse_binary show_binary integers-KeepsIntegers binary-KeepsAddresses
      new_registry policy_state
unfolding netfyr.Yaml.parse_match_entries netfyr.Yaml.parse_match netfyr.Yaml.value_to_model
    netfyr.Yaml.read_entry netfyr.Yaml.read_entries netfyr.Yaml.mapping_to_state
    netfyr.Yaml.document_to_states netfyr.Yaml.from_yaml_with_registry
    netfyr.Yaml.Write.model_to_value netfyr.Yaml.Write.fields_to_value
    netfyr.Yaml.Write.state_to_mapping netfyr.Yaml.Write.states_to_document netfyr.Yaml.Write.render
    netfyr.Schema.Routing.top_level_schema netfyr.Schema.Routing.decode_string
    netfyr.Schema.Routing.field_string netfyr.Schema.Registry.derive_fields
    netfyr.Schema.Registry.sort_keys netfyr.Schema.Registry.make_fragment
    netfyr.Schema.Registry.field_info netfyr.Schema.Registry.fragment_fields
    netfyr.Schema.Registry.implied_device_type netfyr.Schema.Registry.device_type_errors
    netfyr.Schema.Registry.trigger_errors netfyr.Schema.Registry.fragment_errors_at
    netfyr.Schema.Registry.all_errors netfyr.Schema.Registry.validate_inner
    netfyr.Schema.Registry.validate netfyr.Schema.Registry.validate_writable
    netfyr.Schema.Types.field_type_text netfyr.Schema.Types.validation_error_text
    netfyr.Schema.Types.semantic_type netfyr.Schema.Types.expected_type
    netfyr.Schema.Types.validate_schema_node netfyr.Schema.Types.join_path
    netfyr.Schema.Format.parse_u8 netfyr.Schema.Format.parse_ip_network
    netfyr.Schema.Embedded.new_registry netfyr.Device.default_priority netfyr.Device.policy_of
    netfyr.Device.field_matches netfyr.Device.mac_matches netfyr.Device.matches
    netfyr.Device.is_empty_match netfyr.Device.new_state netfyr.Device.content_eq
    netfyr.Value.same_value netfyr.Value.display netfyr.Base.Text.decimal
    netfyr.Base.Text.split_once netfyr.Base.Text.join netfyr.Base.Text.eq_ignore_ascii_case
    netfyr.Base.Text.is_blank netfyr.Base.Text.has_infix
policy_state-IsTellable = record {
  is_static = refl;
  is_default = refl;
  unreserved = refl;
  told = (
    refl,
    tt,
    (refl, tt, (refl, (refl, ((refl, (refl, omega arith, omega arith), tt), tt), tt), tt)),
  );
  typed = inr refl;
}

ipv4_IsTold : IsTold parse_binary (top_level_schema new_registry "ipv4") one_address
ipv4_IsTold = let (a, b, (c, d, (e, here, f))) = policy_state-IsTellable.told in here

value_to_model-model_to_value_example :
    value_to_model integers parse_binary
      (model_to_value integers show_binary one_address (top_level_schema new_registry "ipv4"))
      (top_level_schema new_registry "ipv4")
    ≡ ok one_address
value_to_model-model_to_value_example =
    value_to_model-model_to_value integers parse_binary show_binary integers-KeepsIntegers
      binary-KeepsAddresses one_address (top_level_schema new_registry "ipv4") ipv4_IsTold

-- The document of an MTU for eth0.
abbrev mtu_document : Yaml ℤ
mtu_document = mapping (
    pair (string "match") (mapping (pair (string "name") (string "eth0") stop))
      (pair (string "mtu") (number (pos 1500)) stop))

abbrev mtu_state : State
mtu_state = record (new_state (static "")) {
  match_spec = record any_device { name = some "eth0" };
  fields = entry "mtu" (u64 1500) end;
}

abbrev read_mtu : String → Result (Yaml ℤ) String
read_mtu text = ok mtu_document

decode_mtu :
    decode_yaml parse_one new_registry integers read_mtu "mtu: 1500" policy ≡ ok (mtu_state ∷ [])
unfolding netfyr.Yaml.parse_match_entries netfyr.Yaml.parse_match netfyr.Yaml.value_to_model
    netfyr.Yaml.read_entry netfyr.Yaml.read_entries netfyr.Yaml.mapping_to_state
    netfyr.Yaml.document_to_states netfyr.Yaml.from_yaml_with_registry
    netfyr.Yaml.Write.model_to_value netfyr.Yaml.Write.fields_to_value
    netfyr.Yaml.Write.state_to_mapping netfyr.Yaml.Write.states_to_document netfyr.Yaml.Write.render
    netfyr.Yaml.Decode.as_observed netfyr.Yaml.Decode.check_state netfyr.Yaml.Decode.check_from
    netfyr.Yaml.Decode.check_states netfyr.Yaml.Decode.decode_yaml
    netfyr.Schema.Routing.top_level_schema netfyr.Schema.Routing.decode_string
    netfyr.Schema.Routing.field_string netfyr.Schema.Registry.derive_fields
    netfyr.Schema.Registry.sort_keys netfyr.Schema.Registry.make_fragment
    netfyr.Schema.Registry.field_info netfyr.Schema.Registry.fragment_fields
    netfyr.Schema.Registry.implied_device_type netfyr.Schema.Registry.device_type_errors
    netfyr.Schema.Registry.trigger_errors netfyr.Schema.Registry.fragment_errors_at
    netfyr.Schema.Registry.all_errors netfyr.Schema.Registry.validate_inner
    netfyr.Schema.Registry.validate netfyr.Schema.Registry.validate_writable
    netfyr.Schema.Walk.value_type netfyr.Schema.Walk.type_accepts netfyr.Schema.Walk.integer_errors
    netfyr.Schema.Walk.enum_errors netfyr.Schema.Walk.unknown_errors
    netfyr.Schema.Walk.missing_errors netfyr.Schema.Walk.is_ipv4_cidr
    netfyr.Schema.Walk.format_errors netfyr.Schema.Walk.kind_errors netfyr.Schema.Walk.checked
    netfyr.Schema.Walk.under netfyr.Schema.Walk.with_read_only netfyr.Schema.Walk.walk_node
    netfyr.Schema.Walk.walk_property netfyr.Schema.Walk.walk_map netfyr.Schema.Types.field_type_text
    netfyr.Schema.Types.validation_error_text netfyr.Schema.Types.semantic_type
    netfyr.Schema.Types.expected_type netfyr.Schema.Types.validate_schema_node
    netfyr.Schema.Types.join_path netfyr.Schema.Format.parse_u8
    netfyr.Schema.Format.parse_ip_network netfyr.Schema.Embedded.new_registry
    netfyr.Device.default_priority netfyr.Device.policy_of netfyr.Device.field_matches
    netfyr.Device.mac_matches netfyr.Device.matches netfyr.Device.is_empty_match
    netfyr.Device.new_state netfyr.Device.content_eq netfyr.Value.same_value netfyr.Value.display
    netfyr.Base.Text.decimal netfyr.Base.Text.split_once netfyr.Base.Text.join
    netfyr.Base.Text.eq_ignore_ascii_case netfyr.Base.Text.is_blank netfyr.Base.Text.has_infix
decode_mtu = refl

decode_yaml-prepare_for_apply_example :
    prepare_for_apply_with_registry parse_one show_one (mtu_state ∷ []) by_name new_registry
    ≡ ok (record { states = mtu_state ∷ []; warnings = [] })
decode_yaml-prepare_for_apply_example =
    decode_yaml-prepare_for_apply parse_one show_one new_registry integers read_mtu "mtu: 1500"
      by_name (mtu_state ∷ []) decode_mtu
