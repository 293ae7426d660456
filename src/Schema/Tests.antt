-- ===== src/Schema/Tests.antt =====
-- A refused schema node: its path leads through a field that is no object.
use netfyr.Base.{◌≡◌, refl, ok, err, String, ◌∷◌, [], List}
use netfyr.Schema.Types.{SchemaNode}
use netfyr.Schema.Embedded.{new_registry, mtu_node}
use netfyr.Schema.Extend.{add_schema_node}
use netfyr.Schema.Unextended.{add_schema_node-refused}

refused :
    add_schema_node new_registry "base" "mtu.speed" (ok mtu_node)
    ≡ (new_registry, err "schema path component 'mtu' is not an object")
unfolding netfyr.Schema.Extend.add_at netfyr.Schema.Extend.change_fragment
    netfyr.Schema.Extend.collides netfyr.Schema.Extend.add_node netfyr.Schema.Extend.add_schema_node
    netfyr.Schema.Registry.derive_fields netfyr.Schema.Registry.sort_keys
    netfyr.Schema.Registry.make_fragment netfyr.Schema.Registry.field_info
    netfyr.Schema.Registry.fragment_fields netfyr.Schema.Registry.implied_device_type
    netfyr.Schema.Registry.device_type_errors netfyr.Schema.Registry.trigger_errors
    netfyr.Schema.Registry.fragment_errors_at netfyr.Schema.Registry.all_errors
    netfyr.Schema.Registry.validate_inner netfyr.Schema.Registry.validate
    netfyr.Schema.Registry.validate_writable netfyr.Schema.Types.field_type_text
    netfyr.Schema.Types.validation_error_text netfyr.Schema.Types.semantic_type
    netfyr.Schema.Types.expected_type netfyr.Schema.Types.validate_schema_node
    netfyr.Schema.Types.join_path netfyr.Schema.Embedded.new_registry netfyr.Base.Text.decimal
    netfyr.Base.Text.split_once netfyr.Base.Text.join netfyr.Base.Text.eq_ignore_ascii_case
    netfyr.Base.Text.is_blank netfyr.Base.Text.has_infix netfyr.Base.Text.split
refused = refl

add_schema_node-refused_example : new_registry ≡ new_registry
add_schema_node-refused_example =
    add_schema_node-refused new_registry new_registry "base" "mtu.speed" (ok mtu_node)
      "schema path component 'mtu' is not an object" refused
