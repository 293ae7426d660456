-- ===== src/Schema/Embedded.antt =====
-- The embedded fragments, as parsed from crates/netfyr-state/schemas/*.json, and
-- `SchemaRegistry::new`.
use netfyr.Base.{Bool, true, false, none, some, [], ◌∷◌, ◌≡◌, refl, ok}
use netfyr.Base.Int.{pos}
use netfyr.Schema.Types.{
  FieldType, ipv4_cidr, SchemaNode, node, properties, last, prop, no_items, items, plain,
  no_properties, validate_schema_node,
}
use netfyr.Schema.Registry.{SchemaRegistry, make_fragment, field_info}

abbrev leaf : FieldType → Bool → SchemaNode
leaf t writable = node (plain t writable) no_properties no_items

abbrev pub mtu_node : SchemaNode
mtu_node =
    node
      (record (plain FieldType.integer true) {
        minimum = some (pos 68);
        maximum = some (pos 65535);
      })
      no_properties no_items

abbrev closed : SchemaNode → SchemaNode
closed (node k p i) = node (record k { additional_properties = some false }) p i

abbrev pub base_root : SchemaNode
base_root = closed (
    node (plain FieldType.object false)
      (properties (
        prop "type" (leaf FieldType.string false) (
          prop "name" (leaf FieldType.string false) (
            prop "mac" (leaf FieldType.string false) (
              prop "carrier" (leaf FieldType.boolean false) (
                prop "driver" (leaf FieldType.string false)
                  (prop "enabled" (leaf FieldType.boolean true) (prop "mtu" mtu_node last))))))))
      no_items)

abbrev cidr_node : SchemaNode
cidr_node =
    node (record (plain FieldType.string true) { format = some ipv4_cidr }) no_properties no_items

abbrev address_node : SchemaNode
address_node =
    node
      (record (plain FieldType.object false) {
        additional_properties = some false;
        required = some ("ip" ∷ []);
      })
      (properties (
        prop "ip" cidr_node (
          prop "valid_lft" (leaf FieldType.integer true)
            (prop "preferred_lft" (leaf FieldType.integer true) last))))
      no_items

abbrev pub ipv4_root : SchemaNode
ipv4_root = closed (
    node (plain FieldType.object false)
      (properties (
        prop "addresses" (node (plain FieldType.array true) no_properties (items address_node))
          last))
      no_items)

abbrev duplex_node : SchemaNode
duplex_node =
    node
      (record (plain FieldType.string false) {
        enum_values = some ("full" ∷ "half" ∷ "unknown" ∷ []);
      })
      no_properties no_items

abbrev pub ethernet_root : SchemaNode
ethernet_root =
    node
      (record (plain FieldType.object false) {
        additional_properties = some false;
        implied_device_type = some "ethernet";
      })
      (properties (
        prop "speed" (leaf FieldType.integer false)
          (prop "duplex" duplex_node (prop "autoneg" (leaf FieldType.boolean false) last))))
      no_items

-- `SchemaRegistry::new`
unfoldable pub new_registry : SchemaRegistry
unfolding make_fragment
new_registry = record {
  fragments =
      make_fragment "base" base_root none
      ∷ make_fragment "ipv4" ipv4_root (some "ipv4")
      ∷ make_fragment "ethernet" ethernet_root (some "ethernet")
      ∷ [];
}

-- The embedded roots pass the check that `parse_fragment` makes, so its panic is not reached.
pub embedded_nodes_valid :
    (validate_schema_node base_root ≡ ok tt)
    × (validate_schema_node ipv4_root ≡ ok tt)
    × (validate_schema_node ethernet_root ≡ ok tt)
unfolding validate_schema_node
embedded_nodes_valid = (refl, refl, refl)

pub field_info-mtu :
    field_info new_registry "base" "mtu"
    ≡ some (record { writable = true; field_type = FieldType.integer })
unfolding field_info new_registry
field_info-mtu = refl

address_ip_writable :
    field_info new_registry "ipv4" "addresses.ip"
    ≡ some (record { writable = true; field_type = FieldType.ip_network })
unfolding field_info new_registry
address_ip_writable = refl
