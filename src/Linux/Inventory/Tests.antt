-- ===== src/Linux/Inventory/Tests.antt =====
-- The theorems on the inventory at a system with one Ethernet device and one address.
use netfyr.Base.{ℕ, ◌≡◌, refl, true, false, none, some, [], ◌∷◌, ok}
use netfyr.Base.Int.{pos}
use netfyr.Value.{Value, v4, string, bool, u64, ip_network, object, array, item, nil, entry, end}
use netfyr.Device.{kernel, any_device}
use netfyr.Plan.{Observation, replace_ipv4, validate_address}
use netfyr.Linux.Samples.{silent, one_device, transport, eth0, lent, dumped_address}
use netfyr.Linux.Messages.{AddressMessage}
use netfyr.Linux.Transport.{Connection, LinuxTransport, new_address, write_message}
use netfyr.Linux.Inventory.{inventory}
use netfyr.Linux.Inventory.Tracked.{IsSound, inventory-IsSound}
use netfyr.Linux.Inventory.Renewed.{IsReplacement, inventory-IsReplacement}

abbrev before : Connection (Unit {0})
before = record { transport = transport; world = tt }

abbrev after : Connection (Unit {0})
after = record {
  transport = record transport { address_messages = ((2, (10, 24)), dumped_address) ∷ [] };
  world = tt;
}

abbrev addresses : Value
addresses = object (
    entry "addresses"
      (array (
        item
          (object (
            entry "ip" (ip_network (v4 10) 24)
              (entry "valid_lft" (u64 60) (entry "preferred_lft" (u64 50) end))))
          nil))
      end)

abbrev seen : Observation
seen = record {
  devices =
      record {
        identity = eth0;
        state = record {
          device_type = "ethernet";
          match_spec = record any_device { name = some "eth0"; device_type = some "ethernet" };
          fields =
              entry "name" (string "eth0")
                (entry "enabled" (bool true) (entry "ipv4" addresses end));
          source = kernel;
          priority = pos 0;
        };
        addresses =
            record {
              address = record lent { valid_lft = some 60; preferred_lft = some 50 };
              flags = 128;
              scope = 0;
              peer = some 11;
            }
            ∷ [];
        addresses_complete = true;
        observed_at = 5;
      }
      ∷ [];
  diagnostics = [];
}

observed : inventory silent one_device (λ selector. true) before ≡ (ok seen, after)
unfolding netfyr.Linux.deleted_link netfyr.Linux.invalidate netfyr.Linux.record_deletion
    netfyr.Linux.record_item netfyr.Linux.record_items netfyr.Linux.drain_notifications
    netfyr.Linux.validate_deletion_epoch netfyr.Linux.Exchange.exchange_flags
    netfyr.Linux.Exchange.rejected netfyr.Linux.Exchange.unconfirmed netfyr.Linux.Exchange.align
    netfyr.Linux.Exchange.c_string netfyr.Linux.Exchange.extack_message
    netfyr.Linux.Exchange.netlink_error netfyr.Linux.Exchange.collect_from
    netfyr.Linux.Exchange.collect_response netfyr.Linux.Links.add_nlas netfyr.Linux.Links.parse_link
    netfyr.Linux.Links.classify_link netfyr.Linux.Links.format_mac netfyr.Linux.Links.add_fields
    netfyr.Linux.Links.link_state netfyr.Linux.Addresses.take_attribute
    netfyr.Linux.Addresses.take_attributes netfyr.Linux.Addresses.peer_of
    netfyr.Linux.Addresses.with_lifetimes netfyr.Linux.Addresses.assemble
    netfyr.Linux.Addresses.parse_address netfyr.Linux.Addresses.cache_info
    netfyr.Linux.Addresses.address_message netfyr.Linux.Addresses.replacement_message
    netfyr.Linux.Addresses.removal_message netfyr.Linux.Addresses.address_value
    netfyr.Linux.Transport.◌>>=◌ netfyr.Linux.Transport.write_message netfyr.Linux.Transport.drain
    netfyr.Linux.Transport.request netfyr.Linux.Transport.confirm_identity
    netfyr.Linux.Transport.execute netfyr.Base.Text.bytes netfyr.Linux.Interface.ifreq_for
    netfyr.Linux.Interface.is_pci_address netfyr.Linux.Interface.unsupported_ioctl
    netfyr.Linux.Interface.interface_index netfyr.Linux.Interface.while_named
    netfyr.Linux.Interface.driver_info netfyr.Linux.Interface.legacy_wireless
    netfyr.Linux.Optional.collect_wireless netfyr.Linux.Optional.wireless_indices
    netfyr.Linux.Optional.enrich_ethernet netfyr.Linux.Optional.take_nlas
    netfyr.Linux.Optional.take_messages netfyr.Linux.Optional.ethernet_attributes
    netfyr.Linux.Inventory.fresh_generation netfyr.Linux.Inventory.generation_of
    netfyr.Linux.Inventory.enriched netfyr.Linux.Inventory.add_link netfyr.Linux.Inventory.add_links
    netfyr.Linux.Inventory.conclude netfyr.Linux.Inventory.observe_devices
    netfyr.Linux.Inventory.inventory netfyr.Linux.Inventory.Devices.enrich_state
    netfyr.Linux.Inventory.Devices.apply_modes netfyr.Linux.Inventory.Devices.check_generations
    netfyr.Linux.Inventory.Assign.assign netfyr.Linux.Inventory.Assign.assign_all
    netfyr.Linux.Inventory.Assign.with_addresses netfyr.Device.default_priority
    netfyr.Device.policy_of netfyr.Device.field_matches netfyr.Device.mac_matches
    netfyr.Device.matches netfyr.Device.is_empty_match netfyr.Device.new_state
    netfyr.Device.content_eq netfyr.Plan.prefix_mask netfyr.Plan.masked netfyr.Plan.group
    netfyr.Plan.same_identity netfyr.Plan.lifetimes netfyr.Plan.address_error_text
    netfyr.Plan.validate_address netfyr.Plan.kernel_group netfyr.Plan.kind_name
    netfyr.Plan.ipv4_address netfyr.Plan.kind_field netfyr.Report.error_kind_text
    netfyr.Report.errno_kind netfyr.Report.from_io netfyr.Report.backend_error_text
    netfyr.Report.no_failures netfyr.Report.apply_is_success netfyr.Report.dry_run_is_success
    netfyr.Base.Text.decimal netfyr.Base.Text.split_once netfyr.Base.Text.join
    netfyr.Base.Text.eq_ignore_ascii_case netfyr.Base.Text.is_blank netfyr.Base.Text.has_infix
    netfyr.Base.Text.split
observed = refl

inventory-IsSound_example : IsSound seen after
inventory-IsSound_example =
    inventory-IsSound silent one_device (λ selector. true) before seen after observed

lent_valid : validate_address lent ≡ ok tt
unfolding validate_address
lent_valid = refl

inventory-IsReplacement_example :
    (message : AddressMessage) × (flags : ℕ) × (write_message after.transport.address_messages 2
        (replace_ipv4 lent)
      ≡ ok (new_address message, flags))
    × IsReplacement 2 lent message
inventory-IsReplacement_example =
    inventory-IsReplacement silent one_device (λ selector. true) before seen after 2 lent observed
      lent_valid
