-- ===== src/Linux/Io/Tests.antt =====
-- A plan of one write, executed over the transport of one device.
use netfyr.Base.{ℕ, ◌≡◌, refl, true, false, none, some, List, [], ◌∷◌}
use netfyr.Plan.{StateDiff, Operation, set_mtu}
use netfyr.Report.{context_of}
use netfyr.Executor.Run.{apply_plan}
use netfyr.Samples.{netns, parse_one}
use netfyr.Linux.Samples.{silent, one_device, transport, eth0}
use netfyr.Linux.Transport.{Connection, LinuxTransport}
use netfyr.Linux.Io.{linux_io}

abbrev set_eth0 : Operation
set_eth0 = record { target = eth0; kind = set_mtu 1400; depends_on = []; address_group = none }

abbrev plan : StateDiff
plan = record { changes = []; operations = set_eth0 ∷ []; diagnostics = [] }

abbrev before : Connection (Unit {0})
before = record { transport = transport; world = tt }

applied :
    (apply_plan parse_one
      (linux_io silent one_device netns (λ w. (false, w)))
      plan
      before).0.succeeded
    ≡ context_of 0 set_eth0 ∷ []
unfolding netfyr.Linux.deleted_link netfyr.Linux.invalidate netfyr.Linux.record_deletion
    netfyr.Linux.record_item netfyr.Linux.record_items netfyr.Linux.drain_notifications
    netfyr.Linux.validate_deletion_epoch netfyr.Linux.Exchange.exchange_flags
    netfyr.Linux.Exchange.rejected netfyr.Linux.Exchange.unconfirmed netfyr.Linux.Exchange.align
    netfyr.Linux.Exchange.c_string netfyr.Linux.Exchange.extack_message
    netfyr.Linux.Exchange.netlink_error netfyr.Linux.Exchange.collect_from
    netfyr.Linux.Exchange.collect_response netfyr.Linux.Links.add_nlas netfyr.Linux.Links.parse_link
    netfyr.Linux.Links.classify_link netfyr.Linux.Links.format_mac netfyr.Linux.Links.add_fields
    netfyr.Linux.Links.link_state netfyr.Linux.Addresses.take_attribute
    netfyr.Linux.Addresses.take_attributes netfyr.Linux.Addresses.peer_of
    netfyr.Linux.Addresses.with_lifetimes netfyr.Linux.Addresses.assemble
    netfyr.Linux.Addresses.parse_address netfyr.Linux.Addresses.cache_info
    netfyr.Linux.Addresses.address_message netfyr.Linux.Addresses.replacement_message
    netfyr.Linux.Addresses.removal_message netfyr.Linux.Addresses.address_value
    netfyr.Linux.Transport.◌>>=◌ netfyr.Linux.Transport.write_message netfyr.Linux.Transport.drain
    netfyr.Linux.Transport.request netfyr.Linux.Transport.confirm_identity
    netfyr.Linux.Transport.execute netfyr.Base.Text.bytes netfyr.Linux.Interface.ifreq_for
    netfyr.Linux.Interface.is_pci_address netfyr.Linux.Interface.unsupported_ioctl
    netfyr.Linux.Interface.interface_index netfyr.Linux.Interface.while_named
    netfyr.Linux.Interface.driver_info netfyr.Linux.Interface.legacy_wireless
    netfyr.Linux.Optional.collect_wireless netfyr.Linux.Optional.wireless_indices
    netfyr.Linux.Optional.enrich_ethernet netfyr.Linux.Optional.take_nlas
    netfyr.Linux.Optional.take_messages netfyr.Linux.Optional.ethernet_attributes
    netfyr.Linux.Inventory.fresh_generation netfyr.Linux.Inventory.generation_of
    netfyr.Linux.Inventory.enriched netfyr.Linux.Inventory.add_link netfyr.Linux.Inventory.add_links
    netfyr.Linux.Inventory.conclude netfyr.Linux.Inventory.observe_devices
    netfyr.Linux.Inventory.inventory netfyr.Linux.Inventory.Devices.enrich_state
    netfyr.Linux.Inventory.Devices.apply_modes netfyr.Linux.Inventory.Devices.check_generations
    netfyr.Linux.Inventory.Assign.assign netfyr.Linux.Inventory.Assign.assign_all
    netfyr.Linux.Inventory.Assign.with_addresses netfyr.Base.Text.split_once netfyr.Device.new_state
    netfyr.Executor.Cascade.check_cascade netfyr.Executor.Decode.assignment
    netfyr.Executor.Decode.check_decoded netfyr.Executor.Decode.decode
    netfyr.Executor.Decode.decode_field netfyr.Executor.Decode.decode_kind
    netfyr.Executor.Decode.decode_known netfyr.Executor.Decode.decode_result
    netfyr.Executor.Groups.validate_address_group netfyr.Executor.Groups.validate_group
    netfyr.Executor.Locate.confirm netfyr.Executor.Locate.locate netfyr.Executor.Run.apply_plan
    netfyr.Executor.Run.run netfyr.Executor.Run.run_from netfyr.Executor.Run.run_one
    netfyr.Executor.Run.run_step netfyr.Executor.Run.run_with netfyr.Executor.Satisfied.satisfied
    netfyr.Executor.Step.absorb netfyr.Executor.Step.attempt netfyr.Executor.Step.confirm_write
    netfyr.Executor.Step.observe netfyr.Executor.Step.observe_from netfyr.Executor.Step.perform
    netfyr.Executor.Step.real_write netfyr.Executor.Step.step netfyr.Executor.Step.step_decoded
    netfyr.Executor.Step.update_groups netfyr.Plan.ipv4_address netfyr.Schema.Embedded.new_registry
    netfyr.Schema.Registry.all_errors netfyr.Schema.Registry.device_type_errors
    netfyr.Schema.Registry.field_info netfyr.Schema.Registry.fragment_errors_at
    netfyr.Schema.Registry.trigger_errors netfyr.Schema.Registry.validate_writable
    netfyr.Schema.Walk.checked netfyr.Schema.Walk.integer_errors netfyr.Schema.Walk.kind_errors
    netfyr.Schema.Walk.missing_errors netfyr.Schema.Walk.type_accepts netfyr.Schema.Walk.under
    netfyr.Schema.Walk.value_type netfyr.Schema.Walk.walk_map netfyr.Schema.Walk.walk_node
    netfyr.Schema.Walk.with_read_only netfyr.Value.same_value netfyr.Executor.Action.◌>>=◌
    netfyr.Executor.Action.with_state netfyr.Executor.Project.project
applied = refl
