-- ===== src/Worker/Open/Tests.antt =====
-- A backend of the namespace file `/run/netns/test`, opened from another namespace, and a query to it.
use netfyr.Base.{
  List, map, All, false, arith, ◌≡◌, refl, sym, ap, ◌∙◌, String, true, none, some, [], ◌∷◌,
  if◌then◌else◌, Bool-cases, inl, inr, Result, ok, err,
}
use netfyr.Base.Equality.{◌==◌, string_eq}
use netfyr.Base.Int.{pos}
use netfyr.Plan.{NamespaceId, DeviceObservation}
use netfyr.Linux.Interface.{IoError, other_io}
use netfyr.Linux.Inventory.Devices.{diagnostic}
use netfyr.Linux.Open.{Thread, fresh_transport}
use netfyr.Linux.Open.Within.{IsWithin}
use netfyr.Device.{any_device}
use netfyr.Samples.{parse_one}
use netfyr.Linux.{unrelated}
use netfyr.Linux.Samples.{silent, one_device}
use netfyr.Linux.Transport.{Connection}
use netfyr.Worker.{
  Transport, Worker, Reply, observed, applied, previewed, query, send, notify, serve, enqueue,
  answer, handle,
}
use netfyr.Worker.Order.{Steps, start, then_step, fresh}
use netfyr.Worker.Linux.{linux_transport}
use netfyr.Worker.Linux.Answers.{Lists, opened-Lists}
use netfyr.Worker.Open.{NamespaceFile, Host, NetlinkBackend, nsfs_magic, open_backend}
use netfyr.Worker.Open.Within.{IsHost, open_backend-IsWithin}

abbrev outer : NamespaceId
outer = record { device = 4; inode = 4026531840 }

abbrev inner : NamespaceId
inner = record { device = 4; inode = 4026532200 }

abbrev inner_file : NamespaceFile
inner_file = record { filesystem = ok nsfs_magic; metadata = ok inner; namespace = inner }

abbrev missing : IoError
missing = record {
  kind = other_io;
  raw_os_error = some (pos 2);
  text = "No such file or directory";
}

-- A host with one namespace file, without wireless connections.
abbrev host : Host
host = record {
  open_file = λ path. if path == "/run/netns/test" then ok inner_file else err missing;
  spawn = none;
  own_namespace = λ t. ok t.namespace;
  set_namespace = λ f t. ok f.namespace;
  runtime = none;
  connecting = record {
    route = none;
    bind = none;
    ext_ack = none;
    cap_ack = none;
    ioctl = none;
    ethtool = none;
    wireless = some "no nl80211";
  };
  in_time = true;
}

host-IsHost : IsHost host
host-IsHost = record {
  own_IsCurrent = λ t n h. same t.namespace n h;
  moves = λ f t n h. same f.namespace n h;
  identifies = known;
}
  where
    same : (m n : NamespaceId) → ◌≡◌ {A = Result NamespaceId IoError} (ok m) (ok n) → n ≡ m
    same m n h = let e : m ≡ n = cc in sym e

    known :
        (path : String) (f : NamespaceFile) (n : NamespaceId)
        → host.open_file path ≡ ok f
        → f.filesystem ≡ ok nsfs_magic
        → f.metadata ≡ ok n
        → n ≡ f.namespace
    known path f n opened magic h = elim (Bool-cases (path == "/run/netns/test")) [
      | inr other ↦
          let no : ◌≡◌ {A = Result NamespaceFile IoError} (err missing) (ok f) =
            rw other at opened in
          cc
      | inl yes_test ↦
          let found : ◌≡◌ {A = Result NamespaceFile IoError} (ok inner_file) (ok f) =
            rw yes_test at opened in
          let this : inner_file ≡ f = cc in
          same inner n (ap (λ x. x.metadata) this ∙ h) ∙ ap (λ x. x.namespace) this
    ]

abbrev backend : NetlinkBackend
backend = record {
  namespace = inner;
  transport = fresh_transport inner (diagnostic none "type" "no nl80211" ∷ []);
}

abbrev ready : Thread
ready = record { namespace = inner; sockets = inner ∷ inner ∷ inner ∷ [] }

opened :
    open_backend host "/run/netns/test" (record { namespace = outer; sockets = [] })
    ≡ (ok backend, ready)
unfolding netfyr.Worker.Open.open_namespace netfyr.Worker.Open.enter_namespace
    netfyr.Worker.Open.start_worker netfyr.Worker.Open.open_backend netfyr.Worker.Open.open_current
    netfyr.Linux.Open.◌>>=◌ netfyr.Linux.Open.new_transport netfyr.Worker.disconnected
opened = refl

open_backend-IsWithin_example :
    IsWithin backend.namespace ready × (backend.transport.namespace ≡ backend.namespace)
open_backend-IsWithin_example =
    open_backend-IsWithin host host-IsHost "/run/netns/test" outer backend ready opened

abbrev inner_transport : Transport (Connection (Unit {0}))
inner_transport =
    linux_transport silent one_device inner (λ w. (false, w)) (λ w. (unrelated, w)) (λ m. "")

abbrev idle : Worker (Connection (Unit {0}))
idle = fresh parse_one inner_transport (record { transport = backend.transport; world = tt })

-- A query was sent, and answered after a notification.
abbrev queried : Worker (Connection (Unit {0}))
queried =
    let s = enqueue parse_one inner_transport (query any_device) idle in
    let t = record s { world = inner_transport.notified s.world } in
    answer parse_one inner_transport 0 [] t
      (handle parse_one inner_transport (query any_device) t.world)

queried_steps : Steps parse_one inner_transport idle queried
queried_steps =
    then_step (then_step (then_step start (send (query any_device) (omega arith))) notify)
      (serve 0 (query any_device) [] refl)

abbrev places : Reply → List NamespaceId
places (observed (ok o)) = map (λ (d : DeviceObservation). d.identity.namespace) o.devices
places r = []

listed : map (λ r. places r.1) queried.replies ≡ (inner ∷ []) ∷ []
unfolding netfyr.Linux.deleted_link netfyr.Linux.invalidate netfyr.Linux.record_deletion
    netfyr.Linux.record_item netfyr.Linux.record_items netfyr.Linux.drain_notifications
    netfyr.Linux.validate_deletion_epoch netfyr.Linux.Exchange.exchange_flags
    netfyr.Linux.Exchange.rejected netfyr.Linux.Exchange.unconfirmed netfyr.Linux.Exchange.align
    netfyr.Linux.Exchange.c_string netfyr.Linux.Exchange.extack_message
    netfyr.Linux.Exchange.netlink_error netfyr.Linux.Exchange.collect_from
    netfyr.Linux.Exchange.collect_response netfyr.Linux.Links.add_nlas netfyr.Linux.Links.parse_link
    netfyr.Linux.Links.classify_link netfyr.Linux.Links.format_mac netfyr.Linux.Links.add_fields
    netfyr.Linux.Links.link_state netfyr.Linux.Addresses.take_attribute
    netfyr.Linux.Addresses.take_attributes netfyr.Linux.Addresses.peer_of
    netfyr.Linux.Addresses.with_lifetimes netfyr.Linux.Addresses.assemble
    netfyr.Linux.Addresses.parse_address netfyr.Linux.Addresses.cache_info
    netfyr.Linux.Addresses.address_message netfyr.Linux.Addresses.replacement_message
    netfyr.Linux.Addresses.removal_message netfyr.Linux.Addresses.address_value
    netfyr.Linux.Transport.◌>>=◌ netfyr.Linux.Transport.write_message netfyr.Linux.Transport.drain
    netfyr.Linux.Transport.request netfyr.Linux.Transport.confirm_identity
    netfyr.Linux.Transport.execute netfyr.Base.Text.bytes netfyr.Linux.Interface.ifreq_for
    netfyr.Linux.Interface.is_pci_address netfyr.Linux.Interface.unsupported_ioctl
    netfyr.Linux.Interface.interface_index netfyr.Linux.Interface.while_named
    netfyr.Linux.Interface.driver_info netfyr.Linux.Interface.legacy_wireless
    netfyr.Linux.Optional.collect_wireless netfyr.Linux.Optional.wireless_indices
    netfyr.Linux.Optional.enrich_ethernet netfyr.Linux.Optional.take_nlas
    netfyr.Linux.Optional.take_messages netfyr.Linux.Optional.ethernet_attributes
    netfyr.Linux.Inventory.fresh_generation netfyr.Linux.Inventory.generation_of
    netfyr.Linux.Inventory.enriched netfyr.Linux.Inventory.add_link netfyr.Linux.Inventory.add_links
    netfyr.Linux.Inventory.conclude netfyr.Linux.Inventory.observe_devices
    netfyr.Linux.Inventory.inventory netfyr.Linux.Inventory.Devices.enrich_state
    netfyr.Linux.Inventory.Devices.apply_modes netfyr.Linux.Inventory.Devices.check_generations
    netfyr.Linux.Inventory.Assign.assign netfyr.Linux.Inventory.Assign.assign_all
    netfyr.Linux.Inventory.Assign.with_addresses netfyr.Base.Text.split_once netfyr.Device.new_state
    netfyr.Executor.Cascade.check_cascade netfyr.Executor.Decode.assignment
    netfyr.Executor.Decode.check_decoded netfyr.Executor.Decode.decode
    netfyr.Executor.Decode.decode_field netfyr.Executor.Decode.decode_kind
    netfyr.Executor.Decode.decode_known netfyr.Executor.Decode.decode_result
    netfyr.Executor.Groups.validate_address_group netfyr.Executor.Groups.validate_group
    netfyr.Executor.Locate.confirm netfyr.Executor.Locate.locate netfyr.Executor.Run.apply_plan
    netfyr.Executor.Run.run netfyr.Executor.Run.run_from netfyr.Executor.Run.run_one
    netfyr.Executor.Run.run_step netfyr.Executor.Run.run_with netfyr.Executor.Satisfied.satisfied
    netfyr.Executor.Step.absorb netfyr.Executor.Step.attempt netfyr.Executor.Step.confirm_write
    netfyr.Executor.Step.observe netfyr.Executor.Step.observe_from netfyr.Executor.Step.perform
    netfyr.Executor.Step.real_write netfyr.Executor.Step.step netfyr.Executor.Step.step_decoded
    netfyr.Executor.Step.update_groups netfyr.Plan.ipv4_address netfyr.Schema.Embedded.new_registry
    netfyr.Schema.Registry.all_errors netfyr.Schema.Registry.device_type_errors
    netfyr.Schema.Registry.field_info netfyr.Schema.Registry.fragment_errors_at
    netfyr.Schema.Registry.trigger_errors netfyr.Schema.Registry.validate_writable
    netfyr.Schema.Walk.checked netfyr.Schema.Walk.integer_errors netfyr.Schema.Walk.kind_errors
    netfyr.Schema.Walk.missing_errors netfyr.Schema.Walk.type_accepts netfyr.Schema.Walk.under
    netfyr.Schema.Walk.value_type netfyr.Schema.Walk.walk_map netfyr.Schema.Walk.walk_node
    netfyr.Schema.Walk.with_read_only netfyr.Value.same_value netfyr.Executor.Action.◌>>=◌
    netfyr.Executor.Action.with_state netfyr.Executor.Project.project
    netfyr.Worker.Linux.linux_transport netfyr.Worker.handle netfyr.Worker.filter_observation
    netfyr.Worker.may_match netfyr.Device.matches netfyr.Device.field_matches
    netfyr.Device.mac_matches netfyr.Linux.Open.new_transport
listed = refl

opened-Lists_example : All (λ r. Lists backend.namespace r.1) queried.replies
opened-Lists_example =
    opened-Lists host "/run/netns/test" outer backend ready silent one_device parse_one
      (λ w. (false, w)) (λ w. (unrelated, w)) (λ m. "") tt queried host-IsHost opened queried_steps
