-- ===== src/Linux/Transport/Tests.antt =====
-- The theorem on what is sent, at the replacement of an address of the one device; and the run itself.
use netfyr.Base.{◌≡◌, refl, [], ◌∷◌, ok, List}
use netfyr.Plan.{replace_ipv4}
use netfyr.Linux.Samples.{silent, one_link, transport, eth0, lent, dumped_address}
use netfyr.Linux.Addresses.{replacement_message}
use netfyr.Base.{some}
use netfyr.Linux.Transport.{
  RouteMessage, Connection, LinuxTransport, execute, get_link, new_address, link_request,
}
use netfyr.Linux.Transport.Confirming.{logged}
use netfyr.Linux.Transport.Sent.{Sent, execute-Sent}

abbrev ready : Connection (Unit {0} × List RouteMessage)
ready = record {
  transport = record transport { address_messages = ((2, (10, 24)), dumped_address) ∷ [] };
  world = (tt, []);
}

abbrev sent_replacement : Connection (Unit {0} × List RouteMessage)
sent_replacement = record ready {
  world = (
    tt,
    new_address (replacement_message (some dumped_address) 2 lent) ∷ get_link (link_request 2) ∷ [],
  );
}

executed :
    execute silent (logged one_link) eth0 (replace_ipv4 lent) ready ≡ (ok tt, sent_replacement)
unfolding netfyr.Linux.deleted_link netfyr.Linux.invalidate netfyr.Linux.record_deletion
    netfyr.Linux.record_item netfyr.Linux.record_items netfyr.Linux.drain_notifications
    netfyr.Linux.validate_deletion_epoch netfyr.Linux.Exchange.exchange_flags
    netfyr.Linux.Exchange.rejected netfyr.Linux.Exchange.unconfirmed netfyr.Linux.Exchange.align
    netfyr.Linux.Exchange.c_string netfyr.Linux.Exchange.extack_message
    netfyr.Linux.Exchange.netlink_error netfyr.Linux.Exchange.collect_from
    netfyr.Linux.Exchange.collect_response netfyr.Linux.Links.add_nlas netfyr.Linux.Links.parse_link
    netfyr.Linux.Links.classify_link netfyr.Linux.Links.format_mac netfyr.Linux.Links.add_fields
    netfyr.Linux.Links.link_state netfyr.Linux.Addresses.take_attribute
    netfyr.Linux.Addresses.take_attributes netfyr.Linux.Addresses.peer_of
    netfyr.Linux.Addresses.with_lifetimes netfyr.Linux.Addresses.assemble
    netfyr.Linux.Addresses.parse_address netfyr.Linux.Addresses.cache_info
    netfyr.Linux.Addresses.address_message netfyr.Linux.Addresses.replacement_message
    netfyr.Linux.Addresses.removal_message netfyr.Linux.Addresses.address_value
    netfyr.Linux.Transport.◌>>=◌ netfyr.Linux.Transport.write_message netfyr.Linux.Transport.drain
    netfyr.Linux.Transport.request netfyr.Linux.Transport.confirm_identity
    netfyr.Linux.Transport.execute netfyr.Plan.prefix_mask netfyr.Plan.masked netfyr.Plan.group
    netfyr.Plan.same_identity netfyr.Plan.lifetimes netfyr.Plan.address_error_text
    netfyr.Plan.validate_address netfyr.Plan.kernel_group netfyr.Plan.kind_name
    netfyr.Plan.ipv4_address netfyr.Plan.kind_field
executed = refl

execute-Sent_example :
    Sent silent one_link eth0
      (replace_ipv4 lent)
      ready
      (execute silent (logged one_link) eth0 (replace_ipv4 lent) ready).1
execute-Sent_example = execute-Sent silent one_link eth0 (replace_ipv4 lent) ready
