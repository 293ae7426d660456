-- ===== src/Linux/Exchange/Tests.antt =====
-- The collected responses of a dump of one link, and of one that ends too early.
use netfyr.Base.{◌≡◌, refl, ◌↔◌, [], ◌∷◌, ok, err}
use netfyr.Report.{backend_error, query_failed}
use netfyr.Linux.Samples.{silent, link_packet, packet_response, completion}
use netfyr.Linux.Exchange.{dump, collect_response}
use netfyr.Linux.Exchange.Confirmed.{IsConfirmed, collect_response_iff}

collect_response_iff_example :
    (collect_response silent dump (packet_response link_packet ∷ completion ∷ [])
      ≡ ok (link_packet ∷ []))
    ↔ IsConfirmed dump (packet_response link_packet ∷ completion ∷ []) (link_packet ∷ [])
collect_response_iff_example =
    collect_response_iff silent dump (packet_response link_packet ∷ completion ∷ [])
      (link_packet ∷ [])

collected :
    collect_response silent dump (packet_response link_packet ∷ completion ∷ [])
    ≡ ok (link_packet ∷ [])
unfolding netfyr.Linux.Exchange.exchange_flags netfyr.Linux.Exchange.rejected
    netfyr.Linux.Exchange.unconfirmed netfyr.Linux.Exchange.align netfyr.Linux.Exchange.c_string
    netfyr.Linux.Exchange.extack_message netfyr.Linux.Exchange.netlink_error
    netfyr.Linux.Exchange.collect_from netfyr.Linux.Exchange.collect_response
collected = refl

cut_off :
    collect_response silent dump (packet_response link_packet ∷ [])
    ≡ err (backend_error query_failed "netlink transport closed before confirmed completion")
unfolding netfyr.Linux.Exchange.exchange_flags netfyr.Linux.Exchange.rejected
    netfyr.Linux.Exchange.unconfirmed netfyr.Linux.Exchange.align netfyr.Linux.Exchange.c_string
    netfyr.Linux.Exchange.extack_message netfyr.Linux.Exchange.netlink_error
    netfyr.Linux.Exchange.collect_from netfyr.Linux.Exchange.collect_response
cut_off = refl
