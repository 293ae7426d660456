-- ===== src/Linux/Samples.antt =====
-- A library, a socket and a system with one Ethernet device, for the tests of the transport.
use netfyr.Base.{true, false, none, some, List, [], ◌∷◌, ok, err, eqb, if◌then◌else◌}
use netfyr.Base.Int.{pos}
use netfyr.Value.{v4}
use netfyr.Plan.{InterfaceId, Ipv4Address}
use netfyr.Samples.{netns}
use netfyr.Linux.{RoutePacket, Tracking}
use netfyr.Linux.Messages.{
  unspec, inet, ether, AddressMessage, local_address, peer_address, cache, if_name,
}
use netfyr.Linux.Exchange.{Library, Response, inner, error_response, done}
use netfyr.Linux.Transport.{
  RouteMessage, get_link, set_link, get_address, new_address, del_address, Socket, responses,
  LinuxTransport,
}
use netfyr.Linux.Optional.{wireless_responses, wireless_done}
use netfyr.Linux.Inventory.{System}

abbrev pub silent : Library
silent = record {
  os_error_text = λ code. "error";
  to_io = λ m. (none, "error");
  from_ne_bytes = λ bytes. 0;
  nlas = λ bytes. [];
  c_str = λ bytes. ok "";
}

abbrev pub link_packet : RoutePacket
link_packet = record {
  kind = 16;
  header =
      ok (record {
        family = unspec;
        layer_type = ether;
        index = 2;
        is_up = true;
        changes_up = false;
      });
  link_nlas = ok (record { kind = 3; parsed = ok (if_name "eth0") }) ∷ [];
  address = err "no address message";
}

abbrev pub dumped_address : AddressMessage
dumped_address = record {
  header = record { family = inet; prefix_len = 24; flags = 128; scope = 0; index = 2 };
  attributes =
      local_address (v4 10)
      ∷ peer_address (v4 11)
      ∷ cache (record { ifa_preferred = 50; ifa_valid = 60; cstamp = 1; tstamp = 2 })
      ∷ [];
}

abbrev address_packet : RoutePacket
address_packet = record {
  kind = 20;
  header = err "no link header";
  link_nlas = [];
  address = ok dumped_address;
}

abbrev pub packet_response : RoutePacket → Response
packet_response p = record { flags = 0; payload = inner p }

abbrev pub completion : Response
completion = record { flags = 0; payload = done (record { code = pos 0; extended_ack = [] }) }

abbrev pub acknowledgement : Response
acknowledgement = record {
  flags = 0;
  payload = error_response (record { code = none; header = [] });
}

abbrev answer : RouteMessage → List Response
answer (get_link m) =
    packet_response link_packet
    ∷ (if eqb m.header.index 0 then completion else acknowledgement)
    ∷ []
answer (get_address m) = packet_response address_packet ∷ completion ∷ []
answer (set_link m) = acknowledgement ∷ []
answer (new_address m) = acknowledgement ∷ []
answer (del_address m) = acknowledgement ∷ []

abbrev pub one_link : Socket (Unit {0})
one_link = record {
  ready = λ w. ([], w);
  send = λ message flags w. (responses (answer message), w);
}

abbrev pub one_device : System (Unit {0})
one_device = record {
  socket = one_link;
  ioctl = record {
    get_index = λ name w. (ok 2, w);
    has_wireless_name = λ name w. (false, w);
    get_driver_info = λ name w. (ok ([], []), w);
  };
  random = λ w. (ok 7, w);
  now = λ w. (5, w);
  wireless = some (λ w.
      (wireless_responses (ok (record { flags = 0; payload = wireless_done (pos 0) }) ∷ []), w));
  ethtool = none;
}

abbrev pub tracks : Tracking
tracks = record { closed = false; generations = (2, 7) ∷ []; epoch = 0; invalidated = none }

abbrev pub transport : LinuxTransport
transport = record {
  namespace = netns;
  tracking = tracks;
  address_messages = [];
  initialization_diagnostics = [];
}

abbrev pub eth0 : InterfaceId
eth0 = record {
  namespace = netns;
  index = 2;
  generation = 7;
  name = "eth0";
  device_type = "ethernet";
  mac = none;
}

abbrev pub lent : Ipv4Address
lent = record { ip = 10; prefix_len = 24; valid_lft = some 600; preferred_lft = some 500 }
