-- ===== src/Linux/Transport.antt =====
-- crates/netfyr-backend/src/linux.rs: `LinuxTransport`, its requests, and the writes. A method is a
-- state and error action on the transport and the kernel: what was recorded or written stays so
-- when an error is returned.
pub mod Actions
pub mod Confirming
pub mod Sent
pub mod Namespaced
mod Tests
use netfyr.Base.{
  ℕ, String, Bool, true, false, not, ◌||◌, Option, none, some, List, [], ◌∷◌, if◌then◌else◌, Result,
  ok, err,
}
use netfyr.Base.Bits.{bit_or}
use netfyr.Base.Dict.{Dict, get}
use netfyr.Base.Equality.{◌==◌, nat_eq, string_eq, option_eq, pair_eq}
use netfyr.Plan.{
  NamespaceId, InterfaceId, Ipv4Address, Diagnostic, OperationKind, set_mtu, set_enabled, add_ipv4,
  remove_ipv4, replace_ipv4, set_field, add_entity, remove_entity,
}
use netfyr.Plan.Identity.{namespace_eq}
use netfyr.Report.{
  BackendError, BackendErrorKind, backend_error, query_failed, stale_state, unsupported_operation,
}
use netfyr.Linux.{Tracking, Notification, RoutePacket, drain_notifications}
use netfyr.Linux.Messages.{AddressMessage, LinkMessage, LinkAttribute, mtu, empty_link_message}
use netfyr.Linux.Addresses.{address_message, replacement_message, removal_message}
use netfyr.Linux.Exchange.{
  Exchange, read, write, exchange_flags, rejected, unconfirmed, Response, Library, collect_response,
}
use netfyr.Linux.Links.{ParsedLink, parse_link}

pub data RouteMessage : Type 0 where
  get_link set_link : LinkMessage → RouteMessage
  get_address new_address del_address : AddressMessage → RouteMessage

-- How a request ends: it is not sent, the time is over, or responses arrive, in this order, up to
-- the end of their stream.
pub data Answer : Type 0 where
  refused : String → Answer
  timed_out : Answer
  responses : List Response → Answer

-- The socket, with the notifications that are ready and the answer to a message with its flags.
pub record Socket (W : Type 0) : Type 0 where
  pub ready : W → List Notification × W
  pub send : RouteMessage → ℕ → W → Answer × W

-- The key of an observed address: interface, address, prefix length.
abbrev pub AddressKey : Type 0
AddressKey = ℕ × (ℕ × ℕ)

-- The fields of `LinuxTransport` that its methods use.
pub record LinuxTransport : Type 0 where
  pub namespace : NamespaceId
  pub tracking : Tracking
  pub address_messages : Dict AddressKey AddressMessage
  pub initialization_diagnostics : List Diagnostic

-- The transport with the kernel.
pub record Connection (W : Type 0) : Type 0 where
  pub transport : LinuxTransport
  pub world : W

abbrev pub Action : Type 0 → Type 0 → Type 0
Action W A = Connection W → Result A BackendError × Connection W

module _ {W : Type 0} where
  abbrev pub pure : {A : Type 0} → A → Action W A
  pure a c = (ok a, c)

  abbrev pub lift : {A : Type 0} → Result A BackendError → Action W A
  lift r c = (r, c)

  abbrev pub resume :
      {A B : Type 0}
      → (A → Action W B)
      → Result A BackendError × Connection W
      → Result B BackendError × Connection W
  resume f (ok a, c) = f a c
  resume f (err e, c) = (err e, c)

  infixl 5 ◌>>=◌ ◌>>◌
  unfoldable pub ◌>>=◌ : {A B : Type 0} → Action W A → (A → Action W B) → Action W B
  ◌>>=◌ m f c = resume f (m c)

  abbrev pub ◌>>◌ : {A B : Type 0} → Action W A → Action W B → Action W B
  m >> k = m >>= λ _. k

  abbrev pub with_transport : {A : Type 0} → (LinuxTransport → Action W A) → Action W A
  with_transport f c = f c.transport c

-- `RTM_NEWLINK`
abbrev pub new_link_number : ℕ
new_link_number = 16

-- `NLM_F_CREATE | NLM_F_EXCL`, and `NLM_F_REPLACE`.
abbrev create_exclusive : ℕ
create_exclusive = bit_or 1024 512

abbrev replace_flag : ℕ
replace_flag = 256

abbrev pub link_request : ℕ → LinkMessage
link_request index = record empty_link_message {
  header = record empty_link_message.header { index = index };
}

abbrev mtu_message : ℕ → ℕ → LinkMessage
mtu_message index n = record (link_request index) { attributes = mtu n ∷ [] }

abbrev enabled_message : ℕ → Bool → LinkMessage
enabled_message index enabled = record empty_link_message {
  header = record empty_link_message.header { index = index; changes_up = true; is_up = enabled };
}

abbrev pub observed_message :
    Dict AddressKey AddressMessage → ℕ → Ipv4Address → Option AddressMessage
observed_message messages index address = get (index, (address.ip, address.prefix_len)) messages

abbrev unsupported : Result (RouteMessage × ℕ) BackendError
unsupported =
    err (backend_error unsupported_operation "operation is not supported by the Linux transport")

-- The message of a write, with its extra flags.
unfoldable pub write_message :
    Dict AddressKey AddressMessage → ℕ → OperationKind → Result (RouteMessage × ℕ) BackendError
write_message messages index (set_mtu n) = ok (set_link (mtu_message index n), 0)
write_message messages index (set_enabled enabled) =
    ok (set_link (enabled_message index enabled), 0)
write_message messages index (add_ipv4 a) =
    ok (new_address (address_message index a true), create_exclusive)
write_message messages index (replace_ipv4 a) =
    ok (new_address (replacement_message (observed_message messages index a) index a), replace_flag)
write_message messages index (remove_ipv4 a) =
    ok (del_address (removal_message (observed_message messages index a) index a), 0)
write_message messages index (set_field f v) = unsupported
write_message messages index add_entity = unsupported
write_message messages index remove_entity = unsupported

abbrev pub stale : BackendError
stale = backend_error stale_state "target identity is no longer current"

abbrev unexpected_reply : Result String BackendError
unexpected_reply = err (backend_error query_failed "unexpected reply to a link query")

abbrev name_in : Result ParsedLink BackendError → Result String BackendError
name_in (ok link) = ok link.name
name_in (err e) = err e

-- The name in a reply of one new-link packet.
abbrev pub reply_name : List RoutePacket → Result String BackendError
reply_name (packet ∷ []) =
    if packet.kind == new_link_number then name_in (parse_link packet) else unexpected_reply
reply_name packets = unexpected_reply

module _ {W : Type 0} (library : Library) (socket : Socket W) where
  abbrev after_drain :
      Result (Unit {0}) BackendError × Tracking
      → Connection W
      → W
      → Result (Unit {0}) BackendError × Connection W
  after_drain (r, tracking) c w =
      (r, record { transport = record c.transport { tracking = tracking }; world = w })

  -- `drain_notifications` of the items that are ready.
  unfoldable pub drain : Action W (Unit {0})
  drain c =
      let (items, w) = socket.ready c.world in
      after_drain (drain_notifications items c.transport.tracking) c w

  abbrev pub collected : Exchange → Answer → Result (List RoutePacket) BackendError
  collected exchange (refused text) = err (backend_error (rejected exchange) text)
  collected exchange timed_out =
      err (
        backend_error (unconfirmed exchange)
          "netlink request timed out before confirmed completion")
  collected exchange (responses stream) = collect_response library exchange stream

  abbrev pub exchange_with : RouteMessage → Exchange → ℕ → Action W (List RoutePacket)
  exchange_with message exchange extra_flags c =
      let (answer, w) =
        socket.send message (bit_or (exchange_flags exchange) extra_flags) c.world in
      (collected exchange answer, record c { world = w })

  unfoldable pub request : RouteMessage → Exchange → ℕ → Action W (List RoutePacket)
  request message exchange extra_flags = do drain; exchange_with message exchange extra_flags

  abbrev pub is_stale : InterfaceId → String → LinuxTransport → Bool
  is_stale target name t =
      not (get target.index t.tracking.generations == some target.generation)
      || not (name == target.name)

  abbrev pub check_current : InterfaceId → String → LinuxTransport → Result (Unit {0}) BackendError
  check_current target name t = if is_stale target name t then err stale else ok tt

  abbrev pub check_namespace : InterfaceId → LinuxTransport → Result (Unit {0}) BackendError
  check_namespace target t = if not (target.namespace == t.namespace) then err stale else ok tt

  unfoldable pub confirm_identity : InterfaceId → Action W (Unit {0})
  confirm_identity target = do
    with_transport λ t. lift (check_namespace target t)
    reply ← request (get_link (link_request target.index)) read 0
    drain
    name ← lift (reply_name reply)
    with_transport λ t. lift (check_current target name t)

  unfoldable pub execute : InterfaceId → OperationKind → Action W (Unit {0})
  execute target operation = do
    (message, flags) ←
        with_transport λ t. lift (write_message t.address_messages target.index operation)
    confirm_identity target
    request message write flags
    pure tt
