-- ===== src/Linux.antt =====
-- crates/netfyr-backend/src/linux.rs: how the transport follows the deletion of links. A generation
-- tells an interface from a later one with its index; the epoch counts deletions, modulo 2^64. The
-- header of a link message is parsed by a library.
pub mod Deletions
pub mod Messages
pub mod Addresses
pub mod Exchange
pub mod Links
pub mod Codec
pub mod Transport
pub mod Interface
pub mod Optional
pub mod Inventory
pub mod Io
pub mod Open
pub mod Samples
mod Tests
use netfyr.Base.{
  ℕ, ◌+◌, ◌%◌, String, Bool, true, false, not, Option, none, some, List, [], ◌∷◌, if◌then◌else◌,
  Result, ok, err, ◌>>=◌, eqb,
}
use netfyr.Base.Dict.{Dict, remove}
use netfyr.Base.Equality.{◌==◌, nat_eq}
use netfyr.Base.Text.{◌<>◌}
use netfyr.Linux.Messages.{LinkHeader, LinkAttribute, AddressMessage, is_unspec}
use netfyr.Report.{BackendError, backend_error, query_failed}

-- The fields of `LinuxTransport` that notifications change.
pub record Tracking : Type 0 where
  pub closed : Bool
  pub generations : Dict ℕ ℕ
  pub epoch : ℕ
  pub invalidated : Option String

-- An attribute of a link: its number, and the library's reading of it.
pub record LinkNla : Type 0 where
  pub kind : ℕ
  pub parsed : Result LinkAttribute String

-- `RoutePacket`, with what the library's parsers make of its body: the link header, the framed
-- attributes that follow it, and the address message.
pub record RoutePacket : Type 0 where
  pub kind : ℕ
  pub header : Result LinkHeader String
  pub link_nlas : List (Result LinkNla String)
  pub address : Result AddressMessage String

-- An item of the stream of notifications: its end, a message, an overrun, another payload.
pub data Notification : Type 0 where
  ended overrun unrelated : Notification
  message : RoutePacket → Notification

-- `RTM_DELLINK`
abbrev pub del_link : ℕ
del_link = 17

abbrev pub index_of : LinkHeader → Option ℕ
index_of h = if is_unspec h.family then some h.index else none

unfoldable pub deleted_link : RoutePacket → Result (Option ℕ) String
deleted_link p = if not (p.kind == del_link) then ok none else (p.header >>= λ h. ok (index_of h))

-- `wrapping_add(1)` of a u64
abbrev pub next_epoch : ℕ → ℕ
next_epoch epoch = (epoch + 1) % 18446744073709551616

abbrev pub or_reason : Option String → String → Option String
or_reason none reason = some reason
or_reason (some r) reason = some r

unfoldable pub invalidate : String → Tracking → Tracking
invalidate reason s = record s {
  generations = [];
  epoch = next_epoch s.epoch;
  invalidated = or_reason s.invalidated reason;
}

unfoldable pub record_deletion : ℕ → Tracking → Tracking
record_deletion index s = record s {
  generations = remove index s.generations;
  epoch = next_epoch s.epoch;
}

abbrev pub follow : Result (Option ℕ) String → Tracking → Tracking
follow (ok (some index)) s = record_deletion index s
follow (ok none) s = s
follow (err e) s = invalidate "unparseable link deletion notification" s

-- `record`
unfoldable pub record_item : Notification → Tracking → Tracking
record_item ended s = invalidate "netlink connection closed" (record s { closed = true })
record_item (message p) s = follow (deleted_link p) s
record_item overrun s = invalidate "link notification buffer overrun" s
record_item unrelated s = s

abbrev pub unless_closed : Bool → Tracking → Tracking → Tracking
unless_closed true s next = s
unless_closed false s next = next

-- `next_notification` with the item that comes; of a closed stream none is awaited.
abbrev pub next_notification : Notification → Tracking → Tracking
next_notification n s = unless_closed s.closed s (record_item n s)

-- The loop of `drain_notifications` over the items that are ready.
unfoldable pub record_items : List Notification → Tracking → Tracking
record_items [] s = s
record_items (n ∷ ns) s = unless_closed s.closed s (record_items ns (record_item n s))

abbrev pub take_reason : Option String → Tracking → Result (Unit {0}) BackendError × Tracking
take_reason none s = (ok tt, s)
take_reason (some reason) s = (
  err (backend_error query_failed (reason <> "; identities invalidated, query again")),
  record s { invalidated = none },
)

unfoldable pub drain_notifications :
    List Notification → Tracking → Result (Unit {0}) BackendError × Tracking
drain_notifications ns s = let after = record_items ns s in take_reason after.invalidated after

unfoldable pub validate_deletion_epoch : ℕ → ℕ → Result (Unit {0}) BackendError
validate_deletion_epoch before after =
    if not (before == after)
    then err
        (backend_error query_failed "interface deletion occurred during inventory; query again")
    else ok tt
