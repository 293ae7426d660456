-- ===== src/Worker/Linux.antt =====
-- crates/netfyr-backend/src/worker.rs: the worker's transport is that of linux.rs.
pub mod Answers
mod Tests
use netfyr.Base.{String, Bool}
use netfyr.Device.{Match}
use netfyr.Plan.{NamespaceId}
use netfyr.Linux.{Notification, next_notification}
use netfyr.Linux.Exchange.{Library}
use netfyr.Linux.Transport.{Connection, LinuxTransport}
use netfyr.Linux.Inventory.{System, inventory}
use netfyr.Linux.Io.{linux_io}
use netfyr.Worker.{Transport}

-- The next item of the notifications is recorded.
abbrev pub record_next : {W : Type 0} → (W → Notification × W) → Connection W → Connection W
record_next next c =
    let (item, w) = next c.world in
    record {
      transport = record c.transport { tracking = next_notification item c.transport.tracking };
      world = w;
    }

-- `cancelled` is `response.is_closed()`, and `next` waits for a notification.
unfoldable pub linux_transport :
    {W : Type 0}
    → Library
    → System W
    → NamespaceId
    → (W → Bool × W)
    → (W → Notification × W)
    → (Match → String)
    → Transport (Connection W)
linux_transport library system namespace cancelled next debug = record {
  io = linux_io library system namespace cancelled;
  inventory_where = inventory library system;
  notified = record_next next;
  debug_match = debug;
}
