-- ===== src/Linux/Io.antt =====
-- crates/netfyr-backend/src/executor.rs: the netlink transport as the executor's `Io`, which observes
-- without the drivers. The clock and the cancellation test stay the caller's.
mod Tests
use netfyr.Base.{ℕ, Bool, true, false}
use netfyr.Executor.Action.{Io}
use netfyr.Linux.Exchange.{Library}
use netfyr.Linux.Transport.{Connection, LinuxTransport, execute}
use netfyr.Linux.Inventory.{System, inventory}
use netfyr.Plan.{NamespaceId}

-- `impl Io for LinuxTransport`, of a transport in this namespace.
abbrev pub linux_io :
    {W : Type 0} → Library → System W → NamespaceId → (W → Bool × W) → Io (Connection W)
linux_io library system namespace cancelled = record {
  namespace = namespace;
  inventory = inventory library system (λ selector. false);
  execute = execute library system.socket;
  now = λ c. let (now, w) = system.now c.world in (now, record c { world = w });
  cancelled = λ c. let (stop, w) = cancelled c.world in (stop, record c { world = w });
}
