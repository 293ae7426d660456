-- ===== src/Worker.antt =====
-- crates/netfyr-backend/src/worker.rs: the requests of a backend, what its worker thread answers, and
-- what the caller makes of a worker that stopped. The sockets are the parameter `Transport`,
-- which Linux fills.
pub mod Order
pub mod Replies
pub mod Open
pub mod Linux
mod Tests
use netfyr.Base.{
  ℕ, suc, ◌+◌, ◌<◌, ◌≡◌, String, Bool, true, false, ◌&&◌, Option, none, some, List, [], ◌∷◌, ◌++◌,
  length, keep, is_nil, is_some, if◌then◌else◌, Result, ok, err,
}
use netfyr.Base.Text.{◌<>◌}
use netfyr.Value.{IpAddr}
use netfyr.Device.{Match, matches, State}
use netfyr.Plan.{Observation, DeviceObservation, StateDiff}
use netfyr.Report.{
  BackendError, backend_error, internal, outcome_unknown, not_found, ApplyReport, DryRunReport,
}
use netfyr.Executor.Action.{Io}
use netfyr.Executor.Run.{apply_plan, preview_plan, failed_report, preview_report}

-- `enum Request`, without the channel of the reply.
pub data Request : Type 0 where
  query : Match → Request
  apply preview : StateDiff → Request

-- What goes into the channel of the reply.
pub data Reply : Type 0 where
  observed : Result Observation BackendError → Reply
  applied : ApplyReport → Reply
  previewed : DryRunReport → Reply

unfoldable pub disconnected : BackendError
disconnected = backend_error internal "namespace worker stopped before accepting the request"

unfoldable pub unreported : BackendError
unreported =
    backend_error outcome_unknown
      "namespace worker stopped before reporting; writes may have applied"

-- `LinuxTransport`: the executor's `Io`, the inventory of the devices that may match, and what a
-- notification changes. `debug_match` is the text `{:?}` of a selector.
pub record Transport (W : Type 0) : Type 0 where
  pub io : Io W
  pub inventory_where : (Match → Bool) → W → Result Observation BackendError × W
  pub notified : W → W
  pub debug_match : Match → String

-- The driver and the PCI path are not compared.
unfoldable pub may_match : Match → Match → Bool
may_match selector spec = matches (record selector { driver = none; pci_path = none }) spec

abbrev pub selected : Match → DeviceObservation → Bool
selected selector d = matches selector d.state.match_spec

-- The `and_then` of a query.
unfoldable pub filter_observation :
    (Match → String) → Match → Result Observation BackendError → Result Observation BackendError
filter_observation debug selector (err e) = err e
filter_observation debug selector (ok o) =
    let devices = keep (selected selector) o.devices in
    if is_nil devices && is_some selector.name
    then err (backend_error not_found ("no interface matches " <> debug selector))
    else ok (record o { devices = devices })

-- The worker: the requests that wait in the channel, the replies, each with the number of its
-- request, and the outside.
pub record Worker (W : Type 0) : Type 0 where
  pub submitted : ℕ
  pub waiting : List (ℕ × Request)
  pub replies : List (ℕ × Reply)
  pub world : W

-- `mpsc::channel(16)`
abbrev pub capacity : ℕ
capacity = 16

module _ {W : Type 0} (parse_addr : String → Option IpAddr) (t : Transport W) where
  abbrev pub as_observed : Match → Result Observation BackendError × W → Reply × W
  as_observed selector (r, w) = (observed (filter_observation t.debug_match selector r), w)

  abbrev pub as_applied : ApplyReport × W → Reply × W
  as_applied (r, w) = (applied r, w)

  abbrev pub as_previewed : DryRunReport × W → Reply × W
  as_previewed (r, w) = (previewed r, w)

  -- The match on the request.
  unfoldable pub handle : Request → W → Reply × W
  handle (query selector) w = as_observed selector (t.inventory_where (may_match selector) w)
  handle (apply diff) w = as_applied (apply_plan parse_addr t.io diff w)
  handle (preview diff) w = as_previewed (preview_plan parse_addr t.io diff w)

  abbrev pub answer : ℕ → List (ℕ × Request) → Worker W → Reply × W → Worker W
  answer id rest s (reply, w) = record s {
    waiting = rest;
    replies = s.replies ++ (id, reply) ∷ [];
    world = w;
  }

  abbrev pub enqueue : Request → Worker W → Worker W
  enqueue q s = record s {
    submitted = suc s.submitted;
    waiting = s.waiting ++ (s.submitted, q) ∷ [];
  }

  -- One round of the loop, and a caller's `send`, which waits for room in the channel.
  pub data Step (s : Worker W) : Worker W → Type 0 where
    send : (q : Request) → length s.waiting < capacity → Step s (enqueue q s)
    notify : Step s (record s { world = t.notified s.world })
    serve :
        (id : ℕ) (q : Request) (rest : List (ℕ × Request))
        → s.waiting ≡ (id, q) ∷ rest
        → Step s (answer id rest s (handle q s.world))

-- How a request ends for the caller: the worker did not accept it, it did not report, or it did.
pub data Delivery (A : Type 0) : Type 0 where
  refused dropped : Delivery A
  answered : A → Delivery A

unfoldable pub query_result :
    Delivery (Result Observation BackendError) → Result Observation BackendError
query_result refused = err disconnected
query_result dropped = err disconnected
query_result (answered r) = r

unfoldable pub apply_result : StateDiff → Delivery ApplyReport → ApplyReport
apply_result diff refused = failed_report diff disconnected
apply_result diff dropped = failed_report diff unreported
apply_result diff (answered r) = r

unfoldable pub dry_run_result : StateDiff → Delivery DryRunReport → DryRunReport
dry_run_result diff refused = preview_report diff (failed_report diff disconnected)
dry_run_result diff dropped = preview_report diff (failed_report diff disconnected)
dry_run_result diff (answered r) = r
