-- ===== src/Worker/Linux/Answers.antt =====
-- What the worker of an opened backend answers.
use netfyr.Base.{
  ℕ, ◌≡◌, String, Bool, false, ◌&&◌, Option, List, [], ◌∷◌, keep, All, All-append, Bool-cases, inl,
  inr, is_nil, is_some, Result, ok, err,
}
use netfyr.Value.{IpAddr}
use netfyr.Device.{Match}
use netfyr.Plan.{NamespaceId, DeviceObservation, Observation}
use netfyr.Report.{BackendError}
use netfyr.Executor.Step.Keeps.{IsClosed}
use netfyr.Executor.Run.Outside.{apply_plan-outside, preview_plan-outside}
use netfyr.Linux.{Notification}
use netfyr.Linux.Exchange.{Library}
use netfyr.Linux.Transport.{Connection}
use netfyr.Linux.Transport.Namespaced.{IsAt, Ends, Any, execute-Keeps}
use netfyr.Linux.Inventory.{System}
use netfyr.Linux.Inventory.Namespaced.{ObservesHere, inventory-Keeps}
use netfyr.Linux.Io.{linux_io}
use netfyr.Linux.Open.{Thread}
use netfyr.Worker.{
  Request, query, apply, preview, Reply, observed, applied, previewed, Transport, Worker, Step,
  send, notify, serve, answer, handle, filter_observation, may_match, selected,
}
use netfyr.Worker.Order.{Steps, start, then_step, fresh}
use netfyr.Worker.Open.{Host, NetlinkBackend, open_backend}
use netfyr.Worker.Open.Within.{IsHost, open_backend-IsWithin}
use netfyr.Worker.Linux.{linux_transport}

-- The devices that a reply lists are in the namespace.
abbrev pub Lists : NamespaceId → Reply → Type 0
Lists n (observed (ok o)) = All (λ d. d.identity.namespace ≡ n) o.devices
Lists n (observed (err e)) = Unit
Lists n (applied r) = Unit
Lists n (previewed r) = Unit

keep-All :
    (P : DeviceObservation → Type 0) (p : DeviceObservation → Bool) (ds : List DeviceObservation)
    → All P ds
    → All P (keep p ds)
keep-All P p [] h = tt
keep-All P p (d ∷ ds) h = elim (Bool-cases (p d)) [
  | inl yes_kept ↦ rw yes_kept (h.0, keep-All P p ds h.1)
  | inr left_out ↦ rw left_out (keep-All P p ds h.1)
]

module _ {W : Type 0} (n : NamespaceId) where
  Ends-IsAt :
      {A : Type 0} (Q : A → Type 0) (r : Result A BackendError × Connection W)
      → Ends n Q r
      → IsAt n r.1
  Ends-IsAt Q (ok a, d) h = h.0
  Ends-IsAt Q (err e, d) h = h

  module _ (library : Library) (system : System W) where
    linux_io-IsClosed :
        (cancelled : W → Bool × W) → IsClosed (linux_io library system n cancelled) (IsAt n)
    linux_io-IsClosed cancelled = record {
      inventory = λ c at. Ends-IsAt _ _ (inventory-Keeps n library system (λ selector. false) c at);
      execute = λ i k c at. Ends-IsAt Any _ (execute-Keeps n library system.socket i k c at);
      now = λ c at. at;
      cancelled = λ c at. at;
    }

    filtered_Lists :
        (debug : Match → String) (selector : Match)
        (r : Result Observation BackendError × Connection W)
        → Ends n (ObservesHere n library system) r
        → Lists n (observed (filter_observation debug selector r.0))
    unfolding filter_observation
    filtered_Lists debug selector (err e, d) h = tt
    filtered_Lists debug selector (ok o, d) h =
        elim (Bool-cases (is_nil (keep (selected selector) o.devices) && is_some selector.name)) [
          | inl none_found ↦ rw none_found tt
          | inr found ↦
              rw found (keep-All (λ x. x.identity.namespace ≡ n) (selected selector) o.devices h.1)
        ]

    module _ (pa : String → Option IpAddr) (cancelled : W → Bool × W) (next : W → Notification × W)
        (debug : Match → String) where
      abbrev transport_here : Transport (Connection W)
      transport_here = linux_transport library system n cancelled next debug

      handle-Lists :
          (q : Request) (c : Connection W)
          → IsAt n c
          → let (reply, d) = handle pa transport_here q c in Lists n reply × IsAt n d
      unfolding handle linux_transport
      handle-Lists (query selector) c at =
          let ends = inventory-Keeps n library system (may_match selector) c at in
          (filtered_Lists debug selector _ ends, Ends-IsAt _ _ ends)
      handle-Lists (apply diff) c at =
          (tt, apply_plan-outside (IsAt n) pa _ (linux_io-IsClosed cancelled) diff c at)
      handle-Lists (preview diff) c at =
          (tt, preview_plan-outside (IsAt n) pa _ (linux_io-IsClosed cancelled) diff c at)

      -- The replies so far list devices of the namespace, and the transport is in it.
      record IsInside (s : Worker (Connection W)) : Type 0 where
        replies : All (λ r. Lists n r.1) s.replies
        connected : IsAt n s.world

      notified_IsAt : (c : Connection W) → IsAt n c → IsAt n (transport_here.notified c)
      unfolding linux_transport
      notified_IsAt c at = at

      answer-IsInside :
          (id : ℕ) (q : Request) (rest : List (ℕ × Request)) (s : Worker (Connection W))
          → IsInside s
          → IsInside (answer pa transport_here id rest s (handle pa transport_here q s.world))
      answer-IsInside id q rest s h =
          let (lists, at) = handle-Lists q s.world h.connected in
          record {
            replies = All-append (λ r. Lists n r.1) s.replies _ h.replies (lists, tt);
            connected = at;
          }

      steps-IsInside :
          (s s' : Worker (Connection W)) → Steps pa transport_here s s' → IsInside s → IsInside s'
      steps-IsInside s _ start h = h
      steps-IsInside s _ (then_step {s₁} {s₂} run one) h =
          step_inside s₁ s₂ one (steps-IsInside s s₁ run h)
        where
          step_inside :
              (s₁ s₂ : Worker (Connection W))
              → Step pa transport_here s₁ s₂
              → IsInside s₁
              → IsInside s₂
          step_inside s₁ _ (send q room) h = record { replies = h.replies; connected = h.connected }
          step_inside s₁ _ notify h = record {
            replies = h.replies;
            connected = notified_IsAt s₁.world h.connected;
          }
          step_inside s₁ _ (serve id q rest e) h = answer-IsInside id q rest s₁ h

-- Every device that a backend lists in a reply is in the namespace that the backend reports: when a
-- backend opens on a system that meets `IsHost`, then in every state that its worker reaches, by
-- queries, plans, previews and notifications in any order, and whatever the kernel answers to them.
pub opened-Lists :
    {W : Type 0} (host : Host) (path : String) (origin : NamespaceId) (b : NetlinkBackend)
    (after : Thread) (library : Library) (system : System W) (pa : String → Option IpAddr)
    (cancelled : W → Bool × W) (next : W → Notification × W) (debug : Match → String) (w : W)
    (s : Worker (Connection W))
    → IsHost host
    → open_backend host path (record { namespace = origin; sockets = [] }) ≡ (ok b, after)
    → Steps pa
        (linux_transport library system b.namespace cancelled next debug)
        (fresh pa
          (linux_transport library system b.namespace cancelled next debug)
          (record { transport = b.transport; world = w }))
        s
    → All (λ r. Lists b.namespace r.1) s.replies
opened-Lists host path origin b after library system pa cancelled next debug w s laws opens run =
    let (within_it, same) = open_backend-IsWithin host laws path origin b after opens in
    (steps-IsInside b.namespace library system pa cancelled next debug _ s run
      (record { replies = tt; connected = same })).replies
