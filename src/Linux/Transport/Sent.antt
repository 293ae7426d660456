-- ===== src/Linux/Transport/Sent.antt =====
-- What the transport sends to the kernel for a write.
use netfyr.Base.{ℕ, ◌≡◌, refl, ap, ◌∙◌, List, ◌∷◌, Result, ok, err}
use netfyr.Base.Equality.{nat_eq, string_eq, option_eq, pair_eq}
use netfyr.Plan.{InterfaceId, OperationKind}
use netfyr.Plan.Identity.{namespace_eq}
use netfyr.Report.{BackendError}
use netfyr.Linux.Exchange.{write, Library}
use netfyr.Linux.Transport.Actions.{bind_cases}
use netfyr.Linux.Transport.{
  RouteMessage, get_link, Socket, Action, pure, resume, ◌>>=◌, ◌>>◌, link_request, write_message,
  request, confirm_identity, execute,
}
use netfyr.Linux.Transport.Confirming.{
  logged, sent, Logged, Grows, same, one, request-Grows, IsConfirmed, Confirming, refused_identity,
  confirmed_identity, confirm_identity-Confirming,
}

module _ {W : Type 0} (library : Library) (socket : Socket W) where
  -- What a call of `execute` sent: nothing; the query of the target; or this and after it the write,
  -- of a target that was confirmed.
  pub data Sent (target : InterfaceId) (operation : OperationKind) (c after : Logged W)
      : Type 0 where
    nothing : sent after ≡ sent c → Sent target operation c after
    queried :
        sent after ≡ get_link (link_request target.index) ∷ sent c → Sent target operation c after
    wrote :
        (message : RouteMessage) (flags : ℕ) (seen : Logged W)
        → write_message c.transport.address_messages target.index operation ≡ ok (message, flags)
        → target.namespace ≡ c.transport.namespace
        → IsConfirmed library socket target c seen
        → sent after ≡ message ∷ get_link (link_request target.index) ∷ sent c
        → Sent target operation c after

  Grows-Sent :
      (target : InterfaceId) (operation : OperationKind) (c d : Logged W)
      → Grows (get_link (link_request target.index)) (sent c) (sent d)
      → Sent target operation c d
  Grows-Sent target operation c d (same e) = nothing e
  Grows-Sent target operation c d (one e) = queried e

  written_Sent :
      (target : InterfaceId) (operation : OperationKind) (message : RouteMessage) (flags : ℕ)
      (c seen : Logged W)
      → write_message c.transport.address_messages target.index operation ≡ ok (message, flags)
      → target.namespace ≡ c.transport.namespace
      → IsConfirmed library socket target c seen
      → sent seen ≡ get_link (link_request target.index) ∷ sent c
      → (after : Logged W) → Grows message (sent seen) (sent after)
      → Sent target operation c after
  written_Sent target operation message flags c seen built own ok_seen log after (same e) =
      queried (e ∙ log)
  written_Sent target operation message flags c seen built own ok_seen log after (one e) =
      wrote message flags seen built own ok_seen (e ∙ ap (λ l. message ∷ l) log)

  refused_Sent :
      (target : InterfaceId) (operation : OperationKind) (c : Logged W) (e : BackendError)
      (d : Logged W)
      → Confirming library socket target c (err e, d)
      → Sent target operation c d
  refused_Sent target operation c e d (refused_identity _ _ grown) =
      Grows-Sent target operation c d grown
  refused_Sent target operation c e d (confirmed_identity own k log) = queried log

  confirmed_Sent :
      (target : InterfaceId) (operation : OperationKind) (message : RouteMessage) (flags : ℕ)
      (c d : Logged W)
      → write_message c.transport.address_messages target.index operation ≡ ok (message, flags)
      → Confirming library socket target c (ok tt, d)
      → (after : Logged W) → Grows message (sent d) (sent after)
      → Sent target operation c after
  confirmed_Sent target operation message flags c d built (refused_identity e q _) after grown = cc
  confirmed_Sent target operation message flags c d built (confirmed_identity own k log) after
        grown =
      written_Sent target operation message flags c d built own k log after grown

  finish : RouteMessage → ℕ → Action (W × List RouteMessage) (Unit {0})
  finish message flags = request library (logged socket) message write flags >> pure tt

  finish-Grows :
      (message : RouteMessage) (flags : ℕ) (d : Logged W)
      → Grows message (sent d) (sent (finish message flags d).1)
  unfolding finish
  finish-Grows message flags d =
      let log = request-Grows library socket message write flags d in
      bind_cases (λ r. Grows message (sent d) (sent r.1))
        (request library (logged socket) message write flags) (λ _. pure tt) d
        (λ e s h. rw h at log) (λ a s h. rw h at log)

  -- Whatever comes of a call, and whatever the kernel answers, the write is sent at most once, and
  -- only to a target of the transport's namespace that was confirmed directly before: its index was
  -- queried, the reply has its name, and after the notifications that came in with the reply the
  -- generation of the index is still the target's. Nothing else is sent.
  pub execute-Sent :
      (target : InterfaceId) (operation : OperationKind) (c : Logged W)
      → Sent target operation c (execute library (logged socket) target operation c).1
  unfolding execute ◌>>=◌ finish
  execute-Sent target operation c =
      go (write_message c.transport.address_messages target.index operation) refl
    where
      go :
          (r : Result (RouteMessage × ℕ) BackendError)
          → write_message c.transport.address_messages target.index operation ≡ r
          → Sent target operation c
              (resume
                (λ p. confirm_identity library (logged socket) target >> finish p.0 p.1)
                (r, c)).1
      go (err e) built = nothing refl
      go (ok (message, flags)) built =
          bind_cases (λ r. Sent target operation c r.1)
            (confirm_identity library (logged socket) target) (λ _. finish message flags) c
            (λ e d h.
              refused_Sent target operation c e d
                (rw h at (confirm_identity-Confirming library socket target c)))
            (λ a d h.
              confirmed_Sent target operation message flags c d built
                (rw h at (confirm_identity-Confirming library socket target c))
                (finish message flags d).1 (finish-Grows message flags d))
