-- ===== src/Linux/Transport/Confirming.antt =====
-- What the confirmation of a target has sent and found.
use netfyr.Base.{
  ℕ, ◌≡◌, refl, sym, ap, ◌∙◌, arith, String, false, some, List, ◌∷◌, Result, ok, err, Bool-cases,
  inl, inr,
}
use netfyr.Base.Dict.{get}
use netfyr.Base.Equality.{◌==◌, nat_eq, string_eq, option_eq, pair_eq}
use netfyr.Plan.{InterfaceId}
use netfyr.Plan.Identity.{namespace_eq}
use netfyr.Report.{BackendError}
use netfyr.Linux.{RoutePacket}
use netfyr.Linux.Exchange.{Exchange, read, Library}
use netfyr.Linux.Transport.Actions.{bind_cases}
use netfyr.Linux.Transport.{
  RouteMessage, get_link, Socket, Connection, LinuxTransport, lift, resume, ◌>>=◌, ◌>>◌,
  with_transport, link_request, reply_name, drain, exchange_with, request, is_stale, check_current,
  confirm_identity,
}

module _ {W : Type 0} where
  -- The socket with the list of the messages that were sent, the last one first.
  abbrev pub logged : Socket W → Socket (W × List RouteMessage)
  logged socket = record {
    ready = λ (w, log). let (items, next) = socket.ready w in (items, (next, log));
    send = λ message flags (w, log).
        let (answer, next) = socket.send message flags w in (answer, (next, message ∷ log));
  }

  abbrev pub sent : Connection (W × List RouteMessage) → List RouteMessage
  sent c = c.world.1

-- A connection whose kernel has the list of what was sent.
abbrev pub Logged : Type 0 → Type 0
Logged W = Connection (W × List RouteMessage)

-- Nothing was sent, or just this message.
pub data Grows (message : RouteMessage) (before after : List RouteMessage) : Type 0 where
  same : after ≡ before → Grows message before after
  one : after ≡ message ∷ before → Grows message before after

module _ {W : Type 0} (library : Library) (socket : Socket W) where
  drain-sent : (c : Logged W) → sent (drain library (logged socket) c).1 ≡ sent c
  unfolding drain
  drain-sent c = refl

  drained_to :
      {r : Result (Unit {0}) BackendError} (c d : Logged W)
      → drain library (logged socket) c ≡ (r, d)
      → sent d ≡ sent c
  drained_to c d h =
      ap (λ (p : Result (Unit {0}) BackendError × Logged W). sent p.1) (sym h) ∙ drain-sent c

  pub request-Grows :
      (message : RouteMessage) (x : Exchange) (flags : ℕ) (c : Logged W)
      → Grows message (sent c) (sent (request library (logged socket) message x flags c).1)
  unfolding request
  request-Grows message x flags c =
      bind_cases (λ r. Grows message (sent c) (sent r.1)) (drain library (logged socket))
        (λ _. exchange_with library (logged socket) message x flags) c
        (λ e d h. same (drained_to c d h)) (λ a d h. one (ap (λ l. message ∷ l) (drained_to c d h)))

  -- How the drained target of a write was confirmed: the kernel's answer to a query of its index has
  -- the target's name, and in the state after it the generation is the target's.
  pub record IsConfirmed (target : InterfaceId) (c seen : Logged W) : Type 0 where
    asked : Logged W
    reply : List RoutePacket
    answered :
        request library (logged socket) (get_link (link_request target.index)) read 0 c
        ≡ (ok reply, asked)
    named : reply_name reply ≡ ok target.name
    drained : drain library (logged socket) asked ≡ (ok tt, seen)
    current : get target.index seen.transport.tracking.generations ≡ some target.generation

  pub data Confirming (target : InterfaceId) (c : Logged W)
      (r : Result (Unit {0}) BackendError × Logged W) : Type 0 where
    refused_identity :
        (e : BackendError)
        → r.0 ≡ err e
        → Grows (get_link (link_request target.index)) (sent c) (sent r.1)
        → Confirming target c r
    confirmed_identity :
        target.namespace ≡ c.transport.namespace
        → IsConfirmed target c r.1
        → sent r.1 ≡ get_link (link_request target.index) ∷ sent c
        → Confirming target c r

  request-sent :
      (message : RouteMessage) (x : Exchange) (flags : ℕ) (c d : Logged W) (ps : List RoutePacket)
      → request library (logged socket) message x flags c ≡ (ok ps, d)
      → sent d ≡ message ∷ sent c
  unfolding request
  request-sent message x flags c d ps =
      bind_cases (λ r. r ≡ (ok ps, d) → sent d ≡ message ∷ sent c) (drain library (logged socket))
        (λ _. exchange_with library (logged socket) message x flags) c
        (λ e s h g. let no : err e ≡ ok ps = ap (λ p. p.0) g in cc)
        (λ a s h g.
          ap (λ (p : Result (List RoutePacket) BackendError × Logged W). sent p.1) (sym g)
          ∙ ap (λ l. message ∷ l) (drained_to c s h))

  not_stale :
      (target : InterfaceId) (name : String) (t : LinuxTransport)
      → is_stale library (logged socket) target name t ≡ false
      → (get target.index t.tracking.generations ≡ some target.generation) × (name ≡ target.name)
  not_stale target name t h =
      let generation =
        option_eq.same_iff (get target.index t.tracking.generations) (some target.generation) in
      let text = string_eq.same_iff name target.name in ground (arith, generation, text)

  named_Confirming :
      (target : InterfaceId) (c asked seen : Logged W) (reply : List RoutePacket)
      → target.namespace ≡ c.transport.namespace
      → request library (logged socket) (get_link (link_request target.index)) read 0 c
        ≡ (ok reply, asked)
      → drain library (logged socket) asked ≡ (ok tt, seen)
      → (r : Result String BackendError) → reply_name reply ≡ r
      → Confirming target c (
          resume
            (λ name. with_transport λ t. lift (check_current library (logged socket) target name t))
            (r, seen))
  named_Confirming target c asked seen reply own answered drained r named = go r named
    where
      log : sent seen ≡ get_link (link_request target.index) ∷ sent c
      log = drained_to asked seen drained ∙ request-sent _ read 0 c asked reply answered

      go :
          (r : Result String BackendError)
          → reply_name reply ≡ r
          → Confirming target c (
              resume
                (λ name.
                  with_transport λ t. lift (check_current library (logged socket) target name t))
                (r, seen))
      go (err e) h = refused_identity e refl (one log)
      go (ok name) h =
          elim (Bool-cases (is_stale library (logged socket) target name seen.transport)) [
            | inl bad ↦ rw bad (refused_identity _ refl (one log))
            | inr good ↦
                let (generation, e) = not_stale target name seen.transport good in
                rw good (
                  confirmed_identity own
                    (record {
                      asked = asked;
                      reply = reply;
                      answered = answered;
                      named = h ∙ ap ok e;
                      drained = drained;
                      current = generation;
                    })
                    log)
          ]

  asked_Confirming :
      (target : InterfaceId) (c : Logged W)
      → target.namespace ≡ c.transport.namespace
      → Confirming target c (
          (request library (logged socket) (get_link (link_request target.index)) read 0
              >>= λ reply.
                  drain library (logged socket)
                  >> (lift (reply_name reply) >>= λ name.
                      with_transport
                        λ t. lift (check_current library (logged socket) target name t)))
            c)
  unfolding ◌>>=◌
  asked_Confirming target c own =
      bind_cases (Confirming target c)
        (request library (logged socket) (get_link (link_request target.index)) read 0)
        (λ reply.
          drain library (logged socket)
          >> (lift (reply_name reply) >>= λ name.
              with_transport λ t. lift (check_current library (logged socket) target name t)))
        c
        (λ e asked h.
          refused_identity e refl
            (rw h at (request-Grows (get_link (link_request target.index)) read 0 c)))
        (λ reply asked h.
          bind_cases (Confirming target c) (drain library (logged socket))
            (λ _. lift (reply_name reply) >>= λ name.
              with_transport λ t. lift (check_current library (logged socket) target name t))
            asked
            (λ e seen g.
              refused_identity e refl
                (one (drained_to asked seen g ∙ request-sent _ read 0 c asked reply h)))
            (λ _ seen g.
              named_Confirming target c asked seen reply own h g (reply_name reply) refl))

  pub confirm_identity-Confirming :
      (target : InterfaceId) (c : Logged W)
      → Confirming target c (confirm_identity library (logged socket) target c)
  unfolding confirm_identity ◌>>=◌
  confirm_identity-Confirming target c =
      elim (Bool-cases (target.namespace == c.transport.namespace)) [
        | inl own ↦ rw own (
            asked_Confirming target c
              ((namespace_eq.same_iff target.namespace c.transport.namespace).0 own))
        | inr foreign ↦ rw foreign (refused_identity _ refl (same refl))
      ]
