-- ===== src/Executor/Step/Observing.antt =====
-- What observing, locating, executing and checking do to the log.
use netfyr.Base.{
  ℕ, String, false, Option, none, some, [], ◌∷◌, ◌≡◌, refl, sym, ap, subst, Result, ok, err,
}
use netfyr.Value.{IpAddr}
use netfyr.Plan.{
  NamespaceId, InterfaceId, Ipv4Address, DeviceObservation, Observation, Operation, OperationKind,
  StateDiff,
}
use netfyr.Schema.Registry.{SchemaRegistry}
use netfyr.Report.{BackendError}
use netfyr.Executor.Locate.{locate}
use netfyr.Executor.Locate.Sound.{locate_sound}
use netfyr.Executor.Groups.{group_key, key_eq}
use netfyr.Executor.Action.{Io, Execution, lift, ask, call}
use netfyr.Executor.Step.{absorb, observe_from, observe, reobserve, reobserved, verify_device}
use netfyr.Executor.Step.Trace.{
  observed, wrote, Log, logged, log_inventory, Shows, JustSeen, IsLatest, IsFresh, View, view, Inv,
  Idle, Idle-Inv, Seen, Ready, SeenIdle, ReadyIdle, After, Triple, bind-Triple, pure-Triple,
  lift-Triple, lift_any, reject_if-Triple, modify-Triple, with_state-Triple, weaken,
}

module _ {W : Type 0} (pa : String → Option IpAddr) (schema : SchemaRegistry) (io : Io W)
    (diff : StateDiff) where
  abbrev ns : NamespaceId
  ns = io.namespace

  pub absorb-Triple :
      (P : View → Type 0) (o : Observation)
      → Triple ns P (absorb pa schema (logged io) diff false o) (λ _. P)
  unfolding absorb
  absorb-Triple P o = modify-Triple ns P P _ (λ x p. p)

  inventory-After :
      (x : Execution (W × Log)) (r : Result Observation BackendError × W)
      → Idle ns (view x)
      → After ns
          (SeenIdle ns)
          (let (s, w) = log_inventory r x.world.1 in (s, record x { world = w }))
  inventory-After x (ok o, w) (j, e) = (j, e, refl)
  inventory-After x (err b, w) i = Idle-Inv ns (view x) i

  inventory-Triple : Triple ns (Idle ns) (call (logged io).inventory) (SeenIdle ns)
  inventory-Triple = record { at = λ x i. inventory-After x (io.inventory x.world.0) i }

  observe_from-Triple :
      (c : Option Observation)
      → Triple ns
          (λ v. Inv ns v × (v.0 ≡ c))
          (observe_from pa schema (logged io) diff false c)
          (Seen ns)
  unfolding observe_from
  observe_from-Triple (some o) =
      pure-Triple ns _ (Seen ns) o
        (λ v ((j, f), e). let kept = subst (λ c. IsFresh c v.1) e f in (j, f, kept))
  observe_from-Triple none =
      bind-Triple ns _ (SeenIdle ns) _ _ _
        (weaken ns (Idle ns) _ _ (SeenIdle ns) (λ v ((j, f), e). (j, e)) inventory-Triple)
        λ o.
          bind-Triple ns _ (λ _. SeenIdle ns o) _ _ _ (absorb-Triple (SeenIdle ns o) o)
            λ _.
              bind-Triple ns _ (λ _. Seen ns o) _ _ _
                (modify-Triple ns _ (Seen ns o) _ (λ x (j, e, l). (j, l, l)))
                λ _. pure-Triple ns _ (Seen ns) o (λ v p. p)

  pub observe-Triple : Triple ns (Inv ns) (observe pa schema (logged io) diff false) (Seen ns)
  unfolding observe
  observe-Triple = with_state-Triple ns (Inv ns) (Seen ns) _ (λ x.
      weaken ns _ _ _ (Seen ns) (λ v (i, e). (i, ap (λ w. w.0) e)) (observe_from-Triple x.current))

  just_seen :
      (t : InterfaceId) (o : Observation) (l : Log) → IsLatest o l → Shows ns t o → JustSeen ns t l
  just_seen t o [] h s = h
  just_seen t o (observed p ∷ l) h s = subst (Shows ns t) (sym h) s
  just_seen t o (wrote u k ∷ l) h s = h

  pub locate-Triple :
      (o : Observation) (t : InterfaceId)
      → Triple {W = W} ns (Seen ns o) (lift (locate o t ns)) (λ _. Ready ns t)
  locate-Triple o t =
      lift-Triple ns (Seen ns o) (λ _. Ready ns t) (locate o t ns)
        (λ (i, d) e (c, l) (j, f, latest).
          let (listed, exact, managed, local) = locate_sound o t ns i d e in
          let shows : Shows ns t o = record {
            position = i;
            device = d;
            listed = listed;
            exact = exact;
            managed = managed;
            local = local;
          } in
          (j, f, just_seen t o l latest shows))
        (λ v (j, f, latest). (j, f))

  pub execute-Triple :
      (t : InterfaceId) (kind : OperationKind)
      → Triple ns (ReadyIdle ns t) (call ((logged io).execute t kind)) (λ _. Idle ns)
  execute-Triple t kind = record {
    at = λ x (j, e, s).
        let (r, w) = io.execute t kind x.world.0 in
        (lift_any ns (Idle ns) r (Idle-Inv ns)).at
          (record x { world = (w, wrote t kind ∷ x.world.1) }) ((s, j), e);
  }

  pub ask-Triple :
      {A : Type 0} (P : View → Type 0) (f : W × Log → A × (W × Log))
      → ((v : W × Log) → (f v).1.1 ≡ v.1)
      → Triple ns P (ask f) (λ _. P)
  ask-Triple P f h = record { at = λ x p. subst (λ l. P (x.current, l)) (sym (h x.world)) p }

  pub reobserved-Triple :
      Triple ns (Idle ns) (reobserve pa schema (logged io) diff false) (SeenIdle ns)
  unfolding reobserve
  reobserved-Triple = record { at = λ x i. after x (io.inventory x.world.0) i }
    where
      after :
          (x : Execution (W × Log)) (r : Result Observation BackendError × W)
          → Idle ns (view x)
          → After ns (SeenIdle ns) (
              let (s, w) = log_inventory r x.world.1 in
              (reobserved pa schema (logged io) diff false s, record x { world = w }))
      after x (ok o, w) (j, e) = (j, e, refl)
      after x (err b, w) i = Idle-Inv ns (view x) i

  pub SeenIdle-Inv : (o : Observation) (v : View) → SeenIdle ns o v → Inv ns v
  SeenIdle-Inv o (c, l) (j, e, latest) = Idle-Inv ns (c, l) (j, e)

  pub verify_device-Triple :
      (n : ℕ) (op : Operation) (kind : OperationKind) (a : Ipv4Address)
      (predicted : DeviceObservation) (after : Observation) (actual : DeviceObservation)
      → Triple ns
          (SeenIdle ns after)
          (verify_device pa schema (logged io) diff false n op kind a predicted after actual)
          (λ _. Inv ns)
  unfolding verify_device
  verify_device-Triple n op kind a predicted after actual =
      let S = SeenIdle ns after in
      let weak = SeenIdle-Inv after in
      bind-Triple ns S (λ _. S) _ _ _ (reject_if-Triple ns S _ _ weak)
        λ _.
          bind-Triple ns S (λ _. S) _ _ _ (lift_any ns S (group_key op a) weak)
            λ key.
              bind-Triple ns S (λ _. S) _ _ _
                (with_state-Triple ns S (λ _. S) _
                  λ x. weaken ns S _ _ (λ _. S) (λ v (p, e). p) (reject_if-Triple ns S _ _ weak))
                λ _.
                  bind-Triple ns S (λ _. Inv ns) _ _ _
                    (modify-Triple ns S (Inv ns) _ (λ x (j, e, l). (j, l)))
                    λ _. pure-Triple ns (Inv ns) (λ _. Inv ns) actual (λ v p. p)
