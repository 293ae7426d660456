-- ===== src/Executor/Step/Writes.antt =====
-- Every write of a step comes directly after an observation that shows its target.
use netfyr.Base.{ℕ, String, Bool, true, false, Option, none, some, refl, if◌then◌else◌}
use netfyr.Base.Dict.{contains_key}
use netfyr.Value.{IpAddr}
use netfyr.Plan.{
  NamespaceId, InterfaceId, Ipv4Address, DeviceObservation, Operation, OperationKind, StateDiff,
  ipv4_address,
}
use netfyr.Schema.Registry.{SchemaRegistry}
use netfyr.Executor.Decode.{decode}
use netfyr.Executor.Locate.{locate}
use netfyr.Executor.Groups.{group_key, key_eq, validate_group}
use netfyr.Executor.Satisfied.{satisfied}
use netfyr.Executor.Action.{Io, Execution}
use netfyr.Executor.Step.{
  real_write, confirm_write, verify_address_write, update_groups, perform, attempt, validated,
  step_decoded, step,
}
use netfyr.Executor.Step.Trace.{
  Log, logged, View, view, Inv, Idle, Idle-Inv, Seen, Ready, SeenIdle, ReadyIdle, Triple,
  bind-Triple, pure-Triple, lift_any, reject_if-Triple, modify-Triple, with_state-Triple, weaken,
}
use netfyr.Executor.Step.Observing.{
  SeenIdle-Inv, absorb-Triple, reobserved-Triple, verify_device-Triple, execute-Triple, ask-Triple,
  observe-Triple, locate-Triple,
}

module _ {W : Type 0} (pa : String → Option IpAddr) (schema : SchemaRegistry) (io : Io W)
    (diff : StateDiff) where
  abbrev ns : NamespaceId
  ns = io.namespace

  verify_address_write-Triple :
      (n : ℕ) (op : Operation) (kind : OperationKind) (a : Ipv4Address) (d : DeviceObservation)
      → Triple ns
          (Idle ns)
          (verify_address_write pa schema (logged io) diff false n op kind a d)
          (λ _. Inv ns)
  unfolding verify_address_write
  verify_address_write-Triple n op kind a d =
      bind-Triple ns (Idle ns) (SeenIdle ns) _ _ _ (reobserved-Triple pa schema io diff) λ after.
        let S = SeenIdle ns after in
        bind-Triple ns S (λ _. S) _ _ _ (absorb-Triple pa schema io diff S after)
          λ _.
            bind-Triple ns S (λ _. S) _ _ _
              (lift_any ns S (locate after op.target ns) (SeenIdle-Inv pa schema io diff after))
              λ (position, actual).
                (verify_device-Triple pa schema io diff) n op kind a d after actual

  confirm_write-Triple :
      (n : ℕ) (op : Operation) (kind : OperationKind) (a : Option Ipv4Address)
      (d : DeviceObservation)
      → Triple ns
          (Idle ns)
          (confirm_write pa schema (logged io) diff false n op kind a d)
          (λ _. Inv ns)
  unfolding confirm_write
  confirm_write-Triple n op kind none d =
      pure-Triple ns (Idle ns) (λ _. Inv ns) d (λ v i. Idle-Inv ns v i)
  confirm_write-Triple n op kind (some a) d = verify_address_write-Triple n op kind a d

  Ready-Inv : (t : InterfaceId) (v : View) → Ready ns t v → Inv ns v
  Ready-Inv t (c, l) (j, f, s) = (j, f)

  real_write-Triple :
      (n : ℕ) (op : Operation) (d : DeviceObservation) (kind : OperationKind)
      → Triple ns
          (Ready ns op.target)
          (real_write pa schema (logged io) diff false n op d kind)
          (λ _. Inv ns)
  unfolding real_write
  real_write-Triple n op d kind =
      let R = Ready ns op.target in
      bind-Triple ns R (λ _. R) _ _ _
        (ask-Triple pa schema io diff R (logged io).cancelled (λ v. refl))
        λ stop.
          bind-Triple ns R (λ _. R) _ _ _ (reject_if-Triple ns R stop _ (Ready-Inv op.target))
            λ _.
              bind-Triple ns R (λ _. ReadyIdle ns op.target) _ _ _
                (modify-Triple ns R (ReadyIdle ns op.target) _ (λ x (j, f, s). (j, refl, s)))
                λ _.
                  bind-Triple ns (ReadyIdle ns op.target) (λ _. Idle ns) _ _ _
                    (execute-Triple pa schema io diff op.target kind)
                    λ _.
                      bind-Triple ns (Idle ns) (λ _. Idle ns) _ _ _
                        (ask-Triple pa schema io diff (Idle ns) (logged io).now (λ v. refl))
                        λ now. confirm_write-Triple n op kind (ipv4_address kind) _

  if-current :
      (b : Bool) (x y : Execution (W × Log)) (P : View → Type 0)
      → P (view x)
      → P (view y)
      → P (view (if b then x else y))
  if-current true x y P p q = p
  if-current false x y P p q = q

  update_groups-Triple :
      (op : Operation) (a : Option Ipv4Address) (d : DeviceObservation)
      → Triple ns (Inv ns) (update_groups pa schema (logged io) diff false op a d) (λ _. Inv ns)
  unfolding update_groups
  update_groups-Triple op none d = pure-Triple ns (Inv ns) (λ _. Inv ns) tt (λ v p. p)
  update_groups-Triple op (some a) d =
      bind-Triple ns (Inv ns) (λ _. Inv ns) _ _ _ (lift_any ns (Inv ns) (group_key op a) (λ v p. p))
        λ key.
          modify-Triple ns (Inv ns) (Inv ns) _
            (λ x p. if-current (contains_key key x.groups) _ x (Inv ns) p p)

  perform-Triple :
      (n : ℕ) (op : Operation) (position : ℕ) (d : DeviceObservation) (kind : OperationKind)
      → Triple ns
          (Ready ns op.target)
          (perform pa schema (logged io) diff false n op position d kind)
          (λ _. Inv ns)
  unfolding perform
  perform-Triple n op position d kind =
      bind-Triple ns (Ready ns op.target) (λ _. Inv ns) _ _ _ (real_write-Triple n op d kind)
        λ predicted.
          bind-Triple ns (Inv ns) (λ _. Inv ns) _ _ _
            (modify-Triple ns (Inv ns) (Inv ns) _ (λ x p. p))
            λ _. update_groups-Triple op (ipv4_address kind) predicted

  attempt-Triple :
      (n : ℕ) (op : Operation) (position : ℕ) (d : DeviceObservation) (kind : OperationKind)
      (done : Bool)
      → Triple ns
          (Ready ns op.target)
          (attempt pa schema (logged io) diff false n op position d kind done)
          (λ _. Inv ns)
  unfolding attempt
  attempt-Triple n op position d kind true =
      pure-Triple ns (Ready ns op.target) (λ _. Inv ns) _ (Ready-Inv op.target)
  attempt-Triple n op position d kind false =
      let R = Ready ns op.target in
      bind-Triple ns R (λ _. R) _ _ _
        (with_state-Triple ns R (λ _. R) _
          λ x. weaken ns R _ _ (λ _. R) (λ v (p, e). p) (lift_any ns R _ (Ready-Inv op.target)))
        λ _.
          bind-Triple ns R (λ _. Inv ns) _ _ _ (perform-Triple n op position d kind)
            λ _. pure-Triple ns (Inv ns) (λ _. Inv ns) none (λ v p. p)

  validated-Triple :
      (op : Operation) (d : DeviceObservation) (kind : OperationKind)
      → Triple ns
          (Ready ns op.target)
          (validated pa schema (logged io) diff false op d kind)
          (λ _. Ready ns op.target)
  validated-Triple op d kind = record {
    at = λ x p.
        let (r, groups) = validate_group op d kind x.groups in
        (lift_any ns (Ready ns op.target) r (Ready-Inv op.target)).at (record x { groups = groups })
          p;
  }

  step_decoded-Triple :
      (n : ℕ) (op : Operation) (position : ℕ) (d : DeviceObservation) (kind : Option OperationKind)
      → Triple ns
          (Ready ns op.target)
          (step_decoded pa schema (logged io) diff false n op position d kind)
          (λ _. Inv ns)
  unfolding step_decoded
  step_decoded-Triple n op position d none =
      pure-Triple ns (Ready ns op.target) (λ _. Inv ns) _ (Ready-Inv op.target)
  step_decoded-Triple n op position d (some kind) =
      let R = Ready ns op.target in
      bind-Triple ns R (λ _. R) _ _ _ (validated-Triple op d kind)
        λ _.
          bind-Triple ns R (λ _. R) _ _ _
            (lift_any ns R (satisfied kind d op) (Ready-Inv op.target))
            λ done. attempt-Triple n op position d kind done

  pub step-Triple :
      (n : ℕ) (op : Operation)
      → Triple ns (Inv ns) (step pa schema (logged io) diff false n op) (λ _. Inv ns)
  unfolding step
  step-Triple n op =
      let I = Inv ns in
      bind-Triple ns I (λ _. I) _ _ _
        (ask-Triple pa schema io diff I (logged io).cancelled (λ v. refl))
        λ stop.
          bind-Triple ns I (λ _. I) _ _ _ (reject_if-Triple ns I stop _ (λ v p. p))
            λ _.
              bind-Triple ns I (λ _. I) _ _ _ (lift_any ns I (decode pa schema op.kind) (λ v p. p))
                λ kind. bind-Triple ns I (Seen ns) _ _ _ (observe-Triple pa schema io diff) λ o.
                  bind-Triple ns (Seen ns o) (λ _. Ready ns op.target) _ _ _
                    (locate-Triple pa schema io diff o op.target)
                    λ (position, device). step_decoded-Triple n op position device kind
