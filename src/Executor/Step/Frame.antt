-- ===== src/Executor/Step/Frame.antt =====
-- `step` keeps the marks of the operations that later ones may depend on, and skips an operation only
-- because it is satisfied already or read-only.
use netfyr.Base.{ℕ, String, Bool, true, false, not, Option, none, some, ◌≡◌, refl, if◌then◌else◌}
use netfyr.Base.Dict.{contains_key}
use netfyr.Value.{IpAddr}
use netfyr.Plan.{
  Ipv4Address, DeviceObservation, Observation, Operation, OperationKind, StateDiff, ipv4_address,
}
use netfyr.Schema.Registry.{SchemaRegistry}
use netfyr.Report.{SkipReason, is_blocked, already_satisfied, read_only}
use netfyr.Executor.Decode.{decode}
use netfyr.Executor.Locate.{locate}
use netfyr.Executor.Groups.{group_key, key_eq}
use netfyr.Executor.Satisfied.{satisfied}
use netfyr.Executor.Action.{Io, Execution, Action}
use netfyr.Executor.Step.{
  absorb, observe_from, observe, preview_write, real_write, reobserve, confirm_write, verify_device,
  verify_address_write, differs_after_write, update_groups, perform, attempt, validated,
  step_decoded, step,
}
use netfyr.Executor.Step.Keeps.{
  Anything, Keeps, IsClosed, result-Anything, then-Keeps, lift-Keeps, ask-Keeps, call-Keeps,
  reject_if-Keeps, pure-Keeps, modify-Keeps, with_state-Keeps,
}

-- The result of a step is no skip because of a dependency.
abbrev pub IsUnblocked : Option SkipReason → Type 0
IsUnblocked s = is_blocked s ≡ false

module _ {W : Type 0} (pa : String → Option IpAddr) (schema : SchemaRegistry) (io : Io W)
    (diff : StateDiff) (preview : Bool) (J : W → Type 0) (closed : IsClosed io J) where
  absorb-Keeps : (o : Observation) → Keeps J Anything (absorb pa schema io diff preview o)
  unfolding absorb
  absorb-Keeps o = modify-Keeps _ (λ x. refl) (λ x. refl)

  observe_from-Keeps :
      (o : Option Observation) → Keeps J Anything (observe_from pa schema io diff preview o)
  unfolding observe_from
  observe_from-Keeps (some o) = pure-Keeps Anything o tt
  observe_from-Keeps none = then-Keeps Anything _ _ (call-Keeps io.inventory closed.inventory) λ o.
      then-Keeps Anything _ _ (absorb-Keeps o) λ _.
        then-Keeps Anything _ _ (modify-Keeps _ (λ x. refl) (λ x. refl))
          λ _. pure-Keeps Anything o tt

  verify_device-Keeps :
      (n : ℕ) (op : Operation) (kind : OperationKind) (a : Ipv4Address)
      (predicted : DeviceObservation) (after : Observation) (actual : DeviceObservation)
      → Keeps J Anything
          (verify_device pa schema io diff preview n op kind a predicted after actual)
  unfolding verify_device
  verify_device-Keeps n op kind a predicted after actual =
      then-Keeps Anything _ _ (reject_if-Keeps (not actual.addresses_complete) _) λ _.
        then-Keeps Anything _ _ (lift-Keeps (group_key op a)) λ key.
          then-Keeps Anything _ _
            (with_state-Keeps Anything _ (λ x.
              reject_if-Keeps
                (differs_after_write pa schema io diff preview n op kind key predicted actual
                  x.eligible)
                _))
            λ _.
              then-Keeps Anything _ _ (modify-Keeps _ (λ x. refl) (λ x. refl))
                λ _. pure-Keeps Anything actual tt

  verify_address_write-Keeps :
      (n : ℕ) (op : Operation) (kind : OperationKind) (a : Ipv4Address) (d : DeviceObservation)
      → Keeps J Anything (verify_address_write pa schema io diff preview n op kind a d)
  unfolding verify_address_write reobserve
  verify_address_write-Keeps n op kind a d =
      then-Keeps Anything _ _ (call-Keeps _ closed.inventory) λ after.
        then-Keeps Anything _ _ (absorb-Keeps after) λ _.
          then-Keeps Anything _ _ (lift-Keeps (locate after op.target io.namespace))
            λ (p, actual). verify_device-Keeps n op kind a d after actual

  confirm_write-Keeps :
      (n : ℕ) (op : Operation) (kind : OperationKind) (a : Option Ipv4Address)
      (d : DeviceObservation)
      → Keeps J Anything (confirm_write pa schema io diff preview n op kind a d)
  unfolding confirm_write
  confirm_write-Keeps n op kind none d = pure-Keeps Anything d tt
  confirm_write-Keeps n op kind (some a) d = verify_address_write-Keeps n op kind a d

  real_write-Keeps :
      (n : ℕ) (op : Operation) (d : DeviceObservation) (kind : OperationKind)
      → Keeps J Anything (real_write pa schema io diff preview n op d kind)
  unfolding real_write
  real_write-Keeps n op d kind =
      then-Keeps Anything _ _ (ask-Keeps io.cancelled closed.cancelled) λ stop.
        then-Keeps Anything _ _ (reject_if-Keeps stop _) λ _.
          then-Keeps Anything _ _ (modify-Keeps _ (λ x. refl) (λ x. refl)) λ _.
            then-Keeps Anything _ _
              (call-Keeps (io.execute op.target kind) (closed.execute op.target kind))
              λ _.
                then-Keeps Anything _ _ (ask-Keeps io.now closed.now)
                  λ now. confirm_write-Keeps n op kind (ipv4_address kind) _

  preview_write-Keeps :
      (position : ℕ) (d : DeviceObservation) (kind : OperationKind)
      → Keeps J Anything (preview_write pa schema io diff preview position d kind)
  unfolding preview_write
  preview_write-Keeps position d kind = then-Keeps Anything _ _ (ask-Keeps io.now closed.now) λ now.
      then-Keeps Anything _ _ (modify-Keeps _ (λ x. refl) (λ x. refl)) λ _. pure-Keeps Anything _ tt

  if-eligible :
      (b : Bool) (x y z : Execution W)
      → x.eligible ≡ z.eligible
      → y.eligible ≡ z.eligible
      → (if b then x else y).eligible ≡ z.eligible
  if-eligible true x y z p q = p
  if-eligible false x y z p q = q

  if-world :
      (b : Bool) (x y z : Execution W)
      → x.world ≡ z.world
      → y.world ≡ z.world
      → (if b then x else y).world ≡ z.world
  if-world true x y z p q = p
  if-world false x y z p q = q

  update_groups-Keeps :
      (op : Operation) (a : Option Ipv4Address) (d : DeviceObservation)
      → Keeps J Anything (update_groups pa schema io diff preview op a d)
  unfolding update_groups
  update_groups-Keeps op none d = pure-Keeps Anything tt tt
  update_groups-Keeps op (some a) d = then-Keeps Anything _ _ (lift-Keeps (group_key op a)) λ key.
      modify-Keeps _ (λ x. if-eligible (contains_key key x.groups) _ x x refl refl)
        (λ x. if-world (contains_key key x.groups) _ x x refl refl)

  if-Keeps :
      {A : Type 0} (b : Bool) (m k : Action W A)
      → Keeps J Anything m
      → Keeps J Anything k
      → Keeps J Anything (if b then m else k)
  if-Keeps true m k p q = p
  if-Keeps false m k p q = q

  perform-Keeps :
      (n : ℕ) (op : Operation) (position : ℕ) (d : DeviceObservation) (kind : OperationKind)
      → Keeps J Anything (perform pa schema io diff preview n op position d kind)
  unfolding perform
  perform-Keeps n op position d kind =
      then-Keeps Anything _ _
        (if-Keeps preview _ _ (preview_write-Keeps position d kind) (real_write-Keeps n op d kind))
        λ predicted.
          then-Keeps Anything _ _ (modify-Keeps _ (λ x. refl) (λ x. refl))
            λ _. update_groups-Keeps op (ipv4_address kind) predicted

  attempt-Keeps :
      (n : ℕ) (op : Operation) (position : ℕ) (d : DeviceObservation) (kind : OperationKind)
      (done : Bool)
      → Keeps J IsUnblocked (attempt pa schema io diff preview n op position d kind done)
  unfolding attempt
  attempt-Keeps n op position d kind true = pure-Keeps IsUnblocked (some already_satisfied) refl
  attempt-Keeps n op position d kind false =
      then-Keeps IsUnblocked _ _ (with_state-Keeps Anything _ (λ x. lift-Keeps _)) λ _.
        then-Keeps IsUnblocked _ _ (perform-Keeps n op position d kind)
          λ _. pure-Keeps IsUnblocked none refl

  validated-Keeps :
      (op : Operation) (d : DeviceObservation) (kind : OperationKind)
      → Keeps J Anything (validated pa schema io diff preview op d kind)
  validated-Keeps op d kind = record { at = λ x. (refl, result-Anything _); stays = λ x j. j }

  step_decoded-Keeps :
      (n : ℕ) (op : Operation) (position : ℕ) (d : DeviceObservation) (kind : Option OperationKind)
      → Keeps J IsUnblocked (step_decoded pa schema io diff preview n op position d kind)
  unfolding step_decoded
  step_decoded-Keeps n op position d none = pure-Keeps IsUnblocked (some read_only) refl
  step_decoded-Keeps n op position d (some kind) =
      then-Keeps IsUnblocked _ _ (validated-Keeps op d kind) λ _.
        then-Keeps IsUnblocked _ _ (lift-Keeps (satisfied kind d op))
          λ done. attempt-Keeps n op position d kind done

  pub step-Keeps :
      (n : ℕ) (op : Operation) → Keeps J IsUnblocked (step pa schema io diff preview n op)
  unfolding step observe
  step-Keeps n op = then-Keeps IsUnblocked _ _ (ask-Keeps io.cancelled closed.cancelled) λ stop.
      then-Keeps IsUnblocked _ _ (reject_if-Keeps stop _) λ _.
        then-Keeps IsUnblocked _ _ (lift-Keeps (decode pa schema op.kind)) λ kind.
          then-Keeps IsUnblocked _ _
            (with_state-Keeps Anything _ (λ x. observe_from-Keeps x.current))
            λ observation.
              then-Keeps IsUnblocked _ _ (lift-Keeps (locate observation op.target io.namespace))
                λ (position, device). step_decoded-Keeps n op position device kind
