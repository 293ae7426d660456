-- ===== src/Linux/Inventory/Tracked.antt =====
-- What an inventory that succeeds has observed.
use netfyr.Base.{
  ℕ, ◌≡◌, sym, ap, ◌∙◌, subst, Bool, some, List, [], ◌∷◌, map, All, Result, ok, err, Bool-cases,
  inl, inr,
}
use netfyr.Base.Dict.{Dict, get}
use netfyr.Base.Equality.{◌==◌, nat_eq, string_eq, option_eq}
use netfyr.Device.{Match}
use netfyr.Plan.{DeviceObservation, Observation}
use netfyr.Report.{BackendError}
use netfyr.Executor.Locate.{ethernet}
use netfyr.Linux.{Tracking}
use netfyr.Linux.Messages.{AddressMessage}
use netfyr.Linux.Exchange.{Library}
use netfyr.Linux.Transport.{AddressKey, Connection}
use netfyr.Linux.Transport.Actions.{runs, bind-Runs}
use netfyr.Linux.Inventory.Devices.{check_generations}
use netfyr.Linux.Inventory.Assign.{Assigned, with_addresses}
use netfyr.Linux.Inventory.Distinct.{Messages, Sound, Inv, IsDistinct, IsIndexed, assign_all-Inv}
use netfyr.Linux.Inventory.{System, start_assigned, conclude, inventory}
use netfyr.Linux.Inventory.Bare.{HasNone, observe_devices-Bare}

module _ {W : Type 0} (library : Library) (system : System W) where
  -- The last checks of an inventory that succeeds, and what it keeps.
  data Concludes (a : Assigned) (o : Observation) (d : Connection W) : Type 0 where
    concludes :
        o.devices ≡ map with_addresses a.devices
        → check_generations d.transport.tracking.generations (map with_addresses a.devices) ≡ ok tt
        → d.transport.address_messages ≡ a.messages
        → Concludes a o d

  tracking_of : {A : Type 0} → Result A BackendError × Connection W → Tracking
  tracking_of p = p.1.transport.tracking

  messages_of : {A : Type 0} → Result A BackendError × Connection W → Dict AddressKey AddressMessage
  messages_of p = p.1.transport.address_messages

  devices_of : Result Observation BackendError → List DeviceObservation
  devices_of (ok o) = o.devices
  devices_of (err e) = []

  conclude-Concludes :
      (epoch : ℕ) (a : Assigned) (c : Connection W) (o : Observation) (d : Connection W)
      → conclude library system epoch a c ≡ (ok o, d)
      → Concludes a o d
  unfolding conclude tracking_of messages_of devices_of
  conclude-Concludes epoch a c o d h = elim (bind-Runs _ _ c o d h) [
    | runs _ c₁ _ h₁ ↦ elim (bind-Runs _ _ c₁ o d h₁) [
      | runs _ c₂ _ h₂ ↦ elim (bind-Runs _ _ c₂ o d h₂) [
        | runs u c₃ checked h₃ ↦ elim (bind-Runs _ _ c₃ o d h₃) [
          | runs _ c₄ kept h₄ ↦
              let same_tracking : c₂.transport.tracking ≡ d.transport.tracking =
                ap tracking_of checked ∙ ap tracking_of kept ∙ ap tracking_of h₄ in
              concludes (ap (λ p. devices_of p.0) (sym h₄))
                (subst
                  (λ (t : Tracking).
                    check_generations t.generations (map with_addresses a.devices) ≡ ok tt)
                  same_tracking (ap (λ p. p.0) checked))
                (ap messages_of (sym h₄) ∙ ap messages_of (sym kept))
        ]
      ]
    ]
  ]

-- What the observation and the transport have after an inventory.
pub record IsSound {W : Type 0} (o : Observation) (d : Connection W) : Type 0 where
  pub distinct : All (λ device. IsDistinct device.addresses) o.devices
  pub tracked :
      All
        (λ device.
          get device.identity.index d.transport.tracking.generations
          ≡ some device.identity.generation)
        o.devices
  pub indexed : IsIndexed d.transport.address_messages

check_generations-All :
    (generations : Dict ℕ ℕ) (ds : List DeviceObservation)
    → check_generations generations ds ≡ ok tt
    → All (λ d. get d.identity.index generations ≡ some d.identity.generation) ds
unfolding check_generations
check_generations-All generations [] h = tt
check_generations-All generations (d ∷ ds) h =
    elim (Bool-cases (get d.identity.index generations == some d.identity.generation)) [
      | inl same ↦ (
        (option_eq.same_iff (get d.identity.index generations) (some d.identity.generation)).0 same,
        check_generations-All generations ds (rw same at h),
      )
      | inr other ↦ let no : err _ ≡ ok tt = rw other at h in cc
    ]

with_addresses-IsDistinct :
    (messages : Messages) (ds : List DeviceObservation)
    → All (Sound messages) ds
    → All (λ d. IsDistinct d.addresses) (map with_addresses ds)
unfolding with_addresses
with_addresses-IsDistinct messages [] h = tt
with_addresses-IsDistinct messages (d ∷ ds) h = (
  elim (Bool-cases (d.identity.device_type == ethernet)) [
    | inl yes_ethernet ↦ rw yes_ethernet h.0.0
    | inr other ↦ rw other h.0.0
  ],
  with_addresses-IsDistinct messages ds h.1,
)

bare-Inv : (ds : List DeviceObservation) → All HasNone ds → All (Sound []) ds
bare-Inv [] h = tt
bare-Inv (d ∷ ds) h = ((rw h.0 tt, rw h.0 tt), bare-Inv ds h.1)

Concludes-IsSound :
    {W : Type 0} (library : Library) (system : System W) (a : Assigned) (o : Observation)
    (d : Connection W)
    → Inv a
    → Concludes library system a o d
    → IsSound o d
Concludes-IsSound library system a o d inv (concludes devices checked messages) = record {
  distinct = rw devices (with_addresses-IsDistinct a.messages a.devices inv.sound);
  tracked = rw devices (
      check_generations-All d.transport.tracking.generations (map with_addresses a.devices)
        checked);
  indexed = rw messages inv.indexed;
}

-- When an inventory succeeds, no device is observed with two addresses of one identity, the
-- generation of each device is the one the transport has for its index, and each message that is
-- kept for a later write reads as an address of the interface and the identity it is kept under.
pub inventory-IsSound :
    {W : Type 0} (library : Library) (system : System W) (enrich : Match → Bool) (c : Connection W)
    (o : Observation) (d : Connection W)
    → inventory library system enrich c ≡ (ok o, d)
    → IsSound o d
unfolding inventory
inventory-IsSound library system enrich c o d h = elim (bind-Runs _ _ c o d h) [
  | runs _ c₁ _ h₁ ↦ elim (bind-Runs _ _ c₁ o d h₁) [
    | runs epoch c₂ _ h₂ ↦ elim (bind-Runs _ _ c₂ o d h₂) [
      | runs links c₃ _ h₃ ↦ elim (bind-Runs _ _ c₃ o d h₃) [
        | runs addresses c₄ _ h₄ ↦ elim (bind-Runs _ _ c₄ o d h₄) [
          | runs g c₅ gathered h₅ ↦ elim (bind-Runs _ _ c₅ o d h₅) [
            | runs _ c₆ _ h₆ ↦ elim (bind-Runs _ _ c₆ o d h₆) [
              | runs a c₇ assigned h₇ ↦
                  Concludes-IsSound library system a o d
                    (assign_all-Inv addresses (start_assigned library system g) a
                      (record {
                        sound =
                            bare-Inv g.devices
                              (observe_devices-Bare library system enrich links c₄ g c₅ gathered);
                        indexed = tt;
                      })
                      (ap (λ p. p.0) assigned))
                    (conclude-Concludes library system epoch a c₇ o d h₇)
            ]
          ]
        ]
      ]
    ]
  ]
]
