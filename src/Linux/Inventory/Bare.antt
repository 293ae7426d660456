-- ===== src/Linux/Inventory/Bare.antt =====
-- Before the addresses are given to the devices, no device has one.
use netfyr.Base.{
  ℕ, zero, suc, ◌≡◌, refl, ap, subst, arith, String, Bool, Option, none, some, List, [], ◌∷◌, All,
  All-append, ok, binds, bind-ok,
}
use netfyr.Base.Equality.{nat_eq, string_eq, option_eq}
use netfyr.Device.{Match}
use netfyr.Plan.{DeviceObservation}
use netfyr.Linux.{RoutePacket}
use netfyr.Linux.Exchange.{Library}
use netfyr.Linux.Optional.{EthtoolAnswer, Attributes, ethernet_attributes}
use netfyr.Linux.Transport.{Connection, Action, pure, ◌>>=◌}
use netfyr.Linux.Transport.Actions.{runs, bind-Runs}
use netfyr.Linux.Inventory.Devices.{
  Gathered, apply_attributes, apply_modes, update_at, insert_modes,
}
use netfyr.Linux.Inventory.{System, add_link, add_links, add_modes, observe_devices}

abbrev pub HasNone : DeviceObservation → Type 0
HasNone d = d.addresses ≡ []

abbrev pub Bare : Gathered → Type 0
Bare g = All HasNone g.devices

-- Whatever an action gives has the property.
abbrev pub Gives : {W A : Type 0} → (A → Type 0) → Action W A → Type 0
Gives {W} {A} Q m = (c : Connection W) (a : A) (d : Connection W) → m c ≡ (ok a, d) → Q a

module _ {W A B : Type 0} where
  bind-Gives :
      (P : A → Type 0) (Q : B → Type 0) (m : Action W A) (f : A → Action W B)
      → Gives P m
      → ((a : A) → P a → Gives Q (f a))
      → Gives Q (m >>= f)
  bind-Gives P Q m f first next c b d h = elim (bind-Runs m f c b d h) [
    | runs a s ran rest ↦ next a (first c a s ran) s b d rest
  ]

  then-Gives :
      (Q : B → Type 0) (m : Action W A) (f : A → Action W B)
      → ((a : A) → Gives Q (f a))
      → Gives Q (m >>= f)
  then-Gives Q m f next c b d h = elim (bind-Runs m f c b d h) [
    | runs a s ran rest ↦ next a s b d rest
  ]

pub update_at-All :
    (Q : DeviceObservation → Type 0) (n : ℕ) (f : DeviceObservation → DeviceObservation)
    (ds : List DeviceObservation)
    → ((d : DeviceObservation) → Q d → Q (f d))
    → All Q ds
    → All Q (update_at n f ds)
update_at-All Q n f [] keeps h = tt
update_at-All Q zero f (d ∷ ds) keeps h = (keeps d h.0, h.1)
update_at-All Q (suc n) f (d ∷ ds) keeps h = (h.0, update_at-All Q n f ds keeps h.1)

-- What link modes leave as it is holds of the devices after all answers.
pub apply_modes-All :
    (Q : DeviceObservation → Type 0)
    → ((a : Attributes) (d : DeviceObservation) → Q d → Q (insert_modes a d))
    → (targets : List (ℕ × (String × ℕ))) (answers : List EthtoolAnswer) (g b : Gathered)
    → All Q g.devices
    → apply_modes targets answers g ≡ ok b
    → All Q b.devices
unfolding apply_modes
apply_modes-All Q keeps [] answers g b h e =
    let same : g ≡ b = cc in subst (λ (x : Gathered). All Q x.devices) same h
apply_modes-All Q keeps (t ∷ targets) [] g b h e =
    let same : g ≡ b = cc in subst (λ (x : Gathered). All Q x.devices) same h
apply_modes-All Q keeps ((position, (name, index)) ∷ targets) (answer ∷ answers) g b h e =
    elim (bind-ok (ethernet_attributes index answer)
      (λ (a : Attributes). apply_modes targets answers (apply_attributes position a g)) b e) [
        | binds a _ rest ↦
            apply_modes-All Q keeps targets answers (apply_attributes position a g) b
              (update_at-All Q position (insert_modes a) g.devices (keeps a) h) rest
      ]

insert_modes-HasNone :
    (a : Attributes) (d : DeviceObservation) → HasNone d → HasNone (insert_modes a d)
insert_modes-HasNone a d h = ground arith

pure-Gives : {W A : Type 0} (Q : A → Type 0) (a : A) → Q a → Gives {W = W} Q (pure a)
pure-Gives Q a q c b d h = let same : a ≡ b = cc in subst Q same q

module _ {W : Type 0} (library : Library) (system : System W) (enrich : Match → Bool)
    (wireless : Option (List ℕ)) (observed_at : ℕ) where
  add_link-Bare :
      (packet : RoutePacket) (g : Gathered)
      → Bare g
      → Gives Bare (add_link library system enrich wireless observed_at packet g)
  unfolding add_link
  add_link-Bare packet g h = then-Gives Bare _ _ λ _. then-Gives Bare _ _ λ link.
      then-Gives Bare _ _ λ called. then-Gives Bare _ _ λ legacy. then-Gives Bare _ _ λ generation.
        then-Gives Bare _ _ λ identity.
          then-Gives Bare _ _ λ e. pure-Gives Bare _ (All-append HasNone g.devices _ h (refl, tt))

  add_links-Bare :
      (packets : List RoutePacket) (g : Gathered)
      → Bare g
      → Gives Bare (add_links library system enrich wireless observed_at packets g)
  unfolding add_links
  add_links-Bare [] g h = pure-Gives Bare g h
  add_links-Bare (p ∷ ps) g h =
      bind-Gives Bare Bare _ _ (add_link-Bare p g h) λ b q. add_links-Bare ps b q

module _ {W : Type 0} (library : Library) (system : System W) where
  add_modes-Bare :
      (call : Option (String → ℕ → W → EthtoolAnswer × W)) (g : Gathered)
      → Bare g
      → Gives Bare (add_modes library system call g)
  add_modes-Bare none g h = pure-Gives Bare g h
  add_modes-Bare (some call) g h = then-Gives Bare _ _ λ answers c b d e.
      apply_modes-All HasNone insert_modes-HasNone g.targets answers g b h (ap (λ p. p.0) e)

  pub observe_devices-Bare :
      (enrich : Match → Bool) (links : List RoutePacket)
      → Gives Bare (observe_devices library system enrich links)
  unfolding observe_devices
  observe_devices-Bare enrich links = then-Gives Bare _ _ λ observed_at.
      then-Gives Bare _ _ λ initial. then-Gives Bare _ _ λ answer.
        bind-Gives Bare Bare _ _ (add_links-Bare library system enrich _ observed_at links _ tt)
          λ g h. add_modes-Bare system.ethtool g h
