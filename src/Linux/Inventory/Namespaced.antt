-- ===== src/Linux/Inventory/Namespaced.antt =====
-- The namespace of what an inventory observes.
use netfyr.Base.{
  ℕ, ◌≡◌, arith, String, Bool, true, false, Option, none, some, List, [], ◌∷◌, map, All, All-append,
}
use netfyr.Base.Dict.{get}
use netfyr.Base.Equality.{nat_eq, string_eq}
use netfyr.Device.{Match, State}
use netfyr.Plan.{NamespaceId, InterfaceId, DeviceObservation, Observation, Diagnostic}
use netfyr.Linux.{RoutePacket}
use netfyr.Linux.Exchange.{Library}
use netfyr.Linux.Links.{ParsedLink}
use netfyr.Linux.Optional.{EthtoolAnswer, Attributes}
use netfyr.Linux.Transport.Namespaced.{
  Keeps, Any, then_Keeps, result_Ends, lift-Keeps, drain-Keeps, request-Keeps,
}
use netfyr.Linux.Inventory.Devices.{Gathered, insert_modes}
use netfyr.Linux.Inventory.Assign.{Assigned, with_addresses}
use netfyr.Linux.Inventory.Bare.{apply_modes-All}
use netfyr.Linux.Inventory.Assigning.{assign_all-Kept}
use netfyr.Linux.Inventory.{
  System, fresh_generation, generation_from, generation_of, enriched, observe_link, add_link,
  add_links, query_modes, add_modes, conclude, observe_devices, inventory, wireless_answer,
  start_assigned,
}

module _ {W : Type 0} (n : NamespaceId) (library : Library) (system : System W) where
  generation_from-Keeps :
      (index : ℕ) (o : Option ℕ) → Keeps n Any (generation_from library system index o)
  unfolding fresh_generation
  generation_from-Keeps index (some g) = λ c at. (at, tt)
  generation_from-Keeps index none =
      then_Keeps n Any Any _ _ (λ c at. result_Ends n _ _ at)
        λ g _. then_Keeps n Any Any _ _ (λ c at. (at, tt)) λ u _ c at. (at, tt)

  generation_of-Keeps : (index : ℕ) → Keeps n Any (generation_of library system index)
  unfolding generation_of
  generation_of-Keeps index c at =
      generation_from-Keeps index (get index c.transport.tracking.generations) c at

  enriched-Keeps :
      (b : Bool) (identity : InterfaceId) (s : State) (ds : List Diagnostic)
      → Keeps n Any (enriched library system b identity s ds)
  unfolding enriched
  enriched-Keeps false identity s ds = λ c at. (at, tt)
  enriched-Keeps true identity s ds =
      then_Keeps n Any Any _ _ (λ c at. (at, tt)) λ r _. lift-Keeps n Any _ λ a e. tt

  abbrev Here : DeviceObservation → Type 0
  Here d = d.identity.namespace ≡ n

  abbrev AllHere : Gathered → Type 0
  AllHere g = All Here g.devices

  module _ (enrich : Match → Bool) (wireless : Option (List ℕ)) (observed_at : ℕ) where
    observe_link-Keeps :
        (link : ParsedLink) (device_type : String) (generation : ℕ) (g : Gathered)
        → AllHere g
        → Keeps n AllHere
            (observe_link library system enrich wireless observed_at link device_type generation g)
    observe_link-Keeps link device_type generation g h =
        then_Keeps n (λ (i : InterfaceId). i.namespace ≡ n) AllHere _ _ (λ c at. (at, at))
          λ identity here.
            then_Keeps n Any AllHere _ _ (enriched-Keeps _ identity _ _)
              λ e _ c at. (at, All-append Here g.devices _ h (here, tt))

    add_link-Keeps :
        (packet : RoutePacket) (g : Gathered)
        → AllHere g
        → Keeps n AllHere (add_link library system enrich wireless observed_at packet g)
    unfolding add_link
    add_link-Keeps packet g h = then_Keeps n Any AllHere _ _ (lift-Keeps n Any _ λ a e. tt) λ u _.
        then_Keeps n Any AllHere _ _ (lift-Keeps n Any _ λ a e. tt) λ link _.
          then_Keeps n Any AllHere _ _ (λ c at. (at, tt))
            λ called _. then_Keeps n Any AllHere _ _ (lift-Keeps n Any _ λ a e. tt) λ legacy _.
              then_Keeps n Any AllHere _ _ (generation_of-Keeps _)
                λ generation _. observe_link-Keeps link _ generation g h

    add_links-Keeps :
        (packets : List RoutePacket) (g : Gathered)
        → AllHere g
        → Keeps n AllHere (add_links library system enrich wireless observed_at packets g)
    unfolding add_links
    add_links-Keeps [] g h = λ c at. (at, h)
    add_links-Keeps (p ∷ ps) g h =
        then_Keeps n AllHere AllHere _ _ (add_link-Keeps p g h) λ b q. add_links-Keeps ps b q

  insert_modes-Here : (a : Attributes) (d : DeviceObservation) → Here d → Here (insert_modes a d)
  insert_modes-Here a d here = ground arith

  query_modes-Keeps :
      (call : String → ℕ → W → EthtoolAnswer × W) (targets : List (ℕ × (String × ℕ)))
      → Keeps n Any (query_modes library system call targets)
  query_modes-Keeps call [] = λ c at. (at, tt)
  query_modes-Keeps call ((position, (name, index)) ∷ targets) =
      then_Keeps n Any Any _ _ (λ c at. (at, tt))
        λ answer _.
          then_Keeps n Any Any _ _ (query_modes-Keeps call targets) λ rest _ c at. (at, tt)

  add_modes-Keeps :
      (call : Option (String → ℕ → W → EthtoolAnswer × W)) (g : Gathered)
      → AllHere g
      → Keeps n AllHere (add_modes library system call g)
  add_modes-Keeps none g h = λ c at. (at, h)
  add_modes-Keeps (some call) g h =
      then_Keeps n Any AllHere _ _ (query_modes-Keeps call g.targets) λ answers _.
        lift-Keeps n AllHere _
          λ b e. apply_modes-All Here insert_modes-Here g.targets answers g b h e

  wireless_answer-Keeps :
      (o : Option (W → netfyr.Linux.Optional.WirelessAnswer × W))
      → Keeps n Any (wireless_answer library system o)
  wireless_answer-Keeps none = λ c at. (at, tt)
  wireless_answer-Keeps (some call) =
      then_Keeps n Any Any _ _ (λ c at. (at, tt)) λ answer _ c at. (at, tt)

  observe_devices-Keeps :
      (enrich : Match → Bool) (links : List RoutePacket)
      → Keeps n AllHere (observe_devices library system enrich links)
  unfolding observe_devices
  observe_devices-Keeps enrich links =
      then_Keeps n Any AllHere _ _ (λ c at. (at, tt))
        λ observed_at _.
          then_Keeps n Any AllHere _ _ (λ c at. (at, tt))
            λ initial _.
              then_Keeps n Any AllHere _ _ (wireless_answer-Keeps system.wireless) λ answer _.
                then_Keeps n AllHere AllHere _ _ (add_links-Keeps enrich _ observed_at links _ tt)
                  λ g h. add_modes-Keeps system.ethtool g h

  with_addresses-Here :
      (ds : List DeviceObservation) → All Here ds → All Here (map with_addresses ds)
  unfolding with_addresses
  with_addresses-Here [] h = tt
  with_addresses-Here (d ∷ ds) h = (ground (arith, h.0), with_addresses-Here ds h.1)

  abbrev pub ObservesHere : Observation → Type 0
  ObservesHere o = All Here o.devices

  conclude-Keeps :
      (epoch : ℕ) (a : Assigned)
      → All Here a.devices
      → Keeps n ObservesHere (conclude library system epoch a)
  unfolding conclude
  conclude-Keeps epoch a h =
      then_Keeps n Any ObservesHere _ _ (drain-Keeps n library system.socket) λ u _.
        then_Keeps n Any ObservesHere _ _ (λ c at. result_Ends n _ c at)
          λ v _.
            then_Keeps n Any ObservesHere _ _ (λ c at. result_Ends n _ c at)
              λ w _.
                then_Keeps n Any ObservesHere _ _ (λ c at. (at, tt))
                  λ x _ c at. (at, with_addresses-Here a.devices h)

  -- An inventory leaves the transport in its namespace, and what it observes when it succeeds is
  -- in that namespace.
  pub inventory-Keeps :
      (enrich : Match → Bool) → Keeps n ObservesHere (inventory library system enrich)
  unfolding inventory
  inventory-Keeps enrich =
      then_Keeps n Any ObservesHere _ _ (drain-Keeps n library system.socket) λ u _.
        then_Keeps n Any ObservesHere _ _ (λ c at. (at, tt))
          λ epoch _.
            then_Keeps n Any ObservesHere _ _ (request-Keeps n library system.socket _ _ _)
              λ links _.
                then_Keeps n Any ObservesHere _ _ (request-Keeps n library system.socket _ _ _)
                  λ addresses _.
                    then_Keeps n AllHere ObservesHere _ _ (observe_devices-Keeps enrich links)
                      λ g h.
                        then_Keeps n Any ObservesHere _ _ (λ c at. (at, tt))
                          λ v _.
                            then_Keeps n (λ (a : Assigned). All Here a.devices) ObservesHere _ _
                              (lift-Keeps n (λ (a : Assigned). All Here a.devices) _
                                λ a e.
                                  assign_all-Kept Here (λ o d here. here) (λ d here. here) addresses
                                    (start_assigned library system g) a h e)
                              λ a k. conclude-Keeps epoch a k
