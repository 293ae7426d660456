-- ===== src/Registry/Tests.antt =====
-- The theorems on the registry at two backends of one namespace, of which one owns the devices.
use netfyr.Base.{ℕ, ◌≡◌, ◌≢◌, refl, some, [], ◌∷◌, get_elem?, ok, All}
use netfyr.Base.Equality.{nat_eq, string_eq}
use netfyr.Device.{any_device}
use netfyr.Plan.{DeviceObservation, Observation, StateDiff, set_mtu}
use netfyr.Registry.{
  Backend, Backends, key_of, query, supports_by_default, resolve_plan, register, conflicts,
  query_in_namespace, merge_answers, merge_answer, add_devices, add_device, place, finish,
  resolve_from, select, find_owner, find_target, check_owner, observe_namespace, agree,
}
use netfyr.Registry.Ownership.{IsRegistered, new, registered, OwnsIn, register-one_owner}
use netfyr.Registry.Merge.{Owned}
use netfyr.Registry.Views.{query_unique, query-owner_view}
use netfyr.Registry.Plans.{Serves, resolve_plan-Serves}
use netfyr.Samples.{netns, device_eth0, operation}

abbrev eth0_only : Observation
eth0_only = record { devices = device_eth0 ∷ []; diagnostics = [] }

abbrev links : Backend
links = record {
  namespace = netns;
  supported_entities = "ethernet" ∷ [];
  supports_operation = supports_by_default;
  query = λ selector. ok eth0_only;
}

-- Another backend sees the device too, without its addresses.
abbrev bare_eth0 : DeviceObservation
bare_eth0 = record device_eth0 { observed_at = 0; addresses = [] }

abbrev routes : Backend
routes = record {
  namespace = netns;
  supported_entities = "route" ∷ [];
  supports_operation = supports_by_default;
  query = λ selector. ok (record { devices = bare_eth0 ∷ []; diagnostics = [] });
}

abbrev both : Backends
both = routes ∷ links ∷ []

both-IsRegistered : IsRegistered both
unfolding register conflicts
both-IsRegistered = registered links (registered routes new refl) refl

links_own : OwnsIn netns "ethernet" links
links_own = (refl, refl)

register-one_owner_example : ◌≡◌ {A = ℕ} 1 1
register-one_owner_example =
    register-one_owner both netns "ethernet" 1 1 links links both-IsRegistered refl refl links_own
      links_own

-- The first backend's view of the device is replaced by its owner's.
query_both : query both any_device ≡ ok eth0_only
unfolding query query_in_namespace merge_answers merge_answer add_devices add_device place finish
query_both = refl

query_unique_example : ◌≡◌ {A = ℕ} 0 0
query_unique_example =
    query_unique both any_device eth0_only 0 0 device_eth0 device_eth0 query_both refl refl refl

query-owner_view_example :
    (i : ℕ) × (e : DeviceObservation) × (get_elem? eth0_only.devices i ≡ some e)
    × (key_of e ≡ key_of device_eth0)
    × Owned both any_device e
query-owner_view_example =
    query-owner_view both any_device eth0_only 1 links eth0_only 0 device_eth0 query_both refl refl
      refl refl

abbrev one_operation : StateDiff
one_operation = record {
  changes = [];
  operations = operation (set_mtu 9000) [] ∷ [];
  diagnostics = [];
}

resolve_one : resolve_plan both one_operation ≡ ok (1, links)
unfolding resolve_plan resolve_from select find_owner find_target check_owner observe_namespace
    agree query_in_namespace merge_answers merge_answer add_devices add_device place finish
    supports_by_default
resolve_one = refl

resolve_plan-Serves_example :
    (one_operation.operations ≢ []) × All (Serves both (1, links)) one_operation.operations
resolve_plan-Serves_example = resolve_plan-Serves both one_operation (1, links) resolve_one
