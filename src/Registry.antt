-- ===== src/Registry.antt =====
-- crates/netfyr-backend/src/registry.rs: which backend observes and changes which devices; and the
-- trait `NetworkBackend` of crates/netfyr-backend/src/lib.rs. `query` is what a backend answers at
-- the time of the call: every function of the registry asks a backend at most once, and the answers
-- of `join_all` come in the order of the backends. A backend's position in the registry stands for
-- the `Arc` that is compared by `ptr_eq`.
pub mod Ownership
pub mod Merge
pub mod Gather
pub mod Views
pub mod Plans
mod Tests
use netfyr.Base.{
  ℕ, suc, String, Bool, true, false, not, ◌&&◌, Option, none, some, List, [], ◌∷◌, ◌++◌,
  if◌then◌else◌, any, find, find_from, keep, is_nil, is_some, length, set, Result, ok, err, ◌>>=◌,
  ok_or,
}
use netfyr.Base.Dict.{Dict, get, insert}
use netfyr.Base.Equality.{◌==◌, nat_eq, string_eq, pair_eq, contains}
use netfyr.Base.Text.{◌<>◌}
use netfyr.Device.{Match, any_device}
use netfyr.Plan.{
  NamespaceId, InterfaceId, DeviceObservation, Observation, Operation, OperationKind, add_entity,
  remove_entity, kind_name, StateDiff,
}
use netfyr.Plan.Identity.{namespace_eq, interface_eq}
use netfyr.Report.{
  BackendError, BackendErrorKind, backend_error, conflict, not_found, internal, stale_state,
  unsupported_entity_type, unsupported_operation, OperationContext, context_of, at_context,
}

-- The default `supports_operation` of the trait.
unfoldable pub supports_by_default : OperationKind → Bool
supports_by_default add_entity = false
supports_by_default remove_entity = false
supports_by_default kind = true

pub record Backend : Type 0 where
  pub namespace : NamespaceId
  pub supported_entities : List String
  pub supports_operation : OperationKind → Bool
  pub query : Match → Result Observation BackendError

-- `BackendRegistry`
abbrev pub Backends : Type 0
Backends = List Backend

-- The two backends own a common type in one namespace.
unfoldable pub conflicts : Backend → Backend → Bool
conflicts registered backend =
    registered.namespace == backend.namespace
    && any (λ e. contains backend.supported_entities e) registered.supported_entities

unfoldable pub register : Backends → Backend → Result Backends BackendError
register bs backend =
    if any (λ r. conflicts r backend) bs
    then err (backend_error conflict "an entity type already has a backend in this namespace")
    else ok (bs ++ backend ∷ [])

-- The backend owns the device type.
abbrev pub owns : Backend → DeviceObservation → Bool
owns b d = contains b.supported_entities d.identity.device_type

abbrev pub Key : Type 0
Key = NamespaceId × ℕ

abbrev pub key_of : DeviceObservation → Key
key_of d = (d.identity.namespace, d.identity.index)

-- The result and `seen` while the answers are merged: where a device stands, and whether its view
-- is its owner's.
pub record Merging : Type 0 where
  pub devices : List DeviceObservation
  pub diagnostics : List netfyr.Plan.Diagnostic
  pub seen : Dict Key (ℕ × Bool)

abbrev pub push_device : DeviceObservation → Bool → Merging → Merging
push_device d owned m = record m {
  devices = m.devices ++ d ∷ [];
  seen = insert (key_of d) (length m.devices, owned) m.seen;
}

-- The match on `seen.get(&key)`.
unfoldable pub place : Option (ℕ × Bool) → DeviceObservation → Bool → Merging → Merging
place none d owned m = push_device d owned m
place (some (i, true)) d owned m = m
place (some (i, false)) d owned m =
    if owned
    then record m { devices = set m.devices i d; seen = insert (key_of d) (i, true) m.seen }
    else m

unfoldable pub add_device : Backend → DeviceObservation → Merging → Result Merging BackendError
add_device b d m =
    if not (d.identity.namespace == b.namespace)
    then err (backend_error internal "backend returned an interface from another namespace")
    else ok (place (get (key_of d) m.seen) d (owns b d) m)

unfoldable pub add_devices :
    Backend → List DeviceObservation → Merging → Result Merging BackendError
add_devices b [] m = ok m
add_devices b (d ∷ ds) m = add_device b d m >>= λ m'. add_devices b ds m'

abbrev pub is_not_found : BackendErrorKind → Bool
is_not_found not_found = true
is_not_found kind = false

-- One backend's answer.
unfoldable pub merge_answer :
    Backend → Result Observation BackendError → Merging → Result Merging BackendError
merge_answer b (ok o) m =
    add_devices b o.devices (record m { diagnostics = m.diagnostics ++ o.diagnostics })
merge_answer b (err e) m = if is_not_found e.kind then ok m else err e

unfoldable pub merge_answers : Match → Backends → Merging → Result Merging BackendError
merge_answers selector [] m = ok m
merge_answers selector (b ∷ bs) m =
    merge_answer b (b.query selector) m >>= λ m'. merge_answers selector bs m'

abbrev pub empty_merge : Merging
empty_merge = record { devices = []; diagnostics = []; seen = [] }

abbrev pub in_namespace : Option NamespaceId → Backend → Bool
in_namespace none b = true
in_namespace (some ns) b = ns == b.namespace

unfoldable pub finish : Match → Merging → Result Observation BackendError
finish selector m =
    if is_some selector.name && is_nil m.devices
    then err (backend_error not_found "named interface was not found in the registered namespaces")
    else ok (record { devices = m.devices; diagnostics = m.diagnostics })

unfoldable pub query_in_namespace :
    Backends → Match → Option NamespaceId → Result Observation BackendError
query_in_namespace bs selector ns =
    merge_answers selector (keep (in_namespace ns) bs) empty_merge >>= λ m. finish selector m

unfoldable pub query : Backends → Match → Result Observation BackendError
unfolding query_in_namespace
query bs selector = query_in_namespace bs selector none

unfoldable pub query_all : Backends → Result Observation BackendError
unfolding query
query_all bs = query bs any_device

-- The device with the target's name in the target's namespace.
unfoldable pub find_target : OperationContext → Observation → Result DeviceObservation BackendError
find_target context o =
    ok_or
      (find
        (λ d.
          d.identity.namespace == context.target.namespace
          && d.identity.name == context.target.name)
        o.devices)
      (at_context (backend_error not_found "target interface was not found") context)

-- The backend that owns the device, with its position.
unfoldable pub find_owner :
    Backends → OperationContext → DeviceObservation → Result (ℕ × Backend) BackendError
find_owner bs context d =
    ok_or (find_from 0 (λ b. b.namespace == d.identity.namespace && owns b d) bs) (
      at_context
        (backend_error unsupported_entity_type ("no backend supports " <> d.identity.device_type))
        context)

unfoldable pub check_owner :
    OperationContext → DeviceObservation → ℕ × Backend → Result (ℕ × Backend) BackendError
check_owner context d (position, b) =
    if not (d.identity == context.target)
    then err (
        at_context
          (backend_error stale_state "target identity differs from the discovered interface")
          context)
    else if not (b.supports_operation context.kind)
    then err (
        at_context
          (backend_error unsupported_operation
            ("backend does not support " <> kind_name context.kind))
          context)
    else ok (position, b)

unfoldable pub select :
    Backends → OperationContext → Observation → Result (ℕ × Backend) BackendError
select bs context o =
    find_target context o >>= λ d. find_owner bs context d >>= λ found. check_owner context d found

-- `map_err(|error| error.at(&context))`
abbrev pub map_at : {A : Type 0} → OperationContext → Result A BackendError → Result A BackendError
map_at context (ok a) = ok a
map_at context (err e) = err (at_context e context)

unfoldable pub resolve : Backends → ℕ → Operation → Result (ℕ × Backend) BackendError
resolve bs index op =
    let context = context_of index op in
    map_at context (
      query_in_namespace bs (record any_device { name = some op.target.name })
        (some op.target.namespace))
    >>= λ o. select bs context o

-- The observation of the operation's namespace, asked once per plan.
abbrev pub Observations : Type 0
Observations = Dict NamespaceId Observation

unfoldable pub observe_namespace :
    Backends
    → OperationContext
    → NamespaceId
    → Option Observation
    → Observations
    → Result (Observation × Observations) BackendError
observe_namespace bs context ns (some o) seen = ok (o, seen)
observe_namespace bs context ns none seen =
    map_at context (query_in_namespace bs any_device (some ns)) >>= λ o. ok (o, insert ns o seen)

-- The match on `&resolved`.
unfoldable pub agree :
    OperationContext
    → Option (ℕ × Backend)
    → ℕ × Backend
    → Result (Option (ℕ × Backend)) BackendError
agree context none found = ok (some found)
agree context (some (i, first)) (j, backend) =
    if not (i == j)
    then err (
        at_context
          (backend_error unsupported_operation
            "plan operations resolve to different backends; split it by backend")
          context)
    else ok (some (i, first))

unfoldable pub resolve_from :
    Backends
    → ℕ
    → List Operation
    → Observations
    → Option (ℕ × Backend)
    → Result (Option (ℕ × Backend)) BackendError
resolve_from bs index [] seen resolved = ok resolved
resolve_from bs index (op ∷ ops) seen resolved =
    let context = context_of index op in
    observe_namespace bs context op.target.namespace (get op.target.namespace seen) seen
    >>= λ (o, seen'). select bs context o >>= λ found. agree context resolved found >>= λ resolved'.
        resolve_from bs (suc index) ops seen' resolved'

unfoldable pub resolve_plan : Backends → StateDiff → Result (ℕ × Backend) BackendError
resolve_plan bs diff = resolve_from bs 0 diff.operations [] none >>= λ resolved.
    ok_or resolved (backend_error not_found "plan has no operations")
