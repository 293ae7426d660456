-- ===== src/Worker/Open.antt =====
-- crates/netfyr-backend/src/worker.rs: `NetlinkBackend::open`. What the system answers is the record
-- `Host`; the worker's thread is the state.
pub mod Within
mod Tests
use netfyr.Base.{
  ℕ, String, Bool, true, false, not, Option, none, some, if◌then◌else◌, Result, ok, err,
}
use netfyr.Base.Equality.{◌==◌, nat_eq}
use netfyr.Base.Text.{◌<>◌}
use netfyr.Plan.{NamespaceId}
use netfyr.Plan.Identity.{namespace_eq}
use netfyr.Report.{BackendError, backend_error, internal, not_found, unsupported_operation}
use netfyr.Linux.Interface.{IoError}
use netfyr.Linux.Transport.{LinuxTransport}
use netfyr.Linux.Open.{
  Thread, Starting, pure, lift, ◌>>=◌, ◌>>◌, io_error, Connecting, new_transport,
}
use netfyr.Worker.{disconnected}

-- An open file: the `f_type` that `fstatfs` gives, the device and inode of its metadata, and the
-- namespace that it refers to when it is a namespace file.
pub record NamespaceFile : Type 0 where
  pub filesystem : Result ℕ IoError
  pub metadata : Result NamespaceId IoError
  pub namespace : NamespaceId

-- What the system answers. `own_namespace` is the metadata of `/proc/thread-self/ns/net`, and
-- `set_namespace` the namespace in which `setns` leaves the thread; `spawn` and `runtime` are none, or
-- the text of an error; `in_time` is whether the worker is ready within thirty seconds.
pub record Host : Type 0 where
  pub open_file : String → Result NamespaceFile IoError
  pub spawn : Option String
  pub own_namespace : Thread → Result NamespaceId IoError
  pub set_namespace : NamespaceFile → Thread → Result NamespaceId IoError
  pub runtime : Option String
  pub connecting : Connecting
  pub in_time : Bool

-- The backend, with the transport of the worker that its sender reaches.
pub record NetlinkBackend : Type 0 where
  pub namespace : NamespaceId
  pub transport : LinuxTransport

-- `context`
abbrev in_context : BackendError → String → BackendError
in_context e what = record e { message = what <> ": " <> e.message }

-- `NSFS_MAGIC`
abbrev pub nsfs_magic : ℕ
nsfs_magic = 0x6e736673

-- `describe`
abbrev describe : String → IoError → BackendError
describe path e = in_context (io_error not_found e) ("open namespace " <> path)

abbrev check_filesystem :
    String → NamespaceFile → Result ℕ IoError → Result NamespaceFile BackendError
check_filesystem path file (err e) = err (describe path e)
check_filesystem path file (ok magic) =
    if not (magic == nsfs_magic)
    then err (backend_error unsupported_operation (path <> " is not a namespace file"))
    else ok file

unfoldable pub open_namespace :
    String → Result NamespaceFile IoError → Result NamespaceFile BackendError
open_namespace path (err e) = err (describe path e)
open_namespace path (ok file) = check_filesystem path file file.filesystem

abbrev metadata_of : Result NamespaceId IoError → Result NamespaceId BackendError
metadata_of (ok namespace) = ok namespace
metadata_of (err e) = err (in_context (io_error internal e) "namespace metadata")

abbrev spawned : Option String → Result (Unit {0}) BackendError
spawned none = ok tt
spawned (some text) = err (backend_error internal ("start namespace worker: " <> text))

abbrev built : Option String → Result (Unit {0}) BackendError
built none = ok tt
built (some text) = err (backend_error internal text)

abbrev current_of : Result NamespaceId IoError → Result NamespaceId BackendError
current_of (ok namespace) = ok namespace
current_of (err e) = err (io_error internal e)

abbrev entered : Result NamespaceId IoError → Starting (Unit {0})
entered (ok namespace) t = (ok tt, record t { namespace = namespace })
entered (err e) t = (err (in_context (io_error unsupported_operation e) "enter namespace"), t)

module _ (host : Host) where
  -- The thread enters the namespace unless it is there.
  unfoldable pub enter_namespace : NamespaceFile → NamespaceId → NamespaceId → Starting (Unit {0})
  enter_namespace file namespace current t =
      if current == namespace then (ok tt, t) else entered (host.set_namespace file t) t

  abbrev pub own : Starting NamespaceId
  own t = (current_of (host.own_namespace t), t)

  -- The thread's closure up to its readiness.
  unfoldable pub start_worker : NamespaceFile → NamespaceId → Starting LinuxTransport
  start_worker file namespace =
      own
      >>= (λ current. enter_namespace file namespace current)
      >> lift (built host.runtime)
      >> new_transport namespace host.connecting

  -- `recv_timeout`
  abbrev pub wait_ready : {A : Type 0} → Starting A → Starting A
  wait_ready m t = if host.in_time then m t else (err disconnected, (m t).1)

  unfoldable pub open_backend : String → Starting NetlinkBackend
  open_backend path = lift (open_namespace path (host.open_file path)) >>= λ file.
      lift (metadata_of file.metadata) >>= λ namespace.
      lift (spawned host.spawn) >> wait_ready (start_worker file namespace) >>= λ transport.
      pure (record { namespace = namespace; transport = transport })

  -- `current`
  unfoldable pub open_current : Starting NetlinkBackend
  open_current = open_backend "/proc/thread-self/ns/net"
