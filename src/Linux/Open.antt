-- ===== src/Linux/Open.antt =====
-- crates/netfyr-backend/src/linux.rs: `LinuxTransport::new`, in the thread that calls it.
pub mod Within
use netfyr.Base.{ℕ, String, Option, none, some, List, [], ◌∷◌, ◌++◌, Bool, false, Result, ok, err}
use netfyr.Plan.{NamespaceId, Diagnostic}
use netfyr.Report.{BackendError, BackendErrorKind, from_io, query_failed}
use netfyr.Linux.Interface.{IoError}
use netfyr.Linux.Inventory.Devices.{diagnostic}
use netfyr.Linux.Transport.{LinuxTransport}

-- A thread: the namespace that it is in, and that of each socket that it has opened. A socket belongs
-- to the namespace in which its thread opens it.
pub record Thread : Type 0 where
  pub namespace : NamespaceId
  pub sockets : List NamespaceId

abbrev pub Starting : Type 0 → Type 0
Starting A = Thread → Result A BackendError × Thread

abbrev pub pure : {A : Type 0} → A → Starting A
pure a t = (ok a, t)

abbrev pub lift : {A : Type 0} → Result A BackendError → Starting A
lift r t = (r, t)

abbrev pub resume :
    {A B : Type 0}
    → (A → Starting B)
    → Result A BackendError × Thread
    → Result B BackendError × Thread
resume f (ok a, t) = f a t
resume f (err e, t) = (err e, t)

infixl 5 ◌>>=◌ ◌>>◌
unfoldable pub ◌>>=◌ : {A B : Type 0} → Starting A → (A → Starting B) → Starting B
◌>>=◌ m f t = resume f (m t)

abbrev pub ◌>>◌ : {A B : Type 0} → Starting A → Starting B → Starting B
m >> k = m >>= λ _. k

abbrev pub io_error : BackendErrorKind → IoError → BackendError
io_error fallback e = from_io fallback e.raw_os_error e.text

-- A call of the libraries or of the kernel: none, or its error.
abbrev pub call_result : Option IoError → Result (Unit {0}) BackendError
call_result none = ok tt
call_result (some e) = err (io_error query_failed e)

abbrev pub add_socket : Thread → Thread
add_socket t = record t { sockets = t.sockets ++ t.namespace ∷ [] }

-- A call that opens a socket.
abbrev pub open_socket : Option IoError → Starting (Unit {0})
open_socket none t = (ok tt, add_socket t)
open_socket (some e) t = (err (io_error query_failed e), t)

-- How the calls of `new` end: the route connection and its settings, the socket of the ioctls, and
-- the text of why there is no ethtool or no wireless connection.
pub record Connecting : Type 0 where
  pub route : Option IoError
  pub bind : Option IoError
  pub ext_ack : Option IoError
  pub cap_ack : Option IoError
  pub ioctl : Option IoError
  pub ethtool : Option String
  pub wireless : Option String

-- A connection that the transport can do without.
abbrev pub open_optional : Option String → String → List Diagnostic → Starting (List Diagnostic)
open_optional none field ds t = (ok ds, add_socket t)
open_optional (some text) field ds t = (ok (ds ++ diagnostic none field text ∷ []), t)

abbrev pub fresh_transport : NamespaceId → List Diagnostic → LinuxTransport
fresh_transport namespace ds = record {
  namespace = namespace;
  tracking = record { closed = false; generations = []; epoch = 0; invalidated = none };
  address_messages = [];
  initialization_diagnostics = ds;
}

unfoldable pub new_transport : NamespaceId → Connecting → Starting LinuxTransport
new_transport namespace c =
    open_socket c.route
    >> lift (call_result c.bind)
    >> lift (call_result c.ext_ack)
    >> lift (call_result c.cap_ack)
    >> open_socket c.ioctl
    >> open_optional c.ethtool "ethernet" []
    >>= (λ ds. open_optional c.wireless "type" ds)
    >>= λ ds. pure (fresh_transport namespace ds)
