-- ===== src/Worker/Open/Within.antt =====
-- The namespace of a backend's sockets.
use netfyr.Base.{
  ℕ, ◌≡◌, refl, sym, ap, ◌∙◌, subst, String, [], All, Bool-cases, inl, inr, Result, ok, err,
}
use netfyr.Base.Equality.{◌==◌, nat_eq}
use netfyr.Plan.{NamespaceId}
use netfyr.Plan.Identity.{namespace_eq}
use netfyr.Report.{BackendError}
use netfyr.Linux.Interface.{IoError}
use netfyr.Linux.Transport.{LinuxTransport}
use netfyr.Linux.Open.{Thread, Starting}
use netfyr.Linux.Open.Within.{
  IsWithin, ran, starting-ok, lift-Stays, new_transport-Stays, new_transport-namespace,
}
use netfyr.Worker.{disconnected}
use netfyr.Worker.Open.{
  NamespaceFile, Host, NetlinkBackend, nsfs_magic, open_namespace, check_filesystem, metadata_of,
  built, current_of, entered, enter_namespace, own, start_worker, wait_ready, open_backend,
}

-- What is documented of the system: the metadata of `/proc/thread-self/ns/net` and of an open
-- namespace file identify the namespace, and `setns` moves the thread into the file's namespace.
pub record IsHost (host : Host) : Type 0 where
  pub own_IsCurrent : (t : Thread) (n : NamespaceId) → host.own_namespace t ≡ ok n → n ≡ t.namespace
  pub moves :
      (f : NamespaceFile) (t : Thread) (n : NamespaceId)
      → host.set_namespace f t ≡ ok n
      → n ≡ f.namespace
  pub identifies :
      (path : String) (f : NamespaceFile) (n : NamespaceId)
      → host.open_file path ≡ ok f
      → f.filesystem ≡ ok nsfs_magic
      → f.metadata ≡ ok n
      → n ≡ f.namespace

opened-nsfs :
    (path : String) (r : Result NamespaceFile IoError) (f : NamespaceFile)
    → open_namespace path r ≡ ok f
    → (r ≡ ok f) × (f.filesystem ≡ ok nsfs_magic)
unfolding open_namespace
opened-nsfs path (err e) f h = cc
opened-nsfs path (ok file) f h =
    let (this, number) = checked file.filesystem refl h in
    (ap ok this, sym (ap (λ x. x.filesystem) this) ∙ number)
  where
    checked :
        (r : Result ℕ IoError)
        → file.filesystem ≡ r
        → check_filesystem path file r ≡ ok f
        → (file ≡ f) × (file.filesystem ≡ ok nsfs_magic)
    checked (err e) same c = cc
    checked (ok magic) same c = elim (Bool-cases (magic == nsfs_magic)) [
      | inr other ↦ let no : err _ ≡ ok f = rw other at c in cc
      | inl equal ↦
          let is_file : ok file ≡ ok f = rw equal at c in
          let this : file ≡ f = cc in
          let number : magic ≡ nsfs_magic = (nat_eq.same_iff magic nsfs_magic).0 equal in
          (this, same ∙ ap ok number)
    ]

was_known : (r : Result NamespaceId IoError) (n : NamespaceId) → metadata_of r ≡ ok n → r ≡ ok n
was_known (ok m) n h = let same : m ≡ n = cc in ap ok same
was_known (err e) n h = cc

made_backend :
    (n : NamespaceId) (tr : LinuxTransport) (b : NetlinkBackend)
    → ◌≡◌ {A = Result NetlinkBackend BackendError}
        (ok (record { namespace = n; transport = tr }))
        (ok b)
    → record { namespace = n; transport = tr } ≡ b
made_backend n tr b h = cc

module _ (host : Host) (laws : IsHost host) where
  own-current :
      (t after : Thread) (current : NamespaceId)
      → own host t ≡ (ok current, after)
      → (current ≡ t.namespace) × (after ≡ t)
  own-current t after current h = (
    laws.own_IsCurrent t current (was_ok (host.own_namespace t) (ap (λ x. x.0) h)),
    sym (ap (λ x. x.1) h),
  )
    where
      was_ok : (r : Result NamespaceId IoError) → current_of r ≡ ok current → r ≡ ok current
      was_ok (ok n) h = let same : n ≡ current = cc in ap ok same
      was_ok (err e) h = cc

  enter_namespace-IsWithin :
      (file : NamespaceFile) (namespace current : NamespaceId) (t after : Thread) (u : Unit {0})
      → namespace ≡ file.namespace
      → current ≡ t.namespace
      → t.sockets ≡ []
      → enter_namespace host file namespace current t ≡ (ok u, after)
      → IsWithin namespace after
  unfolding enter_namespace
  enter_namespace-IsWithin file namespace current t after u named here none_open h =
      elim (Bool-cases (current == namespace)) [
        | inl equal ↦
            let same : current ≡ namespace = (namespace_eq.same_iff current namespace).0 equal in
            let stayed : t ≡ after = ap (λ x. x.1) (rw equal at h) in
            subst (IsWithin namespace) stayed (record {
              inside = sym here ∙ same;
              sockets_inside = subst (All (λ s. s ≡ namespace)) (sym none_open) tt;
            })
        | inr other ↦ moved (host.set_namespace file t) refl (rw other at h)
      ]
    where
      moved :
          (r : Result NamespaceId IoError)
          → host.set_namespace file t ≡ r
          → ◌≡◌ {A = Result (Unit {0}) BackendError × Thread} (entered r t) (ok u, after)
          → IsWithin namespace after
      moved (ok n) e h = subst (IsWithin namespace) (ap (λ x. x.1) h) (record {
        inside = laws.moves file t n e ∙ sym named;
        sockets_inside = subst (All (λ s. s ≡ namespace)) (sym none_open) tt;
      })
      moved (err e) same h = let no : err _ ≡ ok u = ap (λ x. x.0) h in cc

  start_worker-IsWithin :
      (file : NamespaceFile) (namespace : NamespaceId) (t after : Thread) (tr : LinuxTransport)
      → namespace ≡ file.namespace
      → t.sockets ≡ []
      → start_worker host file namespace t ≡ (ok tr, after)
      → IsWithin namespace after × (tr.namespace ≡ namespace)
  unfolding start_worker
  start_worker-IsWithin file namespace t after tr named none_open h =
      elim (starting-ok _ _ t tr after h) [
        | ran u ready up opens ↦ elim (starting-ok _ _ t u ready up) [
          | ran v within_it going building ↦ elim (starting-ok _ _ t v within_it going) [
            | ran current mid first second ↦
                let (here, still) = own-current t mid current first in
                let w =
                  enter_namespace-IsWithin file namespace current mid within_it v named
                    (here ∙ sym (ap (λ x. x.namespace) still))
                    (ap (λ x. x.sockets) still ∙ none_open) second in
                (
                  new_transport-Stays namespace namespace host.connecting ready after tr opens
                      (lift-Stays namespace (built host.runtime) within_it ready u building w),
                  new_transport-namespace namespace host.connecting ready after tr opens,
                )
          ]
        ]
      ]

  waited_for :
      (m : Starting LinuxTransport) (t after : Thread) (tr : LinuxTransport)
      → wait_ready host m t ≡ (ok tr, after)
      → m t ≡ (ok tr, after)
  waited_for m t after tr h = elim (Bool-cases host.in_time) [
    | inl ready ↦ rw ready at h
    | inr late ↦
        let gave_up : ◌≡◌ {A = Result LinuxTransport BackendError × Thread}
            (err disconnected, (m t).1) (ok tr, after) =
          rw late at h in
        let no : ◌≡◌ {A = Result LinuxTransport BackendError} (err disconnected) (ok tr) =
          ap (λ x. x.0) gave_up in
        cc
  ]

  -- The sockets of a backend that opens were all opened in the namespace that the backend reports,
  -- which is that of its transport too, and the worker's thread is in that namespace; from whatever
  -- namespace the thread starts, without sockets, on a system that meets `IsHost`.
  pub open_backend-IsWithin :
      (path : String) (start : NamespaceId) (b : NetlinkBackend) (after : Thread)
      → open_backend host path (record { namespace = start; sockets = [] }) ≡ (ok b, after)
      → IsWithin b.namespace after × (b.transport.namespace ≡ b.namespace)
  unfolding open_backend
  open_backend-IsWithin path start b after h =
      let t : Thread = record { namespace = start; sockets = [] } in
      elim (starting-ok _ _ t b after h) [
        | ran file t1 opens rest ↦ elim (starting-ok _ _ t1 b after rest) [
          | ran namespace t2 known more ↦ elim (starting-ok _ _ t2 b after more) [
            | ran tr t3 up made ↦ elim (starting-ok _ _ t2 tr t3 up) [
              | ran u t4 spawning waited ↦
                  let (opened, nsfs) =
                    opened-nsfs path (host.open_file path) file (ap (λ x. x.0) opens) in
                  let named =
                    laws.identifies path file namespace opened nsfs
                      (was_known file.metadata namespace (ap (λ x. x.0) known)) in
                  let untouched : t ≡ t4 =
                    ap (λ x. x.1) opens ∙ ap (λ x. x.1) known ∙ ap (λ x. x.1) spawning in
                  let (w, same) =
                    start_worker-IsWithin file namespace t4 t3 tr named
                      (ap (λ x. x.sockets) (sym untouched))
                      (waited_for (start_worker host file namespace) t4 t3 tr waited) in
                  let backend : record { namespace = namespace; transport = tr } ≡ b =
                    made_backend namespace tr b (ap (λ x. x.0) made) in
                  (
                    subst (IsWithin b.namespace) (ap (λ x. x.1) made)
                        (subst (λ n. IsWithin n t3) (ap (λ x. x.namespace) backend) w),
                    sym (ap (λ x. x.transport.namespace) backend)
                        ∙ same
                        ∙ ap (λ x. x.namespace) backend,
                  )
            ]
          ]
        ]
      ]
