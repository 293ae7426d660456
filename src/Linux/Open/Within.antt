-- ===== src/Linux/Open/Within.antt =====
-- The sockets of a thread that stays in a namespace.
use netfyr.Base.{
  ◌≡◌, refl, sym, ap, subst, String, Option, none, some, List, [], ◌∷◌, All, All-append, Result, ok,
  err,
}
use netfyr.Base.Equality.{nat_eq}
use netfyr.Plan.{NamespaceId, Diagnostic}
use netfyr.Plan.Identity.{namespace_eq}
use netfyr.Report.{BackendError}
use netfyr.Linux.Interface.{IoError}
use netfyr.Linux.Transport.{LinuxTransport}
use netfyr.Linux.Open.{
  Thread, Starting, lift, resume, ◌>>=◌, call_result, add_socket, open_socket, Connecting,
  open_optional, fresh_transport, new_transport,
}

-- The thread is in the namespace, and so are all its sockets.
pub record IsWithin (n : NamespaceId) (t : Thread) : Type 0 where
  pub inside : t.namespace ≡ n
  pub sockets_inside : All (λ s. s ≡ n) t.sockets

-- The first of two actions, with the second one from where it ends.
pub data Ran {A B : Type 0} (m : Starting A) (f : A → Starting B) (t : Thread) (b : B)
    (after : Thread) : Type 0 where
  ran : (a : A) (mid : Thread) → m t ≡ (ok a, mid) → f a mid ≡ (ok b, after) → Ran m f t b after

resumed :
    {A B : Type 0} (f : A → Starting B) (r : Result A BackendError × Thread) (b : B)
    (after : Thread)
    → resume f r ≡ (ok b, after)
    → (a : A) × (r ≡ (ok a, r.1)) × (f a r.1 ≡ (ok b, after))
resumed f (ok a, mid) b after h = (a, refl, h)
resumed f (err e, mid) b after h = let no : err e ≡ ok b = ap (λ x. x.0) h in cc

pub starting-ok :
    {A B : Type 0} (m : Starting A) (f : A → Starting B) (t : Thread) (b : B) (after : Thread)
    → (m >>= f) t ≡ (ok b, after)
    → Ran m f t b after
unfolding ◌>>=◌
starting-ok m f t b after h =
    let (a, first, rest) = resumed f (m t) b after h in ran a (m t).1 first rest

-- An action that leaves a thread within the namespace when it succeeds.
abbrev pub Stays : {A : Type 0} → NamespaceId → Starting A → Type 0
Stays {A = A} n m =
    (t after : Thread) (a : A) → m t ≡ (ok a, after) → IsWithin n t → IsWithin n after

then_Stays :
    {A B : Type 0} (n : NamespaceId) (m : Starting A) (f : A → Starting B)
    → Stays n m
    → ((a : A) → Stays n (f a))
    → Stays n (m >>= f)
then_Stays n m f first rest t after b h w = elim (starting-ok m f t b after h) [
  | ran a mid e e' ↦ rest a mid after b e' (first t mid a e w)
]

add_socket-IsWithin : (n : NamespaceId) (t : Thread) → IsWithin n t → IsWithin n (add_socket t)
add_socket-IsWithin n t w = record {
  inside = w.inside;
  sockets_inside =
      All-append (λ s. s ≡ n) t.sockets (t.namespace ∷ []) w.sockets_inside (w.inside, tt);
}

pub lift-Stays : {A : Type 0} (n : NamespaceId) (r : Result A BackendError) → Stays n (lift r)
lift-Stays n r t after a h w = subst (IsWithin n) (ap (λ x. x.1) h) w

open_socket-Stays : (n : NamespaceId) (e : Option IoError) → Stays n (open_socket e)
open_socket-Stays n none t after a h w =
    subst (IsWithin n) (ap (λ x. x.1) h) (add_socket-IsWithin n t w)
open_socket-Stays n (some e) t after a h w = subst (IsWithin n) (ap (λ x. x.1) h) w

open_optional-Stays :
    (n : NamespaceId) (e : Option String) (field : String) (ds : List Diagnostic)
    → Stays n (open_optional e field ds)
open_optional-Stays n none field ds t after a h w =
    subst (IsWithin n) (ap (λ x. x.1) h) (add_socket-IsWithin n t w)
open_optional-Stays n (some e) field ds t after a h w = subst (IsWithin n) (ap (λ x. x.1) h) w

pub new_transport-Stays :
    (n namespace : NamespaceId) (c : Connecting) → Stays n (new_transport namespace c)
unfolding new_transport
new_transport-Stays n namespace c =
    then_Stays n _ _
      (then_Stays n _ _
        (then_Stays n _ _
          (then_Stays n _ _
            (then_Stays n _ _
              (then_Stays n _ _
                (then_Stays n _ _ (open_socket-Stays n c.route)
                  λ u. lift-Stays n (call_result c.bind))
                λ u. lift-Stays n (call_result c.ext_ack))
              λ u. lift-Stays n (call_result c.cap_ack))
            λ u. open_socket-Stays n c.ioctl)
          λ u. open_optional-Stays n c.ethtool "ethernet" [])
        λ ds. open_optional-Stays n c.wireless "type" ds)
      λ ds. lift-Stays n (ok (fresh_transport namespace ds))

pub new_transport-namespace :
    (namespace : NamespaceId) (c : Connecting) (t after : Thread) (tr : LinuxTransport)
    → new_transport namespace c t ≡ (ok tr, after)
    → tr.namespace ≡ namespace
unfolding new_transport
new_transport-namespace namespace c t after tr h = elim (starting-ok _ _ t tr after h) [
  | ran ds mid e last ↦
      let same : fresh_transport namespace ds ≡ tr =
        let r : ok (fresh_transport namespace ds) ≡ ok tr = ap (λ x. x.0) last in cc in
      ap (λ x. x.namespace) (sym same)
]
