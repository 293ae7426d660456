-- ===== src/Linux/Transport/Namespaced.antt =====
-- The transport stays in its namespace, whatever the kernel answers.
use netfyr.Base.{ℕ, ◌≡◌, refl, subst, Result, ok, err}
use netfyr.Base.Equality.{nat_eq, string_eq}
use netfyr.Plan.{NamespaceId, InterfaceId, OperationKind}
use netfyr.Report.{BackendError}
use netfyr.Linux.Exchange.{Library, Exchange}
use netfyr.Linux.Transport.{
  RouteMessage, Connection, Action, Socket, lift, ◌>>=◌, drain, request, confirm_identity, execute,
}
use netfyr.Linux.Transport.Actions.{bind_cases}

abbrev pub Any : {A : Type 0} → A → Type 0
Any a = Unit

module _ {W : Type 0} (n : NamespaceId) where
  abbrev pub IsAt : Connection W → Type 0
  IsAt c = c.transport.namespace ≡ n

  -- How an action ends: in the namespace, and with a value of the property.
  abbrev pub Ends : {A : Type 0} → (A → Type 0) → Result A BackendError × Connection W → Type 0
  Ends Q (ok a, d) = IsAt d × Q a
  Ends Q (err e, d) = IsAt d

  abbrev pub Keeps : {A : Type 0} → (A → Type 0) → Action W A → Type 0
  Keeps Q m = (c : Connection W) → IsAt c → Ends Q (m c)

  pub then_Keeps :
      {A B : Type 0} (P : A → Type 0) (Q : B → Type 0) (m : Action W A) (f : A → Action W B)
      → Keeps P m
      → ((a : A) → P a → Keeps Q (f a))
      → Keeps Q (m >>= f)
  then_Keeps P Q m f first next c at =
      bind_cases (Ends Q) m f c (λ e d ran. subst (Ends P) ran (first c at))
        λ a d ran. let (there, p) = subst (Ends P) ran (first c at) in next a p d there

  pub result_Ends :
      {A : Type 0} (r : Result A BackendError) (d : Connection W) → IsAt d → Ends Any (r, d)
  result_Ends (ok a) d at = (at, tt)
  result_Ends (err e) d at = at

  pub lift-Keeps :
      {A : Type 0} (Q : A → Type 0) (r : Result A BackendError)
      → ((a : A) → r ≡ ok a → Q a)
      → Keeps Q (lift r)
  lift-Keeps Q (ok a) q c at = (at, q a refl)
  lift-Keeps Q (err e) q c at = at

  module _ (library : Library) (socket : Socket W) where
    pub drain-Keeps : Keeps Any (drain library socket)
    unfolding drain
    drain-Keeps c at = result_Ends _ _ at

    pub request-Keeps :
        (message : RouteMessage) (exchange : Exchange) (flags : ℕ)
        → Keeps Any (request library socket message exchange flags)
    unfolding request
    request-Keeps message exchange flags =
        then_Keeps Any Any _ _ drain-Keeps λ u _ c at. result_Ends _ _ at

    confirm_identity-Keeps :
        (target : InterfaceId) → Keeps Any (confirm_identity library socket target)
    unfolding confirm_identity
    confirm_identity-Keeps target =
        then_Keeps Any Any _ _ (λ c at. result_Ends _ c at)
          λ u _. then_Keeps Any Any _ _ (request-Keeps _ _ _) λ reply _.
            then_Keeps Any Any _ _ drain-Keeps λ v _.
              then_Keeps Any Any _ _ (lift-Keeps Any _ λ a e. tt) λ name _ c at. result_Ends _ c at

    pub execute-Keeps :
        (target : InterfaceId) (operation : OperationKind)
        → Keeps Any (execute library socket target operation)
    unfolding execute
    execute-Keeps target operation =
        then_Keeps Any Any _ _ (λ c at. result_Ends _ c at)
          λ m _.
            then_Keeps Any Any _ _ (confirm_identity-Keeps target)
              λ u _. then_Keeps Any Any _ _ (request-Keeps _ _ _) λ r _ c at. (at, tt)
