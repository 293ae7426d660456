-- ===== src/Executor/Action.antt =====
-- `Io`, `Execution` and its actions. A method of `Execution` is a state and error action: what was
-- written stays written when an error is returned.
use netfyr.Base.{ℕ, String, Bool, true, false, Option, List, Result, ok, err}
use netfyr.Plan.{NamespaceId, InterfaceId, Diagnostic, Observation, OperationKind}
use netfyr.Plan.Identity.{diagnostic_eq}
use netfyr.Report.{BackendError}
use netfyr.Executor.Groups.{Groups, key_eq}
use netfyr.Executor.Project.{cancelled_error}

-- `trait Io`, with the clock and the cancellation test that the executor also asks. `W` is the state
-- of all that is outside: the kernel, the time, the caller.
pub record Io (W : Type 0) : Type 0 where
  pub namespace : NamespaceId
  pub inventory : W → Result Observation BackendError × W
  pub execute : InterfaceId → OperationKind → W → Result (Unit {0}) BackendError × W
  pub now : W → ℕ × W
  pub cancelled : W → Bool × W

-- The fields of `Execution` that change, with the outside.
pub record Execution (W : Type 0) : Type 0 where
  pub world : W
  pub groups : Groups
  pub eligible : List Bool
  pub current : Option Observation
  pub diagnostics : List Diagnostic

abbrev pub Action : Type 0 → Type 0 → Type 0
Action W A = Execution W → Result A BackendError × Execution W

module _ {W : Type 0} where
  abbrev pub pure : {A : Type 0} → A → Action W A
  pure a x = (ok a, x)

  -- A pure result, with `?`.
  abbrev pub lift : {A : Type 0} → Result A BackendError → Action W A
  lift r x = (r, x)

  abbrev pub resume :
      {A B : Type 0}
      → (A → Action W B)
      → Result A BackendError × Execution W
      → Result B BackendError × Execution W
  resume f (ok a, y) = f a y
  resume f (err e, y) = (err e, y)

  infixl 5 ◌>>=◌ ◌>>◌
  unfoldable pub ◌>>=◌ : {A B : Type 0} → Action W A → (A → Action W B) → Action W B
  ◌>>=◌ m f x = resume f (m x)

  abbrev pub ◌>>◌ : {A B : Type 0} → Action W A → Action W B → Action W B
  m >> k = m >>= λ _. k

  abbrev pub modify : (Execution W → Execution W) → Action W (Unit {0})
  modify f x = (ok tt, f x)

  -- An action that reads the fields.
  unfoldable pub with_state : {A : Type 0} → (Execution W → Action W A) → Action W A
  with_state f x = f x x

  -- A call of the outside that cannot fail, and one that can.
  abbrev pub ask : {A : Type 0} → (W → A × W) → Action W A
  ask f x = let (a, w) = f x.world in (ok a, record x { world = w })

  abbrev pub call : {A : Type 0} → (W → Result A BackendError × W) → Action W A
  call f x = let (r, w) = f x.world in (r, record x { world = w })

  abbrev pub reject_if : Bool → BackendError → Action W (Unit {0})
  reject_if true error = lift (err error)
  reject_if false error = pure tt

  abbrev pub stop_if : Bool → String → Action W (Unit {0})
  stop_if stop message = reject_if stop (cancelled_error message)
