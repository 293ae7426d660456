-- ===== src/Executor/Step/Keeps.antt =====
-- Actions that leave the marks of the operations that later ones may depend on, what is true of their
-- results, and what stays true of the outside.
use netfyr.Base.{Bool, true, false, ◌≡◌, refl, sym, ◌∙◌, subst, Result, ok, err}
use netfyr.Plan.{InterfaceId, OperationKind}
use netfyr.Report.{BackendError}
use netfyr.Executor.Groups.{key_eq}
use netfyr.Executor.Action.{
  Io, Execution, Action, pure, lift, ◌>>=◌, ask, call, reject_if, modify, with_state, resume,
}

-- A property of a result that is no error.
abbrev pub OnOk : {A : Type 0} → (A → Type 0) → Result A BackendError → Type 0
OnOk P (ok a) = P a
OnOk P (err e) = Unit {0}

abbrev pub Anything : {A : Type 0} → A → Type 0
Anything a = Unit {0}

-- The action changes no mark, its result has the property `P`, and the outside keeps `J`.
pub record Keeps {W A : Type 0} (J : W → Type 0) (P : A → Type 0) (m : Action W A) : Type 0 where
  pub at : (x : Execution W) → ((m x).1.eligible ≡ x.eligible) × OnOk P (m x).0
  pub stays : (x : Execution W) → J x.world → J (m x).1.world

-- Each call of the outside keeps `J`.
pub record IsClosed {W : Type 0} (io : Io W) (J : W → Type 0) : Type 0 where
  pub inventory : (w : W) → J w → J (io.inventory w).1
  pub execute : (i : InterfaceId) (k : OperationKind) (w : W) → J w → J (io.execute i k w).1
  pub now : (w : W) → J w → J (io.now w).1
  pub cancelled : (w : W) → J w → J (io.cancelled w).1

pub Anything-IsClosed : {W : Type 0} (io : Io W) → IsClosed io (λ w. Unit {0})
Anything-IsClosed io = record {
  inventory = λ w j. tt;
  execute = λ i k w j. tt;
  now = λ w j. tt;
  cancelled = λ w j. tt;
}

pub result-Anything : {A : Type 0} (r : Result A BackendError) → OnOk Anything r
result-Anything (ok a) = tt
result-Anything (err e) = tt

module _ {W : Type 0} {J : W → Type 0} where
  resume-Keeps :
      {A B : Type 0} (P : A → Type 0) (Q : B → Type 0) (f : A → Action W B)
      → ((a : A) → P a → Keeps J Q (f a))
      → (x y : Execution W) (r : Result A BackendError) → y.eligible ≡ x.eligible
      → OnOk P r
      → ((resume f (r, y)).1.eligible ≡ x.eligible) × OnOk Q (resume f (r, y)).0
  resume-Keeps P Q f kf x y (ok a) e h = let (e', q) = (kf a h).at y in (e' ∙ e, q)
  resume-Keeps P Q f kf x y (err b) e h = (e, tt)

  resume-stays :
      {A B : Type 0} (P : A → Type 0) (Q : B → Type 0) (f : A → Action W B)
      → ((a : A) → P a → Keeps J Q (f a))
      → (y : Execution W) (r : Result A BackendError) → OnOk P r
      → J y.world
      → J (resume f (r, y)).1.world
  resume-stays P Q f kf y (ok a) h j = (kf a h).stays y j
  resume-stays P Q f kf y (err b) h j = j

  pub bind-Keeps :
      {A B : Type 0} (P : A → Type 0) (Q : B → Type 0) (m : Action W A) (f : A → Action W B)
      → Keeps J P m
      → ((a : A) → P a → Keeps J Q (f a))
      → Keeps J Q (m >>= f)
  unfolding ◌>>=◌
  bind-Keeps P Q m f km kf = record {
    at = λ x. resume-Keeps P Q f kf x (m x).1 (m x).0 (km.at x).0 (km.at x).1;
    stays = λ x j. resume-stays P Q f kf (m x).1 (m x).0 (km.at x).1 (km.stays x j);
  }

  -- Without properties of the results in between.
  pub then-Keeps :
      {A B : Type 0} (Q : B → Type 0) (m : Action W A) (f : A → Action W B)
      → Keeps J Anything m
      → ((a : A) → Keeps J Q (f a))
      → Keeps J Q (m >>= f)
  then-Keeps Q m f km kf = bind-Keeps Anything Q m f km (λ a h. kf a)

  pub lift-Keeps : {A : Type 0} (r : Result A BackendError) → Keeps J Anything (lift {W = W} r)
  lift-Keeps r = record { at = λ x. (refl, result-Anything r); stays = λ x j. j }

  pub ask-Keeps :
      {A : Type 0} (f : W → A × W) → ((w : W) → J w → J (f w).1) → Keeps J Anything (ask f)
  ask-Keeps f h = record { at = λ x. (refl, tt); stays = λ x j. h x.world j }

  pub call-Keeps :
      {A : Type 0} (f : W → Result A BackendError × W)
      → ((w : W) → J w → J (f w).1)
      → Keeps J Anything (call f)
  call-Keeps f h = record {
    at = λ x. (refl, result-Anything (f x.world).0);
    stays = λ x j. h x.world j;
  }

  pub reject_if-Keeps : (b : Bool) (e : BackendError) → Keeps J Anything (reject_if {W = W} b e)
  reject_if-Keeps true e = record { at = λ x. (refl, tt); stays = λ x j. j }
  reject_if-Keeps false e = record { at = λ x. (refl, tt); stays = λ x j. j }

  pub pure-Keeps : {A : Type 0} (P : A → Type 0) (a : A) → P a → Keeps J P (pure {W = W} a)
  pure-Keeps P a h = record { at = λ x. (refl, h); stays = λ x j. j }

  pub modify-Keeps :
      (f : Execution W → Execution W)
      → ((x : Execution W) → (f x).eligible ≡ x.eligible)
      → ((x : Execution W) → (f x).world ≡ x.world)
      → Keeps J Anything (modify f)
  modify-Keeps f h k = record { at = λ x. (h x, tt); stays = λ x j. subst J (sym (k x)) j }

  pub with_state-Keeps :
      {A : Type 0} (P : A → Type 0) (f : Execution W → Action W A)
      → ((x : Execution W) → Keeps J P (f x))
      → Keeps J P (with_state f)
  unfolding with_state
  with_state-Keeps P f h = record { at = λ x. (h x).at x; stays = λ x. (h x).stays x }
