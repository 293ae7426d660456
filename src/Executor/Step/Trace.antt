-- ===== src/Executor/Step/Trace.antt =====
-- The outside with a log of the observations and the writes, and what actions do to the log.
use netfyr.Base.{
  ℕ, Bool, true, false, Option, none, some, List, [], ◌∷◌, ◌≡◌, refl, sym, subst, get_elem?, Result,
  ok, err,
}
use netfyr.Plan.{NamespaceId, InterfaceId, DeviceObservation, Observation, OperationKind}
use netfyr.Report.{BackendError}
use netfyr.Executor.Locate.{ethernet}
use netfyr.Executor.Action.{
  Io, Execution, Action, pure, lift, ◌>>=◌, modify, with_state, reject_if, resume,
}

pub data Event : Type 0 where
  observed : Observation → Event
  wrote : InterfaceId → OperationKind → Event

-- The newest event comes first.
abbrev pub Log : Type 0
Log = List Event

abbrev pub log_inventory :
    {W : Type 0}
    → Result Observation BackendError × W
    → Log
    → Result Observation BackendError × (W × Log)
log_inventory (ok o, w) l = (ok o, (w, observed o ∷ l))
log_inventory (err e, w) l = (err e, (w, l))

-- The same outside, with its log.
abbrev pub logged : {W : Type 0} → Io W → Io (W × Log)
logged io = record {
  namespace = io.namespace;
  inventory = λ (w, l). log_inventory (io.inventory w) l;
  execute = λ target kind (w, l).
      let (r, w') = io.execute target kind w in (r, (w', wrote target kind ∷ l));
  now = λ (w, l). let (t, w') = io.now w in (t, (w', l));
  cancelled = λ (w, l). let (b, w') = io.cancelled w in (b, (w', l));
}

-- The observation has the very interface, an Ethernet device of the backend's namespace.
pub record Shows (namespace : NamespaceId) (target : InterfaceId) (o : Observation) : Type 0 where
  pub position : ℕ
  pub device : DeviceObservation
  pub listed : get_elem? o.devices position ≡ some device
  pub exact : device.identity ≡ target
  pub managed : target.device_type ≡ ethernet
  pub local : target.namespace ≡ namespace

-- The newest event is an observation, and it shows the interface.
abbrev pub JustSeen : NamespaceId → InterfaceId → Log → Type 0
JustSeen ns target [] = ⊥
JustSeen ns target (observed o ∷ l) = Shows ns target o
JustSeen ns target (wrote t k ∷ l) = ⊥

-- Each write comes directly after an observation that shows its target.
abbrev pub IsJustified : NamespaceId → Log → Type 0
IsJustified ns [] = Unit
IsJustified ns (observed o ∷ l) = IsJustified ns l
IsJustified ns (wrote t k ∷ l) = JustSeen ns t l × IsJustified ns l

-- The newest event is this observation.
abbrev pub IsLatest : Observation → Log → Type 0
IsLatest o [] = ⊥
IsLatest o (observed o' ∷ l) = o' ≡ o
IsLatest o (wrote t k ∷ l) = ⊥

-- An observation that is kept is the newest event.
abbrev pub IsFresh : Option Observation → Log → Type 0
IsFresh none l = Unit
IsFresh (some o) l = IsLatest o l

-- What assertions are about: the kept observation and the log.
abbrev pub View : Type 0
View = Option Observation × Log

abbrev pub view : {W : Type 0} → Execution (W × Log) → View
view x = (x.current, x.world.1)

abbrev pub Inv : NamespaceId → View → Type 0
Inv ns (c, l) = IsJustified ns l × IsFresh c l

-- Nothing is kept.
abbrev pub Idle : NamespaceId → View → Type 0
Idle ns (c, l) = IsJustified ns l × (c ≡ none)

-- The observation is kept and newest.
abbrev pub Seen : NamespaceId → Observation → View → Type 0
Seen ns o (c, l) = IsJustified ns l × IsFresh c l × IsLatest o l

-- The newest event shows the interface.
abbrev pub Ready : NamespaceId → InterfaceId → View → Type 0
Ready ns t (c, l) = IsJustified ns l × IsFresh c l × JustSeen ns t l

-- The same, with nothing kept.
abbrev pub ReadyIdle : NamespaceId → InterfaceId → View → Type 0
ReadyIdle ns t (c, l) = IsJustified ns l × (c ≡ none) × JustSeen ns t l

-- The newest event is the observation, and nothing is kept.
abbrev pub SeenIdle : NamespaceId → Observation → View → Type 0
SeenIdle ns o (c, l) = IsJustified ns l × (c ≡ none) × IsLatest o l

pub Idle-Inv : (ns : NamespaceId) (v : View) → Idle ns v → Inv ns v
Idle-Inv ns (c, l) (j, e) = (j, subst (λ c. IsFresh c l) (sym e) tt)

module _ {W : Type 0} (ns : NamespaceId) where
  -- After a result the assertion `Q` holds, after an error the invariant.
  abbrev pub After :
      {A : Type 0} → (A → View → Type 0) → Result A BackendError × Execution (W × Log) → Type 0
  After Q (ok a, y) = Q a (view y)
  After Q (err e, y) = Inv ns (view y)

  pub record Triple {A : Type 0} (P : View → Type 0) (m : Action (W × Log) A)
      (Q : A → View → Type 0) : Type 0 where
    pub at : (x : Execution (W × Log)) → P (view x) → After Q (m x)

  resume_Triple :
      {A B : Type 0} (Q : A → View → Type 0) (R : B → View → Type 0) (f : A → Action (W × Log) B)
      → ((a : A) → Triple (Q a) (f a) R)
      → (p : Result A BackendError × Execution (W × Log)) → After Q p
      → After R (resume f p)
  resume_Triple Q R f h (ok a, y) q = (h a).at y q
  resume_Triple Q R f h (err e, y) q = q

  pub bind-Triple :
      {A B : Type 0} (P : View → Type 0) (Q : A → View → Type 0) (R : B → View → Type 0)
      (m : Action (W × Log) A) (f : A → Action (W × Log) B)
      → Triple P m Q
      → ((a : A) → Triple (Q a) (f a) R)
      → Triple P (m >>= f) R
  unfolding ◌>>=◌
  bind-Triple P Q R m f h k = record { at = λ x p. resume_Triple Q R f k (m x) (h.at x p) }

  pub pure-Triple :
      {A : Type 0} (P : View → Type 0) (Q : A → View → Type 0) (a : A)
      → ((v : View) → P v → Q a v)
      → Triple P (pure a) Q
  pure-Triple P Q a h = record { at = λ x p. h (view x) p }

  pub lift-Triple :
      {A : Type 0} (P : View → Type 0) (Q : A → View → Type 0) (r : Result A BackendError)
      → ((a : A) → r ≡ ok a → (v : View) → P v → Q a v)
      → ((v : View) → P v → Inv ns v)
      → Triple P (lift r) Q
  lift-Triple P Q (ok a) h k = record { at = λ x p. h a refl (view x) p }
  lift-Triple P Q (err e) h k = record { at = λ x p. k (view x) p }

  -- A result that nothing is asked of.
  pub lift_any :
      {A : Type 0} (P : View → Type 0) (r : Result A BackendError)
      → ((v : View) → P v → Inv ns v)
      → Triple P (lift r) (λ a. P)
  lift_any P r k = lift-Triple P (λ a. P) r (λ a e v p. p) k

  pub reject_if-Triple :
      (P : View → Type 0) (b : Bool) (e : BackendError)
      → ((v : View) → P v → Inv ns v)
      → Triple P (reject_if b e) (λ a. P)
  reject_if-Triple P true e k = record { at = λ x p. k (view x) p }
  reject_if-Triple P false e k = record { at = λ x p. p }

  -- A change of the fields that brings `P` to `Q`.
  pub modify-Triple :
      (P Q : View → Type 0) (f : Execution (W × Log) → Execution (W × Log))
      → ((x : Execution (W × Log)) → P (view x) → Q (view (f x)))
      → Triple P (modify f) (λ a. Q)
  modify-Triple P Q f h = record { at = h }

  pub with_state-Triple :
      {A : Type 0} (P : View → Type 0) (Q : A → View → Type 0)
      (f : Execution (W × Log) → Action (W × Log) A)
      → ((x : Execution (W × Log)) → Triple (λ v. P v × (v ≡ view x)) (f x) Q)
      → Triple P (with_state f) Q
  unfolding with_state
  with_state-Triple P Q f h = record { at = λ x p. (h x).at x (p, refl) }

  pub weaken :
      {A : Type 0} (P P' : View → Type 0) (m : Action (W × Log) A) (Q : A → View → Type 0)
      → ((v : View) → P' v → P v)
      → Triple P m Q
      → Triple P' m Q
  weaken P P' m Q h t = record { at = λ x p. t.at x (h (view x) p) }
