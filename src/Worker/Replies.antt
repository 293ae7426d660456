-- ===== src/Worker/Replies.antt =====
-- What a caller gets.
use netfyr.Base.{
  ◌≡◌, sym, ap, ◌∙◌, ◌↔◌, subst, String, Bool, true, false, ◌&&◌, Option, List, [], ◌∷◌, keep,
  Bool-cases, inl, inr, is_nil, is_some, Result, ok, err,
}
use netfyr.Value.{IpAddr}
use mathlib.Core.List.{Memᴰ}
use mathlib.Core.List.Memᴰ.{head, tail}
use netfyr.Device.{Match}
use netfyr.Device.Selector.{Meets, matches_iff}
use netfyr.Plan.{DeviceObservation, Observation, StateDiff}
use netfyr.Report.{BackendError, ApplyReport}
use netfyr.Executor.Action.{Io}
use netfyr.Executor.Run.{apply_plan}
use netfyr.Executor.Run.Completeness.{
  reported, contexts_from, run-reports_all, failed_report-reports_all,
}
use netfyr.Worker.{
  observed, Transport, query, handle, may_match, selected, filter_observation, Delivery, refused,
  dropped, answered, apply_result, disconnected, unreported,
}

-- If anything is delivered, it is the value.
abbrev pub Delivers : {A : Type 0} → A → Delivery A → Type 0
Delivers a refused = Unit
Delivers a dropped = Unit
Delivers a (answered b) = b ≡ a

-- However an apply ends for the caller, the worker's refusal and its end before the report included,
-- the caller's report has every operation of the plan exactly once.
pub apply_result-reports_all :
    {W : Type 0} (pa : String → Option IpAddr) (io : Io W) (diff : StateDiff) (w : W)
    (d : Delivery ApplyReport)
    → Delivers (apply_plan pa io diff w).0 d
    → reported (apply_result diff d) ≡ contexts_from 0 diff.operations
unfolding apply_result apply_plan
apply_result-reports_all pa io diff w refused h = failed_report-reports_all diff disconnected
apply_result-reports_all pa io diff w dropped h = failed_report-reports_all diff unreported
apply_result-reports_all pa io diff w (answered r) h =
    ap reported h ∙ run-reports_all pa io diff false w

-- What `keep` keeps.
kept_of :
    {A : Type 0} (p : A → Bool) (a : A) (xs : List A)
    → Memᴰ a (keep p xs)
    → Memᴰ a xs × (p a ≡ true)
kept_of p a [] h = elim h [ ]
kept_of p a (x ∷ xs) h = elim (Bool-cases (p x)) [
  | inl e ↦ first e (kept_of p a xs) (rw e at h)
  | inr e ↦ let (there, meets) = kept_of p a xs (rw e at h) in (tail there, meets)
]
  where
    first :
        p x ≡ true
        → (Memᴰ a (keep p xs) → Memᴰ a xs × (p a ≡ true))
        → Memᴰ a (x ∷ keep p xs)
        → Memᴰ a (x ∷ xs) × (p a ≡ true)
    first e later (head same) = (head same, ap p same ∙ e)
    first e later (tail rest) = let (there, meets) = later rest in (tail there, meets)

keeps_all :
    {A : Type 0} (p : A → Bool) (a : A) (xs : List A) → Memᴰ a xs → p a ≡ true → Memᴰ a (keep p xs)
keeps_all p a [] h e = elim h [ ]
keeps_all p a (x ∷ xs) (head same) e =
    let here : p x ≡ true = ap p (sym same) ∙ e in rw here (head same)
keeps_all p a (x ∷ xs) (tail rest) e = elim (Bool-cases (p x)) [
  | inl yes_x ↦ rw yes_x (tail (keeps_all p a xs rest e))
  | inr no_x ↦ rw no_x (keeps_all p a xs rest e)
]

filter_observation-devices :
    (debug : Match → String) (selector : Match) (seen o : Observation)
    → filter_observation debug selector (ok seen) ≡ ok o
    → keep (selected selector) seen.devices ≡ o.devices
unfolding filter_observation
filter_observation-devices debug selector seen o h =
    elim (Bool-cases (is_nil (keep (selected selector) seen.devices) && is_some selector.name)) [
      | inl nothing ↦ let no : err _ ≡ ok o = rw nothing at h in cc
      | inr found ↦
          let done : ok (record seen { devices = keep (selected selector) seen.devices }) ≡ ok o =
            rw found at h in
          let same : record seen { devices = keep (selected selector) seen.devices } ≡ o = cc in
          ap (λ (x : Observation). x.devices) same
    ]

-- When a query is answered with an observation, a device is in it exactly when it is in the inventory
-- behind the query and meets every criterion of the selector, those included that the inventory
-- itself does not compare.
pub handle-selected :
    {W : Type 0} (pa : String → Option IpAddr) (t : Transport W) (selector : Match) (w w' : W)
    (seen o : Observation) (d : DeviceObservation)
    → handle pa t (query selector) w ≡ (observed (ok o), w')
    → (t.inventory_where (may_match selector) w).0 ≡ ok seen
    → Memᴰ d o.devices ↔ (Memᴰ d seen.devices × Meets selector d.state.match_spec)
unfolding handle
handle-selected pa t selector w w' seen o d h listed =
    let filtered = replied (ap (λ x. x.0) h) in
    let same =
      filter_observation-devices t.debug_match selector seen o
        (ap (filter_observation t.debug_match selector) (sym listed) ∙ filtered) in
    let (meets, selects) = matches_iff selector d.state.match_spec in
    (
      λ m.
          let (there, kept) =
            kept_of (selected selector) d seen.devices (subst (Memᴰ d) (sym same) m) in
          (there, meets kept),
      λ (there, all).
          subst (Memᴰ d) same (keeps_all (selected selector) d seen.devices there (selects all)),
    )
  where
    replied : {r : Result Observation BackendError} → observed r ≡ observed (ok o) → r ≡ ok o
    replied e = cc
