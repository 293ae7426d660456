-- ===== src/Executor/Run/Advances.antt =====
-- What one operation of a run does to the report and to the marks of the operations that are done.
use netfyr.Base.{
  eqb_refl, ℕ, ◌<◌, ◌≡◌, ◌≢◌, ◌⊎◌, inl, inr, refl, sym, ap, ◌∙◌, subst, arith, Bool, true, false,
  not, ◌&&◌, ◌||◌, Option, none, some, List, [], ◌∷◌, eqb, leb, any, any-append, keep, All, get_or,
  set, get_or-set_ne, Bool-cases, Result, ok, err,
}
use netfyr.Plan.{Operation}
use netfyr.Report.{
  BackendError, OperationContext, context_of, SkipReason, dependency_failed, SkippedOperation,
  ApplyReport, is_blocked,
}
use netfyr.Executor.Action.{Execution}
use netfyr.Executor.Step.Keeps.{OnOk}
use netfyr.Executor.Step.Frame.{IsUnblocked}
use netfyr.Executor.Run.{push_failed, push_skipped, push_succeeded, record_result, mark_eligible}

-- The report says of the operation at index `i` that it was written, or that there was nothing to
-- write: it succeeded, or was skipped for another reason than its dependencies.
abbrev succeeded_at : ℕ → OperationContext → Bool
succeeded_at i c = eqb i c.index

abbrev skipped_at : ℕ → SkippedOperation → Bool
skipped_at i s = eqb i s.context.index && not (is_blocked (some s.reason))

unfoldable pub done : ℕ → ApplyReport → Bool
done i r = any (succeeded_at i) r.succeeded || any (skipped_at i) r.skipped

done-push_succeeded :
    (i : ℕ) (c : OperationContext) (r : ApplyReport)
    → done i (push_succeeded c r) ≡ (done i r || eqb i c.index)
unfolding done
done-push_succeeded i c r = ground (arith, any-append (succeeded_at i) r.succeeded (c ∷ []))

done-push_skipped :
    (i : ℕ) (c : OperationContext) (s : SkipReason) (r : ApplyReport)
    → done i (push_skipped c s r) ≡ (done i r || (eqb i c.index && not (is_blocked (some s))))
unfolding done
done-push_skipped i c s r =
    ground (arith, any-append (skipped_at i) r.skipped (record { context = c; reason = s } ∷ []))

-- One operation at index `n`, from the state `x` and the report `r` to `y` and `r'`.
pub record Advances {W : Type 0} (n : ℕ) (op : Operation) (x y : Execution W) (r r' : ApplyReport)
    : Type 0 where
  pub others : (i : ℕ) → i ≢ n → done i r' ≡ done i r
  pub ready :
      done n r' ≡ true
      → (done n r ≡ true) ⊎ All (λ d. (d < n) × (get_or x.eligible d false ≡ true)) op.depends_on
  pub marks :
      (d : ℕ)
      → get_or y.eligible d false ≡ true
      → (get_or x.eligible d false ≡ true) ⊎ ((d ≡ n) × (done n r' ≡ true))

-- With no dependency at or after `n`, and none that is not eligible.
pub dependencies_ready :
    (n : ℕ) (marks : List Bool) (ds : List ℕ)
    → any (λ d. leb n d) ds ≡ false
    → keep (λ d. not (get_or marks d false)) ds ≡ []
    → All (λ d. (d < n) × (get_or marks d false ≡ true)) ds
dependencies_ready n marks [] h k = tt
dependencies_ready n marks (d ∷ ds) h k = elim (Bool-cases (get_or marks d false)) [
  | inl marked ↦
      ((ground arith, marked), dependencies_ready n marks ds (ground arith) (ground arith))
  | inr unmarked ↦ ground arith
]

eqb_ne : (i n : ℕ) → i ≢ n → eqb i n ≡ false
eqb_ne i n h = ground arith

module _ {W : Type 0} (n : ℕ) (op : Operation) (x : Execution W) (r : ApplyReport) where
  -- Nothing is marked, and the operation is not done.
  pub failed-Advances : (e : BackendError) → Advances n op x x r (push_failed (context_of n op) e r)
  unfolding done
  failed-Advances e = record { others = λ i h. refl; ready = λ h. inl h; marks = λ d h. inl h }

  pub blocked-Advances :
      (ds : List ℕ) → Advances n op x x r (push_skipped (context_of n op) (dependency_failed ds) r)
  blocked-Advances ds =
      let skip = λ (i : ℕ). done-push_skipped i (context_of n op) (dependency_failed ds) r in
      record {
        others = λ i h. ground (arith, skip i);
        ready = λ h. inl (ground (arith, skip n));
        marks = λ d h. inl h;
      }

  module _ (y : Execution W) (same : y.eligible ≡ x.eligible)
      (deps : All (λ d. (d < n) × (get_or x.eligible d false ≡ true)) op.depends_on) where
    marked :
        (r' : ApplyReport)
        → done n r' ≡ true
        → (d : ℕ) → get_or (set y.eligible n true) d false ≡ true
        → (get_or x.eligible d false ≡ true) ⊎ ((d ≡ n) × (done n r' ≡ true))
    marked r' finished d h = elim (Bool-cases (eqb d n)) [
      | inl same_index ↦ inr (ground arith, finished)
      | inr other ↦
          let distinct : n ≢ d = λ e. ground (arith, eqb_refl n) in
          inl (
            ap (λ l. get_or l d false) (sym same)
            ∙ sym (get_or-set_ne y.eligible n d true false distinct)
            ∙ h)
    ]

    pub result-Advances :
        (s : Result (Option SkipReason) BackendError)
        → OnOk IsUnblocked s
        → Advances n op x (mark_eligible n s y) r (record_result (context_of n op) s r)
    result-Advances (ok none) u =
        let push = λ (i : ℕ). done-push_succeeded i (context_of n op) r in
        let finished : done n (push_succeeded (context_of n op) r) ≡ true =
          ground (arith, push n, eqb_refl n) in
        record {
          others = λ i h. ground (arith, push i, eqb_ne i n h);
          ready = λ h. inr deps;
          marks = marked _ finished;
        }
    result-Advances (ok (some s)) u =
        let push = λ (i : ℕ). done-push_skipped i (context_of n op) s r in
        let finished : done n (push_skipped (context_of n op) s r) ≡ true =
          ground (arith, push n, eqb_refl n) in
        record {
          others = λ i h. ground (arith, push i, eqb_ne i n h);
          ready = λ h. inr deps;
          marks = marked _ finished;
        }
    result-Advances (err e) u = record {
      others = (failed-Advances e).others;
      ready = λ h. inr deps;
      marks = λ d h. inl (subst (λ l. get_or l d false ≡ true) same h);
    }
