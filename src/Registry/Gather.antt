-- ===== src/Registry/Gather.antt =====
-- What the merge of several answers gathers: its bookkeeping, and the views of the owners.
use netfyr.Base.{
  ℕ, suc, zero, ◌≡◌, inl, inr, refl, sym, ap, ◌∙◌, subst, Bool, true, false, Option, none, some,
  List, [], ◌∷◌, length, get_elem?, Bool-cases, Result, ok, err, ◌>>=◌,
}
use netfyr.Base.Dict.{get, get-insert_self, get-insert_ne}
use netfyr.Base.Equality.{◌==◌, pair_eq, nat_eq}
use netfyr.Plan.Identity.{namespace_eq}
use netfyr.Device.{Match}
use netfyr.Plan.{NamespaceId, DeviceObservation, Observation}
use netfyr.Report.{BackendError}
use netfyr.Registry.{
  Backend, Backends, owns, Key, key_of, Merging, place, add_device, add_devices, merge_answer,
  merge_answers, empty_merge, is_not_found,
}
use netfyr.Registry.Merge.{Answered, Tracks, place-Tracks, some_injective}

-- The device of the key is in its owner's view.
abbrev pub Marked : Key → Merging → Type 0
Marked k m = (i : ℕ) × (get k m.seen ≡ some (i, true))

place-Marked :
    (k : Key) (f : Option (ℕ × Bool)) (d : DeviceObservation) (owned : Bool) (m : Merging)
    → get (key_of d) m.seen ≡ f
    → Marked k m
    → Marked k (place f d owned m)
unfolding place
place-Marked k (some (i, true)) d owned m e h = h
place-Marked k none d owned m e (i, h) = (i, get-insert_ne (key_of d) k _ m.seen (λ q. cc) ∙ h)
place-Marked k (some (i, false)) d owned m e (j, h) = elim (Bool-cases owned) [
  | inl own ↦ rw own (j, get-insert_ne (key_of d) k _ m.seen (λ q. not_both q) ∙ h)
  | inr foreign ↦ rw foreign (j, h)
]
  where
    not_both : key_of d ≡ k → ⊥
    not_both q =
        let pair : (i, false) ≡ (j, true) = some_injective (sym e ∙ ap (λ x. get x m.seen) q ∙ h) in
        cc (ap (λ p. p.1) pair)

place_marks :
    (f : Option (ℕ × Bool)) (d : DeviceObservation) (m : Merging)
    → get (key_of d) m.seen ≡ f
    → Marked (key_of d) (place f d true m)
unfolding place
place_marks none d m e = (length m.devices, get-insert_self (key_of d) _ m.seen)
place_marks (some (i, true)) d m e = (i, e)
place_marks (some (i, false)) d m e = (i, get-insert_self (key_of d) _ m.seen)

module _ (bs : Backends) (selector : Match) where
  -- A step of the merge keeps the bookkeeping and the owners' views.
  pub record Grows (m m' : Merging) : Type 0 where
    pub tracks : Tracks bs selector m → Tracks bs selector m'
    pub marks : (k : Key) → Marked k m → Marked k m'

  Grows-refl : (m : Merging) → Grows m m
  Grows-refl m = record { tracks = λ t. t; marks = λ k h. h }

  Grows-trans : {m m' m'' : Merging} → Grows m m' → Grows m' m'' → Grows m m''
  Grows-trans g h = record {
    tracks = λ t. h.tracks (g.tracks t);
    marks = λ k p. h.marks k (g.marks k p);
  }

  ok_Grows : (m m' : Merging) → ◌≡◌ {A = Result Merging BackendError} (ok m) (ok m') → Grows m m'
  ok_Grows m m' e = let same : m ≡ m' = cc in subst (Grows m) same (Grows-refl m)

  module _ (p : ℕ) (b : Backend) (listed : get_elem? bs p ≡ some b) where
    one_Grows :
        (d : DeviceObservation) (m m' : Merging)
        → Answered selector b d
        → add_device b d m ≡ ok m'
        → Grows m m' × (owns b d ≡ true → Marked (key_of d) m')
    unfolding add_device
    one_Grows d m m' given e = elim (Bool-cases (d.identity.namespace == b.namespace)) [
      | inr foreign ↦ let no : err _ ≡ ok m' = rw foreign at e in cc
      | inl home ↦
          let same : ok (place (get (key_of d) m.seen) d (owns b d) m) ≡ ok m' = rw home at e in
          let merged : place (get (key_of d) m.seen) d (owns b d) m ≡ m' = cc in
          (
            record {
              tracks = λ t. subst (Tracks bs selector) merged (
                  place-Tracks bs selector m t d (owns b d)
                    (λ own. record {
                      position = p;
                      owner = b;
                      listed = listed;
                      owning = own;
                      home = (namespace_eq.same_iff d.identity.namespace b.namespace).0 home;
                      answered = given;
                    })
                    (get (key_of d) m.seen) refl);
              marks = λ k h.
                  subst (Marked k) merged
                    (place-Marked k (get (key_of d) m.seen) d (owns b d) m refl h);
            },
            λ own.
                subst (Marked (key_of d))
                  (ap (λ o. place (get (key_of d) m.seen) d o m) (sym own) ∙ merged)
                  (place_marks (get (key_of d) m.seen) d m refl),
          )
    ]

    abbrev AllMarked : List DeviceObservation → Merging → Type 0
    AllMarked ds m =
        (i : ℕ) (d : DeviceObservation)
        → get_elem? ds i ≡ some d
        → owns b d ≡ true
        → Marked (key_of d) m

    abbrev AllAnswered : List DeviceObservation → Type 0
    AllAnswered ds =
        (i : ℕ) (d : DeviceObservation) → get_elem? ds i ≡ some d → Answered selector b d

    cons-Marked :
        (d : DeviceObservation) (ds : List DeviceObservation) (m : Merging)
        → (owns b d ≡ true → Marked (key_of d) m)
        → AllMarked ds m
        → AllMarked (d ∷ ds) m
    cons-Marked d ds m first later zero x found own =
        let same : d ≡ x = some_injective found in
        subst (λ y. Marked (key_of y) m) same (first (ap (owns b) same ∙ own))
    cons-Marked d ds m first later (suc i) x found own = later i x found own

    nil-Marked : (m : Merging) → AllMarked [] m
    nil-Marked m i d h own = cc

    -- The devices are added, each in its owner's view.
    data Adds (ds : List DeviceObservation) (m m' : Merging) : Type 0 where
      adds : Grows m m' → AllMarked ds m' → Adds ds m m'

    add_next :
        (d : DeviceObservation) (ds : List DeviceObservation) (m m₁ m' : Merging)
        → Answered selector b d
        → add_device b d m ≡ ok m₁
        → Adds ds m₁ m'
        → Adds (d ∷ ds) m m'
    add_next d ds m m₁ m' given one (adds h later) =
        let (g, first) = one_Grows d m m₁ given one in
        adds (Grows-trans g h) (cons-Marked d ds m' (λ own. h.marks (key_of d) (first own)) later)

    add_rest :
        (d : DeviceObservation) (ds : List DeviceObservation) (m m' : Merging)
        (r : Result Merging BackendError)
        → Answered selector b d
        → add_device b d m ≡ r
        → (r >>= λ m₁. add_devices b ds m₁) ≡ ok m'
        → ((m₁ : Merging) → add_devices b ds m₁ ≡ ok m' → Adds ds m₁ m')
        → Adds (d ∷ ds) m m'
    add_rest d ds m m' (ok m₁) given one e rest = add_next d ds m m₁ m' given one (rest m₁ e)
    add_rest d ds m m' (err x) given one e rest = cc

    devices_Adds :
        (ds : List DeviceObservation) (m m' : Merging)
        → AllAnswered ds
        → add_devices b ds m ≡ ok m'
        → Adds ds m m'
    unfolding add_devices
    devices_Adds [] m m' given e = adds (ok_Grows m m' e) (nil-Marked m')
    devices_Adds (d ∷ ds) m m' given e =
        add_rest d ds m m' (add_device b d m) (given 0 d refl) refl e
          (λ m₁. devices_Adds ds m₁ m' (λ i. given (suc i)))

    -- One answer is merged, with its devices in their owners' views.
    data Answers (a : Result Observation BackendError) (m m' : Merging) : Type 0 where
      answers :
          Grows m m' → ((o : Observation) → a ≡ ok o → AllMarked o.devices m') → Answers a m m'

    -- The diagnostics do not matter to the bookkeeping.
    diagnosed :
        (m : Merging) (l : List netfyr.Plan.Diagnostic)
        → Tracks bs selector m
        → Tracks bs selector (record m { diagnostics = l })
    diagnosed m l t = record {
      placed = t.placed;
      stands = λ k i v h.
          let s = t.stands k i v h in
          record { device = s.device; at = s.at; keyed = s.keyed; view = s.view };
    }

    answer_ok :
        (o : Observation) (m m' : Merging) (l : List netfyr.Plan.Diagnostic)
        → Adds o.devices (record m { diagnostics = l }) m'
        → Answers (ok o) m m'
    answer_ok o m m' l (adds g marked) =
        answers (record { tracks = λ t. g.tracks (diagnosed m l t); marks = g.marks })
          (λ o' same.
            let equal : o ≡ o' = cc in
            subst (λ (x : Observation). AllMarked x.devices m') equal marked)

    answer_Answers :
        (a : Result Observation BackendError) (m m' : Merging)
        → b.query selector ≡ a
        → merge_answer b a m ≡ ok m'
        → Answers a m m'
    unfolding merge_answer
    answer_Answers (ok o) m m' q e =
        answer_ok o m m' _ (devices_Adds o.devices _ m' (λ i d h. (o, i, q, h)) e)
    answer_Answers (err x) m m' q e = elim (Bool-cases (is_not_found x.kind)) [
      | inl skipped ↦
          let same : ok m ≡ ok m' = rw skipped at e in answers (ok_Grows m m' same) (λ o h. cc)
      | inr failed ↦ let no : err x ≡ ok m' = rw failed at e in cc
    ]

  -- Every backend that is asked is one of the registry.
  abbrev pub IsWithin : Backends → Type 0
  IsWithin cs =
      (i : ℕ) (b : Backend) → get_elem? cs i ≡ some b → (p : ℕ) × (get_elem? bs p ≡ some b)

  abbrev pub AnswersMarked : Backends → Merging → Type 0
  AnswersMarked cs m =
      (i : ℕ) (b : Backend) (o : Observation) (j : ℕ) (d : DeviceObservation)
      → get_elem? cs i ≡ some b
      → b.query selector ≡ ok o
      → get_elem? o.devices j ≡ some d
      → owns b d ≡ true
      → Marked (key_of d) m

  no_answers : (m : Merging) → AnswersMarked [] m
  no_answers m i b o j d h = cc

  next_answer :
      (c : Backend) (cs : Backends) (m : Merging)
      → ((o : Observation) (j : ℕ) (d : DeviceObservation)
          → c.query selector ≡ ok o
          → get_elem? o.devices j ≡ some d
          → owns c d ≡ true
          → Marked (key_of d) m)
      → AnswersMarked cs m
      → AnswersMarked (c ∷ cs) m
  next_answer c cs m first later zero b o j d h a e own =
      let same : c ≡ b = some_injective h in
      first o j d (ap (λ x. x.query selector) same ∙ a) e (ap (λ x. owns x d) same ∙ own)
  next_answer c cs m first later (suc i) b o j d h a e own = later i b o j d h a e own

  pub data Asks (cs : Backends) (m m' : Merging) : Type 0 where
    asks : Grows m m' → AnswersMarked cs m' → Asks cs m m'

  ask_next :
      (c : Backend) (cs : Backends) (m m₁ m' : Merging)
      → IsWithin (c ∷ cs)
      → merge_answer c (c.query selector) m ≡ ok m₁
      → Asks cs m₁ m'
      → Asks (c ∷ cs) m m'
  ask_next c cs m m₁ m' w one (asks h later) =
      let (p, listed) = w 0 c refl in
      elim (answer_Answers p c listed (c.query selector) m m₁ refl one) [
        | answers g first ↦
            asks (Grows-trans g h) (
              next_answer c cs m' (λ o j d a e own. h.marks (key_of d) (first o a j d e own)) later)
      ]

  ask_rest :
      (c : Backend) (cs : Backends) (m m' : Merging) (r : Result Merging BackendError)
      → IsWithin (c ∷ cs)
      → merge_answer c (c.query selector) m ≡ r
      → (r >>= λ m₁. merge_answers selector cs m₁) ≡ ok m'
      → ((m₁ : Merging) → IsWithin cs → merge_answers selector cs m₁ ≡ ok m' → Asks cs m₁ m')
      → Asks (c ∷ cs) m m'
  ask_rest c cs m m' (err x) w one e rest = cc
  ask_rest c cs m m' (ok m₁) w one e rest = ask_next c cs m m₁ m' w one (rest m₁ (λ i. w (suc i)) e)

  pub answers_Asks :
      (cs : Backends) (m m' : Merging)
      → IsWithin cs
      → merge_answers selector cs m ≡ ok m'
      → Asks cs m m'
  unfolding merge_answers
  answers_Asks [] m m' w e = asks (ok_Grows m m' e) (no_answers m')
  answers_Asks (c ∷ cs) m m' w e =
      ask_rest c cs m m' (merge_answer c (c.query selector) m) w refl e
        (λ m₁. answers_Asks cs m₁ m')

  pub empty-Tracks : Tracks bs selector empty_merge
  empty-Tracks = record { placed = λ i d h. cc; stands = λ k i o h. cc }
