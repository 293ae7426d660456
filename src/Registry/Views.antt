-- ===== src/Registry/Views.antt =====
-- What a query over several backends returns: each device once, in its owner's view.
use netfyr.Base.{
  ℕ, ◌≡◌, inl, inr, refl, sym, ap, ◌∙◌, true, none, some, [], ◌∷◌, get_elem?, keep, is_nil, is_some,
  Bool-cases, Result, ok, err, ◌>>=◌, ◌&&◌,
}
use netfyr.Base.Dict.{get}
use netfyr.Base.Equality.{pair_eq, nat_eq}
use netfyr.Plan.Identity.{namespace_eq}
use netfyr.Device.{Match}
use netfyr.Plan.{DeviceObservation, Observation}
use netfyr.Report.{BackendError}
use netfyr.Registry.{
  Backend, Backends, owns, key_of, Merging, merge_answers, empty_merge, finish, in_namespace,
  query_in_namespace, query,
}
use netfyr.Registry.Merge.{Owned, Tracks, some_injective}
use netfyr.Registry.Gather.{asks, AnswersMarked, answers_Asks, empty-Tracks}

keep_all : (bs : Backends) → keep (in_namespace none) bs ≡ bs
keep_all [] = refl
keep_all (b ∷ bs) = ap (λ l. b ∷ l) (keep_all bs)

-- The merge behind a query.
data MergeOf (bs : Backends) (selector : Match) (o : Observation) : Type 0 where
  merge_of :
      (m : Merging)
      → o.devices ≡ m.devices
      → Tracks bs selector m
      → AnswersMarked bs selector bs m
      → MergeOf bs selector o

finish-devices :
    (selector : Match) (m : Merging) (o : Observation)
    → finish selector m ≡ ok o
    → o.devices ≡ m.devices
unfolding finish
finish-devices selector m o h = elim (Bool-cases (is_some selector.name && is_nil m.devices)) [
  | inl nothing ↦ let no : err _ ≡ ok o = rw nothing at h in cc
  | inr found ↦
      let same : ok (record { devices = m.devices; diagnostics = m.diagnostics }) ≡ ok o =
        rw found at h in
      cc
]

finish_merge :
    (bs : Backends) (selector : Match) (o : Observation) (r : Result Merging BackendError)
    → merge_answers selector bs empty_merge ≡ r
    → (r >>= λ m. finish selector m) ≡ ok o
    → MergeOf bs selector o
finish_merge bs selector o (err x) merged e = cc
finish_merge bs selector o (ok m) merged e =
    elim (answers_Asks bs selector bs empty_merge m (λ i b h. (i, h)) merged) [
      | asks g marked ↦
          merge_of m (finish-devices selector m o e) (g.tracks (empty-Tracks bs selector)) marked
    ]

query_merge :
    (bs : Backends) (selector : Match) (o : Observation)
    → query bs selector ≡ ok o
    → MergeOf bs selector o
unfolding query query_in_namespace
query_merge bs selector o e =
    finish_merge bs selector o (merge_answers selector bs empty_merge) refl (rw (keep_all bs) at e)

-- A query returns each device once: two entries of its result with one namespace and index are one.
pub query_unique :
    (bs : Backends) (selector : Match) (o : Observation) (i j : ℕ) (d e : DeviceObservation)
    → query bs selector ≡ ok o
    → get_elem? o.devices i ≡ some d
    → get_elem? o.devices j ≡ some e
    → key_of d ≡ key_of e
    → i ≡ j
query_unique bs selector o i j d e asked hi hj same = elim (query_merge bs selector o asked) [
  | merge_of m devices tracks marked ↦
      let (a, at_i) = tracks.placed i d (ap (λ l. get_elem? l i) (sym devices) ∙ hi) in
      let (b, at_j) = tracks.placed j e (ap (λ l. get_elem? l j) (sym devices) ∙ hj) in
      ap (λ p. p.0) (some_injective (sym at_i ∙ ap (λ k. get k m.seen) same ∙ at_j))
]

-- When a backend that owns a device answers a query with it, the result of the query lists the
-- device, under its namespace and index, in a view that comes from an owner: a backend of the
-- registry, in the device's namespace, that owns it and answers the query with this very view.
pub query-owner_view :
    (bs : Backends) (selector : Match) (o : Observation) (p : ℕ) (b : Backend)
    (answer : Observation) (n : ℕ) (d : DeviceObservation)
    → query bs selector ≡ ok o
    → get_elem? bs p ≡ some b
    → b.query selector ≡ ok answer
    → get_elem? answer.devices n ≡ some d
    → owns b d ≡ true
    → (i : ℕ) × (e : DeviceObservation) × (get_elem? o.devices i ≡ some e)
      × (key_of e ≡ key_of d)
      × Owned bs selector e
query-owner_view bs selector o p b answer n d asked listed answered found own =
    elim (query_merge bs selector o asked) [
      | merge_of m devices tracks marked ↦
          let (i, seen) = marked p b answer n d listed answered found own in
          let s = tracks.stands (key_of d) i true seen in
          (i, s.device, ap (λ l. get_elem? l i) devices ∙ s.at, s.keyed, s.view refl)
    ]
