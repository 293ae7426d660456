-- ===== src/Policy/Loaded.antt =====
-- The policies of a document have distinct names.
use netfyr.Base.{
  ℕ, suc, ◌≡◌, refl, sym, ap, ◌∙◌, subst, arith, String, Bool, true, false, Option, List, [], ◌∷◌,
  ◌++◌, map, All, All-append, Bool-cases, inl, inr, Result, ok, err, ◌>>=◌, binds, bind-ok,
}
use netfyr.Base.Equality.{◌==◌, string_eq, contains}
use netfyr.Value.{IpAddr}
use netfyr.Apply.{ApplyOptions, Warning}
use netfyr.Yaml.{Numbers, Yaml, YamlEntries, null, bool, number, string, sequence, mapping, tagged}
use netfyr.Policy.{Policy, PolicyError}
use netfyr.Policy.Names.{name_of, AreDistinct, append-AreDistinct, map-append_one}
use netfyr.Policy.Load.{
  LoadOutcome, policy_from_mapping, add_loaded, fallback_name, load_mappings, mappings_of,
  nothing_loaded, load_value, read_document, load_document,
}

-- The names of the policies so far are distinct, and all of them are among the names seen.
pub data IsKept (names : List String) (out : LoadOutcome) : Type 0 where
  kept :
      AreDistinct (map name_of out.policies)
      → All (λ p. contains names p.name ≡ true) out.policies
      → IsKept names out

unseen :
    (names : List String) (ps : List Policy) (x : String)
    → All (λ p. contains names p.name ≡ true) ps
    → contains names x ≡ false
    → contains (map name_of ps) x ≡ false
unseen names [] x h e = refl
unseen names (p ∷ ps) x (seen, hs) e = elim (Bool-cases (p.name == x)) [
  | inr other ↦ rw other (unseen names ps x hs e)
  | inl same ↦
      let equal : p.name ≡ x = (string_eq.same_iff p.name x).0 same in
      let found : contains names x ≡ true = ap (contains names) (sym equal) ∙ seen in cc
]

still_seen :
    (n : String) (names : List String) (ps : List Policy)
    → All (λ p. contains names p.name ≡ true) ps
    → All (λ p. contains (n ∷ names) p.name ≡ true) ps
still_seen n names [] h = tt
still_seen n names (p ∷ ps) (seen, hs) = (ground (arith, seen), still_seen n names ps hs)

head_seen : (n : String) (names : List String) → contains (n ∷ names) n ≡ true
head_seen n names = let same = (string_eq.same_iff n n).1 refl in ground (arith, same)

-- One more policy with a new name, whatever the warnings.
pub IsKept-one :
    (names : List String) (p : Policy) (out : LoadOutcome) (warnings : List Warning)
    → IsKept names out
    → contains names p.name ≡ false
    → IsKept (p.name ∷ names) (record { policies = out.policies ++ p ∷ []; warnings = warnings })
IsKept-one names p out warnings (kept distinct seen) free =
    kept
      (subst AreDistinct (sym (map-append_one out.policies p)) (
        append-AreDistinct (map name_of out.policies) p.name distinct
          (unseen names out.policies p.name seen free)))
      (All-append (λ q. contains (p.name ∷ names) q.name ≡ true) out.policies (p ∷ [])
        (still_seen p.name names out.policies seen) (head_seen p.name names, tt))

module _ {N : Type 0} (numbers : Numbers N) (pa : String → Option IpAddr)
    (di : IpAddr → String) where
  module _ (read : String → Result (Yaml N) String) (print : Yaml N → Result String String) where
    module _ (options : ApplyOptions) where
      add_loaded-IsKept :
          (names : List String) (x : Policy × List Warning) (out out' : LoadOutcome)
          → IsKept names out
          → add_loaded numbers pa di read print options names x out ≡ ok out'
          → IsKept (x.0.name ∷ names) out'
      add_loaded-IsKept names (p, warnings) out out' k h =
          elim (Bool-cases (contains names p.name)) [
            | inl taken ↦ let no : err _ ≡ ok out' = rw taken at h in cc
            | inr free ↦
                let done : ok (record {
                  policies = out.policies ++ p ∷ [];
                  warnings = out.warnings ++ warnings;
                })
                    ≡ ok out' =
                  rw free at h in
                let same : record {
                  policies = out.policies ++ p ∷ [];
                  warnings = out.warnings ++ warnings;
                }
                    ≡ out' =
                  cc in
                subst (IsKept (p.name ∷ names)) same
                  (IsKept-one names p out (out.warnings ++ warnings) k free)
          ]

      load_mappings-AreDistinct :
          (multiple : Bool) (stem : String) (index : ℕ) (ms : List (YamlEntries N))
          (names : List String) (out final : LoadOutcome)
          → IsKept names out
          → load_mappings numbers pa di read print options multiple stem index ms names out
            ≡ ok final
          → AreDistinct (map name_of final.policies)
      unfolding load_mappings
      load_mappings-AreDistinct multiple stem index [] names out final (kept distinct seen) h =
          let same : out ≡ final = cc in
          subst (λ (o : LoadOutcome). AreDistinct (map name_of o.policies)) same distinct
      load_mappings-AreDistinct multiple stem index (m ∷ ms) names out final (kept distinct seen)
            h =
          let rest : Policy × List Warning → LoadOutcome → Result LoadOutcome PolicyError = λ x o.
            load_mappings numbers pa di read print options multiple stem (suc index) ms
              (x.0.name ∷ names) o in
          elim (bind-ok
            (policy_from_mapping numbers pa di read print options m
              (fallback_name numbers pa di read print options multiple stem index))
            (λ x. add_loaded numbers pa di read print options names x out >>= λ o. rest x o) final
            h) [
              | binds x loaded e ↦
                  elim (bind-ok (add_loaded numbers pa di read print options names x out) (rest x)
                    final e) [
                      | binds out' added e' ↦
                          load_mappings-AreDistinct multiple stem (suc index) ms (x.0.name ∷ names)
                            out' final
                            (add_loaded-IsKept names x out out' (kept distinct seen) added) e'
                    ]
            ]

      load_value-AreDistinct :
          (stem : String) (doc : Yaml N) (out : LoadOutcome)
          → load_value numbers pa di read print options stem doc ≡ ok out
          → AreDistinct (map name_of out.policies)
      unfolding load_value
      load_value-AreDistinct stem (mapping m) out h =
          load_mappings-AreDistinct false stem 0 (m ∷ []) []
            (nothing_loaded numbers pa di read print options) out (kept tt tt) h
      load_value-AreDistinct stem (sequence l) out h =
          elim (bind-ok (mappings_of numbers pa di read print options l)
            (λ ms.
              load_mappings numbers pa di read print options true stem 0 ms []
                (nothing_loaded numbers pa di read print options))
            out h) [
              | binds ms all e ↦
                  load_mappings-AreDistinct true stem 0 ms []
                    (nothing_loaded numbers pa di read print options) out (kept tt tt) e
            ]
      load_value-AreDistinct stem null out h = cc
      load_value-AreDistinct stem (bool b) out h = cc
      load_value-AreDistinct stem (number n) out h = cc
      load_value-AreDistinct stem (string s) out h = cc
      load_value-AreDistinct stem (tagged v) out h = cc

      -- The policies of a document that loads have distinct names, those that are made from the
      -- file's name and the position included.
      load_document-AreDistinct :
          (input stem : String) (out : LoadOutcome)
          → load_document numbers pa di read print options input stem ≡ ok out
          → AreDistinct (map name_of out.policies)
      unfolding load_document
      load_document-AreDistinct input stem out h =
          elim (bind-ok (read_document numbers pa di read print options (read input))
            (λ doc. load_value numbers pa di read print options stem doc) out h) [
              | binds doc parsed e ↦ load_value-AreDistinct stem doc out e
            ]
