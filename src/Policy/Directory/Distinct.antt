-- ===== src/Policy/Directory/Distinct.antt =====
-- The policies of a directory have distinct names.
use netfyr.Base.{
  ◌≡◌, subst, String, Option, List, [], ◌∷◌, ◌++◌, map, Result, ok, err, ◌>>=◌, binds, bind-ok,
  Bool-cases, inl, inr,
}
use netfyr.Base.Equality.{string_eq, contains}
use netfyr.Base.Order.{sort_by}
use netfyr.Value.{IpAddr}
use netfyr.Yaml.{Numbers, Yaml}
use netfyr.Apply.{ApplyOptions}
use netfyr.Policy.{Policy, PolicyError}
use netfyr.Policy.Names.{name_of, AreDistinct}
use netfyr.Policy.Load.{LoadOutcome}
use netfyr.Policy.Loaded.{IsKept, kept, IsKept-one}
use netfyr.Policy.Directory.{
  Listing, PolicyFile, Loaded, collect_policy_files, path_order, path_key, add_policies,
  add_outcome, load_policy_file, load_files, start_loading, load_policy_dir,
}

abbrev Keeps : Loaded → Type 0
Keeps l = IsKept l.names l.outcome

add_policies-Keeps :
    (ps : List Policy) (l l' : Loaded) → Keeps l → add_policies ps l ≡ ok l' → Keeps l'
unfolding add_policies
add_policies-Keeps [] l l' k h = let same : l ≡ l' = cc in subst Keeps same k
add_policies-Keeps (p ∷ ps) l l' k h = elim (Bool-cases (contains l.names p.name)) [
  | inl taken ↦ let no : err _ ≡ ok l' = rw taken at h in cc
  | inr free ↦
      add_policies-Keeps ps
        (record {
          names = p.name ∷ l.names;
          outcome = record l.outcome { policies = l.outcome.policies ++ p ∷ [] };
        })
        l' (IsKept-one l.names p l.outcome l.outcome.warnings k free) (rw free at h)
]

more_warnings : (loaded : LoadOutcome) (l : Loaded) → Keeps l → Keeps (add_outcome loaded l)
more_warnings loaded l (kept distinct seen) = kept distinct seen

module _ {N : Type 0} (numbers : Numbers N) (pa : String → Option IpAddr) (di : IpAddr → String)
    (read : String → Result (Yaml N) String) (print : Yaml N → Result String String)
    (options : ApplyOptions) where
  load_files-Keeps :
      (files : List PolicyFile) (l l' : Loaded)
      → Keeps l
      → load_files numbers pa di read print options files l ≡ ok l'
      → Keeps l'
  unfolding load_files
  load_files-Keeps [] l l' k h = let same : l ≡ l' = cc in subst Keeps same k
  load_files-Keeps (f ∷ fs) l l' k h =
      elim (bind-ok (load_policy_file numbers pa di read print options f.name f.contents)
        (λ (loaded : LoadOutcome). add_policies loaded.policies l >>= λ m.
          load_files numbers pa di read print options fs (add_outcome loaded m))
        l' h) [
          | binds loaded _ rest ↦
              elim (bind-ok (add_policies loaded.policies l)
                (λ (m : Loaded).
                  load_files numbers pa di read print options fs (add_outcome loaded m))
                l' rest) [
                  | binds m added last ↦
                      load_files-Keeps fs (add_outcome loaded m) l'
                        (more_warnings loaded m (add_policies-Keeps loaded.policies l m k added))
                        last
                ]
        ]

  -- The policies of a directory that loads have distinct names, across all of its files.
  pub load_policy_dir-AreDistinct :
      (root : Listing) (out : LoadOutcome)
      → load_policy_dir numbers pa di read print options root ≡ ok out
      → AreDistinct (map name_of out.policies)
  unfolding load_policy_dir
  load_policy_dir-AreDistinct root out h =
      elim (bind-ok (collect_policy_files [] root [])
        (λ (files : List PolicyFile).
          load_files numbers pa di read print options (sort_by path_order path_key files)
            (start_loading numbers pa di read print options)
          >>= λ l. ok l.outcome)
        out h) [
          | binds files _ rest ↦
              elim (bind-ok
                (load_files numbers pa di read print options (sort_by path_order path_key files)
                  (start_loading numbers pa di read print options))
                (λ (l : Loaded). ok l.outcome) out rest) [
                  | binds l loaded e ↦ loaded_AreDistinct l out e (
                      load_files-Keeps (sort_by path_order path_key files)
                        (start_loading numbers pa di read print options) l (kept tt tt) loaded)
                ]
        ]
    where
      loaded_AreDistinct :
          (l : Loaded) (out : LoadOutcome)
          → ◌≡◌ {A = Result LoadOutcome PolicyError} (ok l.outcome) (ok out)
          → Keeps l
          → AreDistinct (map name_of out.policies)
      loaded_AreDistinct l out e (kept distinct seen) =
          let same : l.outcome ≡ out = cc in
          subst (λ (o : LoadOutcome). AreDistinct (map name_of o.policies)) same distinct
