-- ===== src/Policy/Directory/Collected.antt =====
-- What a walk of a directory adds to the files that were found before it.
use mathlib.Core.List.{append_assoc, append-nil}
use netfyr.Base.{
  ◌≡◌, refl, sym, ap, ◌∙◌, subst, String, List, [], ◌∷◌, ◌++◌, All, All-append, All-map, Result, ok,
  binds, bind-ok, Bool-cases, inl, inr,
}
use netfyr.Policy.{PolicyError}
use netfyr.Policy.Directory.{
  Contents, Listing, unreadable, listed, DirEntries, finished, broken, found, Node, untyped,
  symlink, other_node, folder, file, PolicyFile, is_hidden, extension, yaml_extension, add_file,
  collect_policy_files, collect_entries, collect_node,
}

abbrev pub Files : Type 0
Files = List PolicyFile

-- A file with this directory or file name at the front of its path.
abbrev pub Under : List String → PolicyFile → Type 0
Under path f = (rest : List String) × (f.relative ≡ path ++ rest)

Under-parent :
    (path : List String) (name : String) (f : PolicyFile)
    → Under (path ++ name ∷ []) f
    → Under path f
Under-parent path name f (rest, e) = (name ∷ rest, e ∙ append_assoc path (name ∷ []) rest)

-- What a walk adds to the files that it is given.
pub data Adds (path : List String) (walk : Files → Result Files PolicyError) (files out : Files)
    : Type 0 where
  adds :
      (new : Files)
      → All (Under path) new
      → out ≡ files ++ new
      → ((old : Files) → walk old ≡ ok (old ++ new))
      → Adds path walk files out

nothing-Adds :
    (path : List String) (files out : Files) → files ≡ out → Adds path (λ old. ok old) files out
nothing-Adds path files out e =
    adds [] tt (sym e ∙ sym (append-nil files)) (λ old. ap ok (sym (append-nil old)))

add_file-Adds :
    (path : List String) (name : String) (contents : Contents) (files : Files)
    → Adds
        (path ++ name ∷ [])
        (λ old. ok (add_file path name contents old))
        files
        (add_file path name contents files)
add_file-Adds path name contents files = elim (Bool-cases (yaml_extension (extension name))) [
  | inl yes_yaml ↦ rw yes_yaml (
      adds (record { relative = path ++ name ∷ []; name = name; contents = contents } ∷ [])
        (([], sym (append-nil (path ++ name ∷ []))), tt) refl (λ old. refl))
  | inr other ↦ rw other (nothing-Adds (path ++ name ∷ []) files files refl)
]

mutual
  unfolding collect_policy_files

  listing_Adds :
      (path : List String) (l : Listing) (files out : Files)
      → collect_policy_files path l files ≡ ok out
      → Adds path (collect_policy_files path l) files out
  listing_Adds path (unreadable e) files out h = cc
  listing_Adds path (listed entries) files out h = entries_Adds path entries files out h

  pub entries_Adds :
      (path : List String) (l : DirEntries) (files out : Files)
      → collect_entries path l files ≡ ok out
      → Adds path (collect_entries path l) files out
  entries_Adds path finished files out h = nothing-Adds path files out (cc)
  entries_Adds path (broken e rest) files out h = cc
  entries_Adds path (found name node rest) files out h = elim (Bool-cases (is_hidden name)) [
    | inl hidden ↦ elim (entries_Adds path rest files out (rw hidden at h)) [
      | adds new u e go ↦ adds new u e (λ old. rw hidden (go old))
    ]
    | inr visible ↦
        elim (bind-ok (collect_node path name node files)
          (λ (more : Files). collect_entries path rest more) out (rw visible at h)) [
            | binds more first later ↦ elim (node_Adds path name node files more first) [
              | adds new u e go ↦ elim (entries_Adds path rest more out later) [
                | adds next v f then_go ↦
                    adds (new ++ next)
                      (All-append (Under path) new next (All-map (Under-parent path name) new u) v)
                      (f ∙ ap (λ l. l ++ next) e ∙ append_assoc files new next)
                      λ old.
                        rw (visible, go old)
                          (then_go (old ++ new) ∙ ap ok (append_assoc old new next))
              ]
            ]
          ]
  ]

  pub node_Adds :
      (path : List String) (name : String) (n : Node) (files out : Files)
      → collect_node path name n files ≡ ok out
      → Adds (path ++ name ∷ []) (collect_node path name n) files out
  node_Adds path name (untyped e) files out h = cc
  node_Adds path name symlink files out h = nothing-Adds (path ++ name ∷ []) files out (cc)
  node_Adds path name other_node files out h = nothing-Adds (path ++ name ∷ []) files out (cc)
  node_Adds path name (folder l) files out h = listing_Adds (path ++ name ∷ []) l files out h
  node_Adds path name (file contents) files out h =
      let e : add_file path name contents files ≡ out = cc in
      subst (Adds (path ++ name ∷ []) (λ old. ok (add_file path name contents old)) files) e
        (add_file-Adds path name contents files)
