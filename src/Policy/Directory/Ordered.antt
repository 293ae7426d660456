-- ===== src/Policy/Directory/Ordered.antt =====
-- What a directory that loads gives does not depend on the order of its entries.
use mathlib.Core.List.{append_assoc}
use netfyr.Base.{
  ◌≡◌, ◌≢◌, refl, sym, ap, ◌∙◌, subst, String, true, false, List, [], ◌∷◌, ◌++◌, map, All, All-map,
  Option, Result, ok, binds, bind-ok, Bool-cases, inl, inr,
}
use netfyr.Base.Order.{Reorder, same, swap, keep, chain, sort_by-Reorder}
use netfyr.Base.Text.{bytes}
use netfyr.Policy.Directory.{
  listed, DirEntries, found, Node, folder, PolicyFile, is_hidden, collect_policy_files,
  collect_entries, collect_node, path_order, path_key, load_policy_dir,
}
use netfyr.Value.{IpAddr}
use netfyr.Yaml.{Numbers, Yaml}
use netfyr.Apply.{ApplyOptions}
use netfyr.Policy.Directory.Collected.{Files, Under, adds, entries_Adds, node_Adds}

-- The same entries in another order, at any depth; entries that change places have different names.
pub data Shuffled : DirEntries → DirEntries → Type 0 where
  unchanged : {l : DirEntries} → Shuffled l l
  exchanged :
      {a b : String} {m n : Node} {l : DirEntries}
      → bytes a ≢ bytes b
      → Shuffled (found a m (found b n l)) (found b n (found a m l))
  within :
      {a : String} {k l rest : DirEntries}
      → Shuffled k l
      → Shuffled (found a (folder (listed k)) rest) (found a (folder (listed l)) rest)
  beyond :
      {a : String} {n : Node} {k l : DirEntries}
      → Shuffled k l
      → Shuffled (found a n k) (found a n l)
  followed : {j k l : DirEntries} → Shuffled j k → Shuffled k l → Shuffled j l

abbrev Same : Files → Files → Type 0
Same = Reorder path_order path_key

abbrev Apart : PolicyFile → PolicyFile → Type 0
Apart f g = path_key f ≢ path_key g

Same-front : (front : Files) (xs ys : Files) → Same xs ys → Same (front ++ xs) (front ++ ys)
Same-front [] xs ys r = r
Same-front (f ∷ front) xs ys r = keep (Same-front front xs ys r)

Same-back : {xs ys : Files} (back : Files) → Same xs ys → Same (xs ++ back) (ys ++ back)
Same-back back same = same
Same-back back (swap apart) = swap apart
Same-back back (keep r) = keep (Same-back back r)
Same-back back (chain r q) = chain (Same-back back r) (Same-back back q)

past :
    (f : PolicyFile) (gs tail : Files) → All (Apart f) gs → Same (f ∷ gs ++ tail) (gs ++ f ∷ tail)
past f [] tail a = same
past f (g ∷ gs) tail a = chain (swap a.0) (keep (past f gs tail a.1))

blocks :
    (fs gs tail : Files)
    → All (λ f. All (Apart f) gs) fs
    → Same (fs ++ (gs ++ tail)) (gs ++ (fs ++ tail))
blocks [] gs tail a = same
blocks (f ∷ fs) gs tail a = chain (keep (blocks fs gs tail a.1)) (past f gs (fs ++ tail) a.0)

names_equal :
    (path : List String) (a b : String) (r s : List String)
    → map bytes ((path ++ a ∷ []) ++ r) ≡ map bytes ((path ++ b ∷ []) ++ s)
    → bytes a ≡ bytes b
names_equal [] a b r s h = cc
names_equal (p ∷ path) a b r s h =
    let rest : map bytes ((path ++ a ∷ []) ++ r) ≡ map bytes ((path ++ b ∷ []) ++ s) = cc in
    names_equal path a b r s rest

Under-Apart :
    (path : List String) (a b : String) (f g : PolicyFile)
    → bytes a ≢ bytes b
    → Under (path ++ a ∷ []) f
    → Under (path ++ b ∷ []) g
    → Apart f g
Under-Apart path a b f g other (r, e) (s, q) h =
    other (names_equal path a b r s (ap (map bytes) (sym e) ∙ h ∙ ap (map bytes) q))

all_Apart :
    (path : List String) (a b : String) (fs gs : Files)
    → bytes a ≢ bytes b
    → All (Under (path ++ a ∷ [])) fs
    → All (Under (path ++ b ∷ [])) gs
    → All (λ f. All (Apart f) gs) fs
all_Apart path a b fs gs other u v =
    All-map (λ f here. All-map (λ g there. Under-Apart path a b f g other here there) gs v) fs u

-- The other listing gives the same files, in some order.
data Regathered (l : DirEntries) (path : List String) (files out : Files) : Type 0 where
  regathered :
      (found_files : Files)
      → collect_entries path l files ≡ ok found_files
      → Same out found_files
      → Regathered l path files out

-- How a visible entry and those after it are collected.
data Visits (path : List String) (a : String) (n : Node) (l : DirEntries) (files out : Files)
    : Type 0 where
  skips : is_hidden a ≡ true → collect_entries path l files ≡ ok out → Visits path a n l files out
  visits :
      (more : Files)
      → is_hidden a ≡ false
      → collect_node path a n files ≡ ok more
      → collect_entries path l more ≡ ok out
      → Visits path a n l files out

found-Visits :
    (path : List String) (a : String) (n : Node) (l : DirEntries) (files out : Files)
    → collect_entries path (found a n l) files ≡ ok out
    → Visits path a n l files out
unfolding collect_policy_files
found-Visits path a n l files out h = elim (Bool-cases (is_hidden a)) [
  | inl hidden ↦ skips hidden (rw hidden at h)
  | inr visible ↦
      elim (bind-ok (collect_node path a n files) (λ (more : Files). collect_entries path l more)
        out (rw visible at h)) [ binds more first later ↦ visits more visible first later ]
]

Visits-found :
    (path : List String) (a : String) (n : Node) (l : DirEntries) (files out : Files)
    → Visits path a n l files out
    → collect_entries path (found a n l) files ≡ ok out
unfolding collect_policy_files
Visits-found path a n l files out (skips hidden rest) = rw hidden rest
Visits-found path a n l files out (visits more visible first later) = rw (visible, first) later

swapped :
    (path : List String) (a b : String) (m n : Node) (l : DirEntries) (files out : Files)
    → bytes a ≢ bytes b
    → collect_entries path (found a m (found b n l)) files ≡ ok out
    → Regathered (found b n (found a m l)) path files out
swapped path a b m n l files out other h = elim (found-Visits path a m (found b n l) files out h) [
  | skips hidden_a rest ↦ elim (found-Visits path b n l files out rest) [
    | skips hidden_b last ↦
        regathered out
          (Visits-found path b n (found a m l) files out
            (skips hidden_b (Visits-found path a m l files out (skips hidden_a last))))
          same
    | visits more visible first last ↦
        regathered out
          (Visits-found path b n (found a m l) files out
            (visits more visible first (Visits-found path a m l more out (skips hidden_a last))))
          same
  ]
  | visits more visible first rest ↦ elim (found-Visits path b n l more out rest) [
    | skips hidden_b last ↦
        regathered out
          (Visits-found path b n (found a m l) files out
            (skips hidden_b (Visits-found path a m l files out (visits more visible first last))))
          same
    | visits both visible_b second last ↦ elim (node_Adds path a m files more first) [
      | adds fs u e go_a ↦ elim (node_Adds path b n more both second) [
        | adds gs v f go_b ↦ elim (entries_Adds path l both out last) [
          | adds tail w g go ↦
              regathered (((files ++ gs) ++ fs) ++ tail)
                (Visits-found path b n (found a m l) files (((files ++ gs) ++ fs) ++ tail) (
                  visits (files ++ gs) visible_b (go_b files) (
                    Visits-found path a m l (files ++ gs) (((files ++ gs) ++ fs) ++ tail) (
                      visits ((files ++ gs) ++ fs) visible (go_a (files ++ gs))
                        (go ((files ++ gs) ++ fs))))))
                (subst (λ x. Same x (((files ++ gs) ++ fs) ++ tail))
                  (sym (g ∙ ap (λ l. l ++ tail) (f ∙ ap (λ l. l ++ gs) e)))
                  (regrouped files fs gs tail (all_Apart path a b fs gs other u v)))
        ]
      ]
    ]
  ]
]
  where
    grouped :
        (files fs gs tail : Files) → ((files ++ fs) ++ gs) ++ tail ≡ files ++ (fs ++ (gs ++ tail))
    grouped files fs gs tail =
        append_assoc (files ++ fs) gs tail ∙ append_assoc files fs (gs ++ tail)

    regrouped :
        (files fs gs tail : Files)
        → All (λ f. All (Apart f) gs) fs
        → Same (((files ++ fs) ++ gs) ++ tail) (((files ++ gs) ++ fs) ++ tail)
    regrouped files fs gs tail a =
        rw (grouped files fs gs tail, grouped files gs fs tail)
          (Same-front files (fs ++ (gs ++ tail)) (gs ++ (fs ++ tail)) (blocks fs gs tail a))

Shuffled-Regathered :
    {k l : DirEntries} (path : List String) (files out : Files)
    → Shuffled k l
    → collect_entries path k files ≡ ok out
    → Regathered l path files out
unfolding collect_policy_files
Shuffled-Regathered path files out unchanged h = regathered out h same
Shuffled-Regathered path files out (exchanged {a = a} {b = b} {m = m} {n = n} {l = l} other) h =
    swapped path a b m n l files out other h
Shuffled-Regathered path files out (followed s t) h =
    elim (Shuffled-Regathered path files out s h) [
      | regathered mid e r ↦ elim (Shuffled-Regathered path files mid t e) [
        | regathered last g q ↦ regathered last g (chain r q)
      ]
    ]
Shuffled-Regathered path files out (beyond {a = a} {n = n} {k = k} {l = l} s) h =
    elim (found-Visits path a n k files out h) [
      | skips hidden rest ↦ elim (Shuffled-Regathered path files out s rest) [
        | regathered got e r ↦ regathered got (Visits-found path a n l files got (skips hidden e)) r
      ]
      | visits more visible first rest ↦ elim (Shuffled-Regathered path more out s rest) [
        | regathered got e r ↦
            regathered got (Visits-found path a n l files got (visits more visible first e)) r
      ]
    ]
Shuffled-Regathered path files out (within {a = a} {k = k} {l = l} {rest = back} s) h =
    elim (found-Visits path a (folder (listed k)) back files out h) [
      | skips hidden rest ↦
          regathered out
            (Visits-found path a (folder (listed l)) back files out (skips hidden rest)) same
      | visits more visible first rest ↦
          elim (Shuffled-Regathered (path ++ a ∷ []) files more s first) [
            | regathered got e r ↦ elim (entries_Adds path back more out rest) [
              | adds tail u g go ↦
                  regathered (got ++ tail)
                    (Visits-found path a (folder (listed l)) back files (got ++ tail)
                      (visits got visible e (go got)))
                    (subst (λ x. Same x (got ++ tail)) (sym g) (Same-back tail r))
            ]
          ]
    ]

-- When the files of a directory can be collected, what the directory gives, the first error of a
-- file included, is the same in whatever order the file system lists the entries of the directory
-- and of those below it, provided that entries of one directory have different names.
pub load_policy_dir-Shuffled :
    {N : Type 0} (numbers : Numbers N) (pa : String → Option IpAddr) (di : IpAddr → String)
    (read : String → Result (Yaml N) String) (print : Yaml N → Result String String)
    (options : ApplyOptions) (k l : DirEntries) (files : List PolicyFile)
    → Shuffled k l
    → collect_policy_files [] (listed k) [] ≡ ok files
    → load_policy_dir numbers pa di read print options (listed k)
      ≡ load_policy_dir numbers pa di read print options (listed l)
unfolding load_policy_dir collect_policy_files
load_policy_dir-Shuffled numbers pa di read print options k l files s h =
    elim (Shuffled-Regathered [] [] files s h) [
      | regathered got e r ↦ rw (h, e, sort_by-Reorder path_order path_key r) refl
    ]
