-- ===== src/Schema/Unextended.antt =====
-- A refused schema node changes nothing.
use netfyr.Base.{
  String, not, ◌≡◌, refl, sym, ap, ◌∙◌, Option, none, some, List, [], ◌∷◌, Bool-cases, inl, inr,
  Result, ok, err, any,
}
use netfyr.Base.Equality.{◌==◌, string_eq, same_refl}
use netfyr.Base.Text.{is_empty_text, split}
use netfyr.Schema.Types.{
  SchemaNode, node, Keywords, keywords, Properties, no_properties, properties, Props, last, prop,
  ItemSchema, no_items, get_prop, writable_object,
}
use netfyr.Schema.Registry.{Fragment, SchemaRegistry}
use netfyr.Schema.Extend.{
  props_of, push_prop, ensure_prop, is_object, Changed, add_here, with_props, change_child,
  keep_child, change_prop, enter, add_at, with_root, change_first, keep_first, change_fragment,
  collides, checked_node, with_fragments, add_node, add_schema_node,
}

-- What a refused change leaves is what there was.
abbrev Leaves : {A : Type 0} → A → Changed A → Type 0
Leaves a (b, ok u) = Unit
Leaves a (b, err e) = b ≡ a

-- The change is not refused.
abbrev Succeeds : {A : Type 0} → Changed A → Type 0
Succeeds (a, ok u) = Unit
Succeeds (a, err e) = ⊥

Succeeds-Leaves : {A : Type 0} (a : A) (c : Changed A) → Succeeds c → Leaves a c
Succeeds-Leaves a (b, ok u) h = tt
Succeeds-Leaves a (b, err e) h = absurd h

with_props-Succeeds :
    (k : Keywords) (i : ItemSchema) (c : Changed Props) → Succeeds c → Succeeds (with_props k i c)
with_props-Succeeds k i (ps, ok u) h = tt
with_props-Succeeds k i (ps, err e) h = h

with_props-Leaves :
    (k : Keywords) (i : ItemSchema) (ps : Props) (c : Changed Props)
    → Leaves ps c
    → Leaves (node k (properties ps) i) (with_props k i c)
with_props-Leaves k i ps (qs, ok u) h = tt
with_props-Leaves k i ps (qs, err e) h = ap (λ x. node k (properties x) i) h

-- The children of one name.
change_prop-Leaves :
    (name : String) (change : SchemaNode → Changed SchemaNode) (ps : Props)
    → ((n : SchemaNode) → Leaves n (change n))
    → Leaves ps (change_prop name change ps)
change_prop-Leaves name change last h = tt
change_prop-Leaves name change (prop other n rest) h = elim (Bool-cases (other == name)) [
  | inl same ↦ rw same (changed (change n) (h n))
  | inr differs ↦
      rw differs (kept (change_prop name change rest) (change_prop-Leaves name change rest h))
]
  where
    changed :
        (c : Changed SchemaNode)
        → Leaves n c
        → Leaves (prop other n rest) (change_child other rest c)
    changed (m, ok u) l = tt
    changed (m, err e) l = ap (λ x. prop other x rest) l

    kept : (c : Changed Props) → Leaves rest c → Leaves (prop other n rest) (keep_child other n c)
    kept (qs, ok u) l = tt
    kept (qs, err e) l = ap (prop other n) l

-- A child that is pushed is the one that is changed.
push_prop-Succeeds :
    (name : String) (change : SchemaNode → Changed SchemaNode) (n : SchemaNode) (ps : Props)
    → get_prop name ps ≡ none
    → Succeeds (change n)
    → Succeeds (change_prop name change (push_prop name n ps))
push_prop-Succeeds name change n last e h = rw (same_refl name) (changed (change n) h)
  where
    changed : (c : Changed SchemaNode) → Succeeds c → Succeeds (change_child name last c)
    changed (m, ok u) l = tt
    changed (m, err e) l = l
push_prop-Succeeds name change n (prop other m rest) e h = elim (Bool-cases (other == name)) [
  | inl same ↦ let no : some m ≡ none = rw same at e in cc
  | inr differs ↦ rw differs (
      kept (change_prop name change (push_prop name n rest))
        (push_prop-Succeeds name change n rest (rw differs at e) h))
]
  where
    kept : (c : Changed Props) → Succeeds c → Succeeds (keep_child other m c)
    kept (qs, ok u) l = tt
    kept (qs, err e) l = l

here-Leaves :
    (o : Option SchemaNode) (path name : String) (new : SchemaNode) (k : Keywords) (p : Properties)
    (i : ItemSchema)
    → get_prop name (props_of p) ≡ o
    → Leaves (node k p i) (with_props k i (add_here o path name new (props_of p)))
here-Leaves none path name new k p i e = tt
here-Leaves (some n) path name new k (properties ps) i e = refl
here-Leaves (some n) path name new k no_properties i e = cc

-- A new object takes every path.
fresh-Succeeds :
    (path : String) (parts : List String) (new : SchemaNode)
    → Succeeds (add_at path parts new writable_object)
unfolding add_at
fresh-Succeeds path [] new = tt
fresh-Succeeds path (name ∷ []) new = tt
fresh-Succeeds path (part ∷ q ∷ parts) new =
    let below = add_at path (q ∷ parts) new in
    with_props-Succeeds (keywords writable_object) no_items
      (change_prop part (λ child. enter part child (below child))
        (push_prop part writable_object last))
      (push_prop-Succeeds part (λ child. enter part child (below child)) writable_object last refl
        (fresh-Succeeds path (q ∷ parts) new))

enter-Leaves :
    (part : String) (child : SchemaNode) (below : Changed SchemaNode)
    → Leaves child below
    → Leaves child (enter part child below)
enter-Leaves part child below h = elim (Bool-cases (not (is_object child))) [
  | inl leaf ↦ rw leaf refl
  | inr object ↦ rw object h
]

below-Leaves :
    (o : Option SchemaNode) (part : String) (below : SchemaNode → Changed SchemaNode) (k : Keywords)
    (p : Properties) (i : ItemSchema)
    → get_prop part (props_of p) ≡ o
    → ((n : SchemaNode) → Leaves n (below n))
    → Succeeds (below writable_object)
    → Leaves (node k p i) (
        with_props k i (
          change_prop part
            (λ child. enter part child (below child))
            (ensure_prop o part (props_of p))))
below-Leaves none part below k p i e h fresh = Succeeds-Leaves (node k p i) _ (
    with_props-Succeeds k i
      (change_prop part (λ child. enter part child (below child))
        (push_prop part writable_object (props_of p)))
      (push_prop-Succeeds part (λ child. enter part child (below child)) writable_object
        (props_of p) e fresh))
below-Leaves (some n) part below k no_properties i e h fresh = cc
below-Leaves (some n) part below k (properties ps) i e h fresh =
    with_props-Leaves k i ps (change_prop part (λ child. enter part child (below child)) ps) (
      change_prop-Leaves part (λ child. enter part child (below child)) ps
        (λ child. enter-Leaves part child (below child) (h child)))

add_at-Leaves :
    (path : String) (parts : List String) (new n : SchemaNode) → Leaves n (add_at path parts new n)
unfolding add_at
add_at-Leaves path [] new n = tt
add_at-Leaves path (name ∷ []) new (node k p i) =
    here-Leaves (get_prop name (props_of p)) path name new k p i refl
add_at-Leaves path (part ∷ q ∷ parts) new (node k p i) =
    below-Leaves (get_prop part (props_of p)) part (add_at path (q ∷ parts) new) k p i refl
      (add_at-Leaves path (q ∷ parts) new) (fresh-Succeeds path (q ∷ parts) new)

fragments-Leave :
    (name : String) (change : SchemaNode → Changed SchemaNode) (fs : List Fragment)
    → ((n : SchemaNode) → Leaves n (change n))
    → Leaves fs (change_fragment name change fs)
unfolding change_fragment
fragments-Leave name change [] h = refl
fragments-Leave name change (f ∷ fs) h = elim (Bool-cases (f.name == name)) [
  | inl same ↦ rw same (changed (change f.root) (h f.root))
  | inr differs ↦
      rw differs (kept (change_fragment name change fs) (fragments-Leave name change fs h))
]
  where
    changed :
        (c : Changed SchemaNode)
        → Leaves f.root c
        → Leaves (f ∷ fs) (change_first fs (with_root f c))
    changed (m, ok u) l = tt
    changed (m, err e) l = λ j. record f { root = l j } ∷ fs

    kept : (c : Changed (List Fragment)) → Leaves fs c → Leaves (f ∷ fs) (keep_first f c)
    kept (gs, ok u) l = tt
    kept (gs, err e) l = ap (λ x. f ∷ x) l

add_node-Leaves :
    (r : SchemaRegistry) (fragment path : String) (n : Result SchemaNode String)
    → Leaves r (add_node r fragment path n)
unfolding add_node
add_node-Leaves r fragment path (err e) = refl
add_node-Leaves r fragment path (ok n) = elim (Bool-cases (any is_empty_text (split b'.' path))) [
  | inl empty ↦ rw empty refl
  | inr named ↦ rw named (elim (Bool-cases (collides r.fragments fragment (split b'.' path))) [
    | inl shadows ↦ rw shadows refl
    | inr free ↦ rw free (
        with_fragments-Leaves
          (change_fragment fragment (add_at path (split b'.' path) n) r.fragments)
          (fragments-Leave fragment (add_at path (split b'.' path) n) r.fragments
            (add_at-Leaves path (split b'.' path) n)))
  ])
]
  where
    with_fragments-Leaves :
        (c : Changed (List Fragment)) → Leaves r.fragments c → Leaves r (with_fragments c)
    with_fragments-Leaves (fs, ok u) l = tt
    with_fragments-Leaves (fs, err e) l = λ j. record { fragments = l j }

left_alone :
    {A : Type 0} (a b : A) (e : String) (c : Changed A) → Leaves a c → c ≡ (b, err e) → b ≡ a
left_alone a b e (x, ok u) l h = let no : ok u ≡ err e = ap (λ p. p.1) h in cc
left_alone a b e (x, err f) l h = sym (ap (λ p. p.0) h) ∙ l

-- When `add_schema_node` refuses a node, for whatever reason, the registry is the one that it was
-- given, although it changes the tree while it walks the path.
pub add_schema_node-refused :
    (r r' : SchemaRegistry) (fragment path : String) (json : Result SchemaNode String) (e : String)
    → add_schema_node r fragment path json ≡ (r', err e)
    → r' ≡ r
unfolding add_schema_node
add_schema_node-refused r r' fragment path json e h =
    left_alone r r' e (add_node r fragment path (checked_node path json))
      (add_node-Leaves r fragment path (checked_node path json)) h
