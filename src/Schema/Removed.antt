-- ===== src/Schema/Removed.antt =====
-- What the removal of read-only fields leaves is the same to both validation modes.
use netfyr.Base.{
  ℕ, suc, String, true, false, Option, none, some, List, [], ◌++◌, ◌≡◌, refl, ap, if◌then◌else◌,
  unwrap_or, Bool-cases, inl, inr,
}
use mathlib.Core.Path.{ap₂}
use netfyr.Base.Equality.{contains, string_eq}
use netfyr.Value.{IpAddr, Value, Items, nil, item, Entries, end, entry}
use netfyr.Schema.Types.{SchemaNode, keywords, property, item_schema, join_path}
use netfyr.Schema.Walk.{
  checked, with_read_only, missing_errors, walk_node, walk_items, walk_entries, walk_map, under,
  unknown_errors,
}
use netfyr.Schema.Removal.{
  remove_inside, remove_from_items, remove_from_item, remove_read_only_from_map, leave_at,
  leave_list,
}

-- No list stands directly in a list.
abbrev mutual
  pub IsFlat : Value → Type 0
  IsFlat (Value.object l) = AreFlat l
  IsFlat (Value.array l) = AreInner l
  IsFlat other = Unit

  pub AreInner : Items → Type 0
  AreInner nil = Unit
  AreInner (item v l) = IsInner v × AreInner l

  pub IsInner : Value → Type 0
  IsInner (Value.object l) = AreFlat l
  IsInner (Value.array l) = ⊥
  IsInner other = Unit

  pub AreFlat : Entries → Type 0
  AreFlat end = Unit
  AreFlat (entry key v l) = IsFlat v × AreFlat l

module _ (pa : String → Option IpAddr) (fr : String) where
  -- The modes agree on the entries.
  abbrev Agree : SchemaNode → Entries → Type 0
  Agree n l =
      (prefix : String) (ignore : List String)
      → walk_entries pa fr true n l prefix ignore ≡ walk_entries pa fr false n l prefix ignore

  abbrev AgreeOn : SchemaNode → Value → Type 0
  AgreeOn n v = (path : String) → walk_node pa fr true n v path ≡ walk_node pa fr false n v path

  object-AgreeOn : (n : SchemaNode) (l : Entries) → Agree n l → AgreeOn n (Value.object l)
  unfolding walk_node
  object-AgreeOn n l h path =
      ap
        (λ e.
          checked pa fr n (Value.object l) path
            (e ++ missing_errors fr (unwrap_or (keywords n).required []) l path []))
        (h path [])

  unknown-Agree :
      (n : SchemaNode) (key : String) (v : Value) (l : Entries)
      → property n key ≡ none
      → Agree n l
      → Agree n (entry key v l)
  unfolding walk_node under
  unknown-Agree n key v l e h prefix ignore = rw e (
      ap
        (λ r. (if contains ignore key then [] else unknown_errors fr n (join_path prefix key)) ++ r)
        (h prefix ignore))

  writable-Agree :
      (n p : SchemaNode) (key : String) (v : Value) (l : Entries)
      → property n key ≡ some p
      → (keywords p).writable ≡ true
      → AgreeOn p v
      → Agree n l
      → Agree n (entry key v l)
  unfolding walk_node under with_read_only
  writable-Agree n p key v l e w here h prefix ignore = rw e (
      rw w (
        ap₂ (λ x y. (if contains ignore key then [] else x) ++ y) (here (join_path prefix key))
          (h prefix ignore)))

  leave-Agree :
      (n : SchemaNode) (o : Option SchemaNode) (left : SchemaNode → Value × List String)
      (key path : String) (v : Value) (y : Entries × List String)
      → property n key ≡ o
      → ((p : SchemaNode) → AgreeOn p (left p).0)
      → Agree n y.0
      → Agree n (leave_at o left key path v y).0
  leave-Agree n none left key path v y e here h prefix ignore =
      unknown-Agree n key v y.0 e h prefix ignore
  leave-Agree n (some p) left key path v y e here h prefix ignore =
      elim (Bool-cases (keywords p).writable) [
        | inl w ↦ rw w (writable-Agree n p key (left p).0 y.0 e w (here p) h prefix ignore)
        | inr w ↦ rw w (h prefix ignore)
      ]

  list-AgreeOn :
      (n : SchemaNode) (o : Option SchemaNode) (left : SchemaNode → Items × List String) (l : Items)
      → item_schema n ≡ o
      → ((s : SchemaNode) (path : String)
          → walk_items pa fr true s (left s).0 path 0 ≡ walk_items pa fr false s (left s).0 path 0)
      → AgreeOn n (leave_list o left l).0
  unfolding walk_node under
  list-AgreeOn n none left l e h path = rw e refl
  list-AgreeOn n (some s) left l e h path =
      rw e (ap (checked pa fr n (Value.array (left s).0) path) (h s path))

  mutual
    unfolding walk_node remove_inside

    inside-AgreeOn :
        (n : SchemaNode) (v : Value) (q : String) → IsFlat v → AgreeOn n (remove_inside n v q).0
    inside-AgreeOn n (Value.object l) q flat path =
        object-AgreeOn n (remove_read_only_from_map n l q).0 (map-Agree n l q flat) path
    inside-AgreeOn n (Value.array l) q flat path =
        list-AgreeOn n (item_schema n) (λ s. remove_from_items s l q 0) l refl
          (λ s p. items-Agree s l q p 0 0 flat) path
    inside-AgreeOn n (Value.string x) q flat path = refl
    inside-AgreeOn n (Value.u64 x) q flat path = refl
    inside-AgreeOn n (Value.i64 x) q flat path = refl
    inside-AgreeOn n (Value.bool x) q flat path = refl
    inside-AgreeOn n (Value.ip_addr x) q flat path = refl
    inside-AgreeOn n (Value.ip_network x y) q flat path = refl

    items-Agree :
        (s : SchemaNode) (l : Items) (q path : String) (i j : ℕ)
        → AreInner l
        → walk_items pa fr true s (remove_from_items s l q i).0 path j
          ≡ walk_items pa fr false s (remove_from_items s l q i).0 path j
    items-Agree s nil q path i j flat = refl
    items-Agree s (item v l) q path i j flat =
        ap₂ (λ x y. x ++ y) (item-AgreeOn s v _ flat.0 _)
          (items-Agree s l q path (suc i) (suc j) flat.1)

    item-AgreeOn :
        (s : SchemaNode) (v : Value) (q : String) → IsInner v → AgreeOn s (remove_from_item s v q).0
    item-AgreeOn s (Value.object l) q flat path =
        object-AgreeOn s (remove_read_only_from_map s l q).0 (map-Agree s l q flat) path
    item-AgreeOn s (Value.array l) q flat path = elim flat [ ]
    item-AgreeOn s (Value.string x) q flat path = refl
    item-AgreeOn s (Value.u64 x) q flat path = refl
    item-AgreeOn s (Value.i64 x) q flat path = refl
    item-AgreeOn s (Value.bool x) q flat path = refl
    item-AgreeOn s (Value.ip_addr x) q flat path = refl
    item-AgreeOn s (Value.ip_network x y) q flat path = refl

    map-Agree :
        (n : SchemaNode) (l : Entries) (q : String)
        → AreFlat l
        → Agree n (remove_read_only_from_map n l q).0
    map-Agree n end q flat prefix ignore = refl
    map-Agree n (entry key v l) q flat prefix ignore =
        leave-Agree n (property n key) (λ p. remove_inside p v (join_path q key)) key
          (join_path q key) v (remove_read_only_from_map n l q) refl
          (λ p. inside-AgreeOn p v (join_path q key) flat.0) (map-Agree n l q flat.1) prefix ignore

  -- On a map whose lists hold no lists, what the removal of read-only fields leaves of it has the
  -- same violations in the policy mode as in the query mode, so no read-only one; and so at every
  -- prefix of paths, whatever keys are ignored.
  pub remove_read_only_from_map-agrees :
      (n : SchemaNode) (l : Entries) (q prefix : String) (ignore : List String)
      → AreFlat l
      → walk_map pa fr true n (remove_read_only_from_map n l q).0 prefix ignore
        ≡ walk_map pa fr false n (remove_read_only_from_map n l q).0 prefix ignore
  unfolding walk_map
  remove_read_only_from_map-agrees n l q prefix ignore flat =
      ap
        (λ e.
          e
          ++ missing_errors fr (unwrap_or (keywords n).required [])
              (remove_read_only_from_map n l q).0 prefix ignore)
        (map-Agree n l q flat prefix ignore)
