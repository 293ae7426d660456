-- ===== src/Schema/Modes.antt =====
-- The two validation modes agree but for read-only fields.
use netfyr.Base.{
  ℕ, suc, String, Bool, true, false, Option, none, some, List, [], ◌∷◌, ◌++◌, ◌≡◌, refl, ap, ◌∙◌,
  sym, if◌then◌else◌, keep, arith, unwrap_or,
}
use mathlib.Core.Path.{ap₂}
use netfyr.Base.Equality.{contains, string_eq}
use netfyr.Base.Text.{◌<>◌, decimal, is_empty_text}
use netfyr.Value.{IpAddr, Value, Items, nil, item, Entries, end, entry}
use netfyr.Device.{State}
use netfyr.Schema.Types.{
  FieldType, ValidationError, read_only_field, SchemaNode, keywords, property, item_schema,
  expected_type, join_path,
}
use netfyr.Schema.Walk.{
  checked, kind_errors, with_read_only, missing_errors, walk_node, walk_items, walk_entries,
  walk_map, integer_errors, enum_errors, format_errors, under, unknown_errors, walk_property,
}
use netfyr.Schema.Registry.{
  SchemaRegistry, Fragment, validate, validate_writable, all_errors, device_type_errors,
  trigger_errors, fragment_errors_at, trigger_keys,
}
use netfyr.Value.Map

-- Not a read-only violation.
abbrev pub is_plain : ValidationError → Bool
is_plain (read_only_field fragment path) = false
is_plain other = true

abbrev pub plain_errors : List ValidationError → List ValidationError
plain_errors = keep is_plain

keep-append :
    (xs ys : List ValidationError) → plain_errors (xs ++ ys) ≡ plain_errors xs ++ plain_errors ys
keep-append [] ys = refl
keep-append (x ∷ xs) ys = ground (arith, keep-append xs ys)

keep_idem : (xs : List ValidationError) → plain_errors (plain_errors xs) ≡ plain_errors xs
keep_idem [] = refl
keep_idem (x ∷ xs) = ground (arith, keep_idem xs)

module _ (pa : String → Option IpAddr) (fr : String) where
  integer_errors_plain :
      (n : SchemaNode) (v : Value) (path : String)
      → plain_errors (integer_errors fr n v path) ≡ integer_errors fr n v path
  unfolding integer_errors
  integer_errors_plain n v path = ground arith

  enum_errors_plain :
      (n : SchemaNode) (v : Value) (path : String)
      → plain_errors (enum_errors fr n v path) ≡ enum_errors fr n v path
  unfolding enum_errors
  enum_errors_plain n v path = ground arith

  format_errors_plain :
      (v : Value) (path : String)
      → plain_errors (format_errors pa fr v path) ≡ format_errors pa fr v path
  unfolding format_errors
  format_errors_plain v path = ground arith

  missing_errors_plain :
      (ks : List String) (map : Entries) (prefix : String) (ignore : List String)
      → plain_errors (missing_errors fr ks map prefix ignore)
        ≡ missing_errors fr ks map prefix ignore
  unfolding missing_errors
  missing_errors_plain [] map prefix ignore = refl
  missing_errors_plain (k ∷ ks) map prefix ignore =
      ground (arith, missing_errors_plain ks map prefix ignore)

  kind_errors_plain :
      (t : FieldType) (n : SchemaNode) (v : Value) (path : String)
      (strict lax : List ValidationError)
      → plain_errors strict ≡ lax
      → plain_errors (kind_errors pa fr t n v path strict) ≡ kind_errors pa fr t n v path lax
  unfolding kind_errors
  kind_errors_plain FieldType.integer n v path strict lax h = integer_errors_plain n v path
  kind_errors_plain FieldType.string n v path strict lax h = enum_errors_plain n v path
  kind_errors_plain FieldType.ip_network n v path strict lax h = format_errors_plain v path
  kind_errors_plain FieldType.object n v path strict lax h = h
  kind_errors_plain FieldType.array n v path strict lax h = h
  kind_errors_plain FieldType.boolean n v path strict lax h = refl
  kind_errors_plain FieldType.ip_address n v path strict lax h = refl

  checked_plain :
      (n : SchemaNode) (v : Value) (path : String) (strict lax : List ValidationError)
      → plain_errors strict ≡ lax
      → plain_errors (checked pa fr n v path strict) ≡ checked pa fr n v path lax
  unfolding checked
  checked_plain n v path strict lax h =
      ground (arith, kind_errors_plain (expected_type n) n v path strict lax h)

  with_read_only_plain :
      (n : SchemaNode) (path : String) (strict lax : List ValidationError)
      → plain_errors strict ≡ lax
      → plain_errors (with_read_only pa fr true n path strict)
        ≡ with_read_only pa fr false n path lax
  unfolding with_read_only
  with_read_only_plain n path strict lax h = ground arith

  unknown_errors_plain :
      (n : SchemaNode) (path : String)
      → plain_errors (unknown_errors fr n path) ≡ unknown_errors fr n path
  unfolding unknown_errors
  unknown_errors_plain n path = ground arith

  ignored_plain :
      (b : Bool) (strict lax : List ValidationError)
      → plain_errors strict ≡ lax
      → plain_errors (if b then [] else strict) ≡ (if b then [] else lax)
  ignored_plain true strict lax h = refl
  ignored_plain false strict lax h = h

  under_plain :
      (o : Option SchemaNode) (strict lax : SchemaNode → List ValidationError)
      (absent : List ValidationError)
      → ((n : SchemaNode) → plain_errors (strict n) ≡ lax n)
      → plain_errors absent ≡ absent
      → plain_errors (under o strict absent) ≡ under o lax absent
  unfolding under
  under_plain none strict lax absent h e = e
  under_plain (some n) strict lax absent h e = h n

  mutual
    unfolding walk_node

    walk_node_plain :
        (n : SchemaNode) (v : Value) (path : String)
        → plain_errors (walk_node pa fr true n v path) ≡ walk_node pa fr false n v path
    walk_node_plain n (Value.object inner) path = checked_plain n (Value.object inner) path _ _ (
        keep-append (walk_entries pa fr true n inner path [])
          (missing_errors fr (unwrap_or (keywords n).required []) inner path [])
        ∙ ap₂ (λ x y. x ++ y) (walk_entries_plain n inner path [])
            (missing_errors_plain (unwrap_or (keywords n).required []) inner path []))
    walk_node_plain n (Value.array l) path = checked_plain n (Value.array l) path _ _ (
        under_plain (item_schema n) (λ s. walk_items pa fr true s l path 0)
          (λ s. walk_items pa fr false s l path 0) [] (λ s. walk_items_plain s l path 0) refl)
    walk_node_plain n v path = checked_plain n v path [] [] refl

    walk_items_plain :
        (s : SchemaNode) (l : Items) (path : String) (index : ℕ)
        → plain_errors (walk_items pa fr true s l path index)
          ≡ walk_items pa fr false s l path index
    walk_items_plain s nil path index = refl
    walk_items_plain s (item v l) path index =
        keep-append (walk_node pa fr true s v (path <> "[" <> decimal index <> "]"))
          (walk_items pa fr true s l path (suc index))
        ∙ ap₂ (λ x y. x ++ y) (walk_node_plain s v _) (walk_items_plain s l path (suc index))

    walk_entries_plain :
        (n : SchemaNode) (l : Entries) (prefix : String) (ignore : List String)
        → plain_errors (walk_entries pa fr true n l prefix ignore)
          ≡ walk_entries pa fr false n l prefix ignore
    walk_entries_plain n end prefix ignore = refl
    walk_entries_plain n (entry key v l) prefix ignore =
        keep-append
          (if contains ignore key
            then []
            else (under (property n key)
                (λ p.
                  with_read_only pa fr true p (join_path prefix key)
                    (walk_node pa fr true p v (join_path prefix key)))
                (unknown_errors fr n (join_path prefix key))))
          (walk_entries pa fr true n l prefix ignore)
        ∙ ap₂ (λ x y. x ++ y)
            (ignored_plain (contains ignore key)
              (under (property n key)
                (λ p.
                  with_read_only pa fr true p (join_path prefix key)
                    (walk_node pa fr true p v (join_path prefix key)))
                (unknown_errors fr n (join_path prefix key)))
              _
              (under_plain (property n key)
                (λ p.
                  with_read_only pa fr true p (join_path prefix key)
                    (walk_node pa fr true p v (join_path prefix key)))
                (λ p.
                  with_read_only pa fr false p (join_path prefix key)
                    (walk_node pa fr false p v (join_path prefix key)))
                (unknown_errors fr n (join_path prefix key))
                (λ p.
                  with_read_only_plain p (join_path prefix key) _ _
                    (walk_node_plain p v (join_path prefix key)))
                (unknown_errors_plain n (join_path prefix key))))
            (walk_entries_plain n l prefix ignore)

  walk_map_plain :
      (n : SchemaNode) (l : Entries) (prefix : String) (ignore : List String)
      → plain_errors (walk_map pa fr true n l prefix ignore)
        ≡ walk_map pa fr false n l prefix ignore
  unfolding walk_map
  walk_map_plain n l prefix ignore =
      keep-append (walk_entries pa fr true n l prefix ignore)
        (missing_errors fr (unwrap_or (keywords n).required []) l prefix ignore)
      ∙ ap₂ (λ x y. x ++ y) (walk_entries_plain n l prefix ignore)
          (missing_errors_plain (unwrap_or (keywords n).required []) l prefix ignore)

  -- The lax mode reports no read-only violation.
  walk_property_lax :
      (n : SchemaNode) (v : Value) (path : String)
      → plain_errors (walk_property pa fr false n v path) ≡ walk_property pa fr false n v path
  unfolding walk_property with_read_only
  walk_property_lax n v path =
      let e = walk_node_plain n v path in
      ap plain_errors (sym e) ∙ keep_idem (walk_node pa fr true n v path) ∙ e

module _ (pa : String → Option IpAddr) where
  device_type_errors_plain :
      (f : Fragment) (s : State)
      → plain_errors (device_type_errors pa f s) ≡ device_type_errors pa f s
  unfolding device_type_errors
  device_type_errors_plain f s =
      within (is_empty_text s.device_type) (property f.root "type")
        (λ n. walk_property pa f.name false n (Value.string s.device_type) "type")
        (λ n. walk_property_lax pa f.name n (Value.string s.device_type) "type")
    where
      within :
          (b : Bool) (o : Option SchemaNode) (g : SchemaNode → List ValidationError)
          → ((n : SchemaNode) → plain_errors (g n) ≡ g n)
          → plain_errors (if b then [] else elim o [ none ↦ [] | some n ↦ g n ])
            ≡ (if b then [] else elim o [ none ↦ [] | some n ↦ g n ])
      within true o g h = refl
      within false none g h = refl
      within false (some n) g h = h n

  trigger_errors_plain :
      (name key : String) (root : SchemaNode) (o : Option Value)
      → plain_errors (trigger_errors pa name root true key o)
        ≡ trigger_errors pa name root false key o
  unfolding trigger_errors
  trigger_errors_plain name key root none = refl
  trigger_errors_plain name key root (some (Value.object inner)) =
      walk_map_plain pa name root inner key []
  trigger_errors_plain name key root (some v) = refl

  fragment_errors_plain :
      (triggers : List String) (s : State) (f : Fragment) (trigger : Option String)
      → plain_errors (fragment_errors_at pa triggers true s f trigger)
        ≡ fragment_errors_at pa triggers false s f trigger
  unfolding fragment_errors_at
  fragment_errors_plain triggers s f none =
      keep-append (walk_map pa f.name true f.root s.fields "" triggers) (device_type_errors pa f s)
      ∙ ap₂ (λ x y. x ++ y) (walk_map_plain pa f.name f.root s.fields "" triggers)
          (device_type_errors_plain f s)
  fragment_errors_plain triggers s f (some key) =
      trigger_errors_plain f.name key f.root (Map.get key s.fields)

  all_errors_plain :
      (triggers : List String) (s : State) (fs : List Fragment)
      → plain_errors (all_errors pa triggers true s fs) ≡ all_errors pa triggers false s fs
  unfolding all_errors
  all_errors_plain triggers s [] = refl
  all_errors_plain triggers s (f ∷ fs) =
      keep-append (fragment_errors_at pa triggers true s f f.trigger_key)
        (all_errors pa triggers true s fs)
      ∙ ap₂ (λ x y. x ++ y) (fragment_errors_plain triggers s f f.trigger_key)
          (all_errors_plain triggers s fs)

-- For every registry and state, the violations of the policy mode that are no read-only violations
-- are the violations of the query mode, in the same order.
pub validate_writable-plain :
    (pa : String → Option IpAddr) (r : SchemaRegistry) (s : State)
    → plain_errors (validate_writable pa r s) ≡ validate pa r s
unfolding validate validate_writable
validate_writable-plain pa r s = all_errors_plain pa (trigger_keys r.fragments) s r.fragments
