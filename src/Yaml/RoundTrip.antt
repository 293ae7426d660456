-- ===== src/Yaml/RoundTrip.antt =====
-- Reading a value back from its YAML form.
pub mod States
use netfyr.Base.{
  ℕ, ◌≤◌, String, Bool, true, false, ◌≡◌, ◌≢◌, refl, sym, ap, ◌∙◌, subst, arith, Option, none, some,
  option_bind, Result, ok, err, ◌>>=◌, is_some, if◌then◌else◌, Bool-cases, inl, inr, ◌⊎◌,
}
use mathlib.Core.Path.{ap₂}
use netfyr.Base.Int.{ℤ, pos, negsuc}
use netfyr.Base.Equality.{◌==◌, string_eq, same_refl}
use netfyr.Base.Text.{◌<>◌, decimal}
use netfyr.Value.{IpAddr, Value, u64, i64, Items, nil, item, Entries, end, entry}
use netfyr.Value.Map.{insert, get, contains_key}
use netfyr.Schema.Types.{FieldType, SchemaNode, property, item_schema, expected_type}
use netfyr.Schema.Format.{max_prefix, parse_ip_network}
use netfyr.Schema.Format.Printed.{IsAddress, KeepsAddresses, parse_ip_network-printed}
use netfyr.Schema.Routing.{network_or_text, decode_by, decode_string}
use netfyr.Error.{Error}
use netfyr.Yaml.{
  Numbers, Yaml, YamlItems, YamlEntries, decode_text, integer_value, value_to_model, items_to_model,
  entries_to_model,
}
use netfyr.Yaml.Write.{model_to_value, items_to_value, entries_to_value}

-- What the documentation of `serde_yaml::Number` says: a number made from an unsigned integer reads
-- as it, and one made from a negative integer reads as it and as no unsigned one.
pub record KeepsIntegers {N : Type 0} (numbers : Numbers N) : Type 0 where
  pub unsigned : (n : ℕ) → numbers.as_u64 (numbers.of_u64 n) ≡ some n
  pub not_unsigned : (k : ℕ) → numbers.as_u64 (numbers.of_i64 (negsuc k)) ≡ none
  pub signed : (k : ℕ) → numbers.as_i64 (numbers.of_i64 (negsuc k)) ≡ some (negsuc k)

abbrev pub append_entries : Entries → Entries → Entries
append_entries end m = m
append_entries (entry k v l) m = entry k v (append_entries l m)

append_entries_assoc :
    (a b c : Entries)
    → append_entries (append_entries a b) c ≡ append_entries a (append_entries b c)
append_entries_assoc end b c = refl
append_entries_assoc (entry k v a) b c = ap (entry k v) (append_entries_assoc a b c)

append_entries_end : (a : Entries) → append_entries a end ≡ a
append_entries_end end = refl
append_entries_end (entry k v a) = ap (entry k v) (append_entries_end a)

-- A fresh key is inserted at the end.
pub insert_fresh :
    (k : String) (v : Value) (l : Entries)
    → contains_key k l ≡ false
    → insert k v l ≡ append_entries l (entry k v end)
insert_fresh k v end h = refl
insert_fresh k v (entry j w l) h = elim (Bool-cases (j == k)) [
  | inl same ↦ let no : true ≡ false = rw same at h in cc
  | inr other ↦ let g = rw other at h in rw other (ap (entry j w) (insert_fresh k v l g))
]

-- No key of the entries is one of the map.
abbrev pub Fresh : Entries → Entries → Type 0
Fresh end out = Unit
Fresh (entry k v l) out = (contains_key k out ≡ false) × Fresh l out

differs_sym : (j k : String) → (j == k) ≡ false → (k == j) ≡ false
differs_sym j k h = elim (Bool-cases (k == j)) [
  | inr e ↦ e
  | inl e ↦
      let equal : j ≡ k = sym ((string_eq.same_iff k j).0 e) in
      let same : (j == k) ≡ true = (string_eq.same_iff j k).1 equal in cc
]

fresh_key :
    (j k : String) (v : Value) (out : Entries)
    → contains_key j out ≡ false
    → (k == j) ≡ false
    → contains_key j (append_entries out (entry k v end)) ≡ false
fresh_key j k v end h e = rw e refl
fresh_key j k v (entry i w out) h e = elim (Bool-cases (i == j)) [
  | inl same ↦ let no : true ≡ false = rw same at h in cc
  | inr other ↦ let g = rw other at h in rw other (fresh_key j k v out g e)
]

pub Fresh-add :
    (k : String) (v : Value) (l out : Entries)
    → contains_key k l ≡ false
    → Fresh l out
    → Fresh l (append_entries out (entry k v end))
Fresh-add k v end out h f = tt
Fresh-add k v (entry j w l) out h (here, later) = elim (Bool-cases (j == k)) [
  | inl same ↦ let no : true ≡ false = rw same at h in cc
  | inr other ↦
      let g = rw other at h in
      (fresh_key j k v out here (differs_sym j k other), Fresh-add k v l out g later)
]

pub Fresh-end : (l : Entries) → Fresh l end
Fresh-end end = tt
Fresh-end (entry k v l) = (refl, Fresh-end l)

-- The schema asks for a network.
abbrev pub AsksNetwork : Option SchemaNode → Type 0
AsksNetwork none = ⊥
AsksNetwork (some n) = expected_type n ≡ FieldType.ip_network

module _ (pa : String → Option IpAddr) where
  -- The value is one that its YAML form can tell along the schema: text, where the schema asks for a
  -- network, is not that of a network; a network is where the schema asks for one, its address
  -- is of its width and its prefix length fits; an `I64` is negative, no bare address occurs, and the keys of a map are
  -- distinct.
  abbrev mutual
    pub IsTold : Option SchemaNode → Value → Type 0
    IsTold schema (Value.string s) = (¬ (AsksNetwork schema)) ⊎ (parse_ip_network pa s ≡ none)
    IsTold schema (u64 n) = Unit
    IsTold schema (i64 (pos n)) = ⊥
    IsTold schema (i64 (negsuc k)) = Unit
    IsTold schema (Value.bool b) = Unit
    IsTold schema (Value.ip_addr a) = ⊥
    IsTold schema (Value.ip_network a p) = AsksNetwork schema × IsAddress a × (p ≤ max_prefix a)
    IsTold schema (Value.array l) = AreTold (option_bind schema item_schema) l
    IsTold schema (Value.object l) = EntriesTold schema l

    pub AreTold : Option SchemaNode → Items → Type 0
    AreTold schema nil = Unit
    AreTold schema (item v l) = IsTold schema v × AreTold schema l

    pub EntriesTold : Option SchemaNode → Entries → Type 0
    EntriesTold schema end = Unit
    EntriesTold schema (entry k v l) =
        (contains_key k l ≡ false)
        × IsTold (option_bind schema (λ n. property n k)) v
        × EntriesTold schema l

network_of :
    (pa : String → Option IpAddr) (n : SchemaNode) (s : String) (a : IpAddr) (p : ℕ)
    → expected_type n ≡ FieldType.ip_network
    → parse_ip_network pa s ≡ some (a, p)
    → decode_string pa n s ≡ Value.ip_network a p
unfolding decode_string
network_of pa n s a p asks read = ap (λ t. decode_by pa t s) asks ∙ ap (network_or_text s) read

text_by :
    (pa : String → Option IpAddr) (t : FieldType) (s : String)
    → (t ≡ FieldType.ip_network → parse_ip_network pa s ≡ none)
    → decode_by pa t s ≡ Value.string s
text_by pa FieldType.ip_network s h = ap (network_or_text s) (h refl)
text_by pa other s h = refl

module _ {N : Type 0} (numbers : Numbers N) (pa : String → Option IpAddr)
    (di : IpAddr → String) where
  text_back :
      (schema : Option SchemaNode) (s : String)
      → (¬ (AsksNetwork schema)) ⊎ (parse_ip_network pa s ≡ none)
      → decode_text numbers pa schema s ≡ Value.string s
  unfolding decode_string
  text_back none s h = refl
  text_back (some n) s h =
      text_by pa (expected_type n) s
        (λ asks. elim h [ inl other ↦ absurd (other asks) | inr e ↦ e ])

  network_back :
      (schema : Option SchemaNode) (a : IpAddr) (p : ℕ)
      → KeepsAddresses pa di
      → AsksNetwork schema
      → IsAddress a
      → p ≤ max_prefix a
      → decode_text numbers pa schema (di a <> "/" <> decimal p) ≡ Value.ip_network a p
  network_back none a p keeps asks valid fits = elim asks [ ]
  network_back (some n) a p keeps asks valid fits =
      network_of pa n (di a <> "/" <> decimal p) a p asks
        (parse_ip_network-printed pa di a p keeps valid fits)

  module _ (keeps : KeepsIntegers numbers) (shows : KeepsAddresses pa di) where
    mutual
      unfolding model_to_value value_to_model

      value_back :
          (v : Value) (schema : Option SchemaNode)
          → IsTold pa schema v
          → value_to_model numbers pa (model_to_value numbers di v schema) schema ≡ ok v
      value_back (Value.string s) schema h = ap ok (text_back schema s h)
      value_back (u64 n) schema h =
          ap (λ o. integer_value numbers o (numbers.as_i64 (numbers.of_u64 n))) (keeps.unsigned n)
      value_back (i64 (pos n)) schema h = elim h [ ]
      value_back (i64 (negsuc k)) schema h =
          ap₂ (λ o i. integer_value numbers o i) (keeps.not_unsigned k) (keeps.signed k)
      value_back (Value.bool b) schema h = refl
      value_back (Value.ip_addr a) schema h = elim h [ ]
      value_back (Value.ip_network a p) schema (asks, valid, fits) =
          ap ok (network_back schema a p shows asks valid fits)
      value_back (Value.array l) schema h =
          rw (items_back l (option_bind schema item_schema) h) refl
      value_back (Value.object l) schema h = rw (entries_back l schema end h (Fresh-end l)) refl

      items_back :
          (l : Items) (schema : Option SchemaNode)
          → AreTold pa schema l
          → items_to_model numbers pa (items_to_value numbers di l schema) schema ≡ ok l
      items_back nil schema h = refl
      items_back (item v l) schema h = rw (value_back v schema h.0, items_back l schema h.1) refl

      entries_back :
          (l : Entries) (schema : Option SchemaNode) (out : Entries)
          → EntriesTold pa schema l
          → Fresh l out
          → entries_to_model numbers pa (entries_to_value numbers di l schema) schema out
            ≡ ok (append_entries out l)
      entries_back end schema out h f = rw (append_entries_end out) refl
      entries_back (entry k v l) schema out (distinct, told, rest) f =
          rw (value_back v (option_bind schema (λ n. property n k)) told) (
            rw (insert_fresh k v out f.0) (
              entries_back l schema (append_entries out (entry k v end)) rest
                (Fresh-add k v l out distinct f.1)
              ∙ ap ok (append_entries_assoc out (entry k v end) l)))

    -- With numbers and a printer and parser of addresses that keep to their documentation: a value of
    -- which, along a schema, every text that stands where a network is wanted reads as no network,
    -- every network stands where one is wanted with an address of its width and a prefix length that
    -- fits, every `I64` is negative, no bare address occurs and map keys are distinct, is read back
    -- from its YAML form along the same schema.
    pub value_to_model-model_to_value :
        (v : Value) (schema : Option SchemaNode)
        → IsTold pa schema v
        → value_to_model numbers pa (model_to_value numbers di v schema) schema ≡ ok v
    value_to_model-model_to_value v schema h = value_back v schema h
