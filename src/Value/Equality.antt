-- ===== src/Value/Equality.antt =====
-- The order-sensitive equality of values decides equality of the model's values.
use netfyr.Base.{true, ◌≡◌, refl, ◌↔◌, ap, arith, ◌&&◌, eqb_iff, subst, &&_split}
use netfyr.Base.Int.{int_eq, same_int_iff}
use netfyr.Base.Equality.{Eq, ◌==◌, string_eq, nat_eq, bool_eq, same_bool_iff}
use mathlib.Core.Path.{ap₂}
use text.Mathlib.TextEquality.{eq_iff}
use netfyr.Value.{
  IpAddr, v4, v6, Value, string, u64, i64, bool, ip_addr, ip_network, array, object, Items, nil,
  item, Entries, end, entry, same_ip, same_value, same_items, same_entries,
}

pub same_ip_sound : (a b : IpAddr) → same_ip a b ≡ true → a ≡ b
same_ip_sound (v4 a) (v4 b) h = ap v4 ((eqb_iff a b).0 h)
same_ip_sound (v6 a) (v6 b) h = ap v6 ((eqb_iff a b).0 h)
same_ip_sound (v4 a) (v6 b) h = cc
same_ip_sound (v6 a) (v4 b) h = cc

pub same_ip_refl : (a : IpAddr) → same_ip a a ≡ true
same_ip_refl (v4 a) = (eqb_iff a a).1 refl
same_ip_refl (v6 a) = (eqb_iff a a).1 refl

mutual
  unfolding same_value

  value_refl : (a : Value) → same_value a a ≡ true
  value_refl (string a) = (eq_iff a a).1 refl
  value_refl (u64 a) = (eqb_iff a a).1 refl
  value_refl (i64 a) = (same_int_iff a a).1 refl
  value_refl (bool a) = (same_bool_iff a a).1 refl
  value_refl (ip_addr a) = same_ip_refl a
  value_refl (ip_network a p) = ground (arith, same_ip_refl a)
  value_refl (array a) = items_refl a
  value_refl (object a) = entries_refl a

  items_refl : (l : Items) → same_items l l ≡ true
  items_refl nil = refl
  items_refl (item v l) = ground (arith, value_refl v, items_refl l)

  entries_refl : (l : Entries) → same_entries l l ≡ true
  entries_refl end = refl
  entries_refl (entry k v l) = ground (arith, value_refl v, entries_refl l, eq_iff k k)

mutual
  unfolding same_value

  value_sound : (a b : Value) → same_value a b ≡ true → a ≡ b
  value_sound (string a) (string b) h = ap string ((eq_iff a b).0 h)
  value_sound (u64 a) (u64 b) h = ap u64 ((eqb_iff a b).0 h)
  value_sound (i64 a) (i64 b) h = ap i64 ((same_int_iff a b).0 h)
  value_sound (bool a) (bool b) h = ap bool ((same_bool_iff a b).0 h)
  value_sound (ip_addr a) (ip_addr b) h = ap ip_addr (same_ip_sound a b h)
  value_sound (ip_network a p) (ip_network b q) h = ground (arith, same_ip_sound a b)
  value_sound (array a) (array b) h = ap array (items_sound a b h)
  value_sound (object a) (object b) h = ap object (entries_sound a b h)
  value_sound a b h = cc

  items_sound : (l m : Items) → same_items l m ≡ true → l ≡ m
  items_sound nil nil h = refl
  items_sound (item a l) (item b m) h =
      let (head, tail) = &&_split (same_value a b) (same_items l m) h in
      ap₂ item (value_sound a b head) (items_sound l m tail)
  items_sound l m h = cc

  entries_sound : (l m : Entries) → same_entries l m ≡ true → l ≡ m
  entries_sound end end h = refl
  entries_sound (entry j a l) (entry k b m) h =
      let (head, tail) = &&_split (j == k && same_value a b) (same_entries l m) h in
      let (key, val) = &&_split (j == k) (same_value a b) head in
      λ i. entry ((eq_iff j k).0 key i) (value_sound a b val i) (entries_sound l m tail i)
  entries_sound l m h = cc

-- Two values compare equal exactly when they are the same value: the same variant with equal
-- contents, lists and maps element by element in order.
pub same_value_iff : (a b : Value) → (same_value a b ≡ true) ↔ (a ≡ b)
same_value_iff a b = (value_sound a b, λ e. subst (λ x. same_value a x ≡ true) e (value_refl a))

instance abbrev pub value_eq : Eq Value
value_eq = record { same = same_value; same_iff = same_value_iff }

pub same_entries_iff : (l m : Entries) → (same_entries l m ≡ true) ↔ (l ≡ m)
same_entries_iff l m =
    (entries_sound l m, λ e. subst (λ x. same_entries l x ≡ true) e (entries_refl l))

instance abbrev pub entries_eq : Eq Entries
entries_eq = record { same = same_entries; same_iff = same_entries_iff }
