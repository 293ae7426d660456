-- ===== src/Value/Map.antt =====
-- `IndexMap<String, Value>`: `get`, `insert` (in place for a present key, else at the end),
-- `shift_remove` (keeps the order of the rest), `keys`, `is_empty`.
use netfyr.Base.{
  String, Bool, true, false, ◌≡◌, Option, none, some, List, [], ◌∷◌, if◌then◌else◌, is_some, arith,
}
use netfyr.Base.Equality.{◌==◌, string_eq, same_refl}
use netfyr.Value.{Value, Entries, end, entry}

abbrev pub get : String → Entries → Option Value
get k end = none
get k (entry j v l) = if j == k then some v else get k l

abbrev pub contains_key : String → Entries → Bool
contains_key k l = is_some (get k l)

abbrev pub insert : String → Value → Entries → Entries
insert k v end = entry k v end
insert k v (entry j w l) = if j == k then entry j v l else entry j w (insert k v l)

abbrev pub shift_remove : String → Entries → Entries
shift_remove k end = end
shift_remove k (entry j w l) = if j == k then l else entry j w (shift_remove k l)

abbrev pub keys : Entries → List String
keys end = []
keys (entry k v l) = k ∷ keys l

abbrev pub is_empty : Entries → Bool
is_empty end = true
is_empty (entry k v l) = false

pub get-insert_self : (k : String) (v : Value) (l : Entries) → get k (insert k v l) ≡ some v
get-insert_self k v end = ground (arith, same_refl k)
get-insert_self k v (entry j w l) = ground (arith, get-insert_self k v l)
