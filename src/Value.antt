-- ===== src/Value.antt =====
-- crates/netfyr-state/src/value.rs: configuration values, their order-sensitive equality and their
-- canonical text. `Vec<Value>` and `IndexMap<String, Value>` are the lists of the same block; the
-- map functions keep the entries in insertion order, as `IndexMap` does.
pub mod Equality
pub mod Map
use netfyr.Base.{
  ℕ, String, Bool, true, false, ◌≡◌, Option, none, some, List, [], ◌∷◌, if◌then◌else◌, ◌&&◌, suc,
}
use netfyr.Base.Int.{ℤ, pos, negsuc, int_eq}
use netfyr.Base.Equality.{◌==◌, string_eq, nat_eq, bool_eq}
use netfyr.Base.Text.{◌<>◌, decimal}

-- `std::net::IpAddr`: the address bits, most significant octet first.
pub data IpAddr : Type 0 where
  v4 : ℕ → IpAddr
  v6 : ℕ → IpAddr

mutual
  pub data Value : Type 0 where
    string : String → Value
    u64 : ℕ → Value
    i64 : ℤ → Value
    bool : Bool → Value
    ip_addr : IpAddr → Value
    ip_network : IpAddr → ℕ → Value
    array : Items → Value
    object : Entries → Value

  pub data Items : Type 0 where
    nil : Items
    item : Value → Items → Items

  pub data Entries : Type 0 where
    end : Entries
    entry : String → Value → Entries → Entries

abbrev pub same_ip : IpAddr → IpAddr → Bool
same_ip (v4 a) (v4 b) = a == b
same_ip (v6 a) (v6 b) = a == b
same_ip a b = false

-- `impl PartialEq for Value`: maps are compared entry by entry, in insertion order.
unfoldable mutual
  pub same_value : Value → Value → Bool
  same_value (string a) (string b) = a == b
  same_value (u64 a) (u64 b) = a == b
  same_value (i64 a) (i64 b) = a == b
  same_value (bool a) (bool b) = a == b
  same_value (ip_addr a) (ip_addr b) = same_ip a b
  same_value (ip_network a p) (ip_network b q) = same_ip a b && p == q
  same_value (array a) (array b) = same_items a b
  same_value (object a) (object b) = same_entries a b
  same_value a b = false

  pub same_items : Items → Items → Bool
  same_items nil nil = true
  same_items (item a l) (item b m) = same_value a b && same_items l m
  same_items l m = false

  -- Equal lengths, and equal keys and values at each place.
  pub same_entries : Entries → Entries → Bool
  same_entries end end = true
  same_entries (entry j a l) (entry k b m) = (j == k && same_value a b) && same_entries l m
  same_entries l m = false

abbrev pub display_int : ℤ → String
display_int (pos n) = decimal n
display_int (negsuc n) = "-" <> decimal (suc n)

-- `impl Display for Value`. The text of an address is the standard library's, given by `display_ip`.
module _ (display_ip : IpAddr → String) where
  unfoldable mutual
    pub display : Value → String
    display (string s) = s
    display (u64 n) = decimal n
    display (i64 n) = display_int n
    display (bool true) = "true"
    display (bool false) = "false"
    display (ip_addr a) = display_ip a
    display (ip_network a prefix) = display_ip a <> "/" <> decimal prefix
    display (array items) = "[" <> display_items items <> "]"
    display (object entries) = "{" <> display_entries entries <> "}"

    -- The elements; `display_more_items` puts the separator before each but the first.
    pub display_items : Items → String
    display_items nil = ""
    display_items (item v l) = display v <> display_more_items l

    pub display_more_items : Items → String
    display_more_items nil = ""
    display_more_items (item v l) = ", " <> display v <> display_more_items l

    pub display_entries : Entries → String
    display_entries end = ""
    display_entries (entry k v l) = k <> ": " <> display v <> display_more_entries l

    pub display_more_entries : Entries → String
    display_more_entries end = ""
    display_more_entries (entry k v l) = ", " <> k <> ": " <> display v <> display_more_entries l
