-- ===== src/Schema/Format.antt =====
-- The `ipv4-cidr` format: `parse_ip_network` and `u8::from_str`. The text of a bare address is read
-- by the standard library's `IpAddr::from_str`, which every user of this module takes as a
-- parameter `parse_addr`.
pub mod Printed
use netfyr.Base.{ℕ, ◌+◌, ◌-◌, ◌*◌, String, ◌&&◌, Option, none, some, if◌then◌else◌, leb, eqb}
use Prim.Native.Char.{code}
use netfyr.Base.Text.{split_once}
use netfyr.Value.{IpAddr, v4, v6}

-- Decimal digits to a u8; `none` past 255.
read_digits : ℕ → String → Option ℕ
read_digits acc String.[] = some acc
read_digits acc (String.◌∷◌ c s) =
    let next = acc * 10 + (code c - 48) in
    let rest = read_digits next s in
    if leb b'0' (code c) && leb (code c) b'9' && leb next 255 then rest else none

-- `str::parse::<u8>`: an optional plus sign, then at least one digit.
unfoldable pub parse_u8 : String → Option ℕ
unfolding read_digits
parse_u8 String.[] = none
parse_u8 (String.◌∷◌ c String.[]) =
    if eqb (code c) b'+' then none else read_digits 0 (String.◌∷◌ c String.[])
parse_u8 (String.◌∷◌ c (String.◌∷◌ d s)) =
    if eqb (code c) b'+'
    then read_digits 0 (String.◌∷◌ d s)
    else read_digits 0 (String.◌∷◌ c (String.◌∷◌ d s))

abbrev pub max_prefix : IpAddr → ℕ
max_prefix (v4 a) = 32
max_prefix (v6 a) = 128

unfoldable pub parse_ip_network : (String → Option IpAddr) → String → Option (IpAddr × ℕ)
unfolding split_once parse_u8
parse_ip_network parse_addr s = elim (split_once b'/' s) [
  | none ↦ none
  | some (addr_text, prefix_text) ↦ elim (parse_addr addr_text) [
    | none ↦ none
    | some addr ↦ elim (parse_u8 prefix_text) [
      | none ↦ none
      | some prefix ↦ if leb prefix (max_prefix addr) then some (addr, prefix) else none
    ]
  ]
]
