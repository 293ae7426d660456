-- ===== src/Linux/Links.antt =====
-- crates/netfyr-backend/src/linux.rs: how a link message is read, how the link is classified, and
-- the state that is made of it.
pub mod Classified
mod Tests
use netfyr.Base.{
  ℕ, ◌/◌, ◌%◌, String, Bool, true, false, not, ◌&&◌, ◌||◌, ◌++◌, Option, none, some, List, [], ◌∷◌,
  map, length, get_or, ltb, is_some, is_nil, or_else, if◌then◌else◌, Result, ok, err, ◌>>=◌, ok_or,
}
use netfyr.Base.Equality.{◌==◌, nat_eq, contains}
use netfyr.Base.Text.{◌<>◌, decimal, join}
use netfyr.Value.{string, u64, bool, Entries, end}
use netfyr.Value.Map.{insert}
use netfyr.Device.{State, kernel, new_state}
use netfyr.Report.{BackendError, backend_error, query_failed}
use netfyr.Executor.Locate.{ethernet}
use netfyr.Linux.Messages.{
  is_ether, is_loopback, InfoKind, veth, other_kind, LinkInfo, info_kind, other_info, LinkAttribute,
  if_name, mac_address, mtu, carrier, link_info, other_link_attribute, LinkHeader, LinkMessage,
}
use netfyr.Linux.{LinkNla, RoutePacket}

pub record ParsedLink : Type 0 where
  pub message : LinkMessage
  pub name : String
  pub kind_valid : Bool
  pub diagnostics : List (String × String)

-- What the loop of `parse_link` has gathered.
pub record LinkParts : Type 0 where
  pub attributes : List LinkAttribute
  pub kind_valid : Bool
  pub diagnostics : List (String × String)

abbrev push_link_diagnostic : String → String → LinkParts → LinkParts
push_link_diagnostic field text p = record p { diagnostics = p.diagnostics ++ (field, text) ∷ [] }

abbrev push_attribute : LinkAttribute → LinkParts → LinkParts
push_attribute a p = record p { attributes = p.attributes ++ a ∷ [] }

abbrev add_attribute : LinkHeader → LinkAttribute → LinkParts → LinkParts
add_attribute header (mac_address bytes) p =
    if (is_ether header.layer_type || is_loopback header.layer_type) && not (length bytes == 6)
    then push_link_diagnostic "mac" ("invalid Ethernet MAC length " <> decimal (length bytes)) p
    else push_attribute (mac_address bytes) p
add_attribute header (carrier value) p =
    if ltb 1 value
    then push_link_diagnostic "carrier" ("invalid carrier value " <> decimal value) p
    else push_attribute (carrier value) p
add_attribute header a p = push_attribute a p

-- `IFLA_LINKINFO`
abbrev pub link_info_number : ℕ
link_info_number = 18

abbrev add_parsed : LinkHeader → ℕ → Result LinkAttribute String → LinkParts → LinkParts
add_parsed header kind (ok a) p = add_attribute header a p
add_parsed header kind (err text) p =
    push_link_diagnostic ("netlink.attribute." <> decimal kind) text
      (if kind == link_info_number then record p { kind_valid = false } else p)

abbrev pub query_error : String → BackendError
query_error text = backend_error query_failed text

unfoldable pub add_nlas :
    LinkHeader → List (Result LinkNla String) → LinkParts → Result LinkParts BackendError
add_nlas header [] p = ok p
add_nlas header (err text ∷ rest) p = err (query_error ("invalid link attribute framing: " <> text))
add_nlas header (ok nla ∷ rest) p = add_nlas header rest (add_parsed header nla.kind nla.parsed p)

abbrev pub first_name : List LinkAttribute → Option String
first_name [] = none
first_name (if_name name ∷ rest) = some name
first_name (a ∷ rest) = first_name rest

abbrev no_link_parts : LinkParts
no_link_parts = record { attributes = []; kind_valid = true; diagnostics = [] }

abbrev with_name : LinkHeader → LinkParts → Result ParsedLink BackendError
with_name header p =
    ok_or (first_name p.attributes) (query_error "link has no valid interface name") >>= λ name.
    ok (record {
      message = record { header = header; attributes = p.attributes };
      name = name;
      kind_valid = p.kind_valid;
      diagnostics = p.diagnostics;
    })

abbrev parse_with :
    List (Result LinkNla String) → Result LinkHeader String → Result ParsedLink BackendError
parse_with nlas (err text) = err (query_error ("invalid link header: " <> text))
parse_with nlas (ok header) = add_nlas header nlas no_link_parts >>= λ p. with_name header p

unfoldable pub parse_link : RoutePacket → Result ParsedLink BackendError
parse_link packet = parse_with packet.link_nlas packet.header

abbrev pub kind_among : List LinkInfo → Option InfoKind
kind_among [] = none
kind_among (info_kind kind ∷ rest) = some kind
kind_among (other_info n ∷ rest) = kind_among rest

-- The kind that the loops of `classify_link` come to first.
abbrev pub first_kind : List LinkAttribute → Option InfoKind
first_kind [] = none
first_kind (link_info information ∷ rest) = or_else (kind_among information) (first_kind rest)
first_kind (a ∷ rest) = first_kind rest

abbrev pub kind_text : InfoKind → String
kind_text veth = ethernet
kind_text (other_kind text) = text

abbrev among : Option (List ℕ) → ℕ → Bool
among none index = false
among (some indices) index = contains indices index

abbrev pub classify_kind : Option InfoKind → LinkHeader → Option (List ℕ) → String
classify_kind (some kind) header wireless = kind_text kind
classify_kind none header wireless =
    if is_loopback header.layer_type
    then "loopback"
    else if among wireless header.index
    then "wifi"
    else if is_ether header.layer_type && is_some wireless
    then ethernet
    else "unknown"

unfoldable pub classify_link : ParsedLink → Option (List ℕ) → String
classify_link link wireless =
    if not link.kind_valid
    then "unknown"
    else classify_kind (first_kind link.message.attributes) link.message.header wireless

-- `{byte:02x}`
abbrev hex_digits : List String
hex_digits =
    "0" ∷ "1" ∷ "2" ∷ "3" ∷ "4" ∷ "5" ∷ "6" ∷ "7" ∷ "8" ∷ "9" ∷ "a" ∷ "b" ∷ "c" ∷ "d" ∷ "e" ∷ "f"
    ∷ []

abbrev hex_digit : ℕ → String
hex_digit n = get_or hex_digits n ""

abbrev hex_byte : ℕ → String
hex_byte byte = hex_digit (byte / 16) <> hex_digit (byte % 16)

unfoldable pub format_mac : List ℕ → String
format_mac bytes = join ":" (map hex_byte bytes)

-- The fields and the MAC address that the loop of `link_state` fills.
pub record LinkFields : Type 0 where
  pub fields : Entries
  pub mac : Option String

abbrev pub add_field : LinkAttribute → LinkFields → LinkFields
add_field (mtu n) s = record s { fields = insert "mtu" (u64 n) s.fields }
add_field (carrier n) s = record s { fields = insert "carrier" (bool (n == 1)) s.fields }
add_field (mac_address bytes) s =
    if not (is_nil bytes)
    then record {
      fields = insert "mac" (string (format_mac bytes)) s.fields;
      mac = some (format_mac bytes);
    }
    else s
add_field a s = s

unfoldable pub add_fields : List LinkAttribute → LinkFields → LinkFields
add_fields [] s = s
add_fields (a ∷ rest) s = add_fields rest (add_field a s)

abbrev first_fields : ParsedLink → LinkFields
first_fields link = record {
  fields = insert "enabled" (bool link.message.header.is_up) (insert "name" (string link.name) end);
  mac = none;
}

abbrev state_with : ParsedLink → String → LinkFields → State
state_with link device_type s =
    let state = new_state kernel in
    record state {
      device_type = device_type;
      match_spec = record state.match_spec {
        name = some link.name;
        device_type = some device_type;
        mac = s.mac;
      };
      fields = s.fields;
    }

unfoldable pub link_state : ParsedLink → String → State × Option String
link_state link device_type =
    let s = add_fields link.message.attributes (first_fields link) in
    (state_with link device_type s, s.mac)
