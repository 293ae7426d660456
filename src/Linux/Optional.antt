-- ===== src/Linux/Optional.antt =====
-- crates/netfyr-backend/src/linux.rs: what is asked of the optional connections, the wireless
-- interfaces and the link modes of Ethernet devices.
use netfyr.Base.{
  ℕ, ◌+◌, String, Bool, true, false, not, ◌&&◌, ◌||◌, ◌++◌, List, [], ◌∷◌, any, is_nil,
  if◌then◌else◌, Result, ok, err,
}
use netfyr.Base.Bits.{has_bit}
use netfyr.Base.Int.{ℤ, pos, pos_part, neg_part, same_int}
use netfyr.Base.Equality.{◌==◌, nat_eq}
use netfyr.Base.Text.{◌<>◌, decimal}
use netfyr.Value.{Entries, end, string, u64, bool}
use netfyr.Value.Map.{insert}
use netfyr.Report.{BackendError, backend_error, query_failed}
use netfyr.Linux.Exchange.{dump_interrupted}

pub data WirelessAttribute : Type 0 where
  if_index : ℕ → WirelessAttribute
  other_wireless : ℕ → WirelessAttribute

pub data WirelessPayload : Type 0 where
  interfaces : List WirelessAttribute → WirelessPayload
  wireless_done : (code : ℤ) → WirelessPayload
  wireless_error : (has_code : Bool) → String → WirelessPayload
  wireless_noop other_payload : WirelessPayload

-- A response, or the text of why it could not be read.
pub record WirelessResponse : Type 0 where
  pub flags : ℕ
  pub payload : WirelessPayload

-- The request's end: too late, no such family, another error, or responses.
pub data WirelessAnswer : Type 0 where
  wireless_timed_out no_family : WirelessAnswer
  wireless_failed : String → WirelessAnswer
  wireless_responses : List (Result WirelessResponse String) → WirelessAnswer

abbrev add_indices : List WirelessAttribute → List ℕ → List ℕ
add_indices [] indices = indices
add_indices (if_index n ∷ rest) indices = add_indices rest (n ∷ indices)
add_indices (other_wireless n ∷ rest) indices = add_indices rest indices

abbrev pub take_wireless :
    WirelessPayload → List ℕ → (List ℕ → Result (List ℕ) String) → Result (List ℕ) String
take_wireless (interfaces attributes) indices go_on = go_on (add_indices attributes indices)
take_wireless (wireless_done code) indices go_on =
    if same_int code (pos 0) then ok indices else err "unexpected wireless inventory response"
take_wireless (wireless_error true text) indices go_on = err ("wireless inventory failed: " <> text)
take_wireless (wireless_error false text) indices go_on =
    err "unexpected wireless inventory response"
take_wireless wireless_noop indices go_on = go_on indices
take_wireless other_payload indices go_on = err "unexpected wireless inventory response"

unfoldable pub collect_wireless :
    List (Result WirelessResponse String) → List ℕ → Result (List ℕ) String
collect_wireless [] indices = err "wireless inventory closed without completion"
collect_wireless (err text ∷ rest) indices = err ("invalid wireless inventory: " <> text)
collect_wireless (ok m ∷ rest) indices =
    if has_bit m.flags dump_interrupted
    then err "wireless inventory interrupted"
    else take_wireless m.payload indices (λ after. collect_wireless rest after)

-- `wireless_indices` of a transport with a wireless connection.
unfoldable pub wireless_indices : WirelessAnswer → Result (List ℕ) String
wireless_indices wireless_timed_out = err "wireless identification timed out"
wireless_indices no_family = ok []
wireless_indices (wireless_failed text) = err ("wireless identification failed: " <> text)
wireless_indices (wireless_responses stream) = collect_wireless stream []

abbrev pub no_wireless : String
no_wireless =
    "wireless identification unavailable; unclassified Ethernet link-layer devices are read-only"

pub data Duplex : Type 0 where
  full half unknown_duplex : Duplex
  other_duplex : ℕ → Duplex

pub data LinkModeAttribute : Type 0 where
  speed : ℕ → LinkModeAttribute
  autoneg : Bool → LinkModeAttribute
  duplex : Duplex → LinkModeAttribute
  other_mode : ℕ → LinkModeAttribute

-- An attribute of a link-mode message: the indices in a header, a link mode, or another one.
pub data EthtoolAttribute : Type 0 where
  dev_indices : List ℕ → EthtoolAttribute
  link_mode : LinkModeAttribute → EthtoolAttribute
  other_ethtool : ℕ → EthtoolAttribute

-- How the stream of messages ends: it is over, with an error's code, with another error, too late.
pub data EthtoolEnd : Type 0 where
  completed ethtool_timed_out : EthtoolEnd
  netlink_failed : (raw_code : ℤ) → String → EthtoolEnd
  ethtool_failed : String → EthtoolEnd

pub record EthtoolAnswer : Type 0 where
  pub messages : List (List EthtoolAttribute)
  pub ending : EthtoolEnd

-- The fields and the diagnostics that the messages add to.
pub record Attributes : Type 0 where
  pub fields : Entries
  pub diagnostics : List String

abbrev set_duplex : String → Attributes → Attributes
set_duplex text s = record s { fields = insert "duplex" (string text) s.fields }

unfoldable pub enrich_ethernet : LinkModeAttribute → Attributes → Attributes
enrich_ethernet (speed n) s =
    if not (n == 4294967295) && not (n == 0)
    then record s { fields = insert "speed" (u64 n) s.fields }
    else s
enrich_ethernet (autoneg enabled) s = record s { fields = insert "autoneg" (bool enabled) s.fields }
enrich_ethernet (duplex full) s = set_duplex "full" s
enrich_ethernet (duplex half) s = set_duplex "half" s
enrich_ethernet (duplex unknown_duplex) s = set_duplex "unknown" s
enrich_ethernet (duplex (other_duplex value)) s = record s {
  diagnostics = s.diagnostics ++ ("invalid duplex value " <> decimal value) ∷ [];
}
enrich_ethernet (other_mode n) s = s

-- Whether the answer is of another device, and what was read.
pub record Progress : Type 0 where
  pub other_device : Bool
  pub attributes : Attributes

abbrev take_ethtool : ℕ → EthtoolAttribute → Attributes → Progress
take_ethtool index (dev_indices indices) s = record {
  other_device = any (λ other. not (other == index)) indices;
  attributes = s;
}
take_ethtool index (link_mode a) s = record {
  other_device = false;
  attributes = enrich_ethernet a s;
}
take_ethtool index (other_ethtool n) s = record { other_device = false; attributes = s }

unfoldable pub take_nlas : ℕ → List EthtoolAttribute → Attributes → Progress
take_nlas index [] s = record { other_device = false; attributes = s }
take_nlas index (a ∷ rest) s =
    let p = take_ethtool index a s in
    let after = take_nlas index rest p.attributes in if p.other_device then p else after

unfoldable pub take_messages : ℕ → List (List EthtoolAttribute) → Attributes → Progress
take_messages index [] s = record { other_device = false; attributes = s }
take_messages index (m ∷ rest) s =
    let p = take_nlas index m s in
    let after = take_messages index rest p.attributes in if p.other_device then p else after

abbrev pub renamed_during_inventory : BackendError
renamed_during_inventory =
    backend_error query_failed "interface renamed during inventory; query again"

abbrev push_text : String → Attributes → Attributes
push_text text s = record s { diagnostics = s.diagnostics ++ text ∷ [] }

-- `EOPNOTSUPP` 95, `ENODEV` 19, `ENOENT` 2.
abbrev is_absent : ℤ → Bool
is_absent c =
    let code = pos (pos_part c + neg_part c) in
    same_int code (pos 95) || same_int code (pos 19) || same_int code (pos 2)

abbrev end_attributes : Bool → EthtoolEnd → Attributes → Attributes
end_attributes true completed s = s
end_attributes false completed s = push_text "ethtool returned no link-mode observation" s
end_attributes received (netlink_failed code text) s =
    if is_absent code then s else push_text ("ethtool link-mode query failed: " <> text) s
end_attributes received (ethtool_failed text) s =
    push_text ("ethtool link-mode query failed: " <> text) s
end_attributes received ethtool_timed_out s = push_text "ethtool link-mode query timed out" s

abbrev pub no_attributes : Attributes
no_attributes = record { fields = end; diagnostics = [] }

unfoldable pub ethernet_attributes : ℕ → EthtoolAnswer → Result Attributes BackendError
ethernet_attributes index answer =
    let p = take_messages index answer.messages no_attributes in
    if p.other_device
    then err renamed_during_inventory
    else ok (end_attributes (not (is_nil answer.messages)) answer.ending p.attributes)
