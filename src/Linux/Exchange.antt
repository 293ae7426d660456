-- ===== src/Linux/Exchange.antt =====
-- crates/netfyr-backend/src/linux.rs: the exchanges with the kernel, and how the stream of responses
-- to a request is collected. The text of an OS error number, the bytes of a number, the attributes in
-- a byte buffer and the text up to a NUL are libraries'.
pub mod Confirmed
mod Tests
use netfyr.Base.{
  ℕ, ◌+◌, ◌-◌, String, Bool, true, false, not, ◌++◌, Option, none, some, List, [], ◌∷◌, ltb, length,
  take, drop, find, unwrap_or, option_map, option_bind, if◌then◌else◌, Result, ok, err,
}
use netfyr.Base.Bits.{bit_and, bit_or, has_bit}
use netfyr.Base.Int.{ℤ, pos, pos_part, neg_part, same_int}
use netfyr.Base.Equality.{◌==◌, nat_eq}
use netfyr.Base.Text.{is_empty_text}
use netfyr.Report.{
  BackendError, BackendErrorKind, backend_error, from_io, query_failed, apply_failed,
  outcome_unknown,
}
use netfyr.Linux.{RoutePacket}

pub data Exchange : Type 0 where
  dump read write : Exchange

-- `NLM_F_REQUEST` 1, `NLM_F_ACK` 4, `NLM_F_DUMP` 0x300.
unfoldable pub exchange_flags : Exchange → ℕ
exchange_flags dump = bit_or 1 768
exchange_flags read = bit_or 1 4
exchange_flags write = bit_or 1 4

unfoldable pub rejected : Exchange → BackendErrorKind
rejected dump = query_failed
rejected read = query_failed
rejected write = apply_failed

unfoldable pub unconfirmed : Exchange → BackendErrorKind
unconfirmed dump = query_failed
unconfirmed read = query_failed
unconfirmed write = outcome_unknown

abbrev pub is_dump : Exchange → Bool
is_dump dump = true
is_dump x = false

-- The flags of a response: `NLM_F_DUMP_INTR`, and of an error `NLM_F_CAPPED` and `NLM_F_ACK_TLVS`.
abbrev pub dump_interrupted : ℕ
dump_interrupted = 16

abbrev capped : ℕ
capped = 256

abbrev ack_tlvs : ℕ
ack_tlvs = 512

-- `align` on a 64-bit usize, with `NLA_ALIGNTO` 4.
unfoldable pub align : ℕ → Option ℕ
align length =
    if ltb 18446744073709551615 (length + 3)
    then none
    else some (bit_and (length + 3) (18446744073709551615 - 3))

-- An error without a code is an acknowledgement.
pub record ErrorMessage : Type 0 where
  pub code : Option ℤ
  pub header : List ℕ

pub record DoneMessage : Type 0 where
  pub code : ℤ
  pub extended_ack : List ℕ

pub data Payload : Type 0 where
  inner : RoutePacket → Payload
  error_response : ErrorMessage → Payload
  done : DoneMessage → Payload
  noop other_payload : Payload

pub record Response : Type 0 where
  pub flags : ℕ
  pub payload : Payload

-- An attribute of the extended acknowledgement.
pub record Nla : Type 0 where
  pub kind : ℕ
  pub value : List ℕ

-- What the source takes from libraries: the text of `io::Error::from_raw_os_error`, the error
-- number and the text of `ErrorMessage::to_io`, `u32::from_ne_bytes`, `NlasIterator`, and
-- `CStr::from_bytes_until_nul` with `to_str`.
pub record Library : Type 0 where
  pub os_error_text : ℤ → String
  pub to_io : ErrorMessage → Option ℤ × String
  pub from_ne_bytes : List ℕ → ℕ
  pub nlas : List ℕ → List (Result Nla String)
  pub c_str : List ℕ → Result String String

-- `code.abs()`
abbrev abs_code : ℤ → ℤ
abs_code c = pos (pos_part c + neg_part c)

-- `slice.get(..n)` and `slice.get(n..)`
abbrev get_first : ℕ → List ℕ → Option (List ℕ)
get_first n bytes = if ltb (length bytes) n then none else some (take n bytes)

abbrev get_from : ℕ → List ℕ → Option (List ℕ)
get_from n bytes = if ltb (length bytes) n then none else some (drop n bytes)

-- `map_while(Result::ok)`
abbrev while_ok : List (Result Nla String) → List Nla
while_ok [] = []
while_ok (ok a ∷ rest) = a ∷ while_ok rest
while_ok (err e ∷ rest) = []

-- `.ok().flatten()`
abbrev ok_flat : Result (Option String) String → Option String
ok_flat (ok text) = text
ok_flat (err e) = none

-- How the loop goes on after a message.
pub data Progress : Type 0 where
  more : List RoutePacket → Progress
  finished : Result (List RoutePacket) BackendError → Progress

module _ (library : Library) where
  abbrev non_empty : Result String String → Result (Option String) String
  non_empty (ok text) = ok (if not (is_empty_text text) then some text else none)
  non_empty (err e) = err e

  unfoldable pub c_string : List ℕ → Result (Option String) String
  c_string bytes = non_empty (library.c_str bytes)

  -- `NLMSGERR_ATTR_MSG` is 1.
  unfoldable pub extack_message : List ℕ → Option String
  extack_message attributes =
      option_bind (find (λ (a : Nla). a.kind == 1) (while_ok (library.nlas attributes)))
        (λ (a : Nla). ok_flat (c_string a.value))

  -- Where the attributes begin in the error's payload.
  abbrev pub attributes_offset : ErrorMessage → ℕ → ℕ
  attributes_offset error flags =
      if has_bit flags capped
      then 16
      else unwrap_or (option_map library.from_ne_bytes (get_first 4 error.header)) 0

  abbrev pub extack_of : ErrorMessage → ℕ → Option String
  extack_of error flags =
      option_bind
        (option_bind (align (attributes_offset error flags)) (λ start. get_from start error.header))
        extack_message

  unfoldable pub netlink_error : BackendErrorKind → ErrorMessage → ℕ → BackendError
  netlink_error fallback error flags =
      let (errno, text) = library.to_io error in
      let result = from_io fallback errno text in
      if has_bit flags ack_tlvs then record result { extack = extack_of error flags } else result

  abbrev pub done_error : Exchange → DoneMessage → BackendError
  done_error exchange m =
      let code = abs_code m.code in
      record (from_io (rejected exchange) (some code) (library.os_error_text code)) {
        extack = extack_message m.extended_ack;
      }

  abbrev unexpected : Exchange → Progress
  unexpected exchange =
      finished (err (backend_error (unconfirmed exchange) "unexpected netlink response"))

  abbrev pub take_error : Exchange → ℕ → Option ℤ → ErrorMessage → List RoutePacket → Progress
  take_error exchange flags (some code) m packets =
      finished (err (netlink_error (rejected exchange) m flags))
  take_error exchange flags none m packets =
      if not (is_dump exchange) then finished (ok packets) else more packets

  abbrev pub take_done : Exchange → DoneMessage → List RoutePacket → Progress
  take_done exchange m packets =
      if is_dump exchange
      then (if not (same_int m.code (pos 0))
          then finished (err (done_error exchange m))
          else finished (ok packets))
      else unexpected exchange

  abbrev pub take_payload : Exchange → ℕ → Payload → List RoutePacket → Progress
  take_payload exchange flags (inner packet) packets = more (packets ++ packet ∷ [])
  take_payload exchange flags (error_response m) packets =
      take_error exchange flags m.code m packets
  take_payload exchange flags (done m) packets = take_done exchange m packets
  take_payload exchange flags noop packets = more packets
  take_payload exchange flags other_payload packets = unexpected exchange

  abbrev pub take_response : Exchange → Response → List RoutePacket → Progress
  take_response exchange m packets =
      if has_bit m.flags dump_interrupted
      then finished (err (backend_error (rejected exchange) "kernel interrupted the netlink dump"))
      else take_payload exchange m.flags m.payload packets

  abbrev pub proceed :
      Progress
      → (List RoutePacket → Result (List RoutePacket) BackendError)
      → Result (List RoutePacket) BackendError
  proceed (more packets) rest = rest packets
  proceed (finished result) rest = result

  unfoldable pub collect_from :
      Exchange → List Response → List RoutePacket → Result (List RoutePacket) BackendError
  collect_from exchange [] packets =
      err (
        backend_error (unconfirmed exchange) "netlink transport closed before confirmed completion")
  collect_from exchange (m ∷ ms) packets =
      proceed (take_response exchange m packets) (λ after. collect_from exchange ms after)

  -- The responses that arrive, up to the end of the stream.
  unfoldable pub collect_response :
      Exchange → List Response → Result (List RoutePacket) BackendError
  collect_response exchange stream = collect_from exchange stream []
