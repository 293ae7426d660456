-- ===== src/Linux/Exchange/Confirmed.antt =====
-- When a request counts as answered.
use mathlib.Core.List.{append_assoc, append-nil}
use netfyr.Base.{
  ℕ, ◌≡◌, refl, sym, ap, ◌∙◌, ◌↔◌, true, false, ◌++◌, Option, none, some, List, [], ◌∷◌, All,
  Result, ok, err, Bool-cases, inl, inr,
}
use netfyr.Base.Bits.{has_bit}
use netfyr.Base.Int.{ℤ, pos, same_int, same_int_iff}
use netfyr.Report.{BackendError}
use netfyr.Linux.{RoutePacket}
use netfyr.Linux.Exchange.{
  Exchange, is_dump, dump_interrupted, Payload, inner, error_response, done, noop, other_payload,
  Response, Library, take_error, take_payload, collect_from, proceed, collect_response,
}

-- A response with which the exchange goes on: a packet, nothing, or in a dump an acknowledgement.
abbrev pub Continues : Exchange → Payload → Type 0
Continues x (inner p) = Unit
Continues x (error_response m) = (m.code ≡ none) × (is_dump x ≡ true)
Continues x noop = Unit
Continues x other = ⊥

-- The response that confirms the end: a dump's completion with code 0, else an acknowledgement.
abbrev pub Confirms : Exchange → Payload → Type 0
Confirms x (error_response m) = (m.code ≡ none) × (is_dump x ≡ false)
Confirms x (done m) = (m.code ≡ pos 0) × (is_dump x ≡ true)
Confirms x other = ⊥

abbrev pub IsWhole : Response → Type 0
IsWhole m = has_bit m.flags dump_interrupted ≡ false

abbrev packets_in : Payload → List RoutePacket
packets_in (inner p) = p ∷ []
packets_in other = []

abbrev pub packets_of : List Response → List RoutePacket
packets_of [] = []
packets_of (m ∷ ms) = packets_in m.payload ++ packets_of ms

-- The stream has a response that confirms the end, after others that continue and whose packets
-- are these; what follows it is not read. No response up to it says that a dump was interrupted.
pub record IsConfirmed (x : Exchange) (stream : List Response) (packets : List RoutePacket)
    : Type 0 where
  before : List Response
  last : Response
  rest : List Response
  split : stream ≡ before ++ last ∷ rest
  continue : All (λ m. IsWhole m × Continues x m.payload) before
  confirm : IsWhole last × Confirms x last.payload
  packets_before : packets ≡ packets_of before

module _ (library : Library) (x : Exchange) where
  -- How the loop can come to a result after a payload.
  data Outcome (payload : Payload) (acc ps : List RoutePacket)
      (rest : List RoutePacket → Result (List RoutePacket) BackendError) : Type 0 where
    goes :
        Continues x payload → rest (acc ++ packets_in payload) ≡ ok ps → Outcome payload acc ps rest
    stops : Confirms x payload → acc ≡ ps → Outcome payload acc ps rest

  payload-Outcome :
      (flags : ℕ) (payload : Payload) (acc ps : List RoutePacket)
      (rest : List RoutePacket → Result (List RoutePacket) BackendError)
      → proceed library (take_payload library x flags payload acc) rest ≡ ok ps
      → Outcome payload acc ps rest
  payload-Outcome flags (inner p) acc ps rest h = goes tt h
  payload-Outcome flags noop acc ps rest h = goes tt (rw (append-nil acc) h)
  payload-Outcome flags other_payload acc ps rest h = cc
  payload-Outcome flags (error_response m) acc ps rest h = error_Outcome m.code refl h
    where
      error_Outcome :
          (code : Option ℤ)
          → code ≡ m.code
          → proceed library (take_error library x flags code m acc) rest ≡ ok ps
          → Outcome (error_response m) acc ps rest
      error_Outcome (some c) e g = cc
      error_Outcome none e g = elim (Bool-cases (is_dump x)) [
        | inl yes_dump ↦ goes (sym e, yes_dump) (rw (append-nil acc) (rw yes_dump at g))
        | inr no_dump ↦ let same : ok acc ≡ ok ps = rw no_dump at g in stops (sym e, no_dump) (cc)
      ]
  payload-Outcome flags (done m) acc ps rest h = elim (Bool-cases (is_dump x)) [
    | inl yes_dump ↦ elim (Bool-cases (same_int m.code (pos 0))) [
      | inl zero_code ↦
          let same : ok acc ≡ ok ps = rw (yes_dump, zero_code) at h in
          stops ((same_int_iff m.code (pos 0)).0 zero_code, yes_dump) (cc)
      | inr other_code ↦ let no : err _ ≡ ok ps = rw (yes_dump, other_code) at h in cc
    ]
    | inr no_dump ↦ let no : err _ ≡ ok ps = rw no_dump at h in cc
  ]

  data Found (stream : List Response) (acc ps : List RoutePacket) : Type 0 where
    found : (qs : List RoutePacket) → IsConfirmed x stream qs → ps ≡ acc ++ qs → Found stream acc ps

  collect_from-Found :
      (stream : List Response) (acc ps : List RoutePacket)
      → collect_from library x stream acc ≡ ok ps
      → Found stream acc ps
  unfolding collect_from
  collect_from-Found [] acc ps h = cc
  collect_from-Found (m ∷ ms) acc ps h = elim (Bool-cases (has_bit m.flags dump_interrupted)) [
    | inl torn ↦ let no : err _ ≡ ok ps = rw torn at h in cc
    | inr whole ↦
        elim (payload-Outcome m.flags m.payload acc ps (λ after. collect_from library x ms after)
          (rw whole at h)) [
            | stops confirms same ↦
                found []
                  (record {
                    before = [];
                    last = m;
                    rest = ms;
                    split = refl;
                    continue = tt;
                    confirm = (whole, confirms);
                    packets_before = refl;
                  })
                  (sym same ∙ sym (append-nil acc))
            | goes continues later ↦
                elim (collect_from-Found ms (acc ++ packets_in m.payload) ps later) [
                  | found qs c e ↦
                      found (packets_in m.payload ++ qs)
                        (record {
                          before = m ∷ c.before;
                          last = c.last;
                          rest = c.rest;
                          split = ap (λ l. m ∷ l) c.split;
                          continue = ((whole, continues), c.continue);
                          confirm = c.confirm;
                          packets_before = ap (λ l. packets_in m.payload ++ l) c.packets_before;
                        })
                        (e ∙ append_assoc acc (packets_in m.payload) qs)
                ]
          ]
  ]

  -- The loop goes on, or comes to its result, as the payload says.
  proceed-Continues :
      (flags : ℕ) (payload : Payload) (acc : List RoutePacket)
      (rest : List RoutePacket → Result (List RoutePacket) BackendError)
      → Continues x payload
      → proceed library (take_payload library x flags payload acc) rest
        ≡ rest (acc ++ packets_in payload)
  proceed-Continues flags (inner p) acc rest c = refl
  proceed-Continues flags noop acc rest c = ap rest (sym (append-nil acc))
  proceed-Continues flags (error_response m) acc rest (no_code, is_dumped) =
      rw (no_code, is_dumped) (ap rest (sym (append-nil acc)))
  proceed-Continues flags (done m) acc rest c = absurd c
  proceed-Continues flags other_payload acc rest c = absurd c

  proceed-Confirms :
      (flags : ℕ) (payload : Payload) (acc : List RoutePacket)
      (rest : List RoutePacket → Result (List RoutePacket) BackendError)
      → Confirms x payload
      → proceed library (take_payload library x flags payload acc) rest ≡ ok acc
  proceed-Confirms flags (error_response m) acc rest (no_code, not_dump) =
      rw (no_code, not_dump) refl
  proceed-Confirms flags (done m) acc rest (zero_code, is_dumped) =
      rw (is_dumped, (same_int_iff m.code (pos 0)).1 zero_code) refl
  proceed-Confirms flags (inner p) acc rest c = absurd c
  proceed-Confirms flags noop acc rest c = absurd c
  proceed-Confirms flags other_payload acc rest c = absurd c

  collect_from-split :
      (before : List Response) (last : Response) (rest : List Response) (acc : List RoutePacket)
      → All (λ m. IsWhole m × Continues x m.payload) before
      → IsWhole last × Confirms x last.payload
      → collect_from library x (before ++ last ∷ rest) acc ≡ ok (acc ++ packets_of before)
  unfolding collect_from
  collect_from-split [] last rest acc c (whole, confirms) =
      rw (whole, append-nil acc)
        (proceed-Confirms last.flags last.payload acc (λ after. collect_from library x rest after)
          confirms)
  collect_from-split (m ∷ before) last rest acc ((whole, continues), later) confirm = rw whole (
      proceed-Continues m.flags m.payload acc
        (λ after. collect_from library x (before ++ last ∷ rest) after) continues
      ∙ collect_from-split before last rest (acc ++ packets_in m.payload) later confirm
      ∙ ap ok (append_assoc acc (packets_in m.payload) (packets_of before)))

-- Collecting the responses gives packets exactly when the stream is confirmed with these packets:
-- an interrupted, rejected or unfinished exchange never gives a shortened list.
pub collect_response_iff :
    (library : Library) (x : Exchange) (stream : List Response) (ps : List RoutePacket)
    → (collect_response library x stream ≡ ok ps) ↔ IsConfirmed x stream ps
unfolding collect_response
collect_response_iff library x stream ps = (
  λ h. elim (collect_from-Found library x stream [] ps h) [ found qs c e ↦ rw e c ],
  λ c.
      rw (c.split, c.packets_before)
        (collect_from-split library x c.before c.last c.rest [] c.continue c.confirm),
)
