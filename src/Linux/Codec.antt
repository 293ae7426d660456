-- ===== src/Linux/Codec.antt =====
-- crates/netfyr-backend/src/linux.rs: `StrictCodec`, which takes the messages of a dump off the
-- receive buffer, and fails where one cannot be read. The framing of a message and its body are
-- parsed by a library.
mod Tests
use netfyr.Base.{
  ℕ, zero, suc, ◌+◌, ◌*◌, ◌/◌, ◌^◌, ◌≤◌, ◌<◌, ◌≡◌, refl, sym, ap, ◌∙◌, subst, arith, String, Bool,
  true, false, Option, none, some, List, [], ◌∷◌, length, take, drop, ltb, leb, is_nil,
  if◌then◌else◌, Result, ok, err, Bool-cases, inl, inr,
}
use netfyr.Base.Bits.{bit_and, leading, bit_and-leading, drop_low, drop_low_lem}
use netfyr.Linux.Exchange.{align}

-- `NetlinkBuffer::new_checked` with its `length`, and `NetlinkMessage::deserialize`.
pub record Frames (M : Type 0) : Type 0 where
  pub checked_length : List ℕ → Result ℕ String
  pub deserialize : List ℕ → Result M String

-- What is documented of a checked buffer: it holds the whole message, and that its header.
abbrev pub ChecksLength : {M : Type 0} → Frames M → Type 0
ChecksLength frames =
    (bytes : List ℕ) (size : ℕ)
    → frames.checked_length bytes ≡ ok size
    → (16 ≤ size) × (size ≤ length bytes)

-- The result of a call with what is left of the buffer.
pub record Decoded (M : Type 0) : Type 0 where
  pub result : Result (Option M) String
  pub source : List ℕ

abbrev min : ℕ → ℕ → ℕ
min a b = if leb a b then a else b

module _ {M : Type 0} (frames : Frames M) where
  abbrev as_packet : Result M String → Result (Option M) String
  as_packet (ok packet) = ok (some packet)
  as_packet (err text) = err text

  abbrev pub split_frame : List ℕ → ℕ → Option ℕ → Decoded M
  split_frame source size none = record {
    result = err "netlink message length overflow";
    source = source;
  }
  split_frame source size (some aligned) =
      let frame = take (min aligned (length source)) source in
      record {
        result = as_packet (frames.deserialize (take size frame));
        source = drop (min aligned (length source)) source;
      }

  abbrev pub decode_checked : List ℕ → Result ℕ String → Decoded M
  decode_checked source (err text) = record { result = err text; source = source }
  decode_checked source (ok size) = split_frame source size (align size)

  unfoldable pub decode : List ℕ → Decoded M
  decode source =
      if is_nil source
      then record { result = ok none; source = source }
      else decode_checked source (frames.checked_length source)

length-drop : (n : ℕ) (bytes : List ℕ) → n ≤ length bytes → length (drop n bytes) + n ≡ length bytes
length-drop zero bytes h = omega arith
length-drop (suc n) [] h = omega arith
length-drop (suc n) (b ∷ bytes) h = omega (arith, length-drop n bytes (omega arith))

align_bound : (n aligned : ℕ) → align n ≡ some aligned → (n ≤ aligned) × (aligned ≡ (n + 3) / 4 * 4)
unfolding align
align_bound n aligned h = elim (Bool-cases (ltb 18446744073709551615 (n + 3))) [
  | inl over ↦ let no : none ≡ some aligned = rw over at h in cc
  | inr fits ↦
      let small : n + 3 < 2 ^ (62 + 2) = ground arith in
      let e : some (bit_and (n + 3) (leading 62 2)) ≡ some aligned = rw fits at h in
      let same : bit_and (n + 3) (leading 62 2) ≡ aligned = cc in
      let rounded : bit_and (n + 3) (leading 62 2) ≡ (n + 3) / 2 ^ 2 * 2 ^ 2 =
        bit_and-leading 62 2 (n + 3) small ∙ drop_low_lem 2 (n + 3) in
      let four : aligned ≡ (n + 3) / 4 * 4 = sym same ∙ rounded in (omega (arith, four), four)
]

-- Calls that each take a packet off the buffer, one after the other.
pub data Packets {M : Type 0} (frames : Frames M) (source : List ℕ) : ℕ → List ℕ → Type 0 where
  first : Packets frames source 0 source
  next :
      {n : ℕ} {rest : List ℕ}
      → Packets frames source n rest
      → (packet : M) → (decode frames rest).result ≡ ok (some packet)
      → Packets frames source (suc n) (decode frames rest).source

module _ {M : Type 0} (frames : Frames M) where
  min_bound :
      (size aligned most : ℕ)
      → size ≤ aligned
      → size ≤ most
      → (size ≤ min aligned most) × (min aligned most ≤ most)
  min_bound size aligned most h g = ground arith

  split_shrinks :
      (source : List ℕ) (size : ℕ) (aligned : Option ℕ) (packet : M)
      → align size ≡ aligned
      → (16 ≤ size) × (size ≤ length source)
      → (split_frame frames source size aligned).result ≡ ok (some packet)
      → length (split_frame frames source size aligned).source + 16 ≤ length source
  split_shrinks source size none packet e h g = cc
  split_shrinks source size (some aligned) packet e (least, most) g =
      let (over, _) = align_bound size aligned e in
      let (low, high) = min_bound size aligned (length source) over most in
      let dropped = length-drop (min aligned (length source)) source high in
      omega (arith, dropped, low, least)

  decode-shrinks :
      (source : List ℕ) (packet : M)
      → ChecksLength frames
      → (decode frames source).result ≡ ok (some packet)
      → length (decode frames source).source + 16 ≤ length source
  unfolding decode
  decode-shrinks source packet checks h = elim (Bool-cases (is_nil source)) [
    | inl empty ↦ let no : ok none ≡ ok (some packet) = rw empty at h in cc
    | inr full ↦ rw full (checked_shrinks (frames.checked_length source) refl (rw full at h))
  ]
    where
      checked_shrinks :
          (r : Result ℕ String)
          → frames.checked_length source ≡ r
          → (decode_checked frames source r).result ≡ ok (some packet)
          → length (decode_checked frames source r).source + 16 ≤ length source
      checked_shrinks (err text) e g = cc
      checked_shrinks (ok size) e g =
          split_shrinks source size (align size) packet refl (checks source size e) g

-- Where a checked buffer is one that holds a header and its whole message, decoding comes to an end:
-- each packet takes at least a header's 16 bytes off the buffer, so no
-- more packets are decoded than the buffer has room for.
pub decode_ends :
    {M : Type 0} (frames : Frames M) (source rest : List ℕ) (n : ℕ)
    → ChecksLength frames
    → Packets frames source n rest
    → n * 16 + length rest ≤ length source
decode_ends frames source rest n checks first = omega arith
decode_ends frames source rest n checks (next {n = m} {rest = before} before_that packet h) =
    omega (
      arith,
      decode-shrinks frames before packet checks h,
      decode_ends frames source before m checks before_that,
    )
