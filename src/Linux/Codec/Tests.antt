-- ===== src/Linux/Codec/Tests.antt =====
-- A buffer of two messages of 16 and 18 bytes, the second one padded to 20.
use netfyr.Base.{
  ℕ, ◌+◌, ◌*◌, ◌≤◌, ◌≡◌, refl, List, [], ◌∷◌, replicate, length, ok, err, leb, if◌then◌else◌,
  String, Result, arith,
}
use netfyr.Linux.Codec.{Frames, ChecksLength, decode, Packets, first, next, decode_ends}

abbrev first_byte : List ℕ → ℕ
first_byte [] = 0
first_byte (b ∷ bytes) = b

abbrev length_checked : ℕ → ℕ → Result ℕ String
length_checked size most =
    if leb 16 size
    then (if leb size most then ok size else err "length exceeds the buffer")
    else err "length below the header's"

-- The first byte is the length; the message is its bytes.
abbrev framed : Frames (List ℕ)
framed = record {
  checked_length = λ bytes. length_checked (first_byte bytes) (length bytes);
  deserialize = λ bytes. ok bytes;
}

length_checked-bounds : (size most n : ℕ) → length_checked size most ≡ ok n → (16 ≤ n) × (n ≤ most)
length_checked-bounds size most n h = ground arith

framed-ChecksLength : ChecksLength framed
framed-ChecksLength bytes size h = length_checked-bounds (first_byte bytes) (length bytes) size h

abbrev short : List ℕ
short = 16 ∷ replicate 15 0

abbrev padded : List ℕ
padded = 18 ∷ replicate 19 0

abbrev both : List ℕ
both = 16 ∷ 0 ∷ 0 ∷ 0 ∷ 0 ∷ 0 ∷ 0 ∷ 0 ∷ 0 ∷ 0 ∷ 0 ∷ 0 ∷ 0 ∷ 0 ∷ 0 ∷ 0 ∷ padded

both-Packets : Packets framed both 2 []
unfolding decode netfyr.Linux.Exchange.align
both-Packets = next (next first short refl) (18 ∷ replicate 17 0) refl

decode_ends_example : 2 * 16 + length {A = ℕ} [] ≤ length both
decode_ends_example = decode_ends framed both [] 2 framed-ChecksLength both-Packets
