-- ===== src/Storage/Coding.antt =====
-- util/coding.h: little-endian words. A `char*` is a list of bytes; a read past its end, which the
-- source would make outside the buffer, yields 0 here and is never reached from `Entry::Decode`.
use Prim.Native.Nat.{bit_or}
use lightdb.Common.Bits.{bit_or-shifted}
use lightdb.Common.{
  ℕ, zero, suc, ◌+◌, ◌*◌, ◌/◌, ◌%◌, ◌^◌, ◌<◌, ◌≡◌, [], ◌∷◌, ◌++◌, Str, arith, drop,
}

-- `static_cast<uint8_t>(value >> k)`
abbrev pub byte_of : ℕ → ℕ → ℕ
byte_of value k = value / 2 ^ k % 256

abbrev pub buffer_at : Str → ℕ → ℕ
buffer_at [] i = 0
buffer_at (x ∷ xs) zero = x
buffer_at (x ∷ xs) (suc i) = buffer_at xs i

unfoldable pub encode_fixed16 : ℕ → Str
encode_fixed16 value = byte_of value 0 ∷ byte_of value 8 ∷ []

unfoldable pub decode_fixed16 : Str → ℕ
decode_fixed16 ptr = bit_or (buffer_at ptr 0) (buffer_at ptr 1 * 2 ^ 8)

unfoldable pub encode_fixed32 : ℕ → Str
encode_fixed32 value = byte_of value 0 ∷ byte_of value 8 ∷ byte_of value 16 ∷ byte_of value 24 ∷ []

unfoldable pub decode_fixed32 : Str → ℕ
decode_fixed32 ptr =
    bit_or (bit_or (bit_or (buffer_at ptr 0) (buffer_at ptr 1 * 2 ^ 8)) (buffer_at ptr 2 * 2 ^ 16))
      (buffer_at ptr 3 * 2 ^ 24)

unfoldable pub encode_fixed64 : ℕ → Str
encode_fixed64 value =
    byte_of value 0
    ∷ byte_of value 8
    ∷ byte_of value 16
    ∷ byte_of value 24
    ∷ byte_of value 32
    ∷ byte_of value 40
    ∷ byte_of value 48
    ∷ byte_of value 56
    ∷ []

unfoldable pub decode_fixed64 : Str → ℕ
decode_fixed64 ptr =
    let b0 = buffer_at ptr 0 in
    let b1 = bit_or b0 (buffer_at ptr 1 * 2 ^ 8) in
    let b2 = bit_or b1 (buffer_at ptr 2 * 2 ^ 16) in
    let b3 = bit_or b2 (buffer_at ptr 3 * 2 ^ 24) in
    let b4 = bit_or b3 (buffer_at ptr 4 * 2 ^ 32) in
    let b5 = bit_or b4 (buffer_at ptr 5 * 2 ^ 40) in
    let b6 = bit_or b5 (buffer_at ptr 6 * 2 ^ 48) in bit_or b6 (buffer_at ptr 7 * 2 ^ 56)

unfoldable pub put_fixed16 : Str → ℕ → Str
unfolding encode_fixed16
put_fixed16 dst value = dst ++ encode_fixed16 value

unfoldable pub put_fixed32 : Str → ℕ → Str
unfolding encode_fixed32
put_fixed32 dst value = dst ++ encode_fixed32 value

unfoldable pub put_fixed64 : Str → ℕ → Str
unfolding encode_fixed64
put_fixed64 dst value = dst ++ encode_fixed64 value

-- The words that bytes stand for.
pub decode_fixed16-of_bytes :
    (a b : ℕ) (rest : Str) → a < 256 → decode_fixed16 (a ∷ b ∷ rest) ≡ a + b * 2 ^ 8
unfolding decode_fixed16
decode_fixed16-of_bytes a b rest h = bit_or-shifted 8 a b h

pub decode_fixed16-encode_fixed16 :
    (v : ℕ) (rest : Str) → v < 2 ^ 16 → decode_fixed16 (encode_fixed16 v ++ rest) ≡ v
unfolding encode_fixed16
decode_fixed16-encode_fixed16 v rest h =
    omega (arith, decode_fixed16-of_bytes (byte_of v 0) (byte_of v 8) rest (omega arith))

pub decode_fixed32-of_bytes :
    (a b c d : ℕ) (rest : Str)
    → a < 256
    → b < 256
    → c < 256
    → decode_fixed32 (a ∷ b ∷ c ∷ d ∷ rest) ≡ a + b * 2 ^ 8 + c * 2 ^ 16 + d * 2 ^ 24
unfolding decode_fixed32
decode_fixed32-of_bytes a b c d rest ha hb hc = rw (
  bit_or-shifted 8 a b ha,
  bit_or-shifted 16 (a + b * 2 ^ 8) c (omega arith),
  bit_or-shifted 24 (a + b * 2 ^ 8 + c * 2 ^ 16) d (omega arith),
)

pub decode_fixed32-encode_fixed32 :
    (v : ℕ) (rest : Str) → v < 2 ^ 32 → decode_fixed32 (encode_fixed32 v ++ rest) ≡ v
unfolding encode_fixed32
decode_fixed32-encode_fixed32 v rest h = omega (
  arith,
  decode_fixed32-of_bytes (byte_of v 0) (byte_of v 8) (byte_of v 16) (byte_of v 24) rest
      (omega arith) (omega arith) (omega arith),
)

pub decode_fixed64-of_bytes :
    (a b c d e f g h : ℕ) (rest : Str)
    → (a < 256) × (b < 256) × (c < 256) × (d < 256) × (e < 256) × (f < 256) × (g < 256)
    → decode_fixed64 (a ∷ b ∷ c ∷ d ∷ e ∷ f ∷ g ∷ h ∷ rest)
      ≡ a + b * 2 ^ 8 + c * 2 ^ 16 + d * 2 ^ 24 + e * 2 ^ 32 + f * 2 ^ 40 + g * 2 ^ 48 + h * 2 ^ 56
unfolding decode_fixed64
decode_fixed64-of_bytes a b c d e f g h rest l =
    let s1 = a + b * 2 ^ 8 in
    let s2 = s1 + c * 2 ^ 16 in
    let s3 = s2 + d * 2 ^ 24 in
    let s4 = s3 + e * 2 ^ 32 in
    let s5 = s4 + f * 2 ^ 40 in
    let s6 = s5 + g * 2 ^ 48 in
    rw (
      bit_or-shifted 8 a b l.0,
      bit_or-shifted 16 s1 c (omega arith),
      bit_or-shifted 24 s2 d (omega arith),
      bit_or-shifted 32 s3 e (omega arith),
      bit_or-shifted 40 s4 f (omega arith),
      bit_or-shifted 48 s5 g (omega arith),
      bit_or-shifted 56 s6 h (omega arith),
    )

-- A number below 2^64 that `EncodeFixed64` writes is what `DecodeFixed64` reads, whatever follows.
pub decode_fixed64-encode_fixed64 :
    (v : ℕ) (rest : Str) → v < 2 ^ 64 → decode_fixed64 (encode_fixed64 v ++ rest) ≡ v
unfolding encode_fixed64
decode_fixed64-encode_fixed64 v rest h = omega (
  arith,
  decode_fixed64-of_bytes (byte_of v 0) (byte_of v 8) (byte_of v 16) (byte_of v 24) (byte_of v 32)
      (byte_of v 40) (byte_of v 48) (byte_of v 56) rest (omega arith),
)

-- A 64-bit read that begins in the middle of one word and ends in the middle of the next.
pub decode_fixed64-across :
    (v w : ℕ) (rest : Str)
    → v < 2 ^ 64
    → w < 2 ^ 64
    → decode_fixed64 (drop 4 (encode_fixed64 v ++ (encode_fixed64 w ++ rest)))
      ≡ v / 2 ^ 32 + w % 2 ^ 32 * 2 ^ 32
unfolding encode_fixed64
decode_fixed64-across v w rest hv hw = omega (
  arith,
  decode_fixed64-of_bytes (byte_of v 32) (byte_of v 40) (byte_of v 48) (byte_of v 56) (byte_of w 0)
      (byte_of w 8) (byte_of w 16) (byte_of w 24)
      (byte_of w 32 ∷ byte_of w 40 ∷ byte_of w 48 ∷ byte_of w 56 ∷ rest) (omega arith),
)
