-- ===== src/Storage/Crc.antt =====
-- util/crc.h: `CRC_Compute`. The register is a `uint32_t`; `data[i]` is a signed `char`.
use Prim.Native.Nat.{bit_and, bit_xor}
use lightdb.Common.Bits.{bit_and-mask}
use lightdb.Common.{
  ℕ, zero, suc, ◌-◌, ◌*◌, ◌%◌, ◌^◌, ◌<◌, ◌==◌, ltb, refl, [], ◌∷◌, Str, arith, if◌then◌else◌,
}

abbrev pub mask : ℕ
mask = 0x1021

-- `data[i] << 8`: the byte promoted to `int`, shifted, and taken as a `uint32_t`
abbrev pub shifted : ℕ → ℕ
shifted b = if ltb b 128 then b * 256 else 2 ^ 32 - (256 - b) * 256

unfoldable pub crc_bit : ℕ → ℕ
crc_bit rst = if bit_and rst 0x8000 == 0 then rst * 2 % 2 ^ 32 else bit_xor (rst * 2 % 2 ^ 32) mask

unfoldable pub crc_bits : ℕ → ℕ → ℕ
unfolding crc_bit
crc_bits zero rst = rst
crc_bits (suc j) rst = crc_bits j (crc_bit rst)

unfoldable pub crc_loop : Str → ℕ → ℕ
unfolding crc_bits
crc_loop [] rst = rst
crc_loop (b ∷ data') rst = crc_loop data' (crc_bits 8 (bit_xor rst (shifted b)))

unfoldable pub crc_compute : Str → ℕ
unfolding crc_loop
crc_compute text = bit_and (crc_loop text 0) 0xFFFF

pub crc_compute-lt : (text : Str) → crc_compute text < 2 ^ 16
unfolding crc_compute
crc_compute-lt text = omega (arith, bit_and-mask 16 0xFFFF (crc_loop text 0) refl)
