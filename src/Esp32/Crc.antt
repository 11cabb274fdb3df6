-- ===== src/Esp32/Crc.antt =====
-- `crc8_maxim` of protocol.py. A byte is a number below 256, `x << 1` is `x * 2`, and
-- `x & 0xFF` is `x % 256`.
use mathlib.Core.List.{foldl}
use salus_robot.Prelude.{
  ℕ, zero, suc, ◌*◌, ◌%◌, ◌<◌, ◌≡◌, arith, refl, List, [], ◌∷◌, bit_and, bit_xor, ◌==◌,
  if◌then◌else◌,
}

-- One round of the inner `for`.
unfoldable pub crc8_bit : ℕ → ℕ
crc8_bit crc = if bit_and crc 0x80 == 0 then crc * 2 % 256 else bit_xor (crc * 2) 0x31 % 256

crc8_bits : ℕ → ℕ → ℕ
crc8_bits zero crc = crc
crc8_bits (suc n) crc = crc8_bits n (crc8_bit crc)

crc8_byte : ℕ → ℕ → ℕ
unfolding crc8_bit crc8_bits
crc8_byte crc byte = crc8_bits 8 (bit_xor crc byte)

unfoldable pub crc8_maxim : List ℕ → ℕ
unfolding crc8_byte
crc8_maxim data' = foldl crc8_byte 0 data'

crc8_maxim_check : crc8_maxim (0x31 ∷ 0x32 ∷ 0x33 ∷ []) ≡ 0x66
unfolding crc8_maxim
crc8_maxim_check = refl

crc8_bits-lt : (n crc : ℕ) → crc8_bits (suc n) crc < 256
unfolding crc8_bits crc8_bit
crc8_bits-lt zero crc = ground arith
crc8_bits-lt (suc n) crc = crc8_bits-lt n (crc8_bit crc)

foldl-crc8_byte-lt : (crc : ℕ) (bytes : List ℕ) → crc < 256 → foldl crc8_byte crc bytes < 256
foldl-crc8_byte-lt crc [] h = h
foldl-crc8_byte-lt crc (b ∷ bytes) h =
    foldl-crc8_byte-lt (crc8_byte crc b) bytes (unfold crc8_byte in crc8_bits-lt 7 (bit_xor crc b))

pub crc8_maxim-lt : (bytes : List ℕ) → crc8_maxim bytes < 256
unfolding crc8_maxim
crc8_maxim-lt bytes = foldl-crc8_byte-lt 0 bytes (omega arith)
