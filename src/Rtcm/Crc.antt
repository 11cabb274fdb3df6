-- ===== src/Rtcm/Crc.antt =====
-- `crc24q` of rtk_domain.py. `x << k` is `x * 2 ^ k`.
use mathlib.Core.List.{foldl}
use salus_robot.Prelude.{
  ℕ, zero, suc, ◌*◌, ◌%◌, ◌^◌, ◌≡◌, refl, List, [], ◌∷◌, bit_and, bit_xor, ◌==◌, if◌then◌else◌,
}

-- One round of the inner `for`.
crc24_bit : ℕ → ℕ
crc24_bit crc =
    let shifted = crc * 2 in
    if bit_and shifted 0x1000000 == 0 then shifted else bit_xor shifted 0x1864cfb

crc24_bits : ℕ → ℕ → ℕ
crc24_bits zero crc = crc
crc24_bits (suc n) crc = crc24_bits n (crc24_bit crc)

crc24_octet : ℕ → ℕ → ℕ
unfolding crc24_bit crc24_bits
crc24_octet crc octet = crc24_bits 8 (bit_xor crc (octet * 2 ^ 16))

unfoldable pub crc24q : List ℕ → ℕ
unfolding crc24_octet
crc24q data' = foldl crc24_octet 0 data' % 2 ^ 24

crc24q_check : crc24q (0xd3 ∷ 0x00 ∷ 0x00 ∷ []) ≡ 0x47ea4b
unfolding crc24q
crc24q_check = refl
