-- ===== src/Rtcm/Frame.antt =====
-- `validate_rtcm3_frame` of rtk_domain.py.
use salus_robot.Prelude.{
  ℕ, ◌+◌, ◌-◌, ◌*◌, Bool, true, false, List, ◌==◌, ltb, bit_and, bit_or, not, length, get_or, take,
  drop, if◌then◌else◌, is_empty, ◌%◌,
}
use salus_robot.Rtcm.Crc.{crc24q}

pub data Verdict : Type 0 where
  accepted empty too_short too_large invalid_preamble : Verdict
  reserved_bits_set length_mismatch crc_mismatch : Verdict

-- `reason == "accepted"`
abbrev pub is_accepted : Verdict → Bool
is_accepted accepted = true
is_accepted _ = false

abbrev pub octet : List ℕ → ℕ → ℕ
octet data' i = get_or data' i 0

-- `data[1] & 0xFC`, as a test
abbrev pub reserved : List ℕ → Bool
reserved data' = not (bit_and (octet data' 1) 0xfc == 0)

-- `((data[1] & 0x03) << 8) | data[2]`
unfoldable pub payload_size : List ℕ → ℕ
payload_size data' = bit_or (octet data' 1 % 4 * 256) (octet data' 2)

-- `data[:-3]`, and `int.from_bytes(data[-3:], byteorder="big")`
abbrev pub content : List ℕ → List ℕ
content data' = take (length data' - 3) data'

abbrev pub trailer : List ℕ → ℕ
trailer data' =
    let last = drop (length data' - 3) data' in
    (octet last 0 * 256 + octet last 1) * 256 + octet last 2

unfoldable pub validate_rtcm3_frame : List ℕ → Verdict
validate_rtcm3_frame data' =
    if is_empty data'
    then empty
    else if ltb (length data') 6
    then too_short
    else if ltb 1029 (length data')
    then too_large
    else if not (octet data' 0 == 0xd3)
    then invalid_preamble
    else if reserved data'
    then reserved_bits_set
    else if not (length data' == payload_size data' + 6)
    then length_mismatch
    else if not (crc24q (content data') == trailer data')
    then crc_mismatch
    else accepted
