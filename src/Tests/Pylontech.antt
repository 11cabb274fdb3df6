-- ===== src/Tests/Pylontech.antt =====
-- Witnesses and runs for the frames of a battery pack.
use salus_robot.Prelude.{ℕ, ◌≡◌, refl, List, [], ◌∷◌, ◌++◌, arith}
use salus_robot.Prelude.Int.{ℤ, pos}
use salus_robot.Prelude.Result.{ok, err}
use salus_robot.Pylontech.{
  BatterySample, decode_reply, read_request, check_reply, read_reply, sample_of, decode_data,
  checksum_mismatch, complement, sum,
}
use salus_robot.Pylontech.Hex.{int16, fromhex}
use salus_robot.Pylontech.Sound.{Accepted, decode_reply-Accepted}
use salus_robot.Pylontech.Checksum.{framed, detects_one_byte}
use salus_robot.Tests.Values.{whole}

-- The request for the pack with the address 2.
read_request_run :
    read_request 2
    ≡ ok (
        126 ∷ 50 ∷ 48 ∷ 48 ∷ 50 ∷ 52 ∷ 54 ∷ 52 ∷ 50 ∷ 69 ∷ 48 ∷ 48 ∷ 50 ∷ 70 ∷ 70 ∷ 70 ∷ 68 ∷ 48
        ∷ 57 ∷ 13 ∷ [])
unfolding read_request
read_request_run = refl

-- The digits before and after one byte of the body of a reply.
abbrev before : List ℕ
before =
    50 ∷ 48 ∷ 48 ∷ 50 ∷ 52 ∷ 54 ∷ 48 ∷ 48 ∷ 56 ∷ 48 ∷ 54 ∷ 50 ∷ 49 ∷ 49 ∷ 48 ∷ 49 ∷ 48 ∷ 70 ∷ 48
    ∷ 67 ∷ []

abbrev after : List ℕ
after =
    52 ∷ 48 ∷ 67 ∷ 69 ∷ 52 ∷ 48 ∷ 67 ∷ 69 ∷ 52 ∷ 48 ∷ 67 ∷ 69 ∷ 52 ∷ 48 ∷ 67 ∷ 69 ∷ 52 ∷ 48 ∷ 67
    ∷ 69 ∷ 52 ∷ 48 ∷ 67 ∷ 69 ∷ 52 ∷ 48 ∷ 67 ∷ 69 ∷ 52 ∷ 48 ∷ 67 ∷ 69 ∷ 52 ∷ 48 ∷ 67 ∷ 69 ∷ 52 ∷ 48
    ∷ 67 ∷ 69 ∷ 52 ∷ 48 ∷ 67 ∷ 69 ∷ 52 ∷ 48 ∷ 67 ∷ 69 ∷ 52 ∷ 48 ∷ 67 ∷ 69 ∷ 52 ∷ 48 ∷ 67 ∷ 69 ∷ 52
    ∷ 48 ∷ 50 ∷ 48 ∷ 66 ∷ 55 ∷ 51 ∷ 48 ∷ 66 ∷ 65 ∷ 53 ∷ 70 ∷ 70 ∷ 70 ∷ 54 ∷ 67 ∷ 49 ∷ 53 ∷ 67 ∷ 54
    ∷ 49 ∷ 65 ∷ 56 ∷ 48 ∷ 50 ∷ 67 ∷ 51 ∷ 53 ∷ 48 ∷ 48 ∷ 48 ∷ 48 ∷ 65 ∷ []

abbrev body : List ℕ
body = before ++ 69 ∷ after

-- 15 cells of 3.3 V, the board at 20 and a group of cells at 25 degrees, a current of -1 A, and
-- half of the charge: in whole numbers.
abbrev sample : BatterySample ℤ
sample = record {
  voltage = pos 49;
  current = pos 0;
  charge = pos 25;
  capacity = pos 50;
  cell_voltage =
      pos 3
      ∷ pos 3
      ∷ pos 3
      ∷ pos 3
      ∷ pos 3
      ∷ pos 3
      ∷ pos 3
      ∷ pos 3
      ∷ pos 3
      ∷ pos 3
      ∷ pos 3
      ∷ pos 3
      ∷ pos 3
      ∷ pos 3
      ∷ pos 3
      ∷ [];
  grouped_cell_temperatures = pos 25 ∷ [];
  temperature = pos 20;
  cycles = 10;
}

decoded : decode_reply (framed body 69 55 56 68) 2 ≡ ok sample
unfolding decode_reply check_reply read_reply sample_of decode_data complement sum int16 fromhex
decoded = refl

decode_reply-Accepted_example : Accepted (framed body 69 55 56 68) 2 sample
decode_reply-Accepted_example = decode_reply-Accepted (framed body 69 55 56 68) 2 sample decoded

detects_one_byte_example :
    decode_reply {T = ℤ} (framed (before ++ 70 ∷ after) 69 55 56 68) 2 ≡ err checksum_mismatch
detects_one_byte_example =
    detects_one_byte before after 69 70 69 55 56 68 2 sample (omega arith) (omega arith)
      (omega arith) decoded
