-- ===== src/Rtcm/Decoder.antt =====
-- `RtcmDecoder` of ntrip_protocol.py.
pub mod Frames
pub mod Incremental
use salus_robot.Prelude.{
  ℕ, zero, suc, ◌+◌, List, [], ◌∷◌, ◌++◌, ltb, ◌==◌, ◌||◌, not, length, take, drop, if◌then◌else◌,
}
use salus_robot.Rtcm.Frame.{octet, reserved, payload_size, is_accepted, validate_rtcm3_frame}

pub record RtcmDecoder : Type 0 where
  pub buffer : List ℕ
  pub crc_errors : ℕ

abbrev pub new : RtcmDecoder
new = record { buffer = []; crc_errors = 0 }

-- What one round of `while` does: it ends the loop, returns a frame, or drops a byte.
pub data Round : Type 0 where
  stop : Round
  emit : List ℕ → RtcmDecoder → Round
  skip : RtcmDecoder → Round

abbrev pub drop_byte : RtcmDecoder → RtcmDecoder
drop_byte s = record s { buffer = drop 1 s.buffer }

abbrev pub frame_size : List ℕ → ℕ
frame_size buffer = payload_size buffer + 6

unfoldable pub round : RtcmDecoder → Round
round s =
    let b = s.buffer in
    let size = frame_size b in
    if ltb (length b) 6
    then stop
    else if not (octet b 0 == 0xd3) || reserved b
    then skip (drop_byte s)
    else if ltb 1029 size
    then skip (drop_byte s)
    else if ltb (length b) size
    then stop
    else if is_accepted (validate_rtcm3_frame (take size b))
    then emit (take size b) (record s { buffer = drop size b })
    else skip (record { buffer = drop 1 b; crc_errors = s.crc_errors + 1 })

abbrev pub Fed : Type 0
Fed = List (List ℕ) × RtcmDecoder

abbrev pub after_round :
    (List (List ℕ) → RtcmDecoder → Fed) → List (List ℕ) → RtcmDecoder → Round → Fed
after_round next frames s stop = (frames, s)
after_round next frames s (emit f t) = next (frames ++ f ∷ []) t
after_round next frames s (skip t) = next frames t

-- The loop, on fuel: it takes at most one round for each byte, and one more.
unfoldable pub feed_loop : ℕ → List (List ℕ) → RtcmDecoder → Fed
feed_loop zero frames s = (frames, s)
feed_loop (suc fuel) frames s = after_round (feed_loop fuel) frames s (round s)

unfoldable pub feed : List ℕ → RtcmDecoder → Fed
feed data' s =
    let t = record s { buffer = s.buffer ++ data' } in feed_loop (suc (length t.buffer)) [] t
