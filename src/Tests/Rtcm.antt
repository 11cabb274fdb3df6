-- ===== src/Tests/Rtcm.antt =====
-- Witnesses and runs for the RTCM frames and their delivery.
use salus_robot.Prelude.{ℕ, ◌+◌, ◌≤◌, ◌≡◌, ◌↔◌, true, some, List, [], ◌∷◌, ◌++◌, length}
use salus_robot.Prelude.Int.{pos}
use salus_robot.Rtcm.Delivery.{evaluate_rtcm_delivery}
use salus_robot.Rtcm.Delivery.Order.{Deliverable, evaluate_accepts_iff}
use salus_robot.Rtcm.Decoder.{RtcmDecoder, stop, round, feed}
use salus_robot.Rtcm.Decoder.Frames.{AllAccepted, total_length, rtcm_feed-conserves}
use salus_robot.Rtcm.Decoder.Incremental.{feed-append}

abbrev frame : List ℕ
frame = 0xd3 ∷ 0 ∷ 2 ∷ 62 ∷ 208 ∷ 164 ∷ 224 ∷ 0 ∷ []

abbrev decoder : RtcmDecoder
decoder = record { buffer = 0xd3 ∷ 0 ∷ 2 ∷ []; crc_errors = 4 }

abbrev rest : List ℕ
rest = 62 ∷ 208 ∷ 164 ∷ 224 ∷ 0 ∷ 9 ∷ 0xd3 ∷ []

evaluate_accepts_iff_example :
    ((evaluate_rtcm_delivery frame "base" (pos 7) (some "base") (some (pos 6))).accepted ≡ true)
    ↔ Deliverable frame "base" (pos 7) (some "base") (some (pos 6))
evaluate_accepts_iff_example =
    evaluate_accepts_iff frame "base" (pos 7) (some "base") (some (pos 6))

rtcm_feed-conserves_example :
    let (frames, t) = feed rest decoder in
    (round t ≡ stop)
    × AllAccepted frames
    × (total_length frames + length t.buffer ≤ length decoder.buffer + length rest)
rtcm_feed-conserves_example = rtcm_feed-conserves rest decoder

feed-append_example :
    let (frames, t) = feed (62 ∷ 208 ∷ []) decoder in
    let (more, u) = feed (164 ∷ 224 ∷ 0 ∷ 9 ∷ []) t in
    feed ((62 ∷ 208 ∷ []) ++ (164 ∷ 224 ∷ 0 ∷ 9 ∷ [])) decoder ≡ (frames ++ more, u)
feed-append_example = feed-append (62 ∷ 208 ∷ []) (164 ∷ 224 ∷ 0 ∷ 9 ∷ []) decoder
