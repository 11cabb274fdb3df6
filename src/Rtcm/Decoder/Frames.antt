-- ===== src/Rtcm/Decoder/Frames.antt =====
-- Every round of `RtcmDecoder.feed` consumes bytes, and delivers only accepted frames.
use salus_robot.Prelude.{
  ℕ, zero, suc, ◌+◌, ◌≤◌, ◌<◌, ◌≡◌, refl, List, [], ◌∷◌, ◌++◌, arith, length, length-append,
  length-drop, length-take, ◌⊎◌,
}
use salus_robot.Rtcm.Frame.{accepted, validate_rtcm3_frame}
use salus_robot.Rtcm.Decoder.{
  RtcmDecoder, Round, stop, emit, skip, frame_size, round, Fed, after_round, feed_loop, feed,
}

-- The bytes of some frames.
abbrev pub total_length : List (List ℕ) → ℕ
total_length [] = 0
total_length (f ∷ fs) = length f + total_length fs

total_length-append :
    (xs ys : List (List ℕ)) → total_length (xs ++ ys) ≡ total_length xs + total_length ys
total_length-append [] ys = omega arith
total_length-append (x ∷ xs) ys = omega (arith, total_length-append xs ys)

abbrev pub AllAccepted : List (List ℕ) → Type 0
AllAccepted [] = Unit
AllAccepted (f ∷ fs) = (validate_rtcm3_frame f ≡ accepted) × AllAccepted fs

AllAccepted-append :
    (xs ys : List (List ℕ)) → AllAccepted xs → AllAccepted ys → AllAccepted (xs ++ ys)
AllAccepted-append [] ys h k = k
AllAccepted-append (f ∷ fs) ys h k = (h.0, AllAccepted-append fs ys h.1 k)

abbrev pub RoundAccounts : RtcmDecoder → Round → Type 0
RoundAccounts s stop = (length s.buffer < 6) ⊎ (length s.buffer < frame_size s.buffer)
RoundAccounts s (emit f t) =
    (0 < length f)
    × (length f + length t.buffer ≡ length s.buffer)
    × (validate_rtcm3_frame f ≡ accepted)
    × (t.crc_errors ≡ s.crc_errors)
RoundAccounts s (skip t) = suc (length t.buffer) ≡ length s.buffer

pub round-accounts : (s : RtcmDecoder) → RoundAccounts s (round s)
unfolding round
round-accounts s = ground (
  arith,
  length-drop 1 s.buffer,
  length-drop (frame_size s.buffer) s.buffer,
  length-take (frame_size s.buffer) s.buffer,
)

-- The loop ends by its test: what is left is shorter than the frame that it may begin, no byte was
-- added, and the frames are accepted.
abbrev LoopAccounts : ℕ → List (List ℕ) → RtcmDecoder → Fed → Type 0
LoopAccounts fuel frames s r =
    length s.buffer < fuel
    → AllAccepted frames
    → (round r.1 ≡ stop)
      × (total_length r.0 + length r.1.buffer ≤ total_length frames + length s.buffer)
      × AllAccepted r.0

after_round-accounts :
    (fuel : ℕ) (next : List (List ℕ) → RtcmDecoder → Fed)
    → ((frames : List (List ℕ)) (t : RtcmDecoder) → LoopAccounts fuel frames t (next frames t))
    → (frames : List (List ℕ)) (s : RtcmDecoder) (r : Round) → round s ≡ r
    → RoundAccounts s r
    → LoopAccounts (suc fuel) frames s (after_round next frames s r)
after_round-accounts fuel next ih frames s stop e a m v = (e, omega arith, v)
after_round-accounts fuel next ih frames s (emit f t) e a m v =
    let (ended, sum, valid) =
      ih (frames ++ f ∷ []) t (omega arith) (AllAccepted-append frames (f ∷ []) v (a.2, tt)) in
    (ended, omega (arith, total_length-append frames (f ∷ [])), valid)
after_round-accounts fuel next ih frames s (skip t) e a m v =
    let (ended, sum, valid) = ih frames t (omega arith) v in (ended, omega arith, valid)

feed_loop-accounts :
    (fuel : ℕ) (frames : List (List ℕ)) (s : RtcmDecoder)
    → LoopAccounts fuel frames s (feed_loop fuel frames s)
unfolding feed_loop
feed_loop-accounts zero frames s = λ m v. absurd (omega arith)
feed_loop-accounts (suc fuel) frames s =
    after_round-accounts fuel (feed_loop fuel) (feed_loop-accounts fuel) frames s (round s) refl
      (round-accounts s)

-- `feed` ends by a test of its loop; every frame that it returns is accepted by
-- `validate_rtcm3_frame`; and the frames and what stays in the buffer hold no more bytes than there were.
pub rtcm_feed-conserves :
    (bytes : List ℕ) (s : RtcmDecoder)
    → let (frames, t) = feed bytes s in
      (round t ≡ stop)
      × AllAccepted frames
      × (total_length frames + length t.buffer ≤ length s.buffer + length bytes)
unfolding feed
rtcm_feed-conserves bytes s =
    let t = record s { buffer = s.buffer ++ bytes } in
    let (ended, sum, valid) = feed_loop-accounts (suc (length t.buffer)) [] t (omega arith) tt in
    (ended, valid, omega (arith, length-append s.buffer bytes))
