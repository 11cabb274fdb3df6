-- ===== src/Esp32/Parser/Progress.antt =====
-- Every round of `feed` consumes bytes, accounts for them, and delivers only valid frames.
use salus_robot.Prelude.{
  ℕ, zero, suc, ◌+◌, ◌*◌, ◌≤◌, ◌<◌, ◌≡◌, refl, true, Option, none, some, List, [], ◌∷◌, ◌++◌, ltb,
  ◌==◌, length, arith, inl, inr, Bool-cases, length-append, length-drop, length-take, take, ◌∙◌,
  ◌⊎◌, false,
}
use salus_robot.Esp32.Crc.{crc8_maxim}
use salus_robot.Esp32.Decode.{byte, body}
use salus_robot.Esp32.Parser.{
  EspFrameParser, is_header, header_index, Round, stop, emit, skip, check_candidate, resync,
  skip_to, round, Fed, after_round, feed_loop, feed,
}
use salus_robot.Esp32.Parser.Refinement.{
  frame_size, frame_size-take, frame_size_cases, header_index_bound, header_at-index,
}

-- The bytes that a parser holds or has dropped.
abbrev pub load : EspFrameParser → ℕ
load s = length s.buffer + s.dropped_partial_frames

-- A whole frame with a known header and the checksum of its bytes.
abbrev pub IsFrame : List ℕ → Type 0
IsFrame f =
    (length f ≡ 8) × ((byte f 0 ≡ 0x55) ⊎ (byte f 0 ≡ 0x56)) × (byte f 7 ≡ crc8_maxim (body f))

frame_size-IsFrame : (f : List ℕ) → length f ≡ 8 → frame_size f ≡ 8 → IsFrame f
unfolding frame_size
frame_size-IsFrame f l e = (l, ground arith, ground arith)

take-IsFrame : (b : List ℕ) → 8 ≤ length b → frame_size b ≡ 8 → IsFrame (take 8 b)
take-IsFrame b h e =
    frame_size-IsFrame (take 8 b) (omega (arith, length-take 8 b)) (frame_size-take b h ∙ e)

abbrev RoundAccounts : EspFrameParser → Round → Type 0
RoundAccounts s (stop t) = (length t.buffer < 8) × (load t ≡ load s)
RoundAccounts s (emit f t) = (length t.buffer < length s.buffer) × (load t + 8 ≡ load s) × IsFrame f
RoundAccounts s (skip t) = (length t.buffer < length s.buffer) × (load t ≡ load s)

large : (s : EspFrameParser) → ltb (length s.buffer) 8 ≡ false → 8 ≤ length s.buffer
large s h = ground arith

check_candidate-accounts :
    (s : EspFrameParser) → is_header (byte s.buffer 0) ≡ true → RoundAccounts s (check_candidate s)
unfolding check_candidate
check_candidate-accounts s h = elim (Bool-cases (ltb (length s.buffer) 8)) [
  | inl short ↦ rw short (ground arith)
  | inr long ↦ elim (Bool-cases (byte s.buffer 7 == crc8_maxim (body s.buffer))) [
    | inl good ↦
        rw (long, good)
          (
            omega (arith, length-drop 8 s.buffer, large s long),
            omega (arith, length-drop 8 s.buffer, large s long),
            take-IsFrame s.buffer (large s long) (ground (arith, frame_size_cases s.buffer)),
          )
    | inr bad ↦ rw (long, bad) (ground (arith, length-drop 1 s.buffer))
  ]
]

RoundAccounts-after :
    (s t : EspFrameParser) (r : Round)
    → load t ≡ load s
    → length t.buffer ≤ length s.buffer
    → RoundAccounts t r
    → RoundAccounts s r
RoundAccounts-after s t (stop u) d l a = omega arith
RoundAccounts-after s t (emit f u) d l a = omega arith
RoundAccounts-after s t (skip u) d l a = omega arith

resync-accounts :
    (s : EspFrameParser) (found : Option ℕ)
    → header_index s.buffer ≡ found
    → RoundAccounts s (resync found s)
unfolding resync skip_to
resync-accounts s none h = omega arith
resync-accounts s (some i) h =
    RoundAccounts-after s (skip_to i s) (check_candidate (skip_to i s))
      (omega (arith, length-drop i s.buffer, header_index_bound s.buffer i h))
      (omega (arith, length-drop i s.buffer))
      (check_candidate-accounts (skip_to i s) (header_at-index s.buffer i h))

round-accounts : (s : EspFrameParser) → RoundAccounts s (round s)
unfolding round
round-accounts s = elim (Bool-cases (ltb (length s.buffer) 8)) [
  | inl short ↦ rw short (ground arith)
  | inr long ↦ elim (Bool-cases (is_header (byte s.buffer 0))) [
    | inl header ↦ rw (long, header) (check_candidate-accounts s header)
    | inr noise ↦ rw (long, noise) (resync-accounts s (header_index s.buffer) refl)
  ]
]

abbrev pub AllFrames : List (List ℕ) → Type 0
AllFrames [] = Unit
AllFrames (f ∷ fs) = IsFrame f × AllFrames fs

pub AllFrames-append : (xs ys : List (List ℕ)) → AllFrames xs → AllFrames ys → AllFrames (xs ++ ys)
AllFrames-append [] ys h k = k
AllFrames-append (f ∷ fs) ys h k = (h.0, AllFrames-append fs ys h.1 k)

-- Less than a frame is left, no byte is lost sight of, and the frames are valid.
abbrev LoopAccounts : ℕ → List (List ℕ) → EspFrameParser → Fed → Type 0
LoopAccounts fuel frames s r =
    length s.buffer < fuel
    → AllFrames frames
    → (length r.1.buffer < 8)
      × (load r.1 + 8 * length r.0 ≡ load s + 8 * length frames)
      × AllFrames r.0

after_round-accounts :
    (fuel : ℕ) (next : List (List ℕ) → EspFrameParser → Fed)
    → ((frames : List (List ℕ)) (t : EspFrameParser) → LoopAccounts fuel frames t (next frames t))
    → (frames : List (List ℕ)) (s : EspFrameParser) (r : Round) → RoundAccounts s r
    → LoopAccounts (suc fuel) frames s (after_round next frames r)
unfolding after_round
after_round-accounts fuel next ih frames s (stop t) a m v = (a.0, omega arith, v)
after_round-accounts fuel next ih frames s (emit f t) a m v =
    let (short, sum, valid) =
      ih (frames ++ f ∷ []) t (omega arith) (AllFrames-append frames (f ∷ []) v (a.2, tt)) in
    (short, omega (arith, length-append frames (f ∷ [])), valid)
after_round-accounts fuel next ih frames s (skip t) a m v =
    let (short, sum, valid) = ih frames t (omega arith) v in (short, omega arith, valid)

feed_loop-accounts :
    (fuel : ℕ) (frames : List (List ℕ)) (s : EspFrameParser)
    → LoopAccounts fuel frames s (feed_loop fuel frames s)
unfolding feed_loop
feed_loop-accounts zero frames s = λ m v. absurd (omega arith)
feed_loop-accounts (suc fuel) frames s =
    after_round-accounts fuel (feed_loop fuel) (feed_loop-accounts fuel) frames s (round s)
      (round-accounts s)

-- `feed` leaves less than a frame in the buffer, so its loop ends by its test; each byte that it
-- held or was given is still held, was counted as dropped, or stands in one of the frames returned,
-- of eight bytes each; and each of these has a known header and the checksum of its bytes.
pub feed-conserves :
    (bytes : List ℕ) (s : EspFrameParser)
    → length s.buffer < 8
    → let (frames, t) = feed bytes s in
      (length t.buffer < 8)
      × (load t + 8 * length frames ≡ load s + length bytes)
      × AllFrames frames
unfolding feed
feed-conserves [] s h = (h, omega arith, tt)
feed-conserves (b ∷ bytes) s h =
    let buffer = s.buffer ++ b ∷ bytes in
    let (short, sum, valid) =
      feed_loop-accounts (suc (length buffer)) [] (record s { buffer = buffer }) (omega arith) tt in
    (short, omega (arith, length-append s.buffer (b ∷ bytes)), valid)
