-- ===== src/Rtcm/Decoder/Incremental.antt =====
-- `RtcmDecoder.feed` does not depend on how the bytes are cut.
use salus_robot.Prelude.{
  ℕ, zero, suc, ◌≤◌, ◌<◌, ◌≡◌, refl, List, [], ◌∷◌, ◌++◌, arith, length, length-append,
  get_or-append_of_lt, take-append_of_le, drop-append_of_le, append_assoc, ap, sym, ◌∙◌, append-nil,
}
use salus_robot.Rtcm.Frame.{payload_size}
use salus_robot.Rtcm.Decoder.{
  RtcmDecoder, Round, stop, emit, skip, frame_size, round, Fed, after_round, feed_loop, feed,
}
use salus_robot.Rtcm.Decoder.Frames.{RoundAccounts, round-accounts}

abbrev extend : RtcmDecoder → List ℕ → RtcmDecoder
extend s ys = record s { buffer = s.buffer ++ ys }

-- A round that does not end the loop does the same with more bytes behind.
abbrev RoundExtends : RtcmDecoder → List ℕ → Round → Type 0
RoundExtends s ys stop = Unit
RoundExtends s ys (emit f t) = round (extend s ys) ≡ emit f (extend t ys)
RoundExtends s ys (skip t) = round (extend s ys) ≡ skip (extend t ys)

payload_size-append : (b ys : List ℕ) → 6 ≤ length b → payload_size (b ++ ys) ≡ payload_size b
unfolding payload_size
payload_size-append b ys h =
    ground (arith, get_or-append_of_lt b ys 1 0, get_or-append_of_lt b ys 2 0)

round-extends : (s : RtcmDecoder) (ys : List ℕ) → RoundExtends s ys (round s)
unfolding round
round-extends s ys = ground (
  arith,
  length-append s.buffer ys,
  payload_size-append s.buffer ys,
  get_or-append_of_lt s.buffer ys 0 0,
  get_or-append_of_lt s.buffer ys 1 0,
  take-append_of_le (frame_size s.buffer) s.buffer ys,
  drop-append_of_le (frame_size s.buffer) s.buffer ys,
  drop-append_of_le 1 s.buffer ys,
)

after_round-fuel :
    (fuel fuel' : ℕ)
    → ((frames : List (List ℕ)) (t : RtcmDecoder)
        → length t.buffer < fuel
        → length t.buffer < fuel'
        → feed_loop fuel frames t ≡ feed_loop fuel' frames t)
    → (frames : List (List ℕ)) (s : RtcmDecoder) (r : Round) → RoundAccounts s r
    → length s.buffer < suc fuel
    → length s.buffer < suc fuel'
    → after_round (feed_loop fuel) frames s r ≡ after_round (feed_loop fuel') frames s r
after_round-fuel fuel fuel' ih frames s stop a h h' = refl
after_round-fuel fuel fuel' ih frames s (emit f t) a h h' =
    ih (frames ++ f ∷ []) t (omega arith) (omega arith)
after_round-fuel fuel fuel' ih frames s (skip t) a h h' = ih frames t (omega arith) (omega arith)

-- Any fuel above the number of bytes gives the same result.
pub feed_loop_fuel :
    (fuel fuel' : ℕ) (frames : List (List ℕ)) (s : RtcmDecoder)
    → length s.buffer < fuel
    → length s.buffer < fuel'
    → feed_loop fuel frames s ≡ feed_loop fuel' frames s
unfolding feed_loop
feed_loop_fuel zero fuel' frames s h h' = absurd (omega arith)
feed_loop_fuel (suc fuel) zero frames s h h' = absurd (omega arith)
feed_loop_fuel (suc fuel) (suc fuel') frames s h h' =
    after_round-fuel fuel fuel' (feed_loop_fuel fuel fuel') frames s (round s) (round-accounts s) h
      h'

-- The frames that are there already stay in front.
abbrev prepend : List (List ℕ) → Fed → Fed
prepend frames r = (frames ++ r.0, r.1)

after_round-prepend :
    (next : List (List ℕ) → RtcmDecoder → Fed)
    → ((xs ys : List (List ℕ)) (t : RtcmDecoder) → next (xs ++ ys) t ≡ prepend xs (next ys t))
    → (xs ys : List (List ℕ)) (s : RtcmDecoder) (r : Round)
    → after_round next (xs ++ ys) s r ≡ prepend xs (after_round next ys s r)
after_round-prepend next ih xs ys s stop = refl
after_round-prepend next ih xs ys s (emit f t) =
    ap (λ l. next l t) (append_assoc xs ys (f ∷ [])) ∙ ih xs (ys ++ f ∷ []) t
after_round-prepend next ih xs ys s (skip t) = ih xs ys t

feed_loop-prepend :
    (fuel : ℕ) (xs ys : List (List ℕ)) (s : RtcmDecoder)
    → feed_loop fuel (xs ++ ys) s ≡ prepend xs (feed_loop fuel ys s)
unfolding feed_loop
feed_loop-prepend zero xs ys s = refl
feed_loop-prepend (suc fuel) xs ys s =
    after_round-prepend (feed_loop fuel) (feed_loop-prepend fuel) xs ys s (round s)

-- The loop over the bytes that a loop has left, with more behind them.
abbrev resume : List ℕ → Fed → Fed
resume ys r = feed_loop (suc (length (r.1.buffer ++ ys))) r.0 (extend r.1 ys)

abbrev Resumes : ℕ → List ℕ → List (List ℕ) → RtcmDecoder → Fed → Type 0
Resumes fuel ys frames s r =
    length (s.buffer ++ ys) < fuel → feed_loop fuel frames (extend s ys) ≡ resume ys r

after_round-Resumes :
    (n : ℕ) (ys : List ℕ)
    → ((fuel : ℕ) (frames : List (List ℕ)) (t : RtcmDecoder)
        → length t.buffer < n
        → Resumes fuel ys frames t (feed_loop n frames t))
    → (fuel : ℕ) (frames : List (List ℕ)) (s : RtcmDecoder) (r : Round) → RoundAccounts s r
    → RoundExtends s ys r
    → length s.buffer < suc n
    → Resumes (suc fuel) ys frames s (after_round (feed_loop n) frames s r)
unfolding feed_loop
after_round-Resumes n ys ih fuel frames s stop a e h = λ k.
    feed_loop_fuel (suc fuel) (suc (length (s.buffer ++ ys))) frames (extend s ys) k (omega arith)
after_round-Resumes n ys ih fuel frames s (emit f t) a e h = λ k.
    ap (after_round (feed_loop fuel) frames (extend s ys)) e
    ∙ ih fuel (frames ++ f ∷ []) t (omega arith)
        (omega (arith, length-append s.buffer ys, length-append t.buffer ys))
after_round-Resumes n ys ih fuel frames s (skip t) a e h = λ k.
    ap (after_round (feed_loop fuel) frames (extend s ys)) e
    ∙ ih fuel frames t (omega arith)
        (omega (arith, length-append s.buffer ys, length-append t.buffer ys))

feed_loop-Resumes :
    (n : ℕ) (ys : List ℕ) (fuel : ℕ) (frames : List (List ℕ)) (s : RtcmDecoder)
    → length s.buffer < n
    → Resumes fuel ys frames s (feed_loop n frames s)
unfolding feed_loop
feed_loop-Resumes zero ys fuel frames s h = absurd (omega arith)
feed_loop-Resumes (suc n) ys zero frames s h = λ k. absurd (omega arith)
feed_loop-Resumes (suc n) ys (suc fuel) frames s h =
    after_round-Resumes n ys (λ fuel' frames' t. feed_loop-Resumes n ys fuel' frames' t) fuel frames
      s (round s) (round-accounts s) (round-extends s ys) h

-- Feeding two pieces one after the other returns the frames of both and the state, buffer and error
-- count included, that feeding them as one piece does.
pub feed-append :
    (xs ys : List ℕ) (s : RtcmDecoder)
    → let (frames, t) = feed xs s in
      let (more, u) = feed ys t in feed (xs ++ ys) s ≡ (frames ++ more, u)
unfolding feed
feed-append xs ys s =
    let first = feed_loop (suc (length (s.buffer ++ xs))) [] (extend s xs) in
    let b = s.buffer ++ xs in
    ap (λ c. feed_loop (suc (length c)) [] (record s { buffer = c }))
      (sym (append_assoc s.buffer xs ys))
    ∙ (feed_loop-Resumes (suc (length b)) ys (suc (length (b ++ ys))) [] (extend s xs) (omega arith)
          (omega arith)
        ∙ (ap (λ l. feed_loop (suc (length (first.1.buffer ++ ys))) l (extend first.1 ys))
              (sym (append-nil first.0))
            ∙ feed_loop-prepend (suc (length (first.1.buffer ++ ys))) first.0 []
                (extend first.1 ys)))
