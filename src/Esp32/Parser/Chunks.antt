-- ===== src/Esp32/Parser/Chunks.antt =====
-- `decode_stream_chunks`: the result depends on the bytes, not on how they are cut into chunks.
use mathlib.Core.List.{flatten}
use salus_robot.Prelude.{
  ℕ, suc, ◌<◌, ◌≡◌, refl, true, false, none, List, [], ◌∷◌, ◌++◌, ap, sym, ◌∙◌, append_assoc,
  append-nil, length, arith, if◌then◌else◌,
}
use salus_robot.Prelude.Result.{ok}
use salus_robot.Float.{Float}
use salus_robot.Esp32.Telemetry.{Telemetry}
use salus_robot.Esp32.Decode.{telemetry_of, decode_esp_frame}
use salus_robot.Esp32.Parser.{
  EspFrameParser, Fed, new, feed, is_esp, decode_frames, decode_chunks, decode_stream_chunks,
}
use salus_robot.Esp32.Parser.Refinement.{frames_of, feed-delivers, frames_of-short}
use salus_robot.Esp32.Parser.Progress.{IsFrame, AllFrames, AllFrames-append, feed-conserves}

-- The chunks, fed one after another.
pub feed_all : List (List ℕ) → EspFrameParser → Fed
feed_all [] s = ([], s)
feed_all (chunk ∷ chunks) s =
    let (frames, t) = feed chunk s in let (rest, u) = feed_all chunks t in (frames ++ rest, u)

pub feed_all-delivers :
    (chunks : List (List ℕ)) (s : EspFrameParser) (ys : List ℕ)
    → frames_of ((s.buffer ++ flatten chunks) ++ ys)
      ≡ (feed_all chunks s).0 ++ frames_of ((feed_all chunks s).1.buffer ++ ys)
unfolding feed_all flatten
feed_all-delivers [] s ys = ap (λ b. frames_of (b ++ ys)) (append-nil s.buffer)
feed_all-delivers (chunk ∷ chunks) s ys =
    let t = (feed chunk s).1 in
    let frames = (feed chunk s).0 in
    ap frames_of (simp append_assoc)
    ∙ (feed-delivers chunk s (flatten chunks ++ ys)
        ∙ (ap (λ l. frames ++ l)
              (ap frames_of (sym (append_assoc t.buffer (flatten chunks) ys))
                ∙ feed_all-delivers chunks t ys)
            ∙ sym (append_assoc frames _ _)))

abbrev pub IsDrained : EspFrameParser → Type 0
IsDrained s = length s.buffer < 8

feed_all_accounts :
    (chunks : List (List ℕ)) (s : EspFrameParser)
    → IsDrained s
    → IsDrained (feed_all chunks s).1 × AllFrames (feed_all chunks s).0
unfolding feed_all
feed_all_accounts [] s h = (h, tt)
feed_all_accounts (chunk ∷ chunks) s h =
    let (short, sum, valid) = feed-conserves chunk s h in
    let (drained, rest) = feed_all_accounts chunks (feed chunk s).1 short in
    (drained, AllFrames-append (feed chunk s).0 _ valid rest)

-- The frames that a new parser returns are the valid frames of the bytes, however they are cut.
feed_all-new : (chunks : List (List ℕ)) → (feed_all chunks new).0 ≡ frames_of (flatten chunks)
feed_all-new chunks =
    let out = (feed_all chunks new).0 in
    let held = (feed_all chunks new).1.buffer in
    let drained = (feed_all_accounts chunks new (omega arith)).0 in
    sym (append-nil out)
    ∙ (ap (λ l. out ++ l) (sym (ap frames_of (append-nil held) ∙ frames_of-short held drained))
        ∙ (sym (feed_all-delivers chunks new []) ∙ ap frames_of (append-nil (flatten chunks))))

module _ {T : Type 0} ⦃F : Float T⦄ (clock : ℕ → T) where
  -- What the telemetry frames among some frames say, each with the next reading of the clock.
  pub telemetries : ℕ → List (List ℕ) → List (Telemetry T)
  telemetries k [] = []
  telemetries k (frame ∷ frames) = elim (is_esp frame) [
    | true ↦ telemetry_of frame none (clock k) ∷ telemetries (suc k) frames
    | false ↦ telemetries k frames
  ]

  readings : ℕ → List (List ℕ) → ℕ
  readings k [] = k
  readings k (frame ∷ frames) = readings (if is_esp frame then suc k else k) frames

  decode_esp-ok :
      (frame : List ℕ) (k : ℕ)
      → IsFrame frame
      → is_esp frame ≡ true
      → decode_esp_frame frame none (clock k) ≡ ok (telemetry_of frame none (clock k))
  unfolding decode_esp_frame
  decode_esp-ok [] k h e = cc
  decode_esp-ok (b ∷ bytes) k h e = ground arith

  decode_frames-ok :
      (k : ℕ) (out : List (Telemetry T)) (frames : List (List ℕ))
      → AllFrames frames
      → decode_frames clock k out frames ≡ ok (readings k frames, out ++ telemetries k frames)
  unfolding decode_frames telemetries readings
  decode_frames-ok k out [] h = ap (λ l. ok (k, l)) (sym (append-nil out))
  decode_frames-ok k out (frame ∷ frames) h =
      let t = telemetry_of frame none (clock k) in
      ground (
        arith,
        decode_esp-ok frame k h.0,
        decode_frames-ok (suc k) (out ++ t ∷ []) frames h.1,
        decode_frames-ok k out frames h.1,
        append_assoc out (t ∷ []) (telemetries (suc k) frames),
      )

  telemetries-append :
      (k : ℕ) (xs ys : List (List ℕ))
      → telemetries k (xs ++ ys) ≡ telemetries k xs ++ telemetries (readings k xs) ys
  unfolding telemetries readings
  telemetries-append k [] ys = refl
  telemetries-append k (f ∷ fs) ys =
      ground (arith, telemetries-append (suc k) fs ys, telemetries-append k fs ys)

  decode_chunks-ok :
      (chunks : List (List ℕ)) (k : ℕ) (out : List (Telemetry T)) (s : EspFrameParser)
      → IsDrained s
      → decode_chunks clock k out s chunks ≡ ok (out ++ telemetries k (feed_all chunks s).0)
  unfolding decode_chunks feed_all telemetries
  decode_chunks-ok [] k out s h = ap ok (sym (append-nil out))
  decode_chunks-ok (chunk ∷ chunks) k out s h =
      let frames = (feed chunk s).0 in
      rw (decode_frames-ok k out frames (feed-conserves chunk s h).2) (
        decode_chunks-ok chunks (readings k frames) (out ++ telemetries k frames) (feed chunk s).1
          (feed-conserves chunk s h).0
        ∙ ap ok (append_assoc out _ _ ∙ ap (λ l. out ++ l) (sym (telemetries-append k frames _))))

  -- `decode_stream_chunks` raises nothing, and returns the telemetry of the valid frames of the
  -- bytes, in order: how the bytes are cut into chunks makes no difference.
  pub decode_stream_chunks-eq-telemetries :
      (chunks : List (List ℕ))
      → decode_stream_chunks clock chunks ≡ ok (telemetries 0 (frames_of (flatten chunks)))
  unfolding decode_stream_chunks
  decode_stream_chunks-eq-telemetries chunks =
      decode_chunks-ok chunks 0 [] new (omega arith)
      ∙ ap (λ fs. ok (telemetries 0 fs)) (feed_all-new chunks)
