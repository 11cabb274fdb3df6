-- ===== src/Esp32/Parser.antt =====
-- `EspFrameParser` of protocol.py.
pub mod Refinement
pub mod Progress
pub mod Chunks
use salus_robot.Prelude.{
  ℕ, zero, suc, ◌+◌, Bool, true, false, Option, none, some, List, [], ◌∷◌, ◌++◌, ltb, leb, ◌==◌,
  ◌||◌, length, take, drop, is_empty, if◌then◌else◌,
}
use salus_robot.Esp32.Crc.{crc8_maxim}
use salus_robot.Prelude.Result.{Result, ok, ◌>>=◌}
use salus_robot.Float.{Float}
use salus_robot.Esp32.Telemetry.{Telemetry}
use salus_robot.Esp32.Decode.{DecodeError, byte, body, decode_esp_frame}

pub record EspFrameParser : Type 0 where
  pub buffer : List ℕ
  pub dropped_partial_frames : ℕ
  pub crc_error_frames : ℕ

abbrev pub new : EspFrameParser
new = record { buffer = []; dropped_partial_frames = 0; crc_error_frames = 0 }

unfoldable pub reset : EspFrameParser → EspFrameParser
reset s = record s { buffer = [] }

-- `b in VALID_RX_HEADERS`
abbrev pub is_header : ℕ → Bool
is_header b = b == 0x55 || b == 0x56

-- `bytearray.find` of one byte
abbrev pub find : ℕ → List ℕ → Option ℕ
find b [] = none
find b (x ∷ xs) =
    if x == b then some zero else elim (find b xs) [ none ↦ none | some i ↦ some (suc i) ]

-- `min(..., default=-1)` over what was found
abbrev pub min_found : Option ℕ → Option ℕ → Option ℕ
min_found none j = j
min_found (some i) none = some i
min_found (some i) (some j) = some (if leb i j then i else j)

unfoldable pub header_index : List ℕ → Option ℕ
header_index buffer = min_found (find 0x55 buffer) (find 0x56 buffer)

-- What one round of `while` does: it ends the loop, delivers a frame, or drops a byte.
pub data Round : Type 0 where
  stop : EspFrameParser → Round
  emit : List ℕ → EspFrameParser → Round
  skip : EspFrameParser → Round

-- The candidate at the head of the buffer.
unfoldable pub check_candidate : EspFrameParser → Round
check_candidate s =
    if ltb (length s.buffer) 8
    then stop s
    else if byte s.buffer 7 == crc8_maxim (body s.buffer)
    then emit (take 8 s.buffer) (record s { buffer = drop 8 s.buffer })
    else skip (record {
      buffer = drop 1 s.buffer;
      dropped_partial_frames = s.dropped_partial_frames + 1;
      crc_error_frames = s.crc_error_frames + 1;
    })

-- `del self._buffer[:i]`, counted as dropped.
unfoldable pub skip_to : ℕ → EspFrameParser → EspFrameParser
skip_to i s = record s {
  buffer = drop i s.buffer;
  dropped_partial_frames = s.dropped_partial_frames + i;
}

-- The buffer when no header was found, or when one was found at an index.
unfoldable pub resync : Option ℕ → EspFrameParser → Round
resync none s =
    stop (record s {
      buffer = [];
      dropped_partial_frames = s.dropped_partial_frames + length s.buffer;
    })
resync (some i) s = check_candidate (skip_to i s)

unfoldable pub round : EspFrameParser → Round
round s =
    if ltb (length s.buffer) 8
    then stop s
    else if is_header (byte s.buffer 0)
    then check_candidate s
    else resync (header_index s.buffer) s

-- `feed` returns its frames and the new state.
abbrev pub Fed : Type 0
Fed = List (List ℕ) × EspFrameParser

-- What follows a round: the end of the loop, or the next round.
unfoldable pub after_round : (List (List ℕ) → EspFrameParser → Fed) → List (List ℕ) → Round → Fed
after_round next frames (stop t) = (frames, t)
after_round next frames (emit f t) = next (frames ++ f ∷ []) t
after_round next frames (skip t) = next frames t

-- The loop, on fuel: it takes at most one round for each byte, and one more.
unfoldable pub feed_loop : ℕ → List (List ℕ) → EspFrameParser → Fed
feed_loop zero frames s = (frames, s)
feed_loop (suc fuel) frames s = after_round (feed_loop fuel) frames (round s)

unfoldable pub feed : List ℕ → EspFrameParser → Fed
feed data' s =
    if is_empty data'
    then ([], s)
    else (let t = record s { buffer = s.buffer ++ data' } in feed_loop (suc (length t.buffer)) [] t)

-- `frame and frame[0] == ESP_HEADER`
abbrev pub is_esp : List ℕ → Bool
is_esp [] = false
is_esp (header ∷ rest) = header == 0x55

-- The loops of `decode_stream_chunks`; `clock k` is the k-th reading of `time.monotonic()`.
module _ {T : Type 0} ⦃F : Float T⦄ (clock : ℕ → T) where
  unfoldable pub decode_frames :
      ℕ → List (Telemetry T) → List (List ℕ) → Result DecodeError (ℕ × List (Telemetry T))
  decode_frames k out [] = ok (k, out)
  decode_frames k out (frame ∷ frames) = elim (is_esp frame) [
    | true ↦
        decode_esp_frame frame none (clock k) >>= λ t. decode_frames (suc k) (out ++ t ∷ []) frames
    | false ↦ decode_frames k out frames
  ]

  unfoldable pub decode_chunks :
      ℕ
      → List (Telemetry T)
      → EspFrameParser
      → List (List ℕ)
      → Result DecodeError (List (Telemetry T))
  decode_chunks k out s [] = ok out
  decode_chunks k out s (chunk ∷ chunks) =
      decode_frames k out (feed chunk s).0 >>= λ r. decode_chunks r.0 r.1 (feed chunk s).1 chunks

  unfoldable pub decode_stream_chunks : List (List ℕ) → Result DecodeError (List (Telemetry T))
  unfolding decode_chunks
  decode_stream_chunks = decode_chunks 0 [] new
