-- ===== src/Tests/Esp32.antt =====
-- Witnesses and runs for the serial protocol of the ESP32.
use mathlib.Core.List.{flatten}
use salus_robot.Prelude.{ℕ, ◌+◌, ◌*◌, ◌<◌, ◌≡◌, true, false, List, [], ◌∷◌, length, arith}
use salus_robot.Prelude.Int.{ℤ, pos, negsuc}
use salus_robot.Prelude.Result.{ok}
use salus_robot.Esp32.Command.{CommandState, encode_pi_frame}
use salus_robot.Esp32.Command.Frame.{IsFrame, encode_fields}
use salus_robot.Esp32.Parser.{EspFrameParser, feed, decode_stream_chunks}
use salus_robot.Esp32.Parser.Refinement.{frames_of}
use salus_robot.Esp32.Parser.Progress.{AllFrames, load, feed-conserves}
use salus_robot.Esp32.Parser.Chunks.{telemetries, decode_stream_chunks-eq-telemetries}
use salus_robot.Tests.Values.{whole, clock}

-- A telemetry frame: 5.13 m/s, 7.68 degrees.
abbrev frame : List ℕ
frame = 0x55 ∷ 0 ∷ 1 ∷ 2 ∷ 0 ∷ 3 ∷ 4 ∷ 162 ∷ []

-- A parser that holds a piece of a frame.
abbrev parser : EspFrameParser
parser = record { buffer = 0x55 ∷ 0 ∷ 1 ∷ []; dropped_partial_frames = 2; crc_error_frames = 1 }

-- The rest of that frame, noise, and a frame that is not whole.
abbrev rest : List ℕ
rest = 2 ∷ 0 ∷ 3 ∷ 4 ∷ 162 ∷ 7 ∷ 8 ∷ 0x56 ∷ 0 ∷ []

abbrev chunks : List (List ℕ)
chunks = (0x55 ∷ 0 ∷ 1 ∷ []) ∷ rest ∷ []

abbrev command : CommandState ℤ
command = record {
  drive_enabled = true;
  estop = false;
  hazard_enabled = true;
  steer_pct = negsuc 119;
  speed_mps = negsuc 1;
  brake_pct = pos 30;
  max_speed_mps = pos 4;
  max_reverse_mps = pos 2;
}

encode_fields_example : IsFrame command (encode_pi_frame command)
encode_fields_example = encode_fields command

feed-conserves_example :
    let (frames, t) = feed rest parser in
    (length t.buffer < 8)
    × (load t + 8 * length frames ≡ load parser + length rest)
    × AllFrames frames
feed-conserves_example = feed-conserves rest parser (omega arith)

decode_stream_chunks_example :
    decode_stream_chunks clock chunks ≡ ok (telemetries clock 0 (frames_of (flatten chunks)))
decode_stream_chunks_example = decode_stream_chunks-eq-telemetries clock chunks
