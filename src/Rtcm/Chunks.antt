-- ===== src/Rtcm/Chunks.antt =====
-- `ChunkDecoder` of ntrip_protocol.py. What it raises ends the connection, and the decoder with it.
pub mod RoundTrip
use salus_robot.Prelude.{
  ℕ, zero, suc, ◌+◌, ◌*◌, Bool, true, false, not, ◌&&◌, ◌||◌, Option, none, some, List, [], ◌∷◌,
  ◌++◌, length, take, drop, is_empty, ltb, leb, ◌==◌, if◌then◌else◌,
}
use salus_robot.Prelude.Int.{ℤ, pos, negsuc}
use salus_robot.Prelude.Result.{Result, ok, err, map_result}

-- What `feed` raises; `still_running` is what its loop leaves when its fuel ends.
pub data ChunkError : Type 0 where
  invalid_chunk_header invalid_chunk_size chunk_too_large : ChunkError
  invalid_chunk_terminator still_running : ChunkError

pub record ChunkDecoder : Type 0 where
  pub buffer : List ℕ
  pub remaining : Option ℕ
  pub finished : Bool

unfoldable pub new : ChunkDecoder
new = record { buffer = []; remaining = none; finished = false }

abbrev pub max_chunk_header_bytes : ℕ
max_chunk_header_bytes = 1024

abbrev pub max_chunk_bytes : ℕ
max_chunk_bytes = 1024 * 1024

-- What stands before the first "\r\n", and what stands after it.
unfoldable pub split_line : List ℕ → Option (List ℕ × List ℕ)
split_line [] = none
split_line (a ∷ []) = none
split_line (a ∷ b ∷ bytes) =
    let later = split_line (b ∷ bytes) in
    if a == 13 && b == 10
    then some ([], bytes)
    else elim later [ none ↦ none | some (line, rest) ↦ some (a ∷ line, rest) ]

-- `bytes.split(b";", 1)[0]`
unfoldable pub before_semicolon : List ℕ → List ℕ
before_semicolon [] = []
before_semicolon (b ∷ bytes) = let rest = before_semicolon bytes in if b == 59 then [] else b ∷ rest

-- The blanks of ASCII.
abbrev pub is_blank_byte : ℕ → Bool
is_blank_byte b = leb 9 b && leb b 13 || b == 32

unfoldable pub lstrip_bytes : List ℕ → List ℕ
lstrip_bytes [] = []
lstrip_bytes (b ∷ bytes) =
    let rest = lstrip_bytes bytes in if is_blank_byte b then rest else b ∷ bytes

unfoldable pub rstrip_bytes : List ℕ → List ℕ
rstrip_bytes [] = []
rstrip_bytes (b ∷ bytes) =
    let rest = rstrip_bytes bytes in if is_empty rest && is_blank_byte b then [] else b ∷ rest

-- `bytes.strip()`
abbrev pub strip_bytes : List ℕ → List ℕ
strip_bytes bytes = rstrip_bytes (lstrip_bytes bytes)

-- `bytes == b"\r\n"`
abbrev pub is_line_end : List ℕ → Bool
is_line_end (a ∷ b ∷ []) = a == 13 && b == 10
is_line_end _ = false

abbrev Fed : Type 0
Fed = Result ChunkError (List ℕ × ChunkDecoder)

-- The end of a round: a chunk of `k` bytes that stands at the front of the buffer, where `later` is
-- what the rounds after it return.
unfoldable pub take_chunk : ℕ → List ℕ → Fed → Fed
take_chunk k buffer later =
    if ltb (length buffer) (k + 2)
    then ok ([], record { buffer = buffer; remaining = some k; finished = false })
    else if not (is_line_end (take 2 (drop k buffer)))
    then err invalid_chunk_terminator
    else map_result (λ q. (take k buffer ++ q.0, q.1)) later

-- A decoder that waits for the size of a chunk.
abbrev pub between : List ℕ → ChunkDecoder
between buffer = record { buffer = buffer; remaining = none; finished = false }

-- The rounds of `feed`. `parse_hex` is `int(raw, 16)`, where `none` is a ValueError.
unfoldable pub feed_loop : (List ℕ → Option ℤ) → ℕ → ChunkDecoder → Fed
feed_loop parse_hex zero d = err still_running
feed_loop parse_hex (suc fuel) d = elim d.remaining [
  | some k ↦ take_chunk k d.buffer (feed_loop parse_hex fuel (between (drop (k + 2) d.buffer)))
  | none ↦ elim (split_line d.buffer) [
    | none ↦
        if ltb max_chunk_header_bytes (length d.buffer)
        then err invalid_chunk_header
        else ok ([], d)
    | some (line, rest) ↦ elim (parse_hex (strip_bytes (before_semicolon line))) [
      | none ↦ err invalid_chunk_size
      | some z ↦ elim z [
        | negsuc n ↦ err chunk_too_large
        | pos k ↦
            let later = feed_loop parse_hex fuel (between (drop (k + 2) rest)) in
            if ltb max_chunk_bytes k
            then err chunk_too_large
            else if k == 0
            then ok ([], record { buffer = []; remaining = some 0; finished = true })
            else take_chunk k rest later
      ]
    ]
  ]
]

-- A round takes two bytes at least, so there are no more rounds than bytes, and one.
unfoldable pub feed : (List ℕ → Option ℤ) → List ℕ → ChunkDecoder → Fed
feed parse_hex bytes d =
    let buffer = d.buffer ++ bytes in
    if d.finished
    then ok ([], d)
    else feed_loop parse_hex (suc (length buffer)) (record d { buffer = buffer })
