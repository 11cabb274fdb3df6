-- ===== src/Rtcm/Response.antt =====
-- `parse_response` of ntrip_protocol.py: the header of a caster's answer. A text that was decoded as
-- latin1 is the list of its bytes.
use Prim.Native.Char.{code}
use Prim.Native.String.{String}
use salus_robot.Prelude.{
  ℕ, ◌*◌, Bool, true, false, not, ◌&&◌, ◌||◌, Option, none, some, List, [], ◌∷◌, length, all,
  is_empty, ltb, leb, ◌==◌, if◌then◌else◌,
}
use salus_robot.Prelude.Result.{Result, ok, err, ◌>>=◌}
use salus_robot.Prelude.Text.{is_space}
use salus_robot.Rtcm.Chunks.{split_line, before_semicolon}

-- The texts of the errors that are raised; `http_error` holds the code of the status.
pub data ResponseError : Type 0 where
  sourcetable headers_too_large rejected invalid_response : ResponseError
  invalid_header text_not_corrections : ResponseError
  unsupported_transfer_encoding unsupported_content_encoding : ResponseError
  http_error : List ℕ → ResponseError

pub record NtripResponse : Type 0 where
  pub payload : List ℕ
  pub chunked : Bool

abbrev pub max_header_bytes : ℕ
max_header_bytes = 16 * 1024

-- The bytes of a literal.
unfoldable pub codes : String → List ℕ
codes String.[] = []
codes (String.◌∷◌ c s) = code c ∷ codes s

unfoldable pub same_bytes : List ℕ → List ℕ → Bool
same_bytes [] [] = true
same_bytes (a ∷ xs) (b ∷ ys) = a == b && same_bytes xs ys
same_bytes _ _ = false

-- `bytes.startswith(prefix)`, the prefix first.
unfoldable pub begins : List ℕ → List ℕ → Bool
begins [] bytes = true
begins (a ∷ xs) [] = false
begins (a ∷ xs) (b ∷ bytes) = a == b && begins xs bytes

-- `part in bytes`, the part first.
unfoldable pub contains : List ℕ → List ℕ → Bool
contains part [] = is_empty part
contains part (b ∷ bytes) = begins part (b ∷ bytes) || contains part bytes

-- What stands before the first "\r\n\r\n", and what stands after it.
unfoldable pub split_header : List ℕ → Option (List ℕ × List ℕ)
split_header [] = none
split_header (a ∷ bytes) =
    let later = split_header bytes in
    elim bytes [
      | b ∷ c ∷ d ∷ rest ↦
          if a == 13 && b == 10 && c == 13 && d == 10
          then some ([], rest)
          else elim later [ none ↦ none | some (head, body) ↦ some (a ∷ head, body) ]
      | _ ↦ none
    ]

-- Puts a byte at the front of the first of some pieces.
abbrev to_first : ℕ → List (List ℕ) → List (List ℕ)
to_first b [] = (b ∷ []) ∷ []
to_first b (piece ∷ pieces) = (b ∷ piece) ∷ pieces

-- `text.split("\r\n")`
unfoldable pub split_lines : List ℕ → List (List ℕ)
split_lines [] = [] ∷ []
split_lines (a ∷ []) = (a ∷ []) ∷ []
split_lines (a ∷ b ∷ bytes) =
    let later = split_lines (b ∷ bytes) in
    let next = split_lines bytes in if a == 13 && b == 10 then [] ∷ next else to_first a later

-- Whether a text begins with a blank, or is at its end.
abbrev at_gap : List ℕ → Bool
at_gap [] = true
at_gap (b ∷ bytes) = is_space b

-- `text.split()`
unfoldable pub words : List ℕ → List (List ℕ)
words [] = []
words (b ∷ bytes) =
    let later = words bytes in
    if is_space b then later else if at_gap bytes then (b ∷ []) ∷ later else to_first b later

unfoldable pub lstrip_text : List ℕ → List ℕ
lstrip_text [] = []
lstrip_text (b ∷ bytes) = let rest = lstrip_text bytes in if is_space b then rest else b ∷ bytes

unfoldable pub rstrip_text : List ℕ → List ℕ
rstrip_text [] = []
rstrip_text (b ∷ bytes) =
    let rest = rstrip_text bytes in if is_empty rest && is_space b then [] else b ∷ rest

-- `text.strip()`
abbrev strip_text : List ℕ → List ℕ
strip_text bytes = rstrip_text (lstrip_text bytes)

-- `str.isdigit` at one character of latin1.
abbrev is_digit : ℕ → Bool
is_digit b = leb 48 b && leb b 57 || b == 178 || b == 179 || b == 185

-- `line.split(":", 1)`, or `none` without a colon.
unfoldable pub split_colon : List ℕ → Option (List ℕ × List ℕ)
split_colon [] = none
split_colon (b ∷ bytes) =
    let later = split_colon bytes in
    if b == 58
    then some ([], bytes)
    else elim later [ none ↦ none | some (key, value) ↦ some (b ∷ key, value) ]

abbrev pub Headers : Type 0
Headers = List (List ℕ × List ℕ)

-- `headers.get(key, default)`; the header that came last stands first.
unfoldable pub header_or : List ℕ → List ℕ → Headers → List ℕ
header_or key default [] = default
header_or key default ((k, v) ∷ headers) =
    let rest = header_or key default headers in if same_bytes k key then v else rest

-- The loop over the lines. `lower` is `str.lower`.
unfoldable pub read_headers :
    (List ℕ → List ℕ) → List (List ℕ) → Headers → Result ResponseError Headers
read_headers lower [] headers = ok headers
read_headers lower (line ∷ lines) headers = elim (split_colon line) [
  | none ↦ err invalid_header
  | some (key, value) ↦
      read_headers lower lines ((lower (strip_text key), lower (strip_text value)) ∷ headers)
]

-- The checks of the status line.
unfoldable pub check_status : List (List ℕ) → Option ResponseError
check_status (version ∷ status ∷ rest) =
    if not (same_bytes version (codes "HTTP/1.0") || same_bytes version (codes "HTTP/1.1"))
    then some invalid_response
    else if same_bytes status (codes "200")
    then none
    else some (http_error (if all is_digit status then status else codes "invalid"))
check_status _ = some invalid_response

-- The checks of the headers, and the response with the bytes after them.
unfoldable pub check_headers : List ℕ → Headers → Result ResponseError NtripResponse
check_headers body headers =
    let content_type =
      strip_text (before_semicolon (header_or (codes "content-type") [] headers)) in
    let transfer = header_or (codes "transfer-encoding") (codes "identity") headers in
    let encoding = header_or (codes "content-encoding") (codes "identity") headers in
    let plain = λ (t : List ℕ). is_empty t || same_bytes t (codes "identity") in
    if contains (codes "sourcetable") content_type || begins (codes "text/") content_type
    then err text_not_corrections
    else if not (plain transfer || same_bytes transfer (codes "chunked"))
    then err unsupported_transfer_encoding
    else if not (plain encoding)
    then err unsupported_content_encoding
    else ok (record { payload = body; chunked = same_bytes transfer (codes "chunked") })

abbrev first_line : List (List ℕ) → List ℕ
first_line [] = []
first_line (line ∷ lines) = line

abbrev other_lines : List (List ℕ) → List (List ℕ)
other_lines [] = []
other_lines (line ∷ lines) = lines

-- The answer where no end of the header has come yet.
abbrev unfinished : List ℕ → Result ResponseError (Option NtripResponse)
unfinished bytes = if ltb max_header_bytes (length bytes) then err headers_too_large else ok none

-- `none` asks for more bytes.
unfoldable pub parse_response :
    (List ℕ → List ℕ) → List ℕ → Result ResponseError (Option NtripResponse)
parse_response lower bytes =
    if begins (codes "SOURCETABLE") bytes
    then err sourcetable
    else if begins (codes "ICY") bytes
    then elim (split_line bytes) [
      | none ↦ unfinished bytes
      | some (line, body) ↦
          if same_bytes line (codes "ICY 200 OK")
          then ok (some (record { payload = body; chunked = false }))
          else err rejected
    ]
    else elim (split_header bytes) [
      | none ↦ unfinished bytes
      | some (head, body) ↦
          if ltb max_header_bytes (length head)
          then err headers_too_large
          else (let lines = split_lines head in
              elim (check_status (words (first_line lines))) [
                | some e ↦ err e
                | none ↦ read_headers lower (other_lines lines) [] >>= λ headers.
                    check_headers body headers >>= λ response. ok (some response)
              ])
    ]
