-- ===== src/Tests/Protocol.antt =====
-- Witnesses and runs for what comes in as text: the requests of the operator, the answer and the
-- chunks of a caster, and the status of the source before.
use salus_robot.Prelude.{
  ℕ, zero, suc, ◌≡◌, refl, true, false, some, Option, List, [], ◌∷◌, ◌++◌, all, length, arith, ap,
}
use salus_robot.Prelude.Int.{ℤ, pos}
use salus_robot.Prelude.Result.{ok}
use salus_robot.Json
use salus_robot.Json.{Json}
use salus_robot.Operator.Request.{OperatorRequest}
use salus_robot.Operator.Protocol.Validate.{validate_request}
use salus_robot.Operator.Protocol.Valid.{IsAnswer, validate_request-IsAnswer}
use salus_robot.Rtcm.Chunks.{feed, new}
use salus_robot.Rtcm.Chunks.RoundTrip.{is_plain, encode, join, closed, feed-encode}
use salus_robot.Rtcm.Chunks.{before_semicolon}
use salus_robot.Rtcm.Response.{
  codes, same_bytes, begins, contains, split_header, split_lines, words, lstrip_text, rstrip_text,
  split_colon, header_or, read_headers, check_status, check_headers, parse_response,
}
use salus_robot.Rtcm.Status.{connected_without_fresh_rtcm}
use salus_robot.Rtcm.Legacy.{status_of, age_at, count_at, delivery_backend, direct_usb}
use salus_robot.Prelude.Text.{strip}
use salus_robot.Json.{lookup, truthy}
use salus_robot.Tests.Values.{whole, sample_json, less_irreflexive, less_asymmetric}

abbrev request : OperatorRequest ℤ
request = record {
  op = "set_manual_cmd";
  request_id = some "7";
  fields = Json.field "linear_x" (Json.int (pos 1)) (
      Json.field "angular_z" (Json.float (pos 0))
        (Json.field "brake_pct" (Json.int (pos 130)) Json.end));
}

validate_request-IsAnswer_example : IsAnswer request (validate_request request)
validate_request-IsAnswer_example =
    validate_request-IsAnswer less_irreflexive less_asymmetric refl request

-- Sizes as so many bytes "1".
ones : ℕ → List ℕ
ones zero = []
ones (suc n) = 49 ∷ ones n

abbrev count : List ℕ → Option ℤ
count bytes = some (pos (length bytes))

length-ones : (n : ℕ) → length (ones n) ≡ n
unfolding ones
length-ones zero = refl
length-ones (suc n) = omega (arith, length-ones n)

count-ones : (n : ℕ) → count (ones n) ≡ some (pos n)
count-ones n = ap (λ m. some (pos m)) (length-ones n)

all_plain : (n : ℕ) → all is_plain (ones n) ≡ true
unfolding ones
all_plain zero = refl
all_plain (suc n) = all_plain n

abbrev chunks : List (List ℕ)
chunks = (1 ∷ 2 ∷ []) ∷ (13 ∷ 10 ∷ 59 ∷ []) ∷ []

feed-encode_example :
    (feed count (encode ones chunks (5 ∷ [])) new ≡ ok (join chunks, closed))
    × (feed count (9 ∷ []) closed ≡ ok ([], closed))
feed-encode_example = feed-encode count ones count-ones all_plain chunks (5 ∷ []) (9 ∷ []) refl

-- An answer with a body in chunks, of which the first byte is there.
abbrev answer : List ℕ
answer =
    codes "HTTP/1.1 200 OK"
    ++ 13 ∷ 10 ∷ codes "transfer-encoding: chunked"
    ++ 13 ∷ 10 ∷ 13 ∷ 10 ∷ 49 ∷ []

answer_run :
    parse_response (λ s. s) answer ≡ ok (some (record { payload = 49 ∷ []; chunked = true }))
unfolding codes same_bytes begins contains split_header split_lines words lstrip_text rstrip_text
    split_colon header_or read_headers check_status check_headers parse_response before_semicolon
answer_run = refl

-- A status without an age, of a source that is connected.
legacy_run :
    status_of (
      Json.field "connected"
        (Json.bool true)
        (Json.field "received_count" (Json.int (pos 4)) Json.end))
    ≡ ok (record {
      sequence = 0;
      source_id = "";
      connected = true;
      receiving = false;
      correction_age_s = pos 0;
      received_count = 4;
      crc_error_count = 0;
      detail = connected_without_fresh_rtcm;
    })
unfolding status_of age_at count_at lookup truthy
legacy_run = refl

backend_run : delivery_backend (λ s. s) " direct_usb " ≡ ok direct_usb
unfolding delivery_backend strip
backend_run = refl
