-- ===== src/Operator/Protocol.antt =====
-- protocol.py: from the text of a request to its fields, and the acknowledgement of one.
pub mod Validate
mod Errors
pub mod Valid
use Prim.Native.String.{◌++◌}
use salus_robot.Prelude.{
  ℕ, Bool, true, false, not, ◌&&◌, ◌||◌, Option, none, some, String, str_eq, List, [], ◌∷◌, map,
  if◌then◌else◌,
}
use salus_robot.Prelude.Result.{Result, ok, err, ◌>>=◌, map_result}
use salus_robot.Prelude.Text.{is_in, is_blank, strip}
use salus_robot.Float
use salus_robot.Float.{Float, nought}
use salus_robot.Json.{
  Json, null, bool, int, float, str, arr, obj, Fields, end, field, lookup, put, PyJson,
}
use salus_robot.Operator.Request.{OperatorRequest}

pub record ProtocolError : Type 0 where
  pub code : String
  pub message : String
  pub request : String
  pub request_id : Option String

-- What `parse_request` takes: bytes, a text, or a value that is there already.
pub data Raw (T : Type 0) : Type 0 where
  octets : List ℕ → Raw T
  text : String → Raw T
  value : Json T → Raw T

abbrev pub request_id_aliases : List String
request_id_aliases = "client_req_id" ∷ "requestId" ∷ "clientReqId" ∷ "request_id" ∷ []

-- `ProtocolError("invalid_request", message, op, request_id)`
abbrev pub invalid : String → String → Option String → ProtocolError
invalid message op id = record {
  code = "invalid_request";
  message = message;
  request = op;
  request_id = id;
}

-- Whether the texts are all the same as one.
unfoldable pub all_equal : String → List String → Bool
all_equal s [] = true
all_equal s (t ∷ ts) = str_eq t s && all_equal s ts

abbrev invalid_json : String → ProtocolError
invalid_json message = record {
  code = "invalid_json";
  message = message;
  request = "invalid_json";
  request_id = none;
}

module _ {T : Type 0} where
  abbrev pub is_null : Json T → Bool
  is_null null = true
  is_null _ = false

  -- The values of the aliases that are there and not null.
  unfoldable pub supplied : List String → Fields T → List (Json T)
  supplied [] fields = []
  supplied (key ∷ keys) fields =
      let rest = supplied keys fields in
      elim (lookup key fields) [ none ↦ rest | some v ↦ if is_null v then rest else v ∷ rest ]

  -- `isinstance(item, (str, int))`, of which a Boolean is an `int`.
  abbrev is_identifier : Json T → Bool
  is_identifier (str s) = true
  is_identifier (int z) = true
  is_identifier (bool b) = true
  is_identifier _ = false

  unfoldable pub all_identifiers : List (Json T) → Bool
  all_identifiers [] = true
  all_identifiers (v ∷ vs) = is_identifier v && all_identifiers vs

  -- The fields of a request that are not reserved, put over those of its payload.
  unfoldable pub add_fields : Fields T → Fields T → Fields T
  add_fields end payload = payload
  add_fields (field key v rest) payload =
      add_fields rest
        (if is_in key ("op" ∷ "payload" ∷ request_id_aliases) then payload else put key v payload)

-- The fields of a response.
abbrev pub Extra : Type 0 → Type 0
Extra T = List (String × Json T)

-- What `ack` is about.
pub data Subject (T : Type 0) : Type 0 where
  request : OperatorRequest T → Subject T
  failure : ProtocolError → Subject T
  operation : String → Subject T

module _ {T : Type 0} where
  abbrev subject_op : Subject T → String
  subject_op (request r) = r.op
  subject_op (failure e) = e.request
  subject_op (operation op) = op

  abbrev subject_id : Subject T → Option String
  subject_id (request r) = r.request_id
  subject_id (failure e) = e.request_id
  subject_id (operation op) = none

  abbrev put_some : String → Option String → Fields T → Fields T
  put_some key none fields = fields
  put_some key (some s) fields = put key (str s) fields

  abbrev or_null : Option String → Json T
  or_null none = null
  or_null (some s) = str s

  -- `result.update(fields)`
  unfoldable pub put_all : Extra T → Fields T → Fields T
  put_all [] fields = fields
  put_all ((key, v) ∷ rest) fields = put_all rest (put key v fields)

  unfoldable pub ack : Subject T → Bool → Option String → Option String → Extra T → Fields T
  ack subject is_ok error code extra = put_all extra (
      put_some "error_code" code (
        put_some "client_req_id" (subject_id subject) (
          field "op" (str "ack") (
            field "request" (str (subject_op subject))
              (field "ok" (bool is_ok) (field "error" (or_null error) end))))))

module _ {T : Type 0} ⦃F : Float T⦄ ⦃J : PyJson T⦄ where
  -- `_request_id`
  unfoldable pub request_id_of : Fields T → String → Result ProtocolError (Option String)
  request_id_of fields op =
      let items = supplied request_id_aliases fields in
      if not (all_identifiers items)
      then err (invalid "request id must be a string or integer" op none)
      else elim (map J.to_str items) [
        | [] ↦ ok none
        | first ∷ others ↦
            if all_equal first others
            then ok (some first)
            else err (invalid "request id aliases disagree" op none)
      ]

  -- `OperatorRequest(op=op, request_id=request_id, fields=fields)`
  abbrev merged : Fields T → String → Option String → Fields T → OperatorRequest T
  merged fields op id payload = record {
    op = op;
    request_id = id;
    fields = add_fields fields payload;
  }

  -- The end of `parse_request`, once the value is an object with an operation.
  unfoldable pub parse_fields : Fields T → String → Result ProtocolError (OperatorRequest T)
  parse_fields fields op = request_id_of fields op >>= λ id. elim (lookup "payload" fields) [
    | none ↦ ok (merged fields op id end)
    | some v ↦ elim v [
      | null ↦ ok (merged fields op id end)
      | obj payload ↦ ok (merged fields op id payload)
      | _ ↦ err (invalid "payload must be an object" op id)
    ]
  ]

  unfoldable pub parse_value : Json T → Result ProtocolError (OperatorRequest T)
  parse_value (obj fields) =
      let refused = err (invalid "request op must be a non-empty string" "invalid_request" none) in
      elim (lookup "op" fields) [
        | none ↦ refused
        | some v ↦ elim v [
          | str op ↦ if is_blank op then refused else parse_fields fields (strip op)
          | _ ↦ refused
        ]
      ]
  parse_value _ = err (invalid "request must be a JSON object" "invalid_request" none)

  unfoldable pub parse_text : String → Result ProtocolError (OperatorRequest T)
  parse_text s = elim (J.loads s) [
    | none ↦ err (invalid_json "invalid JSON request")
    | some v ↦ parse_value v
  ]

  -- `decode` is `bytes.decode("utf-8")`, where `none` is a UnicodeDecodeError.
  unfoldable pub parse_request :
      (List ℕ → Option String) → Raw T → Result ProtocolError (OperatorRequest T)
  parse_request decode (octets bytes) = elim (decode bytes) [
    | none ↦ err (invalid_json "request is not UTF-8")
    | some s ↦ parse_text s
  ]
  parse_request decode (text s) = parse_text s
  parse_request decode (value v) = parse_value v
