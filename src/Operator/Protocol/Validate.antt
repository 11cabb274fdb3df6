-- ===== src/Operator/Protocol/Validate.antt =====
-- `validate_request` of protocol.py.
use Prim.Native.String.{◌++◌}
use salus_robot.Prelude.{
  Bool, true, false, not, ◌||◌, Option, none, some, String, str_eq, List, [], ◌∷◌, if◌then◌else◌,
}
use salus_robot.Prelude.Result.{Result, ok, err, ◌>>=◌, map_result}
use salus_robot.Prelude.Text.{is_in, is_blank, strip}
use salus_robot.Float
use salus_robot.Float.{Float, nought}
use salus_robot.Json.{Json, null, bool, float, str, arr, obj, Fields, lookup, put, PyJson}
use salus_robot.Operator.Request.{OperatorRequest}
use salus_robot.Operator.Protocol.{ProtocolError, invalid, is_null}

abbrev pub known_operations : List String
known_operations =
    "list_routes" ∷ "get_route" ∷ "save_route" ∷ "delete_route" ∷ "recordings_status"
    ∷ "recordings_list" ∷ "recordings_start" ∷ "recordings_stop" ∷ "get_state" ∷ "set_control_lock"
    ∷ "control_heartbeat" ∷ "set_zones_geojson" ∷ "load_zones_file" ∷ "save_waypoints_file"
    ∷ "load_waypoints_file" ∷ "set_goal_ll" ∷ "cancel_goal" ∷ "brake" ∷ "set_route_ll"
    ∷ "cancel_route" ∷ "set_patrol_ll" ∷ "cancel_patrol" ∷ "request_return_home"
    ∷ "set_navigation_profile" ∷ "set_manual_mode" ∷ "set_manual_cmd" ∷ "get_nav_snapshot"
    ∷ "set_sensor_info_view" ∷ "camera_pan" ∷ "camera_zoom_toggle" ∷ "get_camera_status"
    ∷ "camera_ptz_move" ∷ "camera_ptz_preset" ∷ "camera_ptz_set_preset" ∷ "get_camera_ptz_state"
    ∷ []

abbrev pub fixed_datum_mutations : List String
fixed_datum_mutations =
    "set_datum" ∷ "save_datum" ∷ "delete_datum" ∷ "select_datum" ∷ "capture_current_gps_datum" ∷ []

-- What `validate_request` raises: a `ProtocolError`, or the `TypeError` of a value that is sought in a
-- set and has no hash.
pub data RequestError : Type 0 where
  refused : ProtocolError → RequestError
  unhashable : RequestError

unfoldable pub refusing : {A : Type 0} → Result ProtocolError A → Result RequestError A
refusing (ok a) = ok a
refusing (err e) = err (refused e)

module _ {T : Type 0} where
  abbrev pub is_bool : Option (Json T) → Bool
  is_bool (some (bool b)) = true
  is_bool _ = false

  abbrev pub has : String → Fields T → Bool
  has key fields = elim (lookup key fields) [ none ↦ false | some v ↦ true ]

  unfoldable pub require_bool :
      OperatorRequest T → String → Fields T → Result ProtocolError (Fields T)
  require_bool r key fields =
      if is_bool (lookup key fields)
      then ok fields
      else err (invalid (key ++ " must be boolean") r.op r.request_id)

  -- The check of `profile`, which asks a set: that raises for a list or an object.
  unfoldable pub require_profile : OperatorRequest T → Fields T → Result RequestError (Fields T)
  require_profile r fields =
      let refusal = err (refused (invalid "profile must be urban or rural" r.op r.request_id)) in
      elim (lookup "profile" fields) [
        | none ↦ refusal
        | some v ↦ elim v [
          | str s ↦ if is_in s ("urban" ∷ "rural" ∷ []) then ok fields else refusal
          | arr xs ↦ err unhashable
          | obj fs ↦ err unhashable
          | _ ↦ refusal
        ]
      ]

  -- The check of `tab`.
  unfoldable pub optional_tab : OperatorRequest T → Fields T → Result ProtocolError (Fields T)
  optional_tab r fields =
      let refused = err (invalid "tab must be a string" r.op r.request_id) in
      elim (lookup "tab" fields) [
        | none ↦ ok fields
        | some v ↦ elim v [ null ↦ ok fields | str s ↦ ok fields | _ ↦ refused ]
      ]

  -- The check of `preset`, and its text without the blanks around it.
  unfoldable pub require_preset : OperatorRequest T → Fields T → Result ProtocolError (Fields T)
  require_preset r fields =
      let refused = err (invalid "preset is required" r.op r.request_id) in
      elim (lookup "preset" fields) [
        | none ↦ refused
        | some v ↦ elim v [
          | str s ↦ if is_blank s then refused else ok (put "preset" (str (strip s)) fields)
          | _ ↦ refused
        ]
      ]

  unfoldable pub require_axis : OperatorRequest T → Fields T → Result ProtocolError (Fields T)
  require_axis r fields =
      if has "pan_deg" fields || has "tilt_deg" fields || has "zoom_level" fields
      then ok fields
      else err (invalid "camera PTZ move needs one axis" r.op r.request_id)

module _ {T : Type 0} ⦃F : Float T⦄ ⦃J : PyJson T⦄ where
  -- `float(value)` of what is not a Boolean.
  abbrev number_of : Json T → Option T
  number_of (bool b) = none
  number_of v = J.to_float v

  abbrev pub number_or : Option T → Option (Json T) → Option T
  number_or default none = default
  number_or default (some v) = number_of v

  -- `_finite_number`, with the number that a missing key stands for; `none` is `None`.
  unfoldable pub finite_number :
      OperatorRequest T → String → Option T → Fields T → Result ProtocolError T
  finite_number r key default fields =
      let refused = err (invalid (key ++ " must be finite") r.op r.request_id) in
      elim (number_or default (lookup key fields)) [
        | none ↦ refused
        | some x ↦ if F.finite x then ok x else refused
      ]

  -- `fields[key] = _finite_number(fields, key, request)`
  unfoldable pub put_number :
      OperatorRequest T → String → Fields T → Result ProtocolError (Fields T)
  put_number r key fields =
      map_result (λ x. put key (float x) fields) (finite_number r key none fields)

  -- The same where the key is there.
  unfoldable pub put_if_there :
      OperatorRequest T → String → Fields T → Result ProtocolError (Fields T)
  put_if_there r key fields = if has key fields then put_number r key fields else ok fields

  -- The same where the value is not null.
  unfoldable pub put_unless_null :
      OperatorRequest T → String → Fields T → Result ProtocolError (Fields T)
  put_unless_null r key fields = elim (lookup key fields) [
    | none ↦ ok fields
    | some v ↦ if is_null v then ok fields else put_number r key fields
  ]

  -- The brake, which is bounded to 0 to 100 percent.
  unfoldable pub put_brake : OperatorRequest T → Fields T → Result ProtocolError (Fields T)
  put_brake r fields = finite_number r "brake_pct" (some nought) fields >>= λ brake.
      ok (put "brake_pct" (float (Float.max nought (Float.min (F.decimal 100 0) brake))) fields)

  -- The checks of the fields of an operation.
  unfoldable pub validate_fields : OperatorRequest T → Result RequestError (Fields T)
  validate_fields r =
      if str_eq r.op "set_control_lock"
      then refusing (require_bool r "locked" r.fields)
      else if str_eq r.op "set_manual_mode"
      then refusing (require_bool r "enabled" r.fields)
      else if str_eq r.op "set_manual_cmd"
      then refusing (put_number r "linear_x" r.fields >>= put_number r "angular_z" >>= put_brake r)
      else if str_eq r.op "set_navigation_profile"
      then require_profile r r.fields
      else if str_eq r.op "set_sensor_info_view"
      then refusing
          (require_bool r "enabled" r.fields >>= put_unless_null r "interval_s" >>= optional_tab r)
      else if str_eq r.op "camera_pan"
      then refusing (put_number r "angle" r.fields)
      else if str_eq r.op "camera_ptz_move"
      then refusing (
          require_bool r "relative" r.fields
          >>= put_if_there r "pan_deg"
          >>= put_if_there r "tilt_deg"
          >>= put_if_there r "zoom_level"
          >>= require_axis r)
      else if str_eq r.op "camera_ptz_preset"
      then refusing (require_preset r r.fields)
      else if str_eq r.op "camera_ptz_set_preset"
      then refusing (require_preset r r.fields >>= require_bool r "save_zoom")
      else ok r.fields

  unfoldable pub validate_request : OperatorRequest T → Result RequestError (OperatorRequest T)
  validate_request r =
      if is_in r.op fixed_datum_mutations
      then err (
          refused (record {
            code = "UNSUPPORTED_FIXED_DATUM";
            message = "datum mutation is unavailable while SALUS uses a fixed datum";
            request = r.op;
            request_id = r.request_id;
          }))
      else if not (is_in r.op known_operations)
      then err (
          refused (record {
            code = "unknown_op";
            message = "unsupported operation";
            request = r.op;
            request_id = r.request_id;
          }))
      else map_result (λ fields. record r { fields = fields }) (validate_fields r)
