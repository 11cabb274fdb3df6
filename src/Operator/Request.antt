-- ===== src/Operator/Request.antt =====
-- `OperatorRequest` and `is_controlled_operation` of protocol.py.
use salus_robot.Prelude.{
  Bool, true, false, Option, some, List, [], ◌∷◌, String, str_eq, ◌&&◌, if◌then◌else◌,
}
use salus_robot.Prelude.Text.{is_in}
use salus_robot.Json.{Json, Fields, lookup}

pub record OperatorRequest (T : Type 0) : Type 0 where
  pub op : String
  pub request_id : Option String
  pub fields : Fields T

abbrev pub controlled_operations : List String
controlled_operations =
    "recordings_start" ∷ "recordings_stop" ∷ "set_goal_ll" ∷ "set_route_ll" ∷ "set_patrol_ll"
    ∷ "set_navigation_profile" ∷ "request_return_home" ∷ "set_manual_cmd" ∷ "camera_pan"
    ∷ "camera_zoom_toggle" ∷ "camera_ptz_move" ∷ "camera_ptz_preset" ∷ "camera_ptz_set_preset" ∷ []

module _ {T : Type 0} where
  -- `value is True`
  abbrev pub is_true : Option (Json T) → Bool
  is_true (some (Json.bool b)) = b
  is_true _ = false

  unfoldable pub is_controlled_operation : OperatorRequest T → Bool
  unfolding is_in lookup
  is_controlled_operation r =
      if is_in r.op controlled_operations
      then true
      else str_eq r.op "set_manual_mode" && is_true (lookup "enabled" r.fields)
