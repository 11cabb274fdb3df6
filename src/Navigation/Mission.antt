-- ===== src/Navigation/Mission.antt =====
-- patrol_domain.py: the patrol mission, its validation, and the choice of the exit.
pub mod Exit
pub mod Roles
use salus_robot.Prelude.{
  ℕ, suc, Bool, true, false, Option, none, some, List, [], ◌∷◌, String, str_eq, ltb, ◌==◌, not,
  ◌&&◌, ◌||◌, length, if◌then◌else◌,
}
use salus_robot.Prelude.Int.{ℤ, pos, ltb_ℤ, leb_ℤ, eqb_ℤ}
use salus_robot.Prelude.Result.{Result, ok, err}
use salus_robot.Float.{Float, nought}
use salus_robot.Json.{PyJson}
use salus_robot.Navigation.Actions.{ActionError, parsed, refused, overflow, parse_actions}
use salus_robot.Navigation.Model.{RouteWaypoint}

pub data PatrolPhase : Type 0 where
  idle depart_home join_loop patrol exit_loop return_home at_home paused aborted : PatrolPhase

pub record PatrolRoute (T : Type 0) : Type 0 where
  pub waypoints : List (RouteWaypoint T)
  pub actions : List String

pub record PatrolMissionSpec (T : Type 0) : Type 0 where
  pub home : RouteWaypoint T
  pub loop : PatrolRoute T
  pub depart : PatrolRoute T
  pub returning : PatrolRoute T
  pub depart_entry_loop_index : ℤ
  pub leg_spacing_m : T
  pub chunk_span_m : T
  pub chunk_max_waypoints : ℤ
  pub version : ℤ

pub record ReturnExit (T : Type 0) : Type 0 where
  pub loop_index : ℕ
  pub waypoint : RouteWaypoint T
  pub distance_m : T

-- The errors that are texts, without their wording, and the exception that `parse_actions` raises.
pub data MissionError : Type 0 where
  unsupported_version home_not_finite : MissionError
  route_empty actions_length_differs : String → MissionError
  waypoint_not_finite : String → ℕ → MissionError
  bad_action : String → ActionError → MissionError
  action_overflow : MissionError
  loop_too_short entry_outside_loop not_positive chunk_not_positive : MissionError

-- `first or second`, for errors
abbrev or_else : Option MissionError → Option MissionError → Option MissionError
or_else none second = second
or_else (some e) second = some e

abbrev error_if : Bool → MissionError → Option MissionError
error_if test e = if test then some e else none

abbrev pub has_waypoints : {T : Type 0} → PatrolRoute T → Bool
has_waypoints route = not (length route.waypoints == 0)

-- `not 0 <= index < len(loop)`
abbrev pub outside : ℤ → ℕ → Bool
outside index size = not (leb_ℤ (pos 0) index && ltb_ℤ index (pos size))

module _ {T : Type 0} ⦃F : Float T⦄ where
  unfoldable pub finite_waypoint : RouteWaypoint T → Bool
  finite_waypoint point = F.finite point.lat && F.finite point.lon

  module _ ⦃P : PyJson T⦄ where
    -- The loop over the waypoints; the two lists are of one length.
    unfoldable pub validate_points :
        String → ℕ → List (RouteWaypoint T) → List String → Option MissionError
    validate_points label index (point ∷ points) (action ∷ actions) =
        let rest = validate_points label (suc index) points actions in
        if not (finite_waypoint point)
        then some (waypoint_not_finite label index)
        else elim (parse_actions {T = T} action index) [
          | parsed a c ↦ rest
          | refused e ↦ some (bad_action label e)
          | overflow ↦ some action_overflow
        ]
    validate_points label index _ _ = none

    unfoldable pub validate_route : PatrolRoute T → String → Bool → Option MissionError
    validate_route route label required =
        if required && not (has_waypoints route)
        then some (route_empty label)
        else if not (length route.waypoints == length route.actions)
        then some (actions_length_differs label)
        else validate_points label 0 route.waypoints route.actions

    -- `isfinite(value) and value > 0.0`
    abbrev positive : T → Bool
    positive value = F.finite value && F.lt nought value

    unfoldable pub validate_mission : PatrolMissionSpec T → Option MissionError
    validate_mission spec =
        let size = length spec.loop.waypoints in
        or_else (error_if (not (eqb_ℤ spec.version (pos 1))) unsupported_version) (
          or_else (error_if (not (finite_waypoint spec.home)) home_not_finite) (
            or_else (validate_route spec.loop "loop" true) (
              or_else (validate_route spec.depart "depart" false) (
                or_else (validate_route spec.returning "return" false) (
                  or_else (error_if (ltb size 2) loop_too_short) (
                    or_else
                      (error_if (outside spec.depart_entry_loop_index size) entry_outside_loop)
                      (or_else
                        (error_if (not (positive spec.leg_spacing_m && positive spec.chunk_span_m))
                          not_positive)
                        (error_if (ltb_ℤ spec.chunk_max_waypoints (pos 1))
                          chunk_not_positive))))))))

  -- `_distance`, in metres on the map, or from the coordinates where one is not converted.
  map_distance : Option T → Option T → Option T → Option T → T → T
  map_distance (some ax) (some ay) (some bx) (some by') fallback =
      F.hypot (F.sub ax bx) (F.sub ay by')
  map_distance _ _ _ _ fallback = fallback

  unfoldable pub distance : RouteWaypoint T → RouteWaypoint T → T
  unfolding map_distance
  distance a b =
      let scale = F.decimal 111320 0 in
      map_distance a.map_x a.map_y b.map_x b.map_y
        (F.hypot (F.mul (F.sub a.lat b.lat) scale) (F.mul (F.sub a.lon b.lon) scale))

  -- `(d, i) < (e, j)` of two tuples
  abbrev before : T → ℕ → T → ℕ → Bool
  before d i e j = if F.eq d e then ltb i j else F.lt d e

  -- One round of `min`: the candidate, if its key is before that of the best so far.
  unfoldable pub better : RouteWaypoint T → ℕ → RouteWaypoint T → ReturnExit T → ReturnExit T
  better reference index point best =
      let d = distance point reference in
      if before d index best.distance_m best.loop_index
      then record { loop_index = index; waypoint = point; distance_m = d }
      else best

  -- `min` over the remaining candidates, from the best so far.
  unfoldable pub nearest :
      RouteWaypoint T → ℕ → List (RouteWaypoint T) → ReturnExit T → ReturnExit T
  nearest reference index [] best = best
  nearest reference index (point ∷ points) best =
      nearest reference (suc index) points (better reference index point best)

  unfoldable pub select_return_exit :
      List (RouteWaypoint T) → RouteWaypoint T → Option (ReturnExit T)
  select_return_exit [] reference = none
  select_return_exit (point ∷ points) reference = some (
      nearest reference 1 points
        (record { loop_index = 0; waypoint = point; distance_m = distance point reference }))

pub data CheckpointRole : Type 0 where
  hard normal : CheckpointRole

-- The `ValueError` of routes whose lists differ in length.
pub data RolesError : Type 0 where
  lengths_differ : RolesError

-- The phases whose routes end.
abbrev pub is_connector : PatrolPhase → Bool
is_connector depart_home = true
is_connector return_home = true
is_connector _ = false

-- `roles[-1] = "hard"`
unfoldable pub harden_last : List CheckpointRole → List CheckpointRole
harden_last [] = []
harden_last (role ∷ []) = hard ∷ []
harden_last (role ∷ next ∷ roles) = role ∷ harden_last (next ∷ roles)

module _ {T : Type 0} where
  abbrev role_of : RouteWaypoint T → String → CheckpointRole
  role_of point action = if not (str_eq action "") || point.yaw_explicit then hard else normal

  unfoldable pub roles_of : List (RouteWaypoint T) → List String → List CheckpointRole
  roles_of (point ∷ points) (action ∷ actions) = role_of point action ∷ roles_of points actions
  roles_of _ _ = []

  unfoldable pub route_roles_for_phase :
      PatrolPhase → PatrolRoute T → Result RolesError (List CheckpointRole)
  route_roles_for_phase phase route =
      if not (length route.waypoints == length route.actions)
      then err lengths_differ
      else (let roles = roles_of route.waypoints route.actions in
          ok (if is_connector phase then harden_last roles else roles))
