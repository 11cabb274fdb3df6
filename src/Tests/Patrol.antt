-- ===== src/Tests/Patrol.antt =====
-- Witnesses and runs for the patrol.
use salus_robot.Prelude.{
  ℕ, ◌<◌, ◌≡◌, ◌≢◌, refl, true, false, none, some, List, [], ◌∷◌, length, arith,
}
use salus_robot.Prelude.Int.{ℤ, pos, ltb_ℤ, eqb_ℤ}
use salus_robot.Prelude.Result.{ok, is_ok}
use salus_robot.Prelude.Text.{strip}
use salus_robot.Json.{lookup}
use salus_robot.Navigation.Actions.{parse_actions, parse_item}
use salus_robot.Navigation.Model.{RouteWaypoint}
use salus_robot.Navigation.Mission.{
  validate_mission, finite_waypoint, validate_route, validate_points, PatrolMissionSpec, ReturnExit,
  idle, patrol, at_home, select_return_exit, nearest, better, distance, validate_mission,
}
use salus_robot.Navigation.Mission.Exit.{IsExit, NoneCloser, select_return_exit-IsExit}
use salus_robot.Navigation.Patrol.{
  PatrolMachine, create, goal_succeeded, latch_battery_return, request_return_home,
}
use salus_robot.Navigation.Patrol.Return.{
  Call, starts, requests, succeeds, perform_all, goal_succeeded_total,
}
use salus_robot.Navigation.Patrol.Battery.{latched_never_patrols, return_reaches_home}
use salus_robot.Tests.Values.{whole, sample_json, less_irreflexive}

-- A waypoint on the map.
abbrev at : ℕ → RouteWaypoint ℤ
at x = record {
  lat = pos 0;
  lon = pos 0;
  yaw_deg = pos 0;
  input_index = pos x;
  key = true;
  action_json = "";
  role = "normal";
  map_x = some (pos x);
  map_y = some (pos 0);
  yaw_explicit = false;
}

abbrev mission : PatrolMissionSpec ℤ
mission = record {
  home = at 0;
  loop = record { waypoints = at 9 ∷ at 4 ∷ at 7 ∷ []; actions = "" ∷ "[hold]" ∷ "" ∷ [] };
  depart = record { waypoints = []; actions = [] };
  returning = record { waypoints = at 2 ∷ []; actions = "" ∷ [] };
  depart_entry_loop_index = pos 1;
  leg_spacing_m = pos 5;
  chunk_span_m = pos 20;
  chunk_max_waypoints = pos 8;
  version = pos 1;
}

abbrev machine : PatrolMachine ℤ
machine = record {
  spec = mission;
  state = record {
    phase = idle;
    mission_id = "m";
    return_exit = none;
    return_reason = "";
    low_battery_active = false;
    pause_reason = "";
  };
}

machine_created : create mission "m" ≡ ok machine
unfolding create validate_mission finite_waypoint validate_route validate_points parse_actions strip
    parse_item lookup
machine_created = refl

abbrev patrolling : PatrolMachine ℤ
patrolling = record machine { state = record (machine.state) { phase = patrol } }

abbrev calls : List Call
calls = starts true false ∷ succeeds none ∷ requests "operator" ∷ succeeds (some (pos 0)) ∷ []

goal_succeeded_total_example :
    is_ok (goal_succeeded (some (pos 1)) (perform_all calls machine)) ≡ true
goal_succeeded_total_example =
    goal_succeeded_total mission "m" calls (some (pos 1)) {m = machine} machine_created

latched_never_patrols_example :
    let n = perform_all calls (latch_battery_return false patrolling).1 in
    (n.state.phase ≢ patrol) × (n.state.low_battery_active ≡ true)
latched_never_patrols_example = latched_never_patrols false calls patrolling refl

abbrev nearest_exit : ReturnExit ℤ
nearest_exit = record { loop_index = 1; waypoint = at 4; distance_m = pos 2 }

return_reaches_home_example :
    let path = requests "operator" ∷ succeeds (some (pos 1)) ∷ succeeds none ∷ [] in
    (perform_all path patrolling).state.phase ≡ at_home
unfolding request_return_home select_return_exit nearest better distance
return_reaches_home_example = return_reaches_home "operator" none patrolling nearest_exit refl refl

less_trans : (a b c : ℤ) → ltb_ℤ a b ≡ true → ltb_ℤ b c ≡ true → ltb_ℤ a c ≡ true
less_trans a b c h k = ground arith

equal_apart : (a b : ℤ) → eqb_ℤ a b ≡ true → ltb_ℤ a b ≡ false
equal_apart a b h = ground arith

select_return_exit-IsExit_example :
    (exit : ReturnExit ℤ) × (select_return_exit mission.loop.waypoints (at 2) ≡ some exit)
    × (exit.loop_index < length mission.loop.waypoints)
    × IsExit (at 2) mission.loop.waypoints exit
    × NoneCloser (at 2) mission.loop.waypoints exit.distance_m
select_return_exit-IsExit_example =
    select_return_exit-IsExit (at 2) less_trans equal_apart less_irreflexive mission.loop.waypoints
      (omega arith)
