-- ===== src/Tests/Policies.antt =====
-- Witnesses and runs for the start-up policy and the waypoint actions.
use salus_robot.Prelude.{◌≤◌, ◌≡◌, ◌⊎◌, refl, true, false, none, List, [], ◌∷◌}
use salus_robot.Prelude.Int.{ℤ, pos}
use salus_robot.Prelude.Text.{strip}
use salus_robot.Json.{lookup}
use salus_robot.Navigation.Startup.{ReadinessSnapshot, new}
use salus_robot.Navigation.Startup.Once.{
  Event, sees, comes_up, fails, requests, is_active, requests_once,
}
use salus_robot.Navigation.Actions.{
  parse_item, RouteAction, ActionExecution, pending, succeeded, parse_actions,
}
use salus_robot.Navigation.Actions.Validity.{AllValid, parse_actions-Valid}
use salus_robot.Navigation.Actions.Sequence.{run, run_in_order}
use salus_robot.Tests.Values.{whole, sample_json}

-- Everything is there but the obstacle scan, which is not required.
abbrev snapshot : ReadinessSnapshot
snapshot = record {
  clock_progressive = true;
  odometry_progressive = true;
  odometry_finite = true;
  transform_available = true;
  transform_fresh = true;
  scan_valid = false;
  scan_fresh = false;
  obstacle_detection_required = false;
  keepout_required = true;
  keepout_ready = true;
  lifecycle_manager_ready = true;
  clock_required = true;
}

abbrev events : List Event
events = sees snapshot ∷ comes_up ∷ sees snapshot ∷ fails "late" ∷ []

requests_once_example :
    let (n, q) = requests events new in (n ≤ 1) × ((is_active q.state ≡ false) ⊎ (n ≡ 1))
requests_once_example = requests_once events

abbrev hold : RouteAction ℤ
hold = record {
  kind = "brake_hold";
  duration_s = pos 5;
  brake_pct = pos 100;
  profile = "";
  label = "";
}

abbrev urban : RouteAction ℤ
urban = record {
  kind = "set_navigation_profile";
  duration_s = pos 0;
  brake_pct = pos 0;
  profile = "urban";
  label = "";
}

abbrev execution : ActionExecution ℤ
execution = record {
  waypoint_index = 3;
  actions = hold ∷ urban ∷ [];
  state = pending;
  cursor = 0;
  started_s = none;
  deadline_s = none;
  error = "";
}

parse_actions-Valid_example : AllValid (hold ∷ [])
unfolding parse_actions strip parse_item lookup
parse_actions-Valid_example =
    parse_actions-Valid "[hold]" 3 {actions = hold ∷ []} {canonical = "[...]"} refl

run_in_order_example :
    let times = pos 9 ∷ pos 12 ∷ [] in
    ((run (pos 4) times execution).0 ≡ hold ∷ urban ∷ [])
    × ((run (pos 4) times execution).1.state ≡ succeeded)
run_in_order_example = run_in_order (pos 4) (pos 9 ∷ pos 12 ∷ []) execution refl refl refl
