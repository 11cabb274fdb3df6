-- ===== src/Navigation/Patrol.antt =====
-- patrol_domain.py: `PatrolMachine`, the phases of a patrol.
pub mod Return
pub mod Battery
pub mod Route
use salus_robot.Prelude.{
  ℕ, suc, zero, ◌%◌, Bool, true, false, Option, none, some, List, [], ◌∷◌, ◌++◌, String, str_eq,
  not, ◌&&◌, ◌==◌, length, take, drop, get_elem?, if◌then◌else◌, ◌+◌,
}
use salus_robot.Prelude.Int.{ℤ, pos, pos_part, eqb_ℤ}
use salus_robot.Prelude.Result.{Result, ok, err}
use salus_robot.Float.{Float}
use salus_robot.Json.{PyJson}
use salus_robot.Navigation.Model.{RouteWaypoint}
use salus_robot.Navigation.Mission.{
  PatrolPhase, idle, depart_home, join_loop, patrol, exit_loop, return_home, at_home, paused,
  aborted, PatrolRoute, PatrolMissionSpec, ReturnExit, MissionError, has_waypoints,
  validate_mission, select_return_exit,
}

pub data BatteryReturnDisposition : Type 0 where
  already_home return_requested deferred_until_loop already_returning held_inactive :
      BatteryReturnDisposition

pub record BatteryReturnTransition : Type 0 where
  pub disposition : BatteryReturnDisposition
  pub previous_phase : PatrolPhase
  pub phase : PatrolPhase
  pub cancel_active_route : Bool

pub record PatrolState (T : Type 0) : Type 0 where
  pub phase : PatrolPhase
  pub mission_id : String
  pub return_exit : Option (ReturnExit T)
  pub return_reason : String
  pub low_battery_active : Bool
  pub pause_reason : String

pub record PatrolMachine (T : Type 0) : Type 0 where
  pub spec : PatrolMissionSpec T
  pub state : PatrolState T

-- What the machine raises: a refused mission, `ValueError`, or an exit that is `None`.
pub data PatrolError : Type 0 where
  bad_mission : MissionError → PatrolError
  already_started no_executable_route no_return_exit no_entry : PatrolError

-- `PatrolState.active`
unfoldable pub active : PatrolPhase → Bool
active depart_home = true
active join_loop = true
active patrol = true
active exit_loop = true
active return_home = true
active _ = false

abbrev pub is_idle : PatrolPhase → Bool
is_idle idle = true
is_idle _ = false

abbrev pub is_patrol : PatrolPhase → Bool
is_patrol patrol = true
is_patrol _ = false

-- `reached_loop_input_index == exit.loop_index`, where the former may be `None`
abbrev reached : Option ℤ → ℕ → Bool
reached none exit = false
reached (some index) exit = eqb_ℤ index (pos exit)

-- The loop from an index on, and around.
abbrev pub rotate : {A : Type 0} → ℕ → List A → List A
rotate n xs = drop n xs ++ take n xs

abbrev cancels : PatrolPhase → PatrolPhase → Bool
cancels depart_home at_home = true
cancels _ _ = false

module _ {T : Type 0} where
  abbrev pub set_phase : PatrolPhase → PatrolMachine T → PatrolMachine T
  set_phase phase m = record m { state = record (m.state) { phase = phase } }

  unfoldable pub start :
      Bool → Bool → PatrolMachine T → Result PatrolError (PatrolPhase × PatrolMachine T)
  start home latched m =
      if not (is_idle m.state.phase)
      then err already_started
      else (let s = record (m.state) { low_battery_active = latched } in
          if home && latched
          then ok (
            at_home,
            record m { state = record s { phase = at_home; return_reason = "battery_guard" } },
          )
          else (let phase =
                if home && has_waypoints m.spec.depart then depart_home else join_loop in
              ok (phase, record m { state = record s { phase = phase } })))

  around : ℕ → PatrolMissionSpec T → PatrolRoute T × Bool × ℕ
  around n spec = (
    record { waypoints = rotate n spec.loop.waypoints; actions = rotate n spec.loop.actions },
    true,
    n,
  )

  -- A connector with its destination.
  connect : PatrolRoute T → RouteWaypoint T → PatrolRoute T × Bool × ℕ
  connect route destination = (
    record { waypoints = route.waypoints ++ destination ∷ []; actions = route.actions ++ "" ∷ [] },
    false,
    0,
  )

  -- `current_route` in a phase; the entry of the loop is `none` where the index is out of range.
  route_in : PatrolPhase → PatrolMissionSpec T → Result PatrolError (PatrolRoute T × Bool × ℕ)
  unfolding around connect
  route_in depart_home spec =
      elim (get_elem? spec.loop.waypoints (pos_part spec.depart_entry_loop_index)) [
        | none ↦ err no_entry
        | some destination ↦ ok (connect spec.depart destination)
      ]
  route_in join_loop spec =
      ok (around ((pos_part spec.depart_entry_loop_index + 1) % length spec.loop.waypoints) spec)
  route_in patrol spec = ok (around 0 spec)
  route_in exit_loop spec = ok (around 0 spec)
  route_in return_home spec = ok (connect spec.returning spec.home)
  route_in _ spec = err no_executable_route

  unfoldable pub current_route : PatrolMachine T → Result PatrolError (PatrolRoute T × Bool × ℕ)
  unfolding route_in
  current_route m = route_in m.state.phase m.spec

module _ {T : Type 0} ⦃F : Float T⦄ where
  unfoldable pub create :
      ⦃P : PyJson T⦄ → PatrolMissionSpec T → String → Result PatrolError (PatrolMachine T)
  create spec mission_id = elim (validate_mission spec) [
    | some e ↦ err (bad_mission e)
    | none ↦ ok (record {
      spec = spec;
      state = record {
        phase = idle;
        mission_id = mission_id;
        return_exit = none;
        return_reason = "";
        low_battery_active = false;
        pause_reason = "";
      };
    })
  ]

  -- Where the way home begins.
  abbrev pub return_reference : PatrolMissionSpec T → RouteWaypoint T
  return_reference spec = elim spec.returning.waypoints [ [] ↦ spec.home | point ∷ points ↦ point ]

  unfoldable pub request_return_home : String → PatrolMachine T → Bool × PatrolMachine T
  request_return_home reason m = if not (is_patrol m.state.phase) then (false, m) else (
    true,
    record m {
      state = record (m.state) {
        return_exit = select_return_exit m.spec.loop.waypoints (return_reference m.spec);
        return_reason = reason;
        phase = exit_loop;
      };
    },
  )

  -- `latch_battery_return` in a phase: what it reports, and the machine.
  latch_in : PatrolPhase → Bool → PatrolMachine T → BatteryReturnDisposition × PatrolMachine T
  latch_in at_home home m = (already_home, m)
  latch_in depart_home home m =
      if home then (already_home, set_phase at_home m) else (deferred_until_loop, m)
  latch_in patrol home m = (return_requested, (request_return_home "battery_guard" m).1)
  latch_in join_loop home m = (deferred_until_loop, m)
  latch_in exit_loop home m = (already_returning, m)
  latch_in return_home home m = (already_returning, m)
  latch_in _ home m = (held_inactive, m)

  unfoldable pub latch_battery_return :
      Bool → PatrolMachine T → BatteryReturnTransition × PatrolMachine T
  unfolding latch_in
  latch_battery_return home m =
      let previous = m.state.phase in
      let latched = record m {
        state = record (m.state) { low_battery_active = true; return_reason = "battery_guard" };
      } in
      let (disposition, n) = latch_in previous home latched in
      (
        record {
          disposition = disposition;
          previous_phase = previous;
          phase = n.state.phase;
          cancel_active_route = cancels previous n.state.phase;
        },
        n,
      )

  succeeded_in : PatrolPhase → Option ℤ → PatrolMachine T → Result PatrolError (PatrolMachine T)
  succeeded_in depart_home index m = ok (set_phase join_loop m)
  succeeded_in join_loop index m =
      let n = set_phase patrol m in
      ok (if n.state.low_battery_active then (request_return_home "battery_guard" n).1 else n)
  succeeded_in exit_loop index m = elim m.state.return_exit [
    | none ↦ err no_return_exit
    | some exit ↦ ok (if reached index exit.loop_index then set_phase return_home m else m)
  ]
  succeeded_in return_home index m = ok (set_phase at_home m)
  succeeded_in _ index m = ok m

  -- The phase that `goal_succeeded` returns is that of the machine it leaves.
  unfoldable pub goal_succeeded : Option ℤ → PatrolMachine T → Result PatrolError (PatrolMachine T)
  unfolding succeeded_in
  goal_succeeded index m = succeeded_in m.state.phase index m

  unfoldable pub pause : String → PatrolMachine T → PatrolMachine T
  pause reason m =
      if active m.state.phase
      then record m { state = record (m.state) { phase = paused; pause_reason = reason } }
      else m

  unfoldable pub abort : String → PatrolMachine T → PatrolMachine T
  abort reason m = record m { state = record (m.state) { phase = aborted; pause_reason = reason } }
