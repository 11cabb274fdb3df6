-- ===== src/Navigation/Patrol/Battery.antt =====
-- A latched battery return, and the way home.
use salus_robot.Prelude.{◌≡◌, ◌≢◌, Bool, true, false, some, List, [], ◌∷◌, String, arith, Option}
use salus_robot.Prelude.Int.{ℤ, pos}
use salus_robot.Float.{Float}
use salus_robot.Navigation.Mission.{patrol, at_home, ReturnExit}
use salus_robot.Navigation.Patrol.{
  PatrolMachine, is_idle, is_patrol, start, request_return_home, latch_battery_return,
  goal_succeeded, pause, abort,
}
use salus_robot.Navigation.Patrol.Return.{
  Call, starts, requests, latches, succeeds, pauses, aborts, perform, perform_all,
}

module _ {T : Type 0} ⦃F : Float T⦄ where
  -- The return is latched, on a machine that was started and does not patrol.
  record IsLatched (m : PatrolMachine T) : Type 0 where
    low : m.state.low_battery_active ≡ true
    started : is_idle m.state.phase ≡ false
    quiet : is_patrol m.state.phase ≡ false

  latch-IsLatched :
      (home : Bool) (m : PatrolMachine T)
      → is_idle m.state.phase ≡ false
      → IsLatched (latch_battery_return home m).1
  unfolding latch_battery_return request_return_home
  latch-IsLatched home m h = ground arith

  perform-IsLatched : (call : Call) (m : PatrolMachine T) → IsLatched m → IsLatched (perform call m)
  unfolding perform start request_return_home latch_battery_return goal_succeeded pause abort
  perform-IsLatched (starts home latched) m h = ground (arith, h.low, h.started, h.quiet)
  perform-IsLatched (requests reason) m h = ground (arith, h.low, h.started, h.quiet)
  perform-IsLatched (latches home) m h = ground (arith, h.low, h.started, h.quiet)
  perform-IsLatched (succeeds index) m h = ground (arith, h.low, h.started, h.quiet)
  perform-IsLatched (pauses reason) m h = ground (arith, h.low, h.started, h.quiet)
  perform-IsLatched (aborts reason) m h = ground (arith, h.low, h.started, h.quiet)

  perform_all-IsLatched :
      (calls : List Call) (m : PatrolMachine T) → IsLatched m → IsLatched (perform_all calls m)
  unfolding perform_all
  perform_all-IsLatched [] m h = h
  perform_all-IsLatched (call ∷ calls) m h =
      perform_all-IsLatched calls (perform call m) (perform-IsLatched call m h)

  -- Once a battery return is latched on a machine that was started, no calls bring it back to the
  -- patrol phase, nor take the latch off.
  pub latched_never_patrols :
      (home : Bool) (calls : List Call) (m : PatrolMachine T)
      → is_idle m.state.phase ≡ false
      → let n = perform_all calls (latch_battery_return home m).1 in
        (n.state.phase ≢ patrol) × (n.state.low_battery_active ≡ true)
  latched_never_patrols home calls m h =
      let k =
        perform_all-IsLatched calls (latch_battery_return home m).1 (latch-IsLatched home m h) in
      (λ e. ground (arith, k.quiet), k.low)

  -- From the patrol phase, a requested return that chose an exit brings the machine home in two
  -- successes: that of the exit's waypoint, and that of the way home.
  pub return_reaches_home :
      (reason : String) (index : Option ℤ) (m : PatrolMachine T) (exit : ReturnExit T)
      → m.state.phase ≡ patrol
      → (request_return_home reason m).1.state.return_exit ≡ some exit
      → let calls = requests reason ∷ succeeds (some (pos exit.loop_index)) ∷ succeeds index ∷ [] in
        (perform_all calls m).state.phase ≡ at_home
  unfolding perform_all perform request_return_home goal_succeeded
  return_reaches_home reason index m exit p e = ground arith
