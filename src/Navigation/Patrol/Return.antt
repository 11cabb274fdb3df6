-- ===== src/Navigation/Patrol/Return.antt =====
-- The return of a patrol: what any sequence of calls keeps, and where it ends.
use salus_robot.Prelude.{
  ◌≡◌, refl, Bool, true, false, Option, none, some, List, [], ◌∷◌, String, arith, ◌<◌, length,
}
use salus_robot.Prelude.Int.{ℤ, pos_part}
use salus_robot.Prelude.Result.{Result, ok, err, is_ok}
use salus_robot.Float.{Float}
use salus_robot.Json.{PyJson}
use salus_robot.Navigation.Mission.{
  PatrolPhase, exit_loop, PatrolMissionSpec, validate_mission, validate_route, select_return_exit,
}
use salus_robot.Navigation.Model.{RouteWaypoint}
use salus_robot.Navigation.Patrol.{
  return_reference, PatrolMachine, PatrolError, start, create, request_return_home,
  latch_battery_return, goal_succeeded, pause, abort,
}

-- The calls of the coordinator.
pub data Call : Type 0 where
  starts : Bool → Bool → Call
  requests : String → Call
  latches : Bool → Call
  succeeds : Option ℤ → Call
  pauses aborts : String → Call

abbrev pub is_exit : PatrolPhase → Bool
is_exit exit_loop = true
is_exit _ = false

abbrev pub has_exit : {A : Type 0} → Option A → Bool
has_exit none = false
has_exit (some e) = true

-- The machine after a call; one that raises leaves it as it was.
abbrev or_same : {A : Type 0} → A → Result PatrolError A → A
or_same m (ok n) = n
or_same m (err e) = m

abbrev started :
    {T : Type 0}
    → PatrolMachine T
    → Result PatrolError (PatrolPhase × PatrolMachine T)
    → PatrolMachine T
started m (ok (phase, n)) = n
started m (err e) = m

module _ {T : Type 0} ⦃F : Float T⦄ where
  unfoldable pub perform : Call → PatrolMachine T → PatrolMachine T
  perform (starts home latched) m = started m (start home latched m)
  perform (requests reason) m = (request_return_home reason m).1
  perform (latches home) m = (latch_battery_return home m).1
  perform (succeeds index) m = or_same m (goal_succeeded index m)
  perform (pauses reason) m = pause reason m
  perform (aborts reason) m = abort reason m

  unfoldable pub perform_all : List Call → PatrolMachine T → PatrolMachine T
  perform_all [] m = m
  perform_all (call ∷ calls) m = perform_all calls (perform call m)

  -- The loop has waypoints, the entry is one of them, each route has an action text for each
  -- waypoint, and a machine that leaves the loop has an exit.
  pub record IsSound (m : PatrolMachine T) : Type 0 where
    pub loop_there : 0 < length m.spec.loop.waypoints
    pub entry_inside : pos_part m.spec.depart_entry_loop_index < length m.spec.loop.waypoints
    pub loop_even : length m.spec.loop.waypoints ≡ length m.spec.loop.actions
    pub depart_even : length m.spec.depart.waypoints ≡ length m.spec.depart.actions
    pub returning_even : length m.spec.returning.waypoints ≡ length m.spec.returning.actions
    pub exit_there : is_exit m.state.phase ≡ true → has_exit m.state.return_exit ≡ true

  select-has_exit :
      (points : List (RouteWaypoint T)) (reference : RouteWaypoint T)
      → 0 < length points
      → has_exit (select_return_exit points reference) ≡ true
  unfolding select_return_exit
  select-has_exit [] reference h = absurd (omega arith)
  select-has_exit (p ∷ ps) reference h = refl

  start-IsSound :
      (home latched : Bool) (m : PatrolMachine T)
      → IsSound m
      → IsSound (started m (start home latched m))
  unfolding start
  start-IsSound home latched m h = ground (
    arith, h.loop_there, h.exit_there, h.entry_inside, h.loop_even, h.depart_even, h.returning_even,
  )

  request-IsSound :
      (reason : String) (m : PatrolMachine T) → IsSound m → IsSound (request_return_home reason m).1
  unfolding request_return_home
  request-IsSound reason m h = ground (
    arith,
    h.loop_there,
    h.exit_there,
    h.entry_inside,
    h.loop_even,
    h.depart_even,
    h.returning_even,
    select-has_exit m.spec.loop.waypoints (return_reference m.spec) h.loop_there,
  )

  latch-IsSound :
      (home : Bool) (m : PatrolMachine T) → IsSound m → IsSound (latch_battery_return home m).1
  unfolding latch_battery_return request_return_home
  latch-IsSound home m h = ground (
    arith,
    h.loop_there,
    h.exit_there,
    select-has_exit m.spec.loop.waypoints (return_reference m.spec) h.loop_there,
  )

  succeeded-IsSound :
      (index : Option ℤ) (m : PatrolMachine T)
      → IsSound m
      → IsSound (or_same m (goal_succeeded index m))
  unfolding goal_succeeded request_return_home
  succeeded-IsSound index m h = ground (
    arith,
    h.loop_there,
    h.exit_there,
    select-has_exit m.spec.loop.waypoints (return_reference m.spec) h.loop_there,
  )

  pause-IsSound : (reason : String) (m : PatrolMachine T) → IsSound m → IsSound (pause reason m)
  unfolding pause
  pause-IsSound reason m h = ground (
    arith, h.loop_there, h.exit_there, h.entry_inside, h.loop_even, h.depart_even, h.returning_even,
  )

  perform-IsSound : (call : Call) (m : PatrolMachine T) → IsSound m → IsSound (perform call m)
  unfolding perform abort
  perform-IsSound (starts home latched) m h = start-IsSound home latched m h
  perform-IsSound (requests reason) m h = request-IsSound reason m h
  perform-IsSound (latches home) m h = latch-IsSound home m h
  perform-IsSound (succeeds index) m h = succeeded-IsSound index m h
  perform-IsSound (pauses reason) m h = pause-IsSound reason m h
  perform-IsSound (aborts reason) m h = record {
    loop_there = h.loop_there;
    entry_inside = h.entry_inside;
    loop_even = h.loop_even;
    depart_even = h.depart_even;
    returning_even = h.returning_even;
    exit_there = λ e. cc;
  }

  pub patrol_all-IsSound :
      (calls : List Call) (m : PatrolMachine T) → IsSound m → IsSound (perform_all calls m)
  unfolding perform_all
  patrol_all-IsSound [] m h = h
  patrol_all-IsSound (call ∷ calls) m h =
      patrol_all-IsSound calls (perform call m) (perform-IsSound call m h)

  goal_succeeded-ok :
      (index : Option ℤ) (m : PatrolMachine T) → IsSound m → is_ok (goal_succeeded index m) ≡ true
  unfolding goal_succeeded
  goal_succeeded-ok index m h = ground (arith, h.exit_there)

  module _ ⦃P : PyJson T⦄ where
    pub machine_create-IsSound :
        (spec : PatrolMissionSpec T) (id : String) {m : PatrolMachine T}
        → create spec id ≡ ok m
        → IsSound m
    unfolding create validate_mission validate_route
    machine_create-IsSound spec id e = ground arith

    -- `goal_succeeded` raises nothing, whatever was reported reached, on a machine that was
    -- constructed and then called in any way: a machine that leaves the loop knows its exit.
    pub goal_succeeded_total :
        (spec : PatrolMissionSpec T) (id : String) (calls : List Call) (index : Option ℤ)
        {m : PatrolMachine T}
        → create spec id ≡ ok m
        → is_ok (goal_succeeded index (perform_all calls m)) ≡ true
    goal_succeeded_total spec id calls index {m} e =
        goal_succeeded-ok index (perform_all calls m)
          (patrol_all-IsSound calls m (machine_create-IsSound spec id e))
