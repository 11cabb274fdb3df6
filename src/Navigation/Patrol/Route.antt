-- ===== src/Navigation/Patrol/Route.antt =====
-- `current_route`: in which phases there is a route, and what it holds.
use salus_robot.Prelude.{
  ℕ, suc, zero, ◌+◌, ◌%◌, ◌<◌, ◌≡◌, refl, Bool, true, false, some, List, [], ◌∷◌, String, arith,
  length, take, drop, get_elem?, length-append, length-take, length-drop,
}
use salus_robot.Prelude.Int.{pos_part}
use salus_robot.Prelude.Result.{Result, ok, err}
use salus_robot.Float.{Float}
use salus_robot.Json.{PyJson}
use salus_robot.Navigation.Mission.{PatrolPhase, PatrolRoute, PatrolMissionSpec}
use salus_robot.Navigation.Patrol.{
  PatrolMachine, PatrolError, no_executable_route, active, rotate, route_in, current_route, create,
}
use salus_robot.Navigation.Patrol.Return.{
  Call, perform_all, IsSound, patrol_all-IsSound, machine_create-IsSound,
}

-- The action text of a destination.
abbrev no_action : List String
no_action = "" ∷ []

length-rotate : {A : Type 0} (n : ℕ) (xs : List A) → length (rotate n xs) ≡ length xs
length-rotate n xs =
    omega (arith, length-append (drop n xs) (take n xs), length-take n xs, length-drop n xs)

get_elem_inside :
    {A : Type 0} (xs : List A) (i : ℕ) → i < length xs → (a : A) × (get_elem? xs i ≡ some a)
get_elem_inside [] i h = absurd (omega arith)
get_elem_inside (x ∷ xs) zero h = (x, refl)
get_elem_inside (x ∷ xs) (suc i) h = get_elem_inside xs i (omega arith)

-- A route has waypoints, and an action text for each; there is none only out of the active phases.
abbrev pub Executable :
    {T : Type 0} → PatrolPhase → Result PatrolError (PatrolRoute T × Bool × ℕ) → Type 0
Executable phase (ok (route, looped, first)) =
    (active phase ≡ true)
    × (length route.waypoints ≡ length route.actions)
    × (0 < length route.waypoints)
Executable phase (err e) = (active phase ≡ false) × (e ≡ no_executable_route)

module _ {T : Type 0} ⦃F : Float T⦄ where
  route-Executable :
      (phase : PatrolPhase) (m : PatrolMachine T)
      → IsSound m
      → Executable phase (route_in phase m.spec)
  unfolding route_in active
  route-Executable phase m h =
      let loop = m.spec.loop in
      let entry = pos_part m.spec.depart_entry_loop_index in
      let n = (entry + 1) % length loop.waypoints in
      let (a, e) = get_elem_inside loop.waypoints entry h.entry_inside in
      ground (
        arith,
        h.loop_there,
        h.loop_even,
        h.depart_even,
        h.returning_even,
        length-rotate n loop.waypoints,
        length-rotate n loop.actions,
        length-rotate 0 loop.waypoints,
        length-rotate 0 loop.actions,
        length-append m.spec.depart.waypoints (a ∷ []),
        length-append m.spec.depart.actions no_action,
        length-append m.spec.returning.waypoints (m.spec.home ∷ []),
        length-append m.spec.returning.actions no_action,
      )

  -- On a machine that was constructed and then called in any way, `current_route` returns a route
  -- in the five active phases, with waypoints and one action text for each, and raises the error of
  -- a phase without a route in the others.
  pub current_route-Executable :
      ⦃P : PyJson T⦄ (spec : PatrolMissionSpec T) (id : String) (calls : List Call)
      {m : PatrolMachine T}
      → create spec id ≡ ok m
      → let n = perform_all calls m in Executable n.state.phase (current_route n)
  unfolding current_route
  current_route-Executable spec id calls {m} e =
      let n = perform_all calls m in
      route-Executable n.state.phase n
        (patrol_all-IsSound calls m (machine_create-IsSound spec id e))
