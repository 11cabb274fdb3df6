-- ===== src/Navigation/Dispatch.antt =====
-- route_chunker.py: what is done to a chunk before it is sent: its start moves on past points that
-- are reached, and it is cut off at the horizon.
pub mod Forward
pub mod Horizon
use salus_robot.Prelude.{
  ℕ, zero, suc, ◌+◌, ◌-◌, ◌%◌, Bool, true, false, not, ◌&&◌, ◌||◌, Option, none, some, str_eq, List,
  [], ◌∷◌, length, get_elem?, take, leb, ◌==◌, if◌then◌else◌,
}
use salus_robot.Prelude.Int.{ℤ, pos_part}
use salus_robot.Prelude.Result.{Result, ok, err}
use salus_robot.Float
use salus_robot.Float.{Float, nought, one}
use salus_robot.Navigation.Model.{RouteWaypoint, PreparedRoute, RouteChunk, coordinate}
use salus_robot.Navigation.Chunker.{following, key_count}

pub record DispatchStart : Type 0 where
  pub index : Option ℕ
  pub skipped_reached : ℕ
  pub skipped_synthetic : ℕ

-- What `limit_chunk_to_horizon` raises.
pub data HorizonError : Type 0 where
  bad_distance bad_position : HorizonError

-- `index in indices`
unfoldable pub has_index : ℕ → List ℕ → Bool
has_index i [] = false
has_index i (j ∷ js) = i == j || has_index i js

-- A start that nothing is skipped from.
abbrev stay : Option ℕ → DispatchStart
stay i = record { index = i; skipped_reached = 0; skipped_synthetic = 0 }

module _ {T : Type 0} where
  -- `index in protected`: a given index, or that of a checkpoint with an action.
  unfoldable pub is_protected : PreparedRoute T → List ℕ → ℕ → Bool
  is_protected r given i = has_index i given || elim (get_elem? r.waypoints i) [
    | none ↦ false
    | some p ↦ p.key && not (str_eq p.action_json "")
  ]

module _ {T : Type 0} ⦃F : Float T⦄ where
  abbrev pub distance_to_waypoint : RouteWaypoint T → T → T → T
  distance_to_waypoint p x y = F.hypot (F.sub (coordinate p.map_x) x) (F.sub (coordinate p.map_y) y)

  -- 1.0e-9, and the two steps of `_passed_synthetic_segment` after the length is known.
  unfoldable pub passed_synthetic_segment : RouteWaypoint T → RouteWaypoint T → T → T → T → Bool
  passed_synthetic_segment start end x y tolerance =
      let ax = coordinate start.map_x in
      let ay = coordinate start.map_y in
      let dx = F.sub (coordinate end.map_x) ax in
      let dy = F.sub (coordinate end.map_y) ay in
      let length_sq = F.add (F.mul dx dx) (F.mul dy dy) in
      let ratio = F.div (F.add (F.mul (F.sub x ax) dx) (F.mul (F.sub y ay) dy)) length_sq in
      let bounded = Float.min one ratio in
      if F.le length_sq (F.decimal 1 9)
      then false
      else if F.le ratio nought
      then false
      else F.le
          (F.hypot (F.sub x (F.add ax (F.mul bounded dx))) (F.sub y (F.add ay (F.mul bounded dy))))
          tolerance

  -- The loop over the points that are reached, with the steps that are left: the index where it
  -- ends, and the number of points that it counts. An index that is out of range ends it.
  unfoldable pub reached_loop : ℕ → PreparedRoute T → List ℕ → T → T → T → ℕ → ℕ × ℕ
  reached_loop zero r given x y tolerance current = (current, 0)
  reached_loop (suc steps) r given x y tolerance current =
      let total = length r.waypoints in
      let next = following r.loop total current in
      let rest = reached_loop steps r given x y tolerance next in
      elim (get_elem? r.waypoints current) [
        | none ↦ (current, 0)
        | some p ↦
            if is_protected r given current || p.key
            then (current, 0)
            else if F.lt tolerance (distance_to_waypoint p x y)
            then (current, 0)
            else if not r.loop && leb total next
            then (total, 0)
            else (rest.0, suc rest.1)
      ]

  -- The loop over the synthetic points whose segment is passed.
  unfoldable pub synthetic_loop : ℕ → PreparedRoute T → List ℕ → T → T → T → ℕ → ℕ × ℕ
  synthetic_loop zero r given x y tolerance current = (current, 0)
  synthetic_loop (suc steps) r given x y tolerance current =
      let total = length r.waypoints in
      let next = following r.loop total current in
      let rest = synthetic_loop steps r given x y tolerance next in
      elim (get_elem? r.waypoints current) [
        | none ↦ (current, 0)
        | some p ↦
            if p.key || is_protected r given current || next == current
            then (current, 0)
            else elim (get_elem? r.waypoints next) [
              | none ↦ (current, 0)
              | some q ↦
                  if passed_synthetic_segment p q x y tolerance
                  then (rest.0, suc rest.1)
                  else (current, 0)
            ]
      ]

  -- `max(0.05, float(tolerance))`
  abbrev pub at_least_5_cm : T → T
  at_least_5_cm t = Float.max (F.decimal 5 2) t

  -- The two loops, one after the other.
  unfoldable pub move_on : PreparedRoute T → List ℕ → T → T → T → T → ℕ → DispatchStart
  move_on r given x y reached_tolerance segment_tolerance current =
      let steps = length r.waypoints - 1 in
      let reached = reached_loop steps r given x y reached_tolerance current in
      let synthetic = synthetic_loop steps r given x y segment_tolerance reached.0 in
      record {
        index = some synthetic.0;
        skipped_reached = reached.1;
        skipped_synthetic = synthetic.1;
      }

  unfoldable pub resolve_dispatch_start :
      PreparedRoute T → ℤ → Option (T × T) → T → T → List ℕ → DispatchStart
  resolve_dispatch_start r start robot_xy reached_tolerance segment_tolerance given =
      let total = length r.waypoints in
      let requested = pos_part start in
      let current = if r.loop then requested % total else requested in
      if total == 0 || not r.loop && leb total requested then stay none else elim robot_xy [
        | none ↦ stay (some current)
        | some (x, y) ↦
            if not (F.finite x && F.finite y)
            then stay (some current)
            else move_on r given x y (at_least_5_cm reached_tolerance)
                (at_least_5_cm segment_tolerance) current
      ]

  -- The offset of the first point beyond a distance.
  unfoldable pub first_outside : T → T → T → List (RouteWaypoint T) → Option ℕ
  first_outside limit x y [] = none
  first_outside limit x y (p ∷ ps) =
      let rest = first_outside limit x y ps in
      if F.lt limit (distance_to_waypoint p x y)
      then some 0
      else elim rest [ none ↦ none | some n ↦ some (suc n) ]

  -- The chunk before the offset of the first point outside.
  abbrev pub cut_at : PreparedRoute T → RouteChunk T → Option ℕ → Option (RouteChunk T)
  cut_at r c none = some c
  cut_at r c (some zero) = none
  cut_at r c (some (suc terminal)) =
      let selected = take (suc terminal) c.waypoints in
      let total = length r.waypoints in
      some (record {
        waypoints = selected;
        start = c.start;
        end = if r.loop then (c.start + terminal) % total else c.start + terminal;
        iteration = c.iteration;
        checkpoint_iterations = take (key_count selected) c.checkpoint_iterations;
      })

  unfoldable pub limit_chunk_to_horizon :
      PreparedRoute T → RouteChunk T → T → T → T → Result HorizonError (Option (RouteChunk T))
  limit_chunk_to_horizon r c x y limit =
      if not (F.finite limit) || F.le limit nought
      then err bad_distance
      else if not (F.finite x && F.finite y)
      then err bad_position
      else ok (cut_at r c (first_outside limit x y c.waypoints))
