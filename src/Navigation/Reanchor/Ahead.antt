-- ===== src/Navigation/Reanchor/Ahead.antt =====
-- A blocked route goes on at a point ahead of where it was.
use salus_robot.Prelude.{
  ℕ, suc, ◌+◌, ◌-◌, ◌≤◌, ◌<◌, ◌≡◌, inl, inr, refl, false, not, Option, none, some, List, [], ◌∷◌,
  length, drop, take, ◌==◌, arith, Bool-cases, length-take, length-drop, if◌then◌else◌,
}
use salus_robot.Prelude.Int.{ℤ, pos}
use salus_robot.Float
use salus_robot.Float.{Float, nought}
use salus_robot.Navigation.Model.{RouteWaypoint, PreparedRoute}
use salus_robot.Navigation.Reanchor.{
  ReanchorResolution, square_distance, nearest_of, bounded, upper_of, resolved, nearest_ahead,
  resolve_forward_reanchor,
}

bounded_lt : (index : ℤ) (n : ℕ) → 0 < n → bounded index n < n
bounded_lt index n h = ground (arith, h)

upper_of_bounds :
    (n : ℕ) (max_index : Option ℤ) (current : ℕ)
    → current < n
    → (current ≤ upper_of n max_index current) × (upper_of n max_index current < n)
upper_of_bounds n none current h = (omega arith, omega arith)
upper_of_bounds n (some index) current h = ground (arith, h, bounded_lt index n)

module _ {T : Type 0} ⦃F : Float T⦄ where
  nearest_of-within :
      (x y : T) (ps : List (RouteWaypoint T)) (low index : ℕ) (best : ℕ × T)
      → low ≤ best.0
      → best.0 < index
      → (low ≤ (nearest_of x y ps index best).0)
        × ((nearest_of x y ps index best).0 < index + length ps)
  unfolding nearest_of
  nearest_of-within x y [] low index best h k = (h, omega arith)
  nearest_of-within x y (p ∷ ps) low index best h k =
      let square = square_distance x y p in
      let next : (ℕ × T) = if F.lt square best.1 then (index, square) else best in
      let (a, b) =
        nearest_of-within x y ps low (suc index) next (ground (arith, h, k))
          (ground (arith, h, k)) in
      (a, omega (arith, b))

  -- The indices of a resolution: the one asked for, and one from there to the upper bound.
  abbrev IsAhead : ℕ → ℕ → ReanchorResolution T → Type 0
  IsAhead current upper s =
      (s.requested_index ≡ pos current)
      × (j : ℕ) × (s.resolved_index ≡ pos j)
      × (current ≤ j)
      × (j ≤ upper)
      × (s.reanchored ≡ not (j == current))

  unmoved-IsAhead :
      (current upper : ℕ) (s : ReanchorResolution T)
      → current ≤ upper
      → s.requested_index ≡ pos current
      → s.resolved_index ≡ pos current
      → s.reanchored ≡ false
      → IsAhead current upper s
  unmoved-IsAhead current upper s h a b c = (a, current, b, omega arith, h, ground (arith, c))

  resolved-IsAhead :
      (current upper : ℕ) (tolerance : T) (nearest : ℕ × T)
      → current ≤ nearest.0
      → nearest.0 ≤ upper
      → IsAhead current upper (resolved current tolerance nearest)
  resolved-IsAhead current upper tolerance nearest h k =
      elim (Bool-cases (F.lt (Float.max nought tolerance) (F.pow nearest.1 (F.decimal 5 1)))) [
        | inl e ↦ rw e (refl, current, refl, omega arith, omega arith, ground arith)
        | inr e ↦ rw e (refl, nearest.0, refl, h, k, refl)
      ]

  nearest_ahead-within :
      (x y : T) (ps : List (RouteWaypoint T)) (current upper : ℕ)
      → length ps ≡ upper + 1 - current
      → current ≤ upper
      → (b : ℕ × T) × (nearest_ahead x y ps current ≡ some b) × (current ≤ b.0) × (b.0 ≤ upper)
  nearest_ahead-within x y [] current upper h k = absurd (omega arith)
  nearest_ahead-within x y (p ∷ ps) current upper h k =
      let start : (ℕ × T) = (current, square_distance x y p) in
      let (a, b) =
        nearest_of-within x y ps current (suc current) start (omega arith) (omega arith) in
      (nearest_of x y ps (suc current) start, refl, a, omega (arith, b))

  -- A blocked route that is anchored again goes on at a point that is not before the one it was at
  -- and not beyond the bound that was given, or the last point; it counts as moved exactly if that
  -- is another point.
  resolve_forward_reanchor-IsAhead :
      (r : PreparedRoute T) (index : ℤ) (robot_x robot_y : Option T) (tolerance : T)
      (max_index : Option ℤ)
      → 0 < length r.waypoints
      → let n = length r.waypoints in
        let current = bounded index n in
        IsAhead current
          (upper_of n max_index current)
          (resolve_forward_reanchor r index robot_x robot_y tolerance max_index)
        × (upper_of n max_index current < n)
  unfolding resolve_forward_reanchor
  resolve_forward_reanchor-IsAhead r index robot_x robot_y tolerance max_index h =
      let n = length r.waypoints in
      let current = bounded index n in
      let first = bounded_lt index n h in
      let upper = upper_of n max_index current in
      let (ahead, last) = upper_of_bounds n max_index current first in
      let ps = take (upper + 1 - current) (drop current r.waypoints) in
      let size : (length ps ≡ upper + 1 - current) = omega (
        arith,
        length-take (upper + 1 - current) (drop current r.waypoints),
        length-drop current r.waypoints,
      ) in
      let some_points : ((n == 0) ≡ false) = ground (arith, h) in
      (
        elim robot_x
            as (λ o.
              IsAhead current upper
                (resolve_forward_reanchor r index o robot_y tolerance max_index)) [
                  | none ↦ simp some_points (refl, current, refl, omega arith, ahead, ground arith)
                  | some x ↦
                      elim robot_y
                        as (λ o.
                          IsAhead current upper
                            (resolve_forward_reanchor r index (some x) o tolerance max_index)) [
                              | none ↦
                                  simp some_points
                                    (refl, current, refl, omega arith, ahead, ground arith)
                              | some y ↦
                                  let (b, is, low, high) =
                                    nearest_ahead-within x y ps current upper size ahead in
                                  simp (some_points, is)
                                    (resolved-IsAhead current upper tolerance b low high)
                            ]
                ],
        last,
      )
