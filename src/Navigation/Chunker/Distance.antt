-- ===== src/Navigation/Chunker/Distance.antt =====
-- Distances along a route are found: `_route_distance` ends, and passes no end of the route.
use salus_robot.Prelude.{
  ℕ, zero, suc, ◌≤◌, ◌<◌, ◌≡◌, ◌⊎◌, inl, inr, true, some, length, ltb, ◌==◌, arith, Bool-cases,
  ltb→lt,
}
use salus_robot.Prelude.Result.{ok}
use salus_robot.Float.{Float, nought}
use salus_robot.Navigation.Model.{PreparedRoute, distance_to}
use salus_robot.Navigation.Chunker.{following}
use salus_robot.Navigation.Chunker.Modes.{next_key_loop, distance_loop, route_distance}
use salus_robot.Navigation.Chunker.Windows.{left, next_mod, get_elem?_of_lt}

module _ {T : Type 0} where
  -- An index at which a route has a point, and that an open route reaches after `from`.
  abbrev pub Ahead : PreparedRoute T → ℕ → ℕ → Type 0
  Ahead r from i = (i < length r.waypoints) × ((r.loop ≡ true) ⊎ (from ≤ i))

  pub next_key_loop-Ahead :
      (n : ℕ) (r : PreparedRoute T) (start current next : ℕ)
      → current < length r.waypoints
      → next_key_loop n r start current ≡ some next
      → Ahead r current next
  unfolding next_key_loop
  next_key_loop-Ahead zero r start current next i h = cc
  next_key_loop-Ahead (suc n) r start current next i h =
      elim (Bool-cases (ltb (following r.loop (length r.waypoints) current) (length r.waypoints))) [
        | inl e ↦ ground (
          arith,
          next_key_loop-Ahead n r start (following r.loop (length r.waypoints) current) next
              (ltb→lt (following r.loop (length r.waypoints) current) (length r.waypoints) e),
          next_mod current (length r.waypoints) i,
        )
        | inr e ↦ ground (arith, next_mod current (length r.waypoints) i)
      ]

module _ {T : Type 0} ⦃F : Float T⦄ where
  distance_loop-total :
      (fuel : ℕ) (r : PreparedRoute T) (index end : ℕ) (distance : T)
      → index < length r.waypoints
      → Ahead r index end
      → ((index == end) ≡ true) ⊎ (left r.loop (length r.waypoints) end index ≤ fuel)
      → (d : T) × (distance_loop fuel r index end distance ≡ ok d)
  unfolding distance_loop
  distance_loop-total zero r index end distance i ahead enough = (distance, ground (arith, ahead))
  distance_loop-total (suc fuel) r index end distance i ahead enough =
      elim (Bool-cases (index == end)) [
        | inl e ↦ (distance, ground (arith, e))
        | inr e ↦
            let next = following r.loop (length r.waypoints) index in
            let cyclic = next_mod index (length r.waypoints) i in
            let bound : (next < length r.waypoints) = ground (arith, ahead, cyclic, e) in
            let (q, to) = get_elem?_of_lt r.waypoints next bound in
            let (p, at) = get_elem?_of_lt r.waypoints index i in
            let (d, equal) =
              distance_loop-total fuel r next end (F.add distance (distance_to p q)) bound
                (ahead.0, ground (arith, ahead, e)) (ground (arith, ahead, cyclic, e, enough)) in
            (d, ground (arith, e, to, at, equal))
      ]

  pub route_distance-total :
      (r : PreparedRoute T) (start end : ℕ)
      → start < length r.waypoints
      → Ahead r start end
      → (d : T) × (route_distance r start end ≡ ok d)
  unfolding route_distance
  route_distance-total r start end i ahead =
      distance_loop-total (length r.waypoints) r start end nought i ahead (ground (arith, ahead))
