-- ===== src/Navigation/Dispatch/Horizon.antt =====
-- What is left of a chunk at the horizon.
use salus_robot.Prelude.{
  ℕ, zero, suc, ◌≡◌, ◌⊎◌, inl, inr, refl, Bool, true, false, not, ◌&&◌, ◌||◌, Option, none, some,
  List, [], ◌∷◌, length, get_elem?, take, all, ◌<◌, arith, Bool-cases,
}
use salus_robot.Prelude.Result.{Result, ok, err}
use salus_robot.Float.{Float, nought}
use salus_robot.Navigation.Model.{RouteWaypoint, PreparedRoute, RouteChunk}
use salus_robot.Navigation.Dispatch.{
  HorizonError, cut_at, distance_to_waypoint, first_outside, limit_chunk_to_horizon,
}

module _ {T : Type 0} ⦃F : Float T⦄ where
  abbrev within : T → T → T → RouteWaypoint T → Bool
  within limit x y p = not (F.lt limit (distance_to_waypoint p x y))

  -- All points stand within the limit.
  abbrev Unlimited : T → T → T → List (RouteWaypoint T) → Type 0
  Unlimited limit x y ps = all (within limit x y) ps ≡ true

  -- The first `n` points stand within the limit, and the next one does not.
  abbrev Cut : T → T → T → List (RouteWaypoint T) → ℕ → Type 0
  Cut limit x y ps n =
      (all (within limit x y) (take n ps) ≡ true)
      × (length (take n ps) ≡ n)
      × (p : RouteWaypoint T) × (get_elem? ps n ≡ some p)
      × (within limit x y p ≡ false)

  abbrev Outside : T → T → T → List (RouteWaypoint T) → Option ℕ → Type 0
  Outside limit x y ps none = Unlimited limit x y ps
  Outside limit x y ps (some n) = Cut limit x y ps n

  Outside-cons :
      (limit x y : T) (p : RouteWaypoint T) (ps : List (RouteWaypoint T)) (o : Option ℕ)
      → F.lt limit (distance_to_waypoint p x y) ≡ false
      → Outside limit x y ps o
      → Outside limit x y (p ∷ ps) (elim o [ none ↦ none | some n ↦ some (suc n) ])
  Outside-cons limit x y p ps none e h = ground (arith, e, h)
  Outside-cons limit x y p ps (some n) e (inside, size, q, at, out) =
      (ground (arith, e, inside), omega (arith, size), q, at, out)

  first_outside-Outside :
      (limit x y : T) (ps : List (RouteWaypoint T))
      → Outside limit x y ps (first_outside limit x y ps)
  unfolding first_outside
  first_outside-Outside limit x y [] = refl
  first_outside-Outside limit x y (p ∷ ps) =
      elim (Bool-cases (F.lt limit (distance_to_waypoint p x y))) [
        | inl e ↦ rw e (refl, refl, p, refl, rw e refl)
        | inr e ↦
            let rest = first_outside-Outside limit x y ps in
            rw e (Outside-cons limit x y p ps (first_outside limit x y ps) e rest)
      ]

  -- Nothing of the chunk where its first point is outside; else all of it, or what stands before
  -- its first point outside; and an error for numbers that are not finite, or no positive limit.
  abbrev pub Keeps : RouteChunk T → T → T → T → Result HorizonError (Option (RouteChunk T)) → Type 0
  Keeps c x y limit (ok none) = Cut limit x y c.waypoints 0
  Keeps c x y limit (ok (some d)) =
      (d.start ≡ c.start)
      × (((d ≡ c) × Unlimited limit x y c.waypoints)
          ⊎ ((d.waypoints ≡ take (length d.waypoints) c.waypoints)
              × (0 < length d.waypoints)
              × Cut limit x y c.waypoints (length d.waypoints)))
  Keeps c x y limit (err e) =
      (F.finite limit && not (F.le limit nought) && F.finite x && F.finite y) ≡ false

  cut_at-Keeps :
      (r : PreparedRoute T) (c : RouteChunk T) (x y limit : T) (o : Option ℕ)
      → Outside limit x y c.waypoints o
      → Keeps c x y limit (ok (cut_at r c o))
  cut_at-Keeps r c x y limit none h = (refl, inl (refl, h))
  cut_at-Keeps r c x y limit (some zero) h = h
  cut_at-Keeps r c x y limit (some (suc n)) h = rw h.1 (refl, inr (refl, omega arith, h))

  -- A chunk that is limited to the horizon keeps its start and all its points, where all stand
  -- within the limit, and else the ones before the first that does not: nothing is returned where
  -- that is the first point of all. An error is raised only where a number is not finite or the
  -- limit is not positive.
  pub limit_chunk_to_horizon-Keeps :
      (r : PreparedRoute T) (c : RouteChunk T) (x y limit : T)
      → Keeps c x y limit (limit_chunk_to_horizon r c x y limit)
  unfolding limit_chunk_to_horizon
  limit_chunk_to_horizon-Keeps r c x y limit =
      elim (Bool-cases (not (F.finite limit) || F.le limit nought)) [
        | inl e ↦ rw e (ground (arith, e))
        | inr e ↦ elim (Bool-cases (not (F.finite x && F.finite y))) [
          | inl f ↦ rw (e, f) (ground (arith, f))
          | inr f ↦
              rw (e, f)
                (cut_at-Keeps r c x y limit (first_outside limit x y c.waypoints)
                  (first_outside-Outside limit x y c.waypoints))
        ]
      ]
