-- ===== src/Navigation/Model.antt =====
-- route_model.py: the waypoints of a route.
use salus_robot.Prelude.{
  ℕ, zero, suc, Bool, Option, none, some, String, List, [], ◌∷◌, length, ◌==◌, if◌then◌else◌,
}
use salus_robot.Prelude.Int.{ℤ}
use salus_robot.Float.{Float, nought}

pub record RouteWaypoint (T : Type 0) : Type 0 where
  pub lat : T
  pub lon : T
  pub yaw_deg : T
  pub input_index : ℤ
  pub key : Bool
  pub action_json : String
  pub role : String
  pub map_x : Option T
  pub map_y : Option T
  pub yaw_explicit : Bool

pub record PreparedRoute (T : Type 0) : Type 0 where
  pub waypoints : List (RouteWaypoint T)
  pub loop : Bool
  pub input_count : ℤ
  pub leg_spacing_m : T
  pub chunk_span_m : T
  pub chunk_max_waypoints : ℤ
  pub anchor_input_index : ℤ
  pub note : String
  pub auto_yaw_policy : String

-- Indices into a route are not negative.
pub record RouteChunk (T : Type 0) : Type 0 where
  pub waypoints : List (RouteWaypoint T)
  pub start : ℕ
  pub end : ℕ
  pub iteration : ℤ
  pub checkpoint_iterations : List ℤ

module _ {T : Type 0} ⦃F : Float T⦄ where
  -- `x or 0.0`
  abbrev pub coordinate : Option T → T
  coordinate none = nought
  coordinate (some x) = if F.eq x nought then nought else x

  unfoldable pub distance_to : RouteWaypoint T → RouteWaypoint T → T
  distance_to p q =
      F.hypot (F.sub (coordinate p.map_x) (coordinate q.map_x))
        (F.sub (coordinate p.map_y) (coordinate q.map_y))

-- `(x,) * n`
unfoldable pub replicate : ℕ → ℤ → List ℤ
replicate zero x = []
replicate (suc n) x = x ∷ replicate n x

module _ {T : Type 0} where
  -- `checkpoint_offsets` of the waypoints from an offset on.
  unfoldable pub offsets_from : ℕ → List (RouteWaypoint T) → List ℕ
  offsets_from n [] = []
  offsets_from n (p ∷ ps) = let rest = offsets_from (suc n) ps in if p.key then n ∷ rest else rest

  unfoldable pub checkpoint_offsets : RouteChunk T → List ℕ
  checkpoint_offsets c = offsets_from 0 c.waypoints

  -- The iteration of each checkpoint, where there are as many as checkpoints; else the chunk's.
  unfoldable pub iterations_of : RouteChunk T → List ℤ
  iterations_of c =
      let n = length (checkpoint_offsets c) in
      if length c.checkpoint_iterations == n
      then c.checkpoint_iterations
      else replicate n c.iteration

  -- `(offset, input_index, loop_iteration)` of the checkpoints from an offset on.
  unfoldable pub occurrences_from : ℕ → List (RouteWaypoint T) → List ℤ → List (ℕ × ℤ × ℤ)
  occurrences_from n [] is = []
  occurrences_from n (p ∷ ps) [] = []
  occurrences_from n (p ∷ ps) (i ∷ is) =
      if p.key
      then (n, p.input_index, i) ∷ occurrences_from (suc n) ps is
      else occurrences_from (suc n) ps (i ∷ is)

  unfoldable pub checkpoint_occurrences : RouteChunk T → List (ℕ × ℤ × ℤ)
  checkpoint_occurrences c = occurrences_from 0 c.waypoints (iterations_of c)
