-- ===== src/Navigation/Reanchor.antt =====
-- route_recovery.py: where a route goes on after a block: the part of a chunk whose checkpoints are
-- not credited, and the nearest point ahead.
pub mod Pending
pub mod Ahead
use salus_robot.Prelude.{
  ℕ, suc, ◌+◌, ◌-◌, Bool, true, false, not, ◌&&◌, ◌||◌, Option, none, some, String, List, [], ◌∷◌,
  length, get_elem?, take, drop, is_empty, ltb, leb, ◌==◌, if◌then◌else◌,
}
use salus_robot.Prelude.Int.{ℤ, pos, pos_part, eqb_ℤ, min_ℤ}
use salus_robot.Prelude.Result.{Result, ok, err}
use salus_robot.Float
use salus_robot.Float.{Float, nought}
use salus_robot.Navigation.Model.{
  RouteWaypoint, PreparedRoute, RouteChunk, coordinate, checkpoint_offsets, checkpoint_occurrences,
}

-- What `pending_checkpoint_suffix` raises.
pub data SuffixError : Type 0 where
  iteration_count_mismatch : SuffixError

-- An offset, an input index and an iteration.
abbrev pub Occurrence : Type 0
Occurrence = ℕ × ℤ × ℤ

-- `(iteration, input_index) in reached_occurrences`
unfoldable pub is_credited : List (ℤ × ℤ) → Occurrence → Bool
is_credited [] o = false
is_credited ((iteration, input_index) ∷ reached) o =
    eqb_ℤ iteration o.2 && eqb_ℤ input_index o.1 || is_credited reached o

-- The offset after the last checkpoint that is credited with all before it.
unfoldable pub cut_of : List (ℤ × ℤ) → List Occurrence → ℕ → ℕ
cut_of reached [] cut = cut
cut_of reached (o ∷ os) cut =
    let later = cut_of reached os (suc o.0) in if is_credited reached o then later else cut

-- `sum(offset < cut for offset in offsets)`
unfoldable pub count_below : ℕ → List ℕ → ℕ
count_below cut [] = 0
count_below cut (offset ∷ offsets) =
    let rest = count_below cut offsets in if ltb offset cut then suc rest else rest

-- `occurrences[-1][2]`, or a default where there is none.
unfoldable pub last_iteration : ℤ → List Occurrence → ℤ
last_iteration d [] = d
last_iteration d (o ∷ os) = last_iteration o.2 os

module _ {T : Type 0} where
  abbrev next_iteration : RouteChunk T → ℕ → ℤ
  next_iteration c consumed = elim (get_elem? (checkpoint_occurrences c) consumed) [
    | some o ↦ o.2
    | none ↦
        if consumed == 0 then c.iteration else last_iteration c.iteration (checkpoint_occurrences c)
  ]

  unfoldable pub pending_checkpoint_suffix :
      RouteChunk T → List (ℤ × ℤ) → Result SuffixError (RouteChunk T)
  pending_checkpoint_suffix c reached =
      let iterations = c.checkpoint_iterations in
      let cut = cut_of reached (checkpoint_occurrences c) 0 in
      let consumed = count_below cut (checkpoint_offsets c) in
      if not (is_empty iterations) && not (length iterations == length (checkpoint_offsets c))
      then err iteration_count_mismatch
      else if leb (length c.waypoints) cut
      then ok c
      else ok (record {
        waypoints = drop cut c.waypoints;
        start = c.start;
        end = c.end;
        iteration = next_iteration c consumed;
        checkpoint_iterations = drop consumed iterations;
      })

pub record ReanchorResolution (T : Type 0) : Type 0 where
  pub requested_index : ℤ
  pub resolved_index : ℤ
  pub reanchored : Bool
  pub reason : String
  pub distance_m : T

-- The index that `current_index` or `max_index` stands for, of `n` points.
abbrev pub bounded : ℤ → ℕ → ℕ
bounded index n = pos_part (min_ℤ index (pos (n - 1)))

-- `max(current, bounded)`, or the last index.
abbrev pub upper_of : ℕ → Option ℤ → ℕ → ℕ
upper_of n none current = n - 1
upper_of n (some index) current = if ltb current (bounded index n) then bounded index n else current

module _ {T : Type 0} ⦃F : Float T⦄ where
  -- The square of the distance of a point.
  abbrev pub square_distance : T → T → RouteWaypoint T → T
  square_distance x y p =
      F.add (F.pow (F.sub (coordinate p.map_x) x) (F.decimal 2 0))
        (F.pow (F.sub (coordinate p.map_y) y) (F.decimal 2 0))

  -- `min` over the points from an index on: the nearest one so far, and its square distance.
  unfoldable pub nearest_of : T → T → List (RouteWaypoint T) → ℕ → ℕ × T → ℕ × T
  nearest_of x y [] index best = best
  nearest_of x y (p ∷ ps) index best =
      let square = square_distance x y p in
      nearest_of x y ps (suc index) (if F.lt square best.1 then (index, square) else best)

  abbrev unmoved : ℤ → String → T → ReanchorResolution T
  unmoved index reason distance = record {
    requested_index = index;
    resolved_index = index;
    reanchored = false;
    reason = reason;
    distance_m = distance;
  }

  -- The resolution about the nearest point.
  abbrev pub resolved : ℕ → T → ℕ × T → ReanchorResolution T
  resolved current tolerance nearest =
      let distance = F.pow nearest.1 (F.decimal 5 1) in
      if F.lt (Float.max nought tolerance) distance
      then unmoved (pos current) "no_forward_match" distance
      else record {
        requested_index = pos current;
        resolved_index = pos nearest.0;
        reanchored = not (nearest.0 == current);
        reason = if nearest.0 == current then "already_anchored" else "forward_match";
        distance_m = distance;
      }

  -- The points from `current` to `upper`, of which there is one.
  abbrev pub nearest_ahead : T → T → List (RouteWaypoint T) → ℕ → Option (ℕ × T)
  nearest_ahead x y [] current = none
  nearest_ahead x y (p ∷ ps) current =
      some (nearest_of x y ps (suc current) (current, square_distance x y p))

  unfoldable pub resolve_forward_reanchor :
      PreparedRoute T → ℤ → Option T → Option T → T → Option ℤ → ReanchorResolution T
  resolve_forward_reanchor r current_index robot_x robot_y tolerance max_index =
      let n = length r.waypoints in
      let current = bounded current_index n in
      let unknown = unmoved (pos current) "pose_unavailable" F.infinity in
      if n == 0 then unmoved current_index "empty_route" F.infinity else elim robot_x [
        | none ↦ unknown
        | some x ↦ elim robot_y [
          | none ↦ unknown
          | some y ↦
              let upper = upper_of n max_index current in
              elim (nearest_ahead x y (take (upper + 1 - current) (drop current r.waypoints))
                current) [ none ↦ unknown | some nearest ↦ resolved current tolerance nearest ]
        ]
      ]

  unfoldable pub checkpoint_within_tolerance : Option T → Option T → Option T → Option T → T → Bool
  checkpoint_within_tolerance (some cx) (some cy) (some x) (some y) tolerance =
      F.le (F.hypot (F.sub cx x) (F.sub cy y)) (Float.max nought tolerance)
  checkpoint_within_tolerance _ _ _ _ tolerance = false
