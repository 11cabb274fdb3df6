-- ===== src/Navigation/Chunker.antt =====
-- route_chunker.py: the part of a route that one navigation goal holds: what the three modes share,
-- the legacy pair, and the single checkpoint.
pub mod Modes
pub mod Windows
mod Distance
mod Dense
pub mod Outcome
mod Single
use salus_robot.Prelude.{
  ℕ, zero, suc, ◌+◌, ◌-◌, ◌%◌, Bool, true, false, not, ◌&&◌, ◌||◌, Option, none, some, String,
  str_eq, List, [], ◌∷◌, length, get_elem?, take, is_empty, ltb, leb, ◌==◌, if◌then◌else◌,
}
use salus_robot.Prelude.Int.{ℤ, pos, ◌+ℤ◌}
use salus_robot.Prelude.Result.{Result, ok, err, ◌>>=◌, map_result}
use salus_robot.Float
use salus_robot.Float.{Float, nought}
use salus_robot.Navigation.Model.{RouteWaypoint, PreparedRoute, RouteChunk, distance_to}

-- What `build_chunk` raises. `index_error` is a read out of range; `still_running` is what a loop
-- leaves when its fuel ends.
pub data ChunkError : Type 0 where
  no_checkpoint unknown_mode dense_distances past_open_route index_error still_running : ChunkError

-- The waypoints that a loop selects, with the iteration of each checkpoint.
abbrev pub Selection : Type 0 → Type 0
Selection T = List (RouteWaypoint T) × List ℤ

-- The index after one.
abbrev pub following : Bool → ℕ → ℕ → ℕ
following loop total i = if loop then suc i % total else suc i

-- `end` of a chunk with a number of waypoints.
abbrev end_of : Bool → ℕ → ℕ → ℕ → ℕ
end_of loop total start n = if loop then (start + n - 1) % total else start + n - 1

-- `current_iteration += 1` where a loop passes its closure.
abbrev closing : ℕ → ℕ → ℤ → ℤ
closing next index iteration =
    if next == 0 && not (index == 0) then iteration +ℤ pos 1 else iteration

module _ {T : Type 0} where
  unfoldable pub legacy_pair_eligible : RouteWaypoint T → Bool
  legacy_pair_eligible p =
      p.key && str_eq p.role "normal" && str_eq p.action_json "" && not p.yaw_explicit

  -- `any(point.key for point in selected)`
  unfoldable pub any_key : List (RouteWaypoint T) → Bool
  any_key [] = false
  any_key (p ∷ ps) = p.key || any_key ps

  -- `selected[:last_key + 1]`
  unfoldable pub upto_last_key : List (RouteWaypoint T) → List (RouteWaypoint T)
  upto_last_key [] = []
  upto_last_key (p ∷ ps) =
      let rest = upto_last_key ps in
      if is_empty rest then if p.key then p ∷ [] else [] else p ∷ rest

  -- `selected[-1].key`, of a selection that is not empty.
  unfoldable pub last_is_key : List (RouteWaypoint T) → Bool
  last_is_key [] = false
  last_is_key (p ∷ []) = p.key
  last_is_key (p ∷ q ∷ ps) = last_is_key (q ∷ ps)

  -- The number of checkpoints.
  unfoldable pub key_count : List (RouteWaypoint T) → ℕ
  key_count [] = 0
  key_count (p ∷ ps) = if p.key then suc (key_count ps) else key_count ps

  -- The next index and its iteration; `none` where the route or the circuit ends. An adaptive window
  -- leaves out the last point of a circuit.
  abbrev pub advance : Bool → PreparedRoute T → ℕ → ℕ → ℤ → Option (ℕ × ℤ)
  advance adaptive r start index iteration =
      let total = length r.waypoints in
      let next = following r.loop total index in
      if r.loop
      then if next == start || adaptive && suc next % total == start
        then none
        else some (next, closing next index iteration)
      else if leb total next
      then none
      else some (next, iteration)

  abbrev pub prepend : RouteWaypoint T → ℤ → Selection T → Selection T
  prepend p iteration (ps, is) = (p ∷ ps, if p.key then iteration ∷ is else is)

  -- The end of the two windows that pair checkpoints: from the selection to the chunk. A legacy pair
  -- that is cut off keeps one iteration, an adaptive window as many as it has checkpoints.
  abbrev pub closed :
      Bool → PreparedRoute T → ℕ → ℤ → Selection T → Result ChunkError (Option (RouteChunk T))
  closed adaptive r start iteration (selected, is) =
      if not (any_key selected)
      then err no_checkpoint
      else (let cut = upto_last_key selected in
          let ps = if last_is_key selected then selected else cut in
          ok (
            some (record {
              waypoints = ps;
              start = start;
              end = end_of r.loop (length r.waypoints) start (length ps);
              iteration = iteration;
              checkpoint_iterations =
                  if last_is_key selected
                  then is
                  else take (if adaptive then key_count cut else 1) is;
            })))

  -- The loop of `_build_legacy_pair_chunk`, after `count` waypoints.
  unfoldable pub legacy_loop :
      ℕ → PreparedRoute T → ℕ → Bool → ℕ → ℕ → ℤ → Result ChunkError (Selection T)
  legacy_loop zero r start pairable count index iteration = err still_running
  legacy_loop (suc fuel) r start pairable count index iteration =
      elim (get_elem? r.waypoints index) [
        | none ↦ err index_error
        | some p ↦
            if p.key && (suc count == 1 && not pairable || (ltb 1 (suc count) || not pairable))
            then ok (prepend p iteration ([], []))
            else elim (advance false r start index iteration) [
              | none ↦ ok (prepend p iteration ([], []))
              | some (next, later) ↦
                  map_result (prepend p iteration)
                    (legacy_loop fuel r start pairable (suc count) next later)
            ]
      ]

  -- `total` steps are enough: an index grows, or comes back to the start.
  unfoldable pub build_legacy_pair_chunk :
      PreparedRoute T → ℕ → ℤ → Result ChunkError (Option (RouteChunk T))
  build_legacy_pair_chunk r start iteration =
      let total = length r.waypoints in
      if total == 0 || not r.loop && leb total start
      then ok none
      else (let first = start % total in
          elim (get_elem? r.waypoints first) [
            | none ↦ err index_error
            | some p ↦
                legacy_loop total r first (legacy_pair_eligible p) 0 first iteration
                >>= closed false r first iteration
          ])

  -- `route.loop and len(selected) >= max(1, total - 1)`
  abbrev pub is_full : PreparedRoute T → ℕ → Bool
  is_full r count = r.loop && leb (length r.waypoints - 1) count && leb 1 count

  -- The loop of `build_chunk`: the waypoints, and the index after them, with `count` selected.
  unfoldable pub single_loop :
      ℕ → PreparedRoute T → ℕ → ℕ → Result ChunkError (List (RouteWaypoint T) × ℕ)
  single_loop zero r count index = if is_full r count then ok ([], index) else err still_running
  single_loop (suc fuel) r count index =
      let total = length r.waypoints in
      if is_full r count then ok ([], index) else elim (get_elem? r.waypoints index) [
        | none ↦ err index_error
        | some p ↦
            if p.key
            then ok (p ∷ [], following r.loop total index)
            else if not r.loop && leb total (suc index)
            then ok (p ∷ [], suc index)
            else map_result (λ q. (p ∷ q.0, q.1))
                (single_loop fuel r (suc count) (suc index % total))
      ]

  -- `build_chunk` in its own mode, after the checks of the route and the start.
  abbrev single_chunk :
      PreparedRoute T
      → ℕ
      → ℤ
      → List (RouteWaypoint T) × ℕ
      → Result ChunkError (Option (RouteChunk T))
  single_chunk r start iteration (selected, index) =
      let total = length r.waypoints in
      let cuts = r.loop && not (is_empty selected) && not (last_is_key selected) in
      let ps = if cuts then upto_last_key selected else selected in
      let after = if cuts then (start + length ps) % total else index in
      if not (is_empty ps) && not (any_key ps)
      then err no_checkpoint
      else ok (
          some (record {
            waypoints = ps;
            start = start;
            end = if r.loop then (after + total - 1) % total else after - 1;
            iteration = iteration;
            checkpoint_iterations = [];
          }))

  unfoldable pub build_single_chunk :
      PreparedRoute T → ℕ → ℤ → Result ChunkError (Option (RouteChunk T))
  build_single_chunk r start iteration =
      let total = length r.waypoints in
      if total == 0 || not r.loop && leb total start
      then ok none
      else single_loop total r 0 (start % total) >>= single_chunk r (start % total) iteration

  unfoldable pub next_start : PreparedRoute T → RouteChunk T → ℕ
  next_start r c = if r.loop then suc c.end % length r.waypoints else suc c.end
