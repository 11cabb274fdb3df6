-- ===== src/Navigation/Chunker/Modes.antt =====
-- route_chunker.py: adaptive windows, and `build_chunk` with its three modes.
use salus_robot.Prelude.{
  ℕ, zero, suc, ◌-◌, ◌%◌, Bool, true, false, not, ◌&&◌, ◌||◌, Option, none, some, String, str_eq,
  List, [], ◌∷◌, length, get_elem?, is_empty, leb, ◌==◌, if◌then◌else◌,
}
use salus_robot.Prelude.Int.{ℤ}
use salus_robot.Prelude.Result.{Result, ok, err, ◌>>=◌, map_result}
use salus_robot.Float.{Float, nought}
use salus_robot.Navigation.Model.{RouteWaypoint, PreparedRoute, RouteChunk, distance_to}
use salus_robot.Navigation.Chunker.{
  ChunkError, unknown_mode, dense_distances, past_open_route, index_error, still_running, Selection,
  following, advance, prepend, closed, legacy_pair_eligible, build_legacy_pair_chunk,
  build_single_chunk,
}

-- The settings `adaptive_dense_leg_max_m` and `adaptive_dense_horizon_m`.
pub record Dense (T : Type 0) : Type 0 where
  pub leg_max_m : T
  pub horizon_m : T

module _ {T : Type 0} where
  -- The loop of `_next_key_index`, with `n` rounds left.
  unfoldable pub next_key_loop : ℕ → PreparedRoute T → ℕ → ℕ → Option ℕ
  next_key_loop zero r start current = none
  next_key_loop (suc n) r start current =
      let total = length r.waypoints in
      let next = following r.loop total current in
      let later = next_key_loop n r start next in
      if not r.loop && leb total next || next == start
      then none
      else elim (get_elem? r.waypoints next) [
        | none ↦ none
        | some p ↦ if p.key then some next else later
      ]

  unfoldable pub next_key_index : PreparedRoute T → ℕ → ℕ → Option ℕ
  next_key_index r index start = next_key_loop (length r.waypoints - 1) r start index

module _ {T : Type 0} ⦃F : Float T⦄ where
  -- The loop of `_route_distance`.
  unfoldable pub distance_loop : ℕ → PreparedRoute T → ℕ → ℕ → T → Result ChunkError T
  distance_loop zero r index end distance = if index == end then ok distance else err still_running
  distance_loop (suc fuel) r index end distance =
      let next = following r.loop (length r.waypoints) index in
      if index == end then ok distance else elim (get_elem? r.waypoints next) [
        | none ↦ err past_open_route
        | some q ↦ elim (get_elem? r.waypoints index) [
          | none ↦ err index_error
          | some p ↦ distance_loop fuel r next end (F.add distance (distance_to p q))
        ]
      ]

  unfoldable pub route_distance : PreparedRoute T → ℕ → ℕ → Result ChunkError T
  route_distance r start end = distance_loop (length r.waypoints) r start end nought

  -- Whether a window with two checkpoints or more, the last two at `previous` and `index`, ends
  -- before the checkpoint `next`.
  unfoldable pub ends_dense : Dense T → PreparedRoute T → ℕ → ℕ → ℕ → ℕ → Result ChunkError Bool
  ends_dense d r start previous index next = route_distance r previous index >>= λ previous_leg.
      route_distance r index next >>= λ next_leg. route_distance r start next >>= λ span.
      ok (F.lt d.leg_max_m previous_leg || F.lt d.leg_max_m next_leg || F.lt d.horizon_m span)

  -- Whether an adaptive window ends at the checkpoint `p`; `keys` are the checkpoints before it, the
  -- last one first.
  unfoldable pub ends_window :
      Dense T → PreparedRoute T → ℕ → Bool → List ℕ → ℕ → RouteWaypoint T → Result ChunkError Bool
  ends_window d r start pairable keys index p =
      if is_empty keys && not pairable || not (is_empty keys) && not (legacy_pair_eligible p)
      then ok true
      else elim (next_key_index r index start) [
        | none ↦ ok true
        | some next ↦ elim keys [
          | [] ↦ ok false
          | previous ∷ before ↦ ends_dense d r start previous index next
        ]
      ]

  -- The loop of `_build_adaptive_dense_chunk`.
  unfoldable pub dense_loop :
      Dense T → ℕ → PreparedRoute T → ℕ → Bool → List ℕ → ℕ → ℤ → Result ChunkError (Selection T)
  dense_loop d zero r start pairable keys index iteration = err still_running
  dense_loop d (suc fuel) r start pairable keys index iteration =
      elim (get_elem? r.waypoints index) [
        | none ↦ err index_error
        | some p ↦
            (if p.key then ends_window d r start pairable keys index p else ok false) >>= λ ends.
            elim (if ends then none else advance true r start index iteration) [
              | none ↦ ok (prepend p iteration ([], []))
              | some (next, later) ↦ map_result (prepend p iteration) (
                  dense_loop d fuel r start pairable (if p.key then index ∷ keys else keys) next
                    later)
            ]
      ]

  unfoldable pub build_adaptive_dense_chunk :
      Dense T → PreparedRoute T → ℕ → ℤ → Result ChunkError (Option (RouteChunk T))
  build_adaptive_dense_chunk d r start iteration =
      let total = length r.waypoints in
      if F.le d.leg_max_m nought || F.le d.horizon_m nought
      then err dense_distances
      else if total == 0 || not r.loop && leb total start
      then ok none
      else (let first = start % total in
          elim (get_elem? r.waypoints first) [
            | none ↦ err index_error
            | some p ↦
                dense_loop d total r first (legacy_pair_eligible p) [] first iteration
                >>= closed true r first iteration
          ])

  unfoldable pub build_chunk :
      String → Dense T → PreparedRoute T → ℕ → ℤ → Result ChunkError (Option (RouteChunk T))
  build_chunk mode d r start iteration =
      if str_eq mode "legacy_pair"
      then build_legacy_pair_chunk r start iteration
      else if str_eq mode "adaptive_dense"
      then build_adaptive_dense_chunk d r start iteration
      else if str_eq mode "single_checkpoint"
      then build_single_chunk r start iteration
      else err unknown_mode
