-- ===== src/Navigation/Chunker/Dense.antt =====
-- The loop of `_build_adaptive_dense_chunk` ends, and passes only soft checkpoints.
use mathlib.Core.Path.{subst}
use salus_robot.Prelude.{
  ℕ, zero, suc, ◌-◌, ◌≤◌, ◌<◌, ◌≡◌, ◌⊎◌, inl, inr, refl, Bool, true, false, not, ◌&&◌, ◌||◌, some,
  List, [], ◌∷◌, length, get_elem?, is_empty, if◌then◌else◌, arith, Bool-cases, Option-cases,
}
use salus_robot.Prelude.Int.{ℤ}
use salus_robot.Prelude.Result.{ok}
use salus_robot.Float.{Float}
use salus_robot.Navigation.Model.{RouteWaypoint, PreparedRoute}
use salus_robot.Navigation.Chunker.{Selection, advance, prepend, legacy_pair_eligible}
use salus_robot.Navigation.Chunker.Modes.{
  Dense, next_key_index, ends_dense, ends_window, dense_loop,
}
use salus_robot.Navigation.Chunker.Windows.{
  left, soft_inside, soft_inside-cons, Consecutive, get_elem?_of_lt, advance-left,
}
use salus_robot.Navigation.Chunker.Distance.{next_key_loop-Ahead, route_distance-total}

module _ {T : Type 0} ⦃F : Float T⦄ where
  -- The last checkpoint before `index` is one that an open route has passed.
  abbrev Behind : PreparedRoute T → ℕ → List ℕ → Type 0
  Behind r index [] = Unit
  Behind r index (k ∷ ks) = (k < length r.waypoints) × ((r.loop ≡ true) ⊎ (k ≤ index))

  ends_dense-total :
      (d : Dense T) (r : PreparedRoute T) (start previous index next : ℕ)
      → start < length r.waypoints
      → previous < length r.waypoints
      → index < length r.waypoints
      → next < length r.waypoints
      → (r.loop ≡ true) ⊎ ((start ≤ next) × (previous ≤ index) × (index ≤ next))
      → (b : Bool) × (ends_dense d r start previous index next ≡ ok b)
  unfolding ends_dense
  ends_dense-total d r start previous index next s p i n order =
      let (a, first) = route_distance-total r previous index p (i, ground (arith, order)) in
      let (b, second) = route_distance-total r index next i (n, ground (arith, order)) in
      let (c, third) = route_distance-total r start next s (n, ground (arith, order)) in
      (
        F.lt d.leg_max_m a || F.lt d.leg_max_m b || F.lt d.horizon_m c,
        ground (arith, first, second, third),
      )

  ends_window-total :
      (d : Dense T) (r : PreparedRoute T) (start : ℕ) (pairable : Bool) (keys : List ℕ) (index : ℕ)
      (p : RouteWaypoint T)
      → start < length r.waypoints
      → index < length r.waypoints
      → (r.loop ≡ true) ⊎ (start ≤ index)
      → Behind r index keys
      → (b : Bool) × (ends_window d r start pairable keys index p ≡ ok b)
        × ((b ≡ true) ⊎ ((if is_empty keys then pairable else legacy_pair_eligible p) ≡ true))
  unfolding ends_window next_key_index
  ends_window-total d r start pairable [] index p s i o behind = elim (Bool-cases pairable) [
    | inr e ↦ (true, ground (arith, e), inl refl)
    | inl e ↦ elim (Option-cases (next_key_index r index start)) [
      | inl n ↦ (true, ground (arith, e, n), inl refl)
      | inr (next, n) ↦ (false, ground (arith, e, n), inr e)
    ]
  ]
  ends_window-total d r start pairable (previous ∷ before) index p s i o behind =
      elim (Bool-cases (legacy_pair_eligible p)) [
        | inr e ↦ (true, ground (arith, e), inl refl)
        | inl e ↦ elim (Option-cases (next_key_index r index start)) [
          | inl n ↦ (true, ground (arith, e, n), inl refl)
          | inr (next, n) ↦
              let ahead = next_key_loop-Ahead (length r.waypoints - 1) r start index next i n in
              let (b, equal) =
                ends_dense-total d r start previous index next s behind.0 i ahead.0
                  (ground (arith, o, behind, ahead)) in
              (b, ground (arith, e, n, equal), inr e)
        ]
      ]

  legacy_pair_eligible→key : (p : RouteWaypoint T) → legacy_pair_eligible p ≡ true → p.key ≡ true
  unfolding legacy_pair_eligible
  legacy_pair_eligible→key p h = ground arith

  -- Whether the adaptive window ends at a point: at a checkpoint that is not soft it does.
  point_ends :
      (d : Dense T) (r : PreparedRoute T) (start : ℕ) (pairable : Bool) (keys : List ℕ) (index : ℕ)
      (p : RouteWaypoint T)
      → start < length r.waypoints
      → index < length r.waypoints
      → (r.loop ≡ true) ⊎ (start ≤ index)
      → Behind r index keys
      → ((is_empty keys && pairable) ≡ true → legacy_pair_eligible p ≡ true)
      → (b : Bool) × ((if p.key then ends_window d r start pairable keys index p else ok false)
          ≡ ok b)
        × ((b ≡ true) ⊎ ((not p.key || legacy_pair_eligible p) ≡ true))
  point_ends d r start pairable keys index p s i o behind first =
      let (b, equal, soft) = ends_window-total d r start pairable keys index p s i o behind in
      elim (Bool-cases p.key) [
        | inl e ↦ (b, ground (arith, e, equal), ground (arith, e, soft, first))
        | inr e ↦ (false, ground (arith, e), ground (arith, e))
      ]

  Behind-next :
      (r : PreparedRoute T) (index next : ℕ) (keys : List ℕ) (is_key : Bool)
      → index < length r.waypoints
      → (r.loop ≡ true) ⊎ (index ≤ next)
      → Behind r index keys
      → Behind r next (if is_key then index ∷ keys else keys)
  Behind-next r index next keys true i o h = (i, o)
  Behind-next r index next [] false i o h = tt
  Behind-next r index next (k ∷ ks) false i o h = ground (arith, o, h)

  pub dense_loop-total :
      (d : Dense T) (fuel : ℕ) (r : PreparedRoute T) (start : ℕ) (pairable : Bool) (keys : List ℕ)
      (index : ℕ) (iteration : ℤ)
      → index < length r.waypoints
      → start < length r.waypoints
      → left r.loop (length r.waypoints) start index ≤ fuel
      → (r.loop ≡ true) ⊎ (start ≤ index)
      → Behind r index keys
      → ((p : RouteWaypoint T)
          → get_elem? r.waypoints index ≡ some p
          → (is_empty keys && pairable) ≡ true
          → legacy_pair_eligible p ≡ true)
      → (s : Selection T) × (dense_loop d fuel r start pairable keys index iteration ≡ ok s)
        × (soft_inside s.0 ≡ true)
        × Consecutive r index s.0
  unfolding dense_loop soft_inside Consecutive
  dense_loop-total d zero r start pairable keys index iteration i j enough o behind first =
      absurd (ground arith)
  dense_loop-total d (suc fuel) r start pairable keys index iteration i j enough o behind first =
      let (p, e) = get_elem?_of_lt r.waypoints index i in
      let (b, ends, soft) = point_ends d r start pairable keys index p j i o behind (first p e) in
      elim (Bool-cases b) [
        | inl f ↦ (prepend p iteration ([], []), ground (arith, e, ends, f), refl, (e, tt))
        | inr f ↦ elim (Option-cases (advance true r start index iteration)) [
          | inl n ↦ (prepend p iteration ([], []), ground (arith, e, ends, f, n), refl, (e, tt))
          | inr ((next, later), n) ↦
              let (bound, less, step) =
                advance-left true r start index iteration i j next later n in
              let passed = if p.key then index ∷ keys else keys in
              let (s, equal, inside, on) =
                dense_loop-total d fuel r start pairable passed next later bound j (omega arith)
                  (ground (arith, o, step))
                  (Behind-next r index next keys p.key i (ground (arith, step)) behind)
                  (λ q g h. ground (arith, first p e, legacy_pair_eligible→key p, h)) in
              (
                prepend p iteration s,
                ground (arith, e, ends, f, n, equal),
                soft_inside-cons p s.0 (ground (arith, soft, f)) inside,
                (e, subst (λ k. Consecutive r k s.0) step on),
              )
        ]
      ]
