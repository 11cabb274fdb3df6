-- ===== src/Navigation/Chunker/Single.antt =====
-- The loop of `build_chunk` in its own mode ends, at a checkpoint or with none.
use mathlib.Core.Path.{subst}
use native.Mathlib.Nat.{mod-lt, mod-eq_of_lt}
use salus_robot.Prelude.{
  ℕ, zero, suc, ◌+◌, ◌%◌, ◌≤◌, ◌<◌, ◌≡◌, ◌⊎◌, inl, inr, refl, true, false, not, ◌&&◌, List, [], ◌∷◌,
  length, is_empty, leb, if◌then◌else◌, arith, Bool-cases,
}
use salus_robot.Prelude.Result.{ok}
use salus_robot.Navigation.Model.{RouteWaypoint, PreparedRoute}
use salus_robot.Navigation.Chunker.{following, any_key, last_is_key, single_loop, is_full}
use salus_robot.Navigation.Chunker.Windows.{
  soft_inside, soft_inside-cons, last_is_key-cons, Consecutive, get_elem?_of_lt,
}

module _ {T : Type 0} where
  pub single_loop-total :
      (fuel : ℕ) (r : PreparedRoute T) (count index : ℕ)
      → index < length r.waypoints
      → length r.waypoints ≤ (if r.loop then count + fuel else index + fuel)
      → (s : List (RouteWaypoint T) × ℕ) × (single_loop fuel r count index ≡ ok s)
        × (soft_inside s.0 ≡ true)
        × ((last_is_key s.0 ≡ true) ⊎ (any_key s.0 ≡ false))
        × ((r.loop ≡ true) ⊎ (is_empty s.0 ≡ false))
        × Consecutive r index s.0
  unfolding single_loop soft_inside last_is_key any_key Consecutive
  single_loop-total zero r count index i enough =
      (([], index), ground arith, refl, inr refl, ground arith, tt)
  single_loop-total (suc fuel) r count index i enough =
      let (p, e) = get_elem?_of_lt r.waypoints index i in
      let next = suc index % length r.waypoints in
      elim (Bool-cases (is_full r count)) [
        | inl f ↦ (([], index), rw f refl, refl, inr refl, ground (arith, f), tt)
        | inr f ↦ elim (Bool-cases p.key) [
          | inl k ↦ (
            (p ∷ [], following r.loop (length r.waypoints) index),
            rw (f, e, k) refl,
            refl,
            inl k,
            inr refl,
            (e, tt),
          )
          | inr k ↦ elim (Bool-cases (not r.loop && leb (length r.waypoints) (suc index))) [
            | inl g ↦ (
              (p ∷ [], suc index),
              rw (f, e, k, g) refl,
              refl,
              inr (ground (arith, k)),
              inr refl,
              (e, tt),
            )
            | inr g ↦
                let step : (next ≡ following r.loop (length r.waypoints) index) =
                  elim (Bool-cases r.loop) [
                    | inl l ↦ ground (arith, l)
                    | inr l ↦
                        ground (arith, l, g, mod-eq_of_lt {n = suc index} {m = length r.waypoints})
                  ] in
                let bound : (next < length r.waypoints) = mod-lt (suc index) (ground (arith, i)) in
                let (s, equal, soft, ends, some_left, on) =
                  single_loop-total fuel r (suc count) next bound (ground (arith, step, enough)) in
                (
                  (p ∷ s.0, s.1),
                  rw (f, e, k, g, equal) refl,
                  soft_inside-cons p s.0 (ground (arith, k)) soft,
                  ground (arith, ends, k, last_is_key-cons p s.0),
                  inr refl,
                  (e, subst (λ m. Consecutive r m s.0) step on),
                )
          ]
        ]
      ]
