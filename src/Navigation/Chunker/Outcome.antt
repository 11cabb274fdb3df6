-- ===== src/Navigation/Chunker/Outcome.antt =====
-- What `build_chunk` returns, in each of its modes and on every route.
use native.Mathlib.Nat.{mod-lt}
use salus_robot.Prelude.{
  ℕ, ◌%◌, ◌<◌, ◌≡◌, ◌≢◌, ◌⊎◌, inl, inr, refl, Bool, true, false, not, ◌&&◌, ◌||◌, Option, none,
  some, String, str_eq, List, [], ◌∷◌, length, is_empty, leb, ◌==◌, arith, Bool-cases,
}
use salus_robot.Prelude.Int.{ℤ}
use salus_robot.Prelude.Result.{Result, ok, err, ◌>>=◌}
use salus_robot.Float.{Float, nought}
use salus_robot.Navigation.Model.{RouteWaypoint, PreparedRoute, RouteChunk}
use salus_robot.Navigation.Chunker.{
  ChunkError, still_running, index_error, past_open_route, Selection, closed, legacy_pair_eligible,
  any_key, last_is_key, legacy_loop, build_legacy_pair_chunk, single_chunk, build_single_chunk,
}
use salus_robot.Navigation.Chunker.Modes.{
  Dense, dense_loop, build_adaptive_dense_chunk, build_chunk,
}
use salus_robot.Navigation.Chunker.Windows.{
  soft_inside, upto_last_key-none, upto_last_key-closed, Consecutive, upto_last_key-Consecutive,
  get_elem?_of_lt, legacy_loop-total,
}
use salus_robot.Navigation.Chunker.Dense.{dense_loop-total}
use salus_robot.Navigation.Chunker.Single.{single_loop-total}

module _ {T : Type 0} where
  -- A result that is not an exhausted or a misplaced loop: no chunk, an error of the arguments, or a
  -- chunk of consecutive points that ends in a checkpoint and holds only soft ones before it. Only
  -- on a circuit may a chunk be empty.
  abbrev pub IsWindow : PreparedRoute T → Result ChunkError (Option (RouteChunk T)) → Type 0
  IsWindow r (ok none) = Unit
  IsWindow r (ok (some c)) =
      Consecutive r c.start c.waypoints
      × (((r.loop ≡ true) × (c.waypoints ≡ []))
          ⊎ ((last_is_key c.waypoints ≡ true) × (soft_inside c.waypoints ≡ true)))
  IsWindow r (err e) = (e ≢ still_running) × (e ≢ index_error) × (e ≢ past_open_route)

  closed-IsWindow :
      (adaptive : Bool) (r : PreparedRoute T) (start : ℕ) (iteration : ℤ) (s : Selection T)
      → soft_inside s.0 ≡ true
      → Consecutive r start s.0
      → IsWindow r (closed adaptive r start iteration s)
  closed-IsWindow adaptive r start iteration (ps, is) soft on = elim (Bool-cases (any_key ps)) [
    | inr e ↦ rw e (ground arith)
    | inl e ↦ elim (Bool-cases (last_is_key ps)) [
      | inl f ↦ rw (e, f) (on, inr (f, soft))
      | inr f ↦
          rw (e, f) (upto_last_key-Consecutive r start ps on, inr (upto_last_key-closed ps e soft))
    ]
  ]

  pair-IsWindow :
      (adaptive : Bool) (r : PreparedRoute T) (start : ℕ) (iteration : ℤ)
      (loop : Result ChunkError (Selection T)) (s : Selection T)
      → loop ≡ ok s
      → soft_inside s.0 ≡ true
      → Consecutive r start s.0
      → IsWindow r (loop >>= closed adaptive r start iteration)
  pair-IsWindow adaptive r start iteration loop s e soft on =
      rw e (closed-IsWindow adaptive r start iteration s soft on)

  -- Where a route is not passed, the remainder of a start is an index of it, and of an open route
  -- the start itself.
  start_mod :
      (r : PreparedRoute T) (start : ℕ)
      → (length r.waypoints == 0 || not r.loop && leb (length r.waypoints) start) ≡ false
      → start % length r.waypoints < length r.waypoints
  start_mod r start h = mod-lt start (ground (arith, h))

  build_legacy_pair_chunk-IsWindow :
      (r : PreparedRoute T) (start : ℕ) (iteration : ℤ)
      → IsWindow r (build_legacy_pair_chunk r start iteration)
  unfolding build_legacy_pair_chunk
  build_legacy_pair_chunk-IsWindow r start iteration =
      let total = length r.waypoints in
      let first = start % total in
      elim (Bool-cases (total == 0 || not r.loop && leb total start)) [
        | inl e ↦ rw e tt
        | inr e ↦
            let bound = start_mod r start e in
            let (p, at) = get_elem?_of_lt r.waypoints first bound in
            let (s, equal, soft, on) =
              legacy_loop-total total r first (legacy_pair_eligible p) 0 first iteration bound bound
                (ground arith) (λ q g h. ground (arith, at, g, h)) in
            rw (e, at)
              (pair-IsWindow false r first iteration
                (legacy_loop total r first (legacy_pair_eligible p) 0 first iteration) s equal soft
                on)
      ]

  last_is_key→any_key : (ps : List (RouteWaypoint T)) → last_is_key ps ≡ true → any_key ps ≡ true
  unfolding last_is_key any_key
  last_is_key→any_key [] h = h
  last_is_key→any_key (p ∷ []) h = ground arith
  last_is_key→any_key (p ∷ q ∷ ps) h = ground (arith, last_is_key→any_key (q ∷ ps))

  Consecutive-nil : (r : PreparedRoute T) (start : ℕ) → Consecutive r start []
  unfolding Consecutive
  Consecutive-nil r start = tt

  single_chunk-IsWindow :
      (r : PreparedRoute T) (start : ℕ) (iteration : ℤ) (s : List (RouteWaypoint T) × ℕ)
      → soft_inside s.0 ≡ true
      → (last_is_key s.0 ≡ true) ⊎ (any_key s.0 ≡ false)
      → (r.loop ≡ true) ⊎ (is_empty s.0 ≡ false)
      → Consecutive r start s.0
      → IsWindow r (single_chunk r start iteration s)
  single_chunk-IsWindow r start iteration ([], index) soft ends some_left on =
      elim (Bool-cases r.loop) [
        | inl l ↦ simp l (Consecutive-nil r start, inl (refl, refl))
        | inr l ↦ absurd (ground (arith, l, some_left))
      ]
  single_chunk-IsWindow r start iteration (p ∷ ps, index) soft ends some_left on =
      let qs = p ∷ ps in
      elim (Bool-cases (any_key qs)) [
        | inl e ↦
            let f : (last_is_key qs ≡ true) = ground (arith, ends, e) in
            elim (Bool-cases r.loop) [
              | inl l ↦ simp (l, f, e) (on, inr (refl, soft))
              | inr l ↦ simp (l, e) (on, inr (f, soft))
            ]
        | inr e ↦
            let f : (last_is_key qs ≡ false) = ground (arith, last_is_key→any_key qs, e) in
            elim (Bool-cases r.loop) [
              | inl l ↦
                  simp (l, f, upto_last_key-none qs e) (Consecutive-nil r start, inl (refl, refl))
              | inr l ↦ simp (l, e) (ground arith)
            ]
      ]

  build_single_chunk-IsWindow :
      (r : PreparedRoute T) (start : ℕ) (iteration : ℤ)
      → IsWindow r (build_single_chunk r start iteration)
  unfolding build_single_chunk
  build_single_chunk-IsWindow r start iteration =
      let total = length r.waypoints in
      let first = start % total in
      elim (Bool-cases (total == 0 || not r.loop && leb total start)) [
        | inl e ↦ rw e tt
        | inr e ↦
            let bound = start_mod r start e in
            let (s, equal, soft, ends, some_left, on) =
              single_loop-total total r 0 first bound (ground arith) in
            rw (e, equal) (single_chunk-IsWindow r first iteration s soft ends some_left on)
      ]

module _ {T : Type 0} ⦃F : Float T⦄ where
  build_adaptive_dense_chunk-IsWindow :
      (d : Dense T) (r : PreparedRoute T) (start : ℕ) (iteration : ℤ)
      → IsWindow r (build_adaptive_dense_chunk d r start iteration)
  unfolding build_adaptive_dense_chunk
  build_adaptive_dense_chunk-IsWindow d r start iteration =
      let total = length r.waypoints in
      let first = start % total in
      elim (Bool-cases (F.le d.leg_max_m nought || F.le d.horizon_m nought)) [
        | inl g ↦ rw g (ground arith)
        | inr g ↦ elim (Bool-cases (total == 0 || not r.loop && leb total start)) [
          | inl e ↦ rw (g, e) tt
          | inr e ↦
              let bound = start_mod r start e in
              let (p, at) = get_elem?_of_lt r.waypoints first bound in
              let (s, equal, soft, on) =
                dense_loop-total d total r first (legacy_pair_eligible p) [] first iteration bound
                  bound (ground arith) (inr (omega arith)) tt (λ q h k. ground (arith, at, h, k)) in
              rw (g, e, at)
                (pair-IsWindow true r first iteration
                  (dense_loop d total r first (legacy_pair_eligible p) [] first iteration) s equal
                  soft on)
        ]
      ]

  -- In every mode, on every route and from every start, `build_chunk` comes to an end without an
  -- error of an index: it returns no chunk, raises for its arguments or for a route that has no
  -- checkpoint ahead, or returns points of the route one after another from the start on, which end
  -- in a checkpoint and hold before it no checkpoint whose role is not normal, or that has an action
  -- or a heading of its own. Only on a circuit may the chunk be empty.
  pub build_chunk-IsWindow :
      (mode : String) (d : Dense T) (r : PreparedRoute T) (start : ℕ) (iteration : ℤ)
      → IsWindow r (build_chunk mode d r start iteration)
  unfolding build_chunk
  build_chunk-IsWindow mode d r start iteration = elim (Bool-cases (str_eq mode "legacy_pair")) [
    | inl a ↦ rw a (build_legacy_pair_chunk-IsWindow r start iteration)
    | inr a ↦ elim (Bool-cases (str_eq mode "adaptive_dense")) [
      | inl b ↦ rw (a, b) (build_adaptive_dense_chunk-IsWindow d r start iteration)
      | inr b ↦ elim (Bool-cases (str_eq mode "single_checkpoint")) [
        | inl c ↦ rw (a, b, c) (build_single_chunk-IsWindow r start iteration)
        | inr c ↦ rw (a, b, c) (ground arith)
      ]
    ]
  ]
