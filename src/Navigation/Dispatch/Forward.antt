-- ===== src/Navigation/Dispatch/Forward.antt =====
-- The start of a dispatch goes forward, over no checkpoint and no protected point.
use mathlib.Core.Path.{subst}
use native.Mathlib.Nat.{mod-lt, zero-add, add-zero, suc-add}
use salus_robot.Prelude.{
  ℕ, zero, suc, ◌+◌, ◌-◌, ◌%◌, ◌<◌, ◌≡◌, ◌⊎◌, inl, inr, refl, sym, true, false, not, ◌&&◌, ◌||◌,
  Option, none, some, List, [], ◌∷◌, length, get_elem?, leb, ◌==◌, arith, Bool-cases, Option-cases,
  if◌then◌else◌,
}
use salus_robot.Prelude.Int.{ℤ, pos_part}
use salus_robot.Float.{Float}
use salus_robot.Navigation.Model.{RouteWaypoint, PreparedRoute}
use salus_robot.Navigation.Chunker.{following}
use salus_robot.Navigation.Chunker.Windows.{get_elem?_of_lt}
use salus_robot.Navigation.Dispatch.{
  DispatchStart, is_protected, distance_to_waypoint, passed_synthetic_segment, reached_loop,
  synthetic_loop, move_on, at_least_5_cm, resolve_dispatch_start,
}

module _ {T : Type 0} where
  -- `n` steps forward from `i` to `j`, each from a point that is no checkpoint and not protected.
  unfoldable pub Skips : PreparedRoute T → List ℕ → ℕ → ℕ → ℕ → Type 0
  Skips r given i zero j = i ≡ j
  Skips r given i (suc n) j =
      ((p : RouteWaypoint T) × (get_elem? r.waypoints i ≡ some p) × (p.key ≡ false))
      × (is_protected r given i ≡ false)
      × Skips r given (following r.loop (length r.waypoints) i) n j

  Skips-trans :
      (r : PreparedRoute T) (given : List ℕ) (i n j m k : ℕ)
      → Skips r given i n j
      → Skips r given j m k
      → Skips r given i (n + m) k
  unfolding Skips
  Skips-trans r given i zero j m k a b =
      rw (zero-add m) (subst (λ z. Skips r given z m k) (sym a) b)
  Skips-trans r given i (suc n) j m k a b =
      rw (suc-add n m)
        (a.0, a.1, Skips-trans r given (following r.loop (length r.waypoints) i) n j m k a.2 b)

  -- The number of steps is the one counted, or one more where an open route is left at its end.
  abbrev pub Moves : PreparedRoute T → List ℕ → ℕ → ℕ × ℕ → Type 0
  Moves r given i (j, n) =
      Skips r given i n j
      ⊎ ((r.loop ≡ false) × (j ≡ length r.waypoints) × Skips r given i (suc n) j)

  Skips-nil : (r : PreparedRoute T) (given : List ℕ) (i : ℕ) → Skips r given i 0 i
  unfolding Skips
  Skips-nil r given i = refl

  Skips-cons :
      (r : PreparedRoute T) (given : List ℕ) (i n j : ℕ) (p : RouteWaypoint T)
      → get_elem? r.waypoints i ≡ some p
      → p.key ≡ false
      → is_protected r given i ≡ false
      → Skips r given (following r.loop (length r.waypoints) i) n j
      → Skips r given i (suc n) j
  unfolding Skips
  Skips-cons r given i n j p e k u m = ((p, e, k), u, m)

  Moves-none : (r : PreparedRoute T) (given : List ℕ) (i : ℕ) → Moves r given i (i, 0)
  unfolding Skips
  Moves-none r given i = inl refl

  Moves-leave :
      (r : PreparedRoute T) (given : List ℕ) (i : ℕ) (p : RouteWaypoint T)
      → get_elem? r.waypoints i ≡ some p
      → p.key ≡ false
      → is_protected r given i ≡ false
      → (r.loop ≡ false) × (length r.waypoints ≡ suc i)
      → Moves r given i (length r.waypoints, 0)
  unfolding Skips
  Moves-leave r given i p e k u (l, n) = inr (l, refl, ((p, e, k), u, rw l (sym n)))

  Moves-step :
      (r : PreparedRoute T) (given : List ℕ) (i : ℕ) (p : RouteWaypoint T) (s : ℕ × ℕ)
      → get_elem? r.waypoints i ≡ some p
      → p.key ≡ false
      → is_protected r given i ≡ false
      → Moves r given (following r.loop (length r.waypoints) i) s
      → Moves r given i (s.0, suc s.1)
  unfolding Skips
  Moves-step r given i p s e k u (inl m) = inl ((p, e, k), u, m)
  Moves-step r given i p s e k u (inr (l, n, m)) = inr (l, n, ((p, e, k), u, m))

  get_elem?-length : (ps : List (RouteWaypoint T)) → get_elem? ps (length ps) ≡ none
  get_elem?-length [] = refl
  get_elem?-length (p ∷ ps) = get_elem?-length ps

module _ {T : Type 0} ⦃F : Float T⦄ where
  reached_loop-Moves :
      (steps : ℕ) (r : PreparedRoute T) (given : List ℕ) (x y tolerance : T) (i : ℕ)
      → i < length r.waypoints
      → Moves r given i (reached_loop steps r given x y tolerance i)
  unfolding reached_loop
  reached_loop-Moves zero r given x y tolerance i h = Moves-none r given i
  reached_loop-Moves (suc steps) r given x y tolerance i h =
      let (p, e) = get_elem?_of_lt r.waypoints i h in
      let total = length r.waypoints in
      let next = following r.loop total i in
      let moved = reached_loop (suc steps) r given x y tolerance i in
      elim (Bool-cases (is_protected r given i || p.key)) [
        | inl f ↦ rw (reached_loop, e, f) (Moves-none r given i)
        | inr f ↦ elim (Bool-cases (F.lt tolerance (distance_to_waypoint p x y))) [
          | inl g ↦ rw (reached_loop, e, f, g) (Moves-none r given i)
          | inr g ↦ elim (Bool-cases (not r.loop && leb total next)) [
            | inl l ↦
                rw (reached_loop, e, f, g, l)
                  (Moves-leave r given i p e (ground (arith, f)) (ground (arith, f))
                    (ground (arith, l)))
            | inr l ↦
                let bound : (next < total) = ground (arith, l, mod-lt (suc i)) in
                rw (reached_loop, e, f, g, l)
                  (Moves-step r given i p (reached_loop steps r given x y tolerance next) e
                    (ground (arith, f)) (ground (arith, f))
                    (reached_loop-Moves steps r given x y tolerance next bound))
          ]
        ]
      ]

  synthetic_loop-Skips :
      (steps : ℕ) (r : PreparedRoute T) (given : List ℕ) (x y tolerance : T) (i : ℕ)
      → let s = synthetic_loop steps r given x y tolerance i in Skips r given i s.1 s.0
  unfolding synthetic_loop
  synthetic_loop-Skips zero r given x y tolerance i = Skips-nil r given i
  synthetic_loop-Skips (suc steps) r given x y tolerance i =
      let next = following r.loop (length r.waypoints) i in
      elim (Option-cases (get_elem? r.waypoints i)) [
        | inl e ↦ rw (synthetic_loop, e) (Skips-nil r given i)
        | inr (p, e) ↦ elim (Bool-cases (p.key || is_protected r given i || next == i)) [
          | inl f ↦ rw (synthetic_loop, e, f) (Skips-nil r given i)
          | inr f ↦ elim (Option-cases (get_elem? r.waypoints next)) [
            | inl g ↦ rw (synthetic_loop, e, f, g) (Skips-nil r given i)
            | inr (q, g) ↦ elim (Bool-cases (passed_synthetic_segment p q x y tolerance)) [
              | inr l ↦ rw (synthetic_loop, e, f, g, l) (Skips-nil r given i)
              | inl l ↦
                  rw (synthetic_loop, e, f, g, l)
                    (Skips-cons r given i (synthetic_loop steps r given x y tolerance next).1
                      (synthetic_loop steps r given x y tolerance next).0 p e (ground (arith, f))
                      (ground (arith, f)) (synthetic_loop-Skips steps r given x y tolerance next))
            ]
          ]
        ]
      ]

  -- Past the end of an open route nothing is skipped.
  synthetic_loop_end :
      (steps : ℕ) (r : PreparedRoute T) (given : List ℕ) (x y tolerance : T)
      → synthetic_loop steps r given x y tolerance (length r.waypoints) ≡ (length r.waypoints, 0)
  unfolding synthetic_loop
  synthetic_loop_end zero r given x y tolerance = refl
  synthetic_loop_end (suc steps) r given x y tolerance =
      rw (synthetic_loop, get_elem?-length r.waypoints) refl

  -- A start that goes forward as `Moves` says, by the steps that are counted; or none, where the
  -- route has no point or an open route is over.
  abbrev pub IsForward : PreparedRoute T → List ℕ → ℕ → DispatchStart → Type 0
  IsForward r given requested s = elim s.index [
    | none ↦ (length r.waypoints == 0 || not r.loop && leb (length r.waypoints) requested) ≡ true
    | some j ↦
        Moves r given (if r.loop then requested % length r.waypoints else requested)
          (j, s.skipped_reached + s.skipped_synthetic)
  ]

  move_on-Moves :
      (r : PreparedRoute T) (given : List ℕ) (x y reached segment : T) (i : ℕ)
      → i < length r.waypoints
      → let steps = length r.waypoints - 1 in
        let a = reached_loop steps r given x y reached i in
        let b = synthetic_loop steps r given x y segment a.0 in Moves r given i (b.0, a.1 + b.1)
  move_on-Moves r given x y reached segment i h =
      let steps = length r.waypoints - 1 in
      let a = reached_loop steps r given x y reached i in
      let b = synthetic_loop steps r given x y segment a.0 in
      elim (reached_loop-Moves steps r given x y reached i h) [
        | inl m ↦ inl (
            Skips-trans r given i a.1 a.0 b.1 b.0 m
              (synthetic_loop-Skips steps r given x y segment a.0))
        | inr (l, n, m) ↦
            let stays : (b ≡ (length r.waypoints, 0)) =
              rw n (synthetic_loop_end steps r given x y segment) in
            rw (stays, add-zero a.1) (inr (l, refl, subst (λ z. Skips r given i (suc a.1) z) n m))
      ]

  -- Wherever the robot is, a dispatch starts where it was to start or further on along the route:
  -- every point that it passes, and there are as many as it counts, is no checkpoint and is not
  -- protected. It passes one more only at the end of an open route, which it
  -- leaves then; and it starts nowhere only if there is no point left.
  pub resolve_dispatch_start-IsForward :
      (r : PreparedRoute T) (start : ℤ) (robot_xy : Option (T × T)) (reached segment : T)
      (given : List ℕ)
      → IsForward r given
          (pos_part start)
          (resolve_dispatch_start r start robot_xy reached segment given)
  unfolding resolve_dispatch_start move_on
  resolve_dispatch_start-IsForward r start none reached segment given =
      let total = length r.waypoints in
      let first = if r.loop then pos_part start % total else pos_part start in
      elim (Bool-cases (total == 0 || not r.loop && leb total (pos_part start))) [
        | inl e ↦ simp e refl
        | inr e ↦ simp e (Moves-none r given first)
      ]
  resolve_dispatch_start-IsForward r start (some (x, y)) reached segment given =
      let total = length r.waypoints in
      let first = if r.loop then pos_part start % total else pos_part start in
      elim (Bool-cases (total == 0 || not r.loop && leb total (pos_part start))) [
        | inl e ↦ simp e refl
        | inr e ↦ elim (Bool-cases (not (F.finite x && F.finite y))) [
          | inl f ↦ simp (e, f) (Moves-none r given first)
          | inr f ↦
              simp (e, f)
                (move_on-Moves r given x y (at_least_5_cm reached) (at_least_5_cm segment) first
                  (ground (arith, e, mod-lt (pos_part start))))
        ]
      ]
