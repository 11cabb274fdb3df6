-- ===== src/Navigation/Mission/Exit.antt =====
-- `select_return_exit`: a waypoint of the loop, and none closer.
use salus_robot.Prelude.{
  ℕ, suc, ◌<◌, ◌≡◌, refl, true, false, some, List, [], ◌∷◌, ◌++◌, length-append, append-nil,
  append_assoc, ◌∙◌, sym, length, get_elem?, arith,
}
use salus_robot.Float.{Float}
use salus_robot.Navigation.Model.{RouteWaypoint}
use salus_robot.Navigation.Mission.{ReturnExit, distance, better, nearest, select_return_exit}

module _ {T : Type 0} ⦃F : Float T⦄ (reference : RouteWaypoint T) where
  -- An exit of a loop: its waypoint, at its index, and the distance of that.
  abbrev pub IsExit : List (RouteWaypoint T) → ReturnExit T → Type 0
  IsExit loop exit =
      (get_elem? loop exit.loop_index ≡ some exit.waypoint)
      × (exit.distance_m ≡ distance exit.waypoint reference)

  -- No waypoint of a list is closer than a distance.
  abbrev pub NoneCloser : List (RouteWaypoint T) → T → Type 0
  NoneCloser [] d = Unit
  NoneCloser (point ∷ points) d = (F.lt (distance point reference) d ≡ false) × NoneCloser points d

  -- What the candidates so far make of the best of them: an exit of the whole loop, none closer.
  abbrev Best : List (RouteWaypoint T) → List (RouteWaypoint T) → ReturnExit T → Type 0
  Best loop seen best =
      (best.loop_index < length seen) × IsExit loop best × NoneCloser seen best.distance_m

  NoneCloser-append :
      (xs : List (RouteWaypoint T)) (point : RouteWaypoint T) (d : T)
      → NoneCloser xs d
      → F.lt (distance point reference) d ≡ false
      → NoneCloser (xs ++ point ∷ []) d
  NoneCloser-append [] point d h e = (e, tt)
  NoneCloser-append (x ∷ xs) point d h e = (h.0, NoneCloser-append xs point d h.1 e)

  get_elem-append :
      (xs : List (RouteWaypoint T)) (point : RouteWaypoint T) (ys : List (RouteWaypoint T))
      → get_elem? (xs ++ point ∷ ys) (length xs) ≡ some point
  get_elem-append [] point ys = refl
  get_elem-append (x ∷ xs) point ys = get_elem-append xs point ys

  -- Of floats: `<` is transitive, and equal numbers are not ordered.
  module _ (trans : (a b c : T) → F.lt a b ≡ true → F.lt b c ≡ true → F.lt a c ≡ true)
      (apart : (a b : T) → F.eq a b ≡ true → F.lt a b ≡ false)
      (irreflexive : (a : T) → F.lt a a ≡ false) where
    NoneCloser-lt :
        (xs : List (RouteWaypoint T)) (d e : T)
        → F.lt d e ≡ true
        → NoneCloser xs e
        → NoneCloser xs d
    NoneCloser-lt [] d e l h = tt
    NoneCloser-lt (x ∷ xs) d e l h =
        (ground (arith, trans (distance x reference) d e), NoneCloser-lt xs d e l h.1)

    -- One more candidate.
    better-Best :
        (loop seen : List (RouteWaypoint T)) (point : RouteWaypoint T)
        (points : List (RouteWaypoint T)) (best : ReturnExit T)
        → loop ≡ seen ++ point ∷ points
        → Best loop seen best
        → Best loop (seen ++ point ∷ []) (better reference (length seen) point best)
    unfolding better
    better-Best loop seen point points best e h =
        let d = distance point reference in
        ground (
          arith,
          h,
          length-append seen (point ∷ []),
          apart d best.distance_m,
          irreflexive d,
          get_elem-append seen point points,
          NoneCloser-append seen point d,
          NoneCloser-append seen point best.distance_m,
          NoneCloser-lt seen d best.distance_m,
        )

    nearest-Best :
        (points : List (RouteWaypoint T)) (loop seen : List (RouteWaypoint T)) (index : ℕ)
        (best : ReturnExit T)
        → loop ≡ seen ++ points
        → index ≡ length seen
        → Best loop seen best
        → Best loop loop (nearest reference index points best)
    unfolding nearest
    nearest-Best [] loop seen index best e i h =
        rw (e ∙ append-nil seen) (rw (e ∙ append-nil seen) at h)
    nearest-Best (point ∷ points) loop seen index best e i h =
        nearest-Best points loop (seen ++ point ∷ []) (suc index)
          (better reference index point best) (e ∙ sym (append_assoc seen (point ∷ []) points))
          (omega (arith, length-append seen (point ∷ [])))
          (rw i (better-Best loop seen point points best e h))

    -- Of a loop that has waypoints an exit is selected: one of them, with its index and its distance
    -- from the reference, and none of them is closer.
    pub select_return_exit-IsExit :
        (loop : List (RouteWaypoint T))
        → 0 < length loop
        → (exit : ReturnExit T) × (select_return_exit loop reference ≡ some exit)
          × (exit.loop_index < length loop)
          × IsExit loop exit
          × NoneCloser loop exit.distance_m
    unfolding select_return_exit
    select_return_exit-IsExit [] h = absurd (omega arith)
    select_return_exit-IsExit (point ∷ points) h =
        let first : ReturnExit T = record {
          loop_index = 0;
          waypoint = point;
          distance_m = distance point reference;
        } in
        let (below, exit, closest) =
          nearest-Best points (point ∷ points) (point ∷ []) 1 first refl refl
            (omega arith, (refl, refl), (irreflexive (distance point reference), tt)) in
        (nearest reference 1 points first, refl, below, exit, closest)
