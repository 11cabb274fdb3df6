-- ===== src/Navigation/Preparation/Prepared.antt =====
-- What a route is prepared to, from its checkpoints.
use mathlib.Core.Path.{subst}
use salus_robot.Prelude.{
  ◌≡◌, ◌⊎◌, inl, inr, refl, ap, Bool, true, false, Option, none, some, List, [], ◌∷◌, ◌++◌, length,
  arith, Bool-cases, Option-cases, if◌then◌else◌, ◌&&◌, ltb,
}
use salus_robot.Prelude.Int.{pos}
use salus_robot.Float.{Float}
use salus_robot.Navigation.Model.{RouteWaypoint, PreparedRoute, distance_to}
use salus_robot.Navigation.Preparation.{
  Preparation, resolve_yaws, but_last, last_of, drop_loop_closure, leg, legs, expand, prepare,
}
use salus_robot.Navigation.Preparation.Checkpoints.{keys, AllKeys, Starts, Ends, expand-Prepares}
use salus_robot.Navigation.Preparation.Headings.{
  AllHeaded, AllHeaded-AllKeys, resolve_yaws-AllHeaded,
}

module _ {T : Type 0} ⦃F : Float T⦄ where
  -- Dropping the closure of a circuit drops its last point at most.
  abbrev Closes : Bool → List (RouteWaypoint T) → List (RouteWaypoint T) → Type 0
  Closes loop points kept =
      (points ≡ kept) ⊎ ((q : RouteWaypoint T) × (loop ≡ true) × (points ≡ kept ++ q ∷ []))

  but_last-last :
      (p : RouteWaypoint T) (ps : List (RouteWaypoint T))
      → (q : RouteWaypoint T) × (p ∷ ps ≡ but_last (p ∷ ps) ++ q ∷ [])
  unfolding but_last
  but_last-last p [] = (p, refl)
  but_last-last p (r ∷ ps) = let (q, e) = but_last-last r ps in (q, ap (λ qs. p ∷ qs) e)

  drop_loop_closure-Closes :
      (points : List (RouteWaypoint T)) (loop : Bool) (tolerance : T)
      → Closes loop points (drop_loop_closure points loop tolerance)
  unfolding drop_loop_closure
  drop_loop_closure-Closes [] loop tolerance = inl refl
  drop_loop_closure-Closes (p ∷ ps) loop tolerance =
      elim (Bool-cases
        (loop && ltb 1 (length ps) && F.le (distance_to p (last_of p ps)) tolerance)) [
          | inl e ↦ let (q, whole) = but_last-last p ps in rw e (inr (q, ground (arith, e), whole))
          | inr e ↦ rw e (inl refl)
        ]

  AllKeys-append : (ps qs : List (RouteWaypoint T)) → AllKeys (ps ++ qs) → AllKeys ps
  AllKeys-append [] qs h = tt
  AllKeys-append (p ∷ ps) qs h = (h.0, AllKeys-append ps qs h.1)

  Closes-AllKeys :
      (loop : Bool) (points kept : List (RouteWaypoint T))
      → Closes loop points kept
      → AllKeys points
      → AllKeys kept
  Closes-AllKeys loop points kept (inl e) k = subst AllKeys e k
  Closes-AllKeys loop points kept (inr (q, l, e)) k =
      AllKeys-append kept (q ∷ []) (subst AllKeys e k)

  -- What a route is prepared to, from the checkpoints that are kept.
  abbrev pub IsPrepared : Bool → List (RouteWaypoint T) → PreparedRoute T → Type 0
  IsPrepared loop points r =
      (kept : List (RouteWaypoint T)) × Closes loop points kept
      × AllHeaded kept (keys r.waypoints)
      × Starts r.waypoints
      × ((loop ≡ true) ⊎ Ends r.waypoints)
      × (r.loop ≡ loop)

  abbrev prepared_of : List (RouteWaypoint T) → Preparation T → PreparedRoute T
  prepared_of out a = record {
    waypoints = out;
    loop = a.loop;
    input_count = a.input_count;
    leg_spacing_m = a.spacing_m;
    chunk_span_m = a.chunk_span_m;
    chunk_max_waypoints = a.chunk_max_waypoints;
    anchor_input_index = pos 0;
    note = "";
    auto_yaw_policy = if a.curve_tangent then "route_tangent" else "";
  }

  expanded-IsPrepared :
      (points : List (RouteWaypoint T)) (a : Preparation T) {out : List (RouteWaypoint T)}
      → AllKeys points
      → expand
          (resolve_yaws (drop_loop_closure points a.loop (F.decimal 5 2)) a.loop a.curve_tangent)
          a.spacing_m
          a.loop
          a.curve_tangent
        ≡ some out
      → IsPrepared a.loop points (prepared_of out a)
  expanded-IsPrepared points a k e =
      let kept = drop_loop_closure points a.loop (F.decimal 5 2) in
      let closes = drop_loop_closure-Closes points a.loop (F.decimal 5 2) in
      let resolved = resolve_yaws kept a.loop a.curve_tangent in
      let headed = resolve_yaws-AllHeaded kept a.loop a.curve_tangent in
      let all_keys =
        AllHeaded-AllKeys kept resolved headed (Closes-AllKeys a.loop points kept closes k) in
      let (prepares, ends) =
        expand-Prepares resolved a.spacing_m a.loop a.curve_tangent e all_keys in
      (kept, closes, rw prepares.0 headed, prepares.1, ends, refl)

  abbrev pub Among : RouteWaypoint T → List (RouteWaypoint T) → Type 0
  Among p [] = ⊥
  Among p (q ∷ qs) = (p ≡ q) ⊎ Among p qs

  -- Two points of a list whose distance cannot be divided into legs.
  abbrev pub Immeasurable : T → List (RouteWaypoint T) → Type 0
  Immeasurable spacing ps =
      (p q : RouteWaypoint T) × Among p ps
      × Among q ps
      × (F.finite (F.floordiv (distance_to p q) spacing) ≡ false)

  leg-none :
      (spacing : T) (curve : Bool) (p q : RouteWaypoint T)
      → leg spacing curve p q ≡ none
      → F.finite (F.floordiv (distance_to p q) spacing) ≡ false
  unfolding leg
  leg-none spacing curve p q h = ground arith

  legs_rest :
      (spacing : T) (curve : Bool) (closing : Option (RouteWaypoint T)) (p q : RouteWaypoint T)
      (ps : List (RouteWaypoint T)) {out : List (RouteWaypoint T)}
      → leg spacing curve p q ≡ some out
      → legs spacing curve closing p (q ∷ ps) ≡ none
      → legs spacing curve closing q ps ≡ none
  unfolding legs
  legs_rest spacing curve closing p q ps e h =
      elim (Option-cases (legs spacing curve closing q ps)) [
        | inl f ↦ f
        | inr (later, f) ↦ absurd (ground (arith, e, f, h))
      ]

  legs-none :
      (spacing : T) (curve : Bool) (closing : Option (RouteWaypoint T)) (p : RouteWaypoint T)
      (ps : List (RouteWaypoint T))
      → legs spacing curve closing p ps ≡ none
      → (u v : RouteWaypoint T) × Among u (p ∷ ps)
        × ((closing ≡ some v) ⊎ Among v (p ∷ ps))
        × (F.finite (F.floordiv (distance_to u v) spacing) ≡ false)
  unfolding legs
  legs-none spacing curve none p [] h = absurd (ground (arith, h))
  legs-none spacing curve (some closing) p [] h =
      (p, closing, inl refl, inl refl, leg-none spacing curve p closing h)
  legs-none spacing curve closing p (q ∷ ps) h = elim (Option-cases (leg spacing curve p q)) [
    | inl e ↦ (p, q, inl refl, inr (inr (inl refl)), leg-none spacing curve p q e)
    | inr (out, e) ↦
        let (u, v, first, second, far) =
          legs-none spacing curve closing q ps (legs_rest spacing curve closing p q ps e h) in
        (u, v, inr first, elim second [ inl c ↦ inl c | inr m ↦ inr (inr m) ], far)
  ]

  expand-none :
      (points : List (RouteWaypoint T)) (spacing : T) (loop curve : Bool)
      → expand points spacing loop curve ≡ none
      → Immeasurable spacing points
  unfolding expand
  expand-none [] spacing loop curve h = absurd (ground (arith, h))
  expand-none (p ∷ ps) spacing loop curve h =
      let (u, v, first, second, far) =
        legs-none spacing curve (if loop then some p else none) p ps (ground (arith, h)) in
      (u, v, first, elim second [ inl c ↦ inl (ground (arith, c)) | inr m ↦ m ], far)

  -- A route of checkpoints that is prepared goes through them, each once and in order, but for the
  -- last point of a circuit that may be left out; of a checkpoint only the yaw changes, and only one
  -- that was not finite. Every other point comes after a checkpoint, with its index, and has no role,
  -- action or heading of its own, and an open route ends in a checkpoint. An error is raised only
  -- where the distance of two of its points, divided by the spacing, is not finite.
  pub prepare-IsPrepared :
      (points : List (RouteWaypoint T)) (a : Preparation T)
      → AllKeys points
      → ((r : PreparedRoute T) × (prepare points a ≡ some r) × IsPrepared a.loop points r)
        ⊎ ((prepare points a ≡ none)
            × Immeasurable a.spacing_m (
                resolve_yaws
                  (drop_loop_closure points a.loop (F.decimal 5 2))
                  a.loop
                  a.curve_tangent))
  prepare-IsPrepared points a k =
      let kept = drop_loop_closure points a.loop (F.decimal 5 2) in
      let resolved = resolve_yaws kept a.loop a.curve_tangent in
      elim (Option-cases (expand resolved a.spacing_m a.loop a.curve_tangent)) [
        | inl e ↦ inr (
          unfold prepare in ground (arith, e),
          expand-none resolved a.spacing_m a.loop a.curve_tangent e,
        )
        | inr (out, e) ↦ inl (
          prepared_of out a,
          unfold prepare in ground (arith, e),
          expanded-IsPrepared points a k e,
        )
      ]
