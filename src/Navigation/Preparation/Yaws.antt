-- ===== src/Navigation/Preparation/Yaws.antt =====
-- route_preparation.py: the headings that a dispatch sends, and which of them it may change.
use salus_robot.Prelude.{
  ◌≡◌, ◌⊎◌, inl, inr, refl, Bool, true, false, not, ◌&&◌, ◌||◌, Option, none, some, List, [], ◌∷◌,
  map, is_empty, arith, Bool-cases, Option-cases, if◌then◌else◌,
}
use salus_robot.Float.{Float}
use salus_robot.Navigation.Model.{RouteWaypoint}

module _ {T : Type 0} ⦃F : Float T⦄ where
  -- `abs((a - b + 180.0) % 360.0 - 180.0)`
  unfoldable pub turn_between : T → T → T
  turn_between a b =
      F.abs
        (F.sub (F.modulo (F.add (F.sub a b) (F.decimal 180 0)) (F.decimal 360 0)) (F.decimal 180 0))

  -- The heading from one place to another, in degrees; `none` where a number is missing or not
  -- finite, or the places are the same.
  unfoldable pub heading_between : Option T → Option T → Option T → Option T → Option T
  heading_between (some x0) (some y0) (some x1) (some y1) =
      let dx = F.sub x1 x0 in
      let dy = F.sub y1 y0 in
      if F.finite x0
        && F.finite y0
        && F.finite x1
        && F.finite y1
        && F.lt (F.decimal 1 9) (F.hypot dx dy)
      then some (F.degrees (F.atan2 dy dx))
      else none
  heading_between _ _ _ _ = none

  unfoldable pub approach_yaw_of : Option (T × T) → RouteWaypoint T → Option T
  unfolding heading_between
  approach_yaw_of none first = none
  approach_yaw_of (some (x, y)) first = heading_between (some x) (some y) first.map_x first.map_y

  -- The heading that the first yaw is compared with on a curve: that of the approach, if there are
  -- more points and the approach itself is no sharp turn.
  unfoldable pub reference_yaw : Bool → Option T → T → T
  unfolding turn_between
  reference_yaw many none heading = heading
  reference_yaw many (some approach) heading =
      if many && F.le (turn_between approach heading) (F.decimal 60 0) then approach else heading

  -- The heading of the robot, where the first branch uses it.
  unfoldable pub curve_heading : Bool → RouteWaypoint T → Option T → Option T
  curve_heading curve first none = none
  curve_heading curve first (some heading) =
      if curve && first.key && not first.yaw_explicit && F.finite heading
      then some heading
      else none

  -- `yaws[0]`, of a dispatch that does not take the first branch.
  unfoldable pub joined_yaw : Bool → RouteWaypoint T → Option T → T
  unfolding turn_between
  joined_yaw curve first none = first.yaw_deg
  joined_yaw curve first (some approach) =
      if not first.yaw_explicit
        && (first.key || not curve)
        && (not curve || F.lt (F.decimal 60 0) (turn_between first.yaw_deg approach))
      then approach
      else first.yaw_deg

  -- The yaws of the points after one, the last of them turned along its leg.
  unfoldable pub terminal_yaws : RouteWaypoint T → List (RouteWaypoint T) → List T
  unfolding heading_between
  terminal_yaws previous [] = []
  terminal_yaws previous (terminal ∷ []) =
      if terminal.yaw_explicit
      then terminal.yaw_deg ∷ []
      else elim (heading_between previous.map_x previous.map_y terminal.map_x terminal.map_y) [
        | none ↦ terminal.yaw_deg ∷ []
        | some yaw ↦ yaw ∷ []
      ]
  terminal_yaws previous (p ∷ q ∷ ps) = p.yaw_deg ∷ terminal_yaws p (q ∷ ps)

  unfoldable dispatch_yaws : List (RouteWaypoint T) → Option (T × T) → Option T → Bool → List T
  unfolding approach_yaw_of reference_yaw curve_heading joined_yaw terminal_yaws
  dispatch_yaws [] approach heading curve = []
  dispatch_yaws (first ∷ rest) approach heading curve =
      let approach_yaw = approach_yaw_of approach first in
      let others = map (λ p. p.yaw_deg) rest in
      elim (curve_heading curve first heading) [
        | some h ↦
            (let reference = reference_yaw (not (is_empty rest)) approach_yaw h in
              if F.lt (F.decimal 60 0) (turn_between first.yaw_deg reference)
              then reference ∷ others
              else first.yaw_deg ∷ others)
        | none ↦
            (let joined = joined_yaw curve first approach_yaw in
              if curve then joined ∷ others else joined ∷ terminal_yaws first rest)
      ]

  -- A yaw for each point: its own, unless it is the first or the last one and no operator gave it.
  abbrev Kept : Bool → List (RouteWaypoint T) → List T → Type 0
  Kept first [] [] = Unit {0}
  Kept first (p ∷ ps) (yaw ∷ yaws) =
      ((yaw ≡ p.yaw_deg) ⊎ ((p.yaw_explicit ≡ false) × ((first || is_empty ps) ≡ true)))
      × Kept false ps yaws
  Kept first _ _ = ⊥

  map-Kept : (ps : List (RouteWaypoint T)) → Kept false ps (map (λ p. p.yaw_deg) ps)
  map-Kept [] = tt
  map-Kept (p ∷ ps) = (inl refl, map-Kept ps)

  terminal_yaws-Kept :
      (previous : RouteWaypoint T) (ps : List (RouteWaypoint T))
      → Kept false ps (terminal_yaws previous ps)
  unfolding terminal_yaws
  terminal_yaws-Kept previous [] = tt
  terminal_yaws-Kept previous (p ∷ []) = ground arith
  terminal_yaws-Kept previous (p ∷ q ∷ ps) = (inl refl, terminal_yaws-Kept p (q ∷ ps))

  curve_heading-some :
      (curve : Bool) (p : RouteWaypoint T) (heading : Option T) (h : T)
      → curve_heading curve p heading ≡ some h
      → p.yaw_explicit ≡ false
  unfolding curve_heading
  curve_heading-some curve p none h e = absurd (ground (arith, e))
  curve_heading-some curve p (some x) h e = ground (arith, e)

  joined_yaw-Kept :
      (curve : Bool) (p : RouteWaypoint T) (approach : Option T)
      → (joined_yaw curve p approach ≡ p.yaw_deg) ⊎ (p.yaw_explicit ≡ false)
  unfolding joined_yaw
  joined_yaw-Kept curve p none = inl refl
  joined_yaw-Kept curve p (some approach) = ground arith

  -- The first yaw, and the ones after it.
  Kept-cons :
      (p : RouteWaypoint T) (ps : List (RouteWaypoint T)) (yaw : T) (yaws : List T)
      → (yaw ≡ p.yaw_deg) ⊎ (p.yaw_explicit ≡ false)
      → Kept false ps yaws
      → Kept true (p ∷ ps) (yaw ∷ yaws)
  Kept-cons p ps yaw yaws (inl e) k = (inl e, k)
  Kept-cons p ps yaw yaws (inr e) k = (inr (e, refl), k)

  curve-Kept :
      (p : RouteWaypoint T) (ps : List (RouteWaypoint T)) (reference : T)
      → p.yaw_explicit ≡ false
      → Kept true (p ∷ ps) (
          if F.lt (F.decimal 60 0) (turn_between p.yaw_deg reference)
          then reference ∷ map (λ q. q.yaw_deg) ps
          else p.yaw_deg ∷ map (λ q. q.yaw_deg) ps)
  curve-Kept p ps reference h =
      elim (Bool-cases (F.lt (F.decimal 60 0) (turn_between p.yaw_deg reference))) [
        | inl f ↦ rw (f, ◌≡◌) (Kept-cons p ps reference _ (inr h) (map-Kept ps))
        | inr f ↦ rw (f, ◌≡◌) (Kept-cons p ps p.yaw_deg _ (inl refl) (map-Kept ps))
      ]

  joined-Kept :
      (curve : Bool) (p : RouteWaypoint T) (ps : List (RouteWaypoint T)) (yaw : T)
      → (yaw ≡ p.yaw_deg) ⊎ (p.yaw_explicit ≡ false)
      → Kept true
          (p ∷ ps)
          (if curve then yaw ∷ map (λ q. q.yaw_deg) ps else yaw ∷ terminal_yaws p ps)
  joined-Kept true p ps yaw h = Kept-cons p ps yaw _ h (map-Kept ps)
  joined-Kept false p ps yaw h = Kept-cons p ps yaw _ h (terminal_yaws-Kept p ps)

  -- A dispatch sends a yaw for each of its points: the one that the point has, but for the first and
  -- the last point, which may be given another where no operator gave it explicitly.
  dispatch_yaws-Kept :
      (points : List (RouteWaypoint T)) (approach : Option (T × T)) (heading : Option T)
      (curve : Bool)
      → Kept true points (dispatch_yaws points approach heading curve)
  unfolding dispatch_yaws
  dispatch_yaws-Kept [] approach heading curve = tt
  dispatch_yaws-Kept (p ∷ ps) approach heading curve =
      let approach_yaw = approach_yaw_of approach p in
      elim (Option-cases (curve_heading curve p heading)) [
        | inr (h, e) ↦
            rw (e, dispatch_yaws)
              (curve-Kept p ps (reference_yaw (not (is_empty ps)) approach_yaw h)
                (curve_heading-some curve p heading h e))
        | inl e ↦
            rw (e, dispatch_yaws)
              (joined-Kept curve p ps (joined_yaw curve p approach_yaw)
                (joined_yaw-Kept curve p approach_yaw))
      ]
