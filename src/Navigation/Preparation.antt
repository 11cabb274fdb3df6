-- ===== src/Navigation/Preparation.antt =====
-- route_preparation.py: the checks of a route, the headings of its points, and the points that are
-- put between its checkpoints.
pub mod Checkpoints
pub mod Headings
pub mod Prepared
pub mod Yaws
use salus_robot.Prelude.{
  ℕ, zero, suc, Bool, true, false, not, ◌&&◌, ◌||◌, Option, none, some, String, str_eq, List, [],
  ◌∷◌, ◌++◌, length, get_elem?, get_or, set, all, is_empty, ltb, ◌==◌, ◌+◌, ◌%◌, ◌-◌, if◌then◌else◌,
}
use salus_robot.Prelude.Int.{ℤ, pos, negsuc}
use salus_robot.Prelude.Result.{Result, ok, err}
use salus_robot.Prelude.Text.{is_in}
use salus_robot.Float.{Float, nought}
use salus_robot.Json.{PyJson}
use salus_robot.Navigation.Actions.{ActionError, parsed, refused, overflow, parse_actions}
use salus_robot.Navigation.Model.{RouteWaypoint, PreparedRoute, coordinate, distance_to}

-- The errors of `validate_inputs` that are texts, without their wording.
pub data InputError : Type 0 where
  sizes_differ actions_differ roles_differ coordinates_not_finite unknown_role : InputError
  action_error : ActionError → InputError

-- What `validate_inputs` returns, or that it raises `OverflowError`.
pub data Validation : Type 0 where
  valid : Validation
  invalid : InputError → Validation
  overflowed : Validation

-- `ValueError` of an unknown policy.
pub data PolicyError : Type 0 where
  unknown_policy : PolicyError

unfoldable pub use_curve_tangent_policy : String → Result PolicyError Bool
use_curve_tangent_policy value =
    if is_in value ("" ∷ "route_tangent" ∷ [])
    then ok true
    else if str_eq value "legacy"
    then ok false
    else err unknown_policy

-- The loop over the actions.
unfoldable pub validate_actions :
    (T : Type 0) ⦃F : Float T⦄ ⦃P : PyJson T⦄ → ℕ → List String → Validation
validate_actions T index [] = valid
validate_actions T index (value ∷ values) = elim (parse_actions {T = T} value index) [
  | parsed actions text ↦ validate_actions T (suc index) values
  | refused e ↦ invalid (action_error e)
  | overflow ↦ overflowed
]

-- The number of steps of `range(1, count + 1)`.
abbrev pub steps : ℤ → ℕ
steps (pos n) = n
steps (negsuc n) = 0

-- The arguments of `prepare` that it passes on.
pub record Preparation (T : Type 0) : Type 0 where
  pub loop : Bool
  pub input_count : ℤ
  pub spacing_m : T
  pub chunk_span_m : T
  pub chunk_max_waypoints : ℤ
  pub curve_tangent : Bool

module _ {T : Type 0} ⦃F : Float T⦄ ⦃P : PyJson T⦄ where
  unfoldable pub validate_inputs : List T → List T → List T → List String → List String → Validation
  unfolding validate_actions
  validate_inputs lats lons yaws actions roles =
      if is_empty lats || not (length lats == length lons) || not (length lats == length yaws)
      then invalid sizes_differ
      else if not (is_empty actions) && not (length actions == length lats)
      then invalid actions_differ
      else if not (is_empty roles) && not (length roles == length lats)
      then invalid roles_differ
      else if not (all F.finite lats && all F.finite lons)
      then invalid coordinates_not_finite
      else if not (all (λ role. is_in role ("" ∷ "normal" ∷ "hard" ∷ [])) roles)
      then invalid unknown_role
      else validate_actions T 0 actions

module _ {T : Type 0} where
  -- `points[:-1]`
  unfoldable pub but_last : List (RouteWaypoint T) → List (RouteWaypoint T)
  but_last [] = []
  but_last (p ∷ []) = []
  but_last (p ∷ q ∷ ps) = p ∷ but_last (q ∷ ps)

  -- `points[-1]`, of a list that starts with a point.
  unfoldable pub last_of : RouteWaypoint T → List (RouteWaypoint T) → RouteWaypoint T
  last_of p [] = p
  last_of p (q ∷ qs) = last_of q qs

module _ {T : Type 0} ⦃F : Float T⦄ where
  unfoldable pub bearing : RouteWaypoint T → RouteWaypoint T → Option T
  bearing start end =
      let dx = F.sub (coordinate end.map_x) (coordinate start.map_x) in
      let dy = F.sub (coordinate end.map_y) (coordinate start.map_y) in
      if F.lt (F.decimal 1 9) (F.hypot dx dy) then some (F.atan2 dy dx) else none

  -- `result[i]`, of an index in range.
  abbrev at : List (RouteWaypoint T) → ℕ → RouteWaypoint T → RouteWaypoint T
  at result i point = get_or result i point

  -- The yaw that points from a point to the next one, or at the end of an open route from the one
  -- before.
  unfoldable pub legacy_yaw : List (RouteWaypoint T) → Bool → ℕ → RouteWaypoint T → T
  legacy_yaw result loop index point =
      let onward = ltb (index + 1) (length result) || loop in
      let origin = if onward || index == 0 then point else at result (index - 1) point in
      let next = if onward then at result ((index + 1) % length result) point else point in
      F.degrees (
        F.atan2 (F.sub (coordinate next.map_y) (coordinate origin.map_y))
          (F.sub (coordinate next.map_x) (coordinate origin.map_x)))

  -- The tangent of a corner, from its two bearings.
  unfoldable pub tangent : Option T → Option T → T
  tangent none none = nought
  tangent none (some outgoing) = outgoing
  tangent (some incoming) none = incoming
  tangent (some incoming) (some outgoing) =
      let x = F.add (F.cos incoming) (F.cos outgoing) in
      let y = F.add (F.sin incoming) (F.sin outgoing) in
      if F.le (F.hypot x y) (F.decimal 1 6) then outgoing else F.atan2 y x

  unfoldable pub tangent_yaw : List (RouteWaypoint T) → Bool → ℕ → RouteWaypoint T → T
  unfolding bearing tangent
  tangent_yaw result loop index point =
      let circular = loop && ltb 1 (length result) in
      let incoming =
        if not (index == 0)
        then bearing (at result (index - 1) point) point
        else if circular
        then bearing (at result (length result - 1) point) point
        else none in
      let outgoing =
        if ltb (index + 1) (length result) || circular
        then bearing point (at result ((index + 1) % length result) point)
        else none in
      F.degrees (tangent incoming outgoing)

  -- One round of the loop, at the point of an index.
  unfoldable pub resolve_at :
      Bool → Bool → ℕ → List (RouteWaypoint T) → Option (RouteWaypoint T) → List (RouteWaypoint T)
  resolve_at loop curve index result none = result
  resolve_at loop curve index result (some point) =
      if F.finite point.yaw_deg
      then result
      else set result index (record point {
        yaw_deg =
            if curve
            then tangent_yaw result loop index point
            else legacy_yaw result loop index point;
      })

  -- The rounds that are left, from an index on.
  unfoldable pub resolve_from :
      Bool → Bool → ℕ → ℕ → List (RouteWaypoint T) → List (RouteWaypoint T)
  resolve_from loop curve zero index result = result
  resolve_from loop curve (suc n) index result =
      resolve_from loop curve n (suc index)
        (resolve_at loop curve index result (get_elem? result index))

  unfoldable pub resolve_yaws : List (RouteWaypoint T) → Bool → Bool → List (RouteWaypoint T)
  unfolding resolve_from resolve_at legacy_yaw tangent_yaw
  resolve_yaws points loop curve = resolve_from loop curve (length points) 0 points

  unfoldable pub drop_loop_closure : List (RouteWaypoint T) → Bool → T → List (RouteWaypoint T)
  unfolding but_last last_of
  drop_loop_closure [] loop tolerance = []
  drop_loop_closure (p ∷ ps) loop tolerance =
      if loop && ltb 1 (length ps) && F.le (distance_to p (last_of p ps)) tolerance
      then but_last (p ∷ ps)
      else p ∷ ps

  -- The point at a fraction of the way from one point to the next.
  unfoldable pub synthetic : RouteWaypoint T → RouteWaypoint T → T → T → RouteWaypoint T
  synthetic first second yaw fraction =
      let between = λ (a b : T). F.add a (F.mul (F.sub b a) fraction) in
      record {
        lat = between first.lat second.lat;
        lon = between first.lon second.lon;
        yaw_deg = yaw;
        input_index = first.input_index;
        key = false;
        action_json = "";
        role = "normal";
        map_x = some (between (coordinate first.map_x) (coordinate second.map_x));
        map_y = some (between (coordinate first.map_y) (coordinate second.map_y));
        yaw_explicit = false;
      }

  -- The loop over the steps of a leg, with as many steps left as are given.
  unfoldable pub samples :
      RouteWaypoint T → RouteWaypoint T → T → T → T → ℕ → ℕ → List (RouteWaypoint T)
  unfolding synthetic
  samples first second yaw spacing distance step zero = []
  samples first second yaw spacing distance step (suc n) =
      let travelled = F.mul (F.of_ℤ (pos step)) spacing in
      let rest = samples first second yaw spacing distance (suc step) n in
      if F.lt (F.sub distance travelled) (F.div spacing (F.decimal 2 0))
      then []
      else synthetic first second yaw (F.div travelled distance) ∷ rest

  -- `degrees(_bearing(first, second) or 0.0) if curve_tangent else first.yaw_deg`
  unfoldable pub leg_yaw : Bool → RouteWaypoint T → RouteWaypoint T → T
  unfolding bearing
  leg_yaw false first second = first.yaw_deg
  leg_yaw true first second = F.degrees (coordinate (bearing first second))

  -- A leg, its second point left out; `none` where `int(x)` raises: x is no number, or infinite.
  unfoldable pub leg :
      T → Bool → RouteWaypoint T → RouteWaypoint T → Option (List (RouteWaypoint T))
  unfolding samples leg_yaw
  leg spacing curve first second =
      let distance = distance_to first second in
      let quotient = F.floordiv distance spacing in
      if F.finite quotient
      then some (
          first
          ∷ samples first second (leg_yaw curve first second) spacing distance 1
              (steps (F.truncate quotient)))
      else none

  -- The loop over the legs from a point on, up to the point that closes a circuit, if there is one.
  unfoldable pub legs :
      T
      → Bool
      → Option (RouteWaypoint T)
      → RouteWaypoint T
      → List (RouteWaypoint T)
      → Option (List (RouteWaypoint T))
  legs spacing curve none first [] = some (first ∷ [])
  legs spacing curve (some closing) first [] = leg spacing curve first closing
  legs spacing curve closing first (second ∷ points) =
      let rest = legs spacing curve closing second points in
      elim (leg spacing curve first second) [
        | none ↦ none
        | some out ↦ elim rest [ none ↦ none | some later ↦ some (out ++ later) ]
      ]

  unfoldable pub expand : List (RouteWaypoint T) → T → Bool → Bool → Option (List (RouteWaypoint T))
  unfolding legs leg
  expand [] spacing loop curve = some []
  expand (first ∷ points) spacing loop curve =
      if F.le spacing nought || is_empty points
      then some (first ∷ points)
      else legs spacing curve (if loop then some first else none) first points

  unfoldable pub prepare : List (RouteWaypoint T) → Preparation T → Option (PreparedRoute T)
  unfolding drop_loop_closure resolve_yaws expand
  prepare points a =
      let kept = drop_loop_closure points a.loop (F.decimal 5 2) in
      let resolved = resolve_yaws kept a.loop a.curve_tangent in
      elim (expand resolved a.spacing_m a.loop a.curve_tangent) [
        | none ↦ none
        | some expanded ↦ some (record {
          waypoints = expanded;
          loop = a.loop;
          input_count = a.input_count;
          leg_spacing_m = a.spacing_m;
          chunk_span_m = a.chunk_span_m;
          chunk_max_waypoints = a.chunk_max_waypoints;
          anchor_input_index = pos 0;
          note = "";
          auto_yaw_policy = if a.curve_tangent then "route_tangent" else "";
        })
      ]
