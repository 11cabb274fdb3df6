-- ===== src/Navigation/Mission/Roles.antt =====
-- `route_roles_for_phase`: a role for each waypoint, and a strict end for a connector.
use salus_robot.Prelude.{
  suc, ◌<◌, ◌≡◌, ◌⊎◌, refl, Bool, false, Option, none, some, List, [], ◌∷◌, String, length, arith,
  ap, Bool-cases, inl, inr,
}
use salus_robot.Prelude.Result.{ok}
use salus_robot.Navigation.Model.{RouteWaypoint}
use salus_robot.Navigation.Mission.{
  PatrolPhase, PatrolRoute, CheckpointRole, hard, is_connector, harden_last, roles_of,
  route_roles_for_phase,
}

abbrev pub last : List CheckpointRole → Option CheckpointRole
last [] = none
last (role ∷ []) = some role
last (role ∷ next ∷ roles) = last (next ∷ roles)

length-harden_last : (roles : List CheckpointRole) → length (harden_last roles) ≡ length roles
unfolding harden_last
length-harden_last [] = refl
length-harden_last (role ∷ []) = refl
length-harden_last (role ∷ next ∷ roles) = ap suc (length-harden_last (next ∷ roles))

last-harden_last :
    (roles : List CheckpointRole) → 0 < length roles → last (harden_last roles) ≡ some hard
unfolding harden_last
last-harden_last [] h = absurd (omega arith)
last-harden_last (role ∷ []) h = refl
last-harden_last (role ∷ next ∷ []) h = refl
last-harden_last (role ∷ next ∷ more ∷ roles) h =
    last-harden_last (next ∷ more ∷ roles) (omega arith)

module _ {T : Type 0} where
  length-roles_of :
      (points : List (RouteWaypoint T)) (actions : List String)
      → length points ≡ length actions
      → length (roles_of points actions) ≡ length points
  unfolding roles_of
  length-roles_of [] actions h = refl
  length-roles_of (p ∷ ps) [] h = absurd (omega arith)
  length-roles_of (p ∷ ps) (a ∷ as') h = omega (arith, length-roles_of ps as' (omega arith))

  strict_end :
      {b : Bool} (points : List (RouteWaypoint T)) (roles : List CheckpointRole)
      → length roles ≡ length points
      → (b ≡ false) ⊎ (points ≡ []) ⊎ (last (harden_last roles) ≡ some hard)
  strict_end [] roles h = inr (inl refl)
  strict_end (p ∷ ps) roles h = inr (inr (last-harden_last roles (omega arith)))

  -- A route with an action text for each waypoint gets a role for each waypoint, and the last one
  -- is strict in the phases that leave and reach home.
  pub route_roles_cover :
      (phase : PatrolPhase) (route : PatrolRoute T)
      → length route.waypoints ≡ length route.actions
      → (roles : List CheckpointRole) × (route_roles_for_phase phase route ≡ ok roles)
        × (length roles ≡ length route.waypoints)
        × ((is_connector phase ≡ false) ⊎ (route.waypoints ≡ []) ⊎ (last roles ≡ some hard))
  unfolding route_roles_for_phase
  route_roles_cover phase route h =
      let roles = roles_of route.waypoints route.actions in
      let size = length-roles_of route.waypoints route.actions h in
      elim (Bool-cases (is_connector phase)) [
        | inl c ↦ (
          harden_last roles,
          ground arith,
          omega (arith, length-harden_last roles),
          strict_end route.waypoints roles size,
        )
        | inr c ↦ (roles, ground arith, size, inl c)
      ]
