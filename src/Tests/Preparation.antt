-- ===== src/Tests/Preparation.antt =====
-- Witnesses for the preparation of a route and the headings of a dispatch.
use salus_robot.Prelude.{ℕ, ◌≡◌, ◌⊎◌, refl, true, false, some, none, map, List, [], ◌∷◌}
use salus_robot.Prelude.Int.{ℤ, pos}
use salus_robot.Navigation.Model.{RouteWaypoint, PreparedRoute, distance_to}
use salus_robot.Navigation.Preparation.{Preparation, prepare, drop_loop_closure, resolve_yaws}
use salus_robot.Navigation.Preparation.Prepared.{IsPrepared, Immeasurable, prepare-IsPrepared}
use salus_robot.Tests.Values.{whole}
use mathlib.Core.Option

abbrev checkpoint : ℕ → ℕ → RouteWaypoint ℤ
checkpoint index x = record {
  lat = pos 0;
  lon = pos 0;
  yaw_deg = pos 0;
  input_index = pos index;
  key = true;
  action_json = "";
  role = "normal";
  map_x = some (pos x);
  map_y = some (pos 0);
  yaw_explicit = false;
}

abbrev checkpoints : List (RouteWaypoint ℤ)
checkpoints = checkpoint 0 30 ∷ checkpoint 1 20 ∷ checkpoint 2 0 ∷ []

abbrev settings : Preparation ℤ
settings = record {
  loop = false;
  input_count = pos 3;
  spacing_m = pos 6;
  chunk_span_m = pos 50;
  chunk_max_waypoints = pos 5;
  curve_tangent = false;
}

prepare-IsPrepared_example :
    ((r : PreparedRoute ℤ) × (prepare checkpoints settings ≡ some r)
      × IsPrepared false checkpoints r)
    ⊎ ((prepare checkpoints settings ≡ none)
        × Immeasurable
            (pos 6)
            (resolve_yaws (drop_loop_closure checkpoints false (pos 0)) false false))
prepare-IsPrepared_example = prepare-IsPrepared checkpoints settings (refl, (refl, (refl, tt)))

-- Legs of 10 and 20 with a point every 6, but for one too close to the end.
prepare_run :
    Option.map (λ r. map (λ p. p.key) r.waypoints) (prepare checkpoints settings)
    ≡ some (true ∷ false ∷ true ∷ false ∷ false ∷ true ∷ [])
unfolding prepare distance_to
prepare_run = refl
