-- ===== src/Tests/Routes.antt =====
-- Witnesses and runs for the chunks of a route.
use salus_robot.Prelude.{ℕ, ◌≡◌, refl, Bool, true, false, some, [], ◌∷◌}
use salus_robot.Prelude.Int.{ℤ, pos}
use salus_robot.Prelude.Result.{ok}
use salus_robot.Navigation.Model.{RouteWaypoint, PreparedRoute, RouteChunk}
use salus_robot.Navigation.Chunker.{
  build_single_chunk, single_loop, any_key, last_is_key, upto_last_key, next_start,
}
use salus_robot.Navigation.Chunker.Modes.{Dense, build_chunk}
use salus_robot.Navigation.Chunker.Outcome.{IsWindow, build_chunk-IsWindow}
use salus_robot.Navigation.Dispatch.{resolve_dispatch_start, limit_chunk_to_horizon}
use salus_robot.Navigation.Dispatch.Forward.{IsForward, resolve_dispatch_start-IsForward}
use salus_robot.Navigation.Dispatch.Horizon.{Keeps, limit_chunk_to_horizon-Keeps}
use salus_robot.Navigation.Reanchor.{pending_checkpoint_suffix}
use salus_robot.Navigation.Reanchor.Pending.{IsPending, pending_checkpoint_suffix-IsPending}
use salus_robot.Tests.Values.{whole}

-- A point on the map, which is a checkpoint or not.
abbrev at : ℕ → Bool → RouteWaypoint ℤ
at x is_key = record {
  lat = pos 0;
  lon = pos 0;
  yaw_deg = pos 0;
  input_index = pos x;
  key = is_key;
  action_json = "";
  role = "normal";
  map_x = some (pos x);
  map_y = some (pos 0);
  yaw_explicit = false;
}

abbrev route_of : Bool → PreparedRoute ℤ
route_of loop = record {
  waypoints = at 0 true ∷ at 5 false ∷ at 9 true ∷ at 12 false ∷ at 15 true ∷ [];
  loop = loop;
  input_count = pos 3;
  leg_spacing_m = pos 5;
  chunk_span_m = pos 20;
  chunk_max_waypoints = pos 8;
  anchor_input_index = pos 0;
  note = "";
  auto_yaw_policy = "";
}

abbrev dense : Dense ℤ
dense = record { leg_max_m = pos 8; horizon_m = pos 35 }

abbrev chunk : RouteChunk ℤ
chunk = record {
  waypoints = at 5 false ∷ at 9 true ∷ [];
  start = 1;
  end = 2;
  iteration = pos 0;
  checkpoint_iterations = [];
}

-- From the point after the first checkpoint, a chunk leads to the second.
chunk_run : build_single_chunk (route_of true) 1 (pos 0) ≡ ok (some chunk)
unfolding build_single_chunk single_loop any_key last_is_key
chunk_run = refl

-- The start of the chunk after it.
start_run : next_start (route_of true) chunk ≡ 3
unfolding next_start
start_run = refl

-- A circuit whose one checkpoint lies behind the start.
abbrev lonely : PreparedRoute ℤ
lonely = record {
  waypoints = at 0 true ∷ at 5 false ∷ at 9 false ∷ [];
  loop = true;
  input_count = pos 1;
  leg_spacing_m = pos 5;
  chunk_span_m = pos 20;
  chunk_max_waypoints = pos 8;
  anchor_input_index = pos 0;
  note = "";
  auto_yaw_policy = "";
}

-- The chunk from the point after it has no waypoint.
abbrev nothing : RouteChunk ℤ
nothing = record {
  waypoints = [];
  start = 1;
  end = 0;
  iteration = pos 0;
  checkpoint_iterations = [];
}

lonely_run : build_single_chunk lonely 1 (pos 0) ≡ ok (some nothing)
unfolding build_single_chunk single_loop any_key last_is_key upto_last_key
lonely_run = refl

build_chunk-IsWindow_example :
    IsWindow (route_of true) (build_chunk "adaptive_dense" dense (route_of true) 2 (pos 0))
build_chunk-IsWindow_example = build_chunk-IsWindow "adaptive_dense" dense (route_of true) 2 (pos 0)

resolve_dispatch_start-IsForward_example :
    IsForward (route_of true) (2 ∷ []) 1 (
      resolve_dispatch_start (route_of true) (pos 1) (some (pos 5, pos 0)) (pos 1) (pos 1) (2 ∷ []))
resolve_dispatch_start-IsForward_example =
    resolve_dispatch_start-IsForward (route_of true) (pos 1) (some (pos 5, pos 0)) (pos 1) (pos 1)
      (2 ∷ [])

limit_chunk_to_horizon-Keeps_example :
    Keeps chunk
      (pos 5)
      (pos 0)
      (pos 2)
      (limit_chunk_to_horizon (route_of true) chunk (pos 5) (pos 0) (pos 2))
limit_chunk_to_horizon-Keeps_example =
    limit_chunk_to_horizon-Keeps (route_of true) chunk (pos 5) (pos 0) (pos 2)

pending_checkpoint_suffix-IsPending_example :
    IsPending chunk ((pos 0, pos 9) ∷ []) (pending_checkpoint_suffix chunk ((pos 0, pos 9) ∷ []))
pending_checkpoint_suffix-IsPending_example =
    pending_checkpoint_suffix-IsPending chunk ((pos 0, pos 9) ∷ [])
