-- ===== src/Tests/Control.antt =====
-- Witnesses and runs for the canonical vehicle commands.
use salus_robot.Prelude.{true, false, List, [], ◌∷◌}
use salus_robot.Prelude.Int.{ℤ, pos, negsuc}
use salus_robot.Control.Canonical.{
  CanonicalCommandConfig, CanonicalCommandSample, EffectiveCanonicalCommand, new, tick,
  effective_of,
}
use salus_robot.Control.Canonical.Safety.{
  Call, samples, ticks, perform_all, IsSafe, InTime, canonical_calls-IsSafe, tick_watches,
}
use salus_robot.Tests.Values.{whole}

abbrev limits : CanonicalCommandConfig ℤ
limits = record {
  max_forward_speed_mps = pos 4;
  max_reverse_speed_mps = pos 1;
  max_steering_angle_rad = pos 2;
  max_valid_for_s = pos 3;
  max_future_skew_s = pos 1;
}

abbrev sample : CanonicalCommandSample ℤ
sample = record {
  stamp_ns = pos 10;
  source = pos 1;
  drive_enabled = true;
  emergency_stop = false;
  brake_ratio = pos 0;
  speed_mps = pos 3;
  steering_angle_rad = negsuc 0;
  steering_angle_velocity_rad_s = pos 0;
  acceleration_mps2 = pos 0;
  jerk_mps3 = pos 0;
  valid_for_s = pos 2;
}

abbrev calls : List (Call ℤ)
calls = samples sample (pos 12) (pos 5) ∷ ticks (pos 6) ∷ []

canonical_calls-IsSafe_example : IsSafe limits (perform_all calls (new limits))
canonical_calls-IsSafe_example = canonical_calls-IsSafe limits calls

tick_watches_example : InTime (pos 9) limits calls (tick (pos 9) (perform_all calls (new limits)))
tick_watches_example = tick_watches limits calls (pos 9)

abbrev command : EffectiveCanonicalCommand ℤ
command = effective_of sample
