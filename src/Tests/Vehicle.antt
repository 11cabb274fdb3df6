-- ===== src/Tests/Vehicle.antt =====
-- Witnesses for the drive commands and the guard of the battery.
use salus_robot.Prelude.{◌≡◌, ◌⊎◌, inr, refl, true, false, List, [], ◌∷◌}
use salus_robot.Prelude.Int.{ℤ, pos, ◌≤ℤ◌}
use salus_robot.Control.Logic.{VehicleLimits, clamp, command_from_cmd_vel}
use salus_robot.Control.Logic.Direction.{Follows, command_from_cmd_vel-Follows}
use salus_robot.Control.Battery.{GuardSettings, BatteryEstimator}
use salus_robot.Control.Battery.Guard.{Event, sampled, interrupted}
use salus_robot.Control.Legacy.{LegacyVehicleCommandConfig, translate_legacy_command}
use salus_robot.Control.Legacy.Stops.{Stops, Halts-Stopped}
use salus_robot.Control.Canonical.{CanonicalCommandSample, CanonicalCommandConsumer, new, ingest}
use salus_robot.Tests.Values.{whole, less_irreflexive, less_asymmetric, less_neg, above_neg}
use mathlib.Core.Option.{none}
use salus_robot.Float

abbrev vehicle : VehicleLimits ℤ
vehicle = record {
  max_speed_mps = pos 4;
  max_reverse_mps = pos 1;
  vx_deadband_mps = pos 0;
  vx_min_effective_mps = pos 0;
  wheelbase_m = pos 1;
  steering_limit_rad = pos 1;
  invert_steer = false;
  auto_drive_enabled = true;
  operational_steering_limit_rad = none;
  manual_operational_steering_limit_rad = none;
}

command_from_cmd_vel-Follows_example :
    let c = command_from_cmd_vel (pos 9) (pos 1) (pos 0) (pos 1) vehicle in
    Follows (pos 9) vehicle c.speed_mps
    × (((c.estop ≡ true) × (c.speed_mps ≡ pos 0) × (c.steer_pct ≡ pos 0))
        ⊎ ((c.estop ≡ false) × (c.brake_pct ≤ℤ pos 0)))
    × (c.min_speed_enforced ≡ false)
command_from_cmd_vel-Follows_example =
    command_from_cmd_vel-Follows less_irreflexive less_asymmetric less_neg above_neg (pos 9) (pos 1)
      (pos 0) (pos 1) vehicle

abbrev settings : GuardSettings ℤ
settings = record {
  return_home_voltage_v = pos 46;
  return_home_persist_s = pos 30;
  guard_clear_voltage_v = pos 48;
  guard_clear_persist_s = pos 30;
}

abbrev estimator : BatteryEstimator ℤ
estimator = record {
  soc_curve_points = (pos 44, pos 0) ∷ (pos 53, pos 1) ∷ [];
  return_home_voltage_v = pos 46;
  return_home_persist_s = pos 30;
  guard_clear_voltage_v = pos 48;
  guard_clear_persist_s = pos 30;
  last_sample_time_s = none;
  low_elapsed_s = pos 0;
  clear_elapsed_s = pos 0;
  mission_guard_latched = false;
}

-- The voltage is low for 40 seconds, without a measurement in between, and then for 31.
abbrev events : List (Event ℤ)
events =
    sampled (pos 45) (pos 10) true true ∷ interrupted ∷ sampled (pos 45) (pos 50) true true ∷ []

abbrev last_event : Event ℤ
last_event = sampled (pos 45) (pos 81) true true

abbrev legacy : LegacyVehicleCommandConfig ℤ
legacy = record {
  max_speed_mps = pos 4;
  max_reverse_mps = pos 1;
  vx_deadband_mps = pos 0;
  vx_min_effective_mps = pos 0;
  wheelbase_m = pos 1;
  steering_limit_rad = pos 1;
  operational_steering_limit_rad = pos 1;
  manual_operational_steering_limit_rad = pos 1;
  drive_enabled = true;
  valid_for_s = pos 1;
}

-- A sample that brakes, and is too late for its consumer.
abbrev braking : CanonicalCommandSample ℤ
braking = record {
  stamp_ns = pos 10;
  source = pos 2;
  drive_enabled = true;
  emergency_stop = true;
  brake_ratio = pos 0;
  speed_mps = pos 0;
  steering_angle_rad = pos 0;
  steering_angle_velocity_rad_s = pos 0;
  acceleration_mps2 = pos 0;
  jerk_mps3 = pos 0;
  valid_for_s = pos 1;
}

abbrev consumer : CanonicalCommandConsumer ℤ
consumer = new (record {
  max_forward_speed_mps = pos 4;
  max_reverse_speed_mps = pos 1;
  max_steering_angle_rad = pos 2;
  max_valid_for_s = pos 3;
  max_future_skew_s = pos 1;
})

Halts-Stopped_example :
    let v = translate_legacy_command (pos 3) (pos 1) (pos 40) (pos 2) legacy in
    (v.emergency_stop ≡ true)
    × (v.speed_mps ≡ pos 0)
    × (v.steering_angle_rad ≡ pos 0)
    × Stops braking consumer (ingest braking (pos 10) (pos 10) consumer)
unfolding translate_legacy_command command_from_cmd_vel clamp Float.max Float.min
Halts-Stopped_example =
    Halts-Stopped (pos 3) (pos 1) (pos 40) (pos 2) legacy braking (pos 10) (pos 10) consumer
      (inr (inr (inr refl))) refl
