-- ===== src/Control/Legacy.antt =====
-- legacy_vehicle_command.py: velocity commands with a brake, as vehicle commands.
pub mod Stops
use salus_robot.Prelude.{
  Bool, true, false, not, ◌&&◌, ◌||◌, Option, none, some, String, List, [], ◌∷◌, all, if◌then◌else◌,
}
use salus_robot.Prelude.Int.{ℤ, pos, leb_ℤ}
use salus_robot.Float.{Float, nought, one}
use salus_robot.Control.Canonical.{valid_source, source_safety}
use salus_robot.Control.Logic.{VehicleLimits, command_from_cmd_vel}

pub record LegacyVehicleCommandConfig (T : Type 0) : Type 0 where
  pub max_speed_mps : T
  pub max_reverse_mps : T
  pub vx_deadband_mps : T
  pub vx_min_effective_mps : T
  pub wheelbase_m : T
  pub steering_limit_rad : T
  pub operational_steering_limit_rad : T
  pub manual_operational_steering_limit_rad : T
  pub drive_enabled : Bool
  pub valid_for_s : T

pub data ConfigError : Type 0 where
  not_finite negative_speed_limit negative_threshold wheelbase_or_steering_not_positive
        operational_limit_not_positive manual_limit_not_positive validity_not_positive :
      ConfigError

-- The texts "legacy_compatibility", "nonfinite_legacy_command" and "invalid_legacy_source".
pub data Reason : Type 0 where
  legacy_compatibility nonfinite_legacy_command invalid_legacy_source : Reason

pub record VehicleCommandValue (T : Type 0) : Type 0 where
  pub source : ℤ
  pub drive_enabled : Bool
  pub emergency_stop : Bool
  pub brake_ratio : T
  pub speed_mps : T
  pub steering_angle_rad : T
  pub valid_for_s : T
  pub valid_input : Bool
  pub reason : Reason

module _ {T : Type 0} ⦃F : Float T⦄ where
  -- What the constructor of a configuration raises.
  unfoldable pub check_config : LegacyVehicleCommandConfig T → Option ConfigError
  check_config c =
      if not (
        all F.finite (
          c.max_speed_mps ∷ c.max_reverse_mps ∷ c.vx_deadband_mps ∷ c.vx_min_effective_mps
          ∷ c.wheelbase_m ∷ c.steering_limit_rad ∷ c.operational_steering_limit_rad
          ∷ c.manual_operational_steering_limit_rad ∷ c.valid_for_s ∷ []))
      then some not_finite
      else if F.lt c.max_speed_mps nought || F.lt c.max_reverse_mps nought
      then some negative_speed_limit
      else if F.lt c.vx_deadband_mps nought || F.lt c.vx_min_effective_mps nought
      then some negative_threshold
      else if F.le c.wheelbase_m nought || F.le c.steering_limit_rad nought
      then some wheelbase_or_steering_not_positive
      else if F.le c.operational_steering_limit_rad nought
      then some operational_limit_not_positive
      else if F.le c.manual_operational_steering_limit_rad nought
      then some manual_limit_not_positive
      else if F.le c.valid_for_s nought
      then some validity_not_positive
      else none

  -- The settings that a translation passes on.
  unfoldable pub limits_of : LegacyVehicleCommandConfig T → VehicleLimits T
  limits_of c = record {
    max_speed_mps = c.max_speed_mps;
    max_reverse_mps = c.max_reverse_mps;
    vx_deadband_mps = c.vx_deadband_mps;
    vx_min_effective_mps = c.vx_min_effective_mps;
    wheelbase_m = c.wheelbase_m;
    steering_limit_rad = c.steering_limit_rad;
    invert_steer = false;
    auto_drive_enabled = c.drive_enabled;
    operational_steering_limit_rad = some c.operational_steering_limit_rad;
    manual_operational_steering_limit_rad = some c.manual_operational_steering_limit_rad;
  }

  unfoldable pub safe_invalid : LegacyVehicleCommandConfig T → Reason → VehicleCommandValue T
  safe_invalid c reason = record {
    source = source_safety;
    drive_enabled = false;
    emergency_stop = true;
    brake_ratio = one;
    speed_mps = nought;
    steering_angle_rad = nought;
    valid_for_s = c.valid_for_s;
    valid_input = false;
    reason = reason;
  }

  unfoldable pub translate_legacy_command :
      T → T → ℤ → ℤ → LegacyVehicleCommandConfig T → VehicleCommandValue T
  unfolding safe_invalid limits_of
  translate_legacy_command linear angular brake_pct source c =
      if not (F.finite linear) || not (F.finite angular)
      then safe_invalid c nonfinite_legacy_command
      else if not (valid_source source)
      then safe_invalid c invalid_legacy_source
      else (let desired = command_from_cmd_vel linear angular brake_pct source (limits_of c) in
          record {
            source = source;
            drive_enabled = desired.drive_enabled;
            emergency_stop = desired.estop;
            brake_ratio = F.div (F.of_ℤ desired.brake_pct) (F.decimal 100 0);
            speed_mps = desired.speed_mps;
            steering_angle_rad = if desired.estop then nought else desired.applied_steer_rad;
            valid_for_s = c.valid_for_s;
            valid_input = true;
            reason = legacy_compatibility;
          })
