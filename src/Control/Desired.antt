-- ===== src/Control/Desired.antt =====
-- `DesiredCommand` of control_logic.py and `desired_command_from_canonical` of
-- canonical_command_consumer.py.
use salus_robot.Prelude.{◌≡◌, Bool, false, not, ◌||◌, arith, if◌then◌else◌}
use salus_robot.Prelude.Int.{ℤ, pos, negsuc, max_ℤ, min_ℤ, ◌≤ℤ◌}
use salus_robot.Prelude.Result.{Result, ok, err}
use salus_robot.Float.{Float, nought}
use salus_robot.Control.Canonical.{EffectiveCanonicalCommand}

pub record DesiredCommand (T : Type 0) : Type 0 where
  pub drive_enabled : Bool
  pub estop : Bool
  pub speed_mps : T
  pub steer_pct : ℤ
  pub brake_pct : ℤ
  pub requested_linear_x_mps : T
  pub requested_angular_z_rps : T
  pub steering_reference_speed_mps : T
  pub requested_curvature_inv_m : T
  pub applied_curvature_inv_m : T
  pub requested_steer_rad : T
  pub applied_steer_rad : T
  pub steering_limit_used_rad : T
  pub command_source : ℤ
  pub steer_saturated : Bool
  pub used_steering_speed_fallback : Bool
  pub speed_limited : Bool
  pub min_speed_enforced : Bool

-- The `ValueError` for the limit, and what `round` raises for what is not finite.
pub data LimitError : Type 0 where
  limit_not_finite_positive not_finite_percentage : LimitError

module _ {T : Type 0} ⦃F : Float T⦄ where
  unfoldable pub desired_command_from_canonical :
      EffectiveCanonicalCommand T → T → Result LimitError (DesiredCommand T)
  desired_command_from_canonical e steering_limit =
      let limit = F.abs steering_limit in
      let steer = F.mul (F.div e.steering_angle_rad limit) (F.decimal 100 0) in
      let brake = F.mul e.brake_ratio (F.decimal 100 0) in
      if not (F.finite limit) || F.le limit nought
      then err limit_not_finite_positive
      else if not (F.finite steer) || not (F.finite brake)
      then err not_finite_percentage
      else ok (record {
        drive_enabled = e.drive_enabled;
        estop = e.emergency_stop;
        speed_mps = e.speed_mps;
        steer_pct = max_ℤ (negsuc 99) (min_ℤ (pos 100) (F.round steer));
        brake_pct = max_ℤ (pos 0) (min_ℤ (pos 100) (F.round brake));
        requested_linear_x_mps = e.speed_mps;
        requested_angular_z_rps = nought;
        steering_reference_speed_mps = nought;
        requested_curvature_inv_m = nought;
        applied_curvature_inv_m = nought;
        requested_steer_rad = e.steering_angle_rad;
        applied_steer_rad = e.steering_angle_rad;
        steering_limit_used_rad = limit;
        command_source = e.source;
        steer_saturated = false;
        used_steering_speed_fallback = false;
        speed_limited = false;
        min_speed_enforced = false;
      })

  -- A command handed to a backend keeps the emergency stop and the permission to drive, with its
  -- steering in -100 to 100 percent and its brake in 0 to 100 percent.
  pub desired_bounds :
      (e : EffectiveCanonicalCommand T) (limit : T) {d : DesiredCommand T}
      → desired_command_from_canonical e limit ≡ ok d
      → (d.estop ≡ e.emergency_stop)
        × (d.drive_enabled ≡ e.drive_enabled)
        × (negsuc 99 ≤ℤ d.steer_pct)
        × (d.steer_pct ≤ℤ pos 100)
        × (pos 0 ≤ℤ d.brake_pct)
        × (d.brake_pct ≤ℤ pos 100)
  unfolding desired_command_from_canonical
  desired_bounds e limit h = ground arith
