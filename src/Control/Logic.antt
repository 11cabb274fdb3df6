-- ===== src/Control/Logic.antt =====
-- control_logic.py: the drive command of a velocity command, and its time-out.
pub mod Direction
use salus_robot.Prelude.{ℕ, Bool, true, false, Option, none, some, not, ◌||◌, if◌then◌else◌}
use salus_robot.Prelude.Int.{ℤ, pos, negsuc, neg, ltb_ℤ, eqb_ℤ}
use salus_robot.Float
use salus_robot.Float.{Float, nought}
use salus_robot.Control.Desired.{DesiredCommand}

-- The texts "auto" and "auto_timeout".
pub data ArbitrationSource : Type 0 where
  auto auto_timeout : ArbitrationSource

pub record ArbitrationResult (T : Type 0) : Type 0 where
  pub command : DesiredCommand T
  pub source : ArbitrationSource
  pub fresh : Bool

-- The eight results of the steering computation.
pub record Steering (T : Type 0) : Type 0 where
  pub steer_pct : ℤ
  pub reference_speed : T
  pub requested_curvature : T
  pub applied_curvature : T
  pub requested_steer_rad : T
  pub applied_steer_rad : T
  pub saturated : Bool
  pub used_fallback : Bool

-- The settings of the vehicle that `command_from_cmd_vel` takes.
pub record VehicleLimits (T : Type 0) : Type 0 where
  pub max_speed_mps : T
  pub max_reverse_mps : T
  pub vx_deadband_mps : T
  pub vx_min_effective_mps : T
  pub wheelbase_m : T
  pub steering_limit_rad : T
  pub invert_steer : Bool
  pub auto_drive_enabled : Bool
  pub operational_steering_limit_rad : Option T
  pub manual_operational_steering_limit_rad : Option T

-- `int(command_source) == COMMAND_SOURCE_MANUAL`
abbrev is_manual : ℤ → Bool
is_manual source = eqb_ℤ source (pos 2)

module _ {T : Type 0} ⦃F : Float T⦄ where
  unfoldable pub clamp : T → T → T → T
  unfolding Float.max Float.min
  clamp value low high = Float.max low (Float.min high value)

  -- 1.0e-6
  abbrev pub tiny : T
  tiny = F.decimal 1 6

  -- `max(1.0e-6, abs(x))`
  abbrev at_least_tiny : T → T
  at_least_tiny x = Float.max tiny (F.abs x)

  unfoldable pub effective_steering_limit_rad : T → Option T → Option T → ℤ → T
  effective_steering_limit_rad limit operational manual source =
      let steering_limit = at_least_tiny limit in
      elim (if is_manual source then manual else operational) [
        | none ↦ steering_limit
        | some configured ↦ Float.min steering_limit (at_least_tiny configured)
      ]

  unfoldable pub safe_command : DesiredCommand T
  safe_command = record {
    drive_enabled = false;
    estop = false;
    speed_mps = nought;
    steer_pct = pos 0;
    brake_pct = pos 0;
    requested_linear_x_mps = nought;
    requested_angular_z_rps = nought;
    steering_reference_speed_mps = nought;
    requested_curvature_inv_m = nought;
    applied_curvature_inv_m = nought;
    requested_steer_rad = nought;
    applied_steer_rad = nought;
    steering_limit_used_rad = nought;
    command_source = pos 0;
    steer_saturated = false;
    used_steering_speed_fallback = false;
    speed_limited = false;
    min_speed_enforced = false;
  }

  straight : Steering T
  straight = record {
    steer_pct = pos 0;
    reference_speed = nought;
    requested_curvature = nought;
    applied_curvature = nought;
    requested_steer_rad = nought;
    applied_steer_rad = nought;
    saturated = false;
    used_fallback = false;
  }

  -- The computation once the reference speed is known.
  steer_at : T → Bool → T → T → T → T → Steering T
  unfolding clamp
  steer_at reference fallback angular wheelbase steering_limit applied_limit =
      let curvature = F.div angular reference in
      let requested = F.atan (F.mul wheelbase curvature) in
      let applied = clamp requested (F.neg applied_limit) applied_limit in
      let pct = F.round (F.mul (F.div applied steering_limit) (F.decimal 100 0)) in
      record {
        steer_pct = F.truncate (clamp (F.of_ℤ pct) (F.neg (F.decimal 100 0)) (F.decimal 100 0));
        reference_speed = reference;
        requested_curvature = curvature;
        applied_curvature = F.div (F.tan applied) wheelbase;
        requested_steer_rad = requested;
        applied_steer_rad = applied;
        saturated = F.lt tiny (F.abs (F.sub requested applied));
        used_fallback = fallback;
      }

  -- `_compute_ackermann_steer_command` from a linear and an angular velocity, a deadband and a
  -- least effective speed.
  unfoldable pub compute_ackermann : T → T → T → T → VehicleLimits T → ℤ → Steering T
  unfolding steer_at straight effective_steering_limit_rad
  compute_ackermann linear angular vx_deadband vx_min v source =
      let wheelbase = at_least_tiny v.wheelbase_m in
      let limit = at_least_tiny v.steering_limit_rad in
      let applied =
        effective_steering_limit_rad limit v.operational_steering_limit_rad
          v.manual_operational_steering_limit_rad source in
      let deadband = Float.max nought vx_deadband in
      let least = Float.max nought vx_min in
      if F.le (F.abs linear) (Float.max tiny deadband)
      then if F.le (F.abs angular) tiny
        then straight
        else steer_at (Float.max least (F.decimal 1 1)) true angular wheelbase limit applied
      else steer_at linear false angular wheelbase limit applied

  -- The speed of a command, and whether it was limited: forwards, backwards or neither.
  unfoldable pub speed_of : T → VehicleLimits T → T × Bool
  unfolding clamp
  speed_of linear v =
      let max_speed = Float.max nought v.max_speed_mps in
      let max_reverse = Float.max nought v.max_reverse_mps in
      let deadband = Float.max nought v.vx_deadband_mps in
      if F.lt nought linear
      then (let requested = clamp linear nought max_speed in
          (
            if F.lt requested deadband then nought else requested,
            F.lt tiny (F.abs (F.sub requested linear)),
          ))
      else if F.lt linear nought
      then (let reverse = clamp (F.abs linear) nought max_reverse in
          (
            if F.lt reverse deadband then nought else F.neg reverse,
            F.lt tiny (F.abs (F.sub reverse (F.abs linear))),
          ))
      else (nought, false)

  -- `reverse_brake_pct` is taken by the source and not read.
  unfoldable pub command_from_cmd_vel : T → T → ℤ → ℤ → VehicleLimits T → DesiredCommand T
  unfolding clamp
  command_from_cmd_vel linear angular brake_pct source v =
      let max_speed = Float.max nought v.max_speed_mps in
      let deadband = Float.max nought v.vx_deadband_mps in
      let least = clamp v.vx_min_effective_mps nought max_speed in
      let (speed, limited) = speed_of linear v in
      let s = compute_ackermann linear angular deadband least v source in
      let steer = if v.invert_steer then neg s.steer_pct else s.steer_pct in
      let brake = F.truncate (clamp (F.of_ℤ brake_pct) nought (F.decimal 100 0)) in
      let estop = ltb_ℤ (pos 0) brake in
      record {
        drive_enabled = v.auto_drive_enabled;
        estop = estop;
        speed_mps = if estop then nought else speed;
        steer_pct = if estop then pos 0 else steer;
        brake_pct = brake;
        requested_linear_x_mps = linear;
        requested_angular_z_rps = angular;
        steering_reference_speed_mps = s.reference_speed;
        requested_curvature_inv_m = s.requested_curvature;
        applied_curvature_inv_m = s.applied_curvature;
        requested_steer_rad = s.requested_steer_rad;
        applied_steer_rad = s.applied_steer_rad;
        steering_limit_used_rad =
            effective_steering_limit_rad v.steering_limit_rad v.operational_steering_limit_rad
              v.manual_operational_steering_limit_rad source;
        command_source = source;
        steer_saturated = s.saturated;
        used_steering_speed_fallback = s.used_fallback;
        speed_limited = limited;
        min_speed_enforced = false;
      }

  unfoldable pub select_effective_command : T → DesiredCommand T → T → T → ArbitrationResult T
  unfolding safe_command
  select_effective_command now command stamp timeout =
      if F.le (F.sub now stamp) (Float.max nought timeout)
      then record { command = command; source = auto; fresh = true }
      else record { command = safe_command; source = auto_timeout; fresh = false }
