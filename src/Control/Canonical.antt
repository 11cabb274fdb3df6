-- ===== src/Control/Canonical.antt =====
-- canonical_command_consumer.py: the validation and the watchdog of vehicle commands.
pub mod Safety
use salus_robot.Prelude.{
  ℕ, Bool, true, false, Option, none, some, List, [], ◌∷◌, not, ◌||◌, ◌&&◌, all, if◌then◌else◌,
}
use salus_robot.Prelude.Int.{ℤ, pos, negsuc, ltb_ℤ, leb_ℤ, eqb_ℤ, max_ℤ, min_ℤ, ◌-ℤ◌}
use salus_robot.Prelude.Result.{Result, ok, err, map_result}
use salus_robot.Float
use salus_robot.Float.{Float, nought, one}

-- The sources of commands: unknown, automatic, manual, safety.
abbrev pub source_safety : ℤ
source_safety = pos 3

abbrev pub valid_source : ℤ → Bool
valid_source source = leb_ℤ (pos 0) source && leb_ℤ source (pos 3)

pub record CanonicalCommandConfig (T : Type 0) : Type 0 where
  pub max_forward_speed_mps : T
  pub max_reverse_speed_mps : T
  pub max_steering_angle_rad : T
  pub max_valid_for_s : T
  pub max_future_skew_s : T

pub data ConfigError : Type 0 where
  limits_not_finite_nonnegative limits_not_positive : ConfigError

pub record CanonicalCommandSample (T : Type 0) : Type 0 where
  pub stamp_ns : ℤ
  pub source : ℤ
  pub drive_enabled : Bool
  pub emergency_stop : Bool
  pub brake_ratio : T
  pub speed_mps : T
  pub steering_angle_rad : T
  pub steering_angle_velocity_rad_s : T
  pub acceleration_mps2 : T
  pub jerk_mps3 : T
  pub valid_for_s : T

pub data Reason : Type 0 where
  no_command watchdog_timeout : Reason
  nonfinite_command invalid_source invalid_stamp nonmonotonic_stamp future_stamp : Reason
  invalid_validity stale_on_arrival invalid_brake_ratio speed_out_of_range : Reason
  steering_out_of_range : Reason
  stopped drive_disabled service_brake accepted : Reason

-- What `round` raises for a time that is not finite in nanoseconds.
pub data TimeError : Type 0 where
  not_in_nanoseconds : TimeError

pub record EffectiveCanonicalCommand (T : Type 0) : Type 0 where
  pub source : ℤ
  pub drive_enabled : Bool
  pub emergency_stop : Bool
  pub brake_ratio : T
  pub speed_mps : T
  pub steering_angle_rad : T
  pub valid : Bool
  pub reason : Reason

pub record CanonicalCommandConsumer (T : Type 0) : Type 0 where
  pub config : CanonicalCommandConfig T
  pub last_stamp_ns : Option ℤ
  pub received_at_s : Option T
  pub effective : EffectiveCanonicalCommand T
  pub validity_s : T

-- `last is not None and stamp <= last`
abbrev pub not_after : Option ℤ → ℤ → Bool
not_after none stamp = false
not_after (some last) stamp = leb_ℤ stamp last

module _ {T : Type 0} ⦃F : Float T⦄ where
  unfoldable pub check_config : CanonicalCommandConfig T → Option ConfigError
  check_config c =
      let values =
        c.max_forward_speed_mps ∷ c.max_reverse_speed_mps ∷ c.max_steering_angle_rad
        ∷ c.max_valid_for_s ∷ c.max_future_skew_s ∷ [] in
      if not (all (λ v. F.finite v && F.le nought v) values)
      then some limits_not_finite_nonnegative
      else if F.eq c.max_steering_angle_rad nought || F.eq c.max_valid_for_s nought
      then some limits_not_positive
      else none

  unfoldable pub safe_effective_command : Reason → EffectiveCanonicalCommand T
  safe_effective_command reason = record {
    source = source_safety;
    drive_enabled = false;
    emergency_stop = true;
    brake_ratio = one;
    speed_mps = nought;
    steering_angle_rad = nought;
    valid = false;
    reason = reason;
  }

  unfoldable pub new : CanonicalCommandConfig T → CanonicalCommandConsumer T
  unfolding safe_effective_command
  new config = record {
    config = config;
    last_stamp_ns = none;
    received_at_s = none;
    effective = safe_effective_command no_command;
    validity_s = nought;
  }

  -- `round(x * 1_000_000_000)`, where `none` is what it raises where the product is not finite.
  unfoldable pub nanoseconds : T → Option ℤ
  nanoseconds x =
      let product = F.mul x (F.decimal 1000000000 0) in
      if F.finite product then some (F.round product) else none

  abbrev finite_sample : CanonicalCommandSample T → Bool
  finite_sample s =
      F.finite s.brake_ratio
      && F.finite s.speed_mps
      && F.finite s.steering_angle_rad
      && F.finite s.steering_angle_velocity_rad_s
      && F.finite s.acceleration_mps2
      && F.finite s.jerk_mps3
      && F.finite s.valid_for_s

  -- The tests of `_invalid_reason` after those of the time.
  unfoldable pub range_reason :
      CanonicalCommandSample T → CanonicalCommandConsumer T → Option Reason
  range_reason s c =
      if not (F.le nought s.brake_ratio && F.le s.brake_ratio one)
      then some invalid_brake_ratio
      else if not (
          F.le (F.neg c.config.max_reverse_speed_mps) s.speed_mps
          && F.le s.speed_mps c.config.max_forward_speed_mps)
      then some speed_out_of_range
      else if F.lt c.config.max_steering_angle_rad (F.abs s.steering_angle_rad)
      then some steering_out_of_range
      else none

  -- The tests from that of the age on.
  unfoldable pub age_reason :
      CanonicalCommandSample T → ℤ → CanonicalCommandConsumer T → Result TimeError (Option Reason)
  unfolding nanoseconds range_reason
  age_reason s now c = elim (nanoseconds (Float.min s.valid_for_s c.config.max_valid_for_s)) [
    | none ↦ err not_in_nanoseconds
    | some validity ↦
        if ltb_ℤ validity (now -ℤ s.stamp_ns)
        then ok (some stale_on_arrival)
        else ok (range_reason s c)
  ]

  -- The tests from that of the skew on.
  unfoldable pub time_reason :
      CanonicalCommandSample T → ℤ → CanonicalCommandConsumer T → Result TimeError (Option Reason)
  unfolding nanoseconds age_reason
  time_reason s now c = elim (nanoseconds c.config.max_future_skew_s) [
    | none ↦ err not_in_nanoseconds
    | some skew ↦
        if ltb_ℤ skew (s.stamp_ns -ℤ now)
        then ok (some future_stamp)
        else if F.le s.valid_for_s nought
        then ok (some invalid_validity)
        else age_reason s now c
  ]

  -- `_invalid_reason`, where `ok none` is the empty text.
  unfoldable pub invalid_reason :
      CanonicalCommandSample T → ℤ → CanonicalCommandConsumer T → Result TimeError (Option Reason)
  unfolding time_reason
  invalid_reason s now c =
      if not (finite_sample s)
      then ok (some nonfinite_command)
      else if not (valid_source s.source)
      then ok (some invalid_source)
      else if leb_ℤ s.stamp_ns (pos 0)
      then ok (some invalid_stamp)
      else if not_after c.last_stamp_ns s.stamp_ns
      then ok (some nonmonotonic_stamp)
      else time_reason s now c

  -- The command of a valid sample.
  unfoldable pub effective_of : CanonicalCommandSample T → EffectiveCanonicalCommand T
  effective_of s =
      let inhibited = s.emergency_stop || not s.drive_enabled in
      let braking = F.lt nought s.brake_ratio in
      record {
        source = s.source;
        drive_enabled = s.drive_enabled && not s.emergency_stop;
        emergency_stop = s.emergency_stop;
        brake_ratio = if s.emergency_stop then one else s.brake_ratio;
        speed_mps = if inhibited || braking then nought else s.speed_mps;
        steering_angle_rad = if inhibited then nought else s.steering_angle_rad;
        valid = true;
        reason =
            if s.emergency_stop
            then stopped
            else if not s.drive_enabled
            then drive_disabled
            else if braking
            then service_brake
            else accepted;
      }

  -- The consumer once a sample is refused for a reason, or taken into effect.
  unfoldable pub settle :
      CanonicalCommandSample T
      → T
      → Option Reason
      → CanonicalCommandConsumer T
      → CanonicalCommandConsumer T
  unfolding effective_of safe_effective_command
  settle s now (some reason) c = record c {
    received_at_s = none;
    effective = safe_effective_command reason;
  }
  settle s now none c = record c {
    last_stamp_ns = some s.stamp_ns;
    received_at_s = some now;
    validity_s = Float.min s.valid_for_s c.config.max_valid_for_s;
    effective = effective_of s;
  }

  -- `ingest` and `tick` return the field `effective` of the consumer that they leave; where `ingest`
  -- raises, the consumer stays as it was.
  unfoldable pub ingest :
      CanonicalCommandSample T
      → ℤ
      → T
      → CanonicalCommandConsumer T
      → Result TimeError (CanonicalCommandConsumer T)
  unfolding invalid_reason settle
  ingest s ros_now now c = map_result (λ reason. settle s now reason c) (invalid_reason s ros_now c)

  unfoldable pub tick : T → CanonicalCommandConsumer T → CanonicalCommandConsumer T
  unfolding safe_effective_command
  tick now c = elim c.received_at_s [
    | none ↦ c
    | some received ↦
        if F.lt c.validity_s (F.sub now received)
        then record c { received_at_s = none; effective = safe_effective_command watchdog_timeout }
        else c
  ]
