-- ===== src/Control/Legacy/Stops.antt =====
-- What a legacy command that asks for a stop, or cannot be read, does to the consumer of commands.
use salus_robot.Prelude.{◌≡◌, ◌⊎◌, inl, inr, refl, ◌∙◌, true, false, arith, Option, none, some}
use salus_robot.Prelude.Int.{ℤ, pos, ltb_ℤ}
use salus_robot.Prelude.Result.{Result, ok, err, Result-cases}
use salus_robot.Float
use salus_robot.Float.{Float, nought, one}
use salus_robot.Control.Logic.{VehicleLimits, clamp, command_from_cmd_vel}
use salus_robot.Control.Legacy.{LegacyVehicleCommandConfig, limits_of, translate_legacy_command}
use salus_robot.Control.Canonical.{
  TimeError, Reason, settle, time_reason, age_reason, nanoseconds, CanonicalCommandSample,
  CanonicalCommandConsumer, EffectiveCanonicalCommand, valid_source, invalid_reason, effective_of,
  safe_effective_command, ingest,
}

module _ {T : Type 0} ⦃F : Float T⦄ where
  -- A command that brakes, or cannot be read.
  abbrev pub Halts : T → T → ℤ → ℤ → Type 0
  Halts linear angular brake source =
      (F.finite linear ≡ false)
      ⊎ (F.finite angular ≡ false)
      ⊎ (valid_source source ≡ false)
      ⊎ (ltb_ℤ (pos 0) (F.truncate (clamp (F.of_ℤ brake) nought (F.decimal 100 0))) ≡ true)

  command-stops :
      (linear angular : T) (brake source : ℤ) (v : VehicleLimits T)
      → ltb_ℤ (pos 0) (F.truncate (clamp (F.of_ℤ brake) nought (F.decimal 100 0))) ≡ true
      → let d = command_from_cmd_vel linear angular brake source v in
        (d.estop ≡ true) × (d.speed_mps ≡ nought)
  unfolding command_from_cmd_vel
  command-stops linear angular brake source v h = (h, rw h refl)

  translate-stops :
      (linear angular : T) (brake source : ℤ) (c : LegacyVehicleCommandConfig T)
      → Halts linear angular brake source
      → let v = translate_legacy_command linear angular brake source c in
        (v.emergency_stop ≡ true) × (v.speed_mps ≡ nought) × (v.steering_angle_rad ≡ nought)
  unfolding translate_legacy_command
  translate-stops linear angular brake source c (inl h) = ground (arith, h)
  translate-stops linear angular brake source c (inr (inl h)) = ground (arith, h)
  translate-stops linear angular brake source c (inr (inr (inl h))) = ground (arith, h)
  translate-stops linear angular brake source c (inr (inr (inr h))) =
      let stops = command-stops linear angular brake source (limits_of c) h in
      let d = command_from_cmd_vel linear angular brake source (limits_of c) in
      ground (arith, stops)

  -- A command that stands still with its brake on.
  pub record Stopped (e : EffectiveCanonicalCommand T) : Type 0 where
    emergency : e.emergency_stop ≡ true
    disabled : e.drive_enabled ≡ false
    brake : e.brake_ratio ≡ one
    speed : e.speed_mps ≡ nought
    steering : e.steering_angle_rad ≡ nought

  -- A time that a sample is tested with is not finite in nanoseconds.
  abbrev pub TooLong : CanonicalCommandSample T → CanonicalCommandConsumer T → Type 0
  TooLong s c =
      let ns = F.decimal 1000000000 0 in
      (F.finite (F.mul c.config.max_future_skew_s ns) ≡ false)
      ⊎ (F.finite (F.mul (Float.min s.valid_for_s c.config.max_valid_for_s) ns) ≡ false)

  -- What `ingest` leaves stands still; only for a time that is too long does it raise.
  abbrev pub Stops :
      CanonicalCommandSample T
      → CanonicalCommandConsumer T
      → Result TimeError (CanonicalCommandConsumer T)
      → Type 0
  Stops s c (ok n) = Stopped n.effective
  Stops s c (err e) = TooLong s c

  settle-Stopped :
      (s : CanonicalCommandSample T) (now : T) (reason : Option Reason)
      (c : CanonicalCommandConsumer T)
      → s.emergency_stop ≡ true
      → Stopped (settle s now reason c).effective
  unfolding settle effective_of safe_effective_command
  settle-Stopped s now none c h = record {
    emergency = h;
    disabled = ground (arith, h);
    brake = ground (arith, h);
    speed = ground (arith, h);
    steering = ground (arith, h);
  }
  settle-Stopped s now (some reason) c h = record {
    emergency = refl;
    disabled = refl;
    brake = refl;
    speed = refl;
    steering = refl;
  }

  invalid_reason-raises :
      (s : CanonicalCommandSample T) (ros_now : ℤ) (c : CanonicalCommandConsumer T) (e : TimeError)
      → invalid_reason s ros_now c ≡ err e
      → TooLong s c
  unfolding invalid_reason time_reason age_reason nanoseconds
  invalid_reason-raises s ros_now c e h = ground (arith, h)

  ingest-Stops :
      (s : CanonicalCommandSample T) (ros_now : ℤ) (now : T) (c : CanonicalCommandConsumer T)
      → s.emergency_stop ≡ true
      → Stops s c (ingest s ros_now now c)
  unfolding ingest
  ingest-Stops s ros_now now c h = elim (Result-cases (invalid_reason s ros_now c)) [
    | inl (reason, e) ↦ rw (ingest, e) (settle-Stopped s now reason c h)
    | inr (raised, e) ↦ rw (ingest, e) (invalid_reason-raises s ros_now c raised e)
  ]

  -- A legacy command that is not finite, has an unknown source or brakes is translated to an
  -- emergency stop without speed and steering; and a consumer that takes in a sample with its
  -- emergency stop, valid or not, stands still with the brake on and may not drive, unless `ingest`
  -- raises, which it does only where the largest skew or the validity of the sample, in
  -- nanoseconds, is not finite.
  pub Halts-Stopped :
      (linear angular : T) (brake source : ℤ) (c : LegacyVehicleCommandConfig T)
      (s : CanonicalCommandSample T) (ros_now : ℤ) (now : T) (consumer : CanonicalCommandConsumer T)
      → Halts linear angular brake source
      → s.emergency_stop ≡ (translate_legacy_command linear angular brake source c).emergency_stop
      → let v = translate_legacy_command linear angular brake source c in
        (v.emergency_stop ≡ true)
        × (v.speed_mps ≡ nought)
        × (v.steering_angle_rad ≡ nought)
        × Stops s consumer (ingest s ros_now now consumer)
  Halts-Stopped linear angular brake source c s ros_now now consumer h e =
      let (stop, speed, steering) = translate-stops linear angular brake source c h in
      (stop, speed, steering, ingest-Stops s ros_now now consumer (e ∙ stop))
