-- ===== src/Kinematics/Provenance.antt =====
-- What becomes of the telemetry of the legacy drive: the inputs of the kinematics, or none.
use salus_robot.Prelude.{◌≡◌, ◌⊎◌, refl, ℕ, Bool, true, false, List, arith, if◌then◌else◌}
use salus_robot.Prelude.Result.{ok}
use salus_robot.Float
use salus_robot.Float.{Float, nought}
use salus_robot.Kinematics.Measurement.{
  LegacyDriveSample, is_known, signed_speed, fields_of, adapt_legacy_drive_sample, status_ok,
  status_stale, status_invalid, field_linear_velocity, field_position, source_motor_shaft,
  source_linkage,
}
use salus_robot.Kinematics.Conversion.{
  ConversionConfig, ConvertedValue, create, convert, converted, empty, passed_on, valid_provenance,
  convert_traction, convert_steering, polynomial, center_wheel_angle, traction_input,
  steering_input, input_of,
}

module _ {T : Type 0} ⦃F : Float T⦄ where
  abbrev pub IsEmpty : ℕ → ConvertedValue T → Type 0
  IsEmpty status r =
      (r.status ≡ status)
      × (r.available_fields ≡ 0)
      × (r.measured_fields ≡ 0)
      × (r.calculated_fields ≡ 0)
      × (r.inferred_fields ≡ 0)
      × (r.value ≡ F.nan)

  -- What a reading becomes that is known or not, and fresh or not, and is converted to `output`:
  -- nothing, with the status that says why, or the output.
  abbrev pub Becomes : Bool → Bool → ℕ → T → ConvertedValue T → Type 0
  Becomes known fresh field output r =
      ((known ≡ false) × IsEmpty status_invalid r)
      ⊎ ((known ≡ true) × (fresh ≡ false) × IsEmpty status_stale r)
      ⊎ ((known ≡ true) × (fresh ≡ true) × (F.finite output ≡ false) × IsEmpty status_invalid r)
      ⊎ ((known ≡ true)
          × (fresh ≡ true)
          × (F.finite output ≡ true)
          × (r.status ≡ status_ok)
          × (r.available_fields ≡ field)
          × (r.value ≡ output))

  -- A speed is inferred, where there is one.
  abbrev pub IsDriveInput : LegacyDriveSample T → ConversionConfig T → ConvertedValue T → Type 0
  IsDriveInput s c r =
      Becomes (is_known s.speed_valid s.speed_mps_measured) s.fresh field_linear_velocity
        (F.mul (signed_speed s) c.traction_linear_scale) r
      × (r.measured_fields ≡ 0)
      × (r.calculated_fields ≡ 0)
      × (r.inferred_fields ≡ r.available_fields)

  -- An angle is calculated, where there is one, and within the limit.
  abbrev pub IsSteeringInput : LegacyDriveSample T → ConversionConfig T → ConvertedValue T → Type 0
  IsSteeringInput s c r =
      let angle = center_wheel_angle c (F.radians s.steer_deg_measured) in
      Becomes (is_known s.steer_valid s.steer_deg_measured) s.fresh field_position angle r
      × (r.measured_fields ≡ 0)
      × (r.calculated_fields ≡ r.available_fields)
      × (r.inferred_fields ≡ 0)
      × (F.lt angle (F.neg c.steering_limit_rad) ≡ false)
      × (F.lt c.steering_limit_rad angle ≡ false)

  convert_traction-Becomes :
      (fresh known : Bool) (value : T) (c : ConversionConfig T)
      → c.calibration_validated ≡ true
      → (known ≡ true → F.finite value ≡ true)
      → let fields = fields_of fresh known field_linear_velocity true in
        let reading = if known then value else F.nan in
        let r = convert_traction (input_of source_motor_shaft fields reading) c in
        Becomes known fresh field_linear_velocity (F.mul value c.traction_linear_scale) r
        × (r.measured_fields ≡ 0)
        × (r.calculated_fields ≡ 0)
        × (r.inferred_fields ≡ r.available_fields)
  unfolding convert_traction convert input_of fields_of empty passed_on valid_provenance converted
  convert_traction-Becomes fresh false value c h finite = ground (arith, h)
  convert_traction-Becomes false true value c h finite = ground (arith, h, finite refl)
  convert_traction-Becomes true true value c h finite = ground (arith, h, finite refl)

  convert_steering-Becomes :
      (fresh known : Bool) (value : T) (c : ConversionConfig T)
      → c.calibration_validated ≡ true
      → (known ≡ true → F.finite value ≡ true)
      → let fields = fields_of fresh known field_position false in
        let reading = if known then value else F.nan in
        let r = convert_steering (input_of source_linkage fields reading) c in
        Becomes known fresh field_position (center_wheel_angle c value) r
        × (r.measured_fields ≡ 0)
        × (r.calculated_fields ≡ r.available_fields)
        × (r.inferred_fields ≡ 0)
  unfolding convert_steering convert input_of fields_of empty passed_on valid_provenance converted
  convert_steering-Becomes fresh false value c h finite = ground (arith, h)
  convert_steering-Becomes false true value c h finite = ground (arith, h, finite refl)
  convert_steering-Becomes true true value c h finite = ground (arith, h, finite refl)

  create-Positive :
      (validated : Bool) (scale limit : T) (coefficients : List T) (c : ConversionConfig T)
      → create validated scale coefficients limit ≡ ok c
      → (c.calibration_validated ≡ validated) × (F.le c.steering_limit_rad nought ≡ false)
  unfolding create
  create-Positive validated scale limit coefficients c h = ground (arith, h)

  is_known-finite : (valid : Bool) (value : T) → is_known valid value ≡ true → F.finite value ≡ true
  unfolding is_known
  is_known-finite valid value h = ground (arith, h)

module _ {T : Type 0} ⦃F : Float T⦄ (irreflexive : (a : T) → F.lt a a ≡ false)
    (asymmetric : (a b : T) → F.lt a b ≡ true → F.lt b a ≡ false)
    (positive_above : (a : T) → F.le a nought ≡ false → F.lt a (F.neg a) ≡ false)
    (abs-finite : (a : T) → F.finite (F.abs a) ≡ F.finite a)
    (neg-finite : (a : T) → F.finite (F.neg a) ≡ F.finite a)
    (radians-finite : (a : T) → F.finite a ≡ true → F.finite (F.radians a) ≡ true) where
  signed_speed-finite :
      (s : LegacyDriveSample T)
      → F.finite s.speed_mps_measured ≡ true
      → F.finite (signed_speed s) ≡ true
  unfolding signed_speed
  signed_speed-finite s h =
      ground (arith, h, abs-finite s.speed_mps_measured, neg-finite (F.abs s.speed_mps_measured))

  center_wheel_angle-bounds :
      (c : ConversionConfig T) (value : T)
      → F.le c.steering_limit_rad nought ≡ false
      → (F.lt (center_wheel_angle c value) (F.neg c.steering_limit_rad) ≡ false)
        × (F.lt c.steering_limit_rad (center_wheel_angle c value) ≡ false)
  unfolding center_wheel_angle Float.max Float.min
  center_wheel_angle-bounds c value h =
      let limit = c.steering_limit_rad in
      let angle = polynomial c.steering_coefficients value in
      ground (
        arith,
        positive_above limit h,
        irreflexive limit,
        irreflexive (F.neg limit),
        asymmetric angle limit,
        asymmetric (F.neg limit) angle,
        asymmetric (F.neg limit) limit,
      )

  -- With a validated calibration, a sample of the legacy drive that is adapted and converted becomes
  -- inputs of the kinematics exactly where it is fresh and its reading valid and finite, and the
  -- result is finite; else an input says whether it is stale or invalid, and holds no field. The speed
  -- of the drive wheel is only ever inferred and the angle of the wheel calculated, neither is
  -- measured, and the angle keeps the limit; for floats whose order is irreflexive and asymmetric,
  -- with no positive number below its negative, where the sign and radians keep what is finite.
  pub adapt-convert :
      (s : LegacyDriveSample T) (scale limit : T) (coefficients : List T) (c : ConversionConfig T)
      → create true scale coefficients limit ≡ ok c
      → let (traction, steering) = adapt_legacy_drive_sample s in
        IsDriveInput s c (convert_traction (traction_input traction) c)
        × IsSteeringInput s c (convert_steering (steering_input steering) c)
  unfolding adapt_legacy_drive_sample traction_input steering_input
  adapt-convert s scale limit coefficients c h =
      let (validated, positive) = create-Positive true scale limit coefficients c h in
      let drive =
        convert_traction-Becomes s.fresh (is_known s.speed_valid s.speed_mps_measured)
          (signed_speed s) c validated
          (λ k. signed_speed-finite s (is_known-finite s.speed_valid s.speed_mps_measured k)) in
      let steering =
        convert_steering-Becomes s.fresh (is_known s.steer_valid s.steer_deg_measured)
          (F.radians s.steer_deg_measured) c validated
          (λ k.
            radians-finite s.steer_deg_measured
              (is_known-finite s.steer_valid s.steer_deg_measured k)) in
      let bounds = center_wheel_angle-bounds c (F.radians s.steer_deg_measured) positive in
      (drive, (steering.0, steering.1, steering.2, steering.3, bounds.0, bounds.1))
