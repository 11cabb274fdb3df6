-- ===== src/Kinematics/Conversion.antt =====
-- kinematic_conversion_domain.py: the measurements as inputs of the kinematics, by a calibration.
use salus_robot.Prelude.{
  ℕ, Bool, false, not, ◌&&◌, ◌||◌, List, [], ◌∷◌, all, length, bit_and, bit_or, bit_xor, ltb, ◌==◌,
  if◌then◌else◌,
}
use salus_robot.Prelude.Result.{Result, ok, err}
use salus_robot.Float
use salus_robot.Float.{Float, nought}
use salus_robot.Kinematics.Measurement.{
  MeasurementFields, TractionMeasurementValue, SteeringMeasurementValue, status_ok, status_stale,
  status_invalid, source_motor_shaft, source_linkage, field_position, field_linear_velocity,
}

abbrev pub status_unavailable : ℕ
status_unavailable = 4

abbrev pub source_drive_wheel : ℕ
source_drive_wheel = 2

abbrev pub source_virtual_center_wheel : ℕ
source_virtual_center_wheel = 4

pub data ConfigError : Type 0 where
  bad_scale bad_coefficients bad_limit : ConfigError

pub record ConversionConfig (T : Type 0) : Type 0 where
  pub calibration_validated : Bool
  pub traction_linear_scale : T
  pub steering_coefficients : List T
  pub steering_limit_rad : T

pub record MeasurementInput (T : Type 0) : Type 0 where
  pub source_type : ℕ
  pub status : ℕ
  pub available_fields : ℕ
  pub measured_fields : ℕ
  pub calculated_fields : ℕ
  pub inferred_fields : ℕ
  pub value : T

pub record ConvertedValue (T : Type 0) : Type 0 where
  pub source_type : ℕ
  pub status : ℕ
  pub available_fields : ℕ
  pub measured_fields : ℕ
  pub calculated_fields : ℕ
  pub inferred_fields : ℕ
  pub value : T

-- Python's `mask & ~other`, of numbers that are not negative.
unfoldable pub without : ℕ → ℕ → ℕ
without mask other = bit_xor mask (bit_and mask other)

unfoldable pub valid_provenance : {T : Type 0} → MeasurementInput T → ℕ → Bool
unfolding without
valid_provenance s field =
    let outside = λ (mask : ℕ). not (without mask s.available_fields == 0) in
    if not (s.available_fields == field)
    then false
    else if outside s.measured_fields || outside s.calculated_fields || outside s.inferred_fields
    then false
    else if not (bit_and s.measured_fields s.calculated_fields == 0)
        || not (bit_and s.measured_fields s.inferred_fields == 0)
        || not (bit_and s.calculated_fields s.inferred_fields == 0)
    then false
    else bit_or (bit_or s.measured_fields s.calculated_fields) s.inferred_fields
      == s.available_fields

-- The status of a conversion of a sample whose status is not OK.
unfoldable pub passed_on : ℕ → ℕ
passed_on status =
    if status == status_stale || status == status_invalid || status == status_unavailable
    then status
    else status_invalid

module _ {T : Type 0} ⦃F : Float T⦄ where
  -- `ConversionConfig.create`
  unfoldable pub create : Bool → T → List T → T → Result ConfigError (ConversionConfig T)
  create calibration_validated scale coefficients limit =
      if not (F.finite scale) || F.le scale nought
      then err bad_scale
      else if not
          (ltb 0 (length coefficients) && ltb (length coefficients) 7 && all F.finite coefficients)
      then err bad_coefficients
      else if not (F.finite limit) || F.le limit nought
      then err bad_limit
      else ok (record {
        calibration_validated = calibration_validated;
        traction_linear_scale = scale;
        steering_coefficients = coefficients;
        steering_limit_rad = limit;
      })

  unfoldable pub empty : ℕ → ℕ → ConvertedValue T
  empty source_type status = record {
    source_type = source_type;
    status = status;
    available_fields = 0;
    measured_fields = 0;
    calculated_fields = 0;
    inferred_fields = 0;
    value = F.nan;
  }

  unfoldable pub converted : MeasurementInput T → ℕ → ℕ → T → ConvertedValue T
  unfolding empty
  converted s output_source field output =
      if not (F.finite output)
      then empty output_source status_invalid
      else (let inferred = if bit_and s.inferred_fields field == 0 then 0 else field in
          record {
            source_type = output_source;
            status = status_ok;
            available_fields = field;
            measured_fields = 0;
            calculated_fields = if inferred == 0 then field else 0;
            inferred_fields = inferred;
            value = output;
          })

  -- `_convert`
  unfoldable pub convert :
      MeasurementInput T → ConversionConfig T → ℕ → ℕ → ℕ → (T → T) → ConvertedValue T
  unfolding empty passed_on converted valid_provenance
  convert s c expected_source output_source field transform =
      if not c.calibration_validated
      then empty output_source status_unavailable
      else if not (s.status == status_ok)
      then empty output_source (passed_on s.status)
      else if not (s.source_type == expected_source) || not (F.finite s.value)
      then empty output_source status_invalid
      else if not (valid_provenance s field)
      then empty output_source status_invalid
      else converted s output_source field (transform s.value)

  unfoldable pub convert_traction : MeasurementInput T → ConversionConfig T → ConvertedValue T
  unfolding convert
  convert_traction s c =
      convert s c source_motor_shaft source_drive_wheel field_linear_velocity
        (λ v. F.mul v c.traction_linear_scale)

  -- The polynomial, which `reversed` reads from its last coefficient on.
  unfoldable pub polynomial : List T → T → T
  polynomial [] value = nought
  polynomial (c ∷ cs) value = F.add (F.mul (polynomial cs value) value) c

  -- `transform` of `convert_steering`
  unfoldable pub center_wheel_angle : ConversionConfig T → T → T
  unfolding polynomial
  center_wheel_angle c value =
      Float.max (F.neg c.steering_limit_rad)
        (Float.min c.steering_limit_rad (polynomial c.steering_coefficients value))

  unfoldable pub convert_steering : MeasurementInput T → ConversionConfig T → ConvertedValue T
  unfolding convert center_wheel_angle
  convert_steering s c =
      convert s c source_linkage source_virtual_center_wheel field_position (center_wheel_angle c)

-- The messages between the nodes carry the fields of a measurement: `_input` reads them.
unfoldable pub input_of : {T : Type 0} → ℕ → MeasurementFields → T → MeasurementInput T
input_of source_type fields value = record {
  source_type = source_type;
  status = fields.status;
  available_fields = fields.available_fields;
  measured_fields = fields.measured_fields;
  calculated_fields = fields.calculated_fields;
  inferred_fields = fields.inferred_fields;
  value = value;
}

unfoldable pub traction_input : {T : Type 0} → TractionMeasurementValue T → MeasurementInput T
unfolding input_of
traction_input t = input_of t.source_type t.fields t.linear_velocity_mps

unfoldable pub steering_input : {T : Type 0} → SteeringMeasurementValue T → MeasurementInput T
unfolding input_of
steering_input t = input_of t.source_type t.fields t.position_rad
