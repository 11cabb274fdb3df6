-- ===== src/Kinematics/Measurement.antt =====
-- legacy_drive_measurement_domain.py: the telemetry of the legacy drive as physical measurements.
use salus_robot.Prelude.{ℕ, Bool, true, false, not, ◌&&◌, if◌then◌else◌}
use salus_robot.Float.{Float}

-- The statuses of a measurement, here and in the conversion.
abbrev pub status_ok : ℕ
status_ok = 1

abbrev pub status_stale : ℕ
status_stale = 2

abbrev pub status_invalid : ℕ
status_invalid = 3

abbrev pub source_motor_shaft : ℕ
source_motor_shaft = 1

abbrev pub source_linkage : ℕ
source_linkage = 2

abbrev pub field_position : ℕ
field_position = 1

abbrev pub field_linear_velocity : ℕ
field_linear_velocity = 4

pub record LegacyDriveSample (T : Type 0) : Type 0 where
  pub fresh : Bool
  pub reverse_requested : Bool
  pub speed_valid : Bool
  pub steer_valid : Bool
  pub speed_mps_measured : T
  pub steer_deg_measured : T

-- The fields are masks of bits.
pub record MeasurementFields : Type 0 where
  pub status : ℕ
  pub available_fields : ℕ
  pub measured_fields : ℕ
  pub calculated_fields : ℕ
  pub inferred_fields : ℕ

pub record TractionMeasurementValue (T : Type 0) : Type 0 where
  pub source_type : ℕ
  pub fields : MeasurementFields
  pub linear_velocity_mps : T

pub record SteeringMeasurementValue (T : Type 0) : Type 0 where
  pub source_type : ℕ
  pub fields : MeasurementFields
  pub position_rad : T

-- `_fields`
unfoldable pub fields_of : Bool → Bool → ℕ → Bool → MeasurementFields
fields_of fresh valid field inferred =
    if not valid
    then record {
      status = status_invalid;
      available_fields = 0;
      measured_fields = 0;
      calculated_fields = 0;
      inferred_fields = 0;
    }
    else record {
      status = if fresh then status_ok else status_stale;
      available_fields = field;
      measured_fields = 0;
      calculated_fields = if inferred then 0 else field;
      inferred_fields = if inferred then field else 0;
    }

module _ {T : Type 0} ⦃F : Float T⦄ where
  -- `speed_is_valid` and `steer_is_valid`
  unfoldable pub is_known : Bool → T → Bool
  is_known valid value = valid && F.finite value

  unfoldable pub signed_speed : LegacyDriveSample T → T
  signed_speed s =
      if s.reverse_requested then F.neg (F.abs s.speed_mps_measured) else F.abs s.speed_mps_measured

  unfoldable pub adapt_legacy_drive_sample :
      LegacyDriveSample T → TractionMeasurementValue T × SteeringMeasurementValue T
  unfolding is_known signed_speed fields_of
  adapt_legacy_drive_sample s =
      let speed_is_valid = is_known s.speed_valid s.speed_mps_measured in
      let steer_is_valid = is_known s.steer_valid s.steer_deg_measured in
      (
        record {
          source_type = source_motor_shaft;
          fields = fields_of s.fresh speed_is_valid field_linear_velocity true;
          linear_velocity_mps = if speed_is_valid then signed_speed s else F.nan;
        },
        record {
          source_type = source_linkage;
          fields = fields_of s.fresh steer_is_valid field_position false;
          position_rad = if steer_is_valid then F.radians s.steer_deg_measured else F.nan;
        },
      )
