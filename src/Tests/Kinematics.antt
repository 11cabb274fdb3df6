-- ===== src/Tests/Kinematics.antt =====
-- Witnesses for the inputs of the kinematics.
use salus_robot.Prelude.{◌≡◌, refl, true, [], ◌∷◌}
use salus_robot.Prelude.Int.{ℤ, pos, negsuc}
use salus_robot.Kinematics.Measurement.{
  LegacyDriveSample, TractionMeasurementValue, SteeringMeasurementValue, adapt_legacy_drive_sample,
  is_known, signed_speed, fields_of,
}
use salus_robot.Kinematics.Conversion.{
  ConversionConfig, create, convert, converted, valid_provenance, without, convert_traction,
  convert_steering, polynomial, center_wheel_angle, input_of, traction_input, steering_input,
}
use salus_robot.Kinematics.Provenance.{IsDriveInput, IsSteeringInput, adapt-convert}
use salus_robot.Float
use salus_robot.Tests.Values.{whole, less_irreflexive, less_asymmetric, less_opposite}

-- The drive reverses, and the linkage stands beyond the limit.
abbrev reversing : LegacyDriveSample ℤ
reversing = record {
  fresh = true;
  reverse_requested = true;
  speed_valid = true;
  steer_valid = true;
  speed_mps_measured = pos 3;
  steer_deg_measured = pos 40;
}

abbrev calibration : ConversionConfig ℤ
calibration = record {
  calibration_validated = true;
  traction_linear_scale = pos 2;
  steering_coefficients = pos 1 ∷ pos 1 ∷ [];
  steering_limit_rad = pos 30;
}

abbrev traction : TractionMeasurementValue ℤ
traction = (adapt_legacy_drive_sample reversing).0

abbrev steering : SteeringMeasurementValue ℤ
steering = (adapt_legacy_drive_sample reversing).1

drive_reverses : (convert_traction (traction_input traction) calibration).value ≡ negsuc 5
unfolding adapt_legacy_drive_sample is_known signed_speed fields_of convert_traction convert
    converted valid_provenance without traction_input input_of
drive_reverses = refl

angle_is_limited : (convert_steering (steering_input steering) calibration).value ≡ pos 30
unfolding adapt_legacy_drive_sample is_known signed_speed fields_of convert_steering convert
    converted valid_provenance without steering_input input_of center_wheel_angle polynomial
    Float.max Float.min
angle_is_limited = refl

adapt-convert_example :
    IsDriveInput reversing calibration (convert_traction (traction_input traction) calibration)
    × IsSteeringInput reversing calibration (convert_steering (steering_input steering) calibration)
unfolding create
adapt-convert_example =
    adapt-convert less_irreflexive less_asymmetric less_opposite (λ a. refl) (λ a. refl)
      (λ a h. refl) reversing (pos 2) (pos 30) (pos 1 ∷ pos 1 ∷ []) calibration refl
