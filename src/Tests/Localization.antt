-- ===== src/Tests/Localization.antt =====
-- Witnesses for the choice of one source of a sensor.
use salus_robot.Prelude.{none, String, List, [], ◌∷◌}
use salus_robot.Prelude.Int.{ℤ, pos, negsuc}
use salus_robot.Localization.Samples.{Ordered}
use salus_robot.Localization.Gnss.{
  NavSatFix, GnssSelectionPolicy, evaluate, position_error, Follows, accepted_fixes-Ordered,
}
use salus_robot.Localization.Gnss
use salus_robot.Localization.Imu.{Imu, ImuSelectionConfig}
use salus_robot.Localization.Imu.Order.{stamp_or_zero, IsChosen, accepted_samples-Ordered}
use salus_robot.Localization.Imu.Order
use salus_robot.Tests.Values.{whole}

abbrev fix : ℤ → ℤ → NavSatFix ℤ
fix sec latitude = record {
  frame_id = "base_link";
  sec = sec;
  nanosec = 5;
  status = pos 0;
  latitude = latitude;
  longitude = pos 60;
  altitude = pos 100;
  position_covariance = pos 1 ∷ [];
}

abbrev policy : GnssSelectionPolicy
policy = record {
  selected_source = "gnss_primary";
  expected_frame = "base_link";
  last_stamp_ns = none;
}

-- The second comes from the other receiver, the third is beyond the pole, the fourth is late.
abbrev fixes : List (String × NavSatFix ℤ)
fixes =
    ("gnss_primary", fix (pos 3) (pos 34))
    ∷ ("gnss_secondary", fix (pos 4) (pos 34))
    ∷ ("gnss_primary", fix (pos 5) (pos 91))
    ∷ ("gnss_primary", fix (pos 2) (pos 34))
    ∷ ("gnss_primary", fix (pos 6) (pos 35))
    ∷ []

accepted_fixes-Ordered_example :
    Follows (λ s. s) (negsuc 0) policy (Gnss.accepted_of (λ s. s) (negsuc 0) fixes policy)
accepted_fixes-Ordered_example = accepted_fixes-Ordered (λ s. s) (negsuc 0) fixes policy

abbrev turned : ℤ → ℤ → Imu ℤ
turned sec w = record {
  frame_id = "imu_link";
  sec = sec;
  nanosec = 0;
  x = pos 0;
  y = pos 0;
  z = pos 0;
  w = w;
  angular_velocity = (pos 0, pos 0, pos 1);
  linear_acceleration = (pos 0, pos 0, pos 10);
  orientation_covariance = pos 1 ∷ [];
  angular_velocity_covariance = [];
  linear_acceleration_covariance = [];
}

abbrev sources : ImuSelectionConfig
sources = record {
  selected_source = "imu_primary";
  primary_frame = "imu_link";
  secondary_frame = "other_link";
}

-- The second has no direction, and the third is late.
abbrev samples : List (String × Imu ℤ)
samples =
    ("imu_primary", turned (pos 3) (pos 1))
    ∷ ("imu_primary", turned (pos 4) (pos 0))
    ∷ ("imu_primary", turned (pos 3) (pos 1))
    ∷ ("imu_primary", turned (pos 5) (pos 1))
    ∷ []

accepted_samples-Ordered_example :
    Ordered
      (λ s. stamp_or_zero s.1)
      (IsChosen sources)
      none
      (Order.accepted_of sources samples none)
accepted_samples-Ordered_example = accepted_samples-Ordered sources samples none
