-- ===== src/Localization/Imu.antt =====
-- imu_selection_policy.py: the samples of one inertial sensor.
pub mod Order
use salus_robot.Prelude.{
  ℕ, suc, ◌≡◌, ◌⊎◌, inl, inr, refl, Bool, true, false, not, ◌&&◌, ◌||◌, Option, none, some, String,
  str_eq, List, [], ◌∷◌, ◌++◌, all, get_or, ltb, arith, Bool-cases, Option-cases, if◌then◌else◌,
}
use salus_robot.Prelude.Int.{ℤ, pos, ltb_ℤ, leb_ℤ, ◌+ℤ◌, ◌*ℤ◌}
use salus_robot.Prelude.Result.{Result, ok, err}
use salus_robot.Prelude.Text.{is_in, is_blank}
use salus_robot.Float.{Float, one}
use salus_robot.Localization.Samples.{is_after, Ordered}

pub data SelectionConfigError : Type 0 where
  unsupported_selection empty_frames : SelectionConfigError

pub record ImuSelectionConfig : Type 0 where
  pub selected_source : String
  pub primary_frame : String
  pub secondary_frame : String

unfoldable pub supported_source_ids : List String
supported_source_ids = "imu_primary" ∷ "imu_secondary" ∷ []

unfoldable pub create : String → String → String → Result SelectionConfigError ImuSelectionConfig
create selected primary secondary =
    if not (is_in selected supported_source_ids)
    then err unsupported_selection
    else if is_blank primary || is_blank secondary
    then err empty_frames
    else ok (record {
      selected_source = selected;
      primary_frame = primary;
      secondary_frame = secondary;
    })

-- `none` where `ValueError` is raised, for a source that is neither.
unfoldable pub expected_frame_for : ImuSelectionConfig → String → Option String
expected_frame_for c source_id =
    if str_eq source_id "imu_primary"
    then some c.primary_frame
    else if str_eq source_id "imu_secondary"
    then some c.secondary_frame
    else none

-- The fields of an `Imu` message that are read; a vector has three coordinates.
pub record Imu (T : Type 0) : Type 0 where
  pub frame_id : String
  pub sec : ℤ
  pub nanosec : ℕ
  pub x : T
  pub y : T
  pub z : T
  pub w : T
  pub angular_velocity : T × T × T
  pub linear_acceleration : T × T × T
  pub orientation_covariance : List T
  pub angular_velocity_covariance : List T
  pub linear_acceleration_covariance : List T

pub data ImuReason : Type 0 where
  accepted unsupported_source source_not_selected unexpected_frame invalid_timestamp
        non_monotonic_timestamp non_finite_value degenerate_quaternion :
      ImuReason

-- A decision, and the last accepted time that it leaves.
pub record ImuSelectionDecision : Type 0 where
  pub is_accepted : Bool
  pub reason : ImuReason
  pub last_accepted_stamp_ns : Option ℤ

-- What `select_imu` returns, or that it raises: `ValueError` for a source without a frame,
-- `OverflowError` for a square that no float holds.
pub data Selection : Type 0 where
  decided : ImuSelectionDecision → Selection
  value_error overflow_error : Selection

unfoldable pub message_stamp_ns : {T : Type 0} → Imu T → Option ℤ
message_stamp_ns m =
    if ltb_ℤ m.sec (pos 0) || not (ltb m.nanosec 1_000_000_000)
    then none
    else (let stamp = m.sec *ℤ pos 1_000_000_000 +ℤ pos m.nanosec in
        if ltb_ℤ (pos 0) stamp then some stamp else none)

refuse : ImuReason → Option ℤ → Selection
refuse reason last =
    decided (record { is_accepted = false; reason = reason; last_accepted_stamp_ns = last })

-- The coordinates of a vector.
abbrev coordinates : {T : Type 0} → T × T × T → List T
coordinates v = v.0 ∷ v.1 ∷ v.2 ∷ []

module _ {T : Type 0} ⦃F : Float T⦄ where
  unfoldable pub has_only_finite_values : Imu T → Bool
  has_only_finite_values m = all F.finite (
      (m.x ∷ m.y ∷ m.z ∷ m.w ∷ [])
      ++ (coordinates m.angular_velocity
          ++ (coordinates m.linear_acceleration
              ++ (m.orientation_covariance
                  ++ (m.angular_velocity_covariance ++ m.linear_acceleration_covariance)))))

  -- `float(x) ** 2` of a finite number raises `OverflowError` where the result is not finite.
  abbrev squared : T → T
  squared x = F.pow x (F.decimal 2 0)

  -- `none` where a square raises.
  unfoldable pub has_valid_known_orientation : Imu T → Option Bool
  has_valid_known_orientation m =
      if F.eq (get_or m.orientation_covariance 0 (F.decimal 0 0)) (F.neg one)
      then some true
      else if not (
          F.finite (squared m.x)
          && F.finite (squared m.y)
          && F.finite (squared m.z)
          && F.finite (squared m.w))
      then none
      else some (
          F.lt (F.decimal 1 12)
            (F.add (F.add (F.add (squared m.x) (squared m.y)) (squared m.z)) (squared m.w)))

  -- The checks of a message whose time is well formed.
  unfoldable pub select_at : Option ℤ → ℤ → Imu T → Selection
  unfolding refuse
  select_at last stamp m =
      if not (is_after last stamp)
      then refuse non_monotonic_timestamp last
      else if not (has_only_finite_values m)
      then refuse non_finite_value last
      else elim (has_valid_known_orientation m) [
        | none ↦ overflow_error
        | some false ↦ refuse degenerate_quaternion last
        | some true ↦
            decided (record {
              is_accepted = true;
              reason = accepted;
              last_accepted_stamp_ns = some stamp;
            })
      ]

  unfoldable pub select_imu : Option ℤ → String → Imu T → ImuSelectionConfig → Selection
  unfolding refuse
  select_imu last source_id m c =
      if not (is_in source_id supported_source_ids)
      then refuse unsupported_source last
      else if not (str_eq source_id c.selected_source)
      then refuse source_not_selected last
      else elim (expected_frame_for c source_id) [
        | none ↦ value_error
        | some frame ↦
            if not (str_eq m.frame_id frame)
            then refuse unexpected_frame last
            else elim (message_stamp_ns m) [
              | none ↦ refuse invalid_timestamp last
              | some stamp ↦ select_at last stamp m
            ]
      ]
