-- ===== src/Control/Comparison.antt =====
-- vehicle_command_comparison.py: a vehicle command that was expected, and one that was observed.
use salus_robot.Prelude.{
  ◌≡◌, ◌↔◌, refl, sym, ◌∙◌, Bool, true, false, not, ◌&&◌, Option, none, some, String, str_eq, List,
  [], ◌∷◌, ◌++◌, all, is_empty, arith, if◌then◌else◌,
}
use salus_robot.Prelude.Int.{ℤ, pos, leb_ℤ, eqb_ℤ}
use salus_robot.Prelude.Text.{is_blank}
use salus_robot.Float.{Float, nought}
use salus_robot.Control.Legacy.{VehicleCommandValue}

pub record ObservedVehicleCommand (T : Type 0) : Type 0 where
  pub source : ℤ
  pub drive_enabled : Bool
  pub emergency_stop : Bool
  pub brake_ratio : T
  pub speed_mps : T
  pub steering_angle_rad : T
  pub valid_for_s : T
  pub frame_id : String
  pub stamp_ns : ℤ

pub record ComparisonTolerances (T : Type 0) : Type 0 where
  pub speed_mps : T
  pub steering_angle_rad : T
  pub brake_ratio : T
  pub valid_for_s : T
  pub expected_frame_id : String

pub data ToleranceError : Type 0 where
  not_finite_nonnegative empty_frame : ToleranceError

-- The field that a reason is about.
pub data Field : Type 0 where
  brake_ratio speed_mps steering_angle_rad valid_for_s source drive_enabled emergency_stop
        frame_id :
      Field

pub data Difference : Type 0 where
  nonfinite mismatch : Field → Difference
  stamp_invalid : Difference

pub record ComparisonResult : Type 0 where
  pub matches : Bool
  pub reasons : List Difference

abbrev pub eqb : Bool → Bool → Bool
eqb true b = b
eqb false b = not b

-- One reason, where a test fails.
abbrev unless : Bool → Difference → List Difference
unless true d = []
unless false d = d ∷ []

module _ {T : Type 0} ⦃F : Float T⦄ where
  unfoldable pub check_tolerances : ComparisonTolerances T → Option ToleranceError
  check_tolerances t =
      if not (
        all (λ v. F.finite v && F.le nought v)
          (t.speed_mps ∷ t.steering_angle_rad ∷ t.brake_ratio ∷ t.valid_for_s ∷ []))
      then some not_finite_nonnegative
      else if is_blank t.expected_frame_id
      then some empty_frame
      else none

  -- What is said of a number.
  compare_scalar : Field → T → T → T → List Difference
  compare_scalar field expected observed tolerance =
      if not (F.finite observed)
      then nonfinite field ∷ []
      else if F.lt tolerance (F.abs (F.sub expected observed))
      then mismatch field ∷ []
      else []

  unfoldable pub differences :
      VehicleCommandValue T → ObservedVehicleCommand T → ComparisonTolerances T → List Difference
  unfolding compare_scalar
  differences e o t =
      compare_scalar brake_ratio e.brake_ratio o.brake_ratio t.brake_ratio
      ++ (compare_scalar speed_mps e.speed_mps o.speed_mps t.speed_mps
          ++ (compare_scalar steering_angle_rad e.steering_angle_rad o.steering_angle_rad
                t.steering_angle_rad
              ++ (compare_scalar valid_for_s e.valid_for_s o.valid_for_s t.valid_for_s
                  ++ (unless (eqb_ℤ e.source o.source) (mismatch source)
                      ++ (unless (eqb e.drive_enabled o.drive_enabled) (mismatch drive_enabled)
                          ++ (unless (eqb e.emergency_stop o.emergency_stop)
                                (mismatch emergency_stop)
                              ++ (unless (str_eq o.frame_id t.expected_frame_id) (mismatch frame_id)
                                  ++ unless (not (leb_ℤ o.stamp_ns (pos 0))) stamp_invalid)))))))

  unfoldable pub compare_vehicle_commands :
      VehicleCommandValue T → ObservedVehicleCommand T → ComparisonTolerances T → ComparisonResult
  unfolding differences
  compare_vehicle_commands e o t =
      let reasons = differences e o t in record { matches = is_empty reasons; reasons = reasons }

is_empty-append : (xs ys : List Difference) → is_empty (xs ++ ys) ≡ (is_empty xs && is_empty ys)
is_empty-append [] ys = refl
is_empty-append (x ∷ xs) ys = refl

is_empty-unless : (b : Bool) (d : Difference) → is_empty (unless b d) ≡ b
is_empty-unless true d = refl
is_empty-unless false d = refl

ruleset empties = (is_empty-append, is_empty-unless)

module _ {T : Type 0} ⦃F : Float T⦄ where
  -- A number that is finite, and as far from the expected one as is tolerated.
  abbrev close : T → T → T → Bool
  close expected observed tolerance =
      F.finite observed && not (F.lt tolerance (F.abs (F.sub expected observed)))

  is_empty-compare_scalar :
      (field : Field) (e o t : T) → is_empty (compare_scalar field e o t) ≡ close e o t
  unfolding compare_scalar
  is_empty-compare_scalar field e o t = ground arith

  -- Commands that say the same, within the tolerances.
  pub record Agrees (e : VehicleCommandValue T) (o : ObservedVehicleCommand T)
      (t : ComparisonTolerances T) : Type 0 where
    brake : close e.brake_ratio o.brake_ratio t.brake_ratio ≡ true
    speed : close e.speed_mps o.speed_mps t.speed_mps ≡ true
    steering : close e.steering_angle_rad o.steering_angle_rad t.steering_angle_rad ≡ true
    validity : close e.valid_for_s o.valid_for_s t.valid_for_s ≡ true
    same_source : eqb_ℤ e.source o.source ≡ true
    same_drive : eqb e.drive_enabled o.drive_enabled ≡ true
    same_stop : eqb e.emergency_stop o.emergency_stop ≡ true
    frame : str_eq o.frame_id t.expected_frame_id ≡ true
    stamp : leb_ℤ o.stamp_ns (pos 0) ≡ false

  matches_lem :
      (e : VehicleCommandValue T) (o : ObservedVehicleCommand T) (t : ComparisonTolerances T)
      → (compare_vehicle_commands e o t).matches ≡ (
          close e.brake_ratio o.brake_ratio t.brake_ratio
          && (close e.speed_mps o.speed_mps t.speed_mps
              && (close e.steering_angle_rad o.steering_angle_rad t.steering_angle_rad
                  && (close e.valid_for_s o.valid_for_s t.valid_for_s
                      && (eqb_ℤ e.source o.source
                          && (eqb e.drive_enabled o.drive_enabled
                              && (eqb e.emergency_stop o.emergency_stop
                                  && (str_eq o.frame_id t.expected_frame_id
                                      && not (leb_ℤ o.stamp_ns (pos 0))))))))))
  unfolding compare_vehicle_commands differences
  matches_lem e o t = simp (empties, is_empty-compare_scalar)

  -- A comparison matches exactly where the numbers are finite and within their tolerances, the
  -- source, the permission to drive and the emergency stop are the same, the frame is the expected
  -- one and the time is positive.
  pub matches_iff :
      (e : VehicleCommandValue T) (o : ObservedVehicleCommand T) (t : ComparisonTolerances T)
      → ((compare_vehicle_commands e o t).matches ≡ true) ↔ Agrees e o t
  matches_iff e o t = (
    λ h.
        let k = sym (matches_lem e o t) ∙ h in
        record {
          brake = ground (arith, k);
          speed = ground (arith, k);
          steering = ground (arith, k);
          validity = ground (arith, k);
          same_source = ground (arith, k);
          same_drive = ground (arith, k);
          same_stop = ground (arith, k);
          frame = ground (arith, k);
          stamp = ground (arith, k);
        },
    λ a.
        matches_lem e o t
        ∙ ground (
          arith, a.brake, a.speed, a.steering, a.validity, a.same_source, a.same_drive, a.same_stop,
          a.frame, a.stamp,
        ),
  )
