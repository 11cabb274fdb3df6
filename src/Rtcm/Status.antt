-- ===== src/Rtcm/Status.antt =====
-- The status policies of rtk_domain.py.
use salus_robot.Prelude.{
  ℕ, Bool, true, false, Option, none, some, ◌==◌, String, ◌||◌, not, if◌then◌else◌,
}
use salus_robot.Prelude.Int.{ℤ, pos, leb_ℤ, eqb_ℤ}
use salus_robot.Prelude.Result.{Result, ok, err}
use salus_robot.Float.{Float, nought}

pub data FixQuality : Type 0 where
  unknown no_fix autonomous dgps rtk_float rtk_fixed : FixQuality

pub data AcquisitionState : Type 0 where
  disabled disconnected connected_no_data receiving stale error : AcquisitionState

unfoldable pub map_receiver_fix_type : Option ℤ → FixQuality
map_receiver_fix_type none = unknown
map_receiver_fix_type (some n) =
    if leb_ℤ n (pos 1)
    then no_fix
    else if eqb_ℤ n (pos 2) || eqb_ℤ n (pos 3) || eqb_ℤ n (pos 7) || eqb_ℤ n (pos 8)
    then autonomous
    else if eqb_ℤ n (pos 4)
    then dgps
    else if eqb_ℤ n (pos 5)
    then rtk_float
    else if eqb_ℤ n (pos 6)
    then rtk_fixed
    else unknown

-- The four values that `detail` takes.
pub data Detail : Type 0 where
  legacy_source_error receiving_rtcm connected_without_fresh_rtcm disconnected : Detail

pub record LegacySourceStatus (T : Type 0) : Type 0 where
  pub sequence : ℕ
  pub source_id : String
  pub connected : Bool
  pub receiving : Bool
  pub correction_age_s : T
  pub received_count : ℕ
  pub crc_error_count : ℕ
  pub detail : Detail

abbrev is_error : Detail → Bool
is_error legacy_source_error = true
is_error _ = false

pub data ElapsedError : Type 0 where
  elapsed_negative_or_nonfinite : ElapsedError

module _ {T : Type 0} ⦃F : Float T⦄ where
  unfoldable pub acquisition_state : Option (LegacySourceStatus T) → T → AcquisitionState
  acquisition_state none stale_timeout = AcquisitionState.disconnected
  acquisition_state (some s) stale_timeout =
      if is_error s.detail
      then error
      else if not s.connected
      then AcquisitionState.disconnected
      else if s.received_count == 0
      then connected_no_data
      else if not (F.finite s.correction_age_s)
      then connected_no_data
      else if F.lt stale_timeout s.correction_age_s || not s.receiving
      then stale
      else AcquisitionState.receiving

  unfoldable pub age_source_status :
      Option (LegacySourceStatus T) → T → Result ElapsedError (Option (LegacySourceStatus T))
  age_source_status none elapsed = ok none
  age_source_status (some s) elapsed =
      if not (F.finite s.correction_age_s)
      then ok (some s)
      else if not (F.finite elapsed) || F.lt elapsed nought
      then err elapsed_negative_or_nonfinite
      else ok (some (record s { correction_age_s = F.add s.correction_age_s elapsed }))
