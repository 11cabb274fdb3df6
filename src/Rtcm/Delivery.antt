-- ===== src/Rtcm/Delivery.antt =====
-- `sequence_transition` and `evaluate_rtcm_delivery` of rtk_domain.py.
pub mod Order
use salus_robot.Prelude.{
  ℕ, Bool, true, false, Option, none, some, List, String, ltb, not, length, if◌then◌else◌,
}
use salus_robot.Prelude.Int.{ℤ, pos, ltb_ℤ, eqb_ℤ}
use salus_robot.Prelude.Text.{is_blank, eq_some}
use salus_robot.Rtcm.Frame.{Verdict, is_accepted, validate_rtcm3_frame}

pub data Transition : Type 0 where
  invalid first advanced duplicate reset : Transition

unfoldable pub sequence_transition : Option ℤ → ℤ → Transition
sequence_transition none current = if ltb_ℤ current (pos 0) then invalid else first
sequence_transition (some previous) current =
    if ltb_ℤ current (pos 0)
    then invalid
    else if ltb_ℤ previous current
    then advanced
    else if eqb_ℤ current previous
    then duplicate
    else reset

-- The reason of a decision: that of the frame, or one of the delivery's own.
pub data Reason : Type 0 where
  frame : Verdict → Reason
  mavros_payload_too_large missing_source_id : Reason
  sequence_is : Transition → Reason

pub record RtcmDeliveryDecision : Type 0 where
  pub accepted : Bool
  pub reason : Reason
  pub source_id : Option String
  pub sequence : Option ℤ

abbrev decision : Bool → Reason → Option String → Option ℤ → RtcmDeliveryDecision
decision a r s n = record { accepted = a; reason = r; source_id = s; sequence = n }

-- The last part, once the transition is known.
decide_transition : Transition → String → ℤ → Option ℤ → RtcmDeliveryDecision
decide_transition first id n previous = decision true (frame Verdict.accepted) (some id) (some n)
decide_transition advanced id n previous = decision true (frame Verdict.accepted) (some id) (some n)
decide_transition reset id n previous = decision false (sequence_is reset) (some id) (some n)
decide_transition other id n previous = decision false (sequence_is other) (some id) previous

unfoldable pub evaluate_rtcm_delivery :
    List ℕ → String → ℤ → Option String → Option ℤ → RtcmDeliveryDecision
unfolding decide_transition sequence_transition
evaluate_rtcm_delivery data' id n previous_id previous =
    let verdict = validate_rtcm3_frame data' in
    if not (is_accepted verdict)
    then decision false (frame verdict) previous_id previous
    else if ltb 720 (length data')
    then decision false mavros_payload_too_large previous_id previous
    else if is_blank id
    then decision false missing_source_id previous_id previous
    else (let known = if eq_some id previous_id then previous else none in
        decide_transition (sequence_transition known n) id n known)
