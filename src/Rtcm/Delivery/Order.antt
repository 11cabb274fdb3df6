-- ===== src/Rtcm/Delivery/Order.antt =====
-- Which deliveries `evaluate_rtcm_delivery` accepts.
use salus_robot.Prelude.{
  ℕ, ◌≤◌, ◌≡◌, ◌↔◌, refl, Bool, true, false, Option, some, List, String, length, arith,
}
use text.Mathlib.TextPositions.{eq_refl}
use salus_robot.Prelude.Int.{ℤ, pos, ltb_ℤ}
use salus_robot.Prelude.Text.{is_blank, eq_some}
use salus_robot.Rtcm.Frame.{Verdict, is_accepted, validate_rtcm3_frame}
use salus_robot.Rtcm.Delivery.{duplicate, sequence_is, evaluate_rtcm_delivery}

-- The number follows what was recorded of the same source, if anything was.
abbrev pub Follows : Bool → Option ℤ → ℤ → Type 0
Follows true (some previous) n = ltb_ℤ previous n ≡ true
Follows _ _ n = Unit

abbrev pub Deliverable : List ℕ → String → ℤ → Option String → Option ℤ → Type 0
Deliverable data' id n previous_id previous =
    (validate_rtcm3_frame data' ≡ Verdict.accepted)
    × (length data' ≤ 720)
    × (is_blank id ≡ false)
    × (ltb_ℤ n (pos 0) ≡ false)
    × Follows (eq_some id previous_id) previous n

is_accepted_iff : (v : Verdict) → is_accepted v ≡ true → v ≡ Verdict.accepted
is_accepted_iff Verdict.accepted h = refl
is_accepted_iff v h = cc

-- A delivery is accepted exactly when its frame is valid and fits, it names its source, its number
-- is not negative, and the number is above the one recorded of the same source.
pub evaluate_accepts_iff :
    (data' : List ℕ) (id : String) (n : ℤ) (previous_id : Option String) (previous : Option ℤ)
    → ((evaluate_rtcm_delivery data' id n previous_id previous).accepted ≡ true)
      ↔ Deliverable data' id n previous_id previous
unfolding evaluate_rtcm_delivery
evaluate_accepts_iff data' id n previous_id previous =
    (ground (arith, is_accepted_iff (validate_rtcm3_frame data')), ground arith)

-- A second delivery of what was just accepted, with what the first decision recorded, is refused
-- as a duplicate and leaves the record as it is.
pub evaluate_replay :
    (data' : List ℕ) (id : String) (n : ℤ) (previous_id : Option String) (previous : Option ℤ)
    → let d = evaluate_rtcm_delivery data' id n previous_id previous in
      d.accepted ≡ true
      → evaluate_rtcm_delivery data' id n d.source_id d.sequence ≡ record {
        accepted = false;
        reason = sequence_is duplicate;
        source_id = some id;
        sequence = some n;
      }
unfolding evaluate_rtcm_delivery
evaluate_replay data' id n previous_id previous h = ground (arith, eq_refl id)
