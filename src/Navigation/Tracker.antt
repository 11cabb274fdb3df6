-- ===== src/Navigation/Tracker.antt =====
-- route_checkpoint_tracker.py: the evidence for the checkpoints inside a chunk of a route.
pub mod Ordered
use salus_robot.Prelude.{
  ℕ, suc, Bool, true, false, Option, none, some, List, [], ◌∷◌, not, ◌||◌, ◌&&◌, ◌==◌, length, take,
  drop, get_elem?, get_or, set, all, map, if◌then◌else◌,
}
use salus_robot.Prelude.Int.{ℤ}
use salus_robot.Prelude.Result.{Result, ok, err}
use salus_robot.Float
use salus_robot.Float.{Float, nought}

pub record CheckpointOccurrence (T : Type 0) : Type 0 where
  pub input_index : ℤ
  pub loop_iteration : ℤ
  pub x : T
  pub y : T

pub record PoseSample (T : Type 0) : Type 0 where
  pub x : T
  pub y : T
  pub source_stamp_s : T
  pub received_steady_s : T

pub data EvidenceReason : Type 0 where
  invalid_pose_sample non_positive_source_stamp non_monotonic_source_stamp : EvidenceReason
  future_or_clock_regression stale_pose no_pending_checkpoint outside_radius : EvidenceReason
  fresh_odometry_radius : EvidenceReason

pub record CheckpointEvidence (T : Type 0) : Type 0 where
  pub accepted : Bool
  pub reason : EvidenceReason
  pub occurrence : Option (CheckpointOccurrence T)
  pub distance_m : Option T

pub record IntermediateCheckpointTracker (T : Type 0) : Type 0 where
  pub occurrences : List (CheckpointOccurrence T)
  pub radius_m : T
  pub max_age_s : T
  pub future_tolerance_s : T
  pub next : ℕ
  pub last_source_stamp_s : Option T
  pub minimum_distances : List T

pub data TrackerError : Type 0 where
  bad_radius bad_max_age bad_future_tolerance bad_coordinates : TrackerError

module _ {T : Type 0} ⦃F : Float T⦄ where
  unfoldable pub create :
      List (CheckpointOccurrence T)
      → T
      → T
      → T
      → Result TrackerError (IntermediateCheckpointTracker T)
  create occurrences radius age future =
      if not (F.finite radius) || F.le radius nought
      then err bad_radius
      else if not (F.finite age) || not (F.lt nought age && F.le age (F.decimal 2 0))
      then err bad_max_age
      else if not (F.finite future) || F.lt future nought
      then err bad_future_tolerance
      else if not (all (λ o. F.finite o.x && F.finite o.y) occurrences)
      then err bad_coordinates
      else ok (record {
        occurrences = occurrences;
        radius_m = radius;
        max_age_s = age;
        future_tolerance_s = future;
        next = 0;
        last_source_stamp_s = none;
        minimum_distances = map (λ o. F.infinity) occurrences;
      })

  unfoldable pub complete : IntermediateCheckpointTracker T → Bool
  complete t = t.next == length t.occurrences

  unfoldable pub acknowledged : IntermediateCheckpointTracker T → List (CheckpointOccurrence T)
  acknowledged t = take t.next t.occurrences

  unfoldable pub pending : IntermediateCheckpointTracker T → List (CheckpointOccurrence T)
  pending t = drop t.next t.occurrences

  -- A refusal with no distance.
  abbrev refuse : EvidenceReason → CheckpointEvidence T
  refuse reason = record { accepted = false; reason = reason; occurrence = none; distance_m = none }

  -- `last is not None and stamp <= last`
  abbrev not_after : Option T → T → Bool
  not_after none stamp = false
  not_after (some last) stamp = F.le stamp last

  -- The checks of the sample, in order; `none` where it passes.
  unfoldable pub sample_error :
      PoseSample T → T → T → IntermediateCheckpointTracker T → Option EvidenceReason
  sample_error s ros steady t =
      let values = s.x ∷ s.y ∷ s.source_stamp_s ∷ s.received_steady_s ∷ ros ∷ steady ∷ [] in
      let ros_age = F.sub ros s.source_stamp_s in
      let steady_age = F.sub steady s.received_steady_s in
      if not (all F.finite values)
      then some invalid_pose_sample
      else if F.le s.source_stamp_s nought
      then some non_positive_source_stamp
      else if not_after t.last_source_stamp_s s.source_stamp_s
      then some non_monotonic_source_stamp
      else if F.lt ros_age (F.neg t.future_tolerance_s) || F.lt steady_age nought
      then some future_or_clock_regression
      else if F.lt t.max_age_s ros_age || F.lt t.max_age_s steady_age
      then some stale_pose
      else none

  -- The sample against the next checkpoint, if there is one.
  unfoldable pub against :
      Option (CheckpointOccurrence T)
      → PoseSample T
      → IntermediateCheckpointTracker T
      → CheckpointEvidence T × IntermediateCheckpointTracker T
  against none s t = (refuse no_pending_checkpoint, t)
  against (some o) s t =
      let d = F.hypot (F.sub s.x o.x) (F.sub s.y o.y) in
      let least = Float.min (get_or t.minimum_distances t.next F.infinity) d in
      let u = record t { minimum_distances = set t.minimum_distances t.next least } in
      if F.lt t.radius_m d
      then (
        record {
          accepted = false;
          reason = outside_radius;
          occurrence = none;
          distance_m = some d;
        },
        u,
      )
      else (
        record {
          accepted = true;
          reason = fresh_odometry_radius;
          occurrence = some o;
          distance_m = some d;
        },
        record u { next = suc t.next },
      )

  unfoldable pub observe :
      PoseSample T
      → T
      → T
      → IntermediateCheckpointTracker T
      → CheckpointEvidence T × IntermediateCheckpointTracker T
  observe s ros steady t = elim (sample_error s ros steady t) [
    | some reason ↦ (refuse reason, t)
    | none ↦
        against (get_elem? t.occurrences t.next) s
          (record t { last_source_stamp_s = some s.source_stamp_s })
  ]
