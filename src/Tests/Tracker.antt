-- ===== src/Tests/Tracker.antt =====
-- Witnesses and runs for the checkpoint tracker.
use salus_robot.Prelude.{◌≡◌, refl, none, List, [], ◌∷◌, take}
use salus_robot.Prelude.Int.{ℤ, pos}
use salus_robot.Navigation.Tracker.{
  CheckpointOccurrence, PoseSample, IntermediateCheckpointTracker, create,
}
use salus_robot.Navigation.Tracker.Ordered.{observe_all, reached_in_order}
use salus_robot.Tests.Values.{whole}

abbrev points : List (CheckpointOccurrence ℤ)
points =
    record { input_index = pos 4; loop_iteration = pos 0; x = pos 5; y = pos 0 }
    ∷ record { input_index = pos 5; loop_iteration = pos 0; x = pos 9; y = pos 0 }
    ∷ []

abbrev fresh : IntermediateCheckpointTracker ℤ
fresh = record {
  occurrences = points;
  radius_m = pos 2;
  max_age_s = pos 1;
  future_tolerance_s = pos 0;
  next = 0;
  last_source_stamp_s = none;
  minimum_distances = pos 1000000 ∷ pos 1000000 ∷ [];
}

abbrev samples : List (PoseSample ℤ × ℤ × ℤ)
samples =
    (
      record { x = pos 4; y = pos 0; source_stamp_s = pos 1; received_steady_s = pos 1 },
      pos 1,
      pos 2,
    )
    ∷ []

reached_in_order_example :
    let (reached, u) = observe_all samples fresh in reached ≡ take u.next points
unfolding create
reached_in_order_example = reached_in_order points (pos 2) (pos 1) (pos 0) samples {t = fresh} refl
