-- ===== src/Tests/Navigation.antt =====
-- Witnesses and runs for the policies of the navigation.
use salus_robot.Prelude.{ℕ, ◌≤◌, ◌≡◌, true, false, none, some, List, [], ◌∷◌}
use salus_robot.Prelude.Int.{ℤ, pos}
use salus_robot.Navigation.Recovery.{
  RecoveryObservation, BlockedRecoveryPolicy, clear, waiting_retry, create,
}
use salus_robot.Navigation.Recovery.Budget.{Event, observed, finished, retries, retries_bounded}
use salus_robot.Tests.Values.{whole}

abbrev blocked : ℕ → RecoveryObservation ℤ
blocked now = record {
  now_s = pos now;
  path_state = 2;
  path_reason = "";
  path_wait_remaining_s = pos 0;
  nav_failure_code = "NO_VALID_PATH";
  collision_stop = false;
  tf_fresh = true;
  costmap_fresh = true;
  progress_m = none;
}

abbrev waiting : BlockedRecoveryPolicy ℤ
waiting = record {
  persistence_s = pos 2;
  retry_wait_s = pos 5;
  max_attempts = 2;
  state = waiting_retry;
  reason = "NO_VALID_PATH";
  attempt = 1;
  pending_since = some (pos 1);
  retry_at = some (pos 9);
  resume_state = clear;
  maneuver_remaining_s = pos 0;
}

abbrev events : List (Event ℤ)
events =
    observed (blocked 0)
    ∷ observed (blocked 3)
    ∷ observed (blocked 9)
    ∷ finished (pos 10) false ""
    ∷ observed (blocked 16)
    ∷ []

retries_bounded_example :
    let p = create (pos 2) (pos 5) (some 1) in
    ((retries events p).0 ≡ (retries events p).1.attempt) × ((retries events p).0 ≤ p.max_attempts)
retries_bounded_example = retries_bounded (pos 2) (pos 5) (some 1) events
