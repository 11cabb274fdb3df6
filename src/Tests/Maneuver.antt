-- ===== src/Tests/Maneuver.antt =====
-- Witnesses for the wait for another plan, and for the inputs that may end a patrol.
use salus_robot.Prelude.{ℕ, ◌+◌, ◌≡◌, ◌⊎◌, refl, Bool, true, false, some, none, List, [], ◌∷◌, ◌++◌}
use salus_robot.Prelude.Int.{ℤ, pos}
use salus_robot.Prelude.Text.{is_in}
use salus_robot.Navigation.Maneuver.{
  ManeuverWait, ManeuverObservation, guard_reason, snapshot, GuardState,
}
use salus_robot.Navigation.Maneuver
use salus_robot.Navigation.Maneuver.Wait.{run, Kept, Adopts, Approved, released_by_adoption}
use salus_robot.Navigation.Maneuver.Escalation.{Escalates, expired-Escalates}
use salus_robot.Navigation.Recovery.{BlockedRecoveryPolicy, RecoveryObservation, RecoveryState}
use salus_robot.Navigation.BatteryInput.{
  PatrolBatteryInputPolicy, GuardInput, Call, guards, charges, evaluates, begins, evaluate,
  guard_valid,
}
use salus_robot.Navigation.BatteryInput.Precedence.{NoFallbacks, guard_precedence}
use salus_robot.Navigation.BatteryInput.Latch.{requests, after, as_number, latched_once}
use salus_robot.Tests.Values.{whole, numbered}

abbrev wait : ManeuverWait ℤ ℕ
wait = record {
  wait_s = pos 15;
  deadline = some (pos 25);
  cause = "PLANNER_LOOP";
  approved = none;
  terminal = false;
}

abbrev seen : ℕ → Bool → ManeuverObservation ℤ ℕ
seen now is_candidate = record {
  now_s = pos now;
  reason = "";
  key = some 7;
  candidate = is_candidate;
  valid = true;
}

-- A path is approved and taken over in time.
abbrev adoption : List (ManeuverObservation ℤ ℕ)
adoption = seen 12 true ∷ seen 13 false ∷ []

released_by_adoption_example :
    Kept (pos 25) wait (run adoption wait)
    ⊎ ((before after : List (ManeuverObservation ℤ ℕ)) × (o : ManeuverObservation ℤ ℕ) × (adoption
          ≡ before ++ o ∷ after)
        × Kept (pos 25) wait (run before wait)
        × Adopts (pos 25) o (run before wait)
        × Approved before o.key)
released_by_adoption_example = released_by_adoption (pos 25) adoption wait refl refl

abbrev recovery : BlockedRecoveryPolicy ℤ
recovery = record {
  persistence_s = pos 2;
  retry_wait_s = pos 3;
  max_attempts = 2;
  state = RecoveryState.clear;
  attempt = 0;
  reason = "";
  pending_since = none;
  retry_at = none;
  resume_state = RecoveryState.clear;
  maneuver_remaining_s = pos 0;
}

abbrev reported : RecoveryObservation ℤ
reported = record {
  now_s = pos 31;
  path_state = 2;
  path_reason =
      guard_reason (snapshot (pos 31) (run adoption (Maneuver.observe (seen 30 false) wait).1)).0;
  path_wait_remaining_s = pos 0;
  nav_failure_code = "";
  collision_stop = false;
  tf_fresh = true;
  costmap_fresh = true;
  progress_m = none;
}

expired-Escalates_example : Escalates recovery reported
expired-Escalates_example =
    expired-Escalates (pos 25) (pos 31) (seen 30 false) adoption wait recovery reported refl refl
      refl

abbrev low_guard : GuardInput ℤ
low_guard = record {
  ready = true;
  fresh = true;
  state = "OK";
  recommended = true;
  received_s = pos 10;
}

abbrev inputs : PatrolBatteryInputPolicy ℤ
inputs = record {
  guard_timeout_s = pos 3;
  threshold_pct = pos 25;
  valid_guard_seen = false;
  guard = some low_guard;
  soc = none;
  return_latched = false;
}

-- The guard is lost, and the charge is low in this mission and in the next.
abbrev lost : List (Call ℤ)
lost = charges true (pos 9) (pos 20) ∷ begins ∷ charges true (pos 9) (pos 21) ∷ []

guard_precedence_example : NoFallbacks (λ s. s) lost (evaluate (pos 11) inputs).1
unfolding guard_valid is_in
guard_precedence_example = guard_precedence (λ s. s) (pos 11) inputs lost refl

abbrev mission_calls : List (Call ℤ)
mission_calls = evaluates (pos 11) ∷ guards low_guard (pos 12) ∷ charges true (pos 9) (pos 20) ∷ []

latched_once_example :
    requests (λ s. s) mission_calls inputs + as_number false
    ≡ as_number (after (λ s. s) mission_calls inputs).return_latched
latched_once_example = latched_once (λ s. s) mission_calls inputs (refl, (refl, (refl, tt)))
