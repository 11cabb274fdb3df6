-- ===== src/Tests/Planner.antt =====
-- Witnesses for the evidence of the planner.
use salus_robot.Prelude.{◌≡◌, refl, ◌↔◌, true, String, List, [], ◌∷◌}
use salus_robot.Prelude.Int.{ℤ, pos}
use salus_robot.Navigation.Planner.{
  aborted_for_no_path, begin_goal, observe_log, reports_failure, last_part, contains, new,
  recent_failure, is_recent,
}
use salus_robot.Navigation.Planner.Evidence.{Call, begin, log, run, NoPath, aborted_iff}
use salus_robot.Tests.Values.{whole}

abbrev lower : String → String
lower s = s

-- The planner fails for the first goal, and again for the second one; the latest call comes first.
abbrev calls : List (Call ℤ)
calls =
    log "/controller_server" "failed to create plan" (pos 16)
    ∷ log "/nav/planner_server" "GridBased: failed to create plan" (pos 14)
    ∷ begin (pos 2)
    ∷ log "planner_server" "failed to create plan" (pos 5)
    ∷ begin (pos 1)
    ∷ []

no_path_found : aborted_for_no_path (pos 2) (pos 20) (run lower calls) ≡ true
unfolding aborted_for_no_path run begin_goal observe_log reports_failure last_part contains new
    recent_failure is_recent
no_path_found = refl

aborted_iff_example :
    (aborted_for_no_path (pos 2) (pos 20) (run lower calls) ≡ true) ↔ NoPath lower 2 (pos 20) calls
aborted_iff_example = aborted_iff lower 2 (pos 20) calls
