-- ===== src/Navigation/Startup.antt =====
-- startup_readiness.py: the prerequisites of Nav2 and the startup state machine.
pub mod Once
use salus_robot.Prelude.{Bool, true, false, List, [], ◌∷◌, String, str_eq, not, ◌||◌, if◌then◌else◌}

pub data StartupState : Type 0 where
  waiting_inputs starting active failed : StartupState

pub record ReadinessSnapshot : Type 0 where
  pub clock_progressive : Bool
  pub odometry_progressive : Bool
  pub odometry_finite : Bool
  pub transform_available : Bool
  pub transform_fresh : Bool
  pub scan_valid : Bool
  pub scan_fresh : Bool
  pub obstacle_detection_required : Bool
  pub keepout_required : Bool
  pub keepout_ready : Bool
  pub lifecycle_manager_ready : Bool
  pub clock_required : Bool

-- `tuple(reason for ready, reason in checks if not ready)`
abbrev missing : List (Bool × String) → List String
missing [] = []
missing ((ready, reason) ∷ checks) =
    let rest = missing checks in if ready then rest else reason ∷ rest

unfoldable pub missing_requirements : ReadinessSnapshot → List String
missing_requirements s = missing (
    (not s.clock_required || s.clock_progressive, "CLOCK_NOT_PROGRESSIVE")
    ∷ (s.odometry_progressive, "ODOMETRY_NOT_PROGRESSIVE")
    ∷ (s.odometry_finite, "ODOMETRY_INVALID")
    ∷ (s.transform_available, "TF_UNAVAILABLE")
    ∷ (s.transform_fresh, "TF_STALE")
    ∷ (not s.obstacle_detection_required || s.scan_valid, "SCAN_INVALID")
    ∷ (not s.obstacle_detection_required || s.scan_fresh, "SCAN_STALE")
    ∷ (not s.keepout_required || s.keepout_ready, "KEEPOUT_NOT_READY")
    ∷ (s.lifecycle_manager_ready, "LIFECYCLE_MANAGER_UNAVAILABLE")
    ∷ [])

pub record StartupPolicy : Type 0 where
  pub state : StartupState
  pub reason : String

abbrev pub new : StartupPolicy
new = record { state = waiting_inputs; reason = "WAITING_FOR_INPUTS" }

-- `observe` in the state that waits for inputs.
observe_missing : List String → StartupPolicy → Bool × StartupPolicy
observe_missing [] p = (true, record { state = starting; reason = "LIFECYCLE_START_REQUESTED" })
observe_missing (reason ∷ more) p = (false, record p { reason = reason })

observe_in : StartupState → ReadinessSnapshot → StartupPolicy → Bool × StartupPolicy
unfolding observe_missing
observe_in waiting_inputs s p = observe_missing (missing_requirements s) p
observe_in _ s p = (false, p)

unfoldable pub observe : ReadinessSnapshot → StartupPolicy → Bool × StartupPolicy
unfolding observe_in
observe s p = observe_in p.state s p

succeeded_in : StartupState → StartupPolicy → StartupPolicy
succeeded_in starting p = record { state = active; reason = "ALL_NAV2_NODES_ACTIVE" }
succeeded_in _ p = p

unfoldable pub activation_succeeded : StartupPolicy → StartupPolicy
unfolding succeeded_in
activation_succeeded p = succeeded_in p.state p

failed_in : StartupState → String → StartupPolicy → StartupPolicy
failed_in active reason p = p
failed_in _ reason p = record {
  state = failed;
  reason = if str_eq reason "" then "LIFECYCLE_START_FAILED" else reason;
}

unfoldable pub activation_failed : String → StartupPolicy → StartupPolicy
unfolding failed_in
activation_failed reason p = failed_in p.state reason p
