-- ===== src/Navigation/Recovery.antt =====
-- `BlockedRecoveryPolicy` and `profile_change_allowed` of route_recovery.py.
pub mod Budget
use text.Mathlib.Text.{starts_with}
use salus_robot.Prelude.{
  ℕ, suc, Bool, true, false, Option, none, some, List, [], ◌∷◌, String, str_eq, ltb, leb, ◌==◌, not,
  ◌||◌, ◌&&◌, if◌then◌else◌,
}
use salus_robot.Prelude.Result.{Result, ok, err}
use salus_robot.Prelude.Text.{is_in, split_once}
use salus_robot.Float
use salus_robot.Float.{Float, nought}

pub data RoutePhase : Type 0 where
  idle preparing active paused completed cancelled aborted : RoutePhase

pub data RecoveryState : Type 0 where
  clear pending waiting_data waiting_retry recovering needs_operator : RecoveryState

pub data RecoveryAction : Type 0 where
  no_action cancel_and_brake begin_retry resume : RecoveryAction

abbrev is_running : RoutePhase → Bool
is_running active = true
is_running paused = true
is_running _ = false

abbrev pub is_needs_operator : RecoveryState → Bool
is_needs_operator needs_operator = true
is_needs_operator _ = false

abbrev pub is_waiting_data : RecoveryState → Bool
is_waiting_data waiting_data = true
is_waiting_data _ = false

unfoldable pub profile_change_allowed : RoutePhase → RecoveryState → Bool
profile_change_allowed phase state = not (is_running phase) || is_needs_operator state

-- The fields that the policy reads; `path_state` and `progress_m` are carried and not read.
pub record RecoveryObservation (T : Type 0) : Type 0 where
  pub now_s : T
  pub path_state : ℕ
  pub path_reason : String
  pub path_wait_remaining_s : T
  pub nav_failure_code : String
  pub collision_stop : Bool
  pub tf_fresh : Bool
  pub costmap_fresh : Bool
  pub progress_m : Option T

pub record RecoveryDecision (T : Type 0) : Type 0 where
  pub state : RecoveryState
  pub action : RecoveryAction
  pub reason : String
  pub attempt : ℕ
  pub wait_remaining_s : T

pub record BlockedRecoveryPolicy (T : Type 0) : Type 0 where
  pub persistence_s : T
  pub retry_wait_s : T
  pub max_attempts : ℕ
  pub state : RecoveryState
  pub reason : String
  pub attempt : ℕ
  pub pending_since : Option T
  pub retry_at : Option T
  pub resume_state : RecoveryState
  pub maneuver_remaining_s : T

pub data RecoveryError : Type 0 where
  malformed_path_reason retry_not_active : RecoveryError

abbrev pub blocking_failure_codes : List String
blocking_failure_codes =
    "NO_VALID_PATH" ∷ "CONTROLLER_COLLISION" ∷ "COLLISION_STOP" ∷ "COLLISION_STOP_ACTIVE"
    ∷ "SMOOTHED_PATH_COLLISION" ∷ "RECOVERY_FAILED" ∷ "RECOVERY_OFF_GRID" ∷ "COSTMAP_CLEAR_TIMEOUT"
    ∷ "NAV_ABORTED" ∷ []

-- `_, phase, cause = path_reason.split(":", 2)`; `none` where it raises.
unfoldable pub maneuver_parts : String → Option (String × String)
maneuver_parts path_reason = elim (split_once b':' path_reason) [
  | none ↦ none
  | some (head, rest) ↦ split_once b':' rest
]

-- What a call returns: its decision and the policy that it leaves.
abbrev pub Answer : Type 0 → Type 0
Answer T = RecoveryDecision T × BlockedRecoveryPolicy T

-- The state that a wait for data goes back to.
abbrev resumed : RecoveryState → RecoveryState
resumed waiting_data = clear
resumed s = s

abbrev is_pending : RecoveryState → Bool
is_pending pending = true
is_pending _ = false

abbrev is_clear : RecoveryState → Bool
is_clear clear = true
is_clear _ = false

abbrev is_recovering : RecoveryState → Bool
is_recovering recovering = true
is_recovering _ = false

-- `reason or self.reason or "RETRY_REJECTED"`
abbrev first_of_three : String → String → String
first_of_three reason old =
    if not (str_eq reason "") then reason else if not (str_eq old "") then old else "RETRY_REJECTED"

module _ {T : Type 0} ⦃F : Float T⦄ where
  -- `self._pending_since if self._pending_since is not None else now`
  abbrev since : Option T → T → T
  since none now = now
  since (some t) now = t

  -- `self._retry_at is None or now < self._retry_at`
  abbrev too_early : Option T → T → Bool
  too_early none now = true
  too_early (some at) now = F.lt now at

  -- The constructor, which bounds its numbers below by 0; `none` stands for a negative count.
  unfoldable pub create : T → T → Option ℕ → BlockedRecoveryPolicy T
  create persistence wait attempts = record {
    persistence_s = Float.max nought persistence;
    retry_wait_s = Float.max nought wait;
    max_attempts = elim attempts [ none ↦ 0 | some n ↦ n ];
    state = clear;
    reason = "";
    attempt = 0;
    pending_since = none;
    retry_at = none;
    resume_state = clear;
    maneuver_remaining_s = nought;
  }

  unfoldable pub blocking_reason : RecoveryObservation T → String
  blocking_reason o =
      if is_in o.nav_failure_code blocking_failure_codes
      then o.nav_failure_code
      else if o.collision_stop
      then "COLLISION_STOP_ACTIVE"
      else ""

  -- `wait_remaining_s` of `_decision`.
  wait_in : RecoveryState → T → BlockedRecoveryPolicy T → T
  wait_in waiting_data now p =
      if is_in p.reason ("PLANNER_LOOP" ∷ "PLANNER_U_TURN" ∷ "MANEUVER_GEOMETRY_INVALID" ∷ [])
      then p.maneuver_remaining_s
      else nought
  wait_in waiting_retry now p = elim p.retry_at [
    | none ↦ nought
    | some at ↦ Float.max nought (F.sub at now)
  ]
  wait_in _ now p = nought

  unfoldable pub decision : BlockedRecoveryPolicy T → T → RecoveryAction → RecoveryDecision T
  unfolding wait_in
  decision p now action = record {
    state = p.state;
    action = action;
    reason = p.reason;
    attempt = p.attempt;
    wait_remaining_s = wait_in p.state now p;
  }

  unfoldable pub reset : BlockedRecoveryPolicy T → BlockedRecoveryPolicy T
  reset p = record p {
    state = clear;
    reason = "";
    attempt = 0;
    pending_since = none;
    retry_at = none;
    resume_state = clear;
    maneuver_remaining_s = nought;
  }

  -- A call returns its decision about the state that it leaves.
  unfoldable pub answer : T → RecoveryAction → BlockedRecoveryPolicy T → Answer T
  unfolding decision
  answer now action p = (decision p now action, p)

  -- The end of `observe`: nothing waits or is under way.
  unfoldable pub classify : RecoveryObservation T → BlockedRecoveryPolicy T → Answer T
  unfolding answer blocking_reason
  classify o p =
      let now = o.now_s in
      let reason = blocking_reason o in
      if str_eq reason ""
      then answer now no_action (record p { state = clear; reason = ""; pending_since = none })
      else if not (is_pending p.state) || not (str_eq p.reason reason)
      then answer now no_action
          (record p { state = pending; reason = reason; pending_since = some now })
      else if F.lt (F.sub now (since p.pending_since now)) p.persistence_s
      then answer now no_action p
      else if p.max_attempts == 0
      then answer now cancel_and_brake (record p { state = needs_operator })
      else answer now cancel_and_brake
          (record p { state = waiting_retry; retry_at = some (F.add now p.retry_wait_s) })

  -- `observe` while a retry is waited for.
  unfoldable pub retry : T → BlockedRecoveryPolicy T → Answer T
  unfolding answer
  retry now p =
      if too_early p.retry_at now
      then answer now no_action p
      else if leb p.max_attempts p.attempt
      then answer now no_action (record p { state = needs_operator })
      else answer now begin_retry (record p { attempt = suc p.attempt; state = recovering })

  -- `observe` once the data are fresh and a wait for data is over.
  unfoldable pub continue_in :
      RecoveryState → RecoveryObservation T → BlockedRecoveryPolicy T → Answer T
  unfolding classify retry
  continue_in needs_operator o p = answer o.now_s no_action p
  continue_in recovering o p = answer o.now_s no_action p
  continue_in waiting_retry o p = retry o.now_s p
  continue_in _ o p = classify o p

  unfoldable pub with_fresh_data : RecoveryObservation T → BlockedRecoveryPolicy T → Answer T
  with_fresh_data o p =
      if is_waiting_data p.state
      then (let q = record p { state = resumed p.resume_state } in
          if is_clear q.state
          then answer o.now_s resume (record q { reason = "" })
          else continue_in q.state o q)
      else continue_in p.state o p

  unfoldable pub with_stale_data : RecoveryObservation T → BlockedRecoveryPolicy T → Answer T
  unfolding answer
  with_stale_data o p = answer o.now_s no_action (record p {
    state = waiting_data;
    reason = if o.tf_fresh then "COSTMAP_STALE" else "TF_STALE";
    resume_state = if is_waiting_data p.state then p.resume_state else p.state;
  })

  unfoldable pub with_maneuver :
      RecoveryObservation T → String × String → BlockedRecoveryPolicy T → Answer T
  unfolding answer
  with_maneuver o (phase, cause) p =
      let q = record p { reason = cause; maneuver_remaining_s = o.path_wait_remaining_s } in
      if str_eq phase "NEEDS_OPERATOR"
      then answer o.now_s cancel_and_brake (record q { state = needs_operator })
      else answer o.now_s no_action (record q { state = waiting_data; resume_state = clear })

  unfoldable pub observe :
      RecoveryObservation T → BlockedRecoveryPolicy T → Result RecoveryError (Answer T)
  observe o p =
      if is_needs_operator p.state
      then ok (answer o.now_s no_action p)
      else if starts_with o.path_reason "maneuver:"
      then elim (maneuver_parts o.path_reason) [
        | none ↦ err malformed_path_reason
        | some parts ↦ ok (with_maneuver o parts p)
      ]
      else if not o.tf_fresh || not o.costmap_fresh
      then ok (with_stale_data o p)
      else ok (with_fresh_data o p)

  unfoldable pub finish_retry :
      T → Bool → String → BlockedRecoveryPolicy T → Result RecoveryError (Answer T)
  unfolding answer
  finish_retry now accepted reason p =
      if not (is_recovering p.state)
      then err retry_not_active
      else if accepted
      then ok (answer now resume (record p { state = clear; reason = ""; retry_at = none }))
      else (let q = record p { reason = first_of_three reason p.reason } in
          ok (
            answer now cancel_and_brake (
              if leb p.max_attempts p.attempt
              then record q { state = needs_operator }
              else record q { state = waiting_retry; retry_at = some (F.add now p.retry_wait_s) })))

  unfoldable pub snapshot : T → BlockedRecoveryPolicy T → RecoveryDecision T
  unfolding decision
  snapshot now p = decision p now no_action
