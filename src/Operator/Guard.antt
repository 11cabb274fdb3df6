-- ===== src/Operator/Guard.antt =====
-- `OperatorControlGuard` of operator_guard.py. `clock k` is the k-th reading of the injected clock,
-- and the guard keeps the number of readings made.
pub mod Facts
use salus_robot.Prelude.{
  ℕ, suc, Bool, true, false, Option, none, some, String, ◌||◌, ◌&&◌, not, if◌then◌else◌,
}
use salus_robot.Prelude.Result.{Result, ok, err}
use salus_robot.Float
use salus_robot.Float.{Float, nought}
use salus_robot.Operator.Request.{OperatorRequest, is_controlled_operation}

pub record OperatorLockState (T : Type 0) : Type 0 where
  pub locked : Bool
  pub reason : String
  pub heartbeat_age_s : Option T

pub record GuardDecision (T : Type 0) : Type 0 where
  pub allowed : Bool
  pub state : OperatorLockState T
  pub error_code : Option String

pub record OperatorControlGuard (T : Type 0) : Type 0 where
  pub enabled : Bool
  pub timeout_s : T
  pub locked : Bool
  pub reason : String
  pub last_heartbeat : Option T
  pub readings : ℕ

pub data ConfigError : Type 0 where
  heartbeat_timeout_not_positive : ConfigError

module _ {T : Type 0} ⦃F : Float T⦄ (clock : ℕ → T) where
  -- The constructor: an unlocked guard reads the clock once.
  unfoldable pub create : Bool → T → Bool → Result ConfigError (OperatorControlGuard T)
  create enabled timeout initially_locked =
      let locked = if enabled then initially_locked else false in
      if F.le timeout nought
      then err heartbeat_timeout_not_positive
      else ok (record {
        enabled = enabled;
        timeout_s = timeout;
        locked = locked;
        reason = if locked then "STARTUP_LOCKED" else "";
        last_heartbeat = if locked then none else some (clock 0);
        readings = if locked then 0 else 1;
      })

  -- `_expire_if_needed`, where a heartbeat is on record and the guard is enabled and not locked.
  expire_at : T → OperatorControlGuard T → OperatorControlGuard T
  expire_at last g =
      if F.lt g.timeout_s (F.sub (clock g.readings) last)
      then record g {
        locked = true;
        reason = "UI_HEARTBEAT_TIMEOUT";
        last_heartbeat = none;
        readings = suc g.readings;
      }
      else record g { readings = suc g.readings }

  unfoldable pub expire_if_needed : OperatorControlGuard T → OperatorControlGuard T
  unfolding expire_at
  expire_if_needed g =
      if not g.enabled || g.locked
      then g
      else elim g.last_heartbeat [ none ↦ g | some last ↦ expire_at last g ]

  -- What `state` reports once the guard has expired if it must.
  report : OperatorControlGuard T → OperatorLockState T × OperatorControlGuard T
  report g =
      if not g.enabled
      then (record { locked = false; reason = ""; heartbeat_age_s = none }, g)
      else elim g.last_heartbeat [
        | none ↦ (record { locked = g.locked; reason = g.reason; heartbeat_age_s = none }, g)
        | some last ↦ (
          record {
            locked = g.locked;
            reason = g.reason;
            heartbeat_age_s = some (Float.max nought (F.sub (clock g.readings) last));
          },
          record g { readings = suc g.readings },
        )
      ]

  unfoldable pub state : OperatorControlGuard T → OperatorLockState T × OperatorControlGuard T
  unfolding report expire_if_needed
  state g = report (expire_if_needed g)

  unfoldable pub force_locked :
      String → OperatorControlGuard T → OperatorLockState T × OperatorControlGuard T
  unfolding state
  force_locked reason g =
      if not g.enabled
      then state g
      else state (record g { locked = true; reason = reason; last_heartbeat = none })

  unfoldable pub set_locked :
      Bool → OperatorControlGuard T → OperatorLockState T × OperatorControlGuard T
  unfolding state
  set_locked locked g =
      if not g.enabled
      then state g
      else state (record g {
        locked = locked;
        reason = if locked then "UI_LOCK_REQUEST" else "";
        last_heartbeat = if locked then none else some (clock g.readings);
        readings = if locked then g.readings else suc g.readings;
      })

  unfoldable pub heartbeat : OperatorControlGuard T → OperatorLockState T × OperatorControlGuard T
  unfolding state expire_if_needed
  heartbeat g =
      let e = expire_if_needed g in
      if e.enabled && not e.locked
      then state (record e { last_heartbeat = some (clock e.readings); readings = suc e.readings })
      else state e

  unfoldable pub authorize :
      OperatorRequest T → OperatorControlGuard T → GuardDecision T × OperatorControlGuard T
  unfolding state
  authorize request g =
      let (st, g') = state g in
      if st.locked && is_controlled_operation request
      then (record { allowed = false; state = st; error_code = some "CONTROL_LOCKED" }, g')
      else (record { allowed = true; state = st; error_code = none }, g')
