-- ===== src/Operator/Guard/Facts.antt =====
-- The invariant of the guard, and what its calls do to it.
use salus_robot.Prelude.{ℕ, ◌≡◌, ◌⊎◌, Bool, true, false, Option, none, some, String, arith, ◌||◌}
use salus_robot.Prelude.Result.{ok}
use salus_robot.Float.{Float}
use salus_robot.Operator.Request.{OperatorRequest}
use salus_robot.Operator.Guard.{
  OperatorControlGuard, create, state, force_locked, set_locked, heartbeat, authorize,
}

abbrev pub has_beat : {T : Type 0} → Option T → Bool
has_beat none = false
has_beat (some last) = true

-- A disabled guard is never locked, a locked one has no heartbeat on record, and one that is
-- enabled and not locked has one.
pub record IsSound {T : Type 0} (g : OperatorControlGuard T) : Type 0 where
  pub disabled_open : g.enabled ≡ false → g.locked ≡ false
  pub locked_quiet : g.locked ≡ true → g.last_heartbeat ≡ none
  pub open_beats : g.enabled ≡ true → g.locked ≡ false → has_beat g.last_heartbeat ≡ true

-- The heartbeat on record is too old at a reading of the clock.
abbrev pub is_late : {T : Type 0} ⦃F : Float T⦄ → (ℕ → T) → OperatorControlGuard T → Bool
is_late ⦃F⦄ clock g = elim g.last_heartbeat [
  | none ↦ false
  | some last ↦ F.lt g.timeout_s (F.sub (clock g.readings) last)
]

module _ {T : Type 0} ⦃F : Float T⦄ (clock : ℕ → T) (g : OperatorControlGuard T) where
  pub state-enabled : (state clock g).1.enabled ≡ g.enabled
  unfolding state
  state-enabled = ground arith

  pub state-IsSound : IsSound g → IsSound (state clock g).1
  unfolding state
  state-IsSound h = ground arith

  pub state-locked : IsSound g → (state clock g).0.locked ≡ (state clock g).1.locked
  unfolding state
  state-locked h = ground arith

  pub state-reason :
      IsSound g → g.enabled ≡ true → (state clock g).0.reason ≡ (state clock g).1.reason
  unfolding state
  state-reason h e = ground arith

  -- `state` locks exactly a guard that was locked or is late.
  pub state-locks :
      IsSound g → g.enabled ≡ true → (state clock g).1.locked ≡ (g.locked || is_late clock g)
  unfolding state
  state-locks h e = ground arith

  pub state-timeout :
      IsSound g
      → g.enabled ≡ true
      → g.locked ≡ false
      → (state clock g).1.locked ≡ true
      → (state clock g).1.reason ≡ "UI_HEARTBEAT_TIMEOUT"
  unfolding state
  state-timeout h e l k = ground arith

  pub state-reason_locked : g.locked ≡ true → (state clock g).1.reason ≡ g.reason
  unfolding state
  state-reason_locked l = ground arith

  pub set_locked-IsSound : (locked : Bool) → IsSound g → IsSound (set_locked clock locked g).1
  unfolding set_locked
  set_locked-IsSound locked h = ground arith

  pub heartbeat-IsSound : IsSound g → IsSound (heartbeat clock g).1
  unfolding heartbeat
  heartbeat-IsSound h = ground arith

  pub force_locked-IsSound : (reason : String) → IsSound g → IsSound (force_locked clock reason g).1
  unfolding force_locked
  force_locked-IsSound reason h = ground arith

  pub authorize-IsSound :
      (request : OperatorRequest T) → IsSound g → IsSound (authorize clock request g).1
  unfolding authorize
  authorize-IsSound request h = ground (arith, state-IsSound h)

module _ {T : Type 0} ⦃F : Float T⦄ (clock : ℕ → T) where
  -- Every guard that the constructor makes is sound.
  pub create-IsSound :
      (enabled : Bool) (timeout : T) (initially_locked : Bool) {g : OperatorControlGuard T}
      → create clock enabled timeout initially_locked ≡ ok g
      → IsSound g
  unfolding create
  create-IsSound enabled timeout initially_locked e = ground arith

-- A guard that is open, or that only a timeout has closed.
abbrev pub IsOpen : {T : Type 0} → OperatorControlGuard T → Type 0
IsOpen g = (g.locked ≡ false) ⊎ (g.reason ≡ "UI_HEARTBEAT_TIMEOUT")

module _ {T : Type 0} ⦃F : Float T⦄ (clock : ℕ → T) (g : OperatorControlGuard T) where
  pub state-IsOpen : g.locked ≡ false → IsOpen (state clock g).1
  unfolding state
  state-IsOpen l = ground arith

  pub unlock-IsOpen : g.enabled ≡ true → IsOpen (set_locked clock false g).1
  unfolding set_locked
  unlock-IsOpen e = ground arith

  pub heartbeat-IsOpen : g.locked ≡ false → IsOpen (heartbeat clock g).1
  unfolding heartbeat
  heartbeat-IsOpen l = ground arith

  pub authorize_guard :
      (request : OperatorRequest T) → (authorize clock request g).1 ≡ (state clock g).1
  unfolding authorize
  authorize_guard request = ground arith

  pub set_locked-enabled : (locked : Bool) → (set_locked clock locked g).1.enabled ≡ g.enabled
  unfolding set_locked
  set_locked-enabled locked = ground arith

  pub heartbeat-enabled : (heartbeat clock g).1.enabled ≡ g.enabled
  unfolding heartbeat
  heartbeat-enabled = ground arith

  pub force_locked-enabled : (reason : String) → (force_locked clock reason g).1.enabled ≡ g.enabled
  unfolding force_locked
  force_locked-enabled reason = ground arith

  -- A lock that is asked for is there.
  pub lock-locked : g.enabled ≡ true → (set_locked clock true g).1.locked ≡ true
  unfolding set_locked
  lock-locked e = ground arith

  pub force_locked-locked :
      (reason : String) → g.enabled ≡ true → (force_locked clock reason g).1.locked ≡ true
  unfolding force_locked
  force_locked-locked reason e = ground arith
