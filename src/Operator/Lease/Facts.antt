-- ===== src/Operator/Lease/Facts.antt =====
-- The invariant of the lease, and what its calls do to the owner.
use salus_robot.Prelude.{ℕ, ◌≡◌, ◌⊎◌, true, false, none, String, arith, if◌then◌else◌, eq_iff}
use salus_robot.Float.{Float}
use salus_robot.Operator.Guard
use salus_robot.Operator.Guard.{OperatorControlGuard}
use salus_robot.Operator.Guard.Facts
use salus_robot.Operator.Guard.Facts.{
  is_late, state-enabled, state-IsSound, state-locked, state-reason, state-locks, state-timeout,
  state-reason_locked, set_locked-IsSound, heartbeat-IsSound, force_locked-IsSound,
  authorize-IsSound,
}
use salus_robot.Operator.Lease.{has_owner, Hashable, OperatorLease, sync_timeout}

abbrev pub timeout_reason : String
timeout_reason = "UI_HEARTBEAT_TIMEOUT"

-- The guard is sound; a lease on a disabled guard has no owner; and an owner is there only while
-- the guard is not locked, or is locked by a timeout that the lease has yet to see.
pub record IsSound {T C : Type 0} (s : OperatorLease T C) : Type 0 where
  pub guard_sound : Facts.IsSound s.guard
  pub disabled_free : s.guard.enabled ≡ false → has_owner s.owner ≡ false
  pub owner_open :
      has_owner s.owner ≡ true → (s.guard.locked ≡ false) ⊎ (s.guard.reason ≡ timeout_reason)

module _ {T C : Type 0} ⦃F : Float T⦄ ⦃H : Hashable C⦄ (clock : ℕ → T) (s : OperatorLease T C) where
  pub sync_guard : (sync_timeout clock s).guard ≡ (Guard.state clock s.guard).1
  unfolding sync_timeout
  sync_guard = ground arith

  pub sync-enabled : (sync_timeout clock s).guard.enabled ≡ s.guard.enabled
  sync-enabled = ground (arith, sync_guard, state-enabled clock s.guard)

  -- The owner goes exactly if the guard is late.
  pub sync_owner :
      IsSound s
      → has_owner s.owner ≡ true
      → s.guard.locked ≡ false
      → (sync_timeout clock s).owner ≡ (if is_late clock s.guard then none else s.owner)
  unfolding sync_timeout
  sync_owner h o l = ground (
    arith,
    state-locked clock s.guard h.guard_sound,
    state-locks clock s.guard h.guard_sound,
    state-reason clock s.guard h.guard_sound,
    state-timeout clock s.guard h.guard_sound,
    eq_iff (Guard.state clock s.guard).0.reason timeout_reason,
    h.disabled_free,
  )

  pub sync_owner_cases :
      ((sync_timeout clock s).owner ≡ s.owner) ⊎ ((sync_timeout clock s).owner ≡ none)
  unfolding sync_timeout
  sync_owner_cases = ground arith

  -- After a sync an owner means that the guard is not locked.
  pub sync_open :
      IsSound s
      → has_owner (sync_timeout clock s).owner ≡ true
      → (sync_timeout clock s).guard.locked ≡ false
  unfolding sync_timeout
  sync_open h o = ground (
    arith,
    state-locked clock s.guard h.guard_sound,
    state-locks clock s.guard h.guard_sound,
    state-reason clock s.guard h.guard_sound,
    state-timeout clock s.guard h.guard_sound,
    eq_iff (Guard.state clock s.guard).0.reason timeout_reason,
    state-reason_locked clock s.guard,
    h.disabled_free,
    h.owner_open,
  )

  pub sync-IsSound : IsSound s → IsSound (sync_timeout clock s)
  sync-IsSound h = record {
    guard_sound = ground (arith, sync_guard, state-IsSound clock s.guard h.guard_sound);
    disabled_free = λ e. ground (arith, sync-enabled, sync_owner_cases, h.disabled_free);
    owner_open = λ o. ground (arith, sync_open h o);
  }
