-- ===== src/Operator/Lease/Calls.antt =====
-- Every call of the lease keeps its invariant.
use salus_robot.Prelude.{
  ℕ, ◌≡◌, inl, inr, refl, Bool, true, false, Option, none, some, String, arith, not, ◌||◌, ◌&&◌,
  Bool-cases,
}
use salus_robot.Float.{Float}
use salus_robot.Operator.Request.{OperatorRequest, is_controlled_operation}
use salus_robot.Operator.Guard
use salus_robot.Operator.Guard.{OperatorControlGuard}
use salus_robot.Operator.Guard.Facts.{
  state-enabled, state-IsSound, set_locked-IsSound, heartbeat-IsSound, force_locked-IsSound,
  state-IsOpen, unlock-IsOpen, heartbeat-IsOpen, authorize_guard, set_locked-enabled,
  heartbeat-enabled,
}
use salus_robot.Operator.Lease.{
  Hashable, OperatorLease, has_owner, owns, sync_timeout, state_for, decide, set_locked, heartbeat,
  authorize, disconnect,
}
use salus_robot.Operator.Lease.Facts.{IsSound, sync_open, sync-IsSound}

module _ {T C : Type 0} ⦃F : Float T⦄ ⦃H : Hashable C⦄ (clock : ℕ → T) where
  pub state_for-IsSound :
      (client : C) (s : OperatorLease T C) → IsSound s → IsSound (state_for clock client s).1
  unfolding state_for
  state_for-IsSound client s h =
      let t = sync_timeout clock s in
      let v = sync-IsSound clock s h in
      record {
        guard_sound = state-IsSound clock t.guard v.guard_sound;
        disabled_free = λ e. ground (arith, state-enabled clock t.guard, v.disabled_free);
        owner_open = λ o. state-IsOpen clock t.guard (sync_open clock s h o);
      }

  pub state_for_owner :
      (client : C) (s : OperatorLease T C)
      → (state_for clock client s).1.owner ≡ (sync_timeout clock s).owner
  unfolding state_for
  state_for_owner client s = refl

  decide_lease :
      (allowed : Bool) (error : Option String) (client : C) (s : OperatorLease T C)
      → (decide clock allowed error client s).1 ≡ (state_for clock client s).1
  unfolding decide
  decide_lease allowed error client s = refl

  -- The states between the sync of a call and its answer.
  locked_now-IsSound :
      (t : OperatorLease T C)
      → IsSound t
      → IsSound {C = C} (record { guard = (Guard.set_locked clock true t.guard).1; owner = none })
  locked_now-IsSound t v = record {
    guard_sound = set_locked-IsSound clock t.guard true v.guard_sound;
    disabled_free = λ e. refl;
    owner_open = λ o. cc;
  }

  taken_now-IsSound :
      (client : C) (t : OperatorLease T C)
      → IsSound t
      → t.guard.enabled ≡ true
      → IsSound (record { guard = (Guard.set_locked clock false t.guard).1; owner = some client })
  taken_now-IsSound client t v e = record {
    guard_sound = set_locked-IsSound clock t.guard false v.guard_sound;
    disabled_free = λ d. cc (set_locked-enabled clock t.guard false);
    owner_open = λ o. unlock-IsOpen clock t.guard e;
  }

  beaten_now-IsSound :
      (t : OperatorLease T C)
      → IsSound t
      → (has_owner t.owner ≡ true → t.guard.locked ≡ false)
      → IsSound (record t { guard = (Guard.heartbeat clock t.guard).1 })
  beaten_now-IsSound t v l = record {
    guard_sound = heartbeat-IsSound clock t.guard v.guard_sound;
    disabled_free = λ d. ground (arith, heartbeat-enabled clock t.guard, v.disabled_free);
    owner_open = λ o. heartbeat-IsOpen clock t.guard (l o);
  }

  authorized_now-IsSound :
      (request : OperatorRequest T) (t : OperatorLease T C)
      → IsSound t
      → (has_owner t.owner ≡ true → t.guard.locked ≡ false)
      → IsSound (record t { guard = (Guard.authorize clock request t.guard).1 })
  authorized_now-IsSound request t v l = rw (authorize_guard clock t.guard request) (record {
    guard_sound = state-IsSound clock t.guard v.guard_sound;
    disabled_free = λ d. ground (arith, state-enabled clock t.guard, v.disabled_free);
    owner_open = λ o. state-IsOpen clock t.guard (l o);
  })

  pub set_locked_lease-IsSound :
      (client : C) (locked : Bool) (s : OperatorLease T C)
      → IsSound s
      → IsSound (set_locked clock client locked s).1
  unfolding set_locked decide
  set_locked_lease-IsSound client locked s h =
      let t = sync_timeout clock s in
      let v = sync-IsSound clock s h in
      elim (Bool-cases t.guard.enabled) [
        | inr off ↦ rw off (state_for-IsSound client t v)
        | inl on ↦ elim (Bool-cases locked) [
          | inl lock ↦ rw (on, lock) (state_for-IsSound client _ (locked_now-IsSound t v))
          | inr unlock ↦ elim (Bool-cases (has_owner t.owner && not (owns t.owner client))) [
            | inl taken ↦ rw (on, unlock, taken) (state_for-IsSound client t v)
            | inr free ↦
                rw (on, unlock, free) (state_for-IsSound client _ (taken_now-IsSound client t v on))
          ]
        ]
      ]

  pub heartbeat_lease-IsSound :
      (client : C) (s : OperatorLease T C) → IsSound s → IsSound (heartbeat clock client s).1
  unfolding heartbeat decide
  heartbeat_lease-IsSound client s h =
      let t = sync_timeout clock s in
      let v = sync-IsSound clock s h in
      elim (Bool-cases t.guard.enabled) [
        | inr off ↦ rw off (state_for-IsSound client t v)
        | inl on ↦ elim (Bool-cases (owns t.owner client)) [
          | inr other ↦ rw (on, other) (state_for-IsSound client t v)
          | inl mine ↦
              rw (on, mine)
                (state_for-IsSound client _
                  (sync-IsSound clock _ (beaten_now-IsSound t v (sync_open clock s h))))
        ]
      ]

  pub authorize_lease-IsSound :
      (client : C) (request : OperatorRequest T) (s : OperatorLease T C)
      → IsSound s
      → IsSound (authorize clock client request s).1
  unfolding authorize decide
  authorize_lease-IsSound client request s h =
      let t = sync_timeout clock s in
      let v = sync-IsSound clock s h in
      elim (Bool-cases (not (is_controlled_operation request) || not t.guard.enabled)) [
        | inl free ↦ rw free (state_for-IsSound client t v)
        | inr guarded ↦ elim (Bool-cases (owns t.owner client)) [
          | inr other ↦ rw (guarded, other) (state_for-IsSound client t v)
          | inl mine ↦
              rw (guarded, mine)
                (state_for-IsSound client _
                  (authorized_now-IsSound request t v (sync_open clock s h)))
        ]
      ]

  pub disconnect_lease-IsSound :
      (client : C) (s : OperatorLease T C) → IsSound s → IsSound (disconnect clock client s).1
  unfolding disconnect
  disconnect_lease-IsSound client s h =
      let t = sync_timeout clock s in
      let v = sync-IsSound clock s h in
      elim (Bool-cases (owns t.owner client)) [
        | inr other ↦ rw other v
        | inl mine ↦ rw mine record {
          guard_sound = force_locked-IsSound clock t.guard "UI_CLIENT_DISCONNECTED" v.guard_sound;
          disabled_free = λ e. refl;
          owner_open = λ o. cc;
        }
      ]
