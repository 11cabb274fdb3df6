-- ===== src/Operator/Lease/Exclusive.antt =====
-- Exclusive control: what a sequence of calls of the lease, by any connections, can and cannot do.
use salus_robot.Prelude.{
  ℕ, ◌≡◌, ◌⊎◌, refl, Bool, true, false, none, some, List, [], ◌∷◌, arith, ◌∙◌,
}
use salus_robot.Prelude.Result.{ok}
use salus_robot.Float.{Float}
use salus_robot.Operator.Request.{OperatorRequest, is_controlled_operation}
use salus_robot.Operator.Guard
use salus_robot.Operator.Guard.{OperatorControlGuard, create}
use salus_robot.Operator.Guard.Facts.{
  has_beat, is_late, create-IsSound, state-locks, force_locked-enabled,
}
use salus_robot.Operator.Lease.{
  Hashable, OperatorLease, owns, sync_timeout, state_for, decide, set_locked, heartbeat, authorize,
  disconnect,
}
use salus_robot.Operator.Lease.Facts.{
  IsSound, sync-enabled, sync_guard, sync_owner, sync_owner_cases, sync_open,
}
use salus_robot.Operator.Lease.Calls.{
  state_for-IsSound, set_locked_lease-IsSound, heartbeat_lease-IsSound, authorize_lease-IsSound,
  disconnect_lease-IsSound,
}

-- The calls that websocket_server.py makes.
pub data Call (T C : Type 0) : Type 0 where
  locks : C → Bool → Call T C
  beats : C → Call T C
  authorizes : C → OperatorRequest T → Call T C
  leaves : C → Call T C
  asks : C → Call T C

abbrev pub client_of : {T C : Type 0} → Call T C → C
client_of (locks c b) = c
client_of (beats c) = c
client_of (authorizes c r) = c
client_of (leaves c) = c
client_of (asks c) = c

module _ {T C : Type 0} ⦃F : Float T⦄ ⦃H : Hashable C⦄ (clock : ℕ → T) where
  unfoldable pub perform : Call T C → OperatorLease T C → OperatorLease T C
  perform (locks c b) s = (set_locked clock c b s).1
  perform (beats c) s = (heartbeat clock c s).1
  perform (authorizes c r) s = (authorize clock c r s).1
  perform (leaves c) s = (disconnect clock c s).1
  perform (asks c) s = (state_for clock c s).1

  unfoldable pub perform_all : List (Call T C) → OperatorLease T C → OperatorLease T C
  perform_all [] s = s
  perform_all (call ∷ calls) s = perform_all calls (perform call s)

  pub perform-IsSound :
      (call : Call T C) (s : OperatorLease T C) → IsSound s → IsSound (perform call s)
  unfolding perform
  perform-IsSound (locks c b) s h = set_locked_lease-IsSound clock c b s h
  perform-IsSound (beats c) s h = heartbeat_lease-IsSound clock c s h
  perform-IsSound (authorizes c r) s h = authorize_lease-IsSound clock c r s h
  perform-IsSound (leaves c) s h = disconnect_lease-IsSound clock c s h
  perform-IsSound (asks c) s h = state_for-IsSound clock c s h

  perform_all-keeps :
      (calls : List (Call T C)) (s : OperatorLease T C) → IsSound s → IsSound (perform_all calls s)
  unfolding perform_all
  perform_all-keeps [] s h = h
  perform_all-keeps (call ∷ calls) s h =
      perform_all-keeps calls (perform call s) (perform-IsSound call s h)

  -- A lease on a guard as it is constructed, after any calls by any connections, at any readings of
  -- the clock, has an owner only while the guard is open or closed by a timeout alone, has none if
  -- the guard is disabled, and keeps a sound guard.
  pub perform_all-IsSound :
      (enabled : Bool) (timeout : T) (initially_locked : Bool) (calls : List (Call T C))
      {g : OperatorControlGuard T}
      → create clock enabled timeout initially_locked ≡ ok g
      → IsSound (perform_all calls (record { guard = g; owner = none }))
  perform_all-IsSound enabled timeout initially_locked calls {g} e =
      perform_all-keeps calls _ (record {
        guard_sound = create-IsSound clock enabled timeout initially_locked e;
        disabled_free = λ d. refl;
        owner_open = λ o. cc;
      })

  kept :
      (call : Call T C) (s : OperatorLease T C) (owner : C)
      → (sync_timeout clock s).owner ≡ some owner
      → (sync_timeout clock s).guard.enabled ≡ true
      → H.eq owner (client_of call) ≡ false
      → ((perform call s).owner ≡ some owner) ⊎ ((perform call s).owner ≡ none)
  unfolding perform set_locked heartbeat authorize disconnect state_for decide
  kept (locks c b) s owner o e n =
      let t = sync_timeout clock s in
      ground (
        arith,
        sync_owner_cases clock t,
        sync_owner_cases clock
            (record { guard = (Guard.set_locked clock true t.guard).1; owner = none }),
      )
  kept (beats c) s owner o e n = ground (arith, sync_owner_cases clock (sync_timeout clock s))
  kept (authorizes c r) s owner o e n =
      ground (arith, sync_owner_cases clock (sync_timeout clock s))
  kept (leaves c) s owner o e n = ground arith
  kept (asks c) s owner o e n = ground arith

  -- While a connection owns the control, the guard is open and the heartbeat on record is in time, a
  -- call by another connection does not take the control over: the owner stays, or there is none.
  pub no_takeover :
      (call : Call T C) (s : OperatorLease T C) (owner : C)
      → IsSound s
      → s.owner ≡ some owner
      → s.guard.locked ≡ false
      → is_late clock s.guard ≡ false
      → H.eq owner (client_of call) ≡ false
      → ((perform call s).owner ≡ some owner) ⊎ ((perform call s).owner ≡ none)
  no_takeover call s owner h o l i n =
      kept call s owner (sync_owner clock s h (cc) l ∙ (rw i o))
        (ground (arith, sync-enabled clock s, h.disabled_free)) n

  -- A request that the lock must authorize is allowed, on an enabled guard, only to the owner, and
  -- only with a heartbeat on record that is in time at the reading made for this call.
  pub authorize_allowed :
      (client : C) (request : OperatorRequest T) (s : OperatorLease T C)
      → IsSound s
      → s.guard.enabled ≡ true
      → is_controlled_operation request ≡ true
      → (authorize clock client request s).0.allowed ≡ true
      → (owns s.owner client ≡ true)
        × (has_beat s.guard.last_heartbeat ≡ true)
        × (is_late clock s.guard ≡ false)
  unfolding authorize decide
  authorize_allowed client request s h e k a = ground (
    arith,
    sync-enabled clock s,
    sync_owner_cases clock s,
    sync_owner clock s h,
    sync_open clock s h,
    sync_guard clock s,
    state-locks clock s.guard h.guard_sound,
    h.guard_sound.locked_quiet,
    h.guard_sound.open_beats,
  )

  authorize-no_owner :
      (client : C) (request : OperatorRequest T) (s : OperatorLease T C)
      → s.owner ≡ none
      → s.guard.enabled ≡ true
      → is_controlled_operation request ≡ true
      → let d = (authorize clock client request s).0 in
        (d.allowed ≡ false) × (d.error_code ≡ some "CONTROL_LOCKED")
  unfolding authorize decide
  authorize-no_owner client request s o e k =
      ground (arith, sync-enabled clock s, sync_owner_cases clock s)

  disconnect-no_owner :
      (client : C) (s : OperatorLease T C)
      → s.guard.enabled ≡ true
      → (disconnect clock client s).0 ≡ true
      → ((disconnect clock client s).1.owner ≡ none)
        × ((disconnect clock client s).1.guard.enabled ≡ true)
  unfolding disconnect
  disconnect-no_owner client s e d = ground (
    arith,
    sync-enabled clock s,
    force_locked-enabled clock (sync_timeout clock s).guard "UI_CLIENT_DISCONNECTED",
  )

  -- Once the owner's connection has gone, no connection is allowed a request that the lock must
  -- authorize: the answer is CONTROL_LOCKED, at whatever readings of the clock.
  pub disconnect-authorize :
      (client other : C) (request : OperatorRequest T) (s : OperatorLease T C)
      → s.guard.enabled ≡ true
      → is_controlled_operation request ≡ true
      → (disconnect clock client s).0 ≡ true
      → let d = (authorize clock other request (disconnect clock client s).1).0 in
        (d.allowed ≡ false) × (d.error_code ≡ some "CONTROL_LOCKED")
  disconnect-authorize client other request s e k d =
      let (gone, enabled) = disconnect-no_owner client s e d in
      authorize-no_owner other request (disconnect clock client s).1 gone enabled k
