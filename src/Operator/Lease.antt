-- ===== src/Operator/Lease.antt =====
-- `OperatorLease` of operator_lease.py, over any type of connections with an equality.
pub mod Facts
pub mod Calls
pub mod Exclusive
use salus_robot.Prelude.{
  ℕ, ◌≡◌, ◌↔◌, Bool, true, false, Option, none, some, String, str_eq, ◌||◌, ◌&&◌, not,
  if◌then◌else◌,
}
use salus_robot.Float.{Float}
use salus_robot.Operator.Request.{OperatorRequest, is_controlled_operation}
use salus_robot.Operator.Guard
use salus_robot.Operator.Guard.{OperatorLockState, OperatorControlGuard}

-- The equality of a hashable type.
pub record Hashable (C : Type 0) : Type 0 where
  pub eq : C → C → Bool
  pub eq_iff : (a b : C) → (eq a b ≡ true) ↔ (a ≡ b)

pub record OperatorLeaseState (T : Type 0) : Type 0 where
  pub lock : OperatorLockState T
  pub owner_present : Bool
  pub requester_is_owner : Bool

pub record LeaseDecision (T : Type 0) : Type 0 where
  pub allowed : Bool
  pub state : OperatorLeaseState T
  pub error_code : Option String

pub record OperatorLease (T C : Type 0) : Type 0 where
  pub guard : OperatorControlGuard T
  pub owner : Option C

-- `self._owner is not None`
abbrev pub has_owner : {C : Type 0} → Option C → Bool
has_owner none = false
has_owner (some c) = true

-- `self._owner == client_id`
abbrev pub owns : {C : Type 0} ⦃H : Hashable C⦄ → Option C → C → Bool
owns none client = false
owns ⦃H⦄ (some c) client = H.eq c client

-- The error of a client that does not own the control.
abbrev not_owner : {C : Type 0} → Option C → Option String
not_owner owner = some (if has_owner owner then "CONTROL_OWNED" else "CONTROL_LOCKED")

module _ {T C : Type 0} ⦃F : Float T⦄ ⦃H : Hashable C⦄ (clock : ℕ → T) where
  unfoldable pub sync_timeout : OperatorLease T C → OperatorLease T C
  sync_timeout s =
      let (st, g) = Guard.state clock s.guard in
      if st.locked && str_eq st.reason "UI_HEARTBEAT_TIMEOUT"
      then record { guard = g; owner = none }
      else record { guard = g; owner = s.owner }

  unfoldable pub state_for : C → OperatorLease T C → OperatorLeaseState T × OperatorLease T C
  unfolding sync_timeout
  state_for client s =
      let t = sync_timeout s in
      let (st, g) = Guard.state clock t.guard in
      (
        record {
          lock = st;
          owner_present = has_owner t.owner;
          requester_is_owner = owns t.owner client;
        },
        record t { guard = g },
      )

  -- `LeaseDecision(allowed, self.state_for(client_id), error)`
  unfoldable pub decide :
      Bool → Option String → C → OperatorLease T C → LeaseDecision T × OperatorLease T C
  unfolding state_for
  decide allowed error client s =
      let (st, t) = state_for client s in
      (record { allowed = allowed; state = st; error_code = error }, t)

  unfoldable pub set_locked : C → Bool → OperatorLease T C → LeaseDecision T × OperatorLease T C
  unfolding decide
  set_locked client locked s =
      let t = sync_timeout s in
      if not t.guard.enabled
      then decide true none client t
      else if locked
      then decide true none client
          (record { guard = (Guard.set_locked clock true t.guard).1; owner = none })
      else if has_owner t.owner && not (owns t.owner client)
      then decide false (some "CONTROL_OWNED") client t
      else decide true none client
          (record { guard = (Guard.set_locked clock false t.guard).1; owner = some client })

  unfoldable pub heartbeat : C → OperatorLease T C → LeaseDecision T × OperatorLease T C
  unfolding decide
  heartbeat client s =
      let t = sync_timeout s in
      if not t.guard.enabled
      then decide true none client t
      else if not (owns t.owner client)
      then decide false (not_owner t.owner) client t
      else decide true none client
          (sync_timeout (record t { guard = (Guard.heartbeat clock t.guard).1 }))

  unfoldable pub authorize :
      C → OperatorRequest T → OperatorLease T C → LeaseDecision T × OperatorLease T C
  unfolding decide
  authorize client request s =
      let t = sync_timeout s in
      if not (is_controlled_operation request) || not t.guard.enabled
      then decide true none client t
      else if not (owns t.owner client)
      then decide false (not_owner t.owner) client t
      else (let (d, g) = Guard.authorize clock request t.guard in
          decide d.allowed d.error_code client (record t { guard = g }))

  unfoldable pub disconnect : C → OperatorLease T C → Bool × OperatorLease T C
  disconnect client s =
      let t = sync_timeout s in
      if not (owns t.owner client) then (false, t) else (
        true,
        record {
          guard = (Guard.force_locked clock "UI_CLIENT_DISCONNECTED" t.guard).1;
          owner = none;
        },
      )
