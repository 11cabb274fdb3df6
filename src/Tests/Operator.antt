-- ===== src/Tests/Operator.antt =====
-- Witnesses and runs for the operator's lease.
use salus_robot.Prelude.{inl, ℕ, ◌≡◌, ◌⊎◌, refl, true, false, none, some, List, [], ◌∷◌}
use salus_robot.Prelude.Int.{ℤ, pos}
use salus_robot.Json
use salus_robot.Operator.Request.{OperatorRequest, is_controlled_operation}
use salus_robot.Operator.Guard.{OperatorControlGuard, create}
use salus_robot.Operator.Guard
use salus_robot.Operator.Guard.Facts.{has_beat, is_late}
use salus_robot.Operator.Lease.{OperatorLease, owns, authorize}
use salus_robot.Operator.Lease.Facts.{IsSound}
use salus_robot.Operator.Lease.Exclusive.{
  Call, locks, beats, authorizes, leaves, asks, perform, perform_all, perform_all-IsSound,
  no_takeover, authorize_allowed,
}
use salus_robot.Tests.Values.{whole, numbered, clock}

abbrev manual : OperatorRequest ℤ
manual = record { op = "set_manual_cmd"; request_id = none; fields = Json.end }

abbrev fresh_guard : OperatorControlGuard ℤ
fresh_guard = record {
  enabled = true;
  timeout_s = pos 3;
  locked = true;
  reason = "STARTUP_LOCKED";
  last_heartbeat = none;
  readings = 0;
}

-- Connection 1 owns the control, with a heartbeat one reading ago.
abbrev owned : OperatorLease ℤ ℕ
owned = record {
  guard = record {
    enabled = true;
    timeout_s = pos 3;
    locked = false;
    reason = "";
    last_heartbeat = some (pos 4);
    readings = 5;
  };
  owner = some 1;
}

owned-IsSound : IsSound owned
owned-IsSound = record {
  guard_sound = record {
    disabled_open = λ e. refl;
    locked_quiet = λ l. cc;
    open_beats = λ e l. refl;
  };
  disabled_free = λ e. cc;
  owner_open = λ o. inl refl;
}

abbrev calls : List (Call ℤ ℕ)
calls = locks 1 false ∷ beats 1 ∷ authorizes 2 manual ∷ leaves 1 ∷ asks 2 ∷ []

perform_all-IsSound_example :
    IsSound (perform_all clock calls (record { guard = fresh_guard; owner = none }))
unfolding create
perform_all-IsSound_example = perform_all-IsSound clock true (pos 3) true calls refl

no_takeover_example :
    ((perform clock (locks 2 false) owned).owner ≡ some 1)
    ⊎ ((perform clock (locks 2 false) owned).owner ≡ none)
no_takeover_example = no_takeover clock (locks 2 false) owned 1 owned-IsSound refl refl refl refl

authorize_allowed_example :
    (owns owned.owner 1 ≡ true)
    × (has_beat owned.guard.last_heartbeat ≡ true)
    × (is_late clock owned.guard ≡ false)
unfolding authorize is_controlled_operation Guard.state Guard.authorize
authorize_allowed_example = authorize_allowed clock 1 manual owned owned-IsSound refl refl refl
