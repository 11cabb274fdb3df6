-- ===== src/Navigation/BatteryInput.antt =====
-- patrol_battery_input.py: which input may ask for the return of a patrol.
pub mod Precedence
pub mod Latch
use salus_robot.Prelude.{
  Bool, true, false, not, ◌&&◌, ◌||◌, Option, none, some, String, List, [], ◌∷◌, if◌then◌else◌,
}
use salus_robot.Prelude.Result.{Result, ok, err}
use salus_robot.Prelude.Text.{is_in, strip}
use salus_robot.Float
use salus_robot.Float.{Float, nought, one}

-- What the constructor raises.
pub data ConfigError : Type 0 where
  bad_timeout bad_threshold : ConfigError

-- The texts "mission_guard", "soc_fallback" and "none".
pub data Source : Type 0 where
  mission_guard soc_fallback no_source : Source

pub data Reason : Type 0 where
  guard_recommended guard_not_recommended soc_threshold soc_above_threshold guard_unavailable
        no_valid_battery_input :
      Reason

pub record BatteryReturnDecision : Type 0 where
  pub newly_latched : Bool
  pub latched : Bool
  pub source : Source
  pub reason : Reason

pub record GuardInput (T : Type 0) : Type 0 where
  pub ready : Bool
  pub fresh : Bool
  pub state : String
  pub recommended : Bool
  pub received_s : T

pub record SocInput (T : Type 0) : Type 0 where
  pub present : Bool
  pub percentage : T
  pub received_s : T

pub record PatrolBatteryInputPolicy (T : Type 0) : Type 0 where
  pub guard_timeout_s : T
  pub threshold_pct : T
  pub valid_guard_seen : Bool
  pub guard : Option (GuardInput T)
  pub soc : Option (SocInput T)
  pub return_latched : Bool

pub record BatteryInputSnapshot (T : Type 0) : Type 0 where
  pub valid_guard_seen : Bool
  pub guard_valid : Bool
  pub guard_state : String
  pub guard_age_s : Option T
  pub soc_valid : Bool
  pub soc_pct : Option T
  pub return_latched : Bool

module _ {T : Type 0} where
  unfoldable pub begin_mission : PatrolBatteryInputPolicy T → PatrolBatteryInputPolicy T
  begin_mission p = record p { return_latched = false }

  unfoldable pub end_mission : PatrolBatteryInputPolicy T → PatrolBatteryInputPolicy T
  end_mission p = record p { return_latched = false }

  unfoldable pub latch :
      Source
      → Reason
      → PatrolBatteryInputPolicy T
      → BatteryReturnDecision × PatrolBatteryInputPolicy T
  latch source reason p = (
    record {
      newly_latched = not p.return_latched;
      latched = true;
      source = source;
      reason = reason;
    },
    record p { return_latched = true },
  )

  -- A decision that asks for nothing new.
  unfoldable pub report :
      Source
      → Reason
      → PatrolBatteryInputPolicy T
      → BatteryReturnDecision × PatrolBatteryInputPolicy T
  report source reason p = (
    record { newly_latched = false; latched = p.return_latched; source = source; reason = reason },
    p,
  )

  abbrev pub is_recommended : Option (GuardInput T) → Bool
  is_recommended none = false
  is_recommended (some g) = g.recommended

module _ {T : Type 0} ⦃F : Float T⦄ where
  unfoldable pub create : T → T → Result ConfigError (PatrolBatteryInputPolicy T)
  create timeout threshold =
      if not (F.finite timeout) || F.le timeout nought
      then err bad_timeout
      else if not (F.finite threshold)
          || not (F.le nought threshold && F.le threshold (F.decimal 100 0))
      then err bad_threshold
      else ok (record {
        guard_timeout_s = timeout;
        threshold_pct = threshold;
        valid_guard_seen = false;
        guard = none;
        soc = none;
        return_latched = false;
      })

  -- `age >= 0.0 and age <= timeout`
  unfoldable pub is_recent : T → T → T → Bool
  is_recent now received timeout =
      let age = F.sub now received in F.le nought age && F.le age timeout

  unfoldable pub guard_valid_at : T → T → Option (GuardInput T) → Bool
  unfolding is_recent
  guard_valid_at now timeout none = false
  guard_valid_at now timeout (some g) =
      is_recent now g.received_s timeout
      && g.ready
      && g.fresh
      && not (is_in g.state ("STALE" ∷ "SUSPECT" ∷ "UNAVAILABLE" ∷ []))

  unfoldable pub guard_valid : T → PatrolBatteryInputPolicy T → Bool
  unfolding guard_valid_at
  guard_valid now p = guard_valid_at now p.guard_timeout_s p.guard

  soc_valid_at : T → T → Option (SocInput T) → Bool
  unfolding is_recent
  soc_valid_at now timeout none = false
  soc_valid_at now timeout (some s) =
      is_recent now s.received_s timeout
      && s.present
      && F.finite s.percentage
      && F.le nought s.percentage
      && F.le s.percentage (F.decimal 100 0)

  unfoldable pub soc_valid : T → PatrolBatteryInputPolicy T → Bool
  unfolding soc_valid_at
  soc_valid now p = soc_valid_at now p.guard_timeout_s p.soc

  -- `self._soc["percentage"] <= self._threshold_pct`
  abbrev pub is_low : Option (SocInput T) → T → Bool
  is_low none threshold = false
  is_low (some s) threshold = F.le s.percentage threshold

  unfoldable pub evaluate :
      T → PatrolBatteryInputPolicy T → BatteryReturnDecision × PatrolBatteryInputPolicy T
  unfolding latch report
  evaluate now p =
      if guard_valid now p
      then (let q = record p { valid_guard_seen = true } in
          if is_recommended q.guard
          then latch mission_guard guard_recommended q
          else report mission_guard guard_not_recommended q)
      else if not p.valid_guard_seen && soc_valid now p
      then if is_low p.soc p.threshold_pct
        then latch soc_fallback soc_threshold p
        else report soc_fallback soc_above_threshold p
      else report no_source
          (if p.valid_guard_seen then guard_unavailable else no_valid_battery_input) p

  -- `value *= 100.0` of a share.
  unfoldable pub as_percentage : T → T
  as_percentage value =
      if F.finite value && F.le nought value && F.le value one
      then F.mul value (F.decimal 100 0)
      else value

  unfoldable pub ingest_soc :
      Bool → T → T → PatrolBatteryInputPolicy T → BatteryReturnDecision × PatrolBatteryInputPolicy T
  unfolding as_percentage
  ingest_soc present percentage now p = evaluate now (record p {
    soc =
        some
          (record { present = present; percentage = as_percentage percentage; received_s = now });
  })

  -- The arguments of `ingest_guard`, but for the time.
  unfoldable pub ingest_guard :
      (String → String)
      → GuardInput T
      → T
      → PatrolBatteryInputPolicy T
      → BatteryReturnDecision × PatrolBatteryInputPolicy T
  ingest_guard upper g now p =
      evaluate now
        (record p { guard = some (record g { state = upper (strip g.state); received_s = now }) })

  guard_age : T → Option (GuardInput T) → Option T
  guard_age now none = none
  guard_age now (some g) = some (Float.max nought (F.sub now g.received_s))

  abbrev guard_text : Option (GuardInput T) → String
  guard_text none = ""
  guard_text (some g) = g.state

  abbrev percentage_of : Option (SocInput T) → Option T
  percentage_of none = none
  percentage_of (some s) = some s.percentage

  unfoldable pub snapshot : T → PatrolBatteryInputPolicy T → BatteryInputSnapshot T
  unfolding guard_age
  snapshot now p = record {
    valid_guard_seen = p.valid_guard_seen;
    guard_valid = guard_valid now p;
    guard_state = guard_text p.guard;
    guard_age_s = guard_age now p.guard;
    soc_valid = soc_valid now p;
    soc_pct = percentage_of p.soc;
    return_latched = p.return_latched;
  }

-- What happens to a policy.
pub data Call (T : Type 0) : Type 0 where
  begins ends : Call T
  guards : GuardInput T → T → Call T
  charges : Bool → T → T → Call T
  evaluates : T → Call T

module _ {T : Type 0} ⦃F : Float T⦄ (upper : String → String) where
  -- The decision that a call returns, if any, and the policy that it leaves.
  abbrev pub perform :
      Call T
      → PatrolBatteryInputPolicy T
      → Option BatteryReturnDecision × PatrolBatteryInputPolicy T
  perform begins p = (none, begin_mission p)
  perform ends p = (none, end_mission p)
  perform (guards g now) p = let r = ingest_guard upper g now p in (some r.0, r.1)
  perform (charges present percentage now) p =
      let r = ingest_soc present percentage now p in (some r.0, r.1)
  perform (evaluates now) p = let r = evaluate now p in (some r.0, r.1)
