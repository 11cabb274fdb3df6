-- ===== src/Navigation/Maneuver.antt =====
-- The wait of maneuver_guard.py for another plan, and what path_health.py reports of it.
pub mod Wait
pub mod Escalation
use Prim.Native.String.{◌++◌}
use salus_robot.Prelude.{
  Bool, true, false, not, ◌&&◌, ◌||◌, Option, none, some, String, str_eq, if◌then◌else◌,
}
use salus_robot.Float
use salus_robot.Float.{Float, nought}
use salus_robot.Operator.Lease.{Hashable}

-- The texts "CLEAR", "WAITING_REPLAN" and "NEEDS_OPERATOR".
pub data GuardState : Type 0 where
  clear waiting_replan needs_operator : GuardState

abbrev pub state_text : GuardState → String
state_text clear = "CLEAR"
state_text waiting_replan = "WAITING_REPLAN"
state_text needs_operator = "NEEDS_OPERATOR"

pub record GuardDecision (T : Type 0) : Type 0 where
  pub state : GuardState
  pub reason : String
  pub remaining_s : T

-- A wait, and the time that its configuration gives it. A key tells paths apart.
pub record ManeuverWait (T K : Type 0) : Type 0 where
  pub wait_s : T
  pub deadline : Option T
  pub cause : String
  pub approved : Option K
  pub terminal : Bool

-- The arguments of `observe`; an empty reason is none.
pub record ManeuverObservation (T K : Type 0) : Type 0 where
  pub now_s : T
  pub reason : String
  pub key : Option K
  pub candidate : Bool
  pub valid : Bool

abbrev pub is_text : String → Bool
is_text s = not (str_eq s "")

-- `key == self.approved and key is not None`
abbrev pub same_key : {K : Type 0} ⦃H : Hashable K⦄ → Option K → Option K → Bool
same_key none approved = false
same_key (some k) none = false
same_key ⦃H⦄ (some k) (some a) = H.eq k a

module _ {T K : Type 0} where
  unfoldable pub reset : ManeuverWait T K → ManeuverWait T K
  reset w = record w { deadline = none; cause = ""; approved = none; terminal = false }

  unfoldable pub new : T → ManeuverWait T K
  new wait = record {
    wait_s = wait;
    deadline = none;
    cause = "";
    approved = none;
    terminal = false;
  }

module _ {T : Type 0} ⦃F : Float T⦄ where
  -- `deadline is not None and now_s >= deadline`
  abbrev pub is_over : Option T → T → Bool
  is_over none now = false
  is_over (some deadline) now = F.le deadline now

  -- What `snapshot` answers, from the deadline and whether the wait is final.
  unfoldable pub answer_of : Option T → Bool → String → T → GuardDecision T
  answer_of none terminal cause now = record { state = clear; reason = ""; remaining_s = nought }
  answer_of (some deadline) terminal cause now = record {
    state = if terminal then needs_operator else waiting_replan;
    reason = cause;
    remaining_s = Float.max nought (F.sub deadline now);
  }

module _ {T K : Type 0} ⦃F : Float T⦄ ⦃H : Hashable K⦄ where
  unfoldable pub snapshot : T → ManeuverWait T K → GuardDecision T × ManeuverWait T K
  unfolding answer_of
  snapshot now w =
      let terminal = is_over w.deadline now || w.terminal in
      (answer_of w.deadline terminal w.cause now, record w { terminal = terminal })

  -- A reason starts a wait that is not on; else nothing of it changes.
  unfoldable pub start_wait :
      Option T → ManeuverObservation T K → ManeuverWait T K → ManeuverWait T K
  start_wait none o w =
      if is_text o.reason
      then record w { deadline = some (F.add o.now_s w.wait_s); cause = o.reason }
      else w
  start_wait (some deadline) o w = w

  -- What an observation does to a wait that is on.
  unfoldable pub adopt : Option T → ManeuverObservation T K → ManeuverWait T K → ManeuverWait T K
  unfolding reset
  adopt none o w = w
  adopt (some deadline) o w =
      if o.candidate && o.valid && not (is_text o.reason)
      then record w { approved = o.key }
      else if not o.candidate && o.valid && not (is_text o.reason) && same_key o.key w.approved
      then reset w
      else w

  -- What `observe` does before its snapshot.
  unfoldable pub advance : ManeuverObservation T K → ManeuverWait T K → ManeuverWait T K
  unfolding start_wait adopt
  advance o w =
      let v = record w { terminal = is_over w.deadline o.now_s || w.terminal } in
      let started = start_wait v.deadline o v in
      if v.terminal then v else adopt started.deadline o started

  unfoldable pub observe :
      ManeuverObservation T K → ManeuverWait T K → GuardDecision T × ManeuverWait T K
  unfolding advance snapshot
  observe o w = snapshot o.now_s (advance o w)

-- `f'maneuver:{decision.state}:{decision.reason}'`
unfoldable pub guard_reason : {T : Type 0} → GuardDecision T → String
guard_reason d = "maneuver:" ++ (state_text d.state ++ (":" ++ d.reason))
