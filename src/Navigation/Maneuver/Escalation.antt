-- ===== src/Navigation/Maneuver/Escalation.antt =====
-- A wait that is over reaches the recovery policy of the route as a demand for an operator.
use Prim.Native.String.{◌++◌}
use text.Mathlib.Text.{starts_with}
use text.Mathlib.TextLemmas.{nil-append, cons-append, append_assoc as text_assoc}
use text.Mathlib.TextPositions.{starts_with-append}
use salus_robot.Prelude.Text.{avoids, split_once, split_once-append}
use salus_robot.Prelude.{
  ◌≡◌, ◌⊎◌, inl, inr, refl, true, some, String, List, [], ◌∷◌, arith, Bool-cases,
}
use salus_robot.Prelude.Result.{ok}
use salus_robot.Float.{Float}
use salus_robot.Operator.Lease.{Hashable}
use salus_robot.Navigation.Recovery.{
  RecoveryState, RecoveryAction, RecoveryObservation, RecoveryDecision, BlockedRecoveryPolicy,
  is_needs_operator, maneuver_parts, with_maneuver, answer, observe,
}
use salus_robot.Navigation.Maneuver.{
  ManeuverWait, ManeuverObservation, GuardDecision, guard_reason, snapshot, is_over,
}
use salus_robot.Navigation.Maneuver
use salus_robot.Navigation.Maneuver.Wait.{run}

module _ {T K : Type 0} ⦃F : Float T⦄ ⦃H : Hashable K⦄ where
  -- A wait that is over, with its deadline and its cause.
  abbrev pub Over : T → String → ManeuverWait T K → Type 0
  Over deadline cause w = (w.deadline ≡ some deadline) × (w.terminal ≡ true) × (w.cause ≡ cause)

  observe-Over :
      (deadline : T) (cause : String) (o : ManeuverObservation T K) (w : ManeuverWait T K)
      → Over deadline cause w
      → Over deadline cause (Maneuver.observe o w).1
  unfolding Maneuver.observe Maneuver.advance snapshot
  observe-Over deadline cause o w h = ground arith

  run-Over :
      (deadline : T) (cause : String) (os : List (ManeuverObservation T K)) (w : ManeuverWait T K)
      → Over deadline cause w
      → Over deadline cause (run os w)
  unfolding run
  run-Over deadline cause [] w h = h
  run-Over deadline cause (o ∷ os) w h =
      run-Over deadline cause os (Maneuver.observe o w).1 (observe-Over deadline cause o w h)

  observe-expired :
      (deadline : T) (o : ManeuverObservation T K) (w : ManeuverWait T K)
      → w.deadline ≡ some deadline
      → F.le deadline o.now_s ≡ true
      → Over deadline w.cause (Maneuver.observe o w).1
  unfolding Maneuver.observe Maneuver.advance snapshot
  observe-expired deadline o w h k = ground arith

  -- What a snapshot reports of a wait that is over.
  snapshot-Over :
      (deadline now : T) (cause : String) (w : ManeuverWait T K)
      → Over deadline cause w
      → let d = (snapshot now w).0 in (d.state ≡ Maneuver.needs_operator) × (d.reason ≡ cause)
  unfolding snapshot Maneuver.answer_of
  snapshot-Over deadline now cause w h = ground arith

-- A text that is put between colons is split off.
split_once-colon :
    (s t : String) → avoids b':' s ≡ true → split_once b':' (s ++ (":" ++ t)) ≡ some (s, t)
split_once-colon s t h =
    rw (cons-append ":" "" t, nil-append) (split_once-append b':' ":" s t refl h)

module _ {T : Type 0} where
  guard_reason-starts_with : (d : GuardDecision T) → starts_with (guard_reason d) "maneuver:" ≡ true
  unfolding guard_reason
  guard_reason-starts_with d = starts_with-append "maneuver:" _

  guard_reason-parts :
      (d : GuardDecision T)
      → d.state ≡ Maneuver.needs_operator
      → maneuver_parts (guard_reason d) ≡ some ("NEEDS_OPERATOR", d.reason)
  unfolding guard_reason maneuver_parts
  guard_reason-parts d h =
      let cut = split_once-colon "NEEDS_OPERATOR" d.reason refl in
      let start = split_once-colon "maneuver" ("NEEDS_OPERATOR" ++ (":" ++ d.reason)) refl in
      rw (h, text_assoc "maneuver" ":" ("NEEDS_OPERATOR" ++ (":" ++ d.reason)))
        (ground (arith, cut, start))

module _ {T : Type 0} ⦃F : Float T⦄ where
  -- The policy cancels the route and brakes, or waited for an operator before.
  abbrev pub Escalates : BlockedRecoveryPolicy T → RecoveryObservation T → Type 0
  Escalates p o =
      (d : RecoveryDecision T) × (q : BlockedRecoveryPolicy T) × (observe o p ≡ ok (d, q))
      × (q.state ≡ RecoveryState.needs_operator)
      × ((d.action ≡ RecoveryAction.cancel_and_brake) ⊎ (q ≡ p))

  observe-Escalates :
      (p : BlockedRecoveryPolicy T) (o : RecoveryObservation T) (cause : String)
      → starts_with o.path_reason "maneuver:" ≡ true
      → maneuver_parts o.path_reason ≡ some ("NEEDS_OPERATOR", cause)
      → Escalates p o
  unfolding observe with_maneuver
  observe-Escalates p o cause h k = elim (Bool-cases (is_needs_operator p.state)) [
    | inl e ↦ (
      (answer o.now_s RecoveryAction.no_action p).0,
      (answer o.now_s RecoveryAction.no_action p).1,
      ground (arith, e),
      ground (arith, e),
      inr refl,
    )
    | inr e ↦ (
      (with_maneuver o ("NEEDS_OPERATOR", cause) p).0,
      (with_maneuver o ("NEEDS_OPERATOR", cause) p).1,
      ground (arith, e, h, k),
      refl,
      inl refl,
    )
  ]

module _ {T K : Type 0} ⦃F : Float T⦄ ⦃H : Hashable K⦄ where
  -- Once a wait for another plan was observed at its deadline or later, whatever is observed after,
  -- a report of it makes the recovery policy need an operator: it cancels the route and brakes, or
  -- it needed one before and stays as it is.
  pub expired-Escalates :
      (deadline now : T) (last : ManeuverObservation T K) (os : List (ManeuverObservation T K))
      (w : ManeuverWait T K) (p : BlockedRecoveryPolicy T) (o : RecoveryObservation T)
      → w.deadline ≡ some deadline
      → F.le deadline last.now_s ≡ true
      → o.path_reason ≡ guard_reason (snapshot now (run os (Maneuver.observe last w).1)).0
      → Escalates p o
  expired-Escalates deadline now last os w p o h k e =
      let v = run os (Maneuver.observe last w).1 in
      let over =
        run-Over deadline w.cause os (Maneuver.observe last w).1
          (observe-expired deadline last w h k) in
      let d = (snapshot now v).0 in
      let state = (snapshot-Over deadline now w.cause v over).0 in
      observe-Escalates p o d.reason (rw e (guard_reason-starts_with d))
        (rw e (guard_reason-parts d state))
