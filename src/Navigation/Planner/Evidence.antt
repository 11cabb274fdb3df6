-- ===== src/Navigation/Planner/Evidence.antt =====
-- What a failure of the planner is evidence of.
use mathlib.Core.Path.{subst}
use salus_robot.Prelude.{
  ◌≡◌, refl, ap, sym, ◌∙◌, ◌⊎◌, inl, inr, true, false, Option, none, some, String, List, [], ◌∷◌,
  ◌++◌, ℕ, ◌↔◌, arith, Option-cases, Bool-cases, if◌then◌else◌,
}
use salus_robot.Prelude.Int.{ℤ, pos, eqb_ℤ-eq, ltb_ℤ, eqb_ℤ}
use salus_robot.Float.{Float}
use salus_robot.Navigation.Planner.{
  PlannerFailureEvidence, reports_failure, new, begin_goal, observe_log, is_recent, recent_failure,
  aborted_for_no_path,
}

-- A goal that begins, or a line of the log: its name, its message and the time.
pub data Call (T : Type 0) : Type 0 where
  begin : ℤ → Call T
  log : String → String → T → Call T

module _ {T : Type 0} where
  abbrev pub OnlyLogs : List (Call T) → Type 0
  OnlyLogs [] = Unit {0}
  OnlyLogs (begin epoch ∷ calls) = ⊥
  OnlyLogs (log name message t ∷ calls) = OnlyLogs calls

  -- The calls since the last goal began.
  since_goal :
      (calls : List (Call T))
      → OnlyLogs calls
        ⊎ ((epoch : ℤ) × (since earlier : List (Call T)) × (calls ≡ since ++ begin epoch ∷ earlier)
            × OnlyLogs since)
  since_goal [] = inl tt
  since_goal (begin epoch ∷ calls) = inr (epoch, [], calls, refl, tt)
  since_goal (log name message t ∷ calls) = elim (since_goal calls) [
    | inl only ↦ inl only
    | inr (epoch, since, earlier, e, only) ↦
        inr (epoch, log name message t ∷ since, earlier, ap (λ cs. log name message t ∷ cs) e, only)
  ]

module _ {T : Type 0} (lower : String → String) where
  -- What calls leave of a new evidence; the latest call comes first.
  unfoldable pub run : List (Call T) → PlannerFailureEvidence T
  run [] = new
  run (begin epoch ∷ calls) = begin_goal epoch (run calls)
  run (log name message t ∷ calls) = observe_log lower name message t (run calls)

  -- The time of the latest line that reports a failure.
  abbrev pub last_failure : List (Call T) → Option T
  last_failure [] = none
  last_failure (begin epoch ∷ calls) = none
  last_failure (log name message t ∷ calls) =
      if reports_failure lower name message then some t else last_failure calls

  -- Before the first goal the lines of the log leave no trace.
  run-OnlyLogs : (calls : List (Call T)) → OnlyLogs calls → run calls ≡ new
  unfolding run observe_log new
  run-OnlyLogs [] h = refl
  run-OnlyLogs (begin epoch ∷ calls) h = elim h [ ]
  run-OnlyLogs (log name message t ∷ calls) h = rw (run-OnlyLogs calls h) refl

  run-since :
      (epoch : ℤ) (since earlier : List (Call T))
      → OnlyLogs since
      → ltb_ℤ epoch (pos 0) ≡ false
      → run (since ++ begin epoch ∷ earlier)
        ≡ record { goal_epoch = epoch; observed_at_s = last_failure since }
  unfolding run observe_log begin_goal
  run-since epoch [] earlier h positive = refl
  run-since epoch (begin other ∷ since) earlier h positive = elim h [ ]
  run-since epoch (log name message t ∷ since) earlier h positive =
      let observed = run-since epoch since earlier h positive in
      elim (Bool-cases (reports_failure lower name message)) [
        | inl e ↦ rw (observed, positive, e) refl
        | inr e ↦ rw (observed, positive, e) refl
      ]

  run-epoch :
      (epoch : ℤ) (since earlier : List (Call T))
      → OnlyLogs since
      → (run (since ++ begin epoch ∷ earlier)).goal_epoch ≡ epoch
  unfolding run observe_log begin_goal
  run-epoch epoch [] earlier h = refl
  run-epoch epoch (begin other ∷ since) earlier h = elim h [ ]
  run-epoch epoch (log name message t ∷ since) earlier h =
      let s = run (since ++ begin epoch ∷ earlier) in
      ground (arith, run-epoch epoch since earlier h)

module _ {T : Type 0} ⦃F : Float T⦄ (lower : String → String) where
  -- The last goal that began is the one of the epoch, and the latest failure since is recent.
  abbrev pub NoPath : ℕ → T → List (Call T) → Type 0
  NoPath epoch now calls =
      (since earlier : List (Call T)) × (t : T) × (calls ≡ since ++ begin (pos epoch) ∷ earlier)
      × OnlyLogs since
      × (last_failure lower since ≡ some t)
      × (is_recent now t ≡ true)

  NoPath-run :
      (epoch : ℕ) (now : T) (calls : List (Call T))
      → NoPath epoch now calls
      → aborted_for_no_path (pos epoch) now (run lower calls) ≡ true
  unfolding aborted_for_no_path recent_failure
  NoPath-run epoch now calls (since, earlier, t, e, only, failed, recent) =
      let observed = run-since lower (pos epoch) since earlier only (ground arith) in
      rw (e, observed, failed) ground (arith, recent)

  aborted-parts :
      (epoch : ℕ) (now : T) (s : PlannerFailureEvidence T)
      → aborted_for_no_path (pos epoch) now s ≡ true
      → (s.goal_epoch ≡ pos epoch) × (t : T) × (s.observed_at_s ≡ some t) × (is_recent now t ≡ true)
  unfolding aborted_for_no_path recent_failure
  aborted-parts epoch now s h = elim (Option-cases s.observed_at_s) [
    | inr (t, e) ↦
        let recent = subst (λ o. recent_failure now o ≡ true) e (ground (arith, h)) in
        (eqb_ℤ-eq s.goal_epoch epoch (ground (arith, h)), t, e, recent)
    | inl e ↦ absurd (ground (arith, h, ap (recent_failure now) e))
  ]

  run-NoPath :
      (epoch : ℕ) (now : T) (calls : List (Call T))
      → aborted_for_no_path (pos epoch) now (run lower calls) ≡ true
      → NoPath epoch now calls
  unfolding aborted_for_no_path new
  run-NoPath epoch now calls h = elim (since_goal calls) [
    | inl only ↦ absurd (
        ground (arith, h, ap (λ s. eqb_ℤ s.goal_epoch (pos epoch)) (run-OnlyLogs lower calls only)))
    | inr (other, since, earlier, e, only) ↦
        let (same, t, failed, recent) = aborted-parts epoch now (run lower calls) h in
        let last : other ≡ pos epoch =
          sym (run-epoch lower other since earlier only)
          ∙ ap (λ cs. (run lower cs).goal_epoch) (sym e)
          ∙ same in
        let begins = e ∙ ap (λ z. since ++ begin z ∷ earlier) last in
        let observed = run-since lower (pos epoch) since earlier only (ground arith) in
        (
          since,
          earlier,
          t,
          begins,
          only,
          sym (ap (λ s. s.observed_at_s) observed)
              ∙ ap (λ cs. (run lower cs).observed_at_s) (sym begins)
              ∙ failed,
          recent,
        )
  ]

  -- Whatever goals began and whatever was logged, an abort is put down to a planner without a path
  -- exactly if the goal of its epoch is the last one that began and the latest report of a failure
  -- by a planner server since then is at most 12 seconds old, and not of a later time.
  pub aborted_iff :
      (epoch : ℕ) (now : T) (calls : List (Call T))
      → (aborted_for_no_path (pos epoch) now (run lower calls) ≡ true) ↔ NoPath epoch now calls
  aborted_iff epoch now calls = (run-NoPath epoch now calls, NoPath-run epoch now calls)
