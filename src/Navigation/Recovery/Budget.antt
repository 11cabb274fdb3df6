-- ===== src/Navigation/Recovery/Budget.antt =====
-- The retry budget of `BlockedRecoveryPolicy`, and when it acts.
use salus_robot.Prelude.{
  ℕ, suc, ◌+◌, ◌≤◌, ◌<◌, ◌≡◌, ◌≢◌, ◌⊎◌, refl, Bool, true, false, Option, List, [], ◌∷◌, String,
  arith,
}
use salus_robot.Prelude.Result.{Result, ok, err}
use salus_robot.Float.{Float}
use salus_robot.Navigation.Recovery.{
  RecoveryState, waiting_data, waiting_retry, recovering, needs_operator, RecoveryAction, no_action,
  begin_retry, RecoveryObservation, RecoveryDecision, Answer, BlockedRecoveryPolicy, RecoveryError,
  classify, retry, continue_in, resumed, with_fresh_data, with_stale_data, with_maneuver, observe,
  finish_retry, create, too_early, answer, decision,
}

-- What the rest of the program tells the policy.
pub data Event (T : Type 0) : Type 0 where
  observed : RecoveryObservation T → Event T
  finished : T → Bool → String → Event T

module _ {T : Type 0} ⦃F : Float T⦄ where
  unfoldable pub perform : Event T → BlockedRecoveryPolicy T → Result RecoveryError (Answer T)
  perform (observed o) p = observe o p
  perform (finished now accepted reason) p = finish_retry now accepted reason p

abbrev pub is_begin_retry : RecoveryAction → ℕ
is_begin_retry begin_retry = 1
is_begin_retry _ = 0

module _ {T : Type 0} ⦃F : Float T⦄ where
  -- An answer spends an attempt for each retry that it begins, within the budget, which stays.
  record Spends (p : BlockedRecoveryPolicy T) (r : Answer T) : Type 0 where
    budget : r.1.max_attempts ≡ p.max_attempts
    spent : r.1.attempt ≡ p.attempt + is_begin_retry r.0.action
    within : p.attempt ≤ p.max_attempts → r.1.attempt ≤ p.max_attempts

  continue_in-Spends :
      (s : RecoveryState) (o : RecoveryObservation T) (p : BlockedRecoveryPolicy T)
      → Spends p (continue_in s o p)
  unfolding continue_in
  continue_in-Spends waiting_retry o p = ground arith
  continue_in-Spends _ o p = ground arith

  with_fresh_data-Spends :
      (o : RecoveryObservation T) (p : BlockedRecoveryPolicy T) → Spends p (with_fresh_data o p)
  unfolding with_fresh_data answer
  with_fresh_data-Spends o p = ground (
    arith,
    continue_in-Spends p.state o p,
    continue_in-Spends (resumed p.resume_state) o (record p { state = resumed p.resume_state }),
  )

  abbrev SpendsOk : BlockedRecoveryPolicy T → Result RecoveryError (Answer T) → Type 0
  SpendsOk p (ok r) = Spends p r
  SpendsOk p (err e) = Unit

  observe-Spends :
      (o : RecoveryObservation T) (p : BlockedRecoveryPolicy T) → SpendsOk p (observe o p)
  unfolding observe with_stale_data with_maneuver answer
  observe-Spends o p = ground (arith, with_fresh_data-Spends o p)

  finish_retry-Spends :
      (now : T) (accepted : Bool) (reason : String) (p : BlockedRecoveryPolicy T)
      → SpendsOk p (finish_retry now accepted reason p)
  unfolding finish_retry
  finish_retry-Spends now accepted reason p = ground arith

  perform-Spends : (e : Event T) (p : BlockedRecoveryPolicy T) → SpendsOk p (perform e p)
  unfolding perform
  perform-Spends (observed o) p = observe-Spends o p
  perform-Spends (finished now accepted reason) p = finish_retry-Spends now accepted reason p

  -- The number of retries that a sequence of calls begins, where a call that raises changes nothing.
  count_from :
      Result RecoveryError (Answer T) → BlockedRecoveryPolicy T → ℕ × BlockedRecoveryPolicy T
  count_from (ok (d, q)) p = (is_begin_retry d.action, q)
  count_from (err e) p = (0, p)

  pub retries : List (Event T) → BlockedRecoveryPolicy T → ℕ × BlockedRecoveryPolicy T
  unfolding count_from
  retries [] p = (0, p)
  retries (e ∷ es) p =
      let (n, q) = count_from (perform e p) p in let (m, u) = retries es q in (n + m, u)

  count_from-Spends :
      (r : Result RecoveryError (Answer T)) (p : BlockedRecoveryPolicy T)
      → SpendsOk p r
      → let (n, q) = count_from r p in
        (q.max_attempts ≡ p.max_attempts)
        × (q.attempt ≡ p.attempt + n)
        × (p.attempt ≤ p.max_attempts → q.attempt ≤ p.max_attempts)
  unfolding count_from
  count_from-Spends (ok r) p h = (h.budget, h.spent, h.within)
  count_from-Spends (err e) p h = (refl, omega arith, λ b. b)

  retries-within :
      (es : List (Event T)) (p : BlockedRecoveryPolicy T)
      → p.attempt ≤ p.max_attempts
      → (p.attempt + (retries es p).0 ≡ (retries es p).1.attempt)
        × ((retries es p).1.attempt ≤ p.max_attempts)
  unfolding retries
  retries-within [] p h = (omega arith, h)
  retries-within (e ∷ es) p h =
      let (n, q) = count_from (perform e p) p in
      let (budget, spent, within) = count_from-Spends (perform e p) p (perform-Spends e p) in
      let (sum, bound) = retries-within es q (omega arith) in (omega arith, omega arith)

  -- From a policy as it is constructed, whatever is observed and however its retries end, no more
  -- retries are begun than `max_attempts`, and `attempt` counts those that were.
  pub retries_bounded :
      (persistence wait : T) (attempts : Option ℕ) (es : List (Event T))
      → let p = create persistence wait attempts in
        ((retries es p).0 ≡ (retries es p).1.attempt) × ((retries es p).0 ≤ p.max_attempts)
  unfolding create
  retries_bounded persistence wait attempts es =
      let p = create persistence wait attempts in
      let (sum, bound) = retries-within es p (omega arith) in (omega arith, omega arith)

  -- What must hold when a retry is begun: the data are fresh, the policy was waiting for the time of
  -- the retry, which has come, and the budget is not used up.
  abbrev pub MayRetry : RecoveryObservation T → BlockedRecoveryPolicy T → Type 0
  MayRetry o p =
      (o.tf_fresh ≡ true)
      × (o.costmap_fresh ≡ true)
      × ((p.state ≡ waiting_retry) ⊎ ((p.state ≡ waiting_data) × (p.resume_state ≡ waiting_retry)))
      × (too_early p.retry_at o.now_s ≡ false)
      × (p.attempt < p.max_attempts)

  abbrev Begins :
      RecoveryState → RecoveryObservation T → BlockedRecoveryPolicy T → Answer T → Type 0
  Begins s o p r =
      r.0.action ≡ begin_retry
      → (s ≡ waiting_retry)
        × (too_early p.retry_at o.now_s ≡ false)
        × (p.attempt < p.max_attempts)
        × (r.1.state ≡ recovering)
        × (r.1.attempt ≡ suc p.attempt)

  classify-quiet :
      (o : RecoveryObservation T) (p : BlockedRecoveryPolicy T)
      → (classify o p).0.action ≢ begin_retry
  unfolding classify
  classify-quiet o p = ground arith

  continue_in-Begins :
      (s : RecoveryState) (o : RecoveryObservation T) (p : BlockedRecoveryPolicy T)
      → Begins s o p (continue_in s o p)
  unfolding continue_in retry answer
  continue_in-Begins waiting_retry o p a = ground arith
  continue_in-Begins needs_operator o p a = cc
  continue_in-Begins recovering o p a = cc
  continue_in-Begins _ o p a = absurd (classify-quiet o p a)

  with_fresh_data-Begins :
      (o : RecoveryObservation T) (p : BlockedRecoveryPolicy T)
      → (with_fresh_data o p).0.action ≡ begin_retry
      → ((p.state ≡ waiting_retry) ⊎ ((p.state ≡ waiting_data) × (p.resume_state ≡ waiting_retry)))
        × (too_early p.retry_at o.now_s ≡ false)
        × (p.attempt < p.max_attempts)
        × ((with_fresh_data o p).1.state ≡ recovering)
        × ((with_fresh_data o p).1.attempt ≡ suc p.attempt)
  unfolding with_fresh_data answer
  with_fresh_data-Begins o p a = ground (
    arith,
    continue_in-Begins p.state o p,
    continue_in-Begins (resumed p.resume_state) o (record p { state = resumed p.resume_state }),
  )

  abbrev ObserveBegins :
      RecoveryObservation T → BlockedRecoveryPolicy T → Result RecoveryError (Answer T) → Type 0
  ObserveBegins o p (ok r) =
      r.0.action ≡ begin_retry
      → MayRetry o p × (r.1.state ≡ recovering) × (r.1.attempt ≡ suc p.attempt)
  ObserveBegins o p (err e) = Unit

  observe-Begins :
      (o : RecoveryObservation T) (p : BlockedRecoveryPolicy T) → ObserveBegins o p (observe o p)
  unfolding observe with_stale_data with_maneuver answer
  observe-Begins o p = ground (arith, with_fresh_data-Begins o p)

  -- An observation begins a retry only where the data are fresh, the policy waits for the time of a
  -- retry, or did before it had to wait for data, that time has come, and the budget is not used up;
  -- the policy is then recovering, with one more attempt.
  pub begin_retry_guards :
      (o : RecoveryObservation T) (p : BlockedRecoveryPolicy T) {d : RecoveryDecision T}
      {q : BlockedRecoveryPolicy T}
      → observe o p ≡ ok (d, q)
      → d.action ≡ begin_retry
      → MayRetry o p × (q.state ≡ recovering) × (q.attempt ≡ suc p.attempt)
  begin_retry_guards o p e a = (rw e at (observe-Begins o p)) a

  -- A policy that waits for an operator stays as it is under every observation, and asks for nothing.
  pub needs_operator_stays :
      (o : RecoveryObservation T) (p : BlockedRecoveryPolicy T)
      → p.state ≡ needs_operator
      → observe o p ≡ ok (decision p o.now_s no_action, p)
  unfolding observe answer
  needs_operator_stays o p e = ground arith
