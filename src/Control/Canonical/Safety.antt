-- ===== src/Control/Canonical/Safety.antt =====
-- What the consumer lets through, over any sequence of samples and ticks.
use mathlib.Core.Path.{subst}
use salus_robot.Prelude.{
  ap, sym, Option-cases, ◌∙◌, ◌++◌, append_assoc, Bool-cases, ◌≡◌, ◌⊎◌, refl, inl, inr, Bool, true,
  false, Option, none, some, List, [], ◌∷◌, arith,
}
use salus_robot.Prelude.Int.{ℤ}
use salus_robot.Prelude.Result.{Result, ok, err, Result-cases}
use salus_robot.Float
use salus_robot.Float.{Float, nought, one}
use salus_robot.Control.Canonical.{
  CanonicalCommandConfig, CanonicalCommandSample, EffectiveCanonicalCommand,
  CanonicalCommandConsumer, Reason, safe_effective_command, effective_of, settle, invalid_reason,
  new, ingest, tick,
}

pub data Call (T : Type 0) : Type 0 where
  samples : CanonicalCommandSample T → ℤ → T → Call T
  ticks : T → Call T

abbrev result_or : {E A : Type 0} → A → Result E A → A
result_or a (ok b) = b
result_or a (err e) = a

module _ {T : Type 0} ⦃F : Float T⦄ where
  -- What a call leaves; one that raises leaves the consumer as it was.
  unfoldable pub perform : Call T → CanonicalCommandConsumer T → CanonicalCommandConsumer T
  perform (samples s ros_now now) c = result_or c (ingest s ros_now now c)
  perform (ticks now) c = tick now c

  unfoldable pub perform_all :
      List (Call T) → CanonicalCommandConsumer T → CanonicalCommandConsumer T
  perform_all [] c = c
  perform_all (call ∷ calls) c = perform_all calls (perform call c)

  -- A command stands still with the brake full, or is within the limits.
  abbrev pub WithinLimits : CanonicalCommandConfig T → EffectiveCanonicalCommand T → Type 0
  WithinLimits limits e =
      ((e.speed_mps ≡ nought)
        ⊎ ((F.le (F.neg limits.max_reverse_speed_mps) e.speed_mps ≡ true)
            × (F.le e.speed_mps limits.max_forward_speed_mps ≡ true)))
      × ((e.steering_angle_rad ≡ nought)
          ⊎ (F.lt limits.max_steering_angle_rad (F.abs e.steering_angle_rad) ≡ false))
      × ((e.brake_ratio ≡ one)
          ⊎ ((F.le nought e.brake_ratio ≡ true) × (F.le e.brake_ratio one ≡ true)))

  -- Unless it may drive, a command asks for no speed and no steering.
  abbrev pub StandsStill : EffectiveCanonicalCommand T → Type 0
  StandsStill e =
      (e.drive_enabled ≡ true) ⊎ ((e.speed_mps ≡ nought) × (e.steering_angle_rad ≡ nought))

  -- An emergency stop brakes fully and does not drive.
  abbrev pub Stops : EffectiveCanonicalCommand T → Type 0
  Stops e = (e.emergency_stop ≡ false) ⊎ ((e.drive_enabled ≡ false) × (e.brake_ratio ≡ one))

  abbrev pub has_time : Option T → Bool
  has_time none = false
  has_time (some t) = true

  -- The command in effect is safe, and a valid one has a time of arrival for the watchdog.
  pub record IsSafe (limits : CanonicalCommandConfig T) (c : CanonicalCommandConsumer T)
      : Type 0 where
    pub same_config : c.config ≡ limits
    pub within : WithinLimits limits c.effective
    pub still : StandsStill c.effective
    pub stops : Stops c.effective
    pub watched : (c.effective.valid ≡ false) ⊎ (has_time c.received_at_s ≡ true)

  perform-IsSafe :
      (limits : CanonicalCommandConfig T) (call : Call T) (c : CanonicalCommandConsumer T)
      → IsSafe limits c
      → IsSafe limits (perform call c)
  unfolding perform ingest tick
  perform-IsSafe limits (samples s ros_now now) c h = ground (arith, h.same_config)
  perform-IsSafe limits (ticks now) c h =
      ground (arith, h.same_config, h.within, h.still, h.stops, h.watched)

  canonical_new-IsSafe : (limits : CanonicalCommandConfig T) → IsSafe limits (new limits)
  unfolding new
  canonical_new-IsSafe limits = ground arith

  perform_all-IsSafe :
      (limits : CanonicalCommandConfig T) (calls : List (Call T)) (c : CanonicalCommandConsumer T)
      → IsSafe limits c
      → IsSafe limits (perform_all calls c)
  unfolding perform_all
  perform_all-IsSafe limits [] c h = h
  perform_all-IsSafe limits (call ∷ calls) c h =
      perform_all-IsSafe limits calls (perform call c) (perform-IsSafe limits call c h)

  -- After any samples and ticks the command in effect keeps the limits of the configuration in
  -- speed, steering and brake, stands still where it may not drive, brakes fully in an emergency
  -- stop, and has a time of arrival if it is valid.
  pub canonical_calls-IsSafe :
      (limits : CanonicalCommandConfig T) (calls : List (Call T))
      → IsSafe limits (perform_all calls (new limits))
  canonical_calls-IsSafe limits calls =
      perform_all-IsSafe limits calls (new limits) (canonical_new-IsSafe limits)

  -- The command in effect is that of a sample, which came at a time and is valid for a while.
  abbrev Takes :
      CanonicalCommandConfig T → CanonicalCommandSample T → T → CanonicalCommandConsumer T → Type 0
  Takes limits s t c =
      (c.received_at_s ≡ some t)
      × (c.validity_s ≡ Float.min s.valid_for_s limits.max_valid_for_s)
      × (c.effective ≡ effective_of s)

  -- After calls, the command in effect is invalid or that of a sample among them.
  abbrev Watched : CanonicalCommandConfig T → List (Call T) → CanonicalCommandConsumer T → Type 0
  Watched limits calls c =
      (c.effective.valid ≡ false)
      ⊎ ((s : CanonicalCommandSample T) × (ros_now : ℤ) × (t : T) × (before after : List (Call T))
          × (calls ≡ before ++ samples s ros_now t ∷ after)
          × Takes limits s t c)

  Watched-append :
      (limits : CanonicalCommandConfig T) (calls more : List (Call T))
      (c : CanonicalCommandConsumer T)
      → Watched limits calls c
      → Watched limits (calls ++ more) c
  Watched-append limits calls more c (inl h) = inl h
  Watched-append limits calls more c (inr (s, ros_now, t, before, after, e, takes)) = inr (
    s,
    ros_now,
    t,
    before,
    after ++ more,
    ap (λ cs. cs ++ more) e ∙ append_assoc before (samples s ros_now t ∷ after) more,
    takes,
  )

  tick_idle : (now : T) (c : CanonicalCommandConsumer T) → c.received_at_s ≡ none → tick now c ≡ c
  unfolding tick
  tick_idle now c h = simp (tick, h) refl

  tick_kept :
      (now t : T) (c : CanonicalCommandConsumer T)
      → c.received_at_s ≡ some t
      → F.lt c.validity_s (F.sub now t) ≡ false
      → tick now c ≡ c
  unfolding tick
  tick_kept now t c h e = simp (tick, h, e) refl

  tick_late :
      (now t : T) (c : CanonicalCommandConsumer T)
      → c.received_at_s ≡ some t
      → F.lt c.validity_s (F.sub now t) ≡ true
      → (tick now c).effective.valid ≡ false
  unfolding tick
  tick_late now t c h e = rw (tick, h, e) refl

  tick-Watched :
      (limits : CanonicalCommandConfig T) (calls : List (Call T)) (now : T)
      (c : CanonicalCommandConsumer T)
      → Watched limits calls c
      → Watched limits calls (tick now c)
  tick-Watched limits calls now c w = elim (Option-cases c.received_at_s) [
    | inl e ↦ subst (Watched limits calls) (sym (tick_idle now c e)) w
    | inr (t, e) ↦ elim (Bool-cases (F.lt c.validity_s (F.sub now t))) [
      | inl late ↦ inl (tick_late now t c e late)
      | inr fresh ↦ subst (Watched limits calls) (sym (tick_kept now t c e fresh)) w
    ]
  ]

  settle-Watched :
      (limits : CanonicalCommandConfig T) (calls : List (Call T)) (s : CanonicalCommandSample T)
      (ros_now : ℤ) (t : T) (reason : Option Reason) (c : CanonicalCommandConsumer T)
      → c.config ≡ limits
      → Watched limits (calls ++ samples s ros_now t ∷ []) (settle s t reason c)
  unfolding settle
  settle-Watched limits calls s ros_now t (some reason) c h = inl refl
  settle-Watched limits calls s ros_now t none c h = inr (
    s,
    ros_now,
    t,
    calls,
    [],
    refl,
    (refl, ap (λ l. Float.min s.valid_for_s l.max_valid_for_s) h, refl),
  )

  perform-Watched :
      (limits : CanonicalCommandConfig T) (calls : List (Call T)) (call : Call T)
      (c : CanonicalCommandConsumer T)
      → c.config ≡ limits
      → Watched limits calls c
      → Watched limits (calls ++ call ∷ []) (perform call c)
  unfolding perform ingest
  perform-Watched limits calls (samples s ros_now t) c h w =
      elim (Result-cases (invalid_reason s ros_now c)) [
        | inl (reason, e) ↦ rw e (settle-Watched limits calls s ros_now t reason c h)
        | inr (raised, e) ↦ rw e (Watched-append limits calls (samples s ros_now t ∷ []) c w)
      ]
  perform-Watched limits calls (ticks now) c h w =
      Watched-append limits calls (ticks now ∷ []) (tick now c) (tick-Watched limits calls now c w)

  perform_all-Watched :
      (limits : CanonicalCommandConfig T) (before calls : List (Call T))
      (c : CanonicalCommandConsumer T)
      → IsSafe limits c
      → Watched limits before c
      → Watched limits (before ++ calls) (perform_all calls c)
  unfolding perform_all
  perform_all-Watched limits before [] c h w = Watched-append limits before [] c w
  perform_all-Watched limits before (call ∷ calls) c h w =
      subst (λ cs. Watched limits cs (perform_all calls (perform call c)))
        (append_assoc before (call ∷ []) calls)
        (perform_all-Watched limits (before ++ call ∷ []) calls (perform call c)
          (perform-IsSafe limits call c h) (perform-Watched limits before call c h.same_config w))

  -- At a time the command in effect is invalid, or it is the command of a sample among the calls,
  -- which came no longer ago than the sample is valid for, by the limit of the configuration.
  abbrev pub InTime :
      T → CanonicalCommandConfig T → List (Call T) → CanonicalCommandConsumer T → Type 0
  InTime now limits calls c =
      (c.effective.valid ≡ false)
      ⊎ ((s : CanonicalCommandSample T) × (ros_now : ℤ) × (t : T) × (before after : List (Call T))
          × (calls ≡ before ++ samples s ros_now t ∷ after)
          × (c.effective ≡ effective_of s)
          × (F.lt (Float.min s.valid_for_s limits.max_valid_for_s) (F.sub now t) ≡ false))

  tick-InTime :
      (limits : CanonicalCommandConfig T) (calls : List (Call T)) (now : T)
      (c : CanonicalCommandConsumer T)
      → Watched limits calls c
      → InTime now limits calls (tick now c)
  unfolding tick safe_effective_command
  tick-InTime limits calls now c (inl invalid) = inl (ground (arith, invalid))
  tick-InTime limits calls now c (inr (s, ros_now, t, before, after, e, takes)) =
      elim (Bool-cases (F.lt c.validity_s (F.sub now t))) [
        | inl late ↦ inl (tick_late now t c takes.0 late)
        | inr fresh ↦ inr (
          s,
          ros_now,
          t,
          before,
          after,
          e,
          ap (λ n. n.effective) (tick_kept now t c takes.0 fresh) ∙ takes.2,
          subst (λ v. F.lt v (F.sub now t) ≡ false) takes.1 fresh,
        )
      ]

  -- After any samples and ticks, a tick leaves a command that is invalid, or that is the command of
  -- one of the samples, which came no longer before the time of the tick than the lesser of the time
  -- that the sample is valid for and the limit of the configuration.
  pub tick_watches :
      (limits : CanonicalCommandConfig T) (calls : List (Call T)) (now : T)
      → InTime now limits calls (tick now (perform_all calls (new limits)))
  tick_watches limits calls now = tick-InTime limits calls now (perform_all calls (new limits)) (
      perform_all-Watched limits [] calls (new limits) (canonical_new-IsSafe limits)
        (unfold new in inl refl))
