-- ===== src/Navigation/BatteryInput/Precedence.antt =====
-- Once a guard was trusted, the state of charge asks for no return.
use salus_robot.Prelude.{
  ◌≡◌, refl, sym, ap, ◌∙◌, ◌⊎◌, inl, inr, Option-cases, Bool-cases, true, false, Option, some,
  String, List, [], ◌∷◌, arith,
}
use salus_robot.Prelude.Text.{is_in}
use salus_robot.Float.{Float, nought}
use salus_robot.Navigation.BatteryInput.{
  GuardInput, is_recommended, latch, report, is_recent, guard_valid_at, BatteryReturnDecision,
  PatrolBatteryInputPolicy, Call, begins, ends, guards, charges, evaluates, begin_mission,
  end_mission, evaluate, guard_valid, ingest_guard, ingest_soc, perform, mission_guard, no_source,
}

module _ {T : Type 0} ⦃F : Float T⦄ where
  -- The guard on record is ready and fresh, in no state that takes it out of use, and was received
  -- at most the time-out before `now` and not after it.
  abbrev pub Trusted : T → PatrolBatteryInputPolicy T → GuardInput T → Type 0
  Trusted now p g =
      (p.guard ≡ some g)
      × (g.ready ≡ true)
      × (g.fresh ≡ true)
      × (is_in g.state ("STALE" ∷ "SUSPECT" ∷ "UNAVAILABLE" ∷ []) ≡ false)
      × (F.le nought (F.sub now g.received_s) ≡ true)
      × (F.le (F.sub now g.received_s) p.guard_timeout_s ≡ true)

  -- A decision at a time, with the policy that it leaves: by a guard that is trusted then, which
  -- recommends the return where one is newly asked for; or by nothing, and then for nothing new.
  abbrev pub ByGuard : T → PatrolBatteryInputPolicy T → BatteryReturnDecision → Type 0
  ByGuard now p d =
      ((d.source ≡ mission_guard)
        × (g : GuardInput T) × Trusted now p g
        × ((d.newly_latched ≡ false) ⊎ (g.recommended ≡ true)))
      ⊎ ((d.source ≡ no_source) × (d.newly_latched ≡ false))

  -- What a call decides, at its time.
  abbrev pub NoFallback :
      Call T → Option BatteryReturnDecision × PatrolBatteryInputPolicy T → Type 0
  NoFallback (guards g now) (some d, p) = ByGuard now p d
  NoFallback (charges present percentage now) (some d, p) = ByGuard now p d
  NoFallback (evaluates now) (some d, p) = ByGuard now p d
  NoFallback _ _ = Unit {0}

  guard_valid-Trusted :
      (now : T) (p : PatrolBatteryInputPolicy T)
      → guard_valid now p ≡ true
      → (g : GuardInput T) × Trusted now p g
  unfolding guard_valid guard_valid_at is_recent
  guard_valid-Trusted now p h = elim (Option-cases p.guard) [
    | inl e ↦ absurd (ground (arith, h, e))
    | inr (g, e) ↦ (
      g,
      (
        e,
        ground (arith, h, e),
        ground (arith, h, e),
        ground (arith, h, e),
        ground (arith, h, e),
        ground (arith, h, e),
      ),
    )
  ]

module _ {T : Type 0} ⦃F : Float T⦄ (upper : String → String) where
  abbrev pub NoFallbacks : List (Call T) → PatrolBatteryInputPolicy T → Type 0
  NoFallbacks [] p = Unit {0}
  NoFallbacks (call ∷ calls) p =
      NoFallback call (perform upper call p) × NoFallbacks calls (perform upper call p).1

  evaluate-ByGuard :
      (now : T) (p : PatrolBatteryInputPolicy T)
      → p.valid_guard_seen ≡ true
      → ByGuard now (evaluate now p).1 (evaluate now p).0
        × ((evaluate now p).1.valid_guard_seen ≡ true)
  unfolding evaluate latch report
  evaluate-ByGuard now p h = elim (Bool-cases (guard_valid now p)) [
    | inr e ↦ ground (arith, e)
    | inl e ↦
        let (g, trusted) = guard_valid-Trusted now p e in
        elim (Bool-cases (is_recommended p.guard)) [
          | inr f ↦ rw (evaluate, e, f) (inl (refl, g, trusted, inl refl), refl)
          | inl f ↦
              rw (evaluate, e, f)
                (inl (refl, g, trusted, inr (sym (ap is_recommended trusted.0) ∙ f)), refl)
        ]
  ]

  perform-NoFallback :
      (call : Call T) (p : PatrolBatteryInputPolicy T)
      → p.valid_guard_seen ≡ true
      → NoFallback call (perform upper call p) × ((perform upper call p).1.valid_guard_seen ≡ true)
  unfolding begin_mission end_mission ingest_guard ingest_soc
  perform-NoFallback begins p h = (tt, h)
  perform-NoFallback ends p h = (tt, h)
  perform-NoFallback (guards g now) p h = evaluate-ByGuard now _ h
  perform-NoFallback (charges present percentage now) p h = evaluate-ByGuard now _ h
  perform-NoFallback (evaluates now) p h = evaluate-ByGuard now p h

  seen-NoFallbacks :
      (calls : List (Call T)) (p : PatrolBatteryInputPolicy T)
      → p.valid_guard_seen ≡ true
      → NoFallbacks calls p
  seen-NoFallbacks [] p h = tt
  seen-NoFallbacks (call ∷ calls) p h =
      let (first, seen) = perform-NoFallback call p h in
      (first, seen-NoFallbacks calls (perform upper call p).1 seen)

  evaluate-seen :
      (now : T) (p : PatrolBatteryInputPolicy T)
      → guard_valid now p ≡ true
      → (evaluate now p).1.valid_guard_seen ≡ true
  unfolding evaluate
  evaluate-seen now p h = ground arith

  -- After an evaluation at which the guard was valid, in this mission and in every later one, no
  -- call decides by the state of charge: it decides by a guard that is ready, fresh and in use and
  -- came within the time-out before the call, and that recommends the return where one is newly
  -- asked for; or it names no source and asks for nothing new.
  pub guard_precedence :
      (now : T) (p : PatrolBatteryInputPolicy T) (calls : List (Call T))
      → guard_valid now p ≡ true
      → NoFallbacks calls (evaluate now p).1
  guard_precedence now p calls h = seen-NoFallbacks calls (evaluate now p).1 (evaluate-seen now p h)
