-- ===== src/Navigation/BatteryInput/Latch.antt =====
-- A return is asked for once in a mission.
use salus_robot.Prelude.{
  ℕ, ◌+◌, ◌≡◌, Bool, true, false, Option, none, some, String, List, [], ◌∷◌, arith, if◌then◌else◌,
}
use salus_robot.Float.{Float}
use salus_robot.Navigation.BatteryInput.{
  BatteryReturnDecision, PatrolBatteryInputPolicy, Call, begins, ends, guards, charges, evaluates,
  begin_mission, end_mission, evaluate, ingest_guard, ingest_soc, perform,
}

-- Whether a call asks for a return for the first time, as a number.
abbrev asked : Option BatteryReturnDecision → ℕ
asked none = 0
asked (some d) = if d.newly_latched then 1 else 0

abbrev pub as_number : Bool → ℕ
as_number true = 1
as_number false = 0

module _ {T : Type 0} ⦃F : Float T⦄ (upper : String → String) where
  -- A call that neither begins nor ends a mission.
  abbrev pub within : Call T → Bool
  within begins = false
  within ends = false
  within _ = true

  pub requests : List (Call T) → PatrolBatteryInputPolicy T → ℕ
  requests [] p = 0
  requests (call ∷ calls) p =
      asked (perform upper call p).0 + requests calls (perform upper call p).1

  pub after : List (Call T) → PatrolBatteryInputPolicy T → PatrolBatteryInputPolicy T
  after [] p = p
  after (call ∷ calls) p = after calls (perform upper call p).1

  abbrev pub Within : List (Call T) → Type 0
  Within [] = Unit {0}
  Within (call ∷ calls) = (within call ≡ true) × Within calls

  evaluate-asked :
      (now : T) (p : PatrolBatteryInputPolicy T)
      → asked (some (evaluate now p).0) + as_number p.return_latched
        ≡ as_number (evaluate now p).1.return_latched
  unfolding evaluate
  evaluate-asked now p = ground arith

  perform-asked :
      (call : Call T) (p : PatrolBatteryInputPolicy T)
      → within call ≡ true
      → asked (perform upper call p).0 + as_number p.return_latched
        ≡ as_number (perform upper call p).1.return_latched
  unfolding begin_mission end_mission ingest_guard ingest_soc
  perform-asked begins p h = absurd (ground (arith, h))
  perform-asked ends p h = absurd (ground (arith, h))
  perform-asked (guards g now) p h = evaluate-asked now _
  perform-asked (charges present percentage now) p h = evaluate-asked now _
  perform-asked (evaluates now) p h = evaluate-asked now p

  -- Within a mission a return is asked for by one call at most, by none once it was latched, and by
  -- one exactly if the latch, which was off, is on at the end.
  pub latched_once :
      (calls : List (Call T)) (p : PatrolBatteryInputPolicy T)
      → Within calls
      → requests calls p + as_number p.return_latched ≡ as_number (after calls p).return_latched
  unfolding requests after
  latched_once [] p h = omega arith
  latched_once (call ∷ calls) p h =
      omega (arith, perform-asked call p h.0, latched_once calls (perform upper call p).1 h.1)
