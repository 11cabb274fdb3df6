-- ===== src/Control/Battery/Guard.antt =====
-- When the guard of a mission goes on and off.
use salus_robot.Prelude.{◌≡◌, ◌⊎◌, Bool, true, false, List, [], ◌∷◌}
use salus_robot.Float
use salus_robot.Float.{Float, nought}
use salus_robot.Control.Battery.{BatteryEstimator, GuardSettings, break_continuity, update}

-- What happens to an estimator.
pub data Event (T : Type 0) : Type 0 where
  sampled : T → T → Bool → Bool → Event T
  interrupted : Event T

module _ {T : Type 0} ⦃F : Float T⦄ where
  abbrev pub perform : Event T → BatteryEstimator T → BatteryEstimator T
  perform (sampled voltage time traction valid) b = (update voltage time traction valid b).1
  perform interrupted b = break_continuity b

  pub run : List (Event T) → BatteryEstimator T → BatteryEstimator T
  run [] b = b
  run (e ∷ es) b = run es (perform e b)

  -- The guard is off while the voltage has not been low for its time, and on while it has not been
  -- high for its time; nothing counts towards a release while the guard is off.
  pub record Watched (s : GuardSettings T) (b : BatteryEstimator T) : Type 0 where
    home_voltage : b.return_home_voltage_v ≡ s.return_home_voltage_v
    home_persist : b.return_home_persist_s ≡ Float.max nought s.return_home_persist_s
    clear_voltage :
        b.guard_clear_voltage_v ≡ Float.max s.return_home_voltage_v s.guard_clear_voltage_v
    clear_persist : b.guard_clear_persist_s ≡ Float.max nought s.guard_clear_persist_s
    off :
        (b.mission_guard_latched ≡ true)
        ⊎ ((F.le b.return_home_persist_s b.low_elapsed_s ≡ false) × (b.clear_elapsed_s ≡ nought))
    on :
        (b.mission_guard_latched ≡ false) ⊎ (F.le b.guard_clear_persist_s b.clear_elapsed_s ≡ false)

  -- What an event does to the guard: a valid sample of a low voltage may put it on, one of a high
  -- voltage may take it off, and an interruption leaves it.
  abbrev pub Change : GuardSettings T → Event T → BatteryEstimator T → BatteryEstimator T → Type 0
  Change s (sampled voltage time traction valid) b c =
      (c.mission_guard_latched ≡ b.mission_guard_latched)
      ⊎ ((c.mission_guard_latched ≡ true)
          × (valid ≡ true)
          × (F.le voltage s.return_home_voltage_v ≡ true))
      ⊎ ((c.mission_guard_latched ≡ false)
          × (valid ≡ true)
          × (F.le (Float.max s.return_home_voltage_v s.guard_clear_voltage_v) voltage ≡ true))
  Change s interrupted b c = c.mission_guard_latched ≡ b.mission_guard_latched
