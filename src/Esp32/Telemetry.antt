-- ===== src/Esp32/Telemetry.antt =====
-- telemetry.py: what a received frame says.
use salus_robot.Prelude.{ℕ, ◌/◌, ◌^◌, Bool, Option, bit_and, not, ◌==◌, if◌then◌else◌}
use salus_robot.Prelude.Int.{ℤ}

pub data ControlSource : Type 0 where
  none_source pi rc tel : ControlSource

pub record Telemetry (T : Type 0) : Type 0 where
  pub status_flags : ℕ
  pub speed_mps : Option T
  pub steer_deg : Option T
  pub brake_applied_pct : ℕ
  pub raw_speed_centi_mps : ℕ
  pub raw_steer_centi_deg : ℤ
  pub rx_monotonic_s : T

pub record BatteryTelemetry (T : Type 0) : Type 0 where
  pub status_flags : ℕ
  pub battery_voltage_v : T
  pub adc_pin_voltage_v : T
  pub sample_age_s : T
  pub raw_battery_centi_volts : ℕ
  pub raw_adc_pin_mv : ℕ
  pub raw_sample_age_ds : ℕ
  pub rx_monotonic_s : T

-- `bool(flags & (1 << k))`
abbrev pub flag : ℕ → ℕ → Bool
flag flags k = not (bit_and flags (2 ^ k) == 0)

abbrev source_of : ℕ → ControlSource
source_of n = if n == 0 then none_source else if n == 1 then pi else if n == 2 then rc else tel

module _ {T : Type 0} (t : Telemetry T) where
  unfoldable pub ready : Bool
  ready = flag t.status_flags 0

  unfoldable pub estop_active : Bool
  estop_active = flag t.status_flags 1

  unfoldable pub failsafe_active : Bool
  failsafe_active = flag t.status_flags 2

  unfoldable pub pi_fresh : Bool
  pi_fresh = flag t.status_flags 3

  unfoldable pub control_source : ControlSource
  control_source = source_of (bit_and (t.status_flags / 16) 3)

  unfoldable pub overspeed_active : Bool
  overspeed_active = flag t.status_flags 6

module _ {T : Type 0} (t : BatteryTelemetry T) where
  unfoldable pub battery_ready : Bool
  battery_ready = flag t.status_flags 0

  unfoldable pub fresh : Bool
  fresh = flag t.status_flags 1

  unfoldable pub suspect : Bool
  suspect = flag t.status_flags 2

  unfoldable pub calibrated : Bool
  calibrated = flag t.status_flags 3
