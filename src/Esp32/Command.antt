-- ===== src/Esp32/Command.antt =====
-- `CommandState` of controller.py and `encode_pi_frame` of protocol.py.
pub mod Frame
use salus_robot.Prelude.{
  ℕ, ◌-◌, ◌*◌, ◌/◌, ◌%◌, Bool, false, Option, none, some, List, [], ◌∷◌, ◌++◌, bit_and, bit_or,
  if◌then◌else◌,
}
use salus_robot.Prelude.Int.{ℤ, pos, negsuc, pos_part, max_ℤ, min_ℤ}
use salus_robot.Float
use salus_robot.Float.{Float, nought}
use salus_robot.Esp32.Crc.{crc8_maxim}

pub record CommandState (T : Type 0) : Type 0 where
  pub drive_enabled : Bool
  pub estop : Bool
  pub hazard_enabled : Bool
  pub steer_pct : ℤ
  pub speed_mps : T
  pub brake_pct : ℤ
  pub max_speed_mps : T
  pub max_reverse_mps : T

-- `_clamp` at integers: `max(low, min(high, value))`.
abbrev pub clamp_ℤ : ℤ → ℤ → ℤ → ℤ
clamp_ℤ value low high = max_ℤ low (min_ℤ high value)

-- `z & 0xFF`: the two's complement byte of an integer.
unfoldable pub low_byte : ℤ → ℕ
low_byte (pos n) = n % 256
low_byte (negsuc n) = 255 - n % 256

-- `flags |= bit` under a test.
abbrev or_if : Bool → ℕ → ℕ → ℕ
or_if test bit flags = if test then bit_or flags bit else flags

module _ {T : Type 0} ⦃F : Float T⦄ where
  unfoldable pub set_speed_mps : T → CommandState T → T × CommandState T
  set_speed_mps value s =
      let clamped = Float.max (F.neg s.max_reverse_mps) (Float.min s.max_speed_mps value) in
      (clamped, record s { speed_mps = clamped })

  unfoldable pub set_steer_pct : ℤ → CommandState T → ℤ × CommandState T
  set_steer_pct value s =
      let clamped = clamp_ℤ value (negsuc 99) (pos 100) in
      (clamped, record s { steer_pct = clamped })

  unfoldable pub set_brake_pct : ℤ → CommandState T → ℤ × CommandState T
  set_brake_pct value s =
      let clamped = clamp_ℤ value (pos 0) (pos 100) in (clamped, record s { brake_pct = clamped })

  unfoldable pub set_drive_enabled : Bool → CommandState T → CommandState T
  set_drive_enabled enabled s = record s { drive_enabled = enabled }

  unfoldable pub set_estop : Bool → CommandState T → CommandState T
  set_estop enabled s = record s { estop = enabled }

  unfoldable pub set_hazard_enabled : Bool → CommandState T → CommandState T
  set_hazard_enabled enabled s = record s { hazard_enabled = enabled }

  unfoldable pub safe_reset : CommandState T → CommandState T
  safe_reset s = record s {
    drive_enabled = false;
    estop = false;
    hazard_enabled = false;
    speed_mps = nought;
    steer_pct = pos 0;
    brake_pct = pos 0;
  }

  unfoldable pub command_flags : CommandState T → ℕ
  command_flags s =
      let flags = or_if s.hazard_enabled 8 (or_if s.drive_enabled 2 (or_if s.estop 1 0)) in
      or_if (F.lt s.speed_mps nought) 4 flags

  -- `none` where `round` raises, for a product that is not finite.
  unfoldable pub speed_centi_mps : CommandState T → Option ℕ
  speed_centi_mps s =
      let product = F.mul (F.abs s.speed_mps) (F.decimal 100 0) in
      if F.finite product
      then some (pos_part (max_ℤ (pos 0) (min_ℤ (pos 65535) (F.round product))))
      else none

  -- The first six bytes of the frame, with the speed.
  unfoldable pub pi_body : CommandState T → ℕ → List ℕ
  unfolding command_flags
  pi_body s centi =
      0xaa
      ∷ bit_or (bit_and 2 0x0f * 16) (bit_and (command_flags s) 0x0f)
      ∷ low_byte (clamp_ℤ s.steer_pct (negsuc 99) (pos 100))
      ∷ (centi % 256)
      ∷ (centi / 256 % 256)
      ∷ pos_part (clamp_ℤ s.brake_pct (pos 0) (pos 100))
      ∷ []

  -- The frame, or `none` where an exception is raised.
  unfoldable pub encode_pi_frame : CommandState T → Option (List ℕ)
  unfolding speed_centi_mps pi_body
  encode_pi_frame s = elim (speed_centi_mps s) [
    | none ↦ none
    | some centi ↦ some (pi_body s centi ++ crc8_maxim (pi_body s centi) ∷ [])
  ]
