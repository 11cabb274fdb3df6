-- ===== src/Esp32/Command/Frame.antt =====
-- What the command frame of `encode_pi_frame` says, read byte by byte.
use salus_robot.Prelude.{
  ℕ, ap, ◌∙◌, inl, inr, Bool-cases, true, Option, none, some, ◌++◌, take, ◌+◌, ◌-◌, ◌*◌, ◌/◌, ◌<◌,
  ◌≡◌, refl, false, List, [], ◌∷◌, arith, ltb, length, bit_and, bit_or, if◌then◌else◌,
}
use salus_robot.Prelude.Int.{ℤ, pos, negsuc, pos_part, max_ℤ, min_ℤ, ◌≤ℤ◌}
use salus_robot.Float.{Float, nought}
use salus_robot.Esp32.Crc.{crc8_maxim, crc8_maxim-lt}
use salus_robot.Esp32.Telemetry.{flag}
use salus_robot.Esp32.Decode.{byte}
use salus_robot.Esp32.Command.{
  CommandState, clamp_ℤ, low_byte, safe_reset, command_flags, speed_centi_mps, pi_body,
  encode_pi_frame,
}

-- The integer whose two's complement byte is given.
abbrev pub signed_byte : ℕ → ℤ
signed_byte b = if ltb b 128 then pos b else negsuc (255 - b)

signed_byte-low_byte : (z : ℤ) → negsuc 127 ≤ℤ z → z ≤ℤ pos 127 → signed_byte (low_byte z) ≡ z
unfolding low_byte
signed_byte-low_byte (pos n) h k = ground arith
signed_byte-low_byte (negsuc n) h k = ground arith

low_byte-lt : (z : ℤ) → low_byte z < 256
unfolding low_byte
low_byte-lt (pos n) = omega arith
low_byte-lt (negsuc n) = omega arith

steer_byte :
    (z : ℤ)
    → signed_byte (low_byte (clamp_ℤ z (negsuc 99) (pos 100))) ≡ clamp_ℤ z (negsuc 99) (pos 100)
steer_byte z = signed_byte-low_byte (clamp_ℤ z (negsuc 99) (pos 100)) (ground arith) (ground arith)

brake_byte :
    (z : ℤ)
    → (pos (pos_part (clamp_ℤ z (pos 0) (pos 100))) ≡ clamp_ℤ z (pos 0) (pos 100))
      × (pos_part (clamp_ℤ z (pos 0) (pos 100)) < 256)
brake_byte z = ground arith

-- Bytes of a frame.
abbrev pub AllBytes : List ℕ → Type 0
AllBytes [] = Unit
AllBytes (b ∷ bs) = (b < 256) × AllBytes bs

module _ {T : Type 0} ⦃F : Float T⦄ (s : CommandState T) where
  flags_lem :
      let b = bit_or (bit_and 2 0x0f * 16) (bit_and (command_flags s) 0x0f) in
      (b < 256)
      × (b / 16 ≡ 2)
      × (flag b 0 ≡ s.estop)
      × (flag b 1 ≡ s.drive_enabled)
      × (flag b 2 ≡ F.lt s.speed_mps nought)
      × (flag b 3 ≡ s.hazard_enabled)
  unfolding command_flags
  flags_lem = ground arith

  -- The magnitude of the speed in centimetres per second, rounded and capped to 16 bits.
  abbrev pub capped_speed : ℤ
  capped_speed =
      max_ℤ (pos 0) (min_ℤ (pos 65535) (F.round (F.mul (F.abs s.speed_mps) (F.decimal 100 0))))

  -- What the seven bytes of a frame say.
  abbrev pub Says : List ℕ → Type 0
  Says f =
      (length f ≡ 7)
      × AllBytes f
      × (byte f 0 ≡ 0xaa)
      × (byte f 1 / 16 ≡ 2)
      × (flag (byte f 1) 0 ≡ s.estop)
      × (flag (byte f 1) 1 ≡ s.drive_enabled)
      × (flag (byte f 1) 2 ≡ F.lt s.speed_mps nought)
      × (flag (byte f 1) 3 ≡ s.hazard_enabled)
      × (signed_byte (byte f 2) ≡ clamp_ℤ s.steer_pct (negsuc 99) (pos 100))
      × (pos (byte f 3 + 256 * byte f 4) ≡ capped_speed)
      × (pos (byte f 5) ≡ clamp_ℤ s.brake_pct (pos 0) (pos 100))
      × (byte f 6 ≡ crc8_maxim (take 6 f))

  -- A frame where the speed is finite in centimetres per second, and else none.
  abbrev pub IsFrame : Option (List ℕ) → Type 0
  IsFrame none = F.finite (F.mul (F.abs s.speed_mps) (F.decimal 100 0)) ≡ false
  IsFrame (some f) = (F.finite (F.mul (F.abs s.speed_mps) (F.decimal 100 0)) ≡ true) × Says f

  body-Says :
      (centi : ℕ)
      → pos centi ≡ capped_speed
      → Says (pi_body s centi ++ crc8_maxim (pi_body s centi) ∷ [])
  unfolding pi_body
  body-Says centi h =
      let (fits, version, estop, drive, reverse, hazard) = flags_lem in
      let bound : centi < 65536 = ground (arith, h) in
      (
        refl,
        (
          omega arith,
          (
            fits,
            (
              low_byte-lt (clamp_ℤ s.steer_pct (negsuc 99) (pos 100)),
              (
                omega arith,
                (omega arith, ((brake_byte s.brake_pct).1, (crc8_maxim-lt (pi_body s centi), tt))),
              ),
            ),
          ),
        ),
        refl,
        version,
        estop,
        drive,
        reverse,
        hazard,
        steer_byte s.steer_pct,
        ap pos (omega (arith, bound)) ∙ h,
        (brake_byte s.brake_pct).0,
        refl,
      )

  -- A command frame is seven bytes that say version 2, the four flags of the state, its steering
  -- and brake within their ranges, the magnitude of its speed in centimetres per second, rounded and
  -- capped to 16 bits, and the checksum of the first six bytes; an exception is raised, and there is
  -- no frame, exactly where that magnitude is not finite.
  pub encode_fields : IsFrame (encode_pi_frame s)
  unfolding encode_pi_frame speed_centi_mps
  encode_fields =
      let product = F.mul (F.abs s.speed_mps) (F.decimal 100 0) in
      elim (Bool-cases (F.finite product)) [
        | inr e ↦ rw (encode_pi_frame, e) e
        | inl e ↦ rw (encode_pi_frame, e) (e, body-Says (pos_part capped_speed) (ground arith))
      ]

  -- `safe_reset` asks for a frame with no motion, no steering, no brake and no flag but the version,
  -- where 0.0 is not less than itself.
  safe_reset_frame :
      F.lt nought nought ≡ false → pi_body (safe_reset s) 0 ≡ 0xaa ∷ 0x20 ∷ 0 ∷ 0 ∷ 0 ∷ 0 ∷ []
  unfolding pi_body safe_reset low_byte
  safe_reset_frame irreflexive = ground arith
