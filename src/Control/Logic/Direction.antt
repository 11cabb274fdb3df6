-- ===== src/Control/Logic/Direction.antt =====
-- The direction and the size of the speed that a velocity command gets.
use salus_robot.Prelude.{◌≡◌, ◌⊎◌, true, false, arith}
use salus_robot.Prelude.Int.{ℤ, pos, ◌≤ℤ◌}
use salus_robot.Float
use salus_robot.Float.{Float, nought}
use salus_robot.Control.Logic.{VehicleLimits, clamp, speed_of, command_from_cmd_vel}

module _ {T : Type 0} ⦃F : Float T⦄ where
  -- No speed, or one that goes where the velocity goes and keeps the limit of that direction.
  abbrev pub Follows : T → VehicleLimits T → T → Type 0
  Follows linear v speed =
      (speed ≡ nought)
      ⊎ ((F.lt nought linear ≡ true)
          × (F.lt speed nought ≡ false)
          × (F.lt (Float.max nought v.max_speed_mps) speed ≡ false))
      ⊎ ((F.lt linear nought ≡ true)
          × (F.lt nought speed ≡ false)
          × (F.lt speed (F.neg (Float.max nought v.max_reverse_mps)) ≡ false))

module _ {T : Type 0} ⦃F : Float T⦄ (irreflexive : (a : T) → F.lt a a ≡ false)
    (asymmetric : (a b : T) → F.lt a b ≡ true → F.lt b a ≡ false)
    (neg_lt : (a b : T) → F.lt (F.neg a) (F.neg b) ≡ F.lt b a)
    (neg_above : (a : T) → F.lt nought (F.neg a) ≡ F.lt a nought) where
  -- Below a bound that is not negative a clamped value is between nought and the bound.
  clamp_bounds :
      (x high : T)
      → (F.lt (clamp x nought (Float.max nought high)) nought ≡ false)
        × (F.lt (Float.max nought high) (clamp x nought (Float.max nought high)) ≡ false)
  unfolding clamp Float.max Float.min
  clamp_bounds x high = ground (
    arith,
    irreflexive nought,
    irreflexive high,
    irreflexive x,
    asymmetric nought high,
    asymmetric nought x,
    asymmetric x high,
    asymmetric x nought,
  )

  speed_of-Follows : (linear : T) (v : VehicleLimits T) → Follows linear v (speed_of linear v).0
  unfolding speed_of
  speed_of-Follows linear v =
      let reverse = clamp (F.abs linear) nought (Float.max nought v.max_reverse_mps) in
      ground (
        arith,
        clamp_bounds linear v.max_speed_mps,
        clamp_bounds (F.abs linear) v.max_reverse_mps,
        neg_lt reverse (Float.max nought v.max_reverse_mps),
        neg_above reverse,
      )

  -- The speed of a command is nought, or goes the way of the velocity that was asked for and is
  -- within the limit of that direction; with a brake above 0 percent the command is an emergency
  -- stop with no speed and no steering; and no command enforces a least speed. This is for floats
  -- whose order is irreflexive and asymmetric and is reversed by the sign, and where the negative
  -- of a number is above 0 exactly if the number is below 0.
  pub command_from_cmd_vel-Follows :
      (linear angular : T) (brake source : ℤ) (v : VehicleLimits T)
      → let c = command_from_cmd_vel linear angular brake source v in
        Follows linear v c.speed_mps
        × (((c.estop ≡ true) × (c.speed_mps ≡ nought) × (c.steer_pct ≡ pos 0))
            ⊎ ((c.estop ≡ false) × (c.brake_pct ≤ℤ pos 0)))
        × (c.min_speed_enforced ≡ false)
  unfolding command_from_cmd_vel
  command_from_cmd_vel-Follows linear angular brake source v =
      ground (arith, speed_of-Follows linear v)
