-- ===== src/Float.antt =====
-- Python's `float`: the operations that the modelled code uses, taken as a parameter, since the
-- program does not implement them.
use salus_robot.Prelude.{ℕ, Bool, if◌then◌else◌}
use salus_robot.Prelude.Int.{ℤ}

-- `decimal n k` is the literal n / 10 ^ k; `pow a b` is `a ** b`, `floordiv` and `modulo` are `//` and
-- `%`, and `round` and `truncate` are `round(x)` and `int(x)`.
pub record Float (T : Type 0) : Type 0 where
  pub decimal : ℕ → ℕ → T
  pub of_ℤ : ℤ → T
  pub lt : T → T → Bool
  pub le : T → T → Bool
  pub eq : T → T → Bool
  pub finite : T → Bool
  pub add : T → T → T
  pub sub : T → T → T
  pub mul : T → T → T
  pub div : T → T → T
  pub neg : T → T
  pub abs : T → T
  pub hypot : T → T → T
  pub pow : T → T → T
  pub atan : T → T
  pub tan : T → T
  pub atan2 : T → T → T
  pub sin : T → T
  pub cos : T → T
  pub degrees : T → T
  pub radians : T → T
  pub floordiv : T → T → T
  pub modulo : T → T → T
  pub round : T → ℤ
  pub truncate : T → ℤ
  pub infinity : T
  pub nan : T

module _ {T : Type 0} ⦃F : Float T⦄ where
  open F use {decimal, lt}

  abbrev pub nought : T
  nought = decimal 0 0

  abbrev pub one : T
  one = decimal 1 0

  -- Python's `max(a, b)` and `min(a, b)` keep the first of two that do not compare.
  unfoldable pub max : T → T → T
  max a b = if lt a b then b else a

  unfoldable pub min : T → T → T
  min a b = if lt b a then b else a
