-- ===== src/Localization/Samples.antt =====
-- What is asked of the samples that a selection lets through.
use salus_robot.Prelude.{◌≡◌, Bool, true, Option, none, some, List, [], ◌∷◌}
use salus_robot.Prelude.Int.{ℤ, ltb_ℤ}

-- A time that comes after the last one, if there was one.
abbrev pub is_after : Option ℤ → ℤ → Bool
is_after none stamp = true
is_after (some last) stamp = ltb_ℤ last stamp

-- Each sample has a property, and a time that comes after that of the one before.
abbrev pub Ordered : {M : Type 0} → (M → ℤ) → (M → Type 0) → Option ℤ → List M → Type 0
Ordered stamp P last [] = Unit {0}
Ordered stamp P last (m ∷ ms) =
    (is_after last (stamp m) ≡ true) × P m × Ordered stamp P (some (stamp m)) ms
