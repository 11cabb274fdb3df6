-- ===== src/Stream.antt =====
-- What a stream decoder promises, said without a buffer: the frames of a byte sequence, from left
-- to right and not overlapping, where `size` is the size of the frame at the head of a sequence,
-- and 0 if there is none.
use salus_robot.Prelude.{ℕ, zero, suc, ◌≡◌, refl, List, [], ◌∷◌, take, drop, arith}

module _ (size : List ℕ → ℕ) where
  pub scan_from : ℕ → List ℕ → List (List ℕ)
  scan_from skipped [] = []
  scan_from (suc skipped) (x ∷ xs) = scan_from skipped xs
  scan_from zero (x ∷ xs) = elim (size (x ∷ xs)) [
    | zero ↦ scan_from zero xs
    | suc k ↦ take (suc k) (x ∷ xs) ∷ scan_from k xs
  ]

  unfoldable pub scan : List ℕ → List (List ℕ)
  unfolding scan_from
  scan = scan_from 0

  scan_from-eq-scan-drop : (k : ℕ) (xs : List ℕ) → scan_from k xs ≡ scan (drop k xs)
  unfolding scan
  scan_from-eq-scan-drop zero xs = refl
  scan_from-eq-scan-drop (suc k) [] = refl
  scan_from-eq-scan-drop (suc k) (x ∷ xs) = scan_from-eq-scan-drop k xs

  pub scan_hit :
      (k x : ℕ) (xs : List ℕ)
      → size (x ∷ xs) ≡ suc k
      → scan (x ∷ xs) ≡ take (suc k) (x ∷ xs) ∷ scan (drop k xs)
  unfolding scan
  scan_hit k x xs h = ground (arith, scan_from-eq-scan-drop k xs)

  pub scan_miss : (x : ℕ) (xs : List ℕ) → size (x ∷ xs) ≡ 0 → scan (x ∷ xs) ≡ scan xs
  unfolding scan
  scan_miss x xs h = ground arith
