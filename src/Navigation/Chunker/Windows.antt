-- ===== src/Navigation/Chunker/Windows.antt =====
-- The windows of the three modes: where they end, and what stands inside.
use native.Mathlib.Nat.{mod_self, mod-eq_of_lt}
use mathlib.Core.Path.{subst}
use salus_robot.Prelude.{
  ℕ, zero, suc, ◌+◌, ◌-◌, ◌%◌, ◌≤◌, ◌<◌, ◌≡◌, inl, inr, refl, Bool, true, false, not, ◌&&◌, ◌||◌,
  some, List, [], ◌∷◌, length, get_elem?, is_empty, ltb, ◌==◌, if◌then◌else◌, arith, Bool-cases,
  Option-cases,
}
use salus_robot.Prelude.Int.{ℤ}
use salus_robot.Prelude.Result.{ok}
use salus_robot.Navigation.Model.{RouteWaypoint, PreparedRoute}
use salus_robot.Navigation.Chunker.{
  Selection, following, advance, prepend, legacy_pair_eligible, any_key, upto_last_key, last_is_key,
  legacy_loop,
}

-- The steps that are left of an open route, or of a circuit that ends before `start`.
abbrev pub left : Bool → ℕ → ℕ → ℕ → ℕ
left loop total start i =
    if loop then if ltb i start then start - i else start + total - i else total - i

pub next_mod : (i total : ℕ) → i < total → suc i % total ≡ (if suc i == total then 0 else suc i)
next_mod i total h = elim (Bool-cases (suc i == total)) [
  | inl e ↦ ground (arith, mod_self total)
  | inr e ↦ ground (arith, mod-eq_of_lt {n = suc i} {m = total})
]

module _ {T : Type 0} where
  -- All checkpoints but one at the end are soft: they may be passed through.
  unfoldable pub soft_inside : List (RouteWaypoint T) → Bool
  soft_inside [] = true
  soft_inside (p ∷ []) = true
  soft_inside (p ∷ q ∷ ps) = (not p.key || legacy_pair_eligible p) && soft_inside (q ∷ ps)

  pub soft_inside-cons :
      (p : RouteWaypoint T) (ps : List (RouteWaypoint T))
      → (not p.key || legacy_pair_eligible p) ≡ true
      → soft_inside ps ≡ true
      → soft_inside (p ∷ ps) ≡ true
  unfolding soft_inside
  soft_inside-cons p [] h g = refl
  soft_inside-cons p (q ∷ ps) h g = ground arith

  pub upto_last_key-none :
      (ps : List (RouteWaypoint T)) → any_key ps ≡ false → upto_last_key ps ≡ []
  unfolding upto_last_key any_key
  upto_last_key-none [] h = refl
  upto_last_key-none (p ∷ ps) h = ground (arith, upto_last_key-none ps)

  soft_inside_parts :
      (p : RouteWaypoint T) (ps : List (RouteWaypoint T))
      → soft_inside (p ∷ ps) ≡ true
      → any_key ps ≡ true
      → ((not p.key || legacy_pair_eligible p) ≡ true) × (soft_inside ps ≡ true)
  unfolding soft_inside any_key
  soft_inside_parts p [] h g = cc
  soft_inside_parts p (q ∷ ps) h g = ground arith

  pub last_is_key-cons :
      (p : RouteWaypoint T) (ps : List (RouteWaypoint T))
      → last_is_key ps ≡ true
      → (last_is_key (p ∷ ps) ≡ true) × (is_empty ps ≡ false)
  unfolding last_is_key
  last_is_key-cons p [] h = cc
  last_is_key-cons p (q ∷ ps) h = (h, refl)

  -- Cut off after its last checkpoint, a soft selection stays soft, and ends in a checkpoint.
  pub upto_last_key-closed :
      (ps : List (RouteWaypoint T))
      → any_key ps ≡ true
      → soft_inside ps ≡ true
      → (last_is_key (upto_last_key ps) ≡ true) × (soft_inside (upto_last_key ps) ≡ true)
  unfolding upto_last_key any_key last_is_key soft_inside
  upto_last_key-closed [] h g = cc
  upto_last_key-closed (p ∷ ps) h g =
      elim (Bool-cases (any_key ps))
        as (λ x.
          (last_is_key (upto_last_key (p ∷ ps)) ≡ true)
          × (soft_inside (upto_last_key (p ∷ ps)) ≡ true)) [
            | inl e ↦
                let (soft, rest) = soft_inside_parts p ps g e in
                let (ends, stays) = upto_last_key-closed ps e rest in
                ground (
                  arith,
                  last_is_key-cons p (upto_last_key ps) ends,
                  soft_inside-cons p (upto_last_key ps) soft stays,
                )
            | inr e ↦ ground (arith, upto_last_key-none ps e)
          ]

  -- The points of a route one after another, from an index on.
  unfoldable pub Consecutive : PreparedRoute T → ℕ → List (RouteWaypoint T) → Type 0
  Consecutive r i [] = Unit
  Consecutive r i (p ∷ ps) =
      (get_elem? r.waypoints i ≡ some p)
      × Consecutive r (following r.loop (length r.waypoints) i) ps

  if_key-Consecutive :
      (r : PreparedRoute T) (i : ℕ) (p : RouteWaypoint T) (qs : List (RouteWaypoint T)) (b : Bool)
      → get_elem? r.waypoints i ≡ some p
      → Consecutive r (following r.loop (length r.waypoints) i) qs
      → Consecutive r i (if is_empty qs then if b then p ∷ [] else [] else p ∷ qs)
  unfolding Consecutive
  if_key-Consecutive r i p [] true h k = (h, tt)
  if_key-Consecutive r i p [] false h k = tt
  if_key-Consecutive r i p (q ∷ qs) b h k = (h, k)

  pub upto_last_key-Consecutive :
      (r : PreparedRoute T) (i : ℕ) (ps : List (RouteWaypoint T))
      → Consecutive r i ps
      → Consecutive r i (upto_last_key ps)
  unfolding Consecutive upto_last_key
  upto_last_key-Consecutive r i [] h = h
  upto_last_key-Consecutive r i (p ∷ ps) h =
      if_key-Consecutive r i p (upto_last_key ps) p.key h.0
        (upto_last_key-Consecutive r (following r.loop (length r.waypoints) i) ps h.1)

  pub get_elem?_of_lt :
      (ps : List (RouteWaypoint T)) (i : ℕ)
      → i < length ps
      → (p : RouteWaypoint T) × (get_elem? ps i ≡ some p)
  get_elem?_of_lt [] i h = elim h [ ]
  get_elem?_of_lt (p ∷ ps) zero h = (p, refl)
  get_elem?_of_lt (p ∷ ps) (suc i) h = get_elem?_of_lt ps i (omega arith)

  -- The window goes on at an index in range, with a step less left.
  pub advance-left :
      (adaptive : Bool) (r : PreparedRoute T) (start index : ℕ) (iteration : ℤ)
      → index < length r.waypoints
      → start < length r.waypoints
      → (next : ℕ) (later : ℤ) → advance adaptive r start index iteration ≡ some (next, later)
      → (next < length r.waypoints)
        × (suc (left r.loop (length r.waypoints) start next)
            ≡ left r.loop (length r.waypoints) start index)
        × (next ≡ following r.loop (length r.waypoints) index)
  advance-left adaptive r start index iteration h g next later e =
      ground (arith, next_mod index (length r.waypoints) h)

  -- The loops take their `total` steps at most, and select what is soft inside.
  pub legacy_loop-total :
      (fuel : ℕ) (r : PreparedRoute T) (start : ℕ) (pairable : Bool) (count index : ℕ)
      (iteration : ℤ)
      → index < length r.waypoints
      → start < length r.waypoints
      → left r.loop (length r.waypoints) start index ≤ fuel
      → ((p : RouteWaypoint T)
          → get_elem? r.waypoints index ≡ some p
          → (pairable && count == 0) ≡ true
          → legacy_pair_eligible p ≡ true)
      → (s : Selection T) × (legacy_loop fuel r start pairable count index iteration ≡ ok s)
        × (soft_inside s.0 ≡ true)
        × Consecutive r index s.0
  unfolding legacy_loop soft_inside Consecutive
  legacy_loop-total zero r start pairable count index iteration i j enough first =
      absurd (ground arith)
  legacy_loop-total (suc fuel) r start pairable count index iteration i j enough first =
      let (p, e) = get_elem?_of_lt r.waypoints index i in
      let ends = p.key && (suc count == 1 && not pairable || (ltb 1 (suc count) || not pairable)) in
      elim (Option-cases (advance false r start index iteration)) [
        | inl n ↦ (prepend p iteration ([], []), ground (arith, e, n), refl, (e, tt))
        | inr ((next, later), n) ↦
            let (bound, less, step) = advance-left false r start index iteration i j next later n in
            let (s, equal, soft, on) =
              legacy_loop-total fuel r start pairable (suc count) next later bound j (omega arith)
                (λ q f g. absurd (ground arith)) in
            elim (Bool-cases ends) [
              | inl b ↦ (prepend p iteration ([], []), ground (arith, e, b), refl, (e, tt))
              | inr b ↦ (
                prepend p iteration s,
                ground (arith, e, n, b, equal),
                soft_inside-cons p s.0 (ground (arith, first p e, b)) soft,
                (e, subst (λ k. Consecutive r k s.0) step on),
              )
            ]
      ]
