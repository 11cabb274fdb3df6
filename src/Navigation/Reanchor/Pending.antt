-- ===== src/Navigation/Reanchor/Pending.antt =====
-- What is left of a chunk that was blocked.
use mathlib.Core.Path.{subst}
use salus_robot.Prelude.{
  ℕ, suc, ◌≤◌, ◌<◌, ◌≡◌, ◌⊎◌, inl, inr, refl, sym, Bool, true, false, not, ◌&&◌, ◌||◌, List, [],
  ◌∷◌, length, drop, all, is_empty, leb, ◌==◌, arith, Bool-cases,
}
use salus_robot.Prelude.Int.{ℤ}
use salus_robot.Prelude.Result.{Result, ok, err}
use salus_robot.Navigation.Model.{
  RouteWaypoint, RouteChunk, checkpoint_offsets, checkpoint_occurrences, occurrences_from,
  iterations_of,
}
use salus_robot.Navigation.Reanchor.{
  SuffixError, Occurrence, is_credited, cut_of, pending_checkpoint_suffix,
}

-- The offsets go up from a first one.
unfoldable ascending : ℕ → List Occurrence → Bool
ascending n [] = true
ascending n (o ∷ os) = leb n o.0 && ascending (suc o.0) os

ascending-le :
    (n m : ℕ) (os : List Occurrence) → n ≤ m → ascending m os ≡ true → ascending n os ≡ true
unfolding ascending
ascending-le n m [] h a = refl
ascending-le n m (o ∷ os) h a = ground (arith, h, a)

module _ {T : Type 0} where
  ascending-occurrences_from :
      (n : ℕ) (ps : List (RouteWaypoint T)) (is : List ℤ)
      → ascending n (occurrences_from n ps is) ≡ true
  unfolding occurrences_from ascending
  ascending-occurrences_from n [] is = refl
  ascending-occurrences_from n (p ∷ ps) [] = refl
  ascending-occurrences_from n (p ∷ ps) (i ∷ is) = elim (Bool-cases p.key) [
    | inl e ↦ ground (arith, e, ascending-occurrences_from (suc n) ps is)
    | inr e ↦ rw e (
        ascending-le n (suc n) (occurrences_from (suc n) ps (i ∷ is)) (omega arith)
          (ascending-occurrences_from (suc n) ps (i ∷ is)))
  ]

-- Every checkpoint before a cut is credited.
abbrev pub before_cut : List (ℤ × ℤ) → ℕ → Occurrence → Bool
before_cut reached cut o = leb cut o.0 || is_credited reached o

all_after :
    (reached : List (ℤ × ℤ)) (cut : ℕ) (os : List Occurrence)
    → ascending cut os ≡ true
    → all (before_cut reached cut) os ≡ true
unfolding ascending
all_after reached cut [] h = refl
all_after reached cut (o ∷ os) h = ground (
  arith,
  h,
  all_after reached cut os (ascending-le cut (suc o.0) os (ground (arith, h)) (ground (arith, h))),
)

cut_of-credited :
    (reached : List (ℤ × ℤ)) (os : List Occurrence) (cut : ℕ)
    → ascending cut os ≡ true
    → all (before_cut reached (cut_of reached os cut)) os ≡ true
unfolding cut_of ascending
cut_of-credited reached [] cut h = refl
cut_of-credited reached (o ∷ os) cut h = elim (Bool-cases (is_credited reached o)) [
  | inl e ↦
      let rest = cut_of-credited reached os (suc o.0) (ground (arith, h)) in
      let is : (cut_of reached (o ∷ os) cut ≡ cut_of reached os (suc o.0)) = ground (arith, e) in
      subst (λ k. all (before_cut reached k) (o ∷ os) ≡ true) (sym is) (ground (arith, e, rest))
  | inr e ↦
      let is : (cut_of reached (o ∷ os) cut ≡ cut) = ground (arith, e) in
      subst (λ k. all (before_cut reached k) (o ∷ os) ≡ true) (sym is)
        (all_after reached cut (o ∷ os) h)
]

module _ {T : Type 0} where
  -- The chunk as it was, or its points from a cut on, with its ends; no checkpoint before the cut
  -- is without credit. An error is for a number of iterations that is not that of checkpoints.
  abbrev pub IsPending : RouteChunk T → List (ℤ × ℤ) → Result SuffixError (RouteChunk T) → Type 0
  IsPending c reached (ok d) =
      (d.start ≡ c.start)
      × (d.end ≡ c.end)
      × ((d ≡ c)
          ⊎ ((cut : ℕ) × (cut < length c.waypoints)
              × (d.waypoints ≡ drop cut c.waypoints)
              × (all (before_cut reached cut) (checkpoint_occurrences c) ≡ true)))
  IsPending c reached (err e) =
      (length c.checkpoint_iterations == length (checkpoint_offsets c)) ≡ false

  -- What is left of a chunk, given the checkpoints that were credited, is a last part of its
  -- points, from before the first checkpoint without credit on: a credit out of order does not drop
  -- an earlier checkpoint. The part is not empty, or it is the chunk as it was. An error is raised
  -- only for a number of iterations that differs from that of the checkpoints.
  pub pending_checkpoint_suffix-IsPending :
      (c : RouteChunk T) (reached : List (ℤ × ℤ))
      → IsPending c reached (pending_checkpoint_suffix c reached)
  unfolding pending_checkpoint_suffix checkpoint_occurrences
  pending_checkpoint_suffix-IsPending c reached =
      let os = checkpoint_occurrences c in
      let cut = cut_of reached os 0 in
      let n = length (checkpoint_offsets c) in
      let is = c.checkpoint_iterations in
      elim (Bool-cases (not (is_empty is) && not (length is == n))) [
        | inl e ↦ simp e (ground (arith, e))
        | inr e ↦ elim (Bool-cases (leb (length c.waypoints) cut)) [
          | inl f ↦ simp (e, f) (refl, refl, inl refl)
          | inr f ↦
              simp (e, f)
                (
                  refl,
                  refl,
                  inr (
                    cut,
                    ground (arith, f),
                    refl,
                    cut_of-credited reached os 0
                        (ascending-occurrences_from 0 c.waypoints (iterations_of c)),
                  ),
                )
        ]
      ]
