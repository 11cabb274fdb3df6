-- ===== src/Navigation/Maneuver/Wait.antt =====
-- The wait for another plan ends at its deadline, or when a plan is taken over that was approved.
use mathlib.Core.Path.{subst}
use salus_robot.Prelude.{
  ◌≡◌, ◌⊎◌, inl, inr, refl, sym, ap, ◌∙◌, true, false, Option, none, some, List, [], ◌∷◌, ◌++◌,
  arith, Option-cases,
}
use salus_robot.Float.{Float}
use salus_robot.Operator.Lease.{Hashable}
use salus_robot.Navigation.Maneuver.{
  ManeuverWait, ManeuverObservation, is_text, same_key, reset, start_wait, adopt, advance, snapshot,
  observe,
}

module _ {K : Type 0} ⦃H : Hashable K⦄ where
  same_key-eq : (key approved : Option K) → same_key key approved ≡ true → approved ≡ key
  same_key-eq none approved h = absurd (ground (arith, h))
  same_key-eq (some k) none h = absurd (ground (arith, h))
  same_key-eq (some k) (some a) h = ap some (sym ((H.eq_iff k a).0 h))

module _ {T K : Type 0} ⦃F : Float T⦄ ⦃H : Hashable K⦄ where
  unfoldable pub run : List (ManeuverObservation T K) → ManeuverWait T K → ManeuverWait T K
  run [] w = w
  run (o ∷ os) w = run os (observe o w).1

  -- A wait that is on keeps its deadline and its cause.
  abbrev pub Kept : T → ManeuverWait T K → ManeuverWait T K → Type 0
  Kept deadline w v = (v.deadline ≡ some deadline) × (v.cause ≡ w.cause)

  -- A path that is taken over before the deadline, with the key that was approved.
  abbrev pub Adopts : T → ManeuverObservation T K → ManeuverWait T K → Type 0
  Adopts deadline o w =
      (F.le deadline o.now_s ≡ false)
      × (w.terminal ≡ false)
      × (o.candidate ≡ false)
      × (o.valid ≡ true)
      × (is_text o.reason ≡ false)
      × (same_key o.key w.approved ≡ true)

  observe-Kept :
      (deadline : T) (o : ManeuverObservation T K) (w : ManeuverWait T K)
      → w.deadline ≡ some deadline
      → Kept deadline w (observe o w).1 ⊎ Adopts deadline o w
  unfolding observe advance snapshot start_wait adopt reset
  observe-Kept deadline o w h = ground arith

  -- A path that is approved: a valid candidate with no reason against it.
  abbrev pub Approves : Option K → ManeuverObservation T K → Type 0
  Approves key o =
      (o.candidate ≡ true) × (o.valid ≡ true) × (is_text o.reason ≡ false) × (o.key ≡ key)

  observe-approved :
      (o : ManeuverObservation T K) (w : ManeuverWait T K)
      → ((observe o w).1.approved ≡ w.approved)
        ⊎ ((observe o w).1.approved ≡ none)
        ⊎ Approves (observe o w).1.approved o
  unfolding observe advance snapshot start_wait adopt reset
  observe-approved o w = elim (Option-cases w.deadline) [
    | inl e ↦ ground (arith, e)
    | inr (d, e) ↦ ground (arith, e)
  ]

  -- The key that is approved, if any, was approved by one of the observations.
  abbrev pub Approved : List (ManeuverObservation T K) → Option K → Type 0
  Approved [] key = ⊥
  Approved (o ∷ os) key = Approves key o ⊎ Approved os key

  approved_before :
      (o : ManeuverObservation T K) (os : List (ManeuverObservation T K)) (w : ManeuverWait T K)
      {key : Option K}
      → (key ≡ (observe o w).1.approved) ⊎ (key ≡ none) ⊎ Approved os key
      → ((observe o w).1.approved ≡ w.approved)
        ⊎ ((observe o w).1.approved ≡ none)
        ⊎ Approves (observe o w).1.approved o
      → (key ≡ w.approved) ⊎ (key ≡ none) ⊎ Approved (o ∷ os) key
  approved_before o os w (inr (inl e)) k = inr (inl e)
  approved_before o os w (inr (inr a)) k = inr (inr (inr a))
  approved_before o os w (inl e) (inl f) = inl (e ∙ f)
  approved_before o os w (inl e) (inr (inl f)) = inr (inl (e ∙ f))
  approved_before o os w (inl e) (inr (inr a)) = inr (inr (inl (a.0, a.1, a.2, a.3 ∙ sym e)))

  run-approved :
      (os : List (ManeuverObservation T K)) (w : ManeuverWait T K)
      → ((run os w).approved ≡ w.approved)
        ⊎ ((run os w).approved ≡ none)
        ⊎ Approved os (run os w).approved
  unfolding run
  run-approved [] w = inl refl
  run-approved (o ∷ os) w =
      approved_before o os w (run-approved os (observe o w).1) (observe-approved o w)

  -- From a wait with no approval, the key of a path that is taken over was approved.
  same_key-Approved :
      (os : List (ManeuverObservation T K)) (w : ManeuverWait T K) (key : Option K)
      → w.approved ≡ none
      → same_key key (run os w).approved ≡ true
      → Approved os key
  same_key-Approved os w none e h = absurd (ground (arith, h))
  same_key-Approved os w (some k) e h = elim (run-approved os w) [
    | inl f ↦ absurd (ground (arith, same_key-eq (some k) (run os w).approved h, e, f))
    | inr (inl f) ↦ absurd (ground (arith, same_key-eq (some k) (run os w).approved h, f))
    | inr (inr a) ↦ subst (Approved os) (same_key-eq (some k) (run os w).approved h) a
  ]

  -- A wait that is on is kept, up to a path that is taken over.
  released :
      (deadline : T) (os : List (ManeuverObservation T K)) (w : ManeuverWait T K)
      → w.deadline ≡ some deadline
      → Kept deadline w (run os w)
        ⊎ ((before after : List (ManeuverObservation T K)) × (o : ManeuverObservation T K) × (os
              ≡ before ++ o ∷ after)
            × Kept deadline w (run before w)
            × Adopts deadline o (run before w))
  unfolding run
  released deadline [] w h = inl (h, refl)
  released deadline (o ∷ os) w h = elim (observe-Kept deadline o w h) [
    | inr adopts ↦ inr ([], os, o, refl, (h, refl), adopts)
    | inl k ↦ elim (released deadline os (observe o w).1 k.0) [
      | inl kept ↦ inl (kept.0, kept.1 ∙ k.1)
      | inr (before, after, x, e, kept, adopts) ↦
          inr (o ∷ before, after, x, ap (λ l. o ∷ l) e, (kept.0, kept.1 ∙ k.1), adopts)
    ]
  ]

  -- A wait that is on and has approved nothing keeps its deadline and its cause, whatever is observed,
  -- until, before the deadline, a path is observed that is taken over: it is valid, without a reason
  -- against it, and has the key of a valid candidate that was observed earlier without a reason.
  pub released_by_adoption :
      (deadline : T) (os : List (ManeuverObservation T K)) (w : ManeuverWait T K)
      → w.deadline ≡ some deadline
      → w.approved ≡ none
      → Kept deadline w (run os w)
        ⊎ ((before after : List (ManeuverObservation T K)) × (o : ManeuverObservation T K) × (os
              ≡ before ++ o ∷ after)
            × Kept deadline w (run before w)
            × Adopts deadline o (run before w)
            × Approved before o.key)
  released_by_adoption deadline os w h k = elim (released deadline os w h) [
    | inl kept ↦ inl kept
    | inr (before, after, o, e, kept, adopts) ↦
        inr (before, after, o, e, kept, adopts, same_key-Approved before w o.key k adopts.5)
  ]
