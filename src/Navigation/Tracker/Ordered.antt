-- ===== src/Navigation/Tracker/Ordered.antt =====
-- The checkpoints that a tracker accepts, over any samples: each once and in order.
use salus_robot.Prelude.{
  ℕ, zero, suc, ◌≡◌, refl, Option, none, some, List, [], ◌∷◌, ◌++◌, ◌∙◌, ap, sym, append_assoc,
  append-nil, arith, take, get_elem?,
}
use salus_robot.Prelude.Result.{ok}
use salus_robot.Float.{Float}
use salus_robot.Navigation.Tracker.{
  CheckpointOccurrence, PoseSample, IntermediateCheckpointTracker, create, acknowledged, against,
  observe,
}

take-next :
    {A : Type 0} (n : ℕ) (xs : List A) {a : A}
    → get_elem? xs n ≡ some a
    → take (suc n) xs ≡ take n xs ++ a ∷ []
take-next zero [] e = cc
take-next zero (x ∷ xs) e = cc
take-next (suc n) [] e = cc
take-next (suc n) (x ∷ xs) e = ap (λ l. x ∷ l) (take-next n xs e)

abbrev listed : {A : Type 0} → Option A → List A
listed none = []
listed (some a) = a ∷ []

module _ {T : Type 0} ⦃F : Float T⦄ where
  -- Samples with the two times of each, and the checkpoints that they reach.
  unfoldable pub observe_all :
      List (PoseSample T × T × T)
      → IntermediateCheckpointTracker T
      → List (CheckpointOccurrence T) × IntermediateCheckpointTracker T
  observe_all [] t = ([], t)
  observe_all ((s, ros, steady) ∷ rest) t =
      let (e, u) = observe s ros steady t in
      let (more, v) = observe_all rest u in (listed e.occurrence ++ more, v)

  against-acknowledged :
      (o : Option (CheckpointOccurrence T)) (s : PoseSample T) (t : IntermediateCheckpointTracker T)
      → get_elem? t.occurrences t.next ≡ o
      → let (e, u) = against o s t in
        (acknowledged u ≡ acknowledged t ++ listed e.occurrence) × (u.occurrences ≡ t.occurrences)
  unfolding against acknowledged
  against-acknowledged none s t h = (sym (append-nil (take t.next t.occurrences)), refl)
  against-acknowledged (some o) s t h =
      ground (arith, take-next t.next t.occurrences h, append-nil (take t.next t.occurrences))

  observe-acknowledged :
      (s : PoseSample T) (ros steady : T) (t : IntermediateCheckpointTracker T)
      → let (e, u) = observe s ros steady t in
        (acknowledged u ≡ acknowledged t ++ listed e.occurrence) × (u.occurrences ≡ t.occurrences)
  unfolding observe acknowledged
  observe-acknowledged s ros steady t =
      let u = record t { last_source_stamp_s = some s.source_stamp_s } in
      ground (
        arith,
        append-nil (take t.next t.occurrences),
        against-acknowledged (get_elem? t.occurrences t.next) s u refl,
      )

  observe_all-acknowledged :
      (samples : List (PoseSample T × T × T)) (t : IntermediateCheckpointTracker T)
      → let (reached, u) = observe_all samples t in
        (acknowledged u ≡ acknowledged t ++ reached) × (u.occurrences ≡ t.occurrences)
  unfolding observe_all
  observe_all-acknowledged [] t = (sym (append-nil (acknowledged t)), refl)
  observe_all-acknowledged ((s, ros, steady) ∷ rest) t =
      let (step, same) = observe-acknowledged s ros steady t in
      let u = (observe s ros steady t).1 in
      let found = listed (observe s ros steady t).0.occurrence in
      let (steps, sames) = observe_all-acknowledged rest u in
      (
        steps
            ∙ (ap (λ l. l ++ (observe_all rest u).0) step ∙ append_assoc (acknowledged t) found _),
        sames ∙ same,
      )

  created :
      (occurrences : List (CheckpointOccurrence T)) (radius age future : T)
      {t : IntermediateCheckpointTracker T}
      → create occurrences radius age future ≡ ok t
      → (t.occurrences ≡ occurrences) × (t.next ≡ 0)
  unfolding create
  created occurrences radius age future e = ground arith

  -- From a tracker as it is constructed, the checkpoints that any samples reach are, in the order of
  -- acceptance, a first part of the given ones: each is reached once, and none is passed over.
  pub reached_in_order :
      (occurrences : List (CheckpointOccurrence T)) (radius age future : T)
      (samples : List (PoseSample T × T × T)) {t : IntermediateCheckpointTracker T}
      → create occurrences radius age future ≡ ok t
      → let (reached, u) = observe_all samples t in reached ≡ take u.next occurrences
  unfolding acknowledged
  reached_in_order occurrences radius age future samples {t} e =
      let (steps, same) = observe_all-acknowledged samples t in
      let (given, begins) = created occurrences radius age future e in
      let none_yet : take t.next t.occurrences ≡ [] = rw begins refl in
      ground (arith, steps, same, none_yet, given)
