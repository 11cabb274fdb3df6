-- ===== src/Localization/Imu/Order.antt =====
-- The samples of an inertial sensor that are let through.
use mathlib.Core.Path.{subst}
use salus_robot.Prelude.{
  ◌≡◌, inl, inr, sym, ap, ◌∙◌, eq_iff, Bool, true, false, not, ◌||◌, Option, none, some, String,
  str_eq, List, [], ◌∷◌, ltb, arith, Bool-cases, Option-cases, if◌then◌else◌,
}
use salus_robot.Prelude.Int.{ℤ, pos, ltb_ℤ}
use salus_robot.Float.{Float}
use salus_robot.Localization.Samples.{is_after, Ordered}
use salus_robot.Localization.Imu.{
  Imu, ImuSelectionConfig, Selection, decided, expected_frame_for, message_stamp_ns,
  has_only_finite_values, has_valid_known_orientation, select_at, select_imu,
}

module _ {T : Type 0} where
  -- The time of a message that has one.
  abbrev pub stamp_or_zero : Imu T → ℤ
  stamp_or_zero m = elim (message_stamp_ns m) [ none ↦ pos 0 | some stamp ↦ stamp ]

  message_stamp_ns-positive :
      (m : Imu T) (stamp : ℤ) → message_stamp_ns m ≡ some stamp → ltb_ℤ (pos 0) stamp ≡ true
  unfolding message_stamp_ns
  message_stamp_ns-positive m stamp h =
      positive_of (ltb_ℤ m.sec (pos 0) || not (ltb m.nanosec 1_000_000_000)) _ stamp h
    where
      positive_of :
          (b : Bool) (n s : ℤ)
          → (if b then none else if ltb_ℤ (pos 0) n then some n else none) ≡ some s
          → ltb_ℤ (pos 0) s ≡ true
      positive_of true n s h = absurd (ground (arith, h))
      positive_of false n s h = elim (Bool-cases (ltb_ℤ (pos 0) n)) [
        | inl e ↦ ground (arith, e, h)
        | inr e ↦ absurd (ground (arith, e, h))
      ]

-- Whether a selection accepts, and the last time that it leaves; an error leaves it as it was.
abbrev is_chosen : Selection → Bool
is_chosen (decided d) = d.is_accepted
is_chosen _ = false

abbrev last_after : Option ℤ → Selection → Option ℤ
last_after last (decided d) = d.last_accepted_stamp_ns
last_after last _ = last

module _ {T : Type 0} ⦃F : Float T⦄ (c : ImuSelectionConfig) where
  -- The samples that are accepted one after another, with their sources.
  pub accepted_of : List (String × Imu T) → Option ℤ → List (String × Imu T)
  accepted_of [] last = []
  accepted_of ((source, m) ∷ ms) last =
      let s = select_imu last source m c in
      let rest = accepted_of ms (last_after last s) in
      if is_chosen s then (source, m) ∷ rest else rest

  -- A sample of the configured source that may be used.
  pub record IsChosen (s : String × Imu T) : Type 0 where
    source : str_eq s.0 c.selected_source ≡ true
    expected : expected_frame_for c s.0 ≡ some s.1.frame_id
    positive : ltb_ℤ (pos 0) (stamp_or_zero s.1) ≡ true
    finite : has_only_finite_values s.1 ≡ true
    oriented : has_valid_known_orientation s.1 ≡ some true

  -- A selection at a well-formed time that accepts.
  select_at-chosen :
      (last : Option ℤ) (stamp : ℤ) (m : Imu T)
      → is_chosen (select_at last stamp m) ≡ true
      → (is_after last stamp ≡ true)
        × (has_only_finite_values m ≡ true)
        × (has_valid_known_orientation m ≡ some true)
        × (last_after last (select_at last stamp m) ≡ some stamp)
  unfolding select_at
  select_at-chosen last stamp m h = elim (Option-cases (has_valid_known_orientation m)) [
    | inl e ↦ absurd (ground (arith, e, h))
    | inr (b, e) ↦
        (ground (arith, e, h), ground (arith, e, h), ground (arith, e, h), ground (arith, e, h))
  ]

  select_at-refused :
      (last : Option ℤ) (stamp : ℤ) (m : Imu T)
      → is_chosen (select_at last stamp m) ≡ false
      → last_after last (select_at last stamp m) ≡ last
  unfolding select_at
  select_at-refused last stamp m h = elim (Option-cases (has_valid_known_orientation m)) [
    | inl e ↦ ground (arith, e, h)
    | inr (b, e) ↦ ground (arith, e, h)
  ]

  select_imu-refused :
      (last : Option ℤ) (source : String) (m : Imu T)
      → is_chosen (select_imu last source m c) ≡ false
      → last_after last (select_imu last source m c) ≡ last
  unfolding select_imu
  select_imu-refused last source m h = elim (Option-cases (expected_frame_for c source)) [
    | inl e ↦ ground (arith, e, h)
    | inr (frame, e) ↦ elim (Option-cases (message_stamp_ns m)) [
      | inl f ↦ ground (arith, e, f, h)
      | inr (stamp, f) ↦ ground (arith, e, f, h, select_at-refused last stamp m)
    ]
  ]

  -- A message with a time that is accepted, from the frame that is expected of its source.
  abbrev Chosen : Option ℤ → String → Imu T → Type 0
  Chosen last source m =
      (frame : String) × (stamp : ℤ) × (expected_frame_for c source ≡ some frame)
      × (str_eq m.frame_id frame ≡ true)
      × (message_stamp_ns m ≡ some stamp)
      × (str_eq source c.selected_source ≡ true)
      × (is_chosen (select_at last stamp m) ≡ true)
      × (last_after last (select_imu last source m c) ≡ last_after last (select_at last stamp m))

  select_imu-Chosen :
      (last : Option ℤ) (source : String) (m : Imu T)
      → is_chosen (select_imu last source m c) ≡ true
      → Chosen last source m
  unfolding select_imu
  select_imu-Chosen last source m h = elim (Option-cases (expected_frame_for c source)) [
    | inl e ↦ absurd (ground (arith, e, h))
    | inr (frame, e) ↦ elim (Option-cases (message_stamp_ns m)) [
      | inl f ↦ absurd (ground (arith, e, f, h))
      | inr (stamp, f) ↦ (
        frame,
        stamp,
        e,
        ground (arith, e, f, h),
        f,
        ground (arith, e, f, h),
        ground (arith, e, f, h),
        ground (arith, e, f, h),
      )
    ]
  ]

  -- The samples that are let through come from the configured source and in its frame, each with a
  -- positive time after that of the one before, with finite numbers only, and with an orientation
  -- that is marked as unknown or is not degenerate.
  pub accepted_samples-Ordered :
      (ms : List (String × Imu T)) (last : Option ℤ)
      → Ordered (λ s. stamp_or_zero s.1) IsChosen last (accepted_of ms last)
  unfolding accepted_of
  accepted_samples-Ordered [] last = tt
  accepted_samples-Ordered ((source, m) ∷ ms) last =
      let s = select_imu last source m c in
      let next = last_after last s in
      let rest = accepted_samples-Ordered ms next in
      let follows =
        λ (t : Option ℤ). Ordered (λ s. stamp_or_zero s.1) IsChosen t (accepted_of ms next) in
      elim (Bool-cases (is_chosen s)) [
        | inr e ↦ rw e (subst follows (select_imu-refused last source m e) rest)
        | inl e ↦
            let (frame, stamp, expected, named, time, selected, chosen, moved) =
              select_imu-Chosen last source m e in
            let (later, finite, oriented, left) = select_at-chosen last stamp m chosen in
            let stamped : stamp_or_zero m ≡ stamp = ground (arith, time) in
            let moves : next ≡ some (stamp_or_zero m) = moved ∙ (left ∙ ap some (sym stamped)) in
            rw e (
              rw stamped later,
              record {
                source = selected;
                expected = expected ∙ ap some (sym ((eq_iff m.frame_id frame).0 named));
                positive = rw stamped (message_stamp_ns-positive m stamp time);
                finite = finite;
                oriented = oriented;
              },
              subst follows moves rest,
            )
      ]
