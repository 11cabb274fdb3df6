-- ===== src/Localization/Gnss.antt =====
-- gnss_selection_policy.py: the samples of one receiver.
use mathlib.Core.Path.{subst}
use salus_robot.Prelude.{
  ℕ, ◌≡◌, ◌⊎◌, inl, inr, Bool, true, false, not, ◌&&◌, ◌||◌, Option, none, some, String, str_eq,
  List, [], ◌∷◌, all, ltb, arith, Bool-cases, Option-cases, if◌then◌else◌,
}
use salus_robot.Prelude.Int.{ℤ, pos, ltb_ℤ, leb_ℤ, eqb_ℤ, ◌+ℤ◌, ◌*ℤ◌}
use salus_robot.Prelude.Result.{Result, ok, err}
use salus_robot.Prelude.Text.{is_in, strip}
use salus_robot.Float.{Float}
use salus_robot.Localization.Samples.{is_after, Ordered}

-- The fields of a `NavSatFix` that are read.
pub record NavSatFix (T : Type 0) : Type 0 where
  pub frame_id : String
  pub sec : ℤ
  pub nanosec : ℕ
  pub status : ℤ
  pub latitude : T
  pub longitude : T
  pub altitude : T
  pub position_covariance : List T

pub data GnssReason : Type 0 where
  accepted source_not_selected unexpected_frame invalid_timestamp non_monotonic_timestamp
        non_finite_covariance non_finite_position latitude_out_of_range longitude_out_of_range :
      GnssReason

-- A decision accepts a sample exactly with the reason `accepted`.
pub record GnssSelectionDecision : Type 0 where
  pub is_accepted : Bool
  pub reason : GnssReason

pub data ConfigError : Type 0 where
  unknown_source empty_frame : ConfigError

pub record GnssSelectionPolicy : Type 0 where
  pub selected_source : String
  pub expected_frame : String
  pub last_stamp_ns : Option ℤ

-- Python's `str.lower`.
module _ (lower : String → String) where
  unfoldable pub create : String → String → Result ConfigError GnssSelectionPolicy
  create selected_source expected_frame =
      let selected = lower (strip selected_source) in
      let frame = strip expected_frame in
      if not (is_in selected ("gnss_primary" ∷ "gnss_secondary" ∷ []))
      then err unknown_source
      else if str_eq frame ""
      then err empty_frame
      else ok (record { selected_source = selected; expected_frame = frame; last_stamp_ns = none })

abbrev pub second : ℕ
second = 1_000_000_000

unfoldable pub stamp_ns : {T : Type 0} → NavSatFix T → ℤ
stamp_ns m = m.sec *ℤ pos second +ℤ pos m.nanosec

refuse : GnssReason → GnssSelectionPolicy → GnssSelectionDecision × GnssSelectionPolicy
refuse reason p = (record { is_accepted = false; reason = reason }, p)

-- `lower` is Python's `str.lower`, and `no_fix` the status of a sample without a position.
module _ {T : Type 0} ⦃F : Float T⦄ (lower : String → String) (no_fix : ℤ) where
  -- What is wrong with the position of a sample, which is read if it has one.
  unfoldable pub position_error : NavSatFix T → Option GnssReason
  position_error m =
      if eqb_ℤ m.status no_fix
      then none
      else if not (F.finite m.latitude && F.finite m.longitude && F.finite m.altitude)
      then some non_finite_position
      else if not (F.le (F.neg (F.decimal 90 0)) m.latitude && F.le m.latitude (F.decimal 90 0))
      then some latitude_out_of_range
      else if not (F.le (F.neg (F.decimal 180 0)) m.longitude && F.le m.longitude (F.decimal 180 0))
      then some longitude_out_of_range
      else none

  unfoldable pub evaluate :
      String → NavSatFix T → GnssSelectionPolicy → GnssSelectionDecision × GnssSelectionPolicy
  unfolding refuse
  evaluate source_id m p =
      let stamp = stamp_ns m in
      if not (str_eq (lower (strip source_id)) p.selected_source)
      then refuse source_not_selected p
      else if not (str_eq m.frame_id p.expected_frame)
      then refuse unexpected_frame p
      else if leb_ℤ stamp (pos 0) || not (ltb m.nanosec second)
      then refuse invalid_timestamp p
      else if not (is_after p.last_stamp_ns stamp)
      then refuse non_monotonic_timestamp p
      else if not (all F.finite m.position_covariance)
      then refuse non_finite_covariance p
      else elim (position_error m) [
        | some reason ↦ refuse reason p
        | none ↦ (
          record { is_accepted = true; reason = accepted },
          record p { last_stamp_ns = some stamp },
        )
      ]

  -- The samples that are accepted, with their sources.
  pub accepted_of : List (String × NavSatFix T) → GnssSelectionPolicy → List (String × NavSatFix T)
  accepted_of [] p = []
  accepted_of ((source, m) ∷ ms) p =
      let r = evaluate source m p in
      let rest = accepted_of ms r.1 in if r.0.is_accepted then (source, m) ∷ rest else rest

  -- A sample of the selected receiver that may be used.
  pub record IsSelected (selected frame : String) (s : String × NavSatFix T) : Type 0 where
    source : str_eq (lower (strip s.0)) selected ≡ true
    frame_of : str_eq s.1.frame_id frame ≡ true
    positive : ltb_ℤ (pos 0) (stamp_ns s.1) ≡ true
    nanoseconds : ltb s.1.nanosec second ≡ true
    covariance : all F.finite s.1.position_covariance ≡ true
    position :
        (eqb_ℤ s.1.status no_fix ≡ true)
        ⊎ ((F.finite s.1.latitude ≡ true)
            × (F.finite s.1.longitude ≡ true)
            × (F.finite s.1.altitude ≡ true)
            × (F.le (F.neg (F.decimal 90 0)) s.1.latitude ≡ true)
            × (F.le s.1.latitude (F.decimal 90 0) ≡ true)
            × (F.le (F.neg (F.decimal 180 0)) s.1.longitude ≡ true)
            × (F.le s.1.longitude (F.decimal 180 0) ≡ true))

  position_error-none :
      (m : NavSatFix T)
      → position_error m ≡ none
      → (eqb_ℤ m.status no_fix ≡ true)
        ⊎ ((F.finite m.latitude ≡ true)
            × (F.finite m.longitude ≡ true)
            × (F.finite m.altitude ≡ true)
            × (F.le (F.neg (F.decimal 90 0)) m.latitude ≡ true)
            × (F.le m.latitude (F.decimal 90 0) ≡ true)
            × (F.le (F.neg (F.decimal 180 0)) m.longitude ≡ true)
            × (F.le m.longitude (F.decimal 180 0) ≡ true))
  unfolding position_error
  position_error-none m h = elim (Bool-cases (eqb_ℤ m.status no_fix)) [
    | inl e ↦ inl e
    | inr e ↦ inr (
      ground (arith, e, h),
      ground (arith, e, h),
      ground (arith, e, h),
      ground (arith, e, h),
      ground (arith, e, h),
      ground (arith, e, h),
      ground (arith, e, h),
    )
  ]

  evaluate-refused :
      (source : String) (m : NavSatFix T) (p : GnssSelectionPolicy)
      → (evaluate source m p).0.is_accepted ≡ false
      → (evaluate source m p).1 ≡ p
  unfolding evaluate
  evaluate-refused source m p h = elim (Option-cases (position_error m)) [
    | inl e ↦ ground (arith, e, h)
    | inr (reason, e) ↦ ground (arith, e, h)
  ]

  -- A sample that is accepted.
  abbrev Accepts : String → NavSatFix T → GnssSelectionPolicy → Type 0
  Accepts source m p =
      IsSelected p.selected_source p.expected_frame (source, m)
      × (is_after p.last_stamp_ns (stamp_ns m) ≡ true)
      × ((evaluate source m p).1 ≡ record p { last_stamp_ns = some (stamp_ns m) })

  evaluate-Accepts :
      (source : String) (m : NavSatFix T) (p : GnssSelectionPolicy)
      → (evaluate source m p).0.is_accepted ≡ true
      → Accepts source m p
  unfolding evaluate
  evaluate-Accepts source m p h = elim (Option-cases (position_error m)) [
    | inr (reason, e) ↦ absurd (ground (arith, e, h))
    | inl e ↦ (
      record {
        source = ground (arith, e, h);
        frame_of = ground (arith, e, h);
        positive = ground (arith, e, h);
        nanoseconds = ground (arith, e, h);
        covariance = ground (arith, e, h);
        position = position_error-none m e;
      },
      ground (arith, e, h),
      ground (arith, e, h),
    )
  ]

  -- Samples that a policy may let through.
  abbrev pub Follows : GnssSelectionPolicy → List (String × NavSatFix T) → Type 0
  Follows p =
      Ordered (λ s. stamp_ns s.1) (IsSelected p.selected_source p.expected_frame) p.last_stamp_ns

  -- The samples that a policy lets through come from the selected receiver and in its frame, each
  -- with a positive time after that of the one before, and with a finite covariance; a sample with a
  -- fix has a finite position on the globe.
  pub accepted_fixes-Ordered :
      (ms : List (String × NavSatFix T)) (p : GnssSelectionPolicy) → Follows p (accepted_of ms p)
  unfolding accepted_of
  accepted_fixes-Ordered [] p = tt
  accepted_fixes-Ordered ((source, m) ∷ ms) p =
      let n = (evaluate source m p).1 in
      let rest = accepted_fixes-Ordered ms n in
      elim (Bool-cases (evaluate source m p).0.is_accepted) [
        | inr e ↦
            rw e (subst (λ q. Follows q (accepted_of ms n)) (evaluate-refused source m p e) rest)
        | inl e ↦
            let (selected, later, next) = evaluate-Accepts source m p e in
            rw e (later, selected, subst (λ q. Follows q (accepted_of ms n)) next rest)
      ]
