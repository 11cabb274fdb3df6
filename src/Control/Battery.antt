-- ===== src/Control/Battery.antt =====
-- battery_estimator.py: the charge that a voltage stands for, and the guard of a mission.
pub mod Guard
use salus_robot.Prelude.{
  ℕ, Bool, true, false, not, ◌&&◌, ◌||◌, Option, none, some, String, str_eq, List, [], ◌∷◌, map,
  length, ltb, if◌then◌else◌,
}
use salus_robot.Prelude.Result.{Result, ok, err, ◌>>=◌, map_result}
use salus_robot.Float
use salus_robot.Float.{Float, nought, one}

-- What the checks of a curve raise.
pub data CurveError : Type 0 where
  too_few voltage_not_finite voltage_not_increasing percentage_decreasing not_pairs : CurveError

-- Points of a voltage and the share of the charge.
abbrev pub Curve : Type 0 → Type 0
Curve T = List (T × T)

pub record BatteryEstimate (T : Type 0) : Type 0 where
  pub raw_voltage_v : T
  pub filtered_voltage_v : T
  pub loaded_voltage_fast_v : T
  pub loaded_voltage_slow_v : T
  pub recovered_voltage_v : T
  pub soc_voltage_v : T
  pub raw_percentage : T
  pub filtered_percentage : T
  pub operator_soc_pct : T
  pub traction_active : Bool
  pub return_home_recommended : Bool
  pub mission_guard_state : String
  pub loaded_low_persist_s : T
  pub recovered_low_persist_s : T

pub record BatteryEstimator (T : Type 0) : Type 0 where
  pub soc_curve_points : Curve T
  pub return_home_voltage_v : T
  pub return_home_persist_s : T
  pub guard_clear_voltage_v : T
  pub guard_clear_persist_s : T
  pub last_sample_time_s : Option T
  pub low_elapsed_s : T
  pub clear_elapsed_s : T
  pub mission_guard_latched : Bool

-- The settings that the constructor takes.
pub record GuardSettings (T : Type 0) : Type 0 where
  pub return_home_voltage_v : T
  pub return_home_persist_s : T
  pub guard_clear_voltage_v : T
  pub guard_clear_persist_s : T

module _ {T : Type 0} ⦃F : Float T⦄ where
  abbrev pub default_curve : Curve T
  default_curve =
      (F.decimal 445 1, F.decimal 0 1)
      ∷ (F.decimal 465 1, F.decimal 15 2)
      ∷ (F.decimal 480 1, F.decimal 35 2)
      ∷ (F.decimal 500 1, F.decimal 60 2)
      ∷ (F.decimal 520 1, F.decimal 85 2)
      ∷ (F.decimal 535 1, F.decimal 10 1)
      ∷ []

  unfoldable pub clamp01 : T → T
  unfolding Float.max Float.min
  clamp01 value = Float.max nought (Float.min one value)

  -- The checks of a point against the one before it.
  unfoldable pub point_error : Option (T × T) → T × T → Option CurveError
  point_error none (v, p) = if not (F.finite v) then some voltage_not_finite else none
  point_error (some (last_v, last_p)) (v, p) =
      if not (F.finite v)
      then some voltage_not_finite
      else if F.le v last_v
      then some voltage_not_increasing
      else if F.lt p last_p
      then some percentage_decreasing
      else none

  unfoldable pub curve_error : Option (T × T) → Curve T → Option CurveError
  curve_error last [] = none
  curve_error last (point ∷ points) =
      let rest = curve_error (some point) points in
      elim (point_error last point) [ none ↦ rest | some e ↦ some e ]

  unfoldable pub ensure_monotonic_curve : Curve T → Result CurveError (Curve T)
  ensure_monotonic_curve points =
      let curve = map (λ q. (q.0, clamp01 q.1)) points in
      if ltb (length curve) 2
      then err too_few
      else elim (curve_error none curve) [ none ↦ ok curve | some e ↦ err e ]

  -- The pairs of a list of numbers; `none` where its length is odd.
  unfoldable pub pairs : List T → Option (Curve T)
  pairs [] = some []
  pairs (v ∷ []) = none
  pairs (v ∷ p ∷ rest) = elim (pairs rest) [ none ↦ none | some qs ↦ some ((v, p) ∷ qs) ]

  unfoldable pub parse_soc_curve_points : List T → Curve T → Result CurveError (Curve T)
  parse_soc_curve_points [] defaults = ensure_monotonic_curve defaults
  parse_soc_curve_points (value ∷ values) defaults =
      if ltb (length (value ∷ values)) 4 then err not_pairs else elim (pairs (value ∷ values)) [
        | none ↦ err not_pairs
        | some points ↦ ensure_monotonic_curve points
      ]

  -- `curve_points or DEFAULT_OPERATOR_SOC_CURVE`
  abbrev pub or_default : Curve T → Curve T
  or_default [] = default_curve
  or_default (q ∷ qs) = q ∷ qs

  -- `curve[-1][0]`, of a curve that is not empty.
  unfoldable pub last_voltage : T → Curve T → T
  last_voltage v [] = v
  last_voltage v ((w, p) ∷ qs) = last_voltage w qs

  -- The loop over the segments, from a point on.
  unfoldable pub along : T → T × T → Curve T → T
  along voltage start [] = one
  along voltage (v0, p0) ((v1, p1) ∷ points) =
      let rest = along voltage (v1, p1) points in
      if F.le voltage v1
      then (let ratio = F.div (F.sub voltage v0) (Float.max (F.decimal 1 6) (F.sub v1 v0)) in
          clamp01 (F.add p0 (F.mul ratio (F.sub p1 p0))))
      else rest

  abbrev on_curve : T → Curve T → T
  on_curve voltage [] = nought
  on_curve voltage ((v, p) ∷ points) =
      if F.le voltage v
      then nought
      else if F.le (last_voltage v points) voltage
      then one
      else along voltage (v, p) points

  unfoldable pub piecewise_soc_from_voltage : T → Curve T → Result CurveError T
  piecewise_soc_from_voltage voltage curve_points =
      if not (F.finite voltage)
      then ok nought
      else map_result (on_curve voltage) (ensure_monotonic_curve (or_default curve_points))

  unfoldable pub create : Curve T → GuardSettings T → Result CurveError (BatteryEstimator T)
  create points s =
      map_result
        (λ curve. record {
          soc_curve_points = curve;
          return_home_voltage_v = s.return_home_voltage_v;
          return_home_persist_s = Float.max nought s.return_home_persist_s;
          guard_clear_voltage_v = Float.max s.return_home_voltage_v s.guard_clear_voltage_v;
          guard_clear_persist_s = Float.max nought s.guard_clear_persist_s;
          last_sample_time_s = none;
          low_elapsed_s = nought;
          clear_elapsed_s = nought;
          mission_guard_latched = false;
        })
        (ensure_monotonic_curve (or_default points))

  unfoldable pub break_continuity : BatteryEstimator T → BatteryEstimator T
  break_continuity b = record b {
    last_sample_time_s = none;
    low_elapsed_s = nought;
    clear_elapsed_s = nought;
  }

  -- `dt_s` of a sample.
  abbrev elapsed : Option T → T → T
  elapsed none now = nought
  elapsed (some last) now = Float.max nought (F.sub now last)

  -- A valid sample with the guard off: how long the voltage has been low.
  unfoldable pub watch_low : T → T → BatteryEstimator T → BatteryEstimator T
  watch_low voltage dt b =
      let low = if F.le voltage b.return_home_voltage_v then F.add b.low_elapsed_s dt else nought in
      record b {
        clear_elapsed_s = nought;
        low_elapsed_s = low;
        mission_guard_latched = F.le b.return_home_persist_s low;
      }

  -- A valid sample with the guard on: how long the voltage has been high.
  unfoldable pub watch_clear : T → T → BatteryEstimator T → BatteryEstimator T
  watch_clear voltage dt b =
      let clear =
        if F.le b.guard_clear_voltage_v voltage then F.add b.clear_elapsed_s dt else nought in
      if F.le b.guard_clear_persist_s clear
      then record b {
        mission_guard_latched = false;
        low_elapsed_s = nought;
        clear_elapsed_s = nought;
      }
      else record b { clear_elapsed_s = clear }

  -- What `update` does to the estimator.
  unfoldable pub track : T → T → Bool → BatteryEstimator T → BatteryEstimator T
  unfolding break_continuity watch_low watch_clear
  track voltage time valid b =
      let dt = elapsed b.last_sample_time_s time in
      let watched =
        if b.mission_guard_latched then watch_clear voltage dt b else watch_low voltage dt b in
      if valid then record watched { last_sample_time_s = some time } else break_continuity b

  -- What `update` returns, and the estimator that it leaves, also where it raises.
  unfoldable pub update :
      T
      → T
      → Bool
      → Bool
      → BatteryEstimator T
      → Result CurveError (BatteryEstimate T) × BatteryEstimator T
  update voltage time traction valid b =
      let q = track voltage time valid b in
      (
        map_result
            (λ percentage. record {
              raw_voltage_v = voltage;
              filtered_voltage_v = voltage;
              loaded_voltage_fast_v = voltage;
              loaded_voltage_slow_v = voltage;
              recovered_voltage_v = voltage;
              soc_voltage_v = voltage;
              raw_percentage = percentage;
              filtered_percentage = percentage;
              operator_soc_pct = F.mul (F.decimal 100 0) percentage;
              traction_active = traction;
              return_home_recommended = q.mission_guard_latched;
              mission_guard_state = if q.mission_guard_latched then "LOW_ENERGY_GO_HOME" else "OK";
              loaded_low_persist_s = q.low_elapsed_s;
              recovered_low_persist_s = q.clear_elapsed_s;
            })
            (piecewise_soc_from_voltage voltage q.soc_curve_points),
        q,
      )

  unfoldable pub battery_state_label : Bool → Bool → Bool → Bool → String → T → T → T → T → String
  battery_state_label ready fresh link_fresh suspect guard voltage low critical minimum =
      if not ready
      then "UNAVAILABLE"
      else if not link_fresh || not fresh
      then "STALE"
      else if suspect
      then "SUSPECT"
      else if str_eq guard "LOW_ENERGY_GO_HOME"
      then "LOW_ENERGY_GO_HOME"
      else if F.lt voltage minimum
      then "BELOW_MINIMUM"
      else if F.le voltage critical
      then "CRITICAL"
      else if F.le voltage low
      then "LOW"
      else "OK"
