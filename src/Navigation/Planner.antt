-- ===== src/Navigation/Planner.antt =====
-- planner_failure.py: what the log says of the planner, for the goal that is under way.
pub mod Evidence
use Prim.Native.Char.{code}
use Prim.Native.String
use Prim.Native.String.{◌++◌}
use text.Mathlib.Text.{starts_with, find?}
use salus_robot.Prelude.{
  ℕ, Bool, true, false, not, ◌&&◌, ◌||◌, ◌==◌, Option, none, some, String, str_eq, List, [], ◌∷◌,
  if◌then◌else◌,
}
use salus_robot.Prelude.Int.{ℤ, pos, negsuc, ltb_ℤ, eqb_ℤ}
use salus_robot.Prelude.Text.{avoids}
use salus_robot.Float.{Float, nought}

pub record PlannerFailureEvidence (T : Type 0) : Type 0 where
  pub goal_epoch : ℤ
  pub observed_at_s : Option T

-- `name.rsplit("/", 1)[-1]`: what stands after the last slash.
unfoldable pub last_part : String → String
last_part String.[] = ""
last_part (String.◌∷◌ d s) =
    let rest = last_part s in
    if not (avoids 47 s) then rest else if code d == 47 then s else String.◌∷◌ d s

-- `t in s`
unfoldable pub contains : String → String → Bool
contains s t = elim (find? s t) [ none ↦ false | some k ↦ true ]

-- Python's `str.lower`.
module _ (lower : String → String) where
  -- A message of a planner server that no plan was found.
  unfoldable pub reports_failure : String → String → Bool
  unfolding last_part contains
  reports_failure name message =
      starts_with (last_part name) "planner_server"
      && (contains (lower message) "failed to create plan"
          || contains (lower message) "failed to generate a valid path")

unfoldable pub new : {T : Type 0} → PlannerFailureEvidence T
new = record { goal_epoch = negsuc 0; observed_at_s = none }

unfoldable pub begin_goal : {T : Type 0} → ℤ → PlannerFailureEvidence T → PlannerFailureEvidence T
begin_goal epoch e = record { goal_epoch = epoch; observed_at_s = none }

unfoldable pub observe_log :
    {T : Type 0}
    → (String → String)
    → String
    → String
    → T
    → PlannerFailureEvidence T
    → PlannerFailureEvidence T
observe_log lower name message now_s e =
    if ltb_ℤ e.goal_epoch (pos 0)
    then e
    else if reports_failure lower name message
    then record e { observed_at_s = some now_s }
    else e

module _ {T : Type 0} ⦃F : Float T⦄ where
  -- `0.0 <= now_s - self.observed_at_s <= 12.0`
  unfoldable pub is_recent : T → T → Bool
  is_recent now_s observed_at_s =
      F.le nought (F.sub now_s observed_at_s) && F.le (F.sub now_s observed_at_s) (F.decimal 12 0)

  unfoldable pub recent_failure : T → Option T → Bool
  recent_failure now_s none = false
  recent_failure now_s (some t) = is_recent now_s t

  unfoldable pub aborted_for_no_path : ℤ → T → PlannerFailureEvidence T → Bool
  unfolding recent_failure
  aborted_for_no_path epoch now_s e =
      eqb_ℤ e.goal_epoch epoch && recent_failure now_s e.observed_at_s

-- `operator_block_reason`
unfoldable pub operator_block_reason : String → String
operator_block_reason reason =
    let detail =
      if str_eq reason "PLANNER_U_TURN"
      then "un giro en U"
      else if str_eq reason "PLANNER_LOOP"
      then "un rulo"
      else "geometría inválida" in
    if str_eq reason "PLANNER_U_TURN"
      || str_eq reason "PLANNER_LOOP"
      || str_eq reason "MANEUVER_GEOMETRY_INVALID"
    then "Navegación bloqueada: el planner propuso " ++ detail
      ++ ". Se agotó la espera de un camino alternativo. "
      ++ "La misión conserva sus puntos pendientes. Cancelá y volvé a iniciar "
      ++ "explícitamente después de revisar el recorrido."
    else if str_eq reason "NO_VALID_PATH"
    then "No se encontró un camino seguro al siguiente punto. "
      ++ "Revisá los obstáculos o elegí otra ruta."
    else if str_eq reason "NAV_ABORTED"
    then "La navegación se interrumpió. Revisá el camino y los "
      ++ "diagnósticos antes de volver a intentar."
    else reason
