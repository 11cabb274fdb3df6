-- ===== src/Navigation/Actions.antt =====
-- route_actions.py: the actions of a waypoint, and their execution.
pub mod Validity
pub mod Sequence
use salus_robot.Prelude.{
  ℕ, suc, Bool, true, false, Option, none, some, List, [], ◌∷◌, ◌++◌, String, str_eq, leb, not,
  ◌&&◌, length, get_elem?, if◌then◌else◌,
}
use salus_robot.Prelude.Int.{ℤ, pos, max_ℤ, min_ℤ}
use salus_robot.Prelude.Text.{strip, prefix, is_in}
use salus_robot.Float
use salus_robot.Float.{Float, nought}
use salus_robot.Json.{Json, Items, Fields, PyJson, lookup, truthy, to_items}

pub data ActionState : Type 0 where
  pending running succeeded failed cancelled : ActionState

pub record RouteAction (T : Type 0) : Type 0 where
  pub kind : String
  pub duration_s : T
  pub brake_pct : ℤ
  pub profile : String
  pub label : String

pub record ActionExecution (T : Type 0) : Type 0 where
  pub waypoint_index : ℕ
  pub actions : List (RouteAction T)
  pub state : ActionState
  pub cursor : ℕ
  pub started_s : Option T
  pub deadline_s : Option T
  pub error : String

abbrev pub is_open : ActionState → Bool
is_open pending = true
is_open running = true
is_open _ = false

abbrev pub is_running : ActionState → Bool
is_running running = true
is_running _ = false

-- The errors of `parse_actions` that are texts, without their wording.
pub data ActionError : Type 0 where
  invalid_json not_an_array : ℕ → ActionError
  not_an_object : ℕ → ℕ → ActionError
  invalid_brake_hold duration_out_of_range unknown_profile : ℕ → ActionError
  unsupported_type : ActionError

module _ {T : Type 0} ⦃F : Float T⦄ where
  unfoldable pub current : ActionExecution T → Option (RouteAction T)
  current e = get_elem? e.actions e.cursor

  -- `start` at the current action.
  start_at :
      Option (RouteAction T) → T → ActionExecution T → Option (RouteAction T) × ActionExecution T
  start_at none now e = (none, record e { state = succeeded })
  start_at (some action) now e = (
    some action,
    record e {
      state = running;
      started_s = some now;
      deadline_s =
          if str_eq action.kind "brake_hold" then some (F.add now action.duration_s) else none;
    },
  )

  unfoldable pub start : T → ActionExecution T → Option (RouteAction T) × ActionExecution T
  unfolding start_at current
  start now e = if not (is_open e.state) then (none, e) else start_at (current e) now e

  unfoldable pub complete_current :
      T → ActionExecution T → Option (RouteAction T) × ActionExecution T
  unfolding start
  complete_current now e =
      if not (is_running e.state)
      then (none, e)
      else (let next = record e { cursor = suc e.cursor; started_s = none; deadline_s = none } in
          if leb (length next.actions) next.cursor
          then (none, record next { state = succeeded })
          else start now next)

  unfoldable pub fail : String → ActionExecution T → ActionExecution T
  fail error e = record e { state = failed; error = error }

  unfoldable pub cancel : String → ActionExecution T → ActionExecution T
  cancel reason e = if is_open e.state then record e { state = cancelled; error = reason } else e

  -- `self.deadline_s or now_s`: a deadline of 0.0 counts as none.
  abbrev deadline_or : Option T → T → T
  deadline_or none now = now
  deadline_or (some deadline) now = if F.eq deadline nought then now else deadline

  unfoldable pub remaining_s : T → ActionExecution T → T
  remaining_s now e = Float.max nought (F.sub (deadline_or e.deadline_s now) now)

-- What `parse_actions` returns, or that it raises `OverflowError`.
pub data Parsed (T : Type 0) : Type 0 where
  parsed : List (RouteAction T) → String → Parsed T
  refused : ActionError → Parsed T
  overflow : Parsed T

-- The outcome of one item: its action and canonical value.
pub data ItemParsed (T : Type 0) : Type 0 where
  item : RouteAction T → Json T → ItemParsed T
  item_refused : ActionError → ItemParsed T
  item_overflow : ItemParsed T

module _ {T : Type 0} ⦃F : Float T⦄ ⦃P : PyJson T⦄ where
  -- `float(item.get(key, default))`
  float_field : String → T → Fields T → Option T
  float_field key default fields = elim (lookup key fields) [
    | none ↦ some default
    | some v ↦ P.to_float v
  ]

  -- `int(x)` of a float: a NaN is a ValueError, an infinity an OverflowError.
  int_of : T → Option (Option ℤ)
  int_of x = if F.finite x then some (some (F.truncate x)) else if F.eq x x then none else some none

  -- `str(item.get("type", "")).strip()`
  text_field : String → Fields T → String
  text_field key fields = elim (lookup key fields) [
    | none ↦ ""
    | some (Json.str s) ↦ strip s
    | some v ↦ strip (P.to_str v)
  ]

  -- `str(item.get("label", "") or "").strip()[:80]`
  label_of : Fields T → String
  unfolding truthy
  label_of fields = elim (lookup "label" fields) [
    | none ↦ ""
    | some (Json.str s) ↦ prefix 80 (strip s)
    | some v ↦ if truthy v then prefix 80 (strip (P.to_str v)) else ""
  ]

  -- The canonical object, with its label if there is one.
  with_label : String → Fields T → Json T
  with_label label fields =
      Json.obj (if str_eq label "" then fields else Fields.field "label" (Json.str label) fields)

  brake_hold : ℕ → String → Option T → Option (Option (Option ℤ)) → ItemParsed T
  unfolding with_label
  brake_hold waypoint label (some duration) (some (some (some brake))) =
      if not (F.finite duration && F.lt nought duration && F.le duration (F.decimal 600 0))
      then item_refused (duration_out_of_range waypoint)
      else (let clamped = max_ℤ (pos 0) (min_ℤ (pos 100) brake) in
          item
            (record {
              kind = "brake_hold";
              duration_s = duration;
              brake_pct = clamped;
              profile = "";
              label = label;
            })
            (with_label label (
              Fields.field "brake_pct" (Json.int clamped) (
                Fields.field "duration_s" (Json.float duration)
                  (Fields.field "type" (Json.str "brake_hold") Fields.end)))))
  brake_hold waypoint label (some duration) (some none) = item_overflow
  brake_hold waypoint label _ _ = item_refused (invalid_brake_hold waypoint)

  set_profile : ℕ → String → String → ItemParsed T
  unfolding with_label
  set_profile waypoint label profile =
      if not (is_in profile ("urban" ∷ "rural" ∷ []))
      then item_refused (unknown_profile waypoint)
      else item
          (record {
            kind = "set_navigation_profile";
            duration_s = nought;
            brake_pct = pos 0;
            profile = profile;
            label = label;
          })
          (with_label label (
            Fields.field "profile" (Json.str profile)
              (Fields.field "type" (Json.str "set_navigation_profile") Fields.end)))

  unfoldable pub parse_item : ℕ → ℕ → Json T → ItemParsed T
  unfolding brake_hold set_profile text_field label_of float_field int_of
  parse_item waypoint index (Json.obj fields) =
      let kind = text_field "type" fields in
      let label = label_of fields in
      if str_eq kind "brake_hold"
      then brake_hold waypoint label (float_field "duration_s" nought fields)
          (elim (float_field "brake_pct" (F.decimal 100 0) fields) [
            | none ↦ none
            | some x ↦ some (int_of x)
          ])
      else if str_eq kind "set_navigation_profile"
      then set_profile waypoint label (P.lower (text_field "profile" fields))
      else item_refused unsupported_type
  parse_item waypoint index _ = item_refused (not_an_object waypoint index)

  -- The loop over the items.
  unfoldable pub parse_items : ℕ → ℕ → List (RouteAction T) → List (Json T) → Items T → Parsed T
  parse_items waypoint index actions canonical Items.nil =
      parsed actions (P.dumps (Json.arr (to_items canonical)))
  parse_items waypoint index actions canonical (Items.cons v rest) =
      elim (parse_item waypoint index v) [
        | item a c ↦ parse_items waypoint (suc index) (actions ++ a ∷ []) (canonical ++ c ∷ []) rest
        | item_refused e ↦ refused e
        | item_overflow ↦ overflow
      ]

  unfoldable pub parse_payload : ℕ → Json T → Parsed T
  unfolding parse_items
  parse_payload waypoint Json.null = parsed [] ""
  parse_payload waypoint (Json.str String.[]) = parsed [] ""
  parse_payload waypoint (Json.arr Items.nil) = parsed [] ""
  parse_payload waypoint (Json.arr items) = parse_items waypoint 0 [] [] items
  parse_payload waypoint _ = refused (not_an_array waypoint)

  unfoldable pub parse_actions : String → ℕ → Parsed T
  unfolding parse_payload
  parse_actions raw waypoint =
      let text = strip raw in
      if str_eq text "" then parsed [] "" else elim (P.loads text) [
        | none ↦ refused (invalid_json waypoint)
        | some payload ↦ parse_payload waypoint payload
      ]
