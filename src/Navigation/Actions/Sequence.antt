-- ===== src/Navigation/Actions/Sequence.antt =====
-- The execution of the actions of a waypoint, completed one after the other.
use salus_robot.Prelude.{
  ℕ, zero, suc, ◌+◌, ◌≡◌, refl, Option, none, some, List, [], ◌∷◌, ◌++◌, ap, arith, length, drop,
  get_elem?,
}
use salus_robot.Float.{Float}
use salus_robot.Navigation.Actions.{
  pending, running, succeeded, RouteAction, ActionExecution, start, start_at, complete_current,
  current,
}

-- What is left of a list from an index on.
drop_next :
    {A : Type 0} (n : ℕ) (xs : List A) {a : A} {rest : List A}
    → drop n xs ≡ a ∷ rest
    → drop (suc n) xs ≡ rest
drop_next zero (x ∷ xs) e = cc
drop_next (suc n) [] e = cc
drop_next zero [] e = cc
drop_next (suc n) (x ∷ xs) e = drop_next n xs e

get_elem-drop :
    {A : Type 0} (n : ℕ) (xs : List A) {a : A} {rest : List A}
    → drop n xs ≡ a ∷ rest
    → get_elem? xs n ≡ some a
get_elem-drop zero (x ∷ xs) e = cc
get_elem-drop (suc n) [] e = cc
get_elem-drop zero [] e = cc
get_elem-drop (suc n) (x ∷ xs) e = get_elem-drop n xs e

length-drop_cons :
    {A : Type 0} (n : ℕ) (xs : List A) {a : A} {rest : List A}
    → drop n xs ≡ a ∷ rest
    → length xs ≡ n + suc (length rest)
length-drop_cons zero (x ∷ xs) {rest = rest} e =
    let same : xs ≡ rest = cc in omega (arith, ap length same)
length-drop_cons (suc n) [] e = cc
length-drop_cons zero [] e = cc
length-drop_cons (suc n) (x ∷ xs) e = omega (arith, length-drop_cons n xs e)

-- An action that a call returns, if any.
abbrev listed : {A : Type 0} → Option A → List A
listed none = []
listed (some a) = a ∷ []

module _ {T : Type 0} ⦃F : Float T⦄ where
  -- `complete_current` at each time, and the actions that it returns.
  unfoldable pub complete_all :
      List T → ActionExecution T → List (RouteAction T) × ActionExecution T
  complete_all [] e = ([], e)
  complete_all (now ∷ times) e =
      let (action, f) = complete_current now e in
      let (rest, g) = complete_all times f in (listed action ++ rest, g)

  -- `start`, and then `complete_current` at each time.
  unfoldable pub run : T → List T → ActionExecution T → List (RouteAction T) × ActionExecution T
  run now times e =
      let (action, f) = start now e in
      let (rest, g) = complete_all times f in (listed action ++ rest, g)

  -- A call that completes an action with more to come, and one that completes the last.
  complete-next :
      (now : T) (e : ActionExecution T) (a b : RouteAction T) (rest : List (RouteAction T))
      → e.state ≡ running
      → drop e.cursor e.actions ≡ a ∷ b ∷ rest
      → let (action, f) = complete_current now e in
        (action ≡ some b)
        × (f.state ≡ running)
        × (f.actions ≡ e.actions)
        × (f.cursor ≡ suc e.cursor)
  unfolding complete_current start start_at current
  complete-next now e a b rest r d =
      let next = drop_next e.cursor e.actions d in
      ground
        (arith, length-drop_cons e.cursor e.actions d, get_elem-drop (suc e.cursor) e.actions next)

  complete-last :
      (now : T) (e : ActionExecution T) (a : RouteAction T)
      → e.state ≡ running
      → drop e.cursor e.actions ≡ a ∷ []
      → let (action, f) = complete_current now e in (action ≡ none) × (f.state ≡ succeeded)
  unfolding complete_current start start_at current
  complete-last now e a r d = ground (arith, length-drop_cons e.cursor e.actions d)

  complete_all-rest :
      (times : List T) (e : ActionExecution T) (a : RouteAction T) (rest : List (RouteAction T))
      → e.state ≡ running
      → drop e.cursor e.actions ≡ a ∷ rest
      → length times ≡ suc (length rest)
      → ((complete_all times e).0 ≡ rest) × ((complete_all times e).1.state ≡ succeeded)
  unfolding complete_all
  complete_all-rest [] e a rest r d l = absurd (omega arith)
  complete_all-rest (now ∷ []) e a [] r d l = ground (arith, complete-last now e a r d)
  complete_all-rest (now ∷ t ∷ times) e a [] r d l = absurd (omega arith)
  complete_all-rest (now ∷ times) e a (b ∷ rest) r d l =
      let (out, state, actions, cursor) = complete-next now e a b rest r d in
      let f = (complete_current now e).1 in
      let (outs, ended) =
        complete_all-rest times f b rest state
          (rw (cursor, actions) (drop_next e.cursor e.actions d)) (omega arith) in
      ground (arith, outs, ended)

  start-first :
      (now : T) (e : ActionExecution T) (a : RouteAction T) (rest : List (RouteAction T))
      → e.state ≡ pending
      → e.cursor ≡ 0
      → e.actions ≡ a ∷ rest
      → let (action, f) = start now e in
        (action ≡ some a) × (f.state ≡ running) × (drop f.cursor f.actions ≡ a ∷ rest)
  unfolding start start_at current
  start-first now e a rest p c l =
      let first : drop e.cursor e.actions ≡ a ∷ rest = rw (c, l) refl in
      ground (arith, get_elem-drop e.cursor e.actions first, first)

  start-none :
      (now : T) (e : ActionExecution T)
      → e.state ≡ pending
      → e.actions ≡ []
      → let (action, f) = start now e in (action ≡ none) × (f.state ≡ succeeded)
  unfolding start start_at current
  start-none now e p l =
      let gone : get_elem? e.actions e.cursor ≡ none = rw l refl in ground (arith, gone)

  run-actions :
      (actions : List (RouteAction T)) (now : T) (times : List T) (e : ActionExecution T)
      → e.actions ≡ actions
      → e.state ≡ pending
      → e.cursor ≡ 0
      → length times ≡ length actions
      → ((run now times e).0 ≡ actions) × ((run now times e).1.state ≡ succeeded)
  unfolding run complete_all
  run-actions [] now [] e l p c n = ground (arith, start-none now e p l)
  run-actions [] now (t ∷ times) e l p c n = absurd (omega arith)
  run-actions (a ∷ rest) now times e l p c n =
      let (out, state, left) = start-first now e a rest p c l in
      let (outs, ended) = complete_all-rest times (start now e).1 a rest state left n in
      ground (arith, out, outs, ended)

  -- From a fresh execution, `start` and one `complete_current` for each action return the actions,
  -- each once and in order, and leave the execution succeeded.
  pub run_in_order :
      (now : T) (times : List T) (e : ActionExecution T)
      → e.state ≡ pending
      → e.cursor ≡ 0
      → length times ≡ length e.actions
      → ((run now times e).0 ≡ e.actions) × ((run now times e).1.state ≡ succeeded)
  run_in_order now times e p c l = run-actions e.actions now times e refl p c l
