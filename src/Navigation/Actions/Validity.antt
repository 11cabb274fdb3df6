-- ===== src/Navigation/Actions/Validity.antt =====
-- What the actions of `parse_actions` satisfy.
use salus_robot.Prelude.{
  ℕ, suc, Option, Bool, false, if◌then◌else◌, str_eq, none, some, ◌≡◌, ◌⊎◌, refl, true, List, [],
  ◌∷◌, ◌++◌, String, arith, eq_iff,
}
use salus_robot.Prelude.Int.{pos, ◌≤ℤ◌}
use salus_robot.Prelude.Text.{is_in, strip}
use salus_robot.Float.{Float, nought}
use salus_robot.Json.{Json, Items, PyJson}
use salus_robot.Navigation.Actions.{
  RouteAction, Parsed, invalid_json, parsed, refused, overflow, ItemParsed, item, item_refused,
  item_overflow, brake_hold, set_profile, label_of, text_field, float_field, int_of, parse_item,
  parse_items, parse_payload, parse_actions,
}

module _ {T : Type 0} ⦃F : Float T⦄ where
  -- A hold of the brake for a time in (0, 600] seconds at 0 to 100 percent, or a known profile.
  abbrev pub IsValid : RouteAction T → Type 0
  IsValid a =
      ((a.kind ≡ "brake_hold")
        × (F.finite a.duration_s ≡ true)
        × (F.lt nought a.duration_s ≡ true)
        × (F.le a.duration_s (F.decimal 600 0) ≡ true)
        × (pos 0 ≤ℤ a.brake_pct)
        × (a.brake_pct ≤ℤ pos 100))
      ⊎ ((a.kind ≡ "set_navigation_profile") × ((a.profile ≡ "urban") ⊎ (a.profile ≡ "rural")))

  abbrev pub AllValid : List (RouteAction T) → Type 0
  AllValid [] = Unit
  AllValid (a ∷ as') = IsValid a × AllValid as'

  AllValid-append :
      (xs : List (RouteAction T)) (a : RouteAction T)
      → AllValid xs
      → IsValid a
      → AllValid (xs ++ a ∷ [])
  AllValid-append [] a h v = (v, tt)
  AllValid-append (x ∷ xs) a h v = (h.0, AllValid-append xs a h.1 v)

  abbrev ItemValid : ItemParsed T → Type 0
  ItemValid (item a c) = IsValid a
  ItemValid _ = Unit

  abbrev pub ParsedValid : Parsed T → Type 0
  ParsedValid (parsed actions c) = AllValid actions
  ParsedValid _ = Unit

  module _ ⦃P : PyJson T⦄ where
    brake_hold-Valid : (w : ℕ) (label : String) (d : _) (b : _) → ItemValid (brake_hold w label d b)
    unfolding brake_hold
    brake_hold-Valid w label d b = ground arith

    set_profile-Valid :
        (w : ℕ) (label profile : String) (r : ItemParsed T)
        → r ≡ set_profile w label profile
        → ItemValid r
    unfolding set_profile is_in
    set_profile-Valid w label profile r e =
        ground (arith, eq_iff profile "urban", eq_iff profile "rural")

    parse_item-Valid : (w i : ℕ) (v : Json T) → ItemValid (parse_item w i v)
    unfolding parse_item
    parse_item-Valid w i (Json.obj fields) =
        let brake = float_field "brake_pct" (F.decimal 100 0) fields in
        let label = label_of fields in
        let profile = P.lower (text_field "profile" fields) in
        ground (
          arith,
          brake_hold-Valid w label (float_field "duration_s" nought fields)
              (elim brake [ none ↦ none | some x ↦ some (int_of x) ]),
          set_profile-Valid w label profile (set_profile w label profile) refl,
        )
    parse_item-Valid w i v = ground arith

    -- What follows an item.
    after_item-Valid :
        (next : RouteAction T → Json T → Parsed T)
        → ((a : RouteAction T) (c : Json T) → IsValid a → ParsedValid (next a c))
        → (r : ItemParsed T) → ItemValid r
        → ParsedValid
            (elim r [ item a c ↦ next a c | item_refused e ↦ refused e | item_overflow ↦ overflow ])
    after_item-Valid next ih (item a c) h = ih a c h
    after_item-Valid next ih (item_refused e) h = tt
    after_item-Valid next ih item_overflow h = tt

    parse_items-Valid :
        (w i : ℕ) (actions : List (RouteAction T)) (canonical : List (Json T)) (items : Items T)
        → AllValid actions
        → ParsedValid (parse_items w i actions canonical items)
    unfolding parse_items
    parse_items-Valid w i actions canonical Items.nil h = h
    parse_items-Valid w i actions canonical (Items.cons v rest) h =
        after_item-Valid
          (λ a c. parse_items w (suc i) (actions ++ a ∷ []) (canonical ++ c ∷ []) rest)
          (λ a c k.
            parse_items-Valid w (suc i) (actions ++ a ∷ []) (canonical ++ c ∷ []) rest
              (AllValid-append actions a h k))
          (parse_item w i v) (parse_item-Valid w i v)

    parse_payload-Valid : (w : ℕ) (payload : Json T) → ParsedValid (parse_payload w payload)
    unfolding parse_payload
    parse_payload-Valid w (Json.arr (Items.cons v rest)) =
        parse_items-Valid w 0 [] [] (Items.cons v rest) tt
    parse_payload-Valid w (Json.str String.[]) = tt
    parse_payload-Valid w (Json.str (String.◌∷◌ c s)) = tt
    parse_payload-Valid w payload = ground arith

    -- The text, once it is known whether it is empty and what it decodes to.
    parsed-Valid :
        (w : ℕ) (blank : Bool) (payload : Option (Json T))
        → ParsedValid (
            if blank
            then parsed [] ""
            else elim payload [ none ↦ refused (invalid_json w) | some p ↦ parse_payload w p ])
    parsed-Valid w true payload = tt
    parsed-Valid w false none = tt
    parsed-Valid w false (some p) = parse_payload-Valid w p

    -- Every action of the list that `parse_actions` returns holds the brake for a finite time in
    -- (0, 600] seconds at 0 to 100 percent, or names the urban or the rural profile.
    pub parse_actions-Valid :
        (raw : String) (w : ℕ) {actions : List (RouteAction T)} {canonical : String}
        → parse_actions raw w ≡ parsed actions canonical
        → AllValid actions
    unfolding parse_actions
    parse_actions-Valid raw w {actions} {canonical} e =
        rw e at (parsed-Valid w (str_eq (strip raw) "") (P.loads (strip raw)))
