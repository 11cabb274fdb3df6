-- ===== src/Navigation/Preparation/Headings.antt =====
-- The headings of a route are filled in, and nothing else of its checkpoints changes.
use salus_robot.Prelude.{
  ℕ, zero, suc, ◌≡◌, ◌⊎◌, inl, inr, refl, ap, ◌∙◌, Bool, false, some, List, [], ◌∷◌, length,
  get_elem?, set, arith, Bool-cases, Option-cases,
}
use salus_robot.Float.{Float}
use salus_robot.Navigation.Model.{RouteWaypoint}
use salus_robot.Navigation.Preparation.{resolve_at, resolve_from, resolve_yaws}
use salus_robot.Navigation.Preparation.Checkpoints.{AllKeys}

module _ {T : Type 0} ⦃F : Float T⦄ where
  -- A point and what became of it: only its yaw may be another, and only if it was not finite.
  abbrev pub Headed : RouteWaypoint T → RouteWaypoint T → Type 0
  Headed p q = (record q { yaw_deg = p.yaw_deg } ≡ p) × ((F.finite p.yaw_deg ≡ false) ⊎ (q ≡ p))

  abbrev pub AllHeaded : List (RouteWaypoint T) → List (RouteWaypoint T) → Type 0
  AllHeaded [] [] = Unit {0}
  AllHeaded (p ∷ ps) (q ∷ qs) = Headed p q × AllHeaded ps qs
  AllHeaded _ _ = ⊥

  AllHeaded-refl : (ps : List (RouteWaypoint T)) → AllHeaded ps ps
  AllHeaded-refl [] = tt
  AllHeaded-refl (p ∷ ps) = ((refl, inr refl), AllHeaded-refl ps)

  AllHeaded-set :
      (ps qs : List (RouteWaypoint T)) (i : ℕ) (q : RouteWaypoint T) (yaw : T)
      → AllHeaded ps qs
      → get_elem? qs i ≡ some q
      → F.finite q.yaw_deg ≡ false
      → AllHeaded ps (set qs i (record q { yaw_deg = yaw }))
  AllHeaded-set [] [] i q yaw h e f = tt
  AllHeaded-set [] (r ∷ qs) i q yaw h e f = elim h [ ]
  AllHeaded-set (p ∷ ps) [] i q yaw h e f = elim h [ ]
  AllHeaded-set (p ∷ ps) (r ∷ qs) zero q yaw h e f =
      let same : r ≡ q = ground (arith, e) in
      ((ground (arith, same, h.0.0), inl (ground (arith, same, h.0.1, f))), h.1)
  AllHeaded-set (p ∷ ps) (r ∷ qs) (suc i) q yaw h e f = (h.0, AllHeaded-set ps qs i q yaw h.1 e f)

  resolve_at-AllHeaded :
      (loop curve : Bool) (index : ℕ) (ps qs : List (RouteWaypoint T))
      → AllHeaded ps qs
      → AllHeaded ps (resolve_at loop curve index qs (get_elem? qs index))
  unfolding resolve_at
  resolve_at-AllHeaded loop curve index ps qs h = elim (Option-cases (get_elem? qs index)) [
    | inl e ↦ rw e h
    | inr (q, e) ↦ elim (Bool-cases (F.finite q.yaw_deg)) [
      | inl f ↦ rw e (rw f h)
      | inr f ↦ rw e (rw f (AllHeaded-set ps qs index q _ h e f))
    ]
  ]

  resolve_from-AllHeaded :
      (loop curve : Bool) (n index : ℕ) (ps qs : List (RouteWaypoint T))
      → AllHeaded ps qs
      → AllHeaded ps (resolve_from loop curve n index qs)
  unfolding resolve_from
  resolve_from-AllHeaded loop curve zero index ps qs h = h
  resolve_from-AllHeaded loop curve (suc n) index ps qs h =
      resolve_from-AllHeaded loop curve n (suc index) ps
        (resolve_at loop curve index qs (get_elem? qs index))
        (resolve_at-AllHeaded loop curve index ps qs h)

  pub resolve_yaws-AllHeaded :
      (points : List (RouteWaypoint T)) (loop curve : Bool)
      → AllHeaded points (resolve_yaws points loop curve)
  unfolding resolve_yaws
  resolve_yaws-AllHeaded points loop curve =
      resolve_from-AllHeaded loop curve (length points) 0 points points (AllHeaded-refl points)

  pub AllHeaded-AllKeys :
      (ps qs : List (RouteWaypoint T)) → AllHeaded ps qs → AllKeys ps → AllKeys qs
  AllHeaded-AllKeys [] [] h k = tt
  AllHeaded-AllKeys [] (q ∷ qs) h k = elim h [ ]
  AllHeaded-AllKeys (p ∷ ps) [] h k = elim h [ ]
  AllHeaded-AllKeys (p ∷ ps) (q ∷ qs) h k =
      (ap (λ (r : RouteWaypoint T). r.key) h.0.0 ∙ k.0, AllHeaded-AllKeys ps qs h.1 k.1)
