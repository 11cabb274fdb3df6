-- ===== src/Navigation/Preparation/Checkpoints.antt =====
-- A prepared route goes through the checkpoints that it was made of.
use salus_robot.Prelude.{
  ℕ, zero, suc, ◌≡◌, ◌⊎◌, inl, inr, refl, Bool, true, false, Option, none, some, List, [], ◌∷◌,
  ◌++◌, arith, Bool-cases, Option-cases, ◌||◌, is_empty, if◌then◌else◌,
}
use salus_robot.Prelude.Int.{ℤ, pos}
use salus_robot.Float.{Float, nought}
use salus_robot.Navigation.Model.{RouteWaypoint, distance_to}
use salus_robot.Navigation.Preparation.{last_of, leg_yaw, steps, samples, leg, legs, expand}

module _ {T : Type 0} where
  -- The checkpoints among the points of a route, in order.
  pub keys : List (RouteWaypoint T) → List (RouteWaypoint T)
  keys [] = []
  keys (p ∷ ps) = if p.key then p ∷ keys ps else keys ps

  keys-append : (ps qs : List (RouteWaypoint T)) → keys (ps ++ qs) ≡ keys ps ++ keys qs
  unfolding keys
  keys-append [] qs = refl
  keys-append (p ∷ ps) qs = ground (arith, keys-append ps qs)

  abbrev pub AllKeys : List (RouteWaypoint T) → Type 0
  AllKeys [] = Unit {0}
  AllKeys (p ∷ ps) = (p.key ≡ true) × AllKeys ps

  -- Points after a checkpoint with this index: a point that is no checkpoint is put after the one
  -- before it, and has no role, action or heading of its own.
  abbrev pub Trails : ℤ → List (RouteWaypoint T) → Type 0
  Trails i [] = Unit {0}
  Trails i (p ∷ ps) =
      ((p.key ≡ true)
        ⊎ ((p.input_index ≡ i)
            × (p.role ≡ "normal")
            × (p.action_json ≡ "")
            × (p.yaw_explicit ≡ false)))
      × Trails p.input_index ps

  -- The same of a route, which starts at a checkpoint.
  abbrev pub Starts : List (RouteWaypoint T) → Type 0
  Starts [] = Unit {0}
  Starts (p ∷ ps) = (p.key ≡ true) × Trails p.input_index ps

  abbrev pub Ends : List (RouteWaypoint T) → Type 0
  Ends [] = Unit {0}
  Ends (p ∷ ps) = (last_of p ps).key ≡ true

  keys-AllKeys : (ps : List (RouteWaypoint T)) → AllKeys ps → keys ps ≡ ps
  unfolding keys
  keys-AllKeys [] h = refl
  keys-AllKeys (p ∷ ps) h = ground (arith, h.0, keys-AllKeys ps h.1)

  AllKeys-Trails : (i : ℤ) (ps : List (RouteWaypoint T)) → AllKeys ps → Trails i ps
  AllKeys-Trails i [] h = tt
  AllKeys-Trails i (p ∷ ps) h = (inl h.0, AllKeys-Trails p.input_index ps h.1)

  AllKeys-Starts : (ps : List (RouteWaypoint T)) → AllKeys ps → Starts ps
  AllKeys-Starts [] h = tt
  AllKeys-Starts (p ∷ ps) h = (h.0, AllKeys-Trails p.input_index ps h.1)

  AllKeys-Ends :
      (p : RouteWaypoint T) (ps : List (RouteWaypoint T)) → AllKeys (p ∷ ps) → Ends (p ∷ ps)
  unfolding last_of
  AllKeys-Ends p [] h = h.0
  AllKeys-Ends p (q ∷ ps) h = AllKeys-Ends q ps h.1

  Starts-Trails : (i : ℤ) (ps : List (RouteWaypoint T)) → Starts ps → Trails i ps
  Starts-Trails i [] h = tt
  Starts-Trails i (p ∷ ps) h = (inl h.0, h.1)

  Trails-append :
      (i : ℤ) (ps qs : List (RouteWaypoint T)) → Trails i ps → Starts qs → Trails i (ps ++ qs)
  Trails-append i [] qs h k = Starts-Trails i qs k
  Trails-append i (p ∷ ps) qs h k = (h.0, Trails-append p.input_index ps qs h.1 k)

  Ends-append :
      (p q : RouteWaypoint T) (ps qs : List (RouteWaypoint T))
      → Ends (q ∷ qs)
      → Ends ((p ∷ ps) ++ q ∷ qs)
  unfolding last_of
  Ends-append p q [] qs h = h
  Ends-append p q (r ∷ ps) qs h = Ends-append r q ps qs h

module _ {T : Type 0} ⦃F : Float T⦄ where
  keys-samples :
      (p q : RouteWaypoint T) (yaw spacing distance : T) (step n : ℕ)
      → keys (samples p q yaw spacing distance step n) ≡ []
  unfolding keys samples
  keys-samples p q yaw spacing distance step zero = refl
  keys-samples p q yaw spacing distance step (suc n) =
      ground (arith, keys-samples p q yaw spacing distance (suc step) n)

  samples-Trails :
      (p q : RouteWaypoint T) (yaw spacing distance : T) (step n : ℕ)
      → Trails p.input_index (samples p q yaw spacing distance step n)
  unfolding samples
  samples-Trails p q yaw spacing distance step zero = tt
  samples-Trails p q yaw spacing distance step (suc n) =
      elim (Bool-cases (
        F.lt (F.sub distance (F.mul (F.of_ℤ (pos step)) spacing))
          (F.div spacing (F.decimal 2 0)))) [
            | inl e ↦ rw e tt
            | inr e ↦
                rw e (
                  inr (refl, refl, refl, refl),
                  samples-Trails p q yaw spacing distance (suc step) n,
                )
          ]

  -- What is put on a leg.
  leg-Inserts :
      (spacing : T) (curve : Bool) (p q : RouteWaypoint T) {out : List (RouteWaypoint T)}
      → leg spacing curve p q ≡ some out
      → (inserted : List (RouteWaypoint T)) × (out ≡ p ∷ inserted)
        × (keys inserted ≡ [])
        × Trails p.input_index inserted
  unfolding leg
  leg-Inserts spacing curve p q h =
      let distance = distance_to p q in
      let n = steps (F.truncate (F.floordiv distance spacing)) in
      let yaw = leg_yaw curve p q in
      (
        samples p q yaw spacing distance 1 n,
        ground (arith, h),
        keys-samples p q yaw spacing distance 1 n,
        samples-Trails p q yaw spacing distance 1 n,
      )

  -- The result of a leg and what comes after it, where both are there.
  legs_cons :
      (spacing : T) (curve : Bool) (closing : Option (RouteWaypoint T)) (p q : RouteWaypoint T)
      (ps : List (RouteWaypoint T)) {out : List (RouteWaypoint T)}
      → legs spacing curve closing p (q ∷ ps) ≡ some out
      → (inserted later : List (RouteWaypoint T)) × (out ≡ p ∷ (inserted ++ later))
        × (keys inserted ≡ [])
        × Trails p.input_index inserted
        × (legs spacing curve closing q ps ≡ some later)
  unfolding legs
  legs_cons spacing curve closing p q ps h = elim (Option-cases (leg spacing curve p q)) [
    | inl e ↦ absurd (ground (arith, e, h))
    | inr (part, e) ↦ elim (Option-cases (legs spacing curve closing q ps)) [
      | inl f ↦ absurd (ground (arith, e, f, h))
      | inr (later, f) ↦
          let (inserted, whole, none_there, trails) = leg-Inserts spacing curve p q e in
          (inserted, later, ground (arith, e, f, h, whole), none_there, trails, f)
    ]
  ]

  -- What the legs of checkpoints hold.
  abbrev pub Prepares : List (RouteWaypoint T) → List (RouteWaypoint T) → Type 0
  Prepares ps out = (keys out ≡ ps) × Starts out

  legs-Prepares :
      (spacing : T) (curve : Bool) (closing : Option (RouteWaypoint T)) (p : RouteWaypoint T)
      (ps : List (RouteWaypoint T)) {out : List (RouteWaypoint T)}
      → legs spacing curve closing p ps ≡ some out
      → AllKeys (p ∷ ps)
      → Prepares (p ∷ ps) out
  unfolding legs keys
  legs-Prepares spacing curve none p [] {out} h k =
      let e : out ≡ p ∷ [] = ground (arith, h) in rw e (ground (arith, k.0), (k.0, tt))
  legs-Prepares spacing curve (some closing) p [] h k =
      let (inserted, whole, none_there, trails) = leg-Inserts spacing curve p closing h in
      rw whole (ground (arith, k.0, none_there), (k.0, trails))
  legs-Prepares spacing curve closing p (q ∷ ps) h k =
      let (inserted, later, whole, none_there, trails, f) =
        legs_cons spacing curve closing p q ps h in
      let rest = legs-Prepares spacing curve closing q ps f k.1 in
      rw whole (
        ground (arith, keys-append inserted later, none_there, rest.0, k.0),
        (k.0, Trails-append p.input_index inserted later trails rest.1),
      )

  Ends-join :
      (p q : RouteWaypoint T) (xs later ps : List (RouteWaypoint T))
      → keys later ≡ q ∷ ps
      → Ends later
      → Ends (p ∷ (xs ++ later))
  unfolding keys
  Ends-join p q xs [] ps h k = absurd (ground (arith, h))
  Ends-join p q xs (r ∷ rs) ps h k = Ends-append p r xs rs k

  legs-Ends :
      (spacing : T) (curve : Bool) (p : RouteWaypoint T) (ps : List (RouteWaypoint T))
      {out : List (RouteWaypoint T)}
      → legs spacing curve none p ps ≡ some out
      → AllKeys (p ∷ ps)
      → Ends out
  unfolding legs last_of
  legs-Ends spacing curve p [] {out} h k = let e : out ≡ p ∷ [] = ground (arith, h) in rw e k.0
  legs-Ends spacing curve p (q ∷ ps) h k =
      let (inserted, later, whole, none_there, trails, f) = legs_cons spacing curve none p q ps h in
      rw whole (
        Ends-join p q inserted later ps (legs-Prepares spacing curve none q ps f k.1).0
          (legs-Ends spacing curve q ps f k.1))

  expand_legs :
      (p : RouteWaypoint T) (ps : List (RouteWaypoint T)) (spacing : T) (loop curve : Bool)
      {out : List (RouteWaypoint T)}
      → legs spacing curve (if loop then some p else none) p ps ≡ some out
      → AllKeys (p ∷ ps)
      → Prepares (p ∷ ps) out × ((loop ≡ true) ⊎ Ends out)
  expand_legs p ps spacing true curve h k =
      (legs-Prepares spacing curve (some p) p ps h k, inl refl)
  expand_legs p ps spacing false curve h k =
      (legs-Prepares spacing curve none p ps h k, inr (legs-Ends spacing curve p ps h k))

  -- Between checkpoints, points are put that belong to the one before them; an open route ends in
  -- its last checkpoint.
  pub expand-Prepares :
      (points : List (RouteWaypoint T)) (spacing : T) (loop curve : Bool)
      {out : List (RouteWaypoint T)}
      → expand points spacing loop curve ≡ some out
      → AllKeys points
      → Prepares points out × ((loop ≡ true) ⊎ Ends out)
  unfolding expand keys
  expand-Prepares [] spacing loop curve {out} h k =
      let e : out ≡ [] = ground (arith, h) in rw e ((refl, tt), inr tt)
  expand-Prepares (p ∷ ps) spacing loop curve {out} h k =
      elim (Bool-cases (F.le spacing nought || is_empty ps)) [
        | inl e ↦
            let same : out ≡ p ∷ ps = ground (arith, h, e) in
            rw same
              ((keys-AllKeys (p ∷ ps) k, AllKeys-Starts (p ∷ ps) k), inr (AllKeys-Ends p ps k))
        | inr e ↦ expand_legs p ps spacing loop curve (ground (arith, h, e)) k
      ]
