-- ===== src/Operator/Protocol/Valid.antt =====
-- What a request that `validate_request` lets through satisfies.
use mathlib.Core.Path.{subst}
use salus_robot.Prelude.{
  ◌≡◌, ◌⊎◌, inl, inr, refl, sym, ◌∙◌, true, false, Option, none, some, String, str_eq, eq_iff, [],
  ◌∷◌, arith, Bool-cases, Option-cases,
}
use salus_robot.Prelude.Result.{Result, ok, err, ◌>>=◌, Result-cases, bind-ok}
use salus_robot.Prelude.Text.{is_in}
use salus_robot.Float
use salus_robot.Float.{Float, nought}
use salus_robot.Json.{Json, float, str, Fields, lookup, put, PyJson}
use salus_robot.Json.Dict.{lookup-put_same, lookup-put_other}
use salus_robot.Operator.Request.{OperatorRequest}
use salus_robot.Operator.Protocol.{ProtocolError}
use salus_robot.Operator.Protocol.Errors.{Raises, is_unhashable, validate_fields-Raises}
use salus_robot.Operator.Protocol.Validate.{
  RequestError, refused, unhashable, refusing, known_operations, fixed_datum_mutations, is_bool,
  require_bool, require_profile, finite_number, put_number, put_brake, validate_fields,
  validate_request, number_or,
}

refusing-ok : {A : Type 0} (m : Result ProtocolError A) {a : A} → refusing m ≡ ok a → m ≡ ok a
unfolding refusing
refusing-ok (ok b) h = ground (arith, h)
refusing-ok (err e) h = absurd (ground (arith, h))

module _ {T : Type 0} ⦃F : Float T⦄ ⦃J : PyJson T⦄ where
  manual_steps :
      (r : OperatorRequest T)
      → str_eq r.op "set_manual_cmd" ≡ true
      → validate_fields r
        ≡ refusing (put_number r "linear_x" r.fields >>= put_number r "angular_z" >>= put_brake r)
  unfolding validate_fields
  manual_steps r h = simp ((eq_iff r.op "set_manual_cmd").0 h) refl

  lock_steps :
      (r : OperatorRequest T)
      → str_eq r.op "set_control_lock" ≡ true
      → validate_fields r ≡ refusing (require_bool r "locked" r.fields)
  unfolding validate_fields
  lock_steps r h = simp h refl

  pan_steps :
      (r : OperatorRequest T)
      → str_eq r.op "camera_pan" ≡ true
      → validate_fields r ≡ refusing (put_number r "angle" r.fields)
  unfolding validate_fields
  pan_steps r h = simp ((eq_iff r.op "camera_pan").0 h) refl

  profile_steps :
      (r : OperatorRequest T)
      → str_eq r.op "set_navigation_profile" ≡ true
      → validate_fields r ≡ require_profile r r.fields
  unfolding validate_fields
  profile_steps r h = simp ((eq_iff r.op "set_navigation_profile").0 h) refl

  -- A number that is finite stands under a key.
  abbrev pub FiniteAt : String → Fields T → Type 0
  FiniteAt key fields = (x : T) × (lookup key fields ≡ some (float x)) × (F.finite x ≡ true)

  finite_number-finite :
      (r : OperatorRequest T) (key : String) (default : Option T) (fields : Fields T) (x : T)
      → finite_number r key default fields ≡ ok x
      → F.finite x ≡ true
  unfolding finite_number
  finite_number-finite r key default fields x h =
      elim (Option-cases (number_or default (lookup key fields))) [
        | inl e ↦ ground (arith, e, h)
        | inr (y, e) ↦ ground (arith, e, h)
      ]

  put_number-FiniteAt :
      (r : OperatorRequest T) (key : String) (fields put_fields : Fields T)
      → str_eq key key ≡ true
      → put_number r key fields ≡ ok put_fields
      → (x : T) × (put_fields ≡ put key (float x) fields) × FiniteAt key put_fields
  unfolding put_number
  put_number-FiniteAt r key fields out same h =
      elim (Result-cases (finite_number r key none fields)) [
        | inl (x, e) ↦
            let is : (out ≡ put key (float x) fields) = ground (arith, e, h) in
            (
              x,
              is,
              (
                x,
                rw is (lookup-put_same key (float x) fields same),
                finite_number-finite r key none fields x e,
              ),
            )
        | inr (x, e) ↦ absurd (ground (arith, e, h))
      ]

  -- A number with another key that is written keeps the one that stands.
  FiniteAt-put :
      (a k : String) (v : Json T) (fs : Fields T)
      → str_eq k a ≡ false
      → FiniteAt a fs
      → FiniteAt a (put k v fs)
  FiniteAt-put a k v fs h (x, e, f) = (x, rw (lookup-put_other a k v fs h) e, f)

  -- A brake between 0 and 100 percent.
  abbrev pub BrakeAt : Fields T → Type 0
  BrakeAt fields =
      (b : T) × (lookup "brake_pct" fields ≡ some (float b))
      × (F.lt b nought ≡ false)
      × (F.lt (F.decimal 100 0) b ≡ false)

  abbrev KeepsNumbers : Fields T → Type 0
  KeepsNumbers fields = FiniteAt "linear_x" fields × FiniteAt "angular_z" fields

  -- A profile that is urban or rural.
  abbrev pub ProfileAt : Fields T → Type 0
  ProfileAt fields =
      (s : String) × (lookup "profile" fields ≡ some (str s))
      × (is_in s ("urban" ∷ "rural" ∷ []) ≡ true)

  text-Valid :
      (r : OperatorRequest T) (v : Json T) (out : Fields T)
      → lookup "profile" r.fields ≡ some v
      → require_profile r r.fields ≡ ok out
      → ProfileAt out
  unfolding require_profile
  text-Valid r (str s) out e h = elim (Bool-cases (is_in s ("urban" ∷ "rural" ∷ []))) [
    | inl f ↦ (s, ground (arith, e, f, h), f)
    | inr f ↦ absurd (ground (arith, e, f, h))
  ]
  text-Valid r _ out e h = absurd (ground (arith, e, h))

  profile-Valid :
      (r : OperatorRequest T) (out : Fields T) → require_profile r r.fields ≡ ok out → ProfileAt out
  unfolding require_profile
  profile-Valid r out h = elim (Option-cases (lookup "profile" r.fields)) [
    | inl e ↦ absurd (ground (arith, e, h))
    | inr (v, e) ↦ text-Valid r v out e h
  ]

  lock-Valid :
      (r : OperatorRequest T) (out : Fields T)
      → require_bool r "locked" r.fields ≡ ok out
      → is_bool (lookup "locked" out) ≡ true
  unfolding require_bool
  lock-Valid r out h = ground (arith, h)

  -- What holds of a request that was let through, by its operation.
  abbrev pub FieldsOf : String → Fields T → Type 0
  FieldsOf op fields =
      ((str_eq op "set_manual_cmd" ≡ false)
        ⊎ (FiniteAt "linear_x" fields × FiniteAt "angular_z" fields × BrakeAt fields))
      × ((str_eq op "set_control_lock" ≡ false) ⊎ (is_bool (lookup "locked" fields) ≡ true))
      × ((str_eq op "camera_pan" ≡ false) ⊎ FiniteAt "angle" fields)
      × ((str_eq op "set_navigation_profile" ≡ false) ⊎ ProfileAt fields)

  -- A request keeps its operation, which is known and no change of the datum, and its id; a
  -- `ProtocolError` names both, and the other error is that of a profile that is a list or an object.
  abbrev pub IsAnswer : OperatorRequest T → Result RequestError (OperatorRequest T) → Type 0
  IsAnswer r (ok q) =
      (q.op ≡ r.op)
      × (q.request_id ≡ r.request_id)
      × (is_in r.op known_operations ≡ true)
      × (is_in r.op fixed_datum_mutations ≡ false)
      × FieldsOf r.op q.fields
  IsAnswer r (err (refused e)) = (e.request ≡ r.op) × (e.request_id ≡ r.request_id)
  IsAnswer r (err unhashable) =
      (str_eq r.op "set_navigation_profile" ≡ true)
      × (is_unhashable (lookup "profile" r.fields) ≡ true)

  error-IsAnswer :
      (r : OperatorRequest T) (e : RequestError)
      → Raises {A = Fields T} r (err e)
      → IsAnswer r (err e)
  unfolding Raises
  error-IsAnswer r (refused e) h = h
  error-IsAnswer r unhashable h = h

  module _ (irreflexive : (a : T) → F.lt a a ≡ false)
      (asymmetric : (a b : T) → F.lt a b ≡ true → F.lt b a ≡ false)
      (hundred : F.lt (F.decimal 100 0) nought ≡ false) where
    put_brake-BrakeAt :
        (r : OperatorRequest T) (fields out : Fields T)
        → KeepsNumbers fields
        → put_brake r fields ≡ ok out
        → FiniteAt "linear_x" out × FiniteAt "angular_z" out × BrakeAt out
    unfolding put_brake Float.max Float.min
    put_brake-BrakeAt r fields out keeps h =
        let hundred_pct = F.decimal 100 0 in
        elim (Result-cases (finite_number r "brake_pct" (some nought) fields)) [
          | inr (x, e) ↦ absurd (ground (arith, e, h))
          | inl (x, e) ↦
              let brake = Float.max nought (Float.min hundred_pct x) in
              let is : (out ≡ put "brake_pct" (float brake) fields) = ground (arith, e, h) in
              rw is (
                FiniteAt-put "linear_x" "brake_pct" (float brake) fields refl keeps.0,
                FiniteAt-put "angular_z" "brake_pct" (float brake) fields refl keeps.1,
                (
                  brake,
                  lookup-put_same "brake_pct" (float brake) fields refl,
                  ground (
                    arith,
                    asymmetric nought brake,
                    asymmetric nought x,
                    asymmetric nought hundred_pct,
                    irreflexive nought,
                    hundred,
                  ),
                  ground (arith, asymmetric x hundred_pct, irreflexive hundred_pct, hundred),
                ),
              )
        ]

    manual-Valid :
        (r : OperatorRequest T) (out : Fields T)
        → str_eq r.op "set_manual_cmd" ≡ true
        → validate_fields r ≡ ok out
        → FiniteAt "linear_x" out × FiniteAt "angular_z" out × BrakeAt out
    manual-Valid r out h e =
        let steps : ((put_number r "linear_x" r.fields >>= put_number r "angular_z" >>= put_brake r)
            ≡ ok out) =
          refusing-ok _ (sym (manual_steps r h) ∙ e) in
        let (angular, f, last) =
          bind-ok (put_number r "linear_x" r.fields >>= put_number r "angular_z") (put_brake r) out
            steps in
        let (linear, first, second) =
          bind-ok (put_number r "linear_x" r.fields) (put_number r "angular_z") angular f in
        let (x, is_x, at_x) = put_number-FiniteAt r "linear_x" r.fields linear refl first in
        let (z, is_z, at_z) = put_number-FiniteAt r "angular_z" linear angular refl second in
        let still : FiniteAt "linear_x" angular =
          rw is_z (FiniteAt-put "linear_x" "angular_z" (float z) linear refl at_x) in
        put_brake-BrakeAt r angular out (still, at_z) last

    validate_fields-FieldsOf :
        (r : OperatorRequest T) (out : Fields T) → validate_fields r ≡ ok out → FieldsOf r.op out
    validate_fields-FieldsOf r out h = (
      elim (Bool-cases (str_eq r.op "set_manual_cmd")) [
        | inl e ↦ inr (manual-Valid r out e h)
        | inr e ↦ inl e
      ],
      elim (Bool-cases (str_eq r.op "set_control_lock")) [
        | inl e ↦ inr (lock-Valid r out (refusing-ok _ (sym (lock_steps r e) ∙ h)))
        | inr e ↦ inl e
      ],
      elim (Bool-cases (str_eq r.op "camera_pan")) [
        | inl e ↦
            inr
              (put_number-FiniteAt r "angle" r.fields out refl
                (refusing-ok _ (sym (pan_steps r e) ∙ h))).2
        | inr e ↦ inl e
      ],
      elim (Bool-cases (str_eq r.op "set_navigation_profile")) [
        | inl e ↦ inr (profile-Valid r out (sym (profile_steps r e) ∙ h))
        | inr e ↦ inl e
      ],
    )

    -- A request is refused with a `ProtocolError` that names its operation and its id, or it asks
    -- for a navigation profile that is a list or an object, for which a `TypeError` is raised, or
    -- it is let through with its operation and id: then the operation is a known one and no
    -- change of the datum. A manual command has two finite speeds and a brake between 0 and 100
    -- percent, a lock says whether to lock, a pan of the camera has a finite angle, and a
    -- navigation profile is urban or rural. For the bounds of the brake, the order of floats is
    -- irreflexive and asymmetric, and 100 is not below 0. An integer that no float holds, for
    -- which float() raises, is left out.
    pub validate_request-IsAnswer : (r : OperatorRequest T) → IsAnswer r (validate_request r)
    unfolding validate_request Raises
    validate_request-IsAnswer r = elim (Bool-cases (is_in r.op fixed_datum_mutations)) [
      | inl e ↦ simp e (refl, refl)
      | inr e ↦ elim (Bool-cases (is_in r.op known_operations)) [
        | inr f ↦ simp (e, f) (refl, refl)
        | inl f ↦ elim (Result-cases (validate_fields r)) [
          | inl (out, g) ↦ simp (e, f, g) (refl, refl, refl, refl, validate_fields-FieldsOf r out g)
          | inr (out, g) ↦
              simp (e, f, g) (error-IsAnswer r out (subst (Raises r) g (validate_fields-Raises r)))
        ]
      ]
    ]
