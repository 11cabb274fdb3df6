-- ===== src/Operator/Protocol/Errors.antt =====
-- The errors of `validate_request` name its request.
use salus_robot.Prelude.{
  ◌≡◌, refl, str_eq, Bool, true, false, Option, none, some, String, arith, if◌then◌else◌,
}
use salus_robot.Prelude.Result.{Result, ok, err, ◌>>=◌, map_result}
use salus_robot.Float.{Float, nought}
use salus_robot.Json.{Json, str, arr, obj, lookup, Fields, PyJson}
use salus_robot.Operator.Request.{OperatorRequest}
use salus_robot.Operator.Protocol.{ProtocolError}
use salus_robot.Operator.Protocol.Validate.{
  RequestError, refused, unhashable, refusing, require_bool, require_profile, optional_tab,
  require_preset, require_axis, finite_number, put_number, put_if_there, put_unless_null, put_brake,
  validate_fields,
}

-- A list or an object.
abbrev pub is_unhashable : {T : Type 0} → Option (Json T) → Bool
is_unhashable (some (arr xs)) = true
is_unhashable (some (obj fs)) = true
is_unhashable _ = false

module _ {T A : Type 0} where
  unfoldable pub Names : OperatorRequest T → Result ProtocolError A → Type 0
  Names r (ok fields) = Unit
  Names r (err e) = (e.request ≡ r.op) × (e.request_id ≡ r.request_id)

  Names-ok : (r : OperatorRequest T) (a : A) → Names r (ok a)
  unfolding Names
  Names-ok r a = tt

module _ {T A : Type 0} where
  -- An error names the request, or a profile that is sought in a set has no hash.
  unfoldable pub Raises : OperatorRequest T → Result RequestError A → Type 0
  Raises r (ok fields) = Unit
  Raises r (err (refused e)) = (e.request ≡ r.op) × (e.request_id ≡ r.request_id)
  Raises r (err unhashable) =
      (str_eq r.op "set_navigation_profile" ≡ true)
      × (is_unhashable (lookup "profile" r.fields) ≡ true)

  Raises-ok : (r : OperatorRequest T) (a : A) → Raises r (ok a)
  unfolding Raises
  Raises-ok r a = tt

  Raises-refusing :
      (r : OperatorRequest T) (m : Result ProtocolError A) → Names r m → Raises r (refusing m)
  unfolding Names Raises refusing
  Raises-refusing r (ok a) h = tt
  Raises-refusing r (err e) h = h

  Raises-if :
      (r : OperatorRequest T) (b : Bool) (x y : Result RequestError A)
      → (b ≡ true → Raises r x)
      → Raises r y
      → Raises r (if b then x else y)
  unfolding Raises
  Raises-if r true x y h k = h refl
  Raises-if r false x y h k = k

module _ {T A B : Type 0} where
  Names-bind :
      (r : OperatorRequest T) (m : Result ProtocolError A) (f : A → Result ProtocolError B)
      → Names r m
      → ((a : A) → Names r (f a))
      → Names r (m >>= f)
  unfolding Names
  Names-bind r (ok a) f h k = k a
  Names-bind r (err e) f h k = h

  Names-map :
      (r : OperatorRequest T) (f : A → B) (m : Result ProtocolError A)
      → Names r m
      → Names r (map_result f m)
  unfolding Names
  Names-map r f (ok a) h = tt
  Names-map r f (err e) h = h

module _ {T : Type 0} ⦃F : Float T⦄ ⦃J : PyJson T⦄ (r : OperatorRequest T) where
  require_bool-Names : (key : String) (fields : Fields T) → Names r (require_bool r key fields)
  unfolding require_bool Names
  require_bool-Names key fields = ground arith

  optional_tab-Names : (fields : Fields T) → Names r (optional_tab r fields)
  unfolding optional_tab Names
  optional_tab-Names fields = ground arith

  require_preset-Names : (fields : Fields T) → Names r (require_preset r fields)
  unfolding require_preset Names
  require_preset-Names fields = ground arith

  require_axis-Names : (fields : Fields T) → Names r (require_axis r fields)
  unfolding require_axis Names
  require_axis-Names fields = ground arith

  finite_number-Names :
      (key : String) (default : Option T) (fields : Fields T)
      → Names r (finite_number r key default fields)
  unfolding finite_number Names
  finite_number-Names key default fields = ground arith

  put_number-Names : (key : String) (fields : Fields T) → Names r (put_number r key fields)
  unfolding put_number
  put_number-Names key fields =
      Names-map r _ (finite_number r key none fields) (finite_number-Names key none fields)

  put_if_there-Names : (key : String) (fields : Fields T) → Names r (put_if_there r key fields)
  unfolding put_if_there Names
  put_if_there-Names key fields = ground (arith, put_number-Names key fields)

  put_unless_null-Names :
      (key : String) (fields : Fields T) → Names r (put_unless_null r key fields)
  unfolding put_unless_null Names
  put_unless_null-Names key fields = ground (arith, put_number-Names key fields)

  put_brake-Names : (fields : Fields T) → Names r (put_brake r fields)
  unfolding put_brake
  put_brake-Names fields =
      Names-bind r _ _ (finite_number-Names "brake_pct" (some nought) fields) (λ x. Names-ok r _)

  profile-Raises :
      (v : Option (Json T))
      → lookup "profile" r.fields ≡ v
      → str_eq r.op "set_navigation_profile" ≡ true
      → Raises r (require_profile r r.fields)
  unfolding require_profile Raises
  profile-Raises none e h = ground (arith, e)
  profile-Raises (some (arr xs)) e h = ground (arith, e, h)
  profile-Raises (some (obj fs)) e h = ground (arith, e, h)
  profile-Raises (some (str s)) e h = ground (arith, e)
  profile-Raises (some _) e h = ground (arith, e)

  -- A branch that refuses by a `ProtocolError` only.
  refusing-Raises :
      (b : Bool) (m : Result ProtocolError (Fields T)) (rest : Result RequestError (Fields T))
      → Names r m
      → Raises r rest
      → Raises r (if b then refusing m else rest)
  refusing-Raises b m rest h k = Raises-if r b (refusing m) rest (λ e. Raises-refusing r m h) k

  pub validate_fields-Raises : Raises r (validate_fields r)
  unfolding validate_fields
  validate_fields-Raises = refusing-Raises _ _ _ (require_bool-Names "locked" r.fields) (
      refusing-Raises _ _ _ (require_bool-Names "enabled" r.fields) (
        refusing-Raises _ _ _
          (Names-bind r _ _
            (Names-bind r _ _ (put_number-Names "linear_x" r.fields) (put_number-Names "angular_z"))
            put_brake-Names)
          (Raises-if r _ _ _ (profile-Raises (lookup "profile" r.fields) refl) (
            refusing-Raises _ _ _
              (Names-bind r _ _
                (Names-bind r _ _ (require_bool-Names "enabled" r.fields)
                  (put_unless_null-Names "interval_s"))
                optional_tab-Names)
              (refusing-Raises _ _ _ (put_number-Names "angle" r.fields) (
                refusing-Raises _ _ _
                  (Names-bind r _ _
                    (Names-bind r _ _
                      (Names-bind r _ _
                        (Names-bind r _ _ (require_bool-Names "relative" r.fields)
                          (put_if_there-Names "pan_deg"))
                        (put_if_there-Names "tilt_deg"))
                      (put_if_there-Names "zoom_level"))
                    require_axis-Names)
                  (refusing-Raises _ _ _ (require_preset-Names r.fields) (
                    refusing-Raises _ _ _
                      (Names-bind r _ _ (require_preset-Names r.fields)
                        (require_bool-Names "save_zoom"))
                      (Raises-ok r r.fields)))))))))
