-- ===== src/Json.antt =====
-- The values of `json.loads`: what Python's dynamic values are in the modelled code. An object is
-- a dict, whose keys differ; `lookup` is `dict.get`.
pub mod Dict
use salus_robot.Prelude.{
  Bool, true, false, not, leb, Option, none, some, String, str_eq, List, [], ◌∷◌, if◌then◌else◌,
}
use salus_robot.Prelude.Int.{ℤ, pos}
use salus_robot.Float
use salus_robot.Float.{Float, nought}

mutual
  pub data Json (T : Type 0) : Type 0 where
    null : Json T
    bool : Bool → Json T
    int : ℤ → Json T
    float : T → Json T
    str : String → Json T
    arr : Items T → Json T
    obj : Fields T → Json T

  pub data Items (T : Type 0) : Type 0 where
    nil : Items T
    cons : Json T → Items T → Items T

  pub data Fields (T : Type 0) : Type 0 where
    end : Fields T
    field : String → Json T → Fields T → Fields T

module _ {T : Type 0} where
  unfoldable pub lookup : String → Fields T → Option (Json T)
  lookup k end = none
  lookup k (field j v rest) = if str_eq j k then some v else lookup k rest

  -- `fields[key] = value`, which keeps the place of a key that is there.
  unfoldable pub put : String → Json T → Fields T → Fields T
  put k v end = field k v end
  put k v (field j w rest) =
      let later = put k v rest in if str_eq j k then field j v rest else field j w later

-- What the code takes from Python's library: `json.loads`, where `none` is what it raises;
-- `json.dumps` of a value with the options of the caller; `float(v)`, where `none` is a TypeError or
-- a ValueError; `int(v)`, where `none` is what it raises; `str(v)`; and `s.lower()`.
pub record PyJson (T : Type 0) : Type 0 where
  pub loads : String → Option (Json T)
  pub dumps : Json T → String
  pub to_float : Json T → Option T
  pub to_int : Json T → Option ℤ
  pub to_str : Json T → String
  pub lower : String → String

unfoldable pub to_items : {T : Type 0} → List (Json T) → Items T
to_items [] = nil
to_items (v ∷ vs) = cons v (to_items vs)

module _ {T : Type 0} ⦃F : Float T⦄ where
  -- `bool(value)`
  unfoldable pub truthy : Json T → Bool
  truthy null = false
  truthy (bool b) = b
  truthy (int (pos n)) = not (leb n 0)
  truthy (int z) = true
  truthy (float x) = not (F.eq x nought)
  truthy (str s) = not (str_eq s "")
  truthy (arr nil) = false
  truthy (arr xs) = true
  truthy (obj end) = false
  truthy (obj fs) = true
