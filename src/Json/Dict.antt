-- ===== src/Json/Dict.antt =====
-- A key that is written into a dict, and what is read after it.
use mathlib.Core.Path.{subst}
use salus_robot.Prelude.{
  ◌≡◌, inl, inr, sym, true, false, some, String, str_eq, eq_iff, arith, Bool-cases,
}
use salus_robot.Json.{Json, Fields, end, field, lookup, put}

module _ {T : Type 0} where
  pub lookup-put_same :
      (k : String) (v : Json T) (fs : Fields T) → str_eq k k ≡ true → lookup k (put k v fs) ≡ some v
  unfolding lookup put
  lookup-put_same k v end h = ground (arith, h)
  lookup-put_same k v (field j w rest) h = ground (arith, lookup-put_same k v rest h)

  pub lookup-put_other :
      (a k : String) (v : Json T) (fs : Fields T)
      → str_eq k a ≡ false
      → lookup a (put k v fs) ≡ lookup a fs
  unfolding lookup put
  lookup-put_other a k v end h = ground (arith, h)
  lookup-put_other a k v (field j w rest) h = elim (Bool-cases (str_eq j k)) [
    | inl e ↦
        let other : (str_eq j a ≡ false) =
          subst (λ z. str_eq z a ≡ false) (sym ((eq_iff j k).0 e)) h in
        ground (arith, e, other)
    | inr e ↦ ground (arith, e, lookup-put_other a k v rest h)
  ]
