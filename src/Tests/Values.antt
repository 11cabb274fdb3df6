-- ===== src/Tests/Values.antt =====
-- Concrete parameters: whole numbers in place of floats, numbers as connections, and a clock that
-- moves on by one at each reading.
use salus_robot.Prelude.{◌≡◌, false, arith, ℕ, ◌+◌, ==_iff, ◌/◌, ◌%◌, ◌^◌, true, ◌==◌}
use salus_robot.Prelude.Int.{ℤ, pos, neg, pos_part, neg_part, ltb_ℤ, leb_ℤ, eqb_ℤ, ◌+ℤ◌, ◌-ℤ◌, ◌*ℤ◌}
use salus_robot.Prelude.{none, some, str_eq, if◌then◌else◌}
use salus_robot.Json.{Json, PyJson, int, float, str, arr, obj, cons, nil, field, end}
use salus_robot.Float.{Float}
use salus_robot.Operator.Lease.{Hashable}

instance abbrev pub whole : Float ℤ
whole = record {
  decimal = λ n k. pos (n / 10 ^ k);
  of_ℤ = λ z. z;
  lt = ltb_ℤ;
  le = leb_ℤ;
  eq = eqb_ℤ;
  finite = λ z. true;
  add = λ a b. a +ℤ b;
  sub = λ a b. a -ℤ b;
  mul = λ a b. a *ℤ b;
  div = λ a b. pos (pos_part a / pos_part b);
  neg = neg;
  abs = λ a. pos (pos_part a + neg_part a);
  hypot = λ a b. a +ℤ b;
  pow = λ a b. if eqb_ℤ b (pos 2) then a *ℤ a else a;
  atan = λ a. a;
  tan = λ a. a;
  atan2 = λ a b. a -ℤ b;
  sin = λ a. a;
  cos = λ a. a;
  degrees = λ a. a;
  radians = λ a. a;
  floordiv = λ a b. pos (pos_part a / pos_part b);
  modulo = λ a b. pos (pos_part a % pos_part b);
  round = λ z. z;
  truncate = λ z. z;
  infinity = pos 1000000;
  nan = pos 0;
}

instance abbrev pub numbered : Hashable ℕ
numbered = record { eq = λ a b. a == b; eq_iff = ==_iff }

abbrev pub clock : ℕ → ℤ
clock k = pos k

-- A JSON module that knows one text: a hold of the brake, with no percentage given.
abbrev known : Json ℤ
known = arr (
    cons
      (obj (
        field "type" (str "brake_hold")
          (field "duration_s" (int (pos 5)) (field "brake_pct" (int (pos 130)) end))))
      nil)

instance abbrev pub sample_json : PyJson ℤ
sample_json = record {
  loads = λ s. if str_eq s "[hold]" then some known else none;
  dumps = λ v. "[...]";
  to_float = λ v. elim v [ int z ↦ some z | float x ↦ some x | _ ↦ none ];
  to_int = λ v. elim v [ int z ↦ some z | _ ↦ none ];
  to_str = λ v. "";
  lower = λ s. s;
}

-- What the properties take of the order of floats holds of the integers.
pub less_irreflexive : (a : ℤ) → ltb_ℤ a a ≡ false
less_irreflexive a = ground arith

pub less_asymmetric : (a b : ℤ) → ltb_ℤ a b ≡ true → ltb_ℤ b a ≡ false
less_asymmetric a b h = ground arith

pub less_neg : (a b : ℤ) → ltb_ℤ (neg a) (neg b) ≡ ltb_ℤ b a
less_neg a b = ground arith

pub less_opposite : (a : ℤ) → leb_ℤ a (pos 0) ≡ false → ltb_ℤ a (neg a) ≡ false
less_opposite a h = ground (arith, h)

pub above_neg : (a : ℤ) → ltb_ℤ (pos 0) (neg a) ≡ ltb_ℤ a (pos 0)
above_neg a = ground arith
