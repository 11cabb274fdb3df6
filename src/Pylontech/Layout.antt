-- ===== src/Pylontech/Layout.antt =====
-- Where the numbers of a reply stand in the bytes of its information.
use mathlib.Core.Path.{subst}
use salus_robot.Prelude.{
  ℕ, zero, suc, ◌+◌, ◌*◌, ◌≤◌, ◌<◌, ◌≡◌, ◌⊎◌, inl, inr, refl, ap, ap₂, sym, ◌∙◌, Bool, true, false,
  ◌&&◌, List, [], ◌∷◌, length, get_or, drop, leb, ◌==◌, arith, Bool-cases,
}
use salus_robot.Prelude.Result.{ok, bind-ok}
use salus_robot.Pylontech.{
  Reply, ReplyError, words, words_at, octet_at, big3, require, signed_word, first_of, rest_of,
  read_figures, figures_of, read_reply, not_single_module, not_15_cells, bad_temperature_count,
}

-- The numbers of two and of three bytes from a place on, the high byte first.
abbrev pub word_at : List ℕ → ℕ → ℕ
word_at bytes p = get_or bytes p 0 * 256 + get_or bytes (suc p) 0

abbrev pub three_at : List ℕ → ℕ → ℕ
three_at bytes p =
    get_or bytes p 0 * 65536 + get_or bytes (suc p) 0 * 256 + get_or bytes (suc (suc p)) 0

-- `n` numbers of two bytes each, one after another.
abbrev pub words_from : List ℕ → ℕ → ℕ → List ℕ
words_from bytes p zero = []
words_from bytes p (suc n) = word_at bytes p ∷ words_from bytes (suc (suc p)) n

-- The figures after the temperatures, from `p` on: the charge and the capacity have two bytes each,
-- or three each at the end.
pub record Figures (bytes : List ℕ) (p : ℕ) (r : Reply) : Type 0 where
  pub current : r.current ≡ signed_word (word_at bytes p)
  pub voltage : r.voltage ≡ word_at bytes (p + 2)
  pub cycles : r.cycles ≡ word_at bytes (p + 9)
  pub charges :
      ((get_or bytes (p + 6) 0 ≡ 2)
        × (r.charge ≡ word_at bytes (p + 4))
        × (r.capacity ≡ word_at bytes (p + 7))
        × (length bytes ≡ p + 11))
      ⊎ ((get_or bytes (p + 6) 0 ≡ 4)
          × (r.charge ≡ three_at bytes (p + 11))
          × (r.capacity ≡ three_at bytes (p + 14))
          × (length bytes ≡ p + 17))

-- One module of 15 cells, then the temperatures, that of the board first, then the figures.
pub record Layout (bytes : List ℕ) (r : Reply) : Type 0 where
  pub one_module : get_or bytes 1 0 ≡ 1
  pub count : get_or bytes 2 0 ≡ 15
  pub cells : r.cells ≡ words_from bytes 3 15
  pub some_temperature : 1 ≤ get_or bytes 33 0
  pub most_temperatures : get_or bytes 33 0 ≤ 16
  pub temperatures : r.board ∷ r.groups ≡ words_from bytes 34 (get_or bytes 33 0)
  pub figures : Figures bytes (34 + 2 * get_or bytes 33 0) r

drop-cons : (p : ℕ) (bs : List ℕ) → p < length bs → drop p bs ≡ get_or bs p 0 ∷ drop (suc p) bs
drop-cons zero [] h = elim h [ ]
drop-cons zero (b ∷ bs) h = refl
drop-cons (suc p) [] h = elim h [ ]
drop-cons (suc p) (b ∷ bs) h = drop-cons p bs (omega arith)

words-drop :
    (n : ℕ) (bytes : List ℕ) (p : ℕ)
    → p + 2 * n ≤ length bytes
    → words n (drop p bytes) ≡ words_from bytes p n
unfolding words
words-drop zero bytes p h = refl
words-drop (suc n) bytes p h =
    rw (drop-cons p bytes (omega arith), drop-cons (suc p) bytes (omega arith))
      (ap (λ ws. word_at bytes p ∷ ws) (words-drop n bytes (suc (suc p)) (omega arith)))

words_at-ok :
    (n : ℕ) (bytes : List ℕ) (p : ℕ) (ws : List ℕ)
    → words_at n bytes p ≡ ok ws
    → (p + 2 * n ≤ length bytes) × (ws ≡ words_from bytes p n)
unfolding words_at
words_at-ok n bytes p ws h = elim (Bool-cases (leb (p + 2 * n) (length bytes))) [
  | inl e ↦
      let fits : p + 2 * n ≤ length bytes = ground (arith, e) in
      (fits, ground (arith, e, h, words-drop n bytes p fits))
  | inr e ↦ absurd (ground (arith, e, h))
]

octet_at-ok : (bytes : List ℕ) (p b : ℕ) → octet_at bytes p ≡ ok b → get_or bytes p 0 ≡ b
unfolding octet_at
octet_at-ok [] p b h = absurd (ground (arith, h))
octet_at-ok (a ∷ bytes) zero b h = ground (arith, h)
octet_at-ok (a ∷ bytes) (suc p) b h = octet_at-ok bytes p b h

require-ok : (t : Bool) (e : ReplyError) (u : Unit {0}) → require t e ≡ ok u → t ≡ true
require-ok true e u h = refl
require-ok false e u h = absurd (ground (arith, h))

big3-three_at : (bytes : List ℕ) (p : ℕ) → p + 3 ≤ length bytes → big3 bytes p ≡ three_at bytes p
big3-three_at bytes p h =
    rw
      (
        drop-cons p bytes (omega arith),
        drop-cons (suc p) bytes (omega arith),
        drop-cons (suc (suc p)) bytes (omega arith),
      )
      (omega arith)

-- The figures that are read, and the cells and temperatures that were read before.
abbrev HasFigures : List ℕ → List ℕ → List ℕ → ℕ → Reply → Type 0
HasFigures cells temps bytes p r =
    Figures bytes p r × (r.cells ≡ cells) × (r.board ≡ first_of temps) × (r.groups ≡ rest_of temps)

figures_of-Figures :
    (cells temps bytes : List ℕ) (p : ℕ) (r : Reply)
    → let three = words_from bytes p 3 in
      let two = words_from bytes (p + 7) 2 in
      figures_of cells temps bytes p three (get_or bytes (p + 6) 0) two ≡ ok r
      → HasFigures cells temps bytes p r
unfolding figures_of
figures_of-Figures cells temps bytes p r h =
    let items = get_or bytes (p + 6) 0 in
    elim (Bool-cases (items == 4)) [
      | inl e ↦
          let fits : length bytes ≡ p + 17 = ground (arith, e, h) in
          (
            record {
              current = ground (arith, e, h);
              voltage = ground (arith, e, h);
              cycles = ground (arith, e, h);
              charges =
                  ground
                    (arith, e, h, fits, big3-three_at bytes (p + 11), big3-three_at bytes (p + 14));
            },
            ground (arith, e, h),
            ground (arith, e, h),
            ground (arith, e, h),
          )
      | inr e ↦ (
        record {
          current = ground (arith, e, h);
          voltage = ground (arith, e, h);
          cycles = ground (arith, e, h);
          charges = ground (arith, e, h);
        },
        ground (arith, e, h),
        ground (arith, e, h),
        ground (arith, e, h),
      )
    ]

read_figures-Figures :
    (cells temps bytes : List ℕ) (p : ℕ) (r : Reply)
    → read_figures cells temps bytes p ≡ ok r
    → HasFigures cells temps bytes p r
unfolding read_figures
read_figures-Figures cells temps bytes p r h =
    let (figures, f, h1) = bind-ok (words_at 3 bytes p) _ r h in
    let (items, i, h2) = bind-ok (octet_at bytes (p + 6)) _ r h1 in
    let (more, m, h3) = bind-ok (words_at 2 bytes (p + 7)) _ r h2 in
    figures_of-Figures cells temps bytes p r (
      subst
        (λ z.
          figures_of cells temps bytes p z (get_or bytes (p + 6) 0) (words_from bytes (p + 7) 2)
          ≡ ok r)
        (words_at-ok 3 bytes p figures f).1
        (subst (λ z. figures_of cells temps bytes p figures z (words_from bytes (p + 7) 2) ≡ ok r)
          (sym (octet_at-ok bytes (p + 6) items i))
          (subst (λ z. figures_of cells temps bytes p figures items z ≡ ok r)
            (words_at-ok 2 bytes (p + 7) more m).1 h3)))

first-rest :
    (bytes : List ℕ) (p n : ℕ)
    → 1 ≤ n
    → first_of (words_from bytes p n) ∷ rest_of (words_from bytes p n) ≡ words_from bytes p n
first-rest bytes p zero h = absurd (ground (arith, h))
first-rest bytes p (suc n) h = refl

-- The layout, once the counts are read.
counted :
    (bytes : List ℕ) (modules count n : ℕ) (cells temps : List ℕ) (r : Reply)
    → get_or bytes 1 0 ≡ modules
    → modules == 1 ≡ true
    → get_or bytes 2 0 ≡ count
    → count == 15 ≡ true
    → cells ≡ words_from bytes 3 15
    → get_or bytes 33 0 ≡ n
    → leb 1 n && leb n 16 ≡ true
    → temps ≡ words_from bytes 34 n
    → HasFigures cells temps bytes (34 + 2 * n) r
    → Layout bytes r
counted bytes modules count n cells temps r a b c d e f g t h =
    let some_one : 1 ≤ n = ground (arith, g) in
    record {
      one_module = ground (arith, a, b);
      count = ground (arith, c, d);
      cells = h.1 ∙ e;
      some_temperature = ground (arith, f, g);
      most_temperatures = ground (arith, f, g);
      temperatures =
          ap₂ (λ u v. u ∷ v) h.2 h.3
          ∙ ap (λ ts. first_of ts ∷ rest_of ts) t
          ∙ first-rest bytes 34 n some_one
          ∙ ap (words_from bytes 34) (sym f);
      figures = subst (λ z. Figures bytes (34 + 2 * z) r) (sym f) h.0;
    }

-- A reply that is read has its numbers at their places.
pub read_reply-Layout : (bytes : List ℕ) (r : Reply) → read_reply bytes ≡ ok r → Layout bytes r
unfolding read_reply
read_reply-Layout bytes r h =
    let (modules, a, h1) = bind-ok (octet_at bytes 1) _ r h in
    let (_, b, h2) = bind-ok (require (modules == 1) not_single_module) _ r h1 in
    let (count, c, h3) = bind-ok (octet_at bytes 2) _ r h2 in
    let (_, d, h4) = bind-ok (require (count == 15) not_15_cells) _ r h3 in
    let (cells, e, h5) = bind-ok (words_at 15 bytes 3) _ r h4 in
    let (n, f, h6) = bind-ok (octet_at bytes 33) _ r h5 in
    let (_, g, h7) = bind-ok (require (leb 1 n && leb n 16) bad_temperature_count) _ r h6 in
    let (temps, t, h8) = bind-ok (words_at n bytes 34) _ r h7 in
    counted bytes modules count n cells temps r (octet_at-ok bytes 1 modules a) (require-ok _ _ _ b)
      (octet_at-ok bytes 2 count c) (require-ok _ _ _ d) (words_at-ok 15 bytes 3 cells e).1
      (octet_at-ok bytes 33 n f) (require-ok _ _ _ g) (words_at-ok n bytes 34 temps t).1
      (read_figures-Figures cells temps bytes (34 + 2 * n) r h8)
