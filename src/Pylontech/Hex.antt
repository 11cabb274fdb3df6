-- ===== src/Pylontech/Hex.antt =====
-- Hexadecimal texts as bytes: `int(text, 16)` and `bytes.fromhex(text)` of Python, as it applies
-- them to bytes, and the formats `:02X` and `:04X`.
use salus_robot.Prelude.{
  ℕ, ◌+◌, ◌-◌, ◌*◌, ◌/◌, ◌%◌, Bool, true, false, ◌&&◌, ◌||◌, Option, none, some, List, [], ◌∷◌, ltb,
  leb, ◌==◌, if◌then◌else◌,
}
use salus_robot.Prelude.Int.{ℤ, pos, neg}

-- A blank of ASCII.
abbrev pub is_blank : ℕ → Bool
is_blank c = leb 9 c && leb c 13 || c == 32

-- The value of a hexadecimal digit.
unfoldable pub hex_value : ℕ → Option ℕ
hex_value c =
    if leb b'0' c && leb c b'9'
    then some (c - b'0')
    else if leb b'A' c && leb c b'F'
    then some (c - 55)
    else if leb b'a' c && leb c b'f'
    then some (c - 87)
    else none

unfoldable pub hex_digit : ℕ → ℕ
hex_digit n = if ltb n 10 then n + b'0' else n + 55

-- `f'{n:02X}'` of a byte and `f'{n:04X}'` of a word.
unfoldable pub hex2 : ℕ → List ℕ
unfolding hex_digit
hex2 n = hex_digit (n / 16 % 16) ∷ hex_digit (n % 16) ∷ []

unfoldable pub hex4 : ℕ → List ℕ
unfolding hex_digit
hex4 n =
    hex_digit (n / 4096 % 16)
    ∷ hex_digit (n / 256 % 16)
    ∷ hex_digit (n / 16 % 16)
    ∷ hex_digit (n % 16)
    ∷ []

unfoldable pub skip_blanks : List ℕ → List ℕ
skip_blanks [] = []
skip_blanks (c ∷ cs) = if is_blank c then skip_blanks cs else c ∷ cs

-- Nothing but blanks is left.
unfoldable pub all_blank : List ℕ → Bool
all_blank [] = true
all_blank (c ∷ cs) = is_blank c && all_blank cs

-- The digits from one on, with single underscores between them and blanks after them; `seen` says
-- whether a digit came just before.
unfoldable pub digits_from : Bool → ℕ → List ℕ → Option ℕ
unfolding hex_value all_blank
digits_from seen acc [] = if seen then some acc else none
digits_from seen acc (c ∷ cs) = elim (hex_value c) [
  | some d ↦ digits_from true (acc * 16 + d) cs
  | none ↦ elim (c == b'_' && seen) [
    | true ↦ digits_from false acc cs
    | false ↦ if seen && all_blank (c ∷ cs) then some acc else none
  ]
]

-- The digits after an underscore that follows the prefix, or without one.
unfoldable pub after_prefix : List ℕ → Option ℕ
unfolding digits_from
after_prefix [] = none
after_prefix (c ∷ cs) = if c == b'_' then digits_from false 0 cs else digits_from false 0 (c ∷ cs)

-- A text without its sign, which may start with 0x.
unfoldable pub unsigned : List ℕ → Option ℕ
unfolding after_prefix
unsigned (c ∷ x ∷ cs) =
    if c == b'0' && (x == b'x' || x == b'X')
    then after_prefix cs
    else digits_from false 0 (c ∷ x ∷ cs)
unsigned cs = digits_from false 0 cs

signed : List ℕ → Option ℤ
unfolding unsigned
signed [] = none
signed (c ∷ cs) =
    if c == b'-'
    then elim (unsigned cs) [ none ↦ none | some n ↦ some (neg (pos n)) ]
    else elim (unsigned (if c == b'+' then cs else c ∷ cs)) [ none ↦ none | some n ↦ some (pos n) ]

-- `int(text, 16)`; `none` where it raises `ValueError`.
unfoldable pub int16 : List ℕ → Option ℤ
unfolding signed skip_blanks
int16 text = signed (skip_blanks text)

-- `bytes.fromhex(text)`; `none` where it raises `ValueError`. Blanks may stand between bytes.
unfoldable pub fromhex : List ℕ → Option (List ℕ)
unfolding hex_value
fromhex [] = some []
fromhex (c ∷ []) = if is_blank c then some [] else none
fromhex (c ∷ d ∷ cs) = elim (is_blank c) [
  | true ↦ fromhex (d ∷ cs)
  | false ↦ elim (hex_value c) [
    | none ↦ none
    | some high ↦ elim (hex_value d) [
      | none ↦ none
      | some low ↦ elim (fromhex cs) [ none ↦ none | some bytes ↦ some ((high * 16 + low) ∷ bytes) ]
    ]
  ]
]
