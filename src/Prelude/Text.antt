-- ===== src/Prelude/Text.antt =====
-- What the code uses of Python's `str`.
use Prim.Native.Char.{Char, code}
use Prim.Native.String
use Prim.Native.String.{String}
use mathlib.Core.Bool.{Bool, true, ◌&&◌, ◌||◌}
use mathlib.Core.Option.{Option, none, some}
use Prim.Native.Nat.{ℕ, zero, suc}
use mathlib.Core.Bool.{false, not}
use mathlib.Core.Path.{◌≡◌}
use native.Mathlib.Omega.{arith}
use text.Mathlib.TextLemmas.{nil-append, cons-append}
use text.Mathlib.Text.{◌==◌ as str_eq}
use mathlib.Core.List.{List, [], ◌∷◌}
use salus_robot.Prelude.Tests.{leb, ◌==◌, if◌then◌else◌}

-- `str.isspace` at one character.
abbrev pub is_space : ℕ → Bool
is_space c =
    leb 9 c && leb c 13
    || leb 28 c && leb c 32
    || c == 0x85
    || c == 0xa0
    || c == 0x1680
    || leb 0x2000 c && leb c 0x200a
    || c == 0x2028
    || c == 0x2029
    || c == 0x202f
    || c == 0x205f
    || c == 0x3000

-- `not s.strip()`
abbrev pub is_blank : String → Bool
is_blank String.[] = true
is_blank (String.◌∷◌ c s) = is_space (code c) && is_blank s

-- `s == o`, where `o` may be `None`.
abbrev pub eq_some : String → Option String → Bool
eq_some s none = false
eq_some s (some t) = str_eq s t

-- `k in names`
unfoldable pub is_in : String → List String → Bool
is_in k [] = false
is_in k (name ∷ names) = str_eq k name || is_in k names

-- `s.split(c, 1)`, where `c` occurs: what stands before and after its first occurrence.
unfoldable pub split_once : ℕ → String → Option (String × String)
split_once c String.[] = none
split_once c (String.◌∷◌ d s) =
    if code d == c
    then some ("", s)
    else elim (split_once c s) [ none ↦ none | some (a, b) ↦ some (String.◌∷◌ d a, b) ]

unfoldable pub lstrip : String → String
lstrip String.[] = ""
lstrip (String.◌∷◌ c s) = if is_space (code c) then lstrip s else String.◌∷◌ c s

unfoldable pub rstrip : String → String
rstrip String.[] = ""
rstrip (String.◌∷◌ c s) =
    let rest = rstrip s in if str_eq rest "" && is_space (code c) then "" else String.◌∷◌ c rest

-- `s.strip()`
unfoldable pub strip : String → String
unfolding lstrip rstrip
strip s = rstrip (lstrip s)

-- `s[:n]`
unfoldable pub prefix : ℕ → String → String
prefix zero s = ""
prefix (suc n) String.[] = ""
prefix (suc n) (String.◌∷◌ c s) = String.◌∷◌ c (prefix n s)

-- No character of a text has this code.
abbrev pub avoids : ℕ → String → Bool
avoids c String.[] = true
avoids c (String.◌∷◌ d s) = not (code d == c) && avoids c s

-- A text is split where the character first occurs.
pub split_once-append :
    (c : ℕ) (d : Char) (s t : String)
    → (code d == c) ≡ true
    → avoids c s ≡ true
    → split_once c (String.◌++◌ s (String.◌∷◌ d t)) ≡ some (s, t)
unfolding split_once
split_once-append c d String.[] t h k = rw nil-append (ground (arith, h))
split_once-append c d (String.◌∷◌ e s) t h k =
    rw cons-append (ground (arith, k, split_once-append c d s t h))
