-- ===== src/Pylontech/Checksum.antt =====
-- The checksum of a reply finds one wrong byte.
use salus_robot.Prelude.{
  ℕ, suc, ◌+◌, ◌-◌, ◌<◌, ◌≡◌, ◌≢◌, refl, ap, ◌∙◌, sym, true, some, List, [], ◌∷◌, ◌++◌, length,
  take, drop, get_or, leb, arith, length-append,
}
use salus_robot.Prelude.Int.{pos}
use salus_robot.Prelude.Result.{ok, err}
use salus_robot.Float.{Float}
use salus_robot.Pylontech.Hex.{int16}
use salus_robot.Pylontech.{
  BatterySample, sum, complement, body_of, check_of, is_delimited, decode_reply, checksum_mismatch,
}
use salus_robot.Pylontech.Sound.{decode_reply-checked}

-- A frame of a body and the four digits of a checksum.
abbrev pub framed : List ℕ → ℕ → ℕ → ℕ → ℕ → List ℕ
framed body c d e f = 126 ∷ (body ++ c ∷ d ∷ e ∷ f ∷ 13 ∷ [])

take-length {ℓ} : {A : Type ℓ} (xs ys : List A) → take (length xs) (xs ++ ys) ≡ xs
take-length [] ys = refl
take-length (x ∷ xs) ys = ap (λ l. x ∷ l) (take-length xs ys)

drop-length {ℓ} : {A : Type ℓ} (xs ys : List A) → drop (length xs) (xs ++ ys) ≡ ys
drop-length [] ys = refl
drop-length (x ∷ xs) ys = drop-length xs ys

get_or-length {ℓ} :
    {A : Type ℓ} (xs ys : List A) (k : ℕ) (d : A)
    → get_or (xs ++ ys) (length xs + k) d ≡ get_or ys k d
get_or-length [] ys k d = ap (λ i. get_or ys i d) (omega arith)
get_or-length (x ∷ xs) ys k d =
    let next : suc (length xs) + k ≡ suc (length xs + k) = omega arith in
    rw next (get_or-length xs ys k d)

body_of-framed : (body : List ℕ) (c d e f : ℕ) → body_of (framed body c d e f) ≡ body
unfolding body_of
body_of-framed body c d e f =
    let size : length (framed body c d e f) - 6 ≡ length body =
      omega (arith, length-append body (c ∷ d ∷ e ∷ f ∷ 13 ∷ [])) in
    rw size (take-length body _)

check_of-framed :
    (body : List ℕ) (c d e f : ℕ) → check_of (framed body c d e f) ≡ c ∷ d ∷ e ∷ f ∷ []
unfolding check_of
check_of-framed body c d e f =
    let size : length (framed body c d e f) - 5 ≡ suc (length body) =
      omega (arith, length-append body (c ∷ d ∷ e ∷ f ∷ 13 ∷ [])) in
    rw size (rw (drop-length body (c ∷ d ∷ e ∷ f ∷ 13 ∷ [])))

is_delimited-framed :
    (body : List ℕ) (c d e f : ℕ) → is_delimited (framed body c d e f) ≡ leb 12 (length body)
unfolding is_delimited
is_delimited-framed body c d e f =
    let size = length-append body (c ∷ d ∷ e ∷ f ∷ 13 ∷ []) in
    let place : length (framed body c d e f) - 1 ≡ length (126 ∷ body) + 4 = omega (arith, size) in
    let last : get_or (framed body c d e f) (length (framed body c d e f) - 1) 0 ≡ 13 =
      rw place (get_or-length (126 ∷ body) (c ∷ d ∷ e ∷ f ∷ 13 ∷ []) 4 0) in
    ground (arith, last, size)

sum-append : (xs ys : List ℕ) → sum (xs ++ ys) ≡ sum xs + sum ys
unfolding sum
sum-append [] ys = omega arith
sum-append (x ∷ xs) ys = omega (arith, sum-append xs ys)

-- Two bytes with the same complement of their sums, in the same place, are the same.
complement-byte : (n a b : ℕ) → a < 256 → b < 256 → complement (n + a) ≡ complement (n + b) → a ≡ b
unfolding complement
complement-byte n a b h k e = omega arith

sum-byte :
    (before after : List ℕ) (a b : ℕ)
    → a < 256
    → b < 256
    → complement (sum (before ++ a ∷ after)) ≡ complement (sum (before ++ b ∷ after))
    → a ≡ b
unfolding sum
sum-byte before after a b h k e = complement-byte (sum before + sum after) a b h k (
    ap complement (omega (arith, sum-append before (a ∷ after)))
    ∙ (e ∙ ap complement (omega (arith, sum-append before (b ∷ after)))))

module _ {T : Type 0} ⦃F : Float T⦄ where
  -- A frame that fits its delimiters, but not its checksum, is refused for its checksum.
  decode_reply-mismatch :
      (frame : List ℕ) (address n : ℕ)
      → is_delimited frame ≡ true
      → int16 (check_of frame) ≡ some (pos n)
      → n ≢ complement (sum (body_of frame))
      → decode_reply {T = T} frame address ≡ err checksum_mismatch
  unfolding decode_reply
  decode_reply-mismatch frame address n h e k = ground (arith, h, e, k)

  -- Where a reply is decoded, the same reply with one byte of its body changed, between the first
  -- delimiter and the checksum, is refused for its checksum.
  pub detects_one_byte :
      (before after : List ℕ) (a b c d e f address : ℕ) (s : BatterySample T)
      → a < 256
      → b < 256
      → a ≢ b
      → decode_reply (framed (before ++ a ∷ after) c d e f) address ≡ ok s
      → decode_reply {T = T} (framed (before ++ b ∷ after) c d e f) address ≡ err checksum_mismatch
  detects_one_byte before after a b c d e f address s ha hb ne h =
      let body = before ++ a ∷ after in
      let other = before ++ b ∷ after in
      let (delimited, checksum, inner) = decode_reply-checked (framed body c d e f) address s h in
      let size : length body ≡ length other =
        omega (arith, length-append before (a ∷ after), length-append before (b ∷ after)) in
      let digits = ap int16 (check_of-framed body c d e f) in
      decode_reply-mismatch (framed other c d e f) address (complement (sum body))
        (is_delimited-framed other c d e f
          ∙ (ap (leb 12) (sym size) ∙ (sym (is_delimited-framed body c d e f) ∙ delimited)))
        (ap int16 (check_of-framed other c d e f)
          ∙ (sym digits
              ∙ (checksum
                  ∙ ap (λ l. some (pos (complement (sum l)))) (body_of-framed body c d e f))))
        (λ same. ne (
          sum-byte before after a b ha hb
            (same ∙ ap (λ l. complement (sum l)) (body_of-framed other c d e f))))
