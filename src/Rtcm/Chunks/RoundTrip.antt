-- ===== src/Rtcm/Chunks/RoundTrip.antt =====
-- The decoder gives back the chunks that a caster sends.
use native.Mathlib.Nat.{suc-add}
use salus_robot.Prelude.{
  ℕ, zero, suc, ◌+◌, ◌≤◌, ◌≡◌, refl, ap, Bool, true, false, not, ◌&&◌, Option, some, List, [], ◌∷◌,
  ◌++◌, length, take, drop, all, ltb, leb, ◌==◌, arith, length-append,
}
use salus_robot.Prelude.Int.{ℤ, pos}
use salus_robot.Prelude.Result.{Result, ok, map_result}
use salus_robot.Rtcm.Chunks.{
  ChunkError, ChunkDecoder, new, split_line, before_semicolon, is_blank_byte, lstrip_bytes,
  rstrip_bytes, strip_bytes, take_chunk, between, feed_loop, feed, max_chunk_bytes,
}

-- A byte that the header of a chunk keeps: no semicolon and no blank.
abbrev pub is_plain : ℕ → Bool
is_plain b = not (b == 59) && not (is_blank_byte b)

abbrev line_end : List ℕ
line_end = 13 ∷ 10 ∷ []

split_line-append :
    (line rest : List ℕ)
    → all is_plain line ≡ true
    → split_line (line ++ 13 ∷ 10 ∷ rest) ≡ some (line, rest)
unfolding split_line
split_line-append [] rest h = refl
split_line-append (a ∷ []) rest h = ground (arith, h)
split_line-append (a ∷ b ∷ line) rest h = ground (arith, split_line-append (b ∷ line) rest, h)

before_semicolon-plain : (line : List ℕ) → all is_plain line ≡ true → before_semicolon line ≡ line
unfolding before_semicolon
before_semicolon-plain [] h = refl
before_semicolon-plain (b ∷ line) h = ground (arith, before_semicolon-plain line, h)

lstrip_bytes-plain : (line : List ℕ) → all is_plain line ≡ true → lstrip_bytes line ≡ line
unfolding lstrip_bytes
lstrip_bytes-plain [] h = refl
lstrip_bytes-plain (b ∷ line) h = ground (arith, h)

rstrip_bytes-plain : (line : List ℕ) → all is_plain line ≡ true → rstrip_bytes line ≡ line
unfolding rstrip_bytes
rstrip_bytes-plain [] h = refl
rstrip_bytes-plain (b ∷ line) h = ground (arith, rstrip_bytes-plain line, h)

-- What the decoder reads of a header that is plain.
header-plain :
    (line : List ℕ) → all is_plain line ≡ true → strip_bytes (before_semicolon line) ≡ line
header-plain line h =
    rw (before_semicolon-plain line h, lstrip_bytes-plain line h) (rstrip_bytes-plain line h)

take-append : (c xs : List ℕ) → take (length c) (c ++ xs) ≡ c
take-append [] xs = refl
take-append (b ∷ c) xs = ap (λ t. b ∷ t) (take-append c xs)

drop-append : (c xs : List ℕ) → drop (length c) (c ++ xs) ≡ xs
drop-append [] xs = refl
drop-append (b ∷ c) xs = drop-append c xs

drop-append_two : (c xs : List ℕ) (a b : ℕ) → drop (length c + 2) (c ++ a ∷ b ∷ xs) ≡ xs
drop-append_two [] xs a b = refl
drop-append_two (d ∷ c) xs a b = rw (suc-add (length c) 2) (drop-append_two c xs a b)

take_chunk-whole :
    (c more : List ℕ) (later : Result ChunkError (List ℕ × ChunkDecoder))
    → take_chunk (length c) (c ++ 13 ∷ 10 ∷ more) later ≡ map_result (λ q. (c ++ q.0, q.1)) later
unfolding take_chunk
take_chunk-whole c more later =
    let long : (ltb (length (c ++ 13 ∷ 10 ∷ more)) (length c + 2) ≡ false) =
      ground (arith, length-append c (13 ∷ 10 ∷ more)) in
    rw (long, take-append c (13 ∷ 10 ∷ more), drop-append c (13 ∷ 10 ∷ more)) refl

-- A chunk that may be sent: it is not empty and not too large.
abbrev pub is_chunk : List ℕ → Bool
is_chunk c = leb 1 (length c) && leb (length c) max_chunk_bytes

unfoldable pub join : List (List ℕ) → List ℕ
join [] = []
join (c ∷ cs) = c ++ join cs

abbrev pub closed : ChunkDecoder
closed = record { buffer = []; remaining = some 0; finished = true }

module _ (hex : ℕ → List ℕ) where
  -- The body that a caster sends: each chunk after its size, then a chunk of size 0, and whatever
  -- follows.
  unfoldable pub encode : List (List ℕ) → List ℕ → List ℕ
  encode [] rest = hex 0 ++ 13 ∷ 10 ∷ rest
  encode (c ∷ cs) rest = hex (length c) ++ 13 ∷ 10 ∷ (c ++ 13 ∷ 10 ∷ encode cs rest)

module _ (parse_hex : List ℕ → Option ℤ) (hex : ℕ → List ℕ)
    (readable : (n : ℕ) → parse_hex (hex n) ≡ some (pos n))
    (plain : (n : ℕ) → all is_plain (hex n) ≡ true) where
  feed_loop-encode :
      (fuel : ℕ) (cs : List (List ℕ)) (rest : List ℕ)
      → all is_chunk cs ≡ true
      → length cs + 1 ≤ fuel
      → feed_loop parse_hex fuel (between (encode hex cs rest)) ≡ ok (join cs, closed)
  unfolding encode join feed_loop
  feed_loop-encode zero cs rest h enough = absurd (omega arith)
  feed_loop-encode (suc fuel) [] rest h enough =
      rw
        (
          feed_loop,
          split_line-append (hex 0) rest (plain 0),
          header-plain (hex 0) (plain 0),
          readable 0,
        )
        refl
  feed_loop-encode (suc fuel) (c ∷ cs) rest h enough =
      let n = length c in
      let more = encode hex cs rest in
      let tail = c ++ 13 ∷ 10 ∷ more in
      let small : (ltb max_chunk_bytes n ≡ false) = ground (arith, h) in
      let some_bytes : ((n == 0) ≡ false) = ground (arith, h) in
      rw
        (
          feed_loop,
          split_line-append (hex n) tail (plain n),
          header-plain (hex n) (plain n),
          readable n,
          small,
          some_bytes,
          drop-append_two c more 13 10,
          take_chunk-whole c more (feed_loop parse_hex fuel (between more)),
          feed_loop-encode fuel cs rest (ground (arith, h)) (omega arith),
        )
        refl

  encode-long : (cs : List (List ℕ)) (rest : List ℕ) → length cs ≤ length (encode hex cs rest)
  unfolding encode
  encode-long [] rest = omega arith
  encode-long (c ∷ cs) rest = omega (
    arith,
    encode-long cs rest,
    length-append (hex (length c)) (13 ∷ 10 ∷ (c ++ 13 ∷ 10 ∷ encode hex cs rest)),
    length-append c (13 ∷ 10 ∷ encode hex cs rest),
  )

  -- A new decoder that is fed a whole body, of chunks that are not empty and of 1 MiB at most,
  -- returns their bytes, one chunk after the other, and is finished: it drops what follows the body
  -- and returns nothing of what comes later. `hex` is the writing of a size that the caster uses,
  -- without semicolons or blanks, which `int(raw, 16)` reads back.
  pub feed-encode :
      (cs : List (List ℕ)) (rest later : List ℕ)
      → all is_chunk cs ≡ true
      → (feed parse_hex (encode hex cs rest) new ≡ ok (join cs, closed))
        × (feed parse_hex later closed ≡ ok ([], closed))
  unfolding feed new
  feed-encode cs rest later h = (
    feed_loop-encode (suc (length (encode hex cs rest))) cs rest h
        (omega (arith, encode-long cs rest)),
    refl,
  )
