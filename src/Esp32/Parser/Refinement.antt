-- ===== src/Esp32/Parser/Refinement.antt =====
-- `EspFrameParser.feed` against the scan of `Stream`: however the bytes are cut into chunks.
use salus_robot.Prelude.{
  ℕ, zero, suc, ◌≤◌, ◌<◌, ◌≡◌, refl, true, false, Option, none, some, List, [], ◌∷◌, ◌++◌, ltb,
  ◌==◌, ◌&&◌, length, take, drop, arith, if◌then◌else◌, ap, ap₂, sym, ◌∙◌, append_assoc, append-nil,
  inl, inr, Bool-cases, length-append, length-take, take-append-drop, take-append_of_le,
  drop-append_of_le, get_or-append_of_lt,
}
use salus_robot.Stream.{scan, scan_hit, scan_miss}
use salus_robot.Esp32.Crc.{crc8_maxim}
use salus_robot.Esp32.Decode.{byte, body}
use salus_robot.Esp32.Parser.{
  EspFrameParser, is_header, header_index, Round, stop, emit, skip, check_candidate, resync,
  skip_to, round, Fed, after_round, feed_loop, feed,
}

-- The size of the valid frame at the head of a byte sequence.
unfoldable pub frame_size : List ℕ → ℕ
frame_size bytes =
    if ltb (length bytes) 8
    then 0
    else if is_header (byte bytes 0) && (byte bytes 7 == crc8_maxim (body bytes))
    then 8
    else 0

-- The valid frames of a byte sequence.
unfoldable pub frames_of : List ℕ → List (List ℕ)
unfolding frame_size
frames_of = scan frame_size

frame_size-no_header : (x : ℕ) (xs : List ℕ) → is_header x ≡ false → frame_size (x ∷ xs) ≡ 0
unfolding frame_size
frame_size-no_header x xs h = ground arith

frames_of-noise : (x : ℕ) (xs : List ℕ) → is_header x ≡ false → frames_of (x ∷ xs) ≡ frames_of xs
unfolding frames_of
frames_of-noise x xs h = scan_miss frame_size x xs (frame_size-no_header x xs h)

abbrev later : Option ℕ → Option ℕ
later none = none
later (some i) = some (suc i)

header_index-cons :
    (x : ℕ) (xs : List ℕ)
    → header_index (x ∷ xs) ≡ (if is_header x then some 0 else later (header_index xs))
unfolding header_index
header_index-cons x xs = ground arith

-- A search that finds nothing passes over noise alone.
frames_of-no_header :
    (xs ys : List ℕ) → header_index xs ≡ none → frames_of (xs ++ ys) ≡ frames_of ys
frames_of-no_header [] ys h = refl
frames_of-no_header (x ∷ xs) ys h =
    ground (arith, header_index-cons x xs, frames_of-noise x (xs ++ ys), frames_of-no_header xs ys)

frames_of-resync :
    (i : ℕ) (xs ys : List ℕ)
    → header_index xs ≡ some i
    → frames_of (xs ++ ys) ≡ frames_of (drop i xs ++ ys)
frames_of-resync zero xs ys h = refl
frames_of-resync (suc i) [] ys h = refl
frames_of-resync (suc i) (x ∷ xs) ys h =
    ground (arith, header_index-cons x xs, frames_of-noise x (xs ++ ys), frames_of-resync i xs ys)

-- What the bytes at hand have delivered, whatever bytes follow.
abbrev Delivers : List ℕ → List (List ℕ) → List ℕ → Type 0
Delivers before frames after =
    (ys : List ℕ) → frames_of (before ++ ys) ≡ frames ++ frames_of (after ++ ys)

abbrev RoundDelivers : List ℕ → Round → Type 0
RoundDelivers b (stop t) = Delivers b [] t.buffer
RoundDelivers b (emit f t) = Delivers b (f ∷ []) t.buffer
RoundDelivers b (skip t) = Delivers b [] t.buffer

frame_size-append : (b ys : List ℕ) → 8 ≤ length b → frame_size (b ++ ys) ≡ frame_size b
unfolding frame_size
frame_size-append b ys h = ground (
  arith,
  length-append b ys,
  get_or-append_of_lt b ys 0 0,
  get_or-append_of_lt b ys 7 0,
  take-append_of_le 7 b ys,
)

pub frame_size-take : (b : List ℕ) → 8 ≤ length b → frame_size (take 8 b) ≡ frame_size b
frame_size-take b h =
    sym (frame_size-append (take 8 b) (drop 8 b) (omega (arith, length-take 8 b)))
    ∙ ap frame_size (take-append-drop 8 b)

frames_of-hit :
    (b ys : List ℕ)
    → 8 ≤ length b
    → frame_size b ≡ 8
    → frames_of (b ++ ys) ≡ take 8 b ∷ frames_of (drop 8 b ++ ys)
unfolding frames_of
frames_of-hit [] ys h e = elim h [ ]
frames_of-hit (x ∷ xs) ys h e =
    scan_hit frame_size 7 x (xs ++ ys) (frame_size-append (x ∷ xs) ys h ∙ e)
    ∙ ap₂ (λ f rest. (x ∷ f) ∷ scan frame_size rest) (take-append_of_le 7 xs ys (omega arith))
        (drop-append_of_le 7 xs ys (omega arith))

frames_of-miss :
    (b ys : List ℕ)
    → 8 ≤ length b
    → frame_size b ≡ 0
    → frames_of (b ++ ys) ≡ frames_of (drop 1 b ++ ys)
unfolding frames_of
frames_of-miss [] ys h e = elim h [ ]
frames_of-miss (x ∷ xs) ys h e =
    scan_miss frame_size x (xs ++ ys) (frame_size-append (x ∷ xs) ys h ∙ e)

pub frame_size_cases :
    (b : List ℕ)
    → 8 ≤ length b
    → is_header (byte b 0) ≡ true
    → frame_size b ≡ (if byte b 7 == crc8_maxim (body b) then 8 else 0)
unfolding frame_size
frame_size_cases b h e = ground arith

header_index-nil : header_index [] ≡ none
unfolding header_index
header_index-nil = refl

pub header_at-index :
    (xs : List ℕ) (i : ℕ) → header_index xs ≡ some i → is_header (byte (drop i xs) 0) ≡ true
header_at-index [] zero h = cc header_index-nil
header_at-index [] (suc i) h = cc header_index-nil
header_at-index (x ∷ xs) zero h = ground (arith, header_index-cons x xs)
header_at-index (x ∷ xs) (suc i) h = header_at-index xs i (ground (arith, header_index-cons x xs))

pub header_index_bound : (xs : List ℕ) (i : ℕ) → header_index xs ≡ some i → i < length xs
header_index_bound [] i h = cc header_index-nil
header_index_bound (x ∷ xs) zero h = omega arith
header_index_bound (x ∷ xs) (suc i) h =
    omega (arith, header_index_bound xs i (ground (arith, header_index-cons x xs)))

check_candidate-delivers :
    (s : EspFrameParser)
    → is_header (byte s.buffer 0) ≡ true
    → RoundDelivers s.buffer (check_candidate s)
unfolding check_candidate
check_candidate-delivers s h = elim (Bool-cases (ltb (length s.buffer) 8)) [
  | inl short ↦ rw short (λ ys. refl)
  | inr long ↦ elim (Bool-cases (byte s.buffer 7 == crc8_maxim (body s.buffer))) [
    | inl good ↦
        rw (long, good)
          (λ ys.
            frames_of-hit s.buffer ys (ground arith) (ground (arith, frame_size_cases s.buffer)))
    | inr bad ↦
        rw (long, bad)
          (λ ys.
            frames_of-miss s.buffer ys (ground arith) (ground (arith, frame_size_cases s.buffer)))
  ]
]

RoundDelivers-after :
    (b c : List ℕ) (r : Round) → Delivers b [] c → RoundDelivers c r → RoundDelivers b r
RoundDelivers-after b c (stop t) d rd = λ ys. d ys ∙ rd ys
RoundDelivers-after b c (emit f t) d rd = λ ys. d ys ∙ rd ys
RoundDelivers-after b c (skip t) d rd = λ ys. d ys ∙ rd ys

resync-delivers :
    (s : EspFrameParser) (found : Option ℕ)
    → header_index s.buffer ≡ found
    → RoundDelivers s.buffer (resync found s)
unfolding resync skip_to
resync-delivers s none h = λ ys. frames_of-no_header s.buffer ys h
resync-delivers s (some i) h =
    RoundDelivers-after s.buffer (drop i s.buffer) _ (λ ys. frames_of-resync i s.buffer ys h)
      (check_candidate-delivers _ (header_at-index s.buffer i h))

round-delivers : (s : EspFrameParser) → RoundDelivers s.buffer (round s)
unfolding round
round-delivers s = elim (Bool-cases (ltb (length s.buffer) 8)) [
  | inl short ↦ rw short (λ ys. refl)
  | inr long ↦ elim (Bool-cases (is_header (byte s.buffer 0))) [
    | inl header ↦ rw (long, header) (check_candidate-delivers s header)
    | inr noise ↦ rw (long, noise) (resync-delivers s (header_index s.buffer) refl)
  ]
]

-- The loop delivers what its rounds deliver.
abbrev LoopDelivers : List (List ℕ) → EspFrameParser → Fed → Type 0
LoopDelivers frames s r =
    (ys : List ℕ) → frames ++ frames_of (s.buffer ++ ys) ≡ r.0 ++ frames_of (r.1.buffer ++ ys)

after_round-delivers :
    (next : List (List ℕ) → EspFrameParser → Fed)
    → ((frames : List (List ℕ)) (t : EspFrameParser) → LoopDelivers frames t (next frames t))
    → (frames : List (List ℕ)) (s : EspFrameParser) (r : Round) → RoundDelivers s.buffer r
    → LoopDelivers frames s (after_round next frames r)
unfolding after_round
after_round-delivers next ih frames s (stop t) d = λ ys. ap (λ l. frames ++ l) (d ys)
after_round-delivers next ih frames s (emit f t) d = λ ys.
    ap (λ l. frames ++ l) (d ys)
    ∙ (sym (append_assoc frames (f ∷ []) _) ∙ ih (frames ++ f ∷ []) t ys)
after_round-delivers next ih frames s (skip t) d =
    λ ys. ap (λ l. frames ++ l) (d ys) ∙ ih frames t ys

feed_loop-delivers :
    (fuel : ℕ) (frames : List (List ℕ)) (s : EspFrameParser)
    → LoopDelivers frames s (feed_loop fuel frames s)
unfolding feed_loop
feed_loop-delivers zero frames s = λ ys. refl
feed_loop-delivers (suc fuel) frames s =
    after_round-delivers (feed_loop fuel) (feed_loop-delivers fuel) frames s (round s)
      (round-delivers s)

-- What `feed` returns, and what stays in its buffer.
pub feed-delivers :
    (bytes : List ℕ) (s : EspFrameParser) (ys : List ℕ)
    → frames_of ((s.buffer ++ bytes) ++ ys)
      ≡ (feed bytes s).0 ++ frames_of ((feed bytes s).1.buffer ++ ys)
unfolding feed
feed-delivers [] s ys = rw (append-nil s.buffer)
feed-delivers (b ∷ bytes) s ys =
    feed_loop-delivers (suc (length (s.buffer ++ b ∷ bytes))) []
      (record s { buffer = s.buffer ++ b ∷ bytes }) ys

pub frames_of-short : (xs : List ℕ) → length xs < 8 → frames_of xs ≡ []
unfolding frames_of scan
frames_of-short [] h = refl
frames_of-short (x ∷ xs) h =
    scan_miss frame_size x xs (unfold frame_size in ground arith) ∙ frames_of-short xs (omega arith)
