-- ===== src/Pylontech.antt =====
-- pylontech_protocol.py and battery_domain.py of salus_hardware/salus_hardware: the frames of a
-- battery pack, as bytes.
pub mod Hex
pub mod Layout
pub mod Sound
pub mod Checksum
use salus_robot.Prelude.{
  ℕ, zero, suc, ◌+◌, ◌-◌, ◌*◌, ◌/◌, ◌%◌, Bool, true, false, not, ◌&&◌, ◌||◌, Option, none, some,
  List, [], ◌∷◌, ◌++◌, map, length, get_elem?, get_or, take, drop, all, ltb, leb, ◌==◌,
  if◌then◌else◌,
}
use salus_robot.Prelude.Int.{ℤ, pos, negsuc, eqb_ℤ, sub_ℕ, ◌+ℤ◌, ◌-ℤ◌}
use salus_robot.Prelude.Result.{Result, ok, err, ◌>>=◌}
use salus_robot.Float.{Float}
use salus_robot.Pylontech.Hex.{hex2, hex4, int16, fromhex}

-- The causes of the `ValueError`s; `malformed` is that of a read past the end, or of no ASCII.
pub data ReplyError : Type 0 where
  bad_address invalid_delimiters not_a_number checksum_mismatch not_hexadecimal unexpected_header
        length_mismatch length_checksum malformed not_single_module not_15_cells
        bad_temperature_count unsupported_capacity wrong_payload invalid_capacity invalid_voltage
        invalid_temperature :
      ReplyError

pub record BatterySample (T : Type 0) : Type 0 where
  pub voltage : T
  pub current : T
  pub charge : T
  pub capacity : T
  pub cell_voltage : List T
  pub grouped_cell_temperatures : List T
  pub temperature : T
  pub cycles : ℕ

unfoldable pub percentage : {T : Type 0} ⦃F : Float T⦄ → BatterySample T → T
percentage ⦃F⦄ s = F.div s.charge s.capacity

-- The numbers of a reply, in the units that it sends: the temperature of the board, and those of
-- the groups of cells.
pub record Reply : Type 0 where
  pub cells : List ℕ
  pub board : ℕ
  pub groups : List ℕ
  pub current : ℤ
  pub voltage : ℕ
  pub charge : ℕ
  pub capacity : ℕ
  pub cycles : ℕ

unfoldable pub sum : List ℕ → ℕ
sum [] = 0
sum (b ∷ bs) = b + sum bs

-- `(-sum(body)) & 65535`
unfoldable pub complement : ℕ → ℕ
complement n = (65536 - n % 65536) % 65536

-- `b'20' + address + b'4642E002FF'`
request_body : ℕ → List ℕ
unfolding hex2
request_body address =
    50 ∷ 48 ∷ (hex2 address ++ (52 ∷ 54 ∷ 52 ∷ 50 ∷ 69 ∷ 48 ∷ 48 ∷ 50 ∷ 70 ∷ 70 ∷ []))

unfoldable pub read_request : ℕ → Result ReplyError (List ℕ)
unfolding request_body sum complement hex4
read_request address =
    if ltb 255 address
    then err bad_address
    else (let body = request_body address in
        ok (126 ∷ (body ++ (hex4 (complement (sum body)) ++ 13 ∷ []))))

-- `z & 4095`, `z & 15` and `z >> 12` of an integer.
abbrev pub low_bits : ℕ → ℤ → ℕ
low_bits m (pos n) = n % suc m
low_bits m (negsuc n) = m - n % suc m

abbrev pub shift12 : ℤ → ℤ
shift12 (pos n) = pos (n / 4096)
shift12 (negsuc n) = negsuc (n / 4096)

-- `sum((n >> k) & 15 for k in (0, 4, 8))`
abbrev pub nibbles : ℕ → ℕ
nibbles n = n % 16 + n / 16 % 16 + n / 256 % 16

-- The parts of a frame: `frame[1:-5]` and `frame[-5:-1]`.
unfoldable pub body_of : List ℕ → List ℕ
body_of frame = take (length frame - 6) (drop 1 frame)

unfoldable pub check_of : List ℕ → List ℕ
check_of frame = take 4 (drop (length frame - 5) frame)

unfoldable pub is_delimited : List ℕ → Bool
is_delimited frame =
    leb 18 (length frame) && get_or frame 0 0 == 126 && get_or frame (length frame - 1) 0 == 13

-- `data[p]`
unfoldable pub octet_at : List ℕ → ℕ → Result ReplyError ℕ
octet_at bytes p = elim (get_elem? bytes p) [ none ↦ err malformed | some b ↦ ok b ]

-- `n` numbers of two bytes each, the high one first.
unfoldable pub words : ℕ → List ℕ → List ℕ
words (suc n) (high ∷ low ∷ bytes) = (high * 256 + low) ∷ words n bytes
words n bytes = []

-- `struct.unpack_from(f'>{n}H', data, p)`
unfoldable pub words_at : ℕ → List ℕ → ℕ → Result ReplyError (List ℕ)
unfolding words
words_at n bytes p =
    if leb (p + 2 * n) (length bytes) then ok (words n (drop p bytes)) else err malformed

-- A 16-bit word with its sign.
abbrev pub signed_word : ℕ → ℤ
signed_word w = if ltb w 32768 then pos w else sub_ℕ w 65536

-- `int.from_bytes(data[p:p + 3], 'big')`
abbrev pub big3 : List ℕ → ℕ → ℕ
big3 bytes p = from_bytes 0 (take 3 (drop p bytes))
  where
    from_bytes : ℕ → List ℕ → ℕ
    from_bytes acc [] = acc
    from_bytes acc (b ∷ bs) = from_bytes (acc * 256 + b) bs

abbrev pub require : Bool → ReplyError → Result ReplyError (Unit {0})
require true e = ok tt
require false e = err e

-- The first temperature is that of the board; there is one at least.
abbrev pub first_of : List ℕ → ℕ
first_of [] = 0
first_of (t ∷ ts) = t

abbrev pub rest_of : List ℕ → List ℕ
rest_of [] = []
rest_of (t ∷ ts) = ts

-- A reply from the three numbers at `p`, the number of items, and the two numbers after it: the charge
-- and the capacity have two bytes each, or three at the end.
unfoldable pub figures_of :
    List ℕ → List ℕ → List ℕ → ℕ → List ℕ → ℕ → List ℕ → Result ReplyError Reply
figures_of cells temps bytes p figures items more =
    let wide = items == 4 in
    let end = if wide then p + 17 else p + 11 in
    if not (items == 2 || items == 4)
    then err unsupported_capacity
    else if not (end == length bytes)
    then err wrong_payload
    else ok (record {
      cells = cells;
      board = first_of temps;
      groups = rest_of temps;
      current = signed_word (get_or figures 0 0);
      voltage = get_or figures 1 0;
      charge = if wide then big3 bytes (p + 11) else get_or figures 2 0;
      capacity = if wide then big3 bytes (p + 14) else get_or more 0 0;
      cycles = get_or more 1 0;
    })

-- The bytes after the temperatures, from `p` on.
unfoldable pub read_figures : List ℕ → List ℕ → List ℕ → ℕ → Result ReplyError Reply
unfolding octet_at words_at figures_of
read_figures cells temps bytes p = words_at 3 bytes p >>= λ figures.
    octet_at bytes (p + 6) >>= λ items.
    words_at 2 bytes (p + 7) >>= λ more. figures_of cells temps bytes p figures items more

unfoldable pub read_reply : List ℕ → Result ReplyError Reply
unfolding octet_at words_at read_figures
read_reply bytes = octet_at bytes 1 >>= λ modules. require (modules == 1) not_single_module >>= λ _.
    octet_at bytes 2 >>= λ count. require (count == 15) not_15_cells >>= λ _.
    words_at 15 bytes 3 >>= λ cells. octet_at bytes 33 >>= λ n.
    require (leb 1 n && leb n 16) bad_temperature_count >>= λ _.
    words_at n bytes 34 >>= λ temps. read_figures cells temps bytes (34 + 2 * n)

-- `bytes.fromhex(text.decode('ascii'))`
unfoldable pub decode_hex : List ℕ → Result ReplyError (List ℕ)
decode_hex text =
    if not (all (λ c. ltb c 128) text)
    then err malformed
    else elim (fromhex text) [ none ↦ err not_hexadecimal | some bytes ↦ ok bytes ]

-- The header says version 2.0, the address, a battery, and that nothing failed.
unfoldable pub is_header : ℕ → List ℕ → Bool
is_header address (version ∷ source ∷ kind ∷ code ∷ []) =
    version == 32 && source == address && kind == 70 && code == 0
is_header address _ = false

module _ {T : Type 0} ⦃F : Float T⦄ where
  -- A number of a reply in a unit that is so many times larger.
  abbrev pub scaled : ℕ → ℤ → T
  scaled unit n = F.div (F.of_ℤ n) (F.decimal unit 0)

  -- `(t - 2731) / 10`
  abbrev pub celsius : ℕ → T
  celsius t = scaled 10 (pos t -ℤ pos 2731)

  abbrev pub is_mild : T → Bool
  is_mild t = F.le (F.neg (F.decimal 50 0)) t && F.le t (F.decimal 120 0)

  unfoldable pub sample_of : Reply → BatterySample T
  sample_of r = record {
    voltage = scaled 1000 (pos r.voltage);
    current = scaled 10 r.current;
    charge = scaled 1000 (pos r.charge);
    capacity = scaled 1000 (pos r.capacity);
    cell_voltage = map (λ c. scaled 1000 (pos c)) r.cells;
    grouped_cell_temperatures = map celsius r.groups;
    temperature = celsius r.board;
    cycles = r.cycles;
  }

  -- The checks of the numbers.
  unfoldable pub check_reply : Reply → Result ReplyError (BatterySample T)
  check_reply r =
      if r.capacity == 0 || not (leb r.charge r.capacity)
      then err invalid_capacity
      else if not (leb 20000 r.voltage && leb r.voltage 65000)
          || not (all (λ c. leb 1000 c && leb c 5000) r.cells)
      then err invalid_voltage
      else if not (all (λ t. is_mild (celsius t)) (r.board ∷ r.groups))
      then err invalid_temperature
      else ok (sample_of r)

  unfoldable pub decode_data : List ℕ → Result ReplyError (BatterySample T)
  decode_data bytes = read_reply bytes >>= check_reply

  -- From the length on: its own four digits, and the digits of the data.
  unfoldable pub decode_information : List ℕ → Result ReplyError (BatterySample T)
  unfolding decode_hex
  decode_information body = elim (int16 (take 4 (drop 8 body))) [
    | none ↦ err not_a_number
    | some size ↦
        let n = low_bits 4095 size in
        if not (n == length (drop 12 body)) || n % 2 == 1
        then err length_mismatch
        else if not (low_bits 15 (pos (nibbles n) +ℤ shift12 size) == 0)
        then err length_checksum
        else (decode_hex (drop 12 body) >>= decode_data)
  ]

  unfoldable pub decode_body : List ℕ → ℕ → Result ReplyError (BatterySample T)
  unfolding decode_information decode_hex is_header
  decode_body body address = decode_hex (take 8 body) >>= λ header.
      if ltb 255 address
      then err bad_address
      else if not (is_header address header)
      then err unexpected_header
      else decode_information body

  unfoldable pub decode_reply : List ℕ → ℕ → Result ReplyError (BatterySample T)
  unfolding is_delimited body_of check_of decode_body
  decode_reply frame address =
      if not (is_delimited frame) then err invalid_delimiters else elim (int16 (check_of frame)) [
        | none ↦ err not_a_number
        | some checksum ↦
            if not (eqb_ℤ checksum (pos (complement (sum (body_of frame)))))
            then err checksum_mismatch
            else decode_body (body_of frame) address
      ]
