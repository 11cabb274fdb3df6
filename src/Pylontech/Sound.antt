-- ===== src/Pylontech/Sound.antt =====
-- What is true of a reply that is decoded.
use salus_robot.Prelude.{
  ℕ, ◌≤◌, ◌<◌, ◌≡◌, inl, inr, ap, ◌∙◌, true, ◌&&◌, some, List, [], ◌∷◌, map, take, drop, all, leb,
  arith, Option-cases,
}
use salus_robot.Prelude.Int.{ℤ, eqb_ℤ-eq, pos, eqb_ℤ, ◌-ℤ◌}
use salus_robot.Prelude.Result.{ok, ◌>>=◌, Result-cases}
use salus_robot.Float.{Float}
use salus_robot.Pylontech.Layout.{Layout, read_reply-Layout}
use salus_robot.Pylontech.Hex.{int16, fromhex}
use salus_robot.Pylontech.{
  BatterySample, Reply, sum, complement, body_of, check_of, is_delimited, read_reply, sample_of,
  check_reply, decode_data, decode_hex, decode_information, decode_body, decode_reply, is_header,
  celsius, is_mild,
}

-- The numbers of a reply within their limits.
pub record InRange (T : Type 0) ⦃F : Float T⦄ (r : Reply) : Type 0 where
  pub some_capacity : 0 < r.capacity
  pub charge_held : r.charge ≤ r.capacity
  pub voltage_low : 20000 ≤ r.voltage
  pub voltage_high : r.voltage ≤ 65000
  pub cells : all (λ c. leb 1000 c && leb c 5000) r.cells ≡ true
  pub temperatures : all (λ t. is_mild (celsius {T = T} t)) (r.board ∷ r.groups) ≡ true

module _ {T : Type 0} ⦃F : Float T⦄ where
  -- Millivolts and milliampere-hours in volts and ampere-hours, tenths of an ampere in amperes, and
  -- tenths of a kelvin in degrees Celsius.
  abbrev pub thousandths : ℕ → T
  thousandths n = F.div (F.of_ℤ (pos n)) (F.decimal 1000 0)

  abbrev pub tenths : ℤ → T
  tenths n = F.div (F.of_ℤ n) (F.decimal 10 0)

  -- A sample is the numbers of a reply in SI units.
  pub record InUnits (r : Reply) (s : BatterySample T) : Type 0 where
    pub voltage : s.voltage ≡ thousandths r.voltage
    pub current : s.current ≡ tenths r.current
    pub charge : s.charge ≡ thousandths r.charge
    pub capacity : s.capacity ≡ thousandths r.capacity
    pub cell_voltage : s.cell_voltage ≡ map thousandths r.cells
    pub temperature : s.temperature ≡ tenths (pos r.board -ℤ pos 2731)
    pub grouped : s.grouped_cell_temperatures ≡ map (λ t. tenths (pos t -ℤ pos 2731)) r.groups
    pub cycles : s.cycles ≡ r.cycles

  sample_of-InUnits : (r : Reply) (s : BatterySample T) → s ≡ sample_of r → InUnits r s
  unfolding sample_of
  sample_of-InUnits r s h = record {
    voltage = ap (λ q. q.voltage) h;
    current = ap (λ q. q.current) h;
    charge = ap (λ q. q.charge) h;
    capacity = ap (λ q. q.capacity) h;
    cell_voltage = ap (λ q. q.cell_voltage) h;
    temperature = ap (λ q. q.temperature) h;
    grouped = ap (λ q. q.grouped_cell_temperatures) h;
    cycles = ap (λ q. q.cycles) h;
  }

  check_reply-InRange :
      (r : Reply) (s : BatterySample T) → check_reply r ≡ ok s → InRange T r × (s ≡ sample_of r)
  unfolding check_reply
  check_reply-InRange r s h = (
    record {
      some_capacity = ground (arith, h);
      charge_held = ground (arith, h);
      voltage_low = ground (arith, h);
      voltage_high = ground (arith, h);
      cells = ground (arith, h);
      temperatures = ground (arith, h);
    },
    ground (arith, h),
  )

  -- What is true of a frame that is decoded to a sample: its delimiters, its checksum, its header,
  -- and that the sample is the numbers of a reply, in SI units, which are within their limits and
  -- stand at their places in the information.
  pub record Accepted (frame : List ℕ) (address : ℕ) (s : BatterySample T) : Type 0 where
    delimited : is_delimited frame ≡ true
    checksum : int16 (check_of frame) ≡ some (pos (complement (sum (body_of frame))))
    header : fromhex (take 8 (body_of frame)) ≡ some (32 ∷ address ∷ 70 ∷ 0 ∷ [])
    reply : Reply
    bytes : List ℕ
    information : fromhex (drop 12 (body_of frame)) ≡ some bytes
    numbers : Layout bytes reply
    in_range : InRange T reply
    sample : InUnits reply s

decode_hex-ok :
    (text : List ℕ) {bytes : List ℕ} → decode_hex text ≡ ok bytes → fromhex text ≡ some bytes
unfolding decode_hex
decode_hex-ok text h = elim (Option-cases (fromhex text)) [
  | inl e ↦ absurd (ground (arith, e, h))
  | inr (bytes, e) ↦ ground (arith, e, h)
]

is_header-eq :
    (address : ℕ) (header : List ℕ)
    → is_header address header ≡ true
    → header ≡ 32 ∷ address ∷ 70 ∷ 0 ∷ []
unfolding is_header
is_header-eq address (a ∷ b ∷ c ∷ d ∷ []) h = ground arith
is_header-eq address [] h = absurd (ground (arith, h))
is_header-eq address (a ∷ []) h = absurd (ground (arith, h))
is_header-eq address (a ∷ b ∷ []) h = absurd (ground (arith, h))
is_header-eq address (a ∷ b ∷ c ∷ []) h = absurd (ground (arith, h))
is_header-eq address (a ∷ b ∷ c ∷ d ∷ e ∷ f) h = absurd (ground (arith, h))

module _ {T : Type 0} ⦃F : Float T⦄ where
  -- The checksum of a frame that is decoded.
  pub decode_reply-checked :
      (frame : List ℕ) (address : ℕ) (s : BatterySample T)
      → decode_reply frame address ≡ ok s
      → (is_delimited frame ≡ true)
        × (int16 (check_of frame) ≡ some (pos (complement (sum (body_of frame)))))
        × (decode_body (body_of frame) address ≡ ok s)
  unfolding decode_reply
  decode_reply-checked frame address s h = elim (Option-cases (int16 (check_of frame))) [
    | inl e ↦ absurd (ground (arith, e, h))
    | inr (z, e) ↦
        let equal : eqb_ℤ z (pos (complement (sum (body_of frame)))) ≡ true =
          ground (arith, e, h) in
        (
          ground (arith, e, h),
          e ∙ ap some (eqb_ℤ-eq z (complement (sum (body_of frame))) equal),
          ground (arith, e, h, equal),
        )
  ]

  decode_information-ok :
      (body : List ℕ) (s : BatterySample T)
      → decode_information body ≡ ok s
      → (decode_hex (drop 12 body) >>= decode_data) ≡ ok s
  unfolding decode_information
  decode_information-ok body s h = elim (Option-cases (int16 (take 4 (drop 8 body)))) [
    | inl e ↦ absurd (ground (arith, e, h))
    | inr (z, e) ↦ ground (arith, e, h)
  ]

  decode_body-ok :
      (body : List ℕ) (address : ℕ) (s : BatterySample T)
      → decode_body body address ≡ ok s
      → (header : List ℕ) × (fromhex (take 8 body) ≡ some header)
        × (is_header address header ≡ true)
        × (decode_information body ≡ ok s)
  unfolding decode_body
  decode_body-ok body address s h = elim (Result-cases (decode_hex (take 8 body))) [
    | inr (e, x) ↦ absurd (ground (arith, x, h))
    | inl (header, x) ↦
        (header, decode_hex-ok (take 8 body) x, ground (arith, x, h), ground (arith, x, h))
  ]

  decode_bytes-ok :
      (body : List ℕ) (s : BatterySample T)
      → decode_information body ≡ ok s
      → (bytes : List ℕ) × (fromhex (drop 12 body) ≡ some bytes) × (decode_data bytes ≡ ok s)
  decode_bytes-ok body s h = elim (Result-cases (decode_hex (drop 12 body))) [
    | inr (e, x) ↦ absurd (ground (arith, x, decode_information-ok body s h))
    | inl (bytes, x) ↦
        (bytes, decode_hex-ok (drop 12 body) x, ground (arith, x, decode_information-ok body s h))
  ]

  decode_data-ok :
      (bytes : List ℕ) (s : BatterySample T)
      → decode_data bytes ≡ ok s
      → (r : Reply) × (read_reply bytes ≡ ok r) × (check_reply r ≡ ok s)
  unfolding decode_data
  decode_data-ok bytes s h = elim (Result-cases (read_reply bytes)) [
    | inr (e, x) ↦ absurd (ground (arith, x, h))
    | inl (r, x) ↦ (r, x, ground (arith, x, h))
  ]

  -- A frame that is decoded to a sample has its delimiters, a checksum that is the complement of the
  -- sum of its bytes, and a header for the address without an error. The sample is, in SI units, the
  -- numbers that stand at the places of the layout in its information: one module, 15 cells, 1 to 16
  -- temperatures, the current, the voltage, the charge, the capacity and the cycles, where charge and
  -- capacity have two bytes each or three at the end; and the numbers are within the limits.
  pub decode_reply-Accepted :
      (frame : List ℕ) (address : ℕ) (s : BatterySample T)
      → decode_reply frame address ≡ ok s
      → Accepted frame address s
  decode_reply-Accepted frame address s h =
      let (delimited, checksum, inner) = decode_reply-checked frame address s h in
      let (header, head, named, rest) = decode_body-ok (body_of frame) address s inner in
      let (bytes, text, data_ok) = decode_bytes-ok (body_of frame) s rest in
      let (reply, read, checked) = decode_data-ok bytes s data_ok in
      let (in_range, sample) = check_reply-InRange reply s checked in
      record {
        delimited = delimited;
        checksum = checksum;
        header = head ∙ ap some (is_header-eq address header named);
        reply = reply;
        bytes = bytes;
        information = text;
        numbers = read_reply-Layout bytes reply read;
        in_range = in_range;
        sample = sample_of-InUnits reply s sample;
      }
