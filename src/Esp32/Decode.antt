-- ===== src/Esp32/Decode.antt =====
-- `decode_esp_frame`, `decode_battery_frame` and `decode_transport_frame` of protocol.py.
use salus_robot.Prelude.{
  ℕ, suc, ◌-◌, ◌*◌, Option, none, some, List, [], ◌∷◌, bit_or, ltb, ◌==◌, not, length, get_or, take,
  if◌then◌else◌,
}
use salus_robot.Prelude.Int.{ℤ, pos, negsuc, eqb_ℤ}
use salus_robot.Prelude.Result.{Result, ok, err, map_result}
use salus_robot.Float.{Float}
use salus_robot.Esp32.Crc.{crc8_maxim}
use salus_robot.Esp32.Telemetry.{Telemetry, BatteryTelemetry}

-- The messages of `ValueError`, with what each of them prints.
pub data DecodeError : Type 0 where
  empty_rx_frame : DecodeError
  invalid_esp_length invalid_battery_length : ℕ → DecodeError
  invalid_esp_header invalid_battery_header unsupported_header : ℕ → DecodeError
  invalid_esp_crc invalid_battery_crc : ℕ → ℕ → DecodeError

pub data DecodedRxFrame (T : Type 0) : Type 0 where
  telemetry : Telemetry T → DecodedRxFrame T
  battery : BatteryTelemetry T → DecodedRxFrame T

-- `frame[i]`, where the length has been tested.
abbrev pub byte : List ℕ → ℕ → ℕ
byte frame i = get_or frame i 0

-- `frame[i] | (frame[i + 1] << 8)`
abbrev pub word : List ℕ → ℕ → ℕ
word frame i = bit_or (byte frame i) (byte frame (suc i) * 256)

-- `struct.unpack("<h", ...)` of an unsigned word.
abbrev pub signed_word : ℕ → ℤ
signed_word n = if ltb n 32768 then pos n else negsuc (65535 - n)

-- `frame[:-1]` of a frame of eight bytes
abbrev pub body : List ℕ → List ℕ
body frame = take 7 frame

module _ {T : Type 0} ⦃F : Float T⦄ where
  abbrev stamp : Option T → T → T
  stamp none now = now
  stamp (some t) now = t

  -- `raw / scale`
  abbrev scaled : ℤ → ℕ → T
  scaled raw scale = F.div (F.of_ℤ raw) (F.decimal scale 0)

  -- `now` is the reading of `time.monotonic()`.
  unfoldable pub telemetry_of : List ℕ → Option T → T → Telemetry T
  telemetry_of frame rx now =
      let speed_raw = word frame 2 in
      let steer_raw = signed_word (word frame 4) in
      record {
        status_flags = byte frame 1;
        speed_mps = if speed_raw == 0xffff then none else some (scaled (pos speed_raw) 100);
        steer_deg = if eqb_ℤ steer_raw (negsuc 32767) then none else some (scaled steer_raw 100);
        brake_applied_pct = byte frame 6;
        raw_speed_centi_mps = speed_raw;
        raw_steer_centi_deg = steer_raw;
        rx_monotonic_s = stamp rx now;
      }

  unfoldable pub decode_esp_frame : List ℕ → Option T → T → Result DecodeError (Telemetry T)
  decode_esp_frame frame rx now =
      if not (length frame == 8)
      then err (invalid_esp_length (length frame))
      else if not (byte frame 0 == 0x55)
      then err (invalid_esp_header (byte frame 0))
      else if not (byte frame 7 == crc8_maxim (body frame))
      then err (invalid_esp_crc (byte frame 7) (crc8_maxim (body frame)))
      else ok (telemetry_of frame rx now)

  unfoldable pub battery_of : List ℕ → Option T → T → BatteryTelemetry T
  battery_of frame rx now =
      let battery_raw = word frame 2 in
      let adc_raw = word frame 4 in
      record {
        status_flags = byte frame 1;
        battery_voltage_v = scaled (pos battery_raw) 100;
        adc_pin_voltage_v = scaled (pos adc_raw) 1000;
        sample_age_s = scaled (pos (byte frame 6)) 10;
        raw_battery_centi_volts = battery_raw;
        raw_adc_pin_mv = adc_raw;
        raw_sample_age_ds = byte frame 6;
        rx_monotonic_s = stamp rx now;
      }

  unfoldable pub decode_battery_frame :
      List ℕ → Option T → T → Result DecodeError (BatteryTelemetry T)
  decode_battery_frame frame rx now =
      if not (length frame == 8)
      then err (invalid_battery_length (length frame))
      else if not (byte frame 0 == 0x56)
      then err (invalid_battery_header (byte frame 0))
      else if not (byte frame 7 == crc8_maxim (body frame))
      then err (invalid_battery_crc (byte frame 7) (crc8_maxim (body frame)))
      else ok (battery_of frame rx now)

  unfoldable pub decode_transport_frame :
      List ℕ → Option T → T → Result DecodeError (DecodedRxFrame T)
  unfolding decode_esp_frame decode_battery_frame
  decode_transport_frame [] rx now = err empty_rx_frame
  decode_transport_frame (header ∷ rest) rx now =
      let frame = header ∷ rest in
      if header == 0x55
      then map_result telemetry (decode_esp_frame frame rx now)
      else if header == 0x56
      then map_result battery (decode_battery_frame frame rx now)
      else err (unsupported_header header)
