-- ===== src/Rtcm/Legacy.antt =====
-- rtk_domain.py: the status of the source that the program had before, read from its texts.
use salus_robot.Prelude.{ℕ, Bool, false, not, ◌||◌, none, some, String, str_eq, if◌then◌else◌}
use salus_robot.Prelude.Int.{ℤ, pos, negsuc, pos_part}
use salus_robot.Prelude.Result.{Result, ok, err, ◌>>=◌}
use salus_robot.Prelude.Text.{strip}
use salus_robot.Float
use salus_robot.Float.{Float, nought}
use salus_robot.Json.{null, str, obj, Fields, lookup, truthy, PyJson}
use salus_robot.Rtcm.Status.{
  FixQuality, unknown, no_fix, autonomous, rtk_float, rtk_fixed, LegacySourceStatus, Detail,
  legacy_source_error, receiving_rtcm, connected_without_fresh_rtcm, disconnected,
}

pub data DeliveryBackend : Type 0 where
  disabled pixhawk_mavros direct_usb : DeliveryBackend

pub data BackendError : Type 0 where
  unknown_backend : BackendError

-- `lower` is `str.lower`, here and below.
unfoldable pub delivery_backend : (String → String) → String → Result BackendError DeliveryBackend
delivery_backend lower value =
    let normalized = lower (strip value) in
    if str_eq normalized "disabled"
    then ok disabled
    else if str_eq normalized "pixhawk_mavros"
    then ok pixhawk_mavros
    else if str_eq normalized "direct_usb"
    then ok direct_usb
    else err unknown_backend

-- What `parse_legacy_source_status` raises; `not_a_number` is what `float` or `int` raise.
pub data StatusError : Type 0 where
  bad_stale_timeout invalid_status_json not_a_number : StatusError

-- The quality of a fix, and the receiver's number of it.
unfoldable pub map_legacy_fix_status : (String → String) → String → FixQuality × ℤ
map_legacy_fix_status lower value =
    let normalized = lower (strip value) in
    if str_eq normalized "gps_no_fix"
    then (no_fix, pos 1)
    else if str_eq normalized "rtk_float"
    then (rtk_float, pos 5)
    else if str_eq normalized "rtk_fixed"
    then (rtk_fixed, pos 6)
    else if str_eq normalized "gps_only"
    then (autonomous, pos 3)
    else if str_eq normalized "gps_static"
    then (autonomous, pos 7)
    else if str_eq normalized "ppp"
    then (autonomous, pos 8)
    else (unknown, negsuc 0)

abbrev detail_of : String → Bool → Bool → Detail
detail_of error receiving connected =
    if not (str_eq error "")
    then legacy_source_error
    else if receiving
    then receiving_rtcm
    else if connected
    then connected_without_fresh_rtcm
    else disconnected

module _ {T : Type 0} ⦃F : Float T⦄ ⦃J : PyJson T⦄ where
  -- `bool(payload.get(key, False))`
  abbrev flag_at : String → Fields T → Bool
  flag_at key fields = elim (lookup key fields) [ none ↦ false | some v ↦ truthy v ]

  -- `str(payload.get(key) or "").strip()`
  abbrev text_at : String → Fields T → String
  text_at key fields = elim (lookup key fields) [
    | none ↦ ""
    | some (str s) ↦ strip s
    | some v ↦ if truthy v then strip (J.to_str v) else ""
  ]

  -- `max(0, int(payload.get(key, 0)))`
  unfoldable pub count_at : String → Fields T → Result StatusError ℕ
  count_at key fields = elim (lookup key fields) [
    | none ↦ ok 0
    | some v ↦ elim (J.to_int v) [ none ↦ err not_a_number | some z ↦ ok (pos_part z) ]
  ]

  abbrev bounded_age : T → T
  bounded_age age = if F.finite age then Float.max nought age else age

  -- The age of the corrections, or not a number where none is given.
  unfoldable pub age_at : Fields T → Result StatusError T
  age_at fields = elim (lookup "rtcm_age_s" fields) [
    | none ↦ ok F.nan
    | some null ↦ ok F.nan
    | some v ↦ elim (J.to_float v) [ none ↦ err not_a_number | some x ↦ ok (bounded_age x) ]
  ]

  unfoldable pub status_of : Fields T → Result StatusError (LegacySourceStatus T)
  status_of fields =
      let connected = flag_at "connected" fields in
      let receiving = flag_at "receiving_rtcm" fields in
      let error = text_at "last_error" fields in
      age_at fields >>= λ age. count_at "status_sequence" fields >>= λ sequence.
      count_at "received_count" fields >>= λ received.
      count_at "crc_errors" fields >>= λ crc_errors. ok (record {
        sequence = sequence;
        source_id = text_at "active_source_id" fields;
        connected = connected;
        receiving = receiving;
        correction_age_s = age;
        received_count = received;
        crc_error_count = crc_errors;
        detail = detail_of error receiving connected;
      })

  unfoldable pub parse_legacy_source_status : String → T → Result StatusError (LegacySourceStatus T)
  parse_legacy_source_status raw stale_timeout =
      if not (F.finite stale_timeout) || F.le stale_timeout nought
      then err bad_stale_timeout
      else elim (J.loads raw) [
        | none ↦ err invalid_status_json
        | some v ↦ elim v [ obj fields ↦ status_of fields | _ ↦ err invalid_status_json ]
      ]
