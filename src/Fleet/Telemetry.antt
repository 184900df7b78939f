-- ===== src/Fleet/Telemetry.antt =====
-- oop_fleet/central_computer.cpp: CacheMeasurementFields and PollLatestTelemetry.
pub mod Cached
pub mod Queue
pub mod Polling
use embedded_project_pc.Common.{
  ℕ, ◌+◌, ◌%◌, ◌^◌, ◌==◌, ◌||◌, ◌≡◌, refl, List, [], ◌∷◌, Option, none, some, Bool, true, false,
  length, take, ltb, if◌then◌else◌, arith,
}
use embedded_project_pc.Protocol.{Outcome, ok, err, fault, hangs, ◌>>=◌, Span}
use embedded_project_pc.Protocol.Bytes.{get_u16, get_u32}
use embedded_project_pc.Protocol.Tlv.{Tlv, decode_tlv, find_field}
use embedded_project_pc.Ground.Records.{
  read_field, get_u8, field_timestamp, field_measurement, field_temperature, field_humidity,
  field_light, field_battery, field_mode,
}
use embedded_project_pc.Fleet.Link.{Link, disconnect, connect}

abbrev pub tag_keep_alive : ℕ
tag_keep_alive = 0x11

abbrev pub tag_event_report : ℕ
tag_event_report = 0x12

-- A reading that stays as it was where its field is missing.
keep_field : (List ℕ → Outcome ℕ) → Span → ℕ → ℕ → Outcome ℕ
keep_field get buf tag old = elim (find_field buf tag) [
  | ok field ↦ get field.bytes
  | err e ↦ ok old
  | fault ↦ fault
  | hangs ↦ hangs
]

cached : Link → ℕ → ℕ → ℕ → ℕ → ℕ → ℕ → Link
cached l timestamp temperature humidity light battery mode = record l {
  have_latest = true;
  latest_timestamp = timestamp;
  latest_temperature = temperature;
  latest_humidity = humidity;
  latest_light = light;
  latest_battery = battery;
  latest_mode = mode;
}

-- The rest of CacheMeasurementFields, once the measurement is found.
cache_measurement : ℕ → Link → Span → Outcome Link
unfolding keep_field cached
cache_measurement timestamp l measurement = do
  temperature ← keep_field get_u16 measurement field_temperature l.latest_temperature
  humidity ← keep_field get_u8 measurement field_humidity l.latest_humidity
  light ← keep_field get_u16 measurement field_light l.latest_light
  battery ← keep_field get_u16 measurement field_battery l.latest_battery
  mode ← keep_field get_u8 measurement field_mode l.latest_mode
  ok (cached l timestamp temperature humidity light battery mode)

cache_found : ℕ → Link → Outcome Span → Outcome Link
cache_found timestamp l (ok measurement) = cache_measurement timestamp l measurement
cache_found timestamp l (err e) = ok l
cache_found timestamp l fault = fault
cache_found timestamp l hangs = hangs

unfoldable pub cache_measurement_fields : Link → Span → Outcome Link
unfolding cache_found cache_measurement
cache_measurement_fields l value = do
  timestamp ← read_field get_u32 value field_timestamp
  cache_found timestamp l (find_field value field_measurement)

-- What the two calls of recv() do in one round: the first gives a negative number (`none`) or that
-- many bytes, the second fills `payload`.
pub record Attempt : Type 0 where
  pub prefix : Option (List ℕ)
  pub payload : List ℕ

-- A decoded message; those with other tags are passed over. What is printed and stored of a
-- keep-alive or an event report is left out.
on_message : Link → Outcome Tlv → Outcome Link
unfolding cache_measurement_fields
on_message l (ok t) =
    if t.tag == tag_keep_alive || t.tag == tag_event_report
    then cache_measurement_fields l t.value
    else ok l
on_message l (err e) = ok l
on_message l fault = fault
on_message l hangs = hangs

-- Behind a length that fits: the second recv(), and the message. The Boolean says whether the loop
-- goes on.
on_payload : Link → ℕ → List ℕ → Outcome (Link × Bool)
unfolding on_message
on_payload l len payload =
    if length payload == len
    then (do l' ← on_message l (decode_tlv (record { bytes = payload; len = len })); ok (l', true))
    else ok (disconnect l, false)

poll_once : Link → Attempt → Outcome (Link × Bool)
unfolding on_payload
poll_once l a = elim a.prefix [
  | none ↦ ok (l, false)
  | some bytes ↦
      if length bytes == 0
      then ok (disconnect l, false)
      else (if ltb (length bytes) 4 then ok (l, false) else (do
        len ← get_u32 bytes
        if len == 0 || ltb 256 len then ok (l, false) else on_payload l len a.payload))
]

-- The loop; the list has an entry for each of its rounds.
pub poll_loop : Link → List Attempt → Outcome Link
unfolding poll_once
poll_loop l [] = ok l
poll_loop l (a ∷ attempts) =
    poll_once l a >>= λ (l', goes_on). if goes_on then poll_loop l' attempts else ok l'

unfoldable pub poll_latest_telemetry : Link → List Attempt → Outcome Link
unfolding poll_loop
poll_latest_telemetry l attempts = elim l.fd [
  | none ↦ ok l
  | some fd ↦ poll_loop l (take 5 attempts)
]
