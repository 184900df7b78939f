-- ===== src/Fleet/Telemetry/Cached.antt =====
-- central_computer.cpp, CacheMeasurementFields: what is cached of a keep-alive and of an event
-- report.
use embedded_project_pc.Common.{
  ℕ, ◌≡◌, refl, sym, ap, ◌∙◌, List, [], ◌∷◌, Option, none, some, true, length, All, take, drop,
  take-append-drop, arith,
}
use embedded_project_pc.Protocol.{IsU16, Outcome, ok, err, fault, hangs, Span, not_found}
use embedded_project_pc.Protocol.Bytes.{put_u16, put_u32, get_u16, get_u32}
use embedded_project_pc.Protocol.Tlv.{find_field}
use embedded_project_pc.Protocol.Tlv.Single.{tlv_bytes}
use embedded_project_pc.Protocol.Tlv.Fields.{
  Field, IsShort, fields_bytes, fields_span, first_value, contents, find_field-fields_bytes,
}
use embedded_project_pc.Protocol.Tlv.Found.{find_field-found, contents-err}
use embedded_project_pc.Ground.Records.{
  Measurement, Event, get_u8, field_timestamp, field_temperature, field_humidity, field_light,
  field_battery, field_mode, field_measurement, field_event_type, field_event_source,
}
use embedded_project_pc.Ground.Records.Encoded.{measurement_fields, event_fields}
use embedded_project_pc.Ground.Records.ReadBack.{
  InRange, ReadsFront, get_u8-ReadsFront, get_u16-ReadsFront, get_u32-ReadsFront,
  read_field-first_value, u16_alone, u32_alone, measurement_fields_small,
}
use embedded_project_pc.Ground.Records.PrintedBack.{IsInRange, event_fields_small}
use embedded_project_pc.Log.Kept.{
  sample_fields, keep_alive_fields, sample_fields_small, keep_alive_fields_small, measurement_found,
}
use embedded_project_pc.Fleet.Link.{Link}
use embedded_project_pc.Fleet.Telemetry.{
  keep_field, cached, cache_measurement, cache_found, cache_measurement_fields,
}

keep_found :
    (get : List ℕ → Outcome ℕ) (found : Outcome Span) (value : List ℕ) (old v : ℕ)
    → ReadsFront get
    → contents found ≡ ok value
    → get value ≡ ok v
    → (elim found [ ok field ↦ get field.bytes | err e ↦ ok old | fault ↦ fault | hangs ↦ hangs ])
      ≡ ok v
keep_found get (ok field) value old v front e g =
    sym (ap get (take-append-drop field.len field.bytes))
    ∙ front (take field.len field.bytes) (drop field.len field.bytes) v (ground (arith, e, g))
keep_found get (err e') value old v front e g = ground arith
keep_found get fault value old v front e g = ground arith
keep_found get hangs value old v front e g = ground arith

-- A field that is there replaces the old reading.
keep_field-first_value :
    (get : List ℕ → Outcome ℕ) (fs : List Field) (value : List ℕ) (tag old v : ℕ)
    → ReadsFront get
    → All IsShort fs × IsU16 (length (fields_bytes fs))
    → first_value tag fs (err not_found) ≡ ok value
    → get value ≡ ok v
    → keep_field get (fields_span fs []) tag old ≡ ok v
unfolding keep_field
keep_field-first_value get fs value tag old v front (short, small) e g =
    keep_found get (find_field (fields_span fs []) tag) value old v front
      (find_field-fields_bytes fs [] tag short small ∙ e) g

-- A field that is not there leaves it.
keep_field-missing :
    (get : List ℕ → Outcome ℕ) (fs : List Field) (tag old : ℕ)
    → All IsShort fs × IsU16 (length (fields_bytes fs))
    → first_value tag fs (err not_found) ≡ err not_found
    → keep_field get (fields_span fs []) tag old ≡ ok old
unfolding keep_field
keep_field-missing get fs tag old (short, small) e =
    let absent =
      contents-err (find_field (fields_span fs []) tag)
        (find_field-fields_bytes fs [] tag short small ∙ e) in
    ground (arith, absent)

-- The link with the time and the four readings of a measurement, and a mode.
unfoldable pub with_readings : Link → Measurement → ℕ → Link
with_readings l m mode = record l {
  have_latest = true;
  latest_timestamp = m.timestamp;
  latest_temperature = m.temperature;
  latest_humidity = m.humidity;
  latest_light = m.light;
  latest_battery = m.battery_voltage;
  latest_mode = mode;
}

cache_measurement-sample_fields :
    (l : Link) (m : Measurement)
    → InRange m
    → cache_measurement m.timestamp l (fields_span (sample_fields m) [])
      ≡ ok (with_readings l m l.latest_mode)
unfolding cache_measurement cached with_readings first_value get_u8
cache_measurement-sample_fields l m r =
    let fs = sample_fields m in
    let small = sample_fields_small m in
    rw
      (
        keep_field-first_value get_u16 fs (put_u16 m.temperature) field_temperature
            l.latest_temperature m.temperature get_u16-ReadsFront small refl
            (u16_alone m.temperature r.temperature_u16),
        keep_field-first_value get_u8 fs (m.humidity ∷ []) field_humidity l.latest_humidity
            m.humidity get_u8-ReadsFront small refl refl,
        keep_field-first_value get_u16 fs (put_u16 m.light) field_light l.latest_light m.light
            get_u16-ReadsFront small refl (u16_alone m.light r.light_u16),
        keep_field-first_value get_u16 fs (put_u16 m.battery_voltage) field_battery l.latest_battery
            m.battery_voltage get_u16-ReadsFront small refl
            (u16_alone m.battery_voltage r.battery_u16),
        keep_field-missing get_u8 fs field_mode l.latest_mode small refl,
      )
      refl

-- A keep-alive's time and readings are cached. Its mode stands outside the measurement, so that the
-- cached mode stays as it was.
pub cache_measurement_fields-keep_alive_fields :
    (l : Link) (m : Measurement)
    → InRange m
    → cache_measurement_fields l (fields_span (keep_alive_fields m) [])
      ≡ ok (with_readings l m l.latest_mode)
unfolding cache_measurement_fields cache_found first_value
cache_measurement_fields-keep_alive_fields l m r =
    let (short, small) = keep_alive_fields_small m in
    rw
      (
        read_field-first_value get_u32 (keep_alive_fields m) [] (put_u32 m.timestamp)
            field_timestamp m.timestamp get_u32-ReadsFront short small refl
            (u32_alone m.timestamp r.timestamp_u32),
        measurement_found m [],
      )
      (cache_measurement-sample_fields l m r)

cache_measurement-measurement_fields :
    (timestamp : ℕ) (l : Link) (m : Measurement)
    → InRange m
    → cache_measurement timestamp l (fields_span (measurement_fields m) [])
      ≡ ok (with_readings l (record m { timestamp = timestamp }) m.mode)
unfolding cache_measurement cached with_readings first_value get_u8 measurement_fields
cache_measurement-measurement_fields timestamp l m r =
    let fs = measurement_fields m in
    let small = measurement_fields_small m in
    rw
      (
        keep_field-first_value get_u16 fs (put_u16 m.temperature) field_temperature
            l.latest_temperature m.temperature get_u16-ReadsFront small refl
            (u16_alone m.temperature r.temperature_u16),
        keep_field-first_value get_u8 fs (m.humidity ∷ []) field_humidity l.latest_humidity
            m.humidity get_u8-ReadsFront small refl refl,
        keep_field-first_value get_u16 fs (put_u16 m.light) field_light l.latest_light m.light
            get_u16-ReadsFront small refl (u16_alone m.light r.light_u16),
        keep_field-first_value get_u16 fs (put_u16 m.battery_voltage) field_battery l.latest_battery
            m.battery_voltage get_u16-ReadsFront small refl
            (u16_alone m.battery_voltage r.battery_u16),
        keep_field-first_value get_u8 fs (m.mode ∷ []) field_mode l.latest_mode m.mode
            get_u8-ReadsFront small refl refl,
      )
      refl

-- What an event report leaves: its time and its measurement, or nothing new without one.
unfoldable pub with_event : Link → ℕ → Option Measurement → Link
with_event l timestamp none = l
with_event l timestamp (some m) = with_readings l (record m { timestamp = timestamp }) m.mode

event_measurement :
    (timestamp event_type event_source : ℕ) (measurement : Option Measurement) (l : Link)
    → (let e : Event = record {
      timestamp = timestamp;
      event_type = event_type;
      event_source = event_source;
      measurement = measurement;
    } in
        IsInRange e
        → cache_found timestamp l (find_field (fields_span (event_fields e) []) field_measurement)
          ≡ ok (with_event l timestamp measurement))
unfolding cache_found with_event event_fields measurement_fields fields_bytes tlv_bytes put_u16
    put_u32 first_value
event_measurement timestamp event_type event_source none l r =
    let e : Event = record {
      timestamp = timestamp;
      event_type = event_type;
      event_source = event_source;
      measurement = none;
    } in
    let (short, small) = event_fields_small timestamp event_type event_source none in
    ap (cache_found timestamp l) (
      contents-err (find_field (fields_span (event_fields e) []) field_measurement)
        (find_field-fields_bytes (event_fields e) [] field_measurement short small))
event_measurement timestamp event_type event_source (some m) l r =
    let e : Event = record {
      timestamp = timestamp;
      event_type = event_type;
      event_source = event_source;
      measurement = some m;
    } in
    let (short, small) = event_fields_small timestamp event_type event_source (some m) in
    let (in_range, _) = r.measurement_in_range in
    let found =
      find_field-found (fields_span (event_fields e) [])
        ((field_timestamp, put_u32 timestamp)
          ∷ (field_event_type, event_type ∷ [])
          ∷ (field_event_source, event_source ∷ [])
          ∷ [])
        (fields_bytes (measurement_fields m)) [] field_measurement refl (ground arith)
        (ground arith) (ground arith) (ground arith) small in
    ap (cache_found timestamp l) found ∙ cache_measurement-measurement_fields timestamp l m in_range

-- Of an event report, the time and the measurement with its mode are cached; without a measurement
-- the cache stays as it was.
pub cache_measurement_fields-event_fields :
    (l : Link) (e : Event)
    → IsInRange e
    → cache_measurement_fields l (fields_span (event_fields e) [])
      ≡ ok (with_event l e.timestamp e.measurement)
unfolding cache_measurement_fields event_fields first_value
cache_measurement_fields-event_fields l e r =
    let (short, small) = event_fields_small e.timestamp e.event_type e.event_source e.measurement in
    let time =
      read_field-first_value get_u32 (event_fields e) [] (put_u32 e.timestamp) field_timestamp
        e.timestamp get_u32-ReadsFront short small refl (u32_alone e.timestamp r.timestamp_u32) in
    rw time (event_measurement e.timestamp e.event_type e.event_source e.measurement l r)
