-- ===== src/Log/Kept.antt =====
-- log.cpp: what is stored of a keep-alive and of an event report.
use embedded_project_pc.Common.{
  ℕ, ◌≡◌, refl, ◌∙◌, List, [], ◌∷◌, Option, none, some, length, All, arith,
}
use embedded_project_pc.Protocol.{IsU16, Outcome, ok, err, not_found, Span}
use embedded_project_pc.Protocol.Bytes.{put_u16, put_u32, get_u16, get_u32}
use embedded_project_pc.Protocol.Tlv.{find_field}
use embedded_project_pc.Protocol.Tlv.Single.{tlv_bytes}
use embedded_project_pc.Protocol.Tlv.Fields.{
  Field, IsShort, fields_bytes, fields_span, first_value, find_field-fields_bytes,
}
use embedded_project_pc.Protocol.Tlv.Found.{find_field-found, contents-err}
use embedded_project_pc.Ground.Records.{
  Measurement, Event, read_field, get_u8, field_timestamp, field_temperature, field_humidity,
  field_light, field_battery, field_mode, field_measurement, field_event_type, field_event_source,
}
use embedded_project_pc.Ground.Records.Encoded.{event_fields}
use embedded_project_pc.Ground.Records.ReadBack.{
  InRange, get_u8-ReadsFront, get_u16-ReadsFront, get_u32-ReadsFront, read_field-first_value,
  u16_alone, u32_alone,
}
use embedded_project_pc.Ground.Records.Printed.{printed_event}
use embedded_project_pc.Ground.Records.PrintedBack.{
  IsInRange, event_fields_small, read_nested-event_fields,
}
use embedded_project_pc.Log.{
  measurement_stored, event_stored, store_keep_alive, print_keep_alive, print_event_report,
  field_wd_reset_flag,
}

-- A keep-alive's fields: the time, the mode, and the readings of the measurement.
abbrev pub sample_fields : Measurement → List Field
sample_fields m =
    (field_temperature, put_u16 m.temperature)
    ∷ (field_humidity, m.humidity ∷ [])
    ∷ (field_light, put_u16 m.light)
    ∷ (field_battery, put_u16 m.battery_voltage)
    ∷ []

abbrev pub keep_alive_fields : Measurement → List Field
keep_alive_fields m =
    (field_timestamp, put_u32 m.timestamp)
    ∷ (field_mode, m.mode ∷ [])
    ∷ (field_measurement, fields_bytes (sample_fields m))
    ∷ []

abbrev pub AllSmall : List Field → Type 0
AllSmall fs = All IsShort fs × IsU16 (length (fields_bytes fs))

pub sample_fields_small : (m : Measurement) → AllSmall (sample_fields m)
unfolding fields_bytes tlv_bytes put_u16
sample_fields_small m = ground arith

pub keep_alive_fields_small : (m : Measurement) → AllSmall (keep_alive_fields m)
unfolding fields_bytes tlv_bytes put_u16 put_u32
keep_alive_fields_small m = ground arith

pub measurement_found :
    (m : Measurement) (after : List ℕ)
    → find_field (fields_span (keep_alive_fields m) after) field_measurement
      ≡ ok (fields_span (sample_fields m) after)
unfolding fields_bytes tlv_bytes put_u16 put_u32
measurement_found m after =
    let (short, small) = keep_alive_fields_small m in
    find_field-found (fields_span (keep_alive_fields m) after)
      ((field_timestamp, put_u32 m.timestamp) ∷ (field_mode, m.mode ∷ []) ∷ [])
      (fields_bytes (sample_fields m)) after field_measurement refl (ground arith) (ground arith)
      (ground arith) (ground arith) small

-- A keep-alive with a time, a mode and the four readings, leads to one call of the store, with just
-- these values, whatever memory follows it.
pub print_keep_alive-keep_alive_fields :
    (m : Measurement) (after : List ℕ)
    → InRange m
    → print_keep_alive (fields_span (keep_alive_fields m) after) ≡ ok (measurement_stored m ∷ [])
unfolding print_keep_alive store_keep_alive first_value get_u8
print_keep_alive-keep_alive_fields m after r =
    let (short, small) = keep_alive_fields_small m in
    let (short', small') = sample_fields_small m in
    let fs = keep_alive_fields m in
    let gs = sample_fields m in
    rw
      (
        read_field-first_value get_u32 fs after (put_u32 m.timestamp) field_timestamp m.timestamp
            get_u32-ReadsFront short small refl (u32_alone m.timestamp r.timestamp_u32),
        read_field-first_value get_u8 fs after (m.mode ∷ []) field_mode m.mode get_u8-ReadsFront
            short small refl refl,
        measurement_found m after,
        read_field-first_value get_u16 gs after (put_u16 m.temperature) field_temperature
            m.temperature get_u16-ReadsFront short' small' refl
            (u16_alone m.temperature r.temperature_u16),
        read_field-first_value get_u8 gs after (m.humidity ∷ []) field_humidity m.humidity
            get_u8-ReadsFront short' small' refl refl,
        read_field-first_value get_u16 gs after (put_u16 m.light) field_light m.light
            get_u16-ReadsFront short' small' refl (u16_alone m.light r.light_u16),
        read_field-first_value get_u16 gs after (put_u16 m.battery_voltage) field_battery
            m.battery_voltage get_u16-ReadsFront short' small' refl
            (u16_alone m.battery_voltage r.battery_u16),
      )
      refl

-- A field that is missing is read as 0.
read_field-missing :
    (get : List ℕ → Outcome ℕ) (buf : Span) (tag : ℕ)
    → find_field buf tag ≡ err not_found
    → read_field get buf tag ≡ ok 0
unfolding read_field
read_field-missing get buf tag e = ground (arith, e)

first_wd_reset_flag :
    (timestamp event_type event_source : ℕ) (measurement : Option Measurement)
    → first_value field_wd_reset_flag
        (event_fields (record {
          timestamp = timestamp;
          event_type = event_type;
          event_source = event_source;
          measurement = measurement;
        }))
        (err not_found)
      ≡ err not_found
unfolding event_fields first_value
first_wd_reset_flag timestamp event_type event_source none = refl
first_wd_reset_flag timestamp event_type event_source (some m) = refl

no_wd_reset_flag :
    (e : Event) (after : List ℕ)
    → read_field get_u8 (fields_span (event_fields e) after) field_wd_reset_flag ≡ ok 0
no_wd_reset_flag e after =
    let (short, small) = event_fields_small e.timestamp e.event_type e.event_source e.measurement in
    let buf = fields_span (event_fields e) after in
    read_field-missing get_u8 buf field_wd_reset_flag (
      contents-err (find_field buf field_wd_reset_flag) (
        find_field-fields_bytes (event_fields e) after field_wd_reset_flag short small
        ∙ first_wd_reset_flag e.timestamp e.event_type e.event_source e.measurement))

-- An event report with the fields of an event leads to one call of the store, with just this event,
-- whatever memory follows it.
pub print_event_report-event_fields :
    (e : Event) (after : List ℕ)
    → IsInRange e
    → print_event_report (fields_span (event_fields e) after)
      ≡ ok (event_stored (printed_event e) ∷ [])
unfolding print_event_report event_fields first_value get_u8 printed_event
print_event_report-event_fields e after r =
    let (short, small) = event_fields_small e.timestamp e.event_type e.event_source e.measurement in
    let fs = event_fields e in
    rw
      (
        read_field-first_value get_u32 fs after (put_u32 e.timestamp) field_timestamp e.timestamp
            get_u32-ReadsFront short small refl (u32_alone e.timestamp r.timestamp_u32),
        read_field-first_value get_u8 fs after (e.event_type ∷ []) field_event_type e.event_type
            get_u8-ReadsFront short small refl refl,
        read_field-first_value get_u8 fs after (e.event_source ∷ []) field_event_source
            e.event_source get_u8-ReadsFront short small refl refl,
        no_wd_reset_flag e after,
        read_nested-event_fields e.timestamp e.event_type e.event_source e.measurement after r,
      )
      refl
