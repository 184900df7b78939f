-- ===== src/Ground/Records/PrintedBack.antt =====
-- gs_queries.cpp: an event that the central computer encoded is printed as it is.
use embedded_project_pc.Common.{
  ℕ, ◌≡◌, refl, ◌∙◌, ap, List, [], ◌∷◌, Option, none, some, length, All, arith,
}
use embedded_project_pc.Protocol.{IsU16, IsU32, ok, ◌>>=◌}
use embedded_project_pc.Protocol.Bytes.{put_u16, put_u32, get_u16, get_u32}
use embedded_project_pc.Protocol.Tlv.{find_field}
use embedded_project_pc.Protocol.Tlv.Single.{tlv_bytes}
use embedded_project_pc.Protocol.Tlv.Fields.{
  Field, IsShort, fields_bytes, fields_span, first_value, find_field-fields_bytes,
}
use embedded_project_pc.Protocol.Tlv.Found.{find_field-found, contents-err}
use embedded_project_pc.Ground.Records.{
  Measurement, Event, get_u8, field_timestamp, field_temperature, field_humidity, field_light,
  field_battery, field_mode, field_measurement, field_event_type, field_event_source,
}
use embedded_project_pc.Ground.Records.Encoded.{measurement_fields, event_fields}
use embedded_project_pc.Ground.Records.ReadBack.{
  get_u8-ReadsFront, get_u16-ReadsFront, get_u32-ReadsFront, read_field-first_value, u16_alone,
  u32_alone, InRange, measurement_fields_small,
}
use embedded_project_pc.Ground.Records.Printed.{
  read_sample, read_nested, read_event, sample_of, printed_event,
}

read_sample-measurement_fields :
    (m : Measurement) (after : List ℕ)
    → InRange m
    → read_sample (fields_span (measurement_fields m) after) ≡ ok (sample_of m)
unfolding read_sample sample_of measurement_fields first_value get_u8
read_sample-measurement_fields m after r =
    let (short, small) = measurement_fields_small m in
    let fs = measurement_fields m in
    ground (
      arith,
      read_field-first_value get_u16 fs after (put_u16 m.temperature) field_temperature
          m.temperature get_u16-ReadsFront short small refl
          (u16_alone m.temperature r.temperature_u16),
      read_field-first_value get_u8 fs after (m.humidity ∷ []) field_humidity m.humidity
          get_u8-ReadsFront short small refl refl,
      read_field-first_value get_u16 fs after (put_u16 m.light) field_light m.light
          get_u16-ReadsFront short small refl (u16_alone m.light r.light_u16),
      read_field-first_value get_u16 fs after (put_u16 m.battery_voltage) field_battery
          m.battery_voltage get_u16-ReadsFront short small refl
          (u16_alone m.battery_voltage r.battery_u16),
      read_field-first_value get_u8 fs after (m.mode ∷ []) field_mode m.mode get_u8-ReadsFront short
          small refl refl,
    )

-- An event whose members are in the range of their types.
pub record IsInRange (e : Event) : Type 0 where
  pub timestamp_u32 : IsU32 e.timestamp
  pub measurement_in_range : All InRange (elim e.measurement [ none ↦ [] | some m ↦ m ∷ [] ])

-- The fields in front of the measurement's, and all of them.
head_fields : Event → List Field
head_fields e =
    (field_timestamp, put_u32 e.timestamp)
    ∷ (field_event_type, e.event_type ∷ [])
    ∷ (field_event_source, e.event_source ∷ [])
    ∷ []

abbrev pub AllSmall : List Field → Type 0
AllSmall fs = All IsShort fs × IsU16 (length (fields_bytes fs))

pub event_fields_small :
    (timestamp event_type event_source : ℕ) (measurement : Option Measurement)
    → AllSmall (
        event_fields (record {
          timestamp = timestamp;
          event_type = event_type;
          event_source = event_source;
          measurement = measurement;
        }))
unfolding event_fields measurement_fields fields_bytes tlv_bytes put_u16 put_u32
event_fields_small timestamp event_type event_source none = ground arith
event_fields_small timestamp event_type event_source (some m) = ground arith

pub read_nested-event_fields :
    (timestamp event_type event_source : ℕ) (measurement : Option Measurement) (after : List ℕ)
    → (let e : Event = record {
      timestamp = timestamp;
      event_type = event_type;
      event_source = event_source;
      measurement = measurement;
    } in
        IsInRange e
        → read_nested (find_field (fields_span (event_fields e) after) field_measurement)
          ≡ ok (printed_event e).sample)
unfolding read_nested printed_event event_fields head_fields measurement_fields fields_bytes
    tlv_bytes put_u16 put_u32 first_value
read_nested-event_fields timestamp event_type event_source none after r =
    let e : Event = record {
      timestamp = timestamp;
      event_type = event_type;
      event_source = event_source;
      measurement = none;
    } in
    let (short, small) = event_fields_small timestamp event_type event_source none in
    ap read_nested (
      contents-err (find_field (fields_span (event_fields e) after) field_measurement)
        (find_field-fields_bytes (event_fields e) after field_measurement short small))
read_nested-event_fields timestamp event_type event_source (some m) after r =
    let e : Event = record {
      timestamp = timestamp;
      event_type = event_type;
      event_source = event_source;
      measurement = some m;
    } in
    let (short, small) = event_fields_small timestamp event_type event_source (some m) in
    let (in_range, _) = r.measurement_in_range in
    let found =
      find_field-found (fields_span (event_fields e) after) (head_fields e)
        (fields_bytes (measurement_fields m)) after field_measurement refl (ground arith)
        (ground arith) (ground arith) (ground arith) small in
    ap read_nested found
    ∙ ap (λ o. o >>= λ s. ok (some s)) (read_sample-measurement_fields m after in_range)

-- What the ground station prints of an event that the central computer encoded, is the event, whatever
-- memory follows the record.
pub read_event-event_fields :
    (e : Event) (after : List ℕ)
    → IsInRange e
    → read_event (fields_span (event_fields e) after) ≡ ok (printed_event e)
unfolding read_event event_fields first_value get_u8 printed_event
read_event-event_fields e after r =
    let (short, small) = event_fields_small e.timestamp e.event_type e.event_source e.measurement in
    let fs = event_fields e in
    rw
      (
        read_field-first_value get_u32 fs after (put_u32 e.timestamp) field_timestamp e.timestamp
            get_u32-ReadsFront short small refl (u32_alone e.timestamp r.timestamp_u32),
        read_field-first_value get_u8 fs after (e.event_type ∷ []) field_event_type e.event_type
            get_u8-ReadsFront short small refl refl,
        read_field-first_value get_u8 fs after (e.event_source ∷ []) field_event_source
            e.event_source get_u8-ReadsFront short small refl refl,
        read_nested-event_fields e.timestamp e.event_type e.event_source e.measurement after r,
      )
      refl
