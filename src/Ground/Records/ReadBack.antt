-- ===== src/Ground/Records/ReadBack.antt =====
-- gs_queries.cpp: the ground station reads back what the central computer encoded.
use embedded_project_pc.Common.{
  ℕ, ◌≡◌, ◌∙◌, sym, refl, List, [], ◌∷◌, ◌++◌, length, take, drop, take-append-drop, ap, All, arith,
}
use embedded_project_pc.Protocol.{IsU16, IsU32, Outcome, ok, err, fault, hangs, not_found, Span}
use embedded_project_pc.Protocol.Bytes.{
  put_u16, put_u32, get_u16, get_u32, get_u16-put_u16, get_u32-put_u32,
}
use embedded_project_pc.Protocol.Tlv.{find_field}
use embedded_project_pc.Protocol.Tlv.Single.{tlv_bytes}
use embedded_project_pc.Protocol.Tlv.Fields.{
  Field, IsShort, fields_bytes, fields_span, first_value, contents, find_field-fields_bytes,
}
use embedded_project_pc.Ground.Records.{
  Measurement, read_field, read_measurement, get_u8, field_timestamp, field_temperature,
  field_humidity, field_light, field_battery, field_mode,
}
use embedded_project_pc.Ground.Records.Encoded.{measurement_fields}

-- A function that reads from the front gives the same with more bytes behind.
abbrev pub ReadsFront : (List ℕ → Outcome ℕ) → Type 0
ReadsFront get = (front rest : List ℕ) (v : ℕ) → get front ≡ ok v → get (front ++ rest) ≡ ok v

pub get_u8-ReadsFront : ReadsFront get_u8
unfolding get_u8
get_u8-ReadsFront [] rest v e = ground arith
get_u8-ReadsFront (a ∷ front) rest v e = e

pub get_u16-ReadsFront : ReadsFront get_u16
unfolding get_u16
get_u16-ReadsFront [] rest v e = ground arith
get_u16-ReadsFront (a ∷ []) rest v e = ground arith
get_u16-ReadsFront (a ∷ b ∷ front) rest v e = e

pub get_u32-ReadsFront : ReadsFront get_u32
unfolding get_u32
get_u32-ReadsFront [] rest v e = ground arith
get_u32-ReadsFront (a ∷ []) rest v e = ground arith
get_u32-ReadsFront (a ∷ b ∷ []) rest v e = ground arith
get_u32-ReadsFront (a ∷ b ∷ c ∷ []) rest v e = ground arith
get_u32-ReadsFront (a ∷ b ∷ c ∷ d ∷ front) rest v e = e

read_found :
    (get : List ℕ → Outcome ℕ) (found : Outcome Span) (value : List ℕ) (v : ℕ)
    → ReadsFront get
    → contents found ≡ ok value
    → get value ≡ ok v
    → (elim found [ ok field ↦ get field.bytes | err e ↦ ok 0 | fault ↦ fault | hangs ↦ hangs ])
      ≡ ok v
read_found get (ok field) value v front e g =
    sym (ap get (take-append-drop field.len field.bytes))
    ∙ front (take field.len field.bytes) (drop field.len field.bytes) v (ground (arith, e, g))
read_found get (err e') value v front e g = ground arith
read_found get fault value v front e g = ground arith
read_found get hangs value v front e g = ground arith

pub read_field-first_value :
    (get : List ℕ → Outcome ℕ) (fs : List Field) (after value : List ℕ) (tag v : ℕ)
    → ReadsFront get
    → All IsShort fs
    → IsU16 (length (fields_bytes fs))
    → first_value tag fs (err not_found) ≡ ok value
    → get value ≡ ok v
    → read_field get (fields_span fs after) tag ≡ ok v
unfolding read_field
read_field-first_value get fs after value tag v front short small e g =
    read_found get (find_field (fields_span fs after) tag) value v front
      (find_field-fields_bytes fs after tag short small ∙ e) g

pub u16_alone : (value : ℕ) → IsU16 value → get_u16 (put_u16 value) ≡ ok value
unfolding put_u16
u16_alone value h = get_u16-put_u16 value [] h

pub u32_alone : (value : ℕ) → IsU32 value → get_u32 (put_u32 value) ≡ ok value
unfolding put_u32
u32_alone value h = get_u32-put_u32 value [] h

-- A measurement whose members are in the range of their types.
pub record InRange (m : Measurement) : Type 0 where
  pub timestamp_u32 : IsU32 m.timestamp
  pub temperature_u16 : IsU16 m.temperature
  pub light_u16 : IsU16 m.light
  pub battery_u16 : IsU16 m.battery_voltage

abbrev pub SmallFields : Measurement → Type 0
SmallFields m =
    All IsShort (measurement_fields m) × IsU16 (length (fields_bytes (measurement_fields m)))

pub measurement_fields_small : (m : Measurement) → SmallFields m
unfolding measurement_fields fields_bytes tlv_bytes put_u16 put_u32
measurement_fields_small m = ground arith

-- What the ground station prints of a record that the central computer encoded, is the measurement,
-- whatever memory follows the record.
pub read_measurement-measurement_fields :
    (m : Measurement) (after : List ℕ)
    → InRange m
    → read_measurement (fields_span (measurement_fields m) after) ≡ ok m
unfolding read_measurement measurement_fields first_value get_u8
read_measurement-measurement_fields m after r =
    let (short, small) = measurement_fields_small m in
    let fs = measurement_fields m in
    ground (
      arith,
      read_field-first_value get_u32 fs after (put_u32 m.timestamp) field_timestamp m.timestamp
          get_u32-ReadsFront short small refl (u32_alone m.timestamp r.timestamp_u32),
      read_field-first_value get_u16 fs after (put_u16 m.temperature) field_temperature
          m.temperature get_u16-ReadsFront short small refl
          (u16_alone m.temperature r.temperature_u16),
      read_field-first_value get_u8 fs after (m.humidity ∷ []) field_humidity m.humidity
          get_u8-ReadsFront short small refl refl,
      read_field-first_value get_u16 fs after (put_u16 m.light) field_light m.light
          get_u16-ReadsFront short small refl (u16_alone m.light r.light_u16),
      read_field-first_value get_u16 fs after (put_u16 m.battery_voltage) field_battery
          m.battery_voltage get_u16-ReadsFront short small refl
          (u16_alone m.battery_voltage r.battery_u16),
      read_field-first_value get_u8 fs after (m.mode ∷ []) field_mode m.mode get_u8-ReadsFront short
          small refl refl,
    )
