-- ===== src/Ground/Records/Encoded.antt =====
-- comm_gs.cpp: the encoders never run out of room, and their records are fields of the protocol.
use embedded_project_pc.Common.{
  ℕ, ◌+◌, ◌-◌, ◌≤◌, ◌≡◌, refl, List, [], ◌∷◌, ◌++◌, none, some, length, arith,
}
use embedded_project_pc.Protocol.{ok}
use embedded_project_pc.Protocol.Bytes.{put_u16, put_u32}
use embedded_project_pc.Protocol.Tlv.{encode_tlv}
use embedded_project_pc.Protocol.Tlv.Single.{tlv_bytes, encode_tlv-tlv_bytes, max_value}
use embedded_project_pc.Protocol.Tlv.Fields.{Field, fields_bytes}
use embedded_project_pc.Ground.Records.{
  Measurement, Event, append_field, measurement_value, append_measurement_record, append_nested,
  append_event_record, field_timestamp, field_temperature, field_humidity, field_light,
  field_battery, field_mode, field_measurement, field_event_type, field_event_source, field_event,
}

pub append_field-tlv_bytes :
    (cap tag : ℕ) (value buf : List ℕ)
    → length value ≤ max_value
    → length buf + 3 + length value ≤ cap
    → append_field cap tag value buf ≡ ok (buf ++ tlv_bytes tag value)
unfolding append_field
append_field-tlv_bytes cap tag value buf short room =
    ground (arith, encode_tlv-tlv_bytes tag value (cap - length buf) short)

unfoldable pub measurement_fields : Measurement → List Field
measurement_fields m =
    (field_timestamp, put_u32 m.timestamp)
    ∷ (field_temperature, put_u16 m.temperature)
    ∷ (field_humidity, m.humidity ∷ [])
    ∷ (field_light, put_u16 m.light)
    ∷ (field_battery, put_u16 m.battery_voltage)
    ∷ (field_mode, m.mode ∷ [])
    ∷ []

abbrev pub measurement_bytes : Measurement → List ℕ
measurement_bytes m = fields_bytes (measurement_fields m)

pub measurement_value-fields_bytes :
    (m : Measurement) → measurement_value m ≡ ok (fields_bytes (measurement_fields m))
unfolding measurement_value append_field encode_tlv measurement_fields fields_bytes tlv_bytes
    put_u16 put_u32
measurement_value-fields_bytes m = refl

-- AppendMeasurementRecord always succeeds: behind what is there stands one MEASUREMENT_RECORD field
-- with the six fields of the measurement.
pub append_measurement_record-tlv_bytes :
    (out : List ℕ) (m : Measurement)
    → append_measurement_record out m
      ≡ ok (out ++ tlv_bytes field_measurement (fields_bytes (measurement_fields m)))
unfolding append_measurement_record measurement_value append_field encode_tlv measurement_fields
    fields_bytes tlv_bytes put_u16 put_u32
append_measurement_record-tlv_bytes out m = refl

unfoldable pub event_fields : Event → List Field
event_fields e =
    (field_timestamp, put_u32 e.timestamp)
    ∷ (field_event_type, e.event_type ∷ [])
    ∷ (field_event_source, e.event_source ∷ [])
    ∷ (elim e.measurement [
      | none ↦ []
      | some m ↦ (field_measurement, fields_bytes (measurement_fields m)) ∷ []
    ])

-- AppendEventRecord always succeeds: behind what is there stands one EVENT_RECORD field with the
-- three fields of the event and, if it has a measurement, that as a field of its own.
pub append_event_record-tlv_bytes :
    (out : List ℕ) (e : Event)
    → append_event_record out e ≡ ok (out ++ tlv_bytes field_event (fields_bytes (event_fields e)))
unfolding append_event_record append_nested measurement_value append_field encode_tlv event_fields
    measurement_fields fields_bytes tlv_bytes put_u16 put_u32
append_event_record-tlv_bytes out e =
    elim e.measurement
      as (λ m.
        append_event_record out (record e { measurement = m })
        ≡ ok (
            out
            ++ tlv_bytes field_event
                (fields_bytes (event_fields (record e { measurement = m }))))) [
                  | none ↦ refl
                  | some m ↦ refl
                ]

abbrev pub event_bytes : Event → List ℕ
event_bytes e = fields_bytes (event_fields e)
