-- ===== src/Ground/Records/Printed.antt =====
-- ground_station/gs_queries.cpp: the event records that Gs_RequestEvents prints, and the measurement
-- in one. central_computer/log.cpp and management_command.cpp read the same fields.
use embedded_project_pc.Common.{ℕ, Option, none, some}
use embedded_project_pc.Protocol.{Outcome, ok, err, fault, hangs, ◌>>=◌, Span}
use embedded_project_pc.Protocol.Bytes.{get_u16, get_u32}
use embedded_project_pc.Protocol.Tlv.{find_field}
use embedded_project_pc.Ground.Records.{
  Measurement, Event, read_field, get_u8, field_timestamp, field_temperature, field_humidity,
  field_light, field_battery, field_mode, field_measurement, field_event_type, field_event_source,
}

-- The measurement of an event is printed without a time of its own.
pub record Sample : Type 0 where
  pub temperature : ℕ
  pub humidity : ℕ
  pub light : ℕ
  pub battery_voltage : ℕ
  pub mode : ℕ

pub record PrintedEvent : Type 0 where
  pub timestamp : ℕ
  pub event_type : ℕ
  pub event_source : ℕ
  pub sample : Option Sample

unfoldable pub read_sample : Span → Outcome Sample
read_sample buf = do
  temperature ← read_field get_u16 buf field_temperature
  humidity ← read_field get_u8 buf field_humidity
  light ← read_field get_u16 buf field_light
  battery ← read_field get_u16 buf field_battery
  mode ← read_field get_u8 buf field_mode
  ok (record {
    temperature = temperature;
    humidity = humidity;
    light = light;
    battery_voltage = battery;
    mode = mode;
  })

-- The measurement's fields are read if Protocol_FindField gives PROTO_OK.
unfoldable pub read_nested : Outcome Span → Outcome (Option Sample)
read_nested (ok measurement) = do s ← read_sample measurement; ok (some s)
read_nested (err e) = ok none
read_nested fault = fault
read_nested hangs = hangs

unfoldable pub read_event : Span → Outcome PrintedEvent
unfolding read_nested
read_event buf = do
  timestamp ← read_field get_u32 buf field_timestamp
  event_type ← read_field get_u8 buf field_event_type
  event_source ← read_field get_u8 buf field_event_source
  sample ← read_nested (find_field buf field_measurement)
  ok (record {
    timestamp = timestamp;
    event_type = event_type;
    event_source = event_source;
    sample = sample;
  })

-- What is to be printed of a stored event.
unfoldable pub sample_of : Measurement → Sample
sample_of m = record {
  temperature = m.temperature;
  humidity = m.humidity;
  light = m.light;
  battery_voltage = m.battery_voltage;
  mode = m.mode;
}

unfoldable pub printed_event : Event → PrintedEvent
unfolding sample_of
printed_event e = record {
  timestamp = e.timestamp;
  event_type = e.event_type;
  event_source = e.event_source;
  sample = elim e.measurement [ none ↦ none | some m ↦ some (sample_of m) ];
}
