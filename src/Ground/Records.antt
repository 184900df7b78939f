-- ===== src/Ground/Records.antt =====
-- central_computer/comm_gs.cpp: AppendMeasurementRecord and AppendEventRecord; ground_station/
-- gs_queries.cpp: the fields that are read back.
pub mod Encoded
pub mod ReadBack
pub mod Printed
pub mod PrintedBack
use embedded_project_pc.Common.{ℕ, ◌+◌, ◌-◌, List, [], ◌∷◌, ◌++◌, Option, none, some, length}
use embedded_project_pc.Protocol.{Outcome, ok, err, fault, hangs, ◌>>=◌, not_found, Span}
use embedded_project_pc.Protocol.Bytes.{put_u16, put_u32, get_u16, get_u32}
use embedded_project_pc.Protocol.Tlv.{encode_tlv, find_field}

-- PROTO_FIELD_TIMESTAMP and its neighbours.
abbrev pub field_timestamp : ℕ
field_timestamp = 0x20

abbrev pub field_status : ℕ
field_status = 0x26

abbrev pub field_range_start : ℕ
field_range_start = 0x27

abbrev pub field_range_end : ℕ
field_range_end = 0x28

abbrev pub field_measurement : ℕ
field_measurement = 0x29

abbrev pub field_event_type : ℕ
field_event_type = 0x2a

abbrev pub field_event_source : ℕ
field_event_source = 0x2b

abbrev pub field_mode : ℕ
field_mode = 0x2c

abbrev pub field_temperature : ℕ
field_temperature = 0x2e

abbrev pub field_humidity : ℕ
field_humidity = 0x2f

abbrev pub field_light : ℕ
field_light = 0x30

abbrev pub field_battery : ℕ
field_battery = 0x31

abbrev pub field_submarine_id : ℕ
field_submarine_id = 0x32

abbrev pub field_event : ℕ
field_event = 0x33

-- DcaMeasurement. The int16_t `temperature` is the number of its 16 bits, to which both sides cast.
pub record Measurement : Type 0 where
  pub timestamp : ℕ
  pub temperature : ℕ
  pub humidity : ℕ
  pub light : ℕ
  pub battery_voltage : ℕ
  pub mode : ℕ

-- DcaEvent; `none` where hasMeasurement is false.
pub record Event : Type 0 where
  pub timestamp : ℕ
  pub event_type : ℕ
  pub event_source : ℕ
  pub measurement : Option Measurement

-- A call of Protocol_EncodeTLV at the end of a buffer of `cap` bytes, and the step of its length. The
-- source does not look at the result: an error here would leave `written` as it was.
unfoldable pub append_field : ℕ → ℕ → List ℕ → List ℕ → Outcome (List ℕ)
append_field cap tag value buf = do
  written ← encode_tlv tag value (cap - length buf)
  ok (buf ++ written)

-- The six fields of a measurement, in a buffer of 40 bytes.
unfoldable pub measurement_value : Measurement → Outcome (List ℕ)
unfolding append_field
measurement_value m = do
  b1 ← append_field 40 field_timestamp (put_u32 m.timestamp) []
  b2 ← append_field 40 field_temperature (put_u16 m.temperature) b1
  b3 ← append_field 40 field_humidity (m.humidity ∷ []) b2
  b4 ← append_field 40 field_light (put_u16 m.light) b3
  b5 ← append_field 40 field_battery (put_u16 m.battery_voltage) b4
  append_field 40 field_mode (m.mode ∷ []) b5

unfoldable pub append_measurement_record : List ℕ → Measurement → Outcome (List ℕ)
append_measurement_record out m = do
  measurement ← measurement_value m
  record_buf ← encode_tlv field_measurement measurement 48
  ok (out ++ record_buf)

-- The nested measurement of an event, if it has one.
unfoldable pub append_nested : Option Measurement → List ℕ → Outcome (List ℕ)
append_nested none buf = ok buf
append_nested (some m) buf = do
  measurement ← measurement_value m
  append_field 80 field_measurement measurement buf

unfoldable pub append_event_record : List ℕ → Event → Outcome (List ℕ)
unfolding append_nested
append_event_record out e = do
  b1 ← append_field 80 field_timestamp (put_u32 e.timestamp) []
  b2 ← append_field 80 field_event_type (e.event_type ∷ []) b1
  b3 ← append_field 80 field_event_source (e.event_source ∷ []) b2
  event_buf ← append_nested e.measurement b3
  record_buf ← encode_tlv field_event event_buf 96
  ok (out ++ record_buf)

-- `field[0]`
unfoldable pub get_u8 : List ℕ → Outcome ℕ
get_u8 [] = fault
get_u8 (b ∷ rest) = ok b

-- `if (Protocol_FindField(...) == PROTO_OK) Protocol_Get...(field, &variable)`: a variable whose
-- field is not found keeps its 0.
unfoldable pub read_field : (List ℕ → Outcome ℕ) → Span → ℕ → Outcome ℕ
read_field get buf tag = elim (find_field buf tag) [
  | ok field ↦ get field.bytes
  | err e ↦ ok 0
  | fault ↦ fault
  | hangs ↦ hangs
]

-- The values that PrintMeasurementRecord prints.
unfoldable pub read_measurement : Span → Outcome Measurement
unfolding read_field
read_measurement buf = do
  timestamp ← read_field get_u32 buf field_timestamp
  temperature ← read_field get_u16 buf field_temperature
  humidity ← read_field get_u8 buf field_humidity
  light ← read_field get_u16 buf field_light
  battery ← read_field get_u16 buf field_battery
  mode ← read_field get_u8 buf field_mode
  ok (record {
    timestamp = timestamp;
    temperature = temperature;
    humidity = humidity;
    light = light;
    battery_voltage = battery;
    mode = mode;
  })
