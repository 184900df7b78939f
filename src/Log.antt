-- ===== src/Log.antt =====
-- central_computer/log.cpp: CcCore_PrintKeepAlive and CcCore_PrintEventReport, up to what they print:
-- the calls of DCA_StoreMeasurement and DCA_StoreEvent.
pub mod Kept
pub mod Ending
use embedded_project_pc.Common.{ℕ, List, [], ◌∷◌, none, some}
use embedded_project_pc.Protocol.{Outcome, ok, err, fault, hangs, ◌>>=◌, Span}
use embedded_project_pc.Protocol.Bytes.{get_u16, get_u32}
use embedded_project_pc.Protocol.Tlv.{find_field}
use embedded_project_pc.Ground.Records.{
  Measurement, read_field, get_u8, field_timestamp, field_temperature, field_humidity, field_light,
  field_battery, field_mode, field_measurement, field_event_type, field_event_source,
}
use embedded_project_pc.Ground.Records.Printed.{PrintedEvent, read_nested}

abbrev field_wd_reset_flag : ℕ
field_wd_reset_flag = 0x2d

-- A call of the store with its arguments, less the submarine's id, which is always the same.
pub data Stored : Type 0 where
  measurement_stored : Measurement → Stored
  event_stored : PrintedEvent → Stored

-- The part of CcCore_PrintKeepAlive behind the search for the measurement.
store_keep_alive : ℕ → ℕ → Outcome Span → Outcome (List Stored)
store_keep_alive timestamp mode (ok measurement) = do
  temperature ← read_field get_u16 measurement field_temperature
  humidity ← read_field get_u8 measurement field_humidity
  light ← read_field get_u16 measurement field_light
  battery ← read_field get_u16 measurement field_battery
  ok (
      measurement_stored (record {
        timestamp = timestamp;
        temperature = temperature;
        humidity = humidity;
        light = light;
        battery_voltage = battery;
        mode = mode;
      })
      ∷ [])
store_keep_alive timestamp mode (err e) = ok []
store_keep_alive timestamp mode fault = fault
store_keep_alive timestamp mode hangs = hangs

unfoldable pub print_keep_alive : Span → Outcome (List Stored)
unfolding store_keep_alive
print_keep_alive value = do
  timestamp ← read_field get_u32 value field_timestamp
  mode ← read_field get_u8 value field_mode
  store_keep_alive timestamp mode (find_field value field_measurement)

-- The watchdog's flag is read to be printed; the event is stored with its measurement if it has one.
unfoldable pub print_event_report : Span → Outcome (List Stored)
print_event_report value = do
  timestamp ← read_field get_u32 value field_timestamp
  event_type ← read_field get_u8 value field_event_type
  event_source ← read_field get_u8 value field_event_source
  wd_reset ← read_field get_u8 value field_wd_reset_flag
  sample ← read_nested (find_field value field_measurement)
  ok (
      event_stored (record {
        timestamp = timestamp;
        event_type = event_type;
        event_source = event_source;
        sample = sample;
      })
      ∷ [])
