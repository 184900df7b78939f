-- ===== src/Tests/Queries.antt =====
-- The ground station's queries at concrete inputs.
use embedded_project_pc.Common.{ℕ, ◌≡◌, ◌<◌, ◌⊎◌, List, [], ◌∷◌, ◌++◌, none, some, length, arith}
use embedded_project_pc.Protocol.{ok, hangs}
use embedded_project_pc.Protocol.Tlv.Fields.{fields_bytes}
use embedded_project_pc.Ground.Records.{Measurement, Event, read_field, get_u8, field_status}
use embedded_project_pc.Protocol.Walk.{walk_loop}
use embedded_project_pc.Ground.Records.ReadBack.{InRange}
use embedded_project_pc.Ground.Records.PrintedBack.{IsInRange}
use embedded_project_pc.Ground.Requests.{RangeRequest}
use embedded_project_pc.Ground.Replies.{gs_link_dispatch}
use embedded_project_pc.Common.{ap}
use embedded_project_pc.Protocol.Bytes.{put_u16, put_u32}
use embedded_project_pc.Protocol.Tlv.{encode_tlv}
use embedded_project_pc.Protocol.Tlv.Single.{tlv_bytes}
use embedded_project_pc.Ground.Records.{append_measurement_record}
use embedded_project_pc.Ground.Requests.{parse-request_fields}
use embedded_project_pc.Ground.Replies.{
  dispatch, handle_get_log, handle_get, reply_with, append_records, status_field, gs_send_raw,
  wrap_message,
}
use embedded_project_pc.Ground.Session.{handshake_reply, greeting_message, serve_client}
use embedded_project_pc.Ground.Session.Served.{
  Request, requests_bytes, answers, IsAnswered, serve_client-answers,
}
use embedded_project_pc.Ground.Queries.{
  read_records, gs_request_log, gs_request_events, visit_measurement,
}
use embedded_project_pc.Ground.Queries.Reading.{events_fields}
use embedded_project_pc.Ground.Queries.Served.{
  log_answer, events_answer, gs_request_log-log_answer, gs_request_events-events_answer,
}
use embedded_project_pc.Ground.Queries.Stall.{stalling_reply, read_records-stalls}

-- -1.0 degrees.
abbrev pub reading : Measurement
reading = record {
  timestamp = 1700000000;
  temperature = 65526;
  humidity = 40;
  light = 4095;
  battery_voltage = 3300;
  mode = 1;
}

abbrev pub alarm : Event
alarm = record {
  timestamp = 1700000001;
  event_type = 0;
  event_source = 0;
  measurement = some reading;
}

abbrev sighting : Event
sighting = record { timestamp = 1700000002; event_type = 1; event_source = 1; measurement = none }

pub reading-InRange : InRange reading
reading-InRange = record {
  timestamp_u32 = omega arith;
  temperature_u16 = omega arith;
  light_u16 = omega arith;
  battery_u16 = omega arith;
}

pub alarm-IsInRange : IsInRange alarm
alarm-IsInRange = record {
  timestamp_u32 = omega arith;
  measurement_in_range = (reading-InRange, _);
}

sighting-IsInRange : IsInRange sighting
sighting-IsInRange = record { timestamp_u32 = omega arith; measurement_in_range = _ }

-- "LNC-01"
abbrev id : List ℕ
id = 76 ∷ 78 ∷ 67 ∷ 45 ∷ 48 ∷ 49 ∷ []

abbrev stored_measurements : RangeRequest → List Measurement
stored_measurements r = reading ∷ reading ∷ []

abbrev stored_events : RangeRequest → List Event
stored_events r = alarm ∷ sighting ∷ []

gs_request_log-log_answer_example :
    gs_request_log (gs_link_dispatch stored_measurements stored_events) id 1699913600 1700000000
    ≡ ok (log_answer (reading ∷ reading ∷ []))
gs_request_log-log_answer_example =
    gs_request_log-log_answer stored_measurements stored_events id 1699913600 1700000000
      (omega arith) (omega arith) (omega arith) (reading-InRange, (reading-InRange, _))

gs_request_events-events_answer_example :
    (sent : List Event) × ((left : List Event) × ((alarm ∷ sighting ∷ [] ≡ sent ++ left)
        × ((gs_request_events
                (gs_link_dispatch stored_measurements stored_events)
                id
                1699913600
                1700000000
              ≡ ok (events_answer (alarm ∷ sighting ∷ []) sent))
            × ((left ≡ []) ⊎ (59996 < length (fields_bytes (events_fields sent)))))))
gs_request_events-events_answer_example =
    gs_request_events-events_answer stored_measurements stored_events id 1699913600 1700000000
      (omega arith) (omega arith) (omega arith) (alarm-IsInRange, (sighting-IsInRange, _))

read_records-stalls_example :
    (read_field get_u8 (stalling_reply 0x2c (1 ∷ 2 ∷ []) 9) field_status ≡ ok 0)
    × (walk_loop visit_measurement 1_000_000 (stalling_reply 0x2c (1 ∷ 2 ∷ []) 9) 0 [] ≡ hangs)
    × (read_records visit_measurement (stalling_reply 0x2c (1 ∷ 2 ∷ []) 9) ≡ hangs)
read_records-stalls_example =
    read_records-stalls 0x2c (1 ∷ 2 ∷ []) 9 1_000_000 (ground arith) (omega arith) (omega arith)

-- A request for the log of an empty store, and its answer.
abbrev log_request : Request
log_request = record {
  tag = 0x13;
  submarine_id = id;
  start = 1699913600;
  end = 1700000000;
  answer = gs_send_raw (wrap_message 0x14 (tlv_bytes 0x26 (3 ∷ [])));
}

abbrev no_measurements : RangeRequest → List Measurement
no_measurements r = []

log_request-IsAnswered : IsAnswered no_measurements stored_events log_request
unfolding dispatch handle_get_log handle_get reply_with append_records status_field encode_tlv
    tlv_bytes put_u16
log_request-IsAnswered = record {
  short_id = omega arith;
  answered =
      ap (λ r. handle_get no_measurements append_measurement_record 0x14 r)
        (parse-request_fields id [] 1699913600 1700000000 (omega arith) (omega arith)
          (omega arith));
}

serve_client-answers_example :
    serve_client no_measurements stored_events
      (greeting_message ++ requests_bytes (log_request ∷ log_request ∷ []))
    ≡ ok (
        (put_u32 (length handshake_reply) ++ handshake_reply)
        ++ answers (log_request ∷ log_request ∷ []))
serve_client-answers_example =
    serve_client-answers no_measurements stored_events (log_request ∷ log_request ∷ [])
      (log_request-IsAnswered, (log_request-IsAnswered, _))
