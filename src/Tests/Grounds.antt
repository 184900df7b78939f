-- ===== src/Tests/Grounds.antt =====
-- The ground station's link and the central computer's connections at concrete inputs.
use embedded_project_pc.Common.{ℕ, ◌≡◌, refl, true, map, ◌++◌, All, List, [], ◌∷◌, some, arith}
use embedded_project_pc.Protocol.{ok}
use embedded_project_pc.Protocol.Tlv.Fields.{fields_bytes}
use embedded_project_pc.Ground.Records.{Measurement, Event}
use embedded_project_pc.Ground.Records.ReadBack.{InRange}
use embedded_project_pc.Fleet.Link.{Link, fresh_link}
use embedded_project_pc.Fleet.Telemetry.{poll_latest_telemetry}
use embedded_project_pc.Fleet.Telemetry.Queue.{
  Report, keep_alive, event_report, IsReport, whole, shows_all,
}
use embedded_project_pc.Fleet.Telemetry.Polling.{
  closed, cut_off, ending_attempt, leaves, poll_latest_telemetry-reports,
}
use embedded_project_pc.Ground.Records.PrintedBack.{IsInRange}
use embedded_project_pc.Ground.Requests.{request_fields}

-- -1.0 degrees.
abbrev reading : Measurement
reading = record {
  timestamp = 1700000000;
  temperature = 65526;
  humidity = 40;
  light = 4095;
  battery_voltage = 3300;
  mode = 1;
}

abbrev alarm : Event
alarm = record {
  timestamp = 1700000001;
  event_type = 0;
  event_source = 0;
  measurement = some reading;
}

reading-InRange : InRange reading
reading-InRange = record {
  timestamp_u32 = omega arith;
  temperature_u16 = omega arith;
  light_u16 = omega arith;
  battery_u16 = omega arith;
}

-- "LNC-01" and the day before.
abbrev id : List ℕ
id = 76 ∷ 78 ∷ 67 ∷ 45 ∷ 48 ∷ 49 ∷ []

abbrev request : List ℕ
request = fields_bytes (request_fields id 1699913600 1700000000)

abbrev open_link : Link
open_link = record fresh_link { fd = some 4; submarine_id = id; have_latest = true }

alarm-IsInRange : IsInRange alarm
alarm-IsInRange = record {
  timestamp_u32 = omega arith;
  measurement_in_range = (reading-InRange, tt);
}

abbrev queue : List Report
queue = keep_alive reading ∷ event_report alarm ∷ []

abbrev full_queue : List Report
full_queue =
    keep_alive reading
    ∷ keep_alive reading
    ∷ event_report alarm
    ∷ keep_alive reading
    ∷ event_report alarm
    ∷ []

poll_latest_telemetry-reports_example :
    (poll_latest_telemetry open_link
        (map whole queue ++ (ending_attempt (cut_off 9 id) ∷ ending_attempt closed ∷ []))
      ≡ ok (leaves (shows_all open_link queue) (cut_off 9 id)))
    × (poll_latest_telemetry open_link (map whole full_queue ++ ending_attempt closed ∷ [])
        ≡ ok (shows_all open_link full_queue))
poll_latest_telemetry-reports_example =
    poll_latest_telemetry-reports open_link 4 queue full_queue (cut_off 9 id)
      (ending_attempt closed ∷ []) refl queue-IsReport (omega arith) (omega arith, omega arith)
      full_queue-IsReport refl
  where
    queue-IsReport : All IsReport queue
    queue-IsReport = (reading-InRange, (alarm-IsInRange, tt))

    full_queue-IsReport : All IsReport full_queue
    full_queue-IsReport = (
      reading-InRange,
      (reading-InRange, (alarm-IsInRange, (reading-InRange, (alarm-IsInRange, tt)))),
    )
