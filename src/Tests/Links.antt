-- ===== src/Tests/Links.antt =====
-- The central computer's link to the LNC at concrete inputs.
use embedded_project_pc.Common.{
  ◌+◌, ◌%◌, ◌^◌, ◌&&◌, ◌≡◌, ℕ, List, refl, [], ◌∷◌, ◌++◌, some, false, leb, inl, inr, arith,
}
use embedded_project_pc.Protocol.{ok}
use embedded_project_pc.Protocol.Bytes.{put_u32, put_u16}
use embedded_project_pc.Protocol.Tlv.Single.{tlv_bytes}
use embedded_project_pc.Protocol.Tlv.Fields.{fields_bytes, fields_span}
use embedded_project_pc.Bridge.Server.Stream.{message_bytes}
use embedded_project_pc.Ground.Records.{
  Measurement, read_measurement, field_measurement, field_event,
}
use embedded_project_pc.Ground.Records.Encoded.{
  measurement_fields, measurement_bytes, event_fields, event_bytes,
}
use embedded_project_pc.Ground.Records.ReadBack.{read_measurement-measurement_fields}
use embedded_project_pc.Ground.Records.Printed.{PrintedEvent, printed_event, read_event}
use embedded_project_pc.Ground.Records.PrintedBack.{read_event-event_fields}
use embedded_project_pc.Ground.Replies.{status_success}
use embedded_project_pc.Log.{measurement_stored, event_stored, print_keep_alive}
use embedded_project_pc.Log.Kept.{
  keep_alive_fields, print_keep_alive-keep_alive_fields, print_event_report-event_fields,
}
use embedded_project_pc.Lnc.{lnc_recv_message}
use embedded_project_pc.Lnc.Reports.{
  Report, IsReport, reports_bytes, all_stored, tlv_of, lnc_recv_message-reply,
}
use embedded_project_pc.Management.{
  tag_get_measurements_req, tag_get_measurements_resp, tag_get_lnc_events_req,
  tag_get_lnc_events_resp, tag_get_time_resp, tag_config_ack, no_cursor, get_measurements,
  get_events,
}
use embedded_project_pc.Management.Pages.{Page, cursor_fields}
use embedded_project_pc.Management.Paging.{IsPage}
use embedded_project_pc.Management.Answered.{
  pages_bytes, the_answer, get_measurements-pages, get_events-pages,
}
use embedded_project_pc.Management.Commands.{reply_bytes}
use embedded_project_pc.Central.{sync_time, stream_loop, stream_reports}
use embedded_project_pc.Central.Streaming.{plain_loop, stream_loop-plain_loop}
use embedded_project_pc.Central.Traffic.{
  Stray, IsStray, traffic, traffic_stored, stray_tags, stream_reports-traffic,
}
use embedded_project_pc.Central.InStep.{
  time_request, set_request, sync_time-answers, sync_time-refused,
}
use embedded_project_pc.Tests.Queries.{reading, alarm, reading-InRange, alarm-IsInRange}

print_keep_alive-keep_alive_fields_example :
    print_keep_alive (fields_span (keep_alive_fields reading) (9 ∷ []))
    ≡ ok (measurement_stored reading ∷ [])
print_keep_alive-keep_alive_fields_example =
    print_keep_alive-keep_alive_fields reading (9 ∷ []) reading-InRange

-- A keep-alive, and the report of an alarm.
abbrev keep_alive : Report
keep_alive = record {
  tag = 0x11;
  value = fields_bytes (keep_alive_fields reading);
  stored = measurement_stored reading ∷ [];
}

abbrev alarm_report : Report
alarm_report = record {
  tag = 0x12;
  value = fields_bytes (event_fields alarm);
  stored = event_stored (printed_event alarm) ∷ [];
}

keep_alive-IsReport : IsReport 256 keep_alive
unfolding fields_bytes tlv_bytes put_u16 put_u32
keep_alive-IsReport = record {
  tag_of_report = inl refl;
  fits = ground arith;
  printed = print_keep_alive-keep_alive_fields reading [] reading-InRange;
}

keep_alive-IsReport_300 : IsReport 300 keep_alive
unfolding fields_bytes tlv_bytes put_u16 put_u32
keep_alive-IsReport_300 = record {
  tag_of_report = inl refl;
  fits = ground arith;
  printed = print_keep_alive-keep_alive_fields reading [] reading-InRange;
}

alarm_report-IsReport : IsReport 256 alarm_report
unfolding fields_bytes tlv_bytes put_u16 put_u32 event_fields measurement_fields
alarm_report-IsReport = record {
  tag_of_report = inr refl;
  fits = ground arith;
  printed = print_event_report-event_fields alarm [] alarm-IsInRange;
}

-- A message of one byte, which cannot be decoded, and a keep-alive without fields.
abbrev poor_messages : List ℕ
poor_messages = 0 ∷ 0 ∷ 0 ∷ 1 ∷ 7 ∷ 0 ∷ 0 ∷ 0 ∷ 3 ∷ 0x11 ∷ 0 ∷ 0 ∷ []

lnc_recv_message-reply_example :
    lnc_recv_message 256 (
      reports_bytes (keep_alive ∷ alarm_report ∷ [])
      ++ (message_bytes (tlv_bytes 0x0c (0 ∷ [])) ++ 7 ∷ []))
    ≡ ok (record {
      stored = all_stored (keep_alive ∷ alarm_report ∷ []);
      reply = some (tlv_of 0x0c (0 ∷ []));
      rest = 7 ∷ [];
    })
lnc_recv_message-reply_example =
    lnc_recv_message-reply 256 (keep_alive ∷ alarm_report ∷ []) 0x0c (0 ∷ []) (7 ∷ [])
      (keep_alive-IsReport, (alarm_report-IsReport, _)) (omega arith) (ground arith) (ground arith)
      (ground arith)

stream_loop-plain_loop_example :
    stream_loop 3 (message_bytes (tlv_bytes 0x12 []))
    ≡ plain_loop 3 (message_bytes (tlv_bytes 0x12 []))
stream_loop-plain_loop_example = stream_loop-plain_loop 3 (message_bytes (tlv_bytes 0x12 []))

-- An acknowledgement that nobody waits for.
abbrev stray : Stray
stray = record { reports = keep_alive ∷ []; tag = 0x0c; value = 0 ∷ [] }

stray-IsStray : IsStray stray
stray-IsStray = record {
  reports_printed = (keep_alive-IsReport, _);
  not_keep_alive = ground arith;
  not_event_report = ground arith;
  fits = ground arith;
}

stream_reports-traffic_example :
    stream_reports (traffic (stray ∷ []) (alarm_report ∷ []))
    ≡ ok (record {
      stored = traffic_stored (stray ∷ []) (alarm_report ∷ []);
      unhandled = stray_tags (stray ∷ []);
    })
stream_reports-traffic_example =
    stream_reports-traffic (stray ∷ []) (alarm_report ∷ []) (stray-IsStray, _)
      (alarm_report-IsReport, _)

sync_time-answers_example :
    sync_time 1700000000 (
      reply_bytes [] tag_get_time_resp (put_u32 0) (
        reply_bytes
          (keep_alive ∷ [])
          tag_config_ack
          (status_success ∷ [])
          (reply_bytes [] tag_get_time_resp (put_u32 1700000001) [])))
    ≡ ok (record {
      sent = time_request ++ (set_request 1700000000 ++ time_request);
      stored = all_stored [] ++ (all_stored (keep_alive ∷ []) ++ all_stored []);
      synced = leb 1700000000 1700000001 && leb 1700000001 ((1700000000 + 2) % 2 ^ 32);
      rest = [];
    })
sync_time-answers_example =
    sync_time-answers 0 1700000000 1700000001 [] (keep_alive ∷ []) [] [] _ (keep_alive-IsReport, _)
      _ (omega arith) (omega arith)

sync_time-refused_example :
    sync_time 1700000000 (
      reply_bytes [] tag_get_time_resp
        (put_u32 0)
        (reply_bytes (keep_alive ∷ []) tag_config_ack (5 ∷ []) (7 ∷ [])))
    ≡ ok (record {
      sent = time_request ++ set_request 1700000000;
      stored = all_stored [] ++ all_stored (keep_alive ∷ []);
      synced = false;
      rest = 7 ∷ [];
    })
sync_time-refused_example =
    sync_time-refused 0 1700000000 5 [] (keep_alive ∷ []) (7 ∷ []) _ (keep_alive-IsReport, _)
      (omega arith) (ground arith)

-- Two pages of measurements, with a keep-alive in front of the second one.
abbrev page : Page Measurement
page = record {
  reports = [];
  records = (measurement_bytes reading, reading) ∷ [];
  day = 19675;
  offset = 33;
}

abbrev last_page : Page Measurement
last_page = record page { reports = keep_alive ∷ [] }

page-IsPage :
    IsPage read_measurement field_measurement tag_get_measurements_req tag_get_measurements_resp 0
      1700000000 page
      (cursor_fields page)
unfolding fields_bytes tlv_bytes put_u16 put_u32 measurement_fields
page-IsPage = record {
  reports_printed = _;
  records_read =
      ((ground arith, λ post. read_measurement-measurement_fields reading post reading-InRange), _);
  day_u32 = omega arith;
  offset_u32 = omega arith;
  fits = ground arith;
}

last_page-IsPage :
    IsPage read_measurement field_measurement tag_get_measurements_req tag_get_measurements_resp 0
      1700000000 last_page []
unfolding fields_bytes tlv_bytes put_u16 put_u32 measurement_fields
last_page-IsPage = record {
  reports_printed = (keep_alive-IsReport_300, _);
  records_read =
      ((ground arith, λ post. read_measurement-measurement_fields reading post reading-InRange), _);
  day_u32 = omega arith;
  offset_u32 = omega arith;
  fits = ground arith;
}

get_measurements-pages_example :
    get_measurements 0 1700000000 (
      pages_bytes read_measurement field_measurement tag_get_measurements_req
        tag_get_measurements_resp 0 1700000000
        (page ∷ [])
        last_page
        (7 ∷ []))
    ≡ ok (
        the_answer read_measurement field_measurement tag_get_measurements_req
          tag_get_measurements_resp 0 1700000000 no_cursor
          (page ∷ [])
          last_page
          (7 ∷ []))
get_measurements-pages_example =
    get_measurements-pages 0 1700000000 (page ∷ []) last_page (7 ∷ [])
      (page-IsPage, last_page-IsPage)

-- A page of one alarm.
abbrev alarm_page : Page PrintedEvent
alarm_page = record {
  reports = keep_alive ∷ [];
  records = (event_bytes alarm, printed_event alarm) ∷ [];
  day = 0;
  offset = 0;
}

alarm_page-IsPage :
    IsPage read_event field_event tag_get_lnc_events_req tag_get_lnc_events_resp 0 1700000000
      alarm_page []
unfolding fields_bytes tlv_bytes put_u16 put_u32 event_fields measurement_fields
alarm_page-IsPage = record {
  reports_printed = (keep_alive-IsReport_300, _);
  records_read = ((ground arith, λ post. read_event-event_fields alarm post alarm-IsInRange), _);
  day_u32 = omega arith;
  offset_u32 = omega arith;
  fits = ground arith;
}

get_events-pages_example :
    get_events 0 1700000000 (
      pages_bytes read_event field_event tag_get_lnc_events_req tag_get_lnc_events_resp 0 1700000000
        [] alarm_page [])
    ≡ ok (
        the_answer read_event field_event tag_get_lnc_events_req tag_get_lnc_events_resp 0
          1700000000 no_cursor [] alarm_page [])
get_events-pages_example = get_events-pages 0 1700000000 [] alarm_page [] alarm_page-IsPage
