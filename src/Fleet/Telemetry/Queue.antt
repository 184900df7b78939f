-- ===== src/Fleet/Telemetry/Queue.antt =====
-- central_computer.cpp, PollLatestTelemetry: the rounds that receive a whole report.
use embedded_project_pc.Common.{
  ℕ, zero, suc, ◌+◌, ◌-◌, ◌^◌, ◌≤◌, ◌<◌, ◌≡◌, refl, ap, ◌∙◌, List, [], ◌∷◌, ◌++◌, append-nil,
  Option, none, some, true, if◌then◌else◌, length, take, map, All, arith,
}
use embedded_project_pc.Protocol.{ok, ◌>>=◌}
use embedded_project_pc.Protocol.Bytes.{put_u16, put_u32, get_u32, get_u32-put_u32, length-put_u32}
use embedded_project_pc.Protocol.Tlv.{decode_tlv}
use embedded_project_pc.Protocol.Tlv.Single.{tlv_bytes, length-tlv_bytes, decode_tlv-tlv_bytes}
use embedded_project_pc.Protocol.Tlv.Fields.{fields_bytes}
use embedded_project_pc.Ground.Records.{Measurement, Event}
use embedded_project_pc.Ground.Records.Encoded.{measurement_fields, event_fields}
use embedded_project_pc.Ground.Records.ReadBack.{InRange}
use embedded_project_pc.Ground.Records.PrintedBack.{IsInRange}
use embedded_project_pc.Log.Kept.{keep_alive_fields}
use embedded_project_pc.Fleet.Link.{Link}
use embedded_project_pc.Fleet.Telemetry.{
  Attempt, tag_keep_alive, tag_event_report, on_message, on_payload, poll_once, poll_loop,
}
use embedded_project_pc.Fleet.Telemetry.Cached.{
  with_readings, with_event, cache_measurement_fields-keep_alive_fields,
  cache_measurement_fields-event_fields,
}

-- A report of the LNC.
pub data Report : Type 0 where
  keep_alive : Measurement → Report
  event_report : Event → Report

-- The members are in the range of their types.
abbrev pub IsReport : Report → Type 0
IsReport (keep_alive m) = InRange m
IsReport (event_report e) = IsInRange e

-- The message, as a tag with its fields.
pub report_bytes : Report → List ℕ
report_bytes (keep_alive m) = tlv_bytes tag_keep_alive (fields_bytes (keep_alive_fields m))
report_bytes (event_report e) = tlv_bytes tag_event_report (fields_bytes (event_fields e))

-- The link once the report is cached: a keep-alive leaves the mode.
pub shows : Link → Report → Link
shows l (keep_alive m) = with_readings l m l.latest_mode
shows l (event_report e) = with_event l e.timestamp e.measurement

unfoldable pub shows_all : Link → List Report → Link
shows_all l [] = l
shows_all l (r ∷ reports) = shows_all (shows l r) reports

-- A round that receives a whole message.
abbrev pub whole : Report → Attempt
whole r = record { prefix = some (put_u32 (length (report_bytes r))); payload = report_bytes r }

report_bytes_bound : (r : Report) → (0 < length (report_bytes r)) × (length (report_bytes r) ≤ 256)
unfolding report_bytes fields_bytes tlv_bytes put_u16 put_u32 event_fields measurement_fields
report_bytes_bound (keep_alive m) = ground arith
report_bytes_bound (event_report e) = by_measurement e.measurement
  where
    by_measurement :
        (measurement : Option Measurement)
        → (let bytes = report_bytes (
              event_report (record {
                timestamp = e.timestamp;
                event_type = e.event_type;
                event_source = e.event_source;
                measurement = measurement;
              })) in
            (0 < length bytes) × (length bytes ≤ 256))
    by_measurement none = ground arith
    by_measurement (some m) = ground arith

decoded_alone :
    (tag : ℕ) (value : List ℕ)
    → 3 + length value ≤ 256
    → decode_tlv (record { bytes = tlv_bytes tag value; len = length (tlv_bytes tag value) })
      ≡ ok (record {
        tag = tag;
        value = record { bytes = value ++ []; len = length value };
        consumed = 3 + length value;
      })
decoded_alone tag value fits = ground (
  arith,
  append-nil (tlv_bytes tag value),
  length-tlv_bytes tag value,
  decode_tlv-tlv_bytes tag value [] (3 + length value),
)

on_message-report_bytes :
    (l : Link) (r : Report)
    → IsReport r
    → on_message l (decode_tlv (record { bytes = report_bytes r; len = length (report_bytes r) }))
      ≡ ok (shows l r)
unfolding on_message report_bytes shows
on_message-report_bytes l (keep_alive m) r =
    let value = fields_bytes (keep_alive_fields m) in
    let bound = report_bytes_bound (keep_alive m) in
    rw
      (decoded_alone tag_keep_alive value
        (omega (arith, bound, length-tlv_bytes tag_keep_alive value)))
      (cache_measurement_fields-keep_alive_fields l m r)
on_message-report_bytes l (event_report e) r =
    let value = fields_bytes (event_fields e) in
    let bound = report_bytes_bound (event_report e) in
    rw
      (decoded_alone tag_event_report value
        (omega (arith, bound, length-tlv_bytes tag_event_report value)))
      (cache_measurement_fields-event_fields l e r)

pub prefix_length : (n : ℕ) → n < 2 ^ 32 → get_u32 (put_u32 n) ≡ ok n
prefix_length n h = ap get_u32 (append-nil-put n) ∙ get_u32-put_u32 n [] h
  where
    append-nil-put : (n : ℕ) → put_u32 n ≡ put_u32 n ++ []
    append-nil-put n = rw (append-nil (put_u32 n)) refl

poll_once-whole :
    (l : Link) (r : Report) → IsReport r → poll_once l (whole r) ≡ ok (shows l r, true)
unfolding poll_once on_payload
poll_once-whole l r h =
    let bound = report_bytes_bound r in
    let n = length (report_bytes r) in
    ground (
      arith,
      bound,
      length-put_u32 n,
      prefix_length n (omega (arith, bound)),
      on_message-report_bytes l r h,
    )

-- Whole messages, as far as the rounds go, are cached one after the other.
pub poll_loop-whole :
    (l : Link) (reports : List Report) (more : List Attempt) (rounds : ℕ)
    → All IsReport reports
    → length reports ≤ rounds
    → poll_loop l (take rounds (map whole reports ++ more))
      ≡ poll_loop (shows_all l reports) (take (rounds - length reports) more)
unfolding shows_all poll_loop
poll_loop-whole l [] more rounds hs room =
    let all_left : rounds ≡ rounds - 0 = omega arith in
    ap (λ (k : ℕ). poll_loop l (take k more)) all_left
poll_loop-whole l (r ∷ reports) more zero hs room = absurd (omega arith)
poll_loop-whole l (r ∷ reports) more (suc rounds) (h, hs) room =
    let left : rounds - length reports ≡ suc rounds - length (r ∷ reports) = omega arith in
    ap
      (λ o. o >>= λ (l', goes_on).
        if goes_on then poll_loop l' (take rounds (map whole reports ++ more)) else ok l')
      (poll_once-whole l r h)
    ∙ poll_loop-whole (shows l r) reports more rounds hs (omega arith)
    ∙ ap (λ (k : ℕ). poll_loop (shows_all (shows l r) reports) (take k more)) left
