-- ===== src/Ground/Queries/EndToEnd.antt =====
-- gs_queries.cpp and comm_gs.cpp: Gs_RequestLog and Gs_RequestEvents against CC_GsLink_Dispatch.
use embedded_project_pc.Common.{
  ℕ, ◌+◌, ◌*◌, ◌≤◌, ◌≡◌, refl, ap, List, [], ◌∷◌, ◌++◌, Option, none, some, length, length-append,
  All, arith,
}
use embedded_project_pc.Protocol.{Outcome, ok, ◌>>=◌, Span}
use embedded_project_pc.Protocol.Bytes.{put_u16, put_u32}
use embedded_project_pc.Protocol.Tlv.Single.{tlv_bytes, max_value}
use embedded_project_pc.Protocol.Tlv.Fields.{IsShort, fields_bytes}
use embedded_project_pc.Ground.Records.{
  Measurement, Event, append_measurement_record, append_event_record, field_status,
  field_measurement, field_event, field_range_start, field_range_end,
}
use embedded_project_pc.Ground.Records.Encoded.{
  measurement_fields, event_fields, measurement_bytes, event_bytes,
  append_measurement_record-tlv_bytes, append_event_record-tlv_bytes,
}
use embedded_project_pc.Ground.Requests.{RangeRequest, request_fields, range_request-fields_bytes}
use embedded_project_pc.Ground.Replies.{
  wrap_message, gs_send_raw, dispatch, dispatch_received, gs_link_dispatch,
}
use embedded_project_pc.Ground.Replies.Sent.{status_of, record_fields, AddsField, IsSent}
use embedded_project_pc.Ground.Queries.{read_reply, gs_request, gs_recv_message}
use embedded_project_pc.Ground.Queries.Reading.{log_fields, Prints}
use embedded_project_pc.Ground.Queries.Exchange.{
  message_of, gs_recv_message-gs_send_raw, gs_send-sent, gs_recv_request-sent,
}
use embedded_project_pc.Ground.Queries.Answers.{
  answer, reply_fields, SkipsStatus, read_records-answer,
}

abbrev pub request_bytes : ℕ → List ℕ → ℕ → ℕ → List ℕ
request_bytes req_tag submarine_id start end =
    let value = fields_bytes (request_fields submarine_id start end) in
    put_u32 (3 + length value) ++ tlv_bytes req_tag value

pub length-request_fields :
    (submarine_id : List ℕ) (start end : ℕ)
    → length (fields_bytes (request_fields submarine_id start end)) ≡ length submarine_id + 17
unfolding request_fields fields_bytes put_u32 put_u16 tlv_bytes
length-request_fields submarine_id start end = ground (
  arith,
  length-append submarine_id (
      tlv_bytes field_range_start (put_u32 start)
      ++ (tlv_bytes field_range_end (put_u32 end) ++ [])),
)

length-event_fields :
    (timestamp event_type event_source : ℕ) (measurement : Option Measurement)
    → 3
        + length (
            fields_bytes (
              event_fields (record {
                timestamp = timestamp;
                event_type = event_type;
                event_source = event_source;
                measurement = measurement;
              })))
      ≤ 51
unfolding event_fields measurement_fields fields_bytes tlv_bytes put_u16 put_u32
length-event_fields timestamp event_type event_source none = ground arith
length-event_fields timestamp event_type event_source (some m) = ground arith

-- The dispatch of a request that was received whole.
pub gs_link_dispatch-request :
    (measurements : RangeRequest → List Measurement) (events : RangeRequest → List Event)
    (req_tag start end : ℕ) (submarine_id : List ℕ)
    → length submarine_id ≤ 63
    → gs_link_dispatch measurements events (request_bytes req_tag submarine_id start end) ≡ (
        dispatch measurements events
          (message_of req_tag (fields_bytes (request_fields submarine_id start end)))
        >>= λ sent. ok (some sent))
unfolding gs_link_dispatch dispatch_received
gs_link_dispatch-request measurements events req_tag start end submarine_id short =
    let value = fields_bytes (request_fields submarine_id start end) in
    ap (dispatch_received measurements events) (
      gs_recv_request-sent req_tag value
        (omega (arith, length-request_fields submarine_id start end)))

-- The query's part at the ground station, for any other end.
pub gs_request-exchange :
    {A : Type 0} (visit : ℕ → Span → List A → Outcome (List A)) (req_tag resp_tag start end : ℕ)
    (exchange : List ℕ → Outcome (Option (List ℕ))) (submarine_id bytes : List ℕ)
    → length submarine_id ≤ 63
    → exchange (request_bytes req_tag submarine_id start end) ≡ ok (some bytes)
    → gs_request visit req_tag resp_tag exchange submarine_id start end
      ≡ read_reply visit resp_tag (gs_recv_message bytes)
unfolding gs_request
gs_request-exchange visit req_tag resp_tag start end exchange submarine_id bytes short e =
    rw
      (
        range_request-fields_bytes submarine_id start end short,
        gs_send-sent req_tag (fields_bytes (request_fields submarine_id start end))
            (omega (arith, length-request_fields submarine_id start end)),
        e,
      )
      refl

-- The reply's part: what the central computer found comes out at the ground station.
module _ {A B : Type 0} (visit : ℕ → Span → List B → Outcome (List B))
    (append_record : List ℕ → A → Outcome (List ℕ)) (tag : ℕ) (encode : A → List ℕ) (size : ℕ)
    (print : A → B) where
  records-IsShort :
      (sent : List A)
      → AddsField append_record tag encode size
      → size ≤ max_value
      → All IsShort (record_fields append_record tag encode size sent)
  records-IsShort [] adds small = ground arith
  records-IsShort (a ∷ sent) adds small =
      let (_, short) = adds [] a in (omega (arith, short), records-IsShort sent adds small)

  pub read_reply-reply_with :
      (records sent left : List A) (resp_tag : ℕ)
      → AddsField append_record tag encode size
      → SkipsStatus visit tag encode print
      → All (Prints visit tag encode print) sent
      → size ≤ 5000
      → IsSent append_record tag encode size
          (tlv_bytes field_status (status_of records ∷ []))
          records
          sent
          left
      → read_reply visit resp_tag (
          gs_recv_message (
            gs_send_raw (
              wrap_message resp_tag (
                fields_bytes (
                  (field_status, status_of records ∷ [])
                  ∷ record_fields append_record tag encode size sent)))))
        ≡ ok (answer visit tag encode print records sent)
  unfolding read_reply fields_bytes
  read_reply-reply_with records sent left resp_tag adds skips prints small s =
      let fs = reply_fields visit tag encode print (status_of records) sent in
      ground (
        arith,
        gs_recv_message-gs_send_raw resp_tag (fields_bytes fs),
        s.bounded,
        read_records-answer visit tag encode print records sent skips prints
            (omega arith, records-IsShort sent adds (omega arith)),
      )

pub log_adds : AddsField append_measurement_record field_measurement measurement_bytes 33
unfolding measurement_fields fields_bytes tlv_bytes put_u16 put_u32
log_adds out m = (append_measurement_record-tlv_bytes out m, ground arith)

pub events_add : AddsField append_event_record field_event event_bytes 51
events_add out e = (
  append_event_record-tlv_bytes out e,
  length-event_fields e.timestamp e.event_type e.event_source e.measurement,
)

-- The records of a log reply: each takes 33 bytes, and the first 1819 fit.
pub length-log_fields :
    (ms : List Measurement) → length (fields_bytes (log_fields ms)) ≡ 33 * length ms
unfolding measurement_fields fields_bytes tlv_bytes put_u16 put_u32
length-log_fields [] = ground arith
length-log_fields (m ∷ ms) = ground (arith, length-log_fields ms)
