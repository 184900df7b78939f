-- ===== src/Ground/Queries.antt =====
-- ground_station/gs_queries.cpp: Gs_RequestLog and Gs_RequestEvents, the ground station's end of the
-- link.
pub mod Reading
pub mod Exchange
pub mod Answers
pub mod EndToEnd
pub mod Served
pub mod Stall
use embedded_project_pc.Common.{
  ℕ, ◌+◌, ◌%◌, ◌^◌, ◌==◌, ◌||◌, List, [], ◌∷◌, ◌++◌, Option, none, some, length, take, drop, ltb,
  if◌then◌else◌,
}
use embedded_project_pc.Protocol.{Outcome, ok, err, fault, hangs, ◌>>=◌, malformed, Span}
use embedded_project_pc.Protocol.Bytes.{put_u32, get_u32}
use embedded_project_pc.Protocol.Tlv.{Tlv, encode_tlv, decode_tlv}
use embedded_project_pc.Protocol.Walk.{walk}
use embedded_project_pc.Ground.Records.{
  Measurement, read_field, read_measurement, get_u8, field_status, field_measurement, field_event,
}
use embedded_project_pc.Ground.Records.Printed.{PrintedEvent, read_event}
use embedded_project_pc.Ground.Requests.{range_request}
use embedded_project_pc.Ground.Replies.{
  tag_get_log_req, tag_get_log_resp, tag_get_events_req, tag_get_events_resp, status_success,
  status_no_data_found,
}

-- The bytes of GsSend's two calls of send(); the message has a buffer of 128 bytes. The source does
-- not look at the result of Protocol_EncodeTLV.
unfoldable pub gs_send : ℕ → List ℕ → Outcome (List ℕ)
gs_send tag value = do message ← encode_tlv tag value 128; ok (put_u32 (length message) ++ message)

-- GsRecvMessage on the bytes that recv() hands over: the prefix, the message, and its decoding. An
-- error is the return value false.
unfoldable pub gs_recv_message : List ℕ → Outcome Tlv
gs_recv_message bytes =
    if ltb (length bytes) 4
    then err malformed
    else get_u32 bytes >>= λ msg_len.
        if msg_len == 0 || ltb (length bytes) (4 + msg_len)
        then err malformed
        else decode_tlv (record { bytes = take msg_len (drop 4 bytes); len = msg_len % 2 ^ 16 })

-- The loops' bodies: the records printed so far, and one more.
unfoldable pub visit_measurement : ℕ → Span → List Measurement → Outcome (List Measurement)
visit_measurement tag value printed =
    if tag == field_measurement
    then (do m ← read_measurement value; ok (printed ++ m ∷ []))
    else ok printed

unfoldable pub visit_event : ℕ → Span → List PrintedEvent → Outcome (List PrintedEvent)
visit_event tag value printed =
    if tag == field_event then (do e ← read_event value; ok (printed ++ e ∷ [])) else ok printed

-- What a query comes to; each end has its own line of output.
pub data QueryResult (A : Type 0) : Type 0 where
  not_received : QueryResult A
  unexpected_tag : ℕ → QueryResult A
  no_data : QueryResult A
  failed : ℕ → QueryResult A
  done : List A → QueryResult A

module _ {A : Type 0} (visit : ℕ → Span → List A → Outcome (List A)) where
  -- Behind the test of the tag: the status, which is 0 if there is none, and the records.
  unfoldable pub read_records : Span → Outcome (QueryResult A)
  read_records value = read_field get_u8 value field_status >>= λ status.
      if status == status_no_data_found
      then ok no_data
      else (if status == status_success
          then (do records ← walk visit value []; ok (done records))
          else ok (failed status))

  unfoldable pub read_reply : ℕ → Outcome Tlv → Outcome (QueryResult A)
  unfolding read_records
  read_reply tag (ok t) = if t.tag == tag then read_records t.value else ok (unexpected_tag t.tag)
  read_reply tag (err e) = ok not_received
  read_reply tag fault = fault
  read_reply tag hangs = hangs

  -- The two requests differ in their tags and in the visit. `exchange` is the other end of the
  -- connection: the bytes that come back for the bytes that are sent, or `none` when it closes.
  unfoldable pub gs_request :
      ℕ → ℕ → (List ℕ → Outcome (Option (List ℕ))) → List ℕ → ℕ → ℕ → Outcome (QueryResult A)
  unfolding read_reply
  gs_request req_tag resp_tag exchange submarine_id start end = do
    payload ← range_request submarine_id start end
    sent ← gs_send req_tag payload
    answer ← exchange sent
    read_reply resp_tag (gs_recv_message (elim answer [ none ↦ [] | some bytes ↦ bytes ]))

unfoldable pub gs_request_log :
    (List ℕ → Outcome (Option (List ℕ))) → List ℕ → ℕ → ℕ → Outcome (QueryResult Measurement)
unfolding gs_request
gs_request_log = gs_request visit_measurement tag_get_log_req tag_get_log_resp

unfoldable pub gs_request_events :
    (List ℕ → Outcome (Option (List ℕ))) → List ℕ → ℕ → ℕ → Outcome (QueryResult PrintedEvent)
unfolding gs_request
gs_request_events = gs_request visit_event tag_get_events_req tag_get_events_resp
