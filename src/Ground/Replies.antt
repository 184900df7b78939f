-- ===== src/Ground/Replies.antt =====
-- central_computer/comm_gs.cpp: WrapMessage, GsSendRaw, GsRecvMessage, the handlers of the two
-- requests and CC_GsLink_Dispatch.
pub mod Sent
use embedded_project_pc.Common.{
  ℕ, ◌+◌, ◌%◌, ◌^◌, ◌==◌, ◌||◌, List, [], ◌∷◌, ◌++◌, Option, none, some, length, take, drop, ltb,
  if◌then◌else◌,
}
use embedded_project_pc.Protocol.{Outcome, ok, err, fault, hangs, ◌>>=◌, malformed, Span}
use embedded_project_pc.Protocol.Bytes.{put_u16, put_u32, get_u32}
use embedded_project_pc.Protocol.Tlv.{Tlv, encode_tlv, decode_tlv}
use embedded_project_pc.Ground.Records.{
  Measurement, Event, append_measurement_record, append_event_record, field_status,
}
use embedded_project_pc.Ground.Requests.{RangeRequest, parse_gs_range_request}

-- GS_RESP_MAX_PAYLOAD
abbrev pub gs_resp_max_payload : ℕ
gs_resp_max_payload = 60000

abbrev pub tag_get_log_req : ℕ
tag_get_log_req = 0x13

abbrev pub tag_get_log_resp : ℕ
tag_get_log_resp = 0x14

abbrev pub tag_get_events_req : ℕ
tag_get_events_req = 0x15

abbrev pub tag_get_events_resp : ℕ
tag_get_events_resp = 0x16

-- PROTO_STATUS_SUCCESS, PROTO_STATUS_NO_DATA_FOUND and PROTO_STATUS_INTERNAL_ERROR.
abbrev pub status_success : ℕ
status_success = 0

abbrev pub status_no_data_found : ℕ
status_no_data_found = 3

abbrev pub status_internal_error : ℕ
status_internal_error = 5

-- put_u16 makes the cast of the size to uint16_t.
unfoldable pub wrap_message : ℕ → List ℕ → List ℕ
wrap_message tag payload = tag ∷ (put_u16 (length payload) ++ payload)

-- The bytes of the two calls of send().
unfoldable pub gs_send_raw : List ℕ → List ℕ
gs_send_raw message = put_u32 (length message) ++ message

unfoldable pub status_field : ℕ → Outcome (List ℕ)
status_field status = encode_tlv field_status (status ∷ []) 4

-- The loops over the records, which stop once the payload is long enough.
module _ {A : Type 0} (append_record : List ℕ → A → Outcome (List ℕ)) where
  unfoldable pub append_records : List ℕ → List A → Outcome (List ℕ)
  append_records payload [] = ok payload
  append_records payload (r ∷ rs) =
      if ltb gs_resp_max_payload (length payload)
      then ok payload
      else append_record payload r >>= λ payload'. append_records payload' rs

  -- A handler behind the parsing: the status, the records, and the reply.
  unfoldable pub reply_with : ℕ → List A → Outcome (List ℕ)
  reply_with tag records = do
    status ← status_field (elim records [ [] ↦ status_no_data_found | r ∷ rs ↦ status_success ])
    payload ← append_records status records
    ok (gs_send_raw (wrap_message tag payload))

unfoldable pub reply_error : ℕ → Outcome (List ℕ)
reply_error tag = do
  status ← status_field status_internal_error
  ok (gs_send_raw (wrap_message tag status))

-- The two handlers differ in the query, the encoder and the tag; the bytes are those that are sent.
module _ {A : Type 0} (query : RangeRequest → List A)
    (append_record : List ℕ → A → Outcome (List ℕ)) where
  unfoldable pub handle_get : ℕ → Outcome RangeRequest → Outcome (List ℕ)
  handle_get tag (ok request) = reply_with append_record tag (query request)
  handle_get tag (err e) = reply_error tag
  handle_get tag fault = fault
  handle_get tag hangs = hangs

-- DCA_QueryMeasurements and DCA_QueryEvents are arguments.
unfoldable pub handle_get_log : (RangeRequest → List Measurement) → Span → Outcome (List ℕ)
unfolding handle_get
handle_get_log query value =
    handle_get query append_measurement_record tag_get_log_resp (parse_gs_range_request value)

unfoldable pub handle_get_events : (RangeRequest → List Event) → Span → Outcome (List ℕ)
unfolding handle_get
handle_get_events query value =
    handle_get query append_event_record tag_get_events_resp (parse_gs_range_request value)

-- GsRecvMessage of the central computer on the bytes that recv() hands over: the prefix, the message
-- for a buffer of `cap` bytes, and its decoding. An error is the return value false.
unfoldable pub gs_recv_request : ℕ → List ℕ → Outcome Tlv
gs_recv_request cap bytes =
    if ltb (length bytes) 4
    then err malformed
    else get_u32 bytes >>= λ msg_len.
        if msg_len == 0 || ltb cap msg_len || ltb (length bytes) (4 + msg_len)
        then err malformed
        else decode_tlv (record { bytes = take msg_len (drop 4 bytes); len = msg_len % 2 ^ 16 })

-- CC_GsLink_Dispatch, once a message is there: the bytes sent; an unknown tag sends nothing.
unfoldable pub dispatch :
    (RangeRequest → List Measurement) → (RangeRequest → List Event) → Tlv → Outcome (List ℕ)
dispatch measurements events t =
    if t.tag == tag_get_log_req
    then handle_get_log measurements t.value
    else (if t.tag == tag_get_events_req then handle_get_events events t.value else ok [])

-- CC_GsLink_Dispatch: `none` is the return value false, at which the connection is closed.
unfoldable pub dispatch_received :
    (RangeRequest → List Measurement)
    → (RangeRequest → List Event)
    → Outcome Tlv
    → Outcome (Option (List ℕ))
dispatch_received measurements events (ok t) = do
  sent ← dispatch measurements events t
  ok (some sent)
dispatch_received measurements events (err e) = ok none
dispatch_received measurements events fault = fault
dispatch_received measurements events hangs = hangs

unfoldable pub gs_link_dispatch :
    (RangeRequest → List Measurement)
    → (RangeRequest → List Event)
    → List ℕ
    → Outcome (Option (List ℕ))
unfolding dispatch_received
gs_link_dispatch measurements events bytes =
    dispatch_received measurements events (gs_recv_request 512 bytes)
