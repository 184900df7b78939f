-- ===== src/Management.antt =====
-- central_computer/management_command.cpp: CcCore_GetTime, CcCore_SetRtc, CcCore_SetBatteryWarningMin,
-- CcCore_GetMeasurements and CcCore_GetEvents, over the bytes that the LNC sends.
pub mod Commands
pub mod Pages
pub mod Paging
pub mod Answered
use embedded_project_pc.Common.{
  ℕ, zero, suc, ◌==◌, ◌&&◌, List, [], ◌∷◌, ◌++◌, Option, none, some, Bool, true, false, length, ltb,
  not, if◌then◌else◌,
}
use embedded_project_pc.Protocol.{Outcome, ok, err, fault, hangs, ◌>>=◌, Span}
use embedded_project_pc.Protocol.Bytes.{put_u16, put_u32, get_u32}
use embedded_project_pc.Protocol.Tlv.{Tlv, encode_tlv}
use embedded_project_pc.Protocol.Walk.{walk}
use embedded_project_pc.Ground.Records.{
  Measurement, append_field, read_field, read_measurement, get_u8, field_status, field_range_start,
  field_range_end, field_measurement, field_event,
}
use embedded_project_pc.Ground.Records.Printed.{PrintedEvent, read_event}
use embedded_project_pc.Ground.Replies.{status_success, status_no_data_found}
use embedded_project_pc.Log.{Stored}
use embedded_project_pc.Lnc.{Reception, lnc_send, lnc_recv_message}

abbrev pub tag_set_battery_warning_min : ℕ
tag_set_battery_warning_min = 0x08

abbrev pub tag_set_rtc_req : ℕ
tag_set_rtc_req = 0x09

abbrev pub tag_get_time_req : ℕ
tag_get_time_req = 0x0a

abbrev pub tag_get_time_resp : ℕ
tag_get_time_resp = 0x0b

abbrev pub tag_config_ack : ℕ
tag_config_ack = 0x0c

abbrev pub tag_get_measurements_req : ℕ
tag_get_measurements_req = 0x0d

abbrev pub tag_get_measurements_resp : ℕ
tag_get_measurements_resp = 0x0e

abbrev pub tag_get_lnc_events_req : ℕ
tag_get_lnc_events_req = 0x0f

abbrev pub tag_get_lnc_events_resp : ℕ
tag_get_lnc_events_resp = 0x10

abbrev pub field_battery_min : ℕ
field_battery_min = 0x25

abbrev pub field_cursor_day : ℕ
field_cursor_day = 0x34

abbrev pub field_cursor_offset : ℕ
field_cursor_offset = 0x35

-- What a call sends, what is stored on the way, its out value (`none` is the return value false), and
-- the bytes that are left in the socket.
pub record Call : Type 0 where
  pub sent : List ℕ
  pub stored : List Stored
  pub result : Option ℕ
  pub rest : List ℕ

-- The test of a reply, and its value: `tag != ... || valueLen < ...` is the return value false.
unfoldable pub reply_value : ℕ → ℕ → (List ℕ → Outcome ℕ) → Option Tlv → Outcome (Option ℕ)
reply_value resp_tag min_len get none = ok none
reply_value resp_tag min_len get (some t) =
    if t.tag == resp_tag && not (ltb t.value.len min_len)
    then (do v ← get t.value.bytes; ok (some v))
    else ok none

-- The three commands differ in the request, the reply's tag and its value.
unfoldable pub command : ℕ → ℕ → ℕ → (List ℕ → Outcome ℕ) → List ℕ → List ℕ → Outcome Call
unfolding reply_value
command req_tag resp_tag min_len get value bytes = do
  sent ← lnc_send req_tag value
  r ← lnc_recv_message 256 bytes
  result ← reply_value resp_tag min_len get r.reply
  ok (record { sent = sent; stored = r.stored; result = result; rest = r.rest })

unfoldable pub get_time : List ℕ → Outcome Call
unfolding command
get_time = command tag_get_time_req tag_get_time_resp 4 get_u32 []

unfoldable pub set_rtc : ℕ → List ℕ → Outcome Call
unfolding command
set_rtc new_time = command tag_set_rtc_req tag_config_ack 1 get_u8 (put_u32 new_time)

unfoldable pub set_battery_warning_min : ℕ → List ℕ → Outcome Call
unfolding command
set_battery_warning_min new_min_mv bytes = do
  value ← encode_tlv field_battery_min (put_u16 new_min_mv) 8
  command tag_set_battery_warning_min tag_config_ack 1 get_u8 value bytes

-- The variables of CcCore_GetMeasurements and CcCore_GetEvents; the records are those printed.
pub record Progress (A : Type 0) : Type 0 where
  pub have_cursor : Bool
  pub cursor_day : ℕ
  pub cursor_offset : ℕ
  pub response_has_cursor : Bool
  pub printed : List A

-- The request, in a payload of 32 bytes.
unfoldable pub page_request : ℕ → ℕ → Bool → ℕ → ℕ → Outcome (List ℕ)
page_request start end have_cursor day offset = do
  b1 ← append_field 32 field_range_start (put_u32 start) []
  b2 ← append_field 32 field_range_end (put_u32 end) b1
  elim have_cursor [
    | true ↦ do
      b3 ← append_field 32 field_cursor_day (put_u32 day) b2
      append_field 32 field_cursor_offset (put_u32 offset) b3
    | false ↦ ok b2
  ]

-- The line of output at the end.
pub data Ending : Type 0 where
  not_received : Ending
  unexpected_tag : ℕ → Ending
  no_data : Ending
  failed : ℕ → Ending
  complete : Ending

-- All that is sent, stored and printed, and the bytes that are left.
pub record Fetched (A : Type 0) : Type 0 where
  pub sent : List (List ℕ)
  pub stored : List Stored
  pub printed : List A
  pub ending : Ending
  pub rest : List ℕ

module _ {A : Type 0} (read : Span → Outcome A) (record_tag : ℕ) where
  -- The body of the walk over a reply.
  unfoldable pub visit_page : ℕ → Span → Progress A → Outcome (Progress A)
  visit_page tag value p =
      if tag == record_tag
      then (do a ← read value; ok (record p { printed = p.printed ++ a ∷ [] }))
      else (if tag == field_cursor_day
          then (do
            day ← get_u32 value.bytes
            ok (record p { cursor_day = day; response_has_cursor = true }))
          else (if tag == field_cursor_offset
              then (do offset ← get_u32 value.bytes; ok (record p { cursor_offset = offset }))
              else ok p))

  -- The end of a call.
  unfoldable pub finished : Ending → List A → List ℕ → Outcome (Fetched A)
  finished ending printed rest =
      ok (record { sent = []; stored = []; printed = printed; ending = ending; rest = rest })

  -- Behind the walk; `next` is the next round.
  unfoldable pub next_page :
      (Progress A → List ℕ → Outcome (Fetched A)) → List ℕ → Progress A → Outcome (Fetched A)
  unfolding finished
  next_page next rest p = elim p.response_has_cursor [
    | true ↦ next (record p { have_cursor = true }) rest
    | false ↦ finished complete p.printed rest
  ]

  -- Behind the receiving: the tests of the tag and of the status, and the walk.
  unfoldable pub on_reply :
      (Progress A → List ℕ → Outcome (Fetched A))
      → ℕ
      → Progress A
      → List ℕ
      → Option Tlv
      → Outcome (Fetched A)
  unfolding next_page finished visit_page
  on_reply next resp_tag p rest none = finished not_received p.printed rest
  on_reply next resp_tag p rest (some t) =
      if t.tag == resp_tag
      then (read_field get_u8 t.value field_status >>= λ status.
          if status == status_no_data_found
          then finished no_data p.printed rest
          else (if status == status_success
              then (walk visit_page t.value (record p { response_has_cursor = false }) >>= λ p'.
                  next_page next rest p')
              else finished (failed status) p.printed rest))
      else finished (unexpected_tag t.tag) p.printed rest

  module _ (req_tag resp_tag start end : ℕ) where
    -- One round: the request, the reply, and what comes after it.
    unfoldable pub fetch_round :
        (Progress A → List ℕ → Outcome (Fetched A)) → Progress A → List ℕ → Outcome (Fetched A)
    unfolding on_reply
    fetch_round next p bytes = do
      payload ← page_request start end p.have_cursor p.cursor_day p.cursor_offset
      request ← lnc_send req_tag payload
      r ← lnc_recv_message 300 bytes
      f ← on_reply next resp_tag p r.rest r.reply
      ok (record f { sent = request ∷ f.sent; stored = r.stored ++ f.stored })

    -- The loop, with the number of rounds left as fuel.
    unfoldable pub fetch_loop : ℕ → Progress A → List ℕ → Outcome (Fetched A)
    unfolding fetch_round
    fetch_loop zero p bytes = hangs
    fetch_loop (suc rounds) p bytes = fetch_round (λ p' rest. fetch_loop rounds p' rest) p bytes

abbrev pub no_cursor : {A : Type 0} → Progress A
no_cursor = record {
  have_cursor = false;
  cursor_day = 0;
  cursor_offset = 0;
  response_has_cursor = false;
  printed = [];
}

-- Each round that goes on takes a message off the stream, of five bytes at least.
unfoldable pub get_measurements : ℕ → ℕ → List ℕ → Outcome (Fetched Measurement)
unfolding fetch_loop
get_measurements start end bytes =
    fetch_loop read_measurement field_measurement tag_get_measurements_req tag_get_measurements_resp
      start end (suc (length bytes)) no_cursor bytes

unfoldable pub get_events : ℕ → ℕ → List ℕ → Outcome (Fetched PrintedEvent)
unfolding fetch_loop
get_events start end bytes =
    fetch_loop read_event field_event tag_get_lnc_events_req tag_get_lnc_events_resp start end
      (suc (length bytes)) no_cursor bytes
