-- ===== src/Ground/Queries/Served.antt =====
-- gs_queries.cpp and comm_gs.cpp: what a query of the ground station shows of the central computer's
-- records.
use embedded_project_pc.Common.{
  ℕ, ◌+◌, ◌*◌, ◌≤◌, ◌<◌, ◌≡◌, refl, sym, subst, ap, ◌∙◌, ◌⊎◌, inl, inr, List, [], ◌∷◌, ◌++◌,
  append-nil, some, map, map-id, length, length-append, take, take-append, take_longer, All,
  All-front, arith,
}
use embedded_project_pc.Protocol.{IsU32, ok, ◌>>=◌}
use embedded_project_pc.Protocol.Tlv.Single.{tlv_bytes, length-tlv_bytes}
use embedded_project_pc.Protocol.Tlv.Fields.{fields_bytes}
use embedded_project_pc.Ground.Records.{
  Measurement, Event, append_measurement_record, append_event_record, field_status,
  field_measurement, field_event,
}
use embedded_project_pc.Ground.Records.Encoded.{measurement_bytes, event_bytes}
use embedded_project_pc.Ground.Records.ReadBack.{InRange}
use embedded_project_pc.Ground.Records.Printed.{PrintedEvent, printed_event}
use embedded_project_pc.Ground.Records.PrintedBack.{IsInRange}
use embedded_project_pc.Ground.Requests.{RangeRequest, parse-request_fields}
use embedded_project_pc.Ground.Replies.{
  gs_send_raw, wrap_message, dispatch, handle_get, handle_get_log, handle_get_events, reply_with,
  gs_link_dispatch, tag_get_log_req, tag_get_log_resp, tag_get_events_req, tag_get_events_resp,
}
use embedded_project_pc.Ground.Replies.Sent.{status_of, IsSent, reply_with-IsSent}
use embedded_project_pc.Ground.Queries.{
  QueryResult, no_data, done, gs_request_log, gs_request_events, visit_measurement, visit_event,
}
use embedded_project_pc.Ground.Queries.Reading.{
  log_fields, events_fields, visit_measurement-Prints, visit_event-Prints,
}
use embedded_project_pc.Ground.Queries.Answers.{answer}
use embedded_project_pc.Ground.Queries.EndToEnd.{
  request_bytes, gs_link_dispatch-request, gs_request-exchange, read_reply-reply_with, log_adds,
  events_add, length-log_fields,
}

-- The number of measurements in the longest reply.
abbrev pub max_log_records : ℕ
max_log_records = 1819

log_sent :
    (start : List ℕ) (records sent left : List Measurement)
    → length start ≡ 4
    → IsSent append_measurement_record field_measurement measurement_bytes 33 start records sent
        left
    → sent ≡ take max_log_records records
log_sent start records sent left h s =
    let bytes : length (start ++ fields_bytes (log_fields sent)) ≡ 4 + 33 * length sent =
      omega
        (arith, length-append start (fields_bytes (log_fields sent)), length-log_fields sent, h) in
    let few : length sent ≤ max_log_records = omega (arith, bytes, s.bounded) in
    sym (elim s.all_or_full [
      | inl all ↦
          ap (take max_log_records) (s.split ∙ ap (λ l. sent ++ l) all ∙ append-nil sent)
          ∙ take_longer max_log_records sent few
      | inr full ↦
          let exact : length sent ≡ max_log_records = omega (arith, bytes, few, full) in
          ap (take max_log_records) s.split
          ∙ ap (λ k. take k (sent ++ left)) (sym exact)
          ∙ take-append sent left
    ])

-- What the ground station is to print.
unfoldable pub log_answer : List Measurement → QueryResult Measurement
log_answer [] = no_data
log_answer (m ∷ ms) = done (take max_log_records (m ∷ ms))

unfoldable pub events_answer : List Event → List Event → QueryResult PrintedEvent
events_answer [] sent = no_data
events_answer (e ∷ es) sent = done (map printed_event sent)

answer-log_answer :
    (records : List Measurement)
    → answer visit_measurement field_measurement measurement_bytes
        (λ m. m)
        records
        (take max_log_records records)
      ≡ log_answer records
unfolding answer log_answer
answer-log_answer [] = refl
answer-log_answer (m ∷ ms) = ap done (map-id (take max_log_records (m ∷ ms)))

answer-events_answer :
    (records sent : List Event)
    → answer visit_event field_event event_bytes printed_event records sent
      ≡ events_answer records sent
unfolding answer events_answer
answer-events_answer [] sent = refl
answer-events_answer (e ∷ es) sent = refl

module _ (measurements : RangeRequest → List Measurement) (events : RangeRequest → List Event)
    (submarine_id : List ℕ) (start end : ℕ) where
  abbrev the_request : RangeRequest
  the_request = record { submarine_id = submarine_id; start = start; end = end }

  log_dispatched :
      length submarine_id ≤ 63
      → IsU32 start
      → IsU32 end
      → gs_link_dispatch measurements events (request_bytes tag_get_log_req submarine_id start end)
        ≡ (reply_with append_measurement_record tag_get_log_resp (measurements the_request)
            >>= λ sent. ok (some sent))
  unfolding dispatch handle_get_log handle_get
  log_dispatched short hs he =
      gs_link_dispatch-request measurements events tag_get_log_req start end submarine_id short
      ∙ ap
          (λ r. handle_get measurements append_measurement_record tag_get_log_resp r >>= λ sent.
            ok (some sent))
          (parse-request_fields submarine_id [] start end short hs he)

  events_dispatched :
      length submarine_id ≤ 63
      → IsU32 start
      → IsU32 end
      → gs_link_dispatch measurements events
          (request_bytes tag_get_events_req submarine_id start end)
        ≡ (reply_with append_event_record tag_get_events_resp (events the_request) >>= λ sent.
            ok (some sent))
  unfolding dispatch handle_get_events handle_get
  events_dispatched short hs he =
      gs_link_dispatch-request measurements events tag_get_events_req start end submarine_id short
      ∙ ap
          (λ r.
            handle_get events append_event_record tag_get_events_resp r >>= λ sent. ok (some sent))
          (parse-request_fields submarine_id [] start end short hs he)

  -- The records of the submarine in the range, as the central computer finds them, are printed by the
  -- ground station in their order: all of them up to the first 1819, or "no data" if there are none.
  -- The submarine's id has at most 63 bytes, and the numbers are in the range of their types.
  pub gs_request_log-log_answer :
      length submarine_id ≤ 63
      → IsU32 start
      → IsU32 end
      → All InRange (measurements the_request)
      → gs_request_log (gs_link_dispatch measurements events) submarine_id start end
        ≡ ok (log_answer (measurements the_request))
  unfolding gs_request_log visit_measurement
  gs_request_log-log_answer short hs he ranges =
      let records = measurements the_request in
      let (sent, (left, (s, reply))) =
        reply_with-IsSent append_measurement_record field_measurement measurement_bytes 33
          tag_get_log_resp records log_adds in
      let sent_ranges = All-front InRange sent left (subst (All InRange) s.split ranges) in
      let cut =
        log_sent (tlv_bytes field_status (status_of records ∷ [])) records sent left
          (length-tlv_bytes field_status (status_of records ∷ [])) s in
      gs_request-exchange visit_measurement tag_get_log_req tag_get_log_resp start end
        (gs_link_dispatch measurements events) submarine_id
        (gs_send_raw (
          wrap_message tag_get_log_resp
            (fields_bytes ((field_status, status_of records ∷ []) ∷ log_fields sent))))
        short (log_dispatched short hs he ∙ ap (λ r. r >>= λ b. ok (some b)) reply)
      ∙ read_reply-reply_with visit_measurement append_measurement_record field_measurement
          measurement_bytes 33 (λ m. m) records sent left tag_get_log_resp log_adds
          (λ status post. refl) (visit_measurement-Prints sent sent_ranges) (omega arith) s
      ∙ ap
          (λ l.
            ok (answer visit_measurement field_measurement measurement_bytes (λ m. m) records l))
          cut
      ∙ ap ok (answer-log_answer records)

  -- The events of the submarine in the range, as the central computer finds them, are printed by the
  -- ground station in their order, each with its measurement if it has one: "no data" if there are
  -- none, and else a first part of them, which is all of them unless its records take up more than
  -- 59996 bytes. The submarine's id has at most 63 bytes, and the numbers are in the range of their
  -- types.
  pub gs_request_events-events_answer :
      length submarine_id ≤ 63
      → IsU32 start
      → IsU32 end
      → All IsInRange (events the_request)
      → (sent : List Event) × ((left : List Event) × ((events the_request ≡ sent ++ left)
            × ((gs_request_events (gs_link_dispatch measurements events) submarine_id start end
                  ≡ ok (events_answer (events the_request) sent))
                × ((left ≡ []) ⊎ (59996 < length (fields_bytes (events_fields sent)))))))
  unfolding gs_request_events visit_event
  gs_request_events-events_answer short hs he ranges =
      let records = events the_request in
      let start_field = tlv_bytes field_status (status_of records ∷ []) in
      let (sent, (left, (s, reply))) =
        reply_with-IsSent append_event_record field_event event_bytes 51 tag_get_events_resp records
          events_add in
      let sent_ranges = All-front IsInRange sent left (subst (All IsInRange) s.split ranges) in
      let printed =
        gs_request-exchange visit_event tag_get_events_req tag_get_events_resp start end
          (gs_link_dispatch measurements events) submarine_id
          (gs_send_raw (
            wrap_message tag_get_events_resp
              (fields_bytes ((field_status, status_of records ∷ []) ∷ events_fields sent))))
          short (events_dispatched short hs he ∙ ap (λ r. r >>= λ b. ok (some b)) reply)
        ∙ read_reply-reply_with visit_event append_event_record field_event event_bytes 51
            printed_event records sent left tag_get_events_resp events_add (λ status post. refl)
            (visit_event-Prints sent sent_ranges) (omega arith) s
        ∙ ap ok (answer-events_answer records sent) in
      let long : length (start_field ++ fields_bytes (events_fields sent))
          ≡ 4 + length (fields_bytes (events_fields sent)) =
        omega (
          arith,
          length-append start_field (fields_bytes (events_fields sent)),
          length-tlv_bytes field_status (status_of records ∷ []),
        ) in
      (sent, (left, (s.split, (printed, ground (arith, s.all_or_full, long)))))
