-- ===== src/Management/Answered.antt =====
-- management_command.cpp: CcCore_GetMeasurements and CcCore_GetEvents against an answer in pages.
use embedded_project_pc.Common.{
  ℕ, zero, suc, ◌≤◌, ◌<◌, ◌≡◌, refl, ap, ◌∙◌, List, [], ◌∷◌, ◌++◌, append_assoc, append-nil, Bool,
  true, false, length, length-append, All, arith,
}
use embedded_project_pc.Protocol.{Outcome, ok, Span}
use embedded_project_pc.Protocol.Bytes.{put_u32}
use embedded_project_pc.Protocol.Walk.Whole.{Visits}
use embedded_project_pc.Protocol.Tlv.Single.{tlv_bytes}
use embedded_project_pc.Protocol.Tlv.Fields.{Field, IsShort, fields_bytes}
use embedded_project_pc.Bridge.Server.Stream.{message_bytes, length-message_bytes}
use embedded_project_pc.Ground.Records.{
  Measurement, read_measurement, field_measurement, field_event,
}
use embedded_project_pc.Ground.Records.Printed.{PrintedEvent, read_event}
use embedded_project_pc.Log.{Stored}
use embedded_project_pc.Lnc.Reports.{reports_bytes, all_stored}
use embedded_project_pc.Management.{
  Progress, Fetched, complete, next_page, finished, fetch_loop, no_cursor, get_measurements,
  get_events, tag_get_measurements_req, tag_get_measurements_resp, tag_get_lnc_events_req,
  tag_get_lnc_events_resp,
}
use embedded_project_pc.Management.Pages.{
  Page, values, cursor_fields, IsRecordTag, page_fields, cursor-Visits,
}
use embedded_project_pc.Management.Paging.{
  request_message, page_bytes, adding, IsPage, IsReplyTag, fetch_round-page,
}

module _ {A : Type 0} (read : Span → Outcome A) (record_tag req_tag resp_tag start end : ℕ) where
  -- The bytes of the answer: pages that each end in a cursor, and one without.
  abbrev pub pages_bytes : List (Page A) → Page A → List ℕ → List ℕ
  pages_bytes [] last rest = page_bytes read record_tag req_tag resp_tag start end last [] rest
  pages_bytes (page ∷ pages) last rest =
      page_bytes read record_tag req_tag resp_tag start end page (cursor_fields page)
        (pages_bytes pages last rest)

  -- The requests: the first without a cursor, each other one with the cursor of the page before.
  abbrev pub requests : Bool → ℕ → ℕ → List (Page A) → List (List ℕ)
  requests have_cursor day offset [] =
      request_message read record_tag req_tag resp_tag start end have_cursor day offset ∷ []
  requests have_cursor day offset (page ∷ pages) =
      request_message read record_tag req_tag resp_tag start end have_cursor day offset
      ∷ requests true page.day page.offset pages

  abbrev pub pages_stored : List (Page A) → Page A → List Stored
  pages_stored [] last = all_stored last.reports
  pages_stored (page ∷ pages) last = all_stored page.reports ++ pages_stored pages last

  abbrev pub pages_values : List (Page A) → Page A → List A
  pages_values [] last = values last.records
  pages_values (page ∷ pages) last = values page.records ++ pages_values pages last

  abbrev pub ArePages : List (Page A) → Page A → Type 0
  ArePages [] last = IsPage read record_tag req_tag resp_tag start end last []
  ArePages (page ∷ pages) last =
      IsPage read record_tag req_tag resp_tag start end page (cursor_fields page)
      × ArePages pages last

  abbrev pub the_answer : Progress A → List (Page A) → Page A → List ℕ → Fetched A
  the_answer p pages last rest = record {
    sent = requests p.have_cursor p.cursor_day p.cursor_offset pages;
    stored = pages_stored pages last;
    printed = p.printed ++ pages_values pages last;
    ending = complete;
    rest = rest;
  }

  cursor-IsShort : (page : Page A) → All IsShort (cursor_fields page)
  unfolding put_u32
  cursor-IsShort page = ground arith

  fetch_loop-pages :
      (rounds : ℕ) (p : Progress A) (pages : List (Page A)) (last : Page A) (rest : List ℕ)
      → IsRecordTag read record_tag
      → IsReplyTag read record_tag req_tag resp_tag start end
      → ArePages pages last
      → length pages < rounds
      → fetch_loop read record_tag req_tag resp_tag start end rounds p (pages_bytes pages last rest)
        ≡ ok (the_answer p pages last rest)
  unfolding fetch_loop next_page finished Visits
  fetch_loop-pages zero p pages last rest tags reply h hr = absurd (omega arith)
  fetch_loop-pages (suc rounds) p [] last rest tags reply h hr =
      let next = λ (p' : Progress A) (rest' : List ℕ).
        fetch_loop read record_tag req_tag resp_tag start end rounds p' rest' in
      fetch_round-page read record_tag req_tag resp_tag start end next p
        (record p { response_has_cursor = false; printed = p.printed ++ values last.records }) last
        [] rest tags reply h _ refl
      ∙ ap (λ l. ok (record (the_answer p [] last rest) { stored = l }))
          (append-nil (all_stored last.reports))
  fetch_loop-pages (suc rounds) p (page ∷ pages) last rest tags reply (h, hs) hr =
      let next = λ (p' : Progress A) (rest' : List ℕ).
        fetch_loop read record_tag req_tag resp_tag start end rounds p' rest' in
      let walked = record p {
        response_has_cursor = false;
        printed = p.printed ++ values page.records;
      } in
      let p' = record walked {
        cursor_day = page.day;
        cursor_offset = page.offset;
        response_has_cursor = true;
      } in
      fetch_round-page read record_tag req_tag resp_tag start end next p p' page
        (cursor_fields page) (pages_bytes pages last rest) tags reply h (cursor-IsShort page)
        (cursor-Visits read record_tag page walked tags h.day_u32 h.offset_u32)
      ∙ ap
          (adding read record_tag req_tag resp_tag start end
            (request_message read record_tag req_tag resp_tag start end p.have_cursor p.cursor_day
              p.cursor_offset)
            (all_stored page.reports))
          (fetch_loop-pages rounds (record p' { have_cursor = true }) pages last rest tags reply hs
            (omega (arith, hr)))
      ∙ ap (λ l. ok (record (the_answer p (page ∷ pages) last rest) { printed = l }))
          (append_assoc p.printed (values page.records) (pages_values pages last))

  length-page_bytes :
      (page : Page A) (cursor : List Field) (rest : List ℕ)
      → length rest
        < length (page_bytes read record_tag req_tag resp_tag start end page cursor rest)
  length-page_bytes page cursor rest =
      let m = tlv_bytes resp_tag (fields_bytes (page_fields read record_tag page.records cursor)) in
      omega (
        arith,
        length-append (reports_bytes page.reports) (message_bytes m ++ rest),
        length-append (message_bytes m) rest,
        length-message_bytes m,
      )

  length-pages_bytes :
      (pages : List (Page A)) (last : Page A) (rest : List ℕ)
      → length pages ≤ length (pages_bytes pages last rest)
  length-pages_bytes [] last rest = omega arith
  length-pages_bytes (page ∷ pages) last rest = omega (
    arith,
    length-page_bytes page (cursor_fields page) (pages_bytes pages last rest),
    length-pages_bytes pages last rest,
  )

  -- With the fuel that the two calls take.
  pub fetch-pages :
      (pages : List (Page A)) (last : Page A) (rest : List ℕ)
      → IsRecordTag read record_tag
      → IsReplyTag read record_tag req_tag resp_tag start end
      → ArePages pages last
      → fetch_loop read record_tag req_tag resp_tag start end
          (suc (length (pages_bytes pages last rest)))
          no_cursor
          (pages_bytes pages last rest)
        ≡ ok (the_answer no_cursor pages last rest)
  fetch-pages pages last rest tags reply h =
      fetch_loop-pages (suc (length (pages_bytes pages last rest))) no_cursor pages last rest tags
        reply h (omega (arith, length-pages_bytes pages last rest))

-- A call of CcCore_GetMeasurements, answered in any number of pages of which all but the last end in
-- a cursor: it prints the measurements of all pages in order, stores the reports that come between
-- them, ends with "done", and leaves what follows in the socket. Its requests carry the range, and
-- each but the first the cursor of the page before. Each page fits the buffer of 300 bytes.
pub get_measurements-pages :
    (start end : ℕ) (pages : List (Page Measurement)) (last : Page Measurement) (rest : List ℕ)
    → ArePages read_measurement field_measurement tag_get_measurements_req tag_get_measurements_resp
        start end pages last
    → get_measurements start end (
        pages_bytes read_measurement field_measurement tag_get_measurements_req
          tag_get_measurements_resp start end pages last rest)
      ≡ ok (
          the_answer read_measurement field_measurement tag_get_measurements_req
            tag_get_measurements_resp start end no_cursor pages last rest)
unfolding get_measurements
get_measurements-pages start end pages last rest h =
    fetch-pages read_measurement field_measurement tag_get_measurements_req
      tag_get_measurements_resp start end pages last rest
      (record { not_status = refl; not_day = refl; not_offset = refl })
      (record { not_keep_alive = ground arith; not_event_report = ground arith }) h

-- The same of CcCore_GetEvents and the events of all pages.
pub get_events-pages :
    (start end : ℕ) (pages : List (Page PrintedEvent)) (last : Page PrintedEvent) (rest : List ℕ)
    → ArePages read_event field_event tag_get_lnc_events_req tag_get_lnc_events_resp start end pages
        last
    → get_events start end (
        pages_bytes read_event field_event tag_get_lnc_events_req tag_get_lnc_events_resp start end
          pages last rest)
      ≡ ok (
          the_answer read_event field_event tag_get_lnc_events_req tag_get_lnc_events_resp start end
            no_cursor pages last rest)
unfolding get_events
get_events-pages start end pages last rest h =
    fetch-pages read_event field_event tag_get_lnc_events_req tag_get_lnc_events_resp start end
      pages last rest (record { not_status = refl; not_day = refl; not_offset = refl })
      (record { not_keep_alive = ground arith; not_event_report = ground arith }) h
