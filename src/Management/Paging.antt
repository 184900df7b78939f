-- ===== src/Management/Paging.antt =====
-- management_command.cpp: the loop of CcCore_GetMeasurements and CcCore_GetEvents over the pages.
use embedded_project_pc.Common.{
  ℕ, ◌+◌, ◌≤◌, ◌≡◌, ◌≢◌, refl, List, [], ◌∷◌, ◌++◌, map, some, Bool, false, length, All, All-append,
  arith,
}
use embedded_project_pc.Protocol.{IsU16, IsU32, Outcome, ok, ◌>>=◌, Span}
use embedded_project_pc.Protocol.Walk.{walk}
use embedded_project_pc.Protocol.Walk.Whole.{Visits, Visits-append, walk-fields_bytes}
use embedded_project_pc.Protocol.Tlv.Single.{tlv_bytes}
use embedded_project_pc.Protocol.Tlv.Fields.{Field, IsShort, fields_bytes, fields_span, first_value}
use embedded_project_pc.Bridge.Server.Stream.{message_bytes}
use embedded_project_pc.Ground.Records.{read_field, get_u8, field_status}
use embedded_project_pc.Ground.Records.ReadBack.{get_u8-ReadsFront, read_field-first_value}
use embedded_project_pc.Log.{Stored}
use embedded_project_pc.Fleet.Telemetry.{tag_keep_alive, tag_event_report}
use embedded_project_pc.Lnc.Messages.{lnc_send-message_bytes}
use embedded_project_pc.Lnc.Reports.{
  IsReport, reports_bytes, all_stored, tlv_of, lnc_recv_message-reply,
}
use embedded_project_pc.Management.{Progress, Fetched, visit_page, next_page, on_reply, fetch_round}
use embedded_project_pc.Management.Pages.{
  Page, values, request_fields, page_request-fields_bytes, length-request_fields, IsRecordTag,
  IsRecord, page_fields, records-Visits,
}

module _ {A : Type 0} (read : Span → Outcome A) (record_tag : ℕ) where
  fields-IsShort :
      (records : List (List ℕ × A)) (cursor : List Field)
      → All (IsRecord read record_tag) records
      → All IsShort cursor
      → All IsShort (page_fields read record_tag records cursor)
  fields-IsShort records cursor rs cs = (
    omega arith,
    All-append IsShort (map (λ (r : List ℕ × A). (record_tag, r.0)) records) cursor
        (shorts records rs) cs,
  )
    where
      shorts :
          (records : List (List ℕ × A))
          → All (IsRecord read record_tag) records
          → All IsShort (map (λ (r : List ℕ × A). (record_tag, r.0)) records)
      shorts [] rs = rs
      shorts (r ∷ records) ((short, h), hs) = (short, shorts records hs)

  status_read :
      (records : List (List ℕ × A)) (cursor : List Field)
      → All IsShort (page_fields read record_tag records cursor)
      → IsU16 (length (fields_bytes (page_fields read record_tag records cursor)))
      → read_field get_u8 (fields_span (page_fields read record_tag records cursor) []) field_status
        ≡ ok 0
  unfolding get_u8 first_value
  status_read records cursor short small =
      read_field-first_value get_u8 (page_fields read record_tag records cursor) [] (0 ∷ [])
        field_status 0 get_u8-ReadsFront short small refl refl

  -- A reply with status success is walked to its end.
  reply_walked :
      (next : Progress A → List ℕ → Outcome (Fetched A)) (resp_tag : ℕ) (p p' : Progress A)
      (rest : List ℕ) (records : List (List ℕ × A)) (cursor : List Field)
      → IsRecordTag read record_tag
      → All (IsRecord read record_tag) records
      → All IsShort cursor
      → Visits
          (visit_page read record_tag)
          cursor
          (record p { response_has_cursor = false; printed = p.printed ++ values records })
          p'
      → 3 + length (fields_bytes (page_fields read record_tag records cursor)) ≤ 300
      → on_reply read record_tag next resp_tag p rest
          (some (tlv_of resp_tag (fields_bytes (page_fields read record_tag records cursor))))
        ≡ next_page read record_tag next rest p'
  unfolding on_reply visit_page Visits
  reply_walked next resp_tag p p' rest records cursor tags rs cs vs fits =
      let fs = page_fields read record_tag records cursor in
      let short = fields-IsShort records cursor rs cs in
      let start = record p { response_has_cursor = false } in
      let passes : (post : List ℕ)
          → visit_page read record_tag field_status (record { bytes = 0 ∷ post; len = 1 }) start
            ≡ ok start =
        λ post. ground (arith, tags.not_status) in
      let walked : walk (visit_page read record_tag) (fields_span fs []) start ≡ ok p' =
        walk-fields_bytes (visit_page read record_tag) fs [] start p' short
          (
            start,
            (
              passes,
              Visits-append (visit_page read record_tag)
                  (map (λ (r : List ℕ × A). (record_tag, r.0)) records) cursor start
                  (record start { printed = p.printed ++ values records }) p'
                  (records-Visits read record_tag records start (p.printed ++ values records) rs
                    refl)
                  vs,
            ),
          )
          (omega (arith, fits)) in
      ground (arith, status_read records cursor short (omega (arith, fits)), walked)

  module _ (req_tag resp_tag start end : ℕ) where
    -- The bytes of a request.
    abbrev pub request_message : Bool → ℕ → ℕ → List ℕ
    request_message have_cursor day offset =
        message_bytes
          (tlv_bytes req_tag (fields_bytes (request_fields start end have_cursor day offset)))

    -- The bytes of a page, with the reports in front of it.
    abbrev pub page_bytes : Page A → List Field → List ℕ → List ℕ
    page_bytes page cursor rest =
        reports_bytes page.reports
        ++ (message_bytes
              (tlv_bytes resp_tag (fields_bytes (page_fields read record_tag page.records cursor)))
            ++ rest)

    abbrev pub adding : List ℕ → List Stored → Outcome (Fetched A) → Outcome (Fetched A)
    adding request stored fetched = do
      f ← fetched
      ok (record f { sent = request ∷ f.sent; stored = stored ++ f.stored })

    -- What a page is to satisfy: the reports and the records can be read, and the message fits the
    -- buffer of 300 bytes.
    pub record IsPage (page : Page A) (cursor : List Field) : Type 0 where
      pub reports_printed : All (IsReport 300) page.reports
      pub records_read : All (IsRecord read record_tag) page.records
      pub day_u32 : IsU32 page.day
      pub offset_u32 : IsU32 page.offset
      pub fits : 3 + length (fields_bytes (page_fields read record_tag page.records cursor)) ≤ 300

    -- The tag of the reply is not that of a report.
    pub record IsReplyTag : Type 0 where
      pub not_keep_alive : resp_tag ≢ tag_keep_alive
      pub not_event_report : resp_tag ≢ tag_event_report

    pub fetch_round-page :
        (next : Progress A → List ℕ → Outcome (Fetched A)) (p p' : Progress A) (page : Page A)
        (cursor : List Field) (rest : List ℕ)
        → IsRecordTag read record_tag
        → IsReplyTag
        → IsPage page cursor
        → All IsShort cursor
        → Visits
            (visit_page read record_tag)
            cursor
            (record p { response_has_cursor = false; printed = p.printed ++ values page.records })
            p'
        → fetch_round read record_tag req_tag resp_tag start end next p
            (page_bytes page cursor rest)
          ≡ adding
              (request_message p.have_cursor p.cursor_day p.cursor_offset)
              (all_stored page.reports)
              (next_page read record_tag next rest p')
    unfolding fetch_round
    fetch_round-page next p p' page cursor rest tags reply_tag h cs vs =
        let value = fields_bytes (page_fields read record_tag page.records cursor) in
        rw
          (
            page_request-fields_bytes start end p.have_cursor p.cursor_day p.cursor_offset,
            lnc_send-message_bytes req_tag
                (fields_bytes (request_fields start end p.have_cursor p.cursor_day p.cursor_offset))
                (omega (
                  arith,
                  length-request_fields start end p.have_cursor p.cursor_day p.cursor_offset,
                )),
            lnc_recv_message-reply 300 page.reports resp_tag value rest h.reports_printed
                (omega arith) reply_tag.not_keep_alive reply_tag.not_event_report h.fits,
            reply_walked next resp_tag p p' rest page.records cursor tags h.records_read cs vs
                h.fits,
          )
          refl
