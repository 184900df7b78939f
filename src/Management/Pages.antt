-- ===== src/Management/Pages.antt =====
-- management_command.cpp: the pages of an answer, as the LNC sends them.
use embedded_project_pc.Common.{
  ℕ, ◌==◌, ◌≤◌, ◌≡◌, refl, sym, ap, ◌∙◌, List, [], ◌∷◌, ◌++◌, append_assoc, append-nil, map, Bool,
  true, false, length, All, arith,
}
use embedded_project_pc.Protocol.{IsU32, Outcome, ok, Span}
use embedded_project_pc.Protocol.Bytes.{put_u16, put_u32}
use embedded_project_pc.Protocol.Tlv.{encode_tlv}
use embedded_project_pc.Protocol.Tlv.Single.{tlv_bytes, max_value}
use embedded_project_pc.Protocol.Tlv.Fields.{Field, fields_bytes}
use embedded_project_pc.Protocol.Walk.Whole.{Visits}
use embedded_project_pc.Ground.Records.{
  append_field, field_status, field_range_start, field_range_end,
}
use embedded_project_pc.Ground.Records.ReadBack.{u32_alone, get_u32-ReadsFront}
use embedded_project_pc.Lnc.Reports.{Report}
use embedded_project_pc.Management.{
  Progress, page_request, visit_page, field_cursor_day, field_cursor_offset,
}

-- A page: the reports in front of it, its records as they are encoded and as they are read, and the
-- cursor behind them.
pub record Page (A : Type 0) : Type 0 where
  pub reports : List Report
  pub records : List (List ℕ × A)
  pub day : ℕ
  pub offset : ℕ

abbrev pub values : {A : Type 0} → List (List ℕ × A) → List A
values [] = []
values ((v, a) ∷ records) = a ∷ values records

abbrev pub cursor_fields : {A : Type 0} → Page A → List Field
cursor_fields page =
    (field_cursor_day, put_u32 page.day) ∷ (field_cursor_offset, put_u32 page.offset) ∷ []

-- The request's fields.
abbrev pub request_fields : ℕ → ℕ → Bool → ℕ → ℕ → List Field
request_fields start end true day offset =
    (field_range_start, put_u32 start)
    ∷ (field_range_end, put_u32 end)
    ∷ (field_cursor_day, put_u32 day)
    ∷ (field_cursor_offset, put_u32 offset)
    ∷ []
request_fields start end false day offset =
    (field_range_start, put_u32 start) ∷ (field_range_end, put_u32 end) ∷ []

-- A request fits its payload of 32 bytes, with or without the cursor.
pub page_request-fields_bytes :
    (start end : ℕ) (have_cursor : Bool) (day offset : ℕ)
    → page_request start end have_cursor day offset
      ≡ ok (fields_bytes (request_fields start end have_cursor day offset))
unfolding page_request append_field encode_tlv fields_bytes tlv_bytes put_u16 put_u32
page_request-fields_bytes start end true day offset = refl
page_request-fields_bytes start end false day offset = refl

pub length-request_fields :
    (start end : ℕ) (have_cursor : Bool) (day offset : ℕ)
    → length (fields_bytes (request_fields start end have_cursor day offset)) ≤ 28
unfolding fields_bytes tlv_bytes put_u16 put_u32
length-request_fields start end true day offset = ground arith
length-request_fields start end false day offset = ground arith

module _ {A : Type 0} (read : Span → Outcome A) (record_tag : ℕ) where
  -- A tag that no other field of a reply has.
  pub record IsRecordTag : Type 0 where
    pub not_status : (field_status == record_tag) ≡ false
    pub not_day : (field_cursor_day == record_tag) ≡ false
    pub not_offset : (field_cursor_offset == record_tag) ≡ false

  abbrev pub IsRecord : List ℕ × A → Type 0
  IsRecord (value, a) =
      (length value ≤ max_value)
      × ((post : List ℕ) → read (record { bytes = value ++ post; len = length value }) ≡ ok a)

  abbrev pub page_fields : List (List ℕ × A) → List Field → List Field
  page_fields records cursor =
      (field_status, 0 ∷ []) ∷ (map (λ (r : List ℕ × A). (record_tag, r.0)) records ++ cursor)

  record_visited :
      (p : Progress A) (value : List ℕ) (a : A) (post : List ℕ)
      → IsRecord (value, a)
      → visit_page read record_tag record_tag
          (record { bytes = value ++ post; len = length value })
          p
        ≡ ok (record p { printed = p.printed ++ a ∷ [] })
  unfolding visit_page
  record_visited p value a post (short, h) = ground (arith, h post)

  pub records-Visits :
      (records : List (List ℕ × A)) (p : Progress A) (after : List A)
      → All IsRecord records
      → p.printed ++ values records ≡ after
      → Visits
          (visit_page read record_tag)
          (map (λ (r : List ℕ × A). (record_tag, r.0)) records)
          p
          (record p { printed = after })
  unfolding Visits
  records-Visits [] p after rs e =
      ap (λ l. record p { printed = l }) (sym (append-nil p.printed) ∙ e)
  records-Visits ((v, a) ∷ records) p after (h, hs) e = (
    record p { printed = p.printed ++ a ∷ [] },
    (
      (λ post. record_visited p v a post h),
      records-Visits records (record p { printed = p.printed ++ a ∷ [] }) after hs
          (append_assoc p.printed (a ∷ []) (values records) ∙ e),
    ),
  )

  pub cursor-Visits :
      (page : Page A) (p : Progress A)
      → IsRecordTag
      → IsU32 page.day
      → IsU32 page.offset
      → Visits (visit_page read record_tag) (cursor_fields page) p (record p {
        cursor_day = page.day;
        cursor_offset = page.offset;
        response_has_cursor = true;
      })
  unfolding Visits visit_page
  cursor-Visits page p tags hd ho = (
    record p { cursor_day = page.day; response_has_cursor = true },
    (
      (λ post. ground (
        arith,
        tags.not_day,
        get_u32-ReadsFront (put_u32 page.day) post page.day (u32_alone page.day hd),
      )),
      (
        record p { cursor_day = page.day; cursor_offset = page.offset; response_has_cursor = true },
        (
          (λ post. ground (
            arith,
            tags.not_offset,
            get_u32-ReadsFront (put_u32 page.offset) post page.offset (u32_alone page.offset ho),
          )),
          refl,
        ),
      ),
    ),
  )
