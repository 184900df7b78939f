-- ===== src/Ground/Requests.antt =====
-- central_computer/comm_gs.cpp: ParseGsRangeRequest; ground_station/gs_queries.cpp: the request that
-- Gs_RequestLog and Gs_RequestEvents build.
use embedded_project_pc.Common.{
  ℕ, ◌≤◌, ◌≡◌, refl, List, [], ◌∷◌, ◌++◌, append_assoc, append-nil, length, length-append,
  length-take, take, drop, take-append-drop, ap, ◌∙◌, ltb, if◌then◌else◌, All, arith,
}
use embedded_project_pc.Protocol.{
  IsU16, IsU32, Outcome, ok, err, fault, hangs, ◌>>=◌, malformed, not_found, Span,
}
use embedded_project_pc.Protocol.Bytes.{put_u16, put_u32, get_u32, length-put_u32}
use embedded_project_pc.Protocol.Tlv.{find_field}
use embedded_project_pc.Protocol.Tlv.Single.{tlv_bytes, length-tlv_bytes}
use embedded_project_pc.Protocol.Tlv.Fields.{
  Field, IsShort, fields_bytes, fields_span, first_value, contents, find_field-fields_bytes,
}
use embedded_project_pc.Ground.Records.ReadBack.{u32_alone, get_u32-ReadsFront}
use embedded_project_pc.Ground.Records.Encoded.{append_field-tlv_bytes}
use embedded_project_pc.Ground.Records.{
  append_field, field_submarine_id, field_range_start, field_range_end,
}

-- The out parameters of ParseGsRangeRequest.
pub record RangeRequest : Type 0 where
  pub submarine_id : List ℕ
  pub start : ℕ
  pub end : ℕ

-- An error is the return value false: the field is missing, or too short.
number_of : Outcome Span → Outcome ℕ
number_of (ok field) = if ltb field.len 4 then err malformed else get_u32 field.bytes
number_of (err e) = err e
number_of fault = fault
number_of hangs = hangs

unfoldable pub parse_gs_range_request : Span → Outcome RangeRequest
unfolding number_of
parse_gs_range_request value = do
  field ← find_field value field_submarine_id
  start ← number_of (find_field value field_range_start)
  end ← number_of (find_field value field_range_end)
  ok (record { submarine_id = take field.len field.bytes; start = start; end = end })

-- The payload of 80 bytes that the ground station fills.
unfoldable pub range_request : List ℕ → ℕ → ℕ → Outcome (List ℕ)
range_request submarine_id start end = do
  b1 ← append_field 80 field_submarine_id submarine_id []
  b2 ← append_field 80 field_range_start (put_u32 start) b1
  append_field 80 field_range_end (put_u32 end) b2

unfoldable pub request_fields : List ℕ → ℕ → ℕ → List Field
request_fields submarine_id start end =
    (field_submarine_id, submarine_id)
    ∷ (field_range_start, put_u32 start)
    ∷ (field_range_end, put_u32 end)
    ∷ []

-- The request of the ground station fits its 80 bytes if the submarine's id has at most 63 bytes.
pub range_request-fields_bytes :
    (submarine_id : List ℕ) (start end : ℕ)
    → length submarine_id ≤ 63
    → range_request submarine_id start end
      ≡ ok (fields_bytes (request_fields submarine_id start end))
unfolding range_request request_fields fields_bytes
range_request-fields_bytes submarine_id start end short = ground (
  arith,
  append_field-tlv_bytes 80 field_submarine_id submarine_id [] (omega arith) (omega arith),
  append_field-tlv_bytes 80 field_range_start (put_u32 start)
      (tlv_bytes field_submarine_id submarine_id) (omega (arith, length-put_u32 start))
      (omega (arith, length-put_u32 start, length-tlv_bytes field_submarine_id submarine_id)),
  append_field-tlv_bytes 80 field_range_end (put_u32 end)
      (tlv_bytes field_submarine_id submarine_id ++ tlv_bytes field_range_start (put_u32 start))
      (omega (arith, length-put_u32 end))
      (omega (
        arith,
        length-put_u32 start,
        length-put_u32 end,
        length-tlv_bytes field_submarine_id submarine_id,
        length-tlv_bytes field_range_start (put_u32 start),
        length-append (tlv_bytes field_submarine_id submarine_id)
            (tlv_bytes field_range_start (put_u32 start)),
      )),
  append_assoc (tlv_bytes field_submarine_id submarine_id)
      (tlv_bytes field_range_start (put_u32 start)) (tlv_bytes field_range_end (put_u32 end)),
  append-nil (tlv_bytes field_range_end (put_u32 end)),
)

number_of-contents :
    (found : Outcome Span) (value : ℕ)
    → IsU32 value
    → contents found ≡ ok (put_u32 value)
    → number_of found ≡ ok value
unfolding number_of
number_of-contents (ok field) value small e =
    let read : get_u32 (take field.len field.bytes) ≡ ok value =
      ground (arith, e, u32_alone value small) in
    let long : length (take field.len field.bytes) ≡ length (put_u32 value) = ground (arith, e) in
    ground (
      arith,
      length-take field.len field.bytes,
      length-put_u32 value,
      long,
      ap get_u32 (take-append-drop field.len field.bytes),
      get_u32-ReadsFront (take field.len field.bytes) (drop field.len field.bytes) value read,
    )
number_of-contents (err e') value small e = ground arith
number_of-contents fault value small e = ground arith
number_of-contents hangs value small e = ground arith

pub request_fields-IsShort :
    (submarine_id : List ℕ) (start end : ℕ)
    → length submarine_id ≤ 63
    → All IsShort (request_fields submarine_id start end)
unfolding request_fields put_u32
request_fields-IsShort submarine_id start end h = ground arith

pub request_fields_small :
    (submarine_id : List ℕ) (start end : ℕ)
    → length submarine_id ≤ 63
    → IsU16 (length (fields_bytes (request_fields submarine_id start end)))
unfolding request_fields fields_bytes put_u32 tlv_bytes put_u16
request_fields_small submarine_id start end h = ground (
  arith,
  length-append submarine_id (
      tlv_bytes field_range_start (put_u32 start)
      ++ (tlv_bytes field_range_end (put_u32 end) ++ [])),
)

contents-ok :
    (found : Outcome Span) (value : List ℕ)
    → contents found ≡ ok value
    → (field : Span) × ((found ≡ ok field) × (take field.len field.bytes ≡ value))
contents-ok (ok field) value e = (field, (refl, ground (arith, e)))
contents-ok (err e') value e = ground arith
contents-ok fault value e = ground arith
contents-ok hangs value e = ground arith

first_id :
    (submarine_id : List ℕ) (start end : ℕ)
    → first_value field_submarine_id (request_fields submarine_id start end) (err not_found)
      ≡ ok submarine_id
unfolding first_value request_fields
first_id submarine_id start end = refl

first_start :
    (submarine_id : List ℕ) (start end : ℕ)
    → first_value field_range_start (request_fields submarine_id start end) (err not_found)
      ≡ ok (put_u32 start)
unfolding first_value request_fields
first_start submarine_id start end = refl

first_end :
    (submarine_id : List ℕ) (start end : ℕ)
    → first_value field_range_end (request_fields submarine_id start end) (err not_found)
      ≡ ok (put_u32 end)
unfolding first_value request_fields
first_end submarine_id start end = refl

pub parse-request_fields :
    (submarine_id after : List ℕ) (start end : ℕ)
    → length submarine_id ≤ 63
    → IsU32 start
    → IsU32 end
    → parse_gs_range_request (fields_span (request_fields submarine_id start end) after)
      ≡ ok (record { submarine_id = submarine_id; start = start; end = end })
unfolding parse_gs_range_request
parse-request_fields submarine_id after start end short hs he =
    let fs = request_fields submarine_id start end in
    let all_short = request_fields-IsShort submarine_id start end short in
    let small = request_fields_small submarine_id start end short in
    let (field, (found, value)) =
      contents-ok (find_field (fields_span fs after) field_submarine_id) submarine_id (
        find_field-fields_bytes fs after field_submarine_id all_short small
        ∙ first_id submarine_id start end) in
    ground (
      arith,
      found,
      value,
      number_of-contents (find_field (fields_span fs after) field_range_start) start hs (
          find_field-fields_bytes fs after field_range_start all_short small
          ∙ first_start submarine_id start end),
      number_of-contents (find_field (fields_span fs after) field_range_end) end he (
          find_field-fields_bytes fs after field_range_end all_short small
          ∙ first_end submarine_id start end),
    )

-- A request for a submarine whose id has at most 63 bytes, as the ground station encodes it, is
-- parsed by the central computer to the same id and the same range, whatever memory follows it.
pub parse_gs_range_request-range_request :
    (submarine_id after request : List ℕ) (start end : ℕ)
    → length submarine_id ≤ 63
    → IsU32 start
    → IsU32 end
    → range_request submarine_id start end ≡ ok request
    → parse_gs_range_request (record { bytes = request ++ after; len = length request })
      ≡ ok (record { submarine_id = submarine_id; start = start; end = end })
parse_gs_range_request-range_request submarine_id after request start end short hs he e =
    let same_request : request ≡ fields_bytes (request_fields submarine_id start end) =
      ground (arith, e, range_request-fields_bytes submarine_id start end short) in
    ap (λ (q : List ℕ). parse_gs_range_request (record { bytes = q ++ after; len = length q }))
      same_request
    ∙ parse-request_fields submarine_id after start end short hs he
