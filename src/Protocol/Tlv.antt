-- ===== src/Protocol/Tlv.antt =====
-- common/protocol.c: Protocol_EncodeTLV, Protocol_DecodeTLV and Protocol_FindField.
pub mod Single
pub mod Fields
pub mod Found
pub mod Stall
pub mod Ending
use embedded_project_pc.Common.{
  ℕ, zero, suc, ◌+◌, ◌-◌, ◌%◌, ◌^◌, List, [], ◌∷◌, ◌++◌, length, drop, ltb, ◌==◌, if◌then◌else◌,
  true, false,
}
use embedded_project_pc.Protocol.{
  Outcome, ok, err, fault, hangs, buffer_too_small, incomplete, malformed, not_found, Span,
}
use embedded_project_pc.Protocol.Bytes.{put_u16, join_u16}

-- The value is `outBuf` up to `*outWritten`. `total` is cut to uint16_t; the stores that follow go
-- past a buffer that is smaller than the true sum.
unfoldable pub encode_tlv : ℕ → List ℕ → ℕ → Outcome (List ℕ)
encode_tlv tag value cap =
    let total = (3 + length value) % 2 ^ 16 in
    if ltb cap total
    then err buffer_too_small
    else (if ltb cap (3 + length value)
        then fault
        else ok (tag ∷ (put_u16 (length value) ++ value)))

-- The out values of Protocol_DecodeTLV. `value` points into the input buffer.
pub record Tlv : Type 0 where
  pub tag : ℕ
  pub value : Span
  pub consumed : ℕ

-- The header's three bytes, then the test of the declared length against what is there; the sum is
-- cut to uint16_t.
pub decode_tlv_header : List ℕ → ℕ → Outcome Tlv
decode_tlv_header (tag ∷ hi ∷ lo ∷ value) in_len =
    let value_len = join_u16 hi lo in
    let total = (3 + value_len) % 2 ^ 16 in
    if ltb in_len total
    then err incomplete
    else ok
        (record { tag = tag; value = record { bytes = value; len = value_len }; consumed = total })
decode_tlv_header (tag ∷ hi ∷ []) in_len = fault
decode_tlv_header (tag ∷ []) in_len = fault
decode_tlv_header [] in_len = fault

unfoldable pub decode_tlv : Span → Outcome Tlv
decode_tlv inp = if ltb inp.len 3 then err incomplete else decode_tlv_header inp.bytes inp.len

-- The rest of the loop's body, after the call of Protocol_DecodeTLV; `next` is the next round.
abbrev visit_field : ℕ → (ℕ → Outcome Span) → Outcome Tlv → Outcome Span
visit_field tag next (ok t) = elim (t.tag == tag) [ true ↦ ok t.value | false ↦ next t.consumed ]
visit_field tag next (err e) = err malformed
visit_field tag next fault = fault
visit_field tag next hangs = hangs

-- `while (offset < len)`, with the number of rounds left as fuel.
pub find_field_loop : ℕ → Span → ℕ → ℕ → Outcome Span
find_field_loop zero buf tag offset = hangs
find_field_loop (suc rounds) buf tag offset =
    let body =
      visit_field tag (λ consumed. find_field_loop rounds buf tag ((offset + consumed) % 2 ^ 16))
        (decode_tlv (record { bytes = drop offset buf.bytes; len = buf.len - offset })) in
    if ltb offset buf.len then body else err not_found

-- A round that goes on takes a byte at least, unless the declared length wraps around to a total of
-- 0: so `len` rounds and the last test are enough for every other buffer.
unfoldable pub find_field : Span → ℕ → Outcome Span
find_field buf tag = find_field_loop (suc buf.len) buf tag 0
