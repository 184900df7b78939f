-- ===== src/Protocol/Tlv/Found.antt =====
-- common/protocol.c: the span that Protocol_FindField gives for a field that is there, exactly.
use embedded_project_pc.Common.{
  ℕ, suc, ◌+◌, ◌-◌, ◌≤◌, ◌≡◌, sym, ap, ◌∙◌, false, ◌==◌, List, [], ◌∷◌, ◌++◌, append_assoc, length,
  length-append, All, arith,
}
use embedded_project_pc.Protocol.{IsU16, Outcome, ok, err, fault, hangs, not_found, Span}
use embedded_project_pc.Protocol.Tlv.{find_field, find_field_loop}
use embedded_project_pc.Protocol.Tlv.Single.{tlv_bytes, length-tlv_bytes}
use embedded_project_pc.Protocol.Tlv.Fields.{
  Field, IsShort, fields_bytes, length-fields_bytes, contents, find_field_step,
}

-- A field with another tag.
abbrev pub Other : ℕ → Field → Type 0
Other tag (t, value) = (t == tag) ≡ false

find_field_loop-found :
    (buf : Span) (pre : List ℕ) (fs : List Field) (value post : List ℕ) (tag rounds : ℕ)
    → buf.bytes ≡ pre ++ (fields_bytes fs ++ (tlv_bytes tag value ++ post))
    → All IsShort fs
    → All (Other tag) fs
    → IsShort (tag, value)
    → length pre + length (fields_bytes fs) + (3 + length value) ≤ buf.len
    → IsU16 buf.len
    → find_field_loop (suc (length fs + rounds)) buf tag (length pre)
      ≡ ok (record { bytes = value ++ post; len = length value })
unfolding fields_bytes
find_field_loop-found buf pre [] value post tag rounds e short others h room hu =
    ground (arith, find_field_step buf pre tag value post tag rounds)
find_field_loop-found buf pre ((t, v) ∷ fs) value post tag rounds e (s, ss) (o, os) h room hu =
    let rest = tlv_bytes tag value ++ post in
    ground (
      arith,
      append_assoc (tlv_bytes t v) (fields_bytes fs) rest,
      append_assoc pre (tlv_bytes t v) (fields_bytes fs ++ rest),
      length-append pre (tlv_bytes t v),
      length-append (tlv_bytes t v) (fields_bytes fs),
      length-tlv_bytes t v,
      find_field_step buf pre t v (fields_bytes fs ++ rest) tag (suc (length fs + rounds)),
      find_field_loop-found buf (pre ++ tlv_bytes t v) fs value post tag rounds,
    )

-- The first field with the tag is found with its bytes, its length and all that lies behind it.
pub find_field-found :
    (buf : Span) (fs : List Field) (value post : List ℕ) (tag : ℕ)
    → buf.bytes ≡ fields_bytes fs ++ (tlv_bytes tag value ++ post)
    → All IsShort fs
    → All (Other tag) fs
    → IsShort (tag, value)
    → length (fields_bytes fs) + (3 + length value) ≤ buf.len
    → IsU16 buf.len
    → find_field buf tag ≡ ok (record { bytes = value ++ post; len = length value })
unfolding find_field
find_field-found buf fs value post tag e short others h room hu =
    let enough : length fs + (buf.len - length fs) ≡ buf.len =
      omega (arith, length-fields_bytes fs) in
    ap (λ k. find_field_loop (suc k) buf tag 0) (sym enough)
    ∙ find_field_loop-found buf [] fs value post tag (buf.len - length fs) e short others h
        (omega arith) hu

-- No field is found where the bytes of none are.
pub contents-err : (found : Outcome Span) → contents found ≡ err not_found → found ≡ err not_found
contents-err (ok field) e = ground arith
contents-err (err e') e = ground arith
contents-err fault e = ground arith
contents-err hangs e = ground arith
