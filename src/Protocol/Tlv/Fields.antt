-- ===== src/Protocol/Tlv/Fields.antt =====
-- common/protocol.c, Protocol_FindField on a buffer that holds a sequence of fields.
use embedded_project_pc.Common.{
  ℕ, suc, ◌+◌, ◌-◌, ◌%◌, ◌^◌, ◌≤◌, ◌<◌, ◌≡◌, refl, ap, List, [], ◌∷◌, ◌++◌, length, length-append,
  append_assoc, ◌==◌, if◌then◌else◌, arith, All, take, take-append, drop, drop-append, lt→ltb,
  le→ltb_false, ◌∙◌,
}
use embedded_project_pc.Protocol.{
  IsU16, Outcome, ok, err, fault, hangs, not_found, malformed, incomplete, Span,
}
use embedded_project_pc.Protocol.Tlv.{
  find_field, find_field_loop, visit_field, decode_tlv, decode_tlv_header, Tlv,
}
use embedded_project_pc.Protocol.Bytes.{put_u16, join_u16-put_u16}
use embedded_project_pc.Protocol.Tlv.Single.{
  tlv_bytes, length-tlv_bytes, decode_tlv-tlv_bytes, max_value,
}

-- A field is a tag and a value.
abbrev pub Field : Type 0
Field = ℕ × List ℕ

abbrev pub IsShort : Field → Type 0
IsShort (tag, value) = length value ≤ max_value

unfoldable pub fields_bytes : List Field → List ℕ
fields_bytes [] = []
fields_bytes ((tag, value) ∷ fs) = tlv_bytes tag value ++ fields_bytes fs

-- A buffer that holds fields, with memory behind it.
abbrev pub fields_span : List Field → List ℕ → Span
fields_span fs after = record { bytes = fields_bytes fs ++ after; len = length (fields_bytes fs) }

-- The specification of the scan: the value of the first field with the tag, or else `otherwise`.
unfoldable pub first_value : ℕ → List Field → Outcome (List ℕ) → Outcome (List ℕ)
first_value tag [] otherwise = otherwise
first_value tag ((t, value) ∷ fs) otherwise =
    if t == tag then ok value else first_value tag fs otherwise

-- The bytes that a found field spans.
abbrev pub contents : Outcome Span → Outcome (List ℕ)
contents (ok s) = ok (take s.len s.bytes)
contents (err e) = err e
contents fault = fault
contents hangs = hangs

visit_field-ok :
    (tag : ℕ) (next : ℕ → Outcome Span) (t : Tlv)
    → visit_field tag next (ok t) ≡ (if t.tag == tag then ok t.value else next t.consumed)
visit_field-ok tag next t = ground arith

-- One round of the scan, at a field. The buffer and its length are fixed by equations, so that the
-- lemma fits every way to write them.
pub find_field_step :
    (buf : Span) (pre : List ℕ) (t : ℕ) (value post : List ℕ) (tag rounds : ℕ)
    → buf.bytes ≡ pre ++ (tlv_bytes t value ++ post)
    → length value ≤ max_value
    → length pre + (3 + length value) ≤ buf.len
    → IsU16 buf.len
    → find_field_loop (suc rounds) buf tag (length pre) ≡ (
        if t == tag
        then ok (record { bytes = value ++ post; len = length value })
        else find_field_loop rounds buf tag (length pre + (3 + length value)))
unfolding find_field_loop
find_field_step buf pre t value post tag rounds e h hn hu =
    let no_wrap : (length pre + (3 + length value)) % 2 ^ 16 ≡ length pre + (3 + length value) =
      omega arith in
    let next = λ (k : ℕ). find_field_loop rounds buf tag ((length pre + k) % 2 ^ 16) in
    let found : Tlv = record {
      tag = t;
      value = record { bytes = value ++ post; len = length value };
      consumed = 3 + length value;
    } in
    let here : drop (length pre) buf.bytes ≡ tlv_bytes t value ++ post =
      ap (drop (length pre)) e ∙ drop-append pre (tlv_bytes t value ++ post) in
    rw
      (
        lt→ltb (length pre) buf.len (omega arith),
        here,
        decode_tlv-tlv_bytes t value post (buf.len - length pre) h (omega arith),
      )
      (visit_field-ok tag next found
        ∙ ap
            (λ (k : ℕ).
              if t == tag
              then ok (record { bytes = value ++ post; len = length value })
              else find_field_loop rounds buf tag k)
            no_wrap)

pub length-fields_bytes : (fs : List Field) → length fs ≤ length (fields_bytes fs)
unfolding fields_bytes
length-fields_bytes [] = omega arith
length-fields_bytes ((t, value) ∷ fs) = omega (
  arith,
  length-append (tlv_bytes t value) (fields_bytes fs),
  length-tlv_bytes t value,
  length-fields_bytes fs,
)

-- The scan of a sequence of fields, from any of them on. Behind the fields `rounds` rounds are left.
find_field_loop-fields_bytes :
    (buf : Span) (pre : List ℕ) (fs : List Field) (post : List ℕ) (tag rounds : ℕ)
    → buf.bytes ≡ pre ++ (fields_bytes fs ++ post)
    → All IsShort fs
    → length pre + length (fields_bytes fs) ≤ buf.len
    → IsU16 buf.len
    → contents (find_field_loop (length fs + rounds) buf tag (length pre))
      ≡ first_value tag fs
          (contents (find_field_loop rounds buf tag (length pre + length (fields_bytes fs))))
unfolding fields_bytes first_value
find_field_loop-fields_bytes buf pre [] post tag rounds e short room hu = ground arith
find_field_loop-fields_bytes buf pre ((t, value) ∷ fs) post tag rounds e (h, hs) room hu =
    let split : (tlv_bytes t value ++ fields_bytes fs) ++ post
        ≡ tlv_bytes t value ++ (fields_bytes fs ++ post) =
      append_assoc (tlv_bytes t value) (fields_bytes fs) post in
    ground (
      arith,
      split,
      append_assoc pre (tlv_bytes t value) (fields_bytes fs ++ post),
      length-append pre (tlv_bytes t value),
      length-append (tlv_bytes t value) (fields_bytes fs),
      length-tlv_bytes t value,
      take-append value (fields_bytes fs ++ post),
      find_field_step buf pre t value (fields_bytes fs ++ post) tag (length fs + rounds),
      find_field_loop-fields_bytes buf (pre ++ tlv_bytes t value) fs post tag rounds,
    )

-- The loop's last test, behind the last field.
find_field_end :
    (buf : Span) (tag rounds : ℕ) → find_field_loop (suc rounds) buf tag buf.len ≡ err not_found
unfolding find_field_loop
find_field_end buf tag rounds = rw (le→ltb_false buf.len buf.len (omega arith))

-- The scan with its own fuel, up to what it finds behind the fields.
find_field-prefix :
    (buf : Span) (fs : List Field) (post : List ℕ) (tag : ℕ)
    → buf.bytes ≡ fields_bytes fs ++ post
    → All IsShort fs
    → length (fields_bytes fs) ≤ buf.len
    → IsU16 buf.len
    → contents (find_field buf tag)
      ≡ first_value tag fs (
          contents (find_field_loop (suc (buf.len - length fs)) buf tag (length (fields_bytes fs))))
unfolding find_field
find_field-prefix buf fs post tag e short room hu =
    let fuel : suc buf.len ≡ length fs + suc (buf.len - length fs) =
      omega (arith, length-fields_bytes fs) in
    ap (λ (k : ℕ). contents (find_field_loop k buf tag 0)) fuel
    ∙ find_field_loop-fields_bytes buf [] fs post tag (suc (buf.len - length fs)) e short
        (omega arith) hu
    ∙ ap
        (λ (k : ℕ).
          first_value tag fs (contents (find_field_loop (suc (buf.len - length fs)) buf tag k)))
        (omega arith)

-- On a buffer that holds a sequence of fields with values of at most 65532 bytes, whatever memory
-- follows it, the scan ends: it finds the first field with the tag, with exactly the bytes of its
-- value, and returns PROTO_ERR_NOT_FOUND if there is none.
pub find_field-fields_bytes :
    (fs : List Field) (after : List ℕ) (tag : ℕ)
    → All IsShort fs
    → IsU16 (length (fields_bytes fs))
    → contents (
        find_field
          (record { bytes = fields_bytes fs ++ after; len = length (fields_bytes fs) })
          tag)
      ≡ first_value tag fs (err not_found)
find_field-fields_bytes fs after tag short room =
    let buf : Span = record { bytes = fields_bytes fs ++ after; len = length (fields_bytes fs) } in
    find_field-prefix buf fs after tag refl short (omega arith) room
    ∙ ap (λ r. first_value tag fs (contents r)) (find_field_end buf tag (buf.len - length fs))

-- A TLV of which only a part is there is incomplete.
pub decode_tlv_cut :
    (t : ℕ) (value cut back after : List ℕ) (x : ℕ)
    → length value ≤ max_value
    → tlv_bytes t value ≡ cut ++ x ∷ back
    → decode_tlv (record { bytes = cut ++ after; len = length cut }) ≡ err incomplete
unfolding decode_tlv decode_tlv_header tlv_bytes put_u16
decode_tlv_cut t value [] back after x h e = refl
decode_tlv_cut t value (a ∷ []) back after x h e = refl
decode_tlv_cut t value (a ∷ b ∷ []) back after x h e = refl
decode_tlv_cut t value (a ∷ b ∷ c ∷ cut) back after x h e =
    ground (arith, join_u16-put_u16 (length value), length-append cut (x ∷ back))

-- Where all values, that of the last field included, have at most 65532 bytes, a buffer whose last
-- field has arrived only in part, with one byte of it at least, is malformed for every tag that no
-- field before it has; a tag that one of those has is found all the same. The buffer's length is a
-- uint16_t, and whatever memory follows it makes no difference.
pub find_field_cut :
    (fs : List Field) (t : ℕ) (value cut back after : List ℕ) (x tag : ℕ)
    → All IsShort fs
    → length value ≤ max_value
    → tlv_bytes t value ≡ cut ++ x ∷ back
    → 0 < length cut
    → IsU16 (length (fields_bytes fs) + length cut)
    → contents (
        find_field
          (record {
            bytes = fields_bytes fs ++ (cut ++ after);
            len = length (fields_bytes fs) + length cut;
          })
          tag)
      ≡ first_value tag fs (err malformed)
unfolding find_field_loop
find_field_cut fs t value cut back after x tag short h e h0 room =
    let n = length (fields_bytes fs) in
    let buf : Span = record { bytes = fields_bytes fs ++ (cut ++ after); len = n + length cut } in
    let left : n + length cut - n ≡ length cut = omega arith in
    let stops : find_field_loop (suc (buf.len - length fs)) buf tag n ≡ err malformed = rw (
      lt→ltb n buf.len (omega arith),
      drop-append (fields_bytes fs) (cut ++ after),
      left,
      decode_tlv_cut t value cut back after x h e,
    ) in
    find_field-prefix buf fs (cut ++ after) tag refl short (omega arith) room
    ∙ ap (λ r. first_value tag fs (contents r)) stops
