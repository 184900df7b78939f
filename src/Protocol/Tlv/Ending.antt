-- ===== src/Protocol/Tlv/Ending.antt =====
-- common/protocol.c: what Protocol_DecodeTLV and Protocol_FindField give on buffers in which no
-- length stops the scan.
use embedded_project_pc.Common.{
  ℕ, zero, suc, ◌+◌, ◌-◌, ◌%◌, ◌^◌, ◌==◌, ◌≢◌, refl, List, [], ◌∷◌, drop, take, ltb, arith, true,
  false, Bool-cases, inl, inr,
}
use embedded_project_pc.Protocol.{IsU16, Outcome, ok, err, fault, hangs, ◌>>=◌, Span, Returns}
use embedded_project_pc.Protocol.Bytes.{join_u16-lt}
use embedded_project_pc.Protocol.Tlv.{
  find_field, find_field_loop, visit_field, decode_tlv, decode_tlv_header, Tlv,
}
use embedded_project_pc.Protocol.Tlv.Stall.{NoStall, NoStall-drop, find_field_ends}

-- A buffer in which the scan ends.
abbrev pub IsQuiet : Span → Type 0
IsQuiet buf = NoStall buf.bytes × IsU16 buf.len

-- A search that ends, with such a buffer if it finds one.
abbrev pub Finds : Outcome Span → Type 0
Finds (ok value) = IsQuiet value
Finds (err e) = Unit {0}
Finds fault = Unit {0}
Finds hangs = ⊥

-- A decoding that ends, with such a value if there is one.
abbrev pub Decodes : Outcome Tlv → Type 0
Decodes (ok t) = IsQuiet t.value
Decodes (err e) = Unit {0}
Decodes fault = Unit {0}
Decodes hangs = ⊥

pub decode_tlv-Decodes :
    (bytes : List ℕ) (n : ℕ)
    → NoStall bytes
    → Decodes (decode_tlv (record { bytes = bytes; len = n }))
unfolding decode_tlv decode_tlv_header
decode_tlv-Decodes [] n h = ground arith
decode_tlv-Decodes (t ∷ []) n h = ground arith
decode_tlv-Decodes (t ∷ hi ∷ []) n h = ground arith
decode_tlv-Decodes (t ∷ hi ∷ lo ∷ value) n h =
    ground (arith, join_u16-lt hi lo, NoStall-drop 3 (t ∷ hi ∷ lo ∷ value) h)

visit_field-Returns :
    (tag : ℕ) (next : ℕ → Outcome Span) (o : Outcome Tlv)
    → Decodes o
    → ((k : ℕ) → Returns IsQuiet (next k))
    → Returns IsQuiet (visit_field tag next o)
visit_field-Returns tag next (ok t) d go =
    elim (t.tag == tag)
      as (λ b. Returns IsQuiet (elim b [ true ↦ ok t.value | false ↦ next t.consumed ])) [
        | true ↦ d
        | false ↦ go t.consumed
      ]
visit_field-Returns tag next (err e) d go = tt
visit_field-Returns tag next fault d go = tt
visit_field-Returns tag next hangs d go = tt

find_field_loop-Returns :
    (rounds : ℕ) (buf : Span) (tag offset : ℕ)
    → NoStall buf.bytes
    → Returns IsQuiet (find_field_loop rounds buf tag offset)
unfolding find_field_loop
find_field_loop-Returns zero buf tag offset h = tt
find_field_loop-Returns (suc rounds) buf tag offset h = elim (Bool-cases (ltb offset buf.len)) [
  | inr done ↦ rw done tt
  | inl goes_on ↦ rw goes_on (
      visit_field-Returns tag _ _
        (decode_tlv-Decodes (drop offset buf.bytes) (buf.len - offset)
          (NoStall-drop offset buf.bytes h))
        (λ k. find_field_loop-Returns rounds buf tag ((offset + k) % 2 ^ 16) h))
]

Finds-Returns : (o : Outcome Span) → o ≢ hangs → Returns IsQuiet o → Finds o
Finds-Returns (ok value) ends g = g
Finds-Returns (err e) ends g = tt
Finds-Returns fault ends g = tt
Finds-Returns hangs ends g = ends refl

pub find_field-Finds : (buf : Span) (tag : ℕ) → IsQuiet buf → Finds (find_field buf tag)
unfolding find_field
find_field-Finds buf tag (quiet, small) =
    Finds-Returns (find_field buf tag) (find_field_ends buf tag quiet small)
      (find_field_loop-Returns (suc buf.len) buf tag 0 quiet)

-- The front part of bytes without that length.
pub NoStall-take : (n : ℕ) (bytes : List ℕ) → NoStall bytes → NoStall (take n bytes)
NoStall-take zero bytes h = tt
NoStall-take (suc n) [] h = tt
NoStall-take (suc zero) (a ∷ []) h = tt
NoStall-take (suc (suc n)) (a ∷ []) h = tt
NoStall-take (suc zero) (a ∷ b ∷ rest) h = tt
NoStall-take (suc (suc n)) (a ∷ b ∷ rest) h = (h.0, NoStall-take (suc n) (b ∷ rest) h.1)

-- Two steps that end.
pub bind_ends :
    {A B : Type 0} (m : Outcome A) (f : A → Outcome B)
    → m ≢ hangs
    → ((a : A) → f a ≢ hangs)
    → (m >>= f) ≢ hangs
bind_ends (ok a) f h g = g a
bind_ends (err e) f h g = λ p. cc
bind_ends fault f h g = λ p. cc
bind_ends hangs f h g = absurd (h refl)
