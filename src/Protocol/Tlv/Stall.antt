-- ===== src/Protocol/Tlv/Stall.antt =====
-- common/protocol.c, Protocol_FindField: when the scan ends. A declared length of 65533 makes the
-- total of a field, cut to uint16_t, 0, and then the scan does not move.
use embedded_project_pc.Common.{
  ℕ, zero, suc, ◌+◌, ◌-◌, ◌%◌, ◌^◌, ◌≤◌, ◌<◌, ◌≡◌, ◌≢◌, refl, ap, List, [], ◌∷◌, ◌++◌, length, drop,
  drop-append, ltb, arith, Bool-cases, inl, inr, ◌∙◌,
}
use embedded_project_pc.Protocol.{IsU16, Outcome, ok, err, fault, hangs, Span}
use embedded_project_pc.Protocol.Bytes.{join_u16, join_u16-lt}
use embedded_project_pc.Protocol.Tlv.{
  find_field, find_field_loop, visit_field, decode_tlv, decode_tlv_header, Tlv,
}

-- The declared length at which the total wraps around to 0.
abbrev pub stall_len : ℕ
stall_len = 65533

-- At a field with that length and another tag, the scan stays where it is: no number of rounds ends
-- it.
pub find_field_loop_stalls :
    (rounds : ℕ) (buf : Span) (pre : List ℕ) (t hi lo : ℕ) (post : List ℕ) (tag : ℕ)
    → buf.bytes ≡ pre ++ t ∷ hi ∷ lo ∷ post
    → join_u16 hi lo ≡ stall_len
    → t ≢ tag
    → length pre + 3 ≤ buf.len
    → IsU16 buf.len
    → find_field_loop rounds buf tag (length pre) ≡ hangs
unfolding find_field_loop decode_tlv decode_tlv_header
find_field_loop_stalls zero buf pre t hi lo post tag e stall ne hn hu = refl
find_field_loop_stalls (suc rounds) buf pre t hi lo post tag e stall ne hn hu =
    let here : drop (length pre) buf.bytes ≡ t ∷ hi ∷ lo ∷ post =
      ap (drop (length pre)) e ∙ drop-append pre (t ∷ hi ∷ lo ∷ post) in
    ground (arith, here, find_field_loop_stalls rounds buf pre t hi lo post tag e stall ne hn hu)

-- No two neighbouring bytes spell that length.
abbrev pub NoStall : List ℕ → Type 0
NoStall [] = Unit {0}
NoStall (a ∷ []) = Unit {0}
NoStall (a ∷ b ∷ rest) = (join_u16 a b ≢ stall_len) × NoStall (b ∷ rest)

pub NoStall-drop : (n : ℕ) (bytes : List ℕ) → NoStall bytes → NoStall (drop n bytes)
NoStall-drop zero bytes h = h
NoStall-drop (suc n) [] h = tt
NoStall-drop (suc n) (a ∷ []) h = NoStall-drop n [] tt
NoStall-drop (suc n) (a ∷ b ∷ rest) h = NoStall-drop n (b ∷ rest) h.1

-- What a decoded field says about the scan: it moves on, within the buffer.
abbrev Moves : ℕ → Outcome Tlv → Type 0
Moves n (ok t) = (0 < t.consumed) × (t.consumed ≤ n)
Moves n (err e) = Unit {0}
Moves n fault = Unit {0}
Moves n hangs = ⊥

decode_tlv-Moves :
    (bytes : List ℕ) (n : ℕ)
    → NoStall bytes
    → Moves n (decode_tlv (record { bytes = bytes; len = n }))
unfolding decode_tlv decode_tlv_header
decode_tlv-Moves [] n h = ground arith
decode_tlv-Moves (t ∷ []) n h = ground arith
decode_tlv-Moves (t ∷ hi ∷ []) n h = ground arith
decode_tlv-Moves (t ∷ hi ∷ lo ∷ value) n h = ground (arith, join_u16-lt hi lo)

visit_field_ends :
    (tag n : ℕ) (next : ℕ → Outcome Span) (o : Outcome Tlv)
    → Moves n o
    → ((k : ℕ) → 0 < k → k ≤ n → next k ≢ hangs)
    → visit_field tag next o ≢ hangs
visit_field_ends tag n next (ok t) m go = ground (arith, go t.consumed)
visit_field_ends tag n next (err e) m go = λ p. cc
visit_field_ends tag n next fault m go = λ p. cc
visit_field_ends tag n next hangs m go = absurd m

find_field_loop_ends :
    (rounds : ℕ) (buf : Span) (tag offset : ℕ)
    → NoStall buf.bytes
    → IsU16 buf.len
    → offset ≤ buf.len
    → buf.len < offset + rounds
    → find_field_loop rounds buf tag offset ≢ hangs
unfolding find_field_loop
find_field_loop_ends zero buf tag offset h hu inside more = absurd (omega arith)
find_field_loop_ends (suc rounds) buf tag offset h hu inside more =
    elim (Bool-cases (ltb offset buf.len)) [
      | inr done ↦ rw done (λ p. cc)
      | inl goes_on ↦ rw goes_on (
          visit_field_ends tag (buf.len - offset) _ _
            (decode_tlv-Moves (drop offset buf.bytes) (buf.len - offset)
              (NoStall-drop offset buf.bytes h))
            (λ k pos bound.
              find_field_loop_ends rounds buf tag ((offset + k) % 2 ^ 16) h hu (omega arith)
                (omega arith)))
    ]

-- On every buffer, well formed or not, in which no two neighbouring bytes spell 65533, the scan ends
-- within its rounds, for every tag.
pub find_field_ends :
    (buf : Span) (tag : ℕ) → NoStall buf.bytes → IsU16 buf.len → find_field buf tag ≢ hangs
unfolding find_field
find_field_ends buf tag h hu =
    find_field_loop_ends (suc buf.len) buf tag 0 h hu (omega arith) (omega arith)
