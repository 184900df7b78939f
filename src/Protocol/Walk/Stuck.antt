-- ===== src/Protocol/Walk/Stuck.antt =====
-- A walk that does not end: a field's declared length can bring the offset back to where it was.
use embedded_project_pc.Common.{
  ℕ, zero, suc, ◌+◌, ◌%◌, ◌^◌, ◌≤◌, ◌≡◌, ap, ◌∙◌, List, ◌∷◌, ◌++◌, length, drop, drop-append, arith,
}
use embedded_project_pc.Protocol.{IsU16, Outcome, ok, hangs, Span}
use embedded_project_pc.Protocol.Bytes.{join_u16}
use embedded_project_pc.Protocol.Walk.{walk_loop}

module _ {S : Type 0} (visit : ℕ → Span → S → Outcome S) where
  -- Any number of rounds runs out at a field that declares 65533 bytes, when the visit of that field
  -- succeeds: 3 + 65533 is 0 in the offset's 16 bits.
  pub walk_loop-stalls :
      (buf : Span) (pre : List ℕ) (t : ℕ) (rest : List ℕ) (rounds : ℕ) (s : S)
      → buf.bytes ≡ pre ++ t ∷ 255 ∷ 253 ∷ rest
      → ((s : S) → (s' : S) × (visit t (record { bytes = rest; len = 65533 }) s ≡ ok s'))
      → length pre + 3 ≤ buf.len
      → IsU16 buf.len
      → walk_loop visit rounds buf (length pre) s ≡ hangs
  unfolding walk_loop join_u16
  walk_loop-stalls buf pre t rest zero s e h hl hu = ground arith
  walk_loop-stalls buf pre t rest (suc rounds) s e h hl hu =
      let (s', e') = h s in
      let here : drop (length pre) buf.bytes ≡ t ∷ 255 ∷ 253 ∷ rest =
        ap (drop (length pre)) e ∙ drop-append pre (t ∷ 255 ∷ 253 ∷ rest) in
      let back : (length pre + 3 + 65533) % 2 ^ 16 ≡ length pre = omega arith in
      ground (arith, here, back, e', walk_loop-stalls buf pre t rest rounds s' e h hl hu)
