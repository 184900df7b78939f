-- ===== src/Protocol/Walk/Whole.antt =====
-- The walk over a value that is a sequence of fields visits each of them once, in order.
use embedded_project_pc.Common.{
  ℕ, zero, suc, ◌+◌, ◌%◌, ◌^◌, ◌<◌, ◌≡◌, refl, sym, subst, ap, ◌∙◌, List, [], ◌∷◌, ◌++◌,
  append_assoc, length, length-append, drop, drop-append, All, arith,
}
use embedded_project_pc.Protocol.{IsU16, Outcome, ok, Span}
use embedded_project_pc.Protocol.Bytes.{put_u16, join_u16-put_u16}
use embedded_project_pc.Protocol.Tlv.Single.{tlv_bytes, length-tlv_bytes}
use embedded_project_pc.Protocol.Tlv.Fields.{
  Field, IsShort, fields_bytes, fields_span, length-fields_bytes,
}
use embedded_project_pc.Protocol.Walk.{visit_at, walk_loop, walk}

module _ {S : Type 0} (visit : ℕ → Span → S → Outcome S) where
  -- The visits of the fields, one after the other, whatever lies behind each of them in memory.
  unfoldable pub Visits : List Field → S → S → Type 0
  Visits [] s s' = s ≡ s'
  Visits ((t, v) ∷ fs) s s' =
      (next : S) × (((post : List ℕ)
          → visit t (record { bytes = v ++ post; len = length v }) s ≡ ok next)
        × Visits fs next s')

pub Visits-append :
    {S : Type 0} (visit : ℕ → Span → S → Outcome S) (fs gs : List Field) (s s1 s2 : S)
    → Visits visit fs s s1
    → Visits visit gs s1 s2
    → Visits visit (fs ++ gs) s s2
unfolding Visits
Visits-append visit [] gs s s1 s2 e vs = subst (λ r. Visits visit gs r s2) (sym e) vs
Visits-append visit ((t, v) ∷ fs) gs s s1 s2 (next, (h, hs)) vs =
    (next, (h, Visits-append visit fs gs next s1 s2 hs vs))

visit_at-tlv_bytes :
    {S : Type 0} (visit : ℕ → Span → S → Outcome S) (next : ℕ → S → Outcome S) (offset : ℕ)
    (s s' : S) (t : ℕ) (v post : List ℕ)
    → IsShort (t, v)
    → visit t (record { bytes = v ++ post; len = length v }) s ≡ ok s'
    → visit_at visit next offset s (tlv_bytes t v ++ post)
      ≡ next ((offset + 3 + length v) % 2 ^ 16) s'
unfolding tlv_bytes put_u16
visit_at-tlv_bytes visit next offset s s' t v post short h =
    ground (arith, join_u16-put_u16 (length v) (omega arith), h)

module _ {S : Type 0} (visit : ℕ → Span → S → Outcome S) where
  -- The loop in front of the fields `fs` of a value.
  pub walk_loop-fields_bytes :
      (buf : Span) (pre : List ℕ) (fs : List Field) (post : List ℕ) (rounds : ℕ) (s s' : S)
      → buf.bytes ≡ pre ++ (fields_bytes fs ++ post)
      → All IsShort fs
      → Visits visit fs s s'
      → length pre + length (fields_bytes fs) ≡ buf.len
      → IsU16 (buf.len + 3)
      → length fs < rounds
      → walk_loop visit rounds buf (length pre) s ≡ ok s'
  unfolding walk_loop fields_bytes Visits
  walk_loop-fields_bytes buf pre [] post (suc rounds) s s' e short vs room hu hr = ground arith
  walk_loop-fields_bytes buf pre fs post zero s s' e short vs room hu hr = ground arith
  walk_loop-fields_bytes buf pre ((t, v) ∷ fs) post (suc rounds) s s' e (h, hs) (next, (hv, hvs))
        room hu hr =
      let split : (tlv_bytes t v ++ fields_bytes fs) ++ post
          ≡ tlv_bytes t v ++ (fields_bytes fs ++ post) =
        append_assoc (tlv_bytes t v) (fields_bytes fs) post in
      let here : drop (length pre) buf.bytes ≡ tlv_bytes t v ++ (fields_bytes fs ++ post) =
        ap (drop (length pre)) e
        ∙ drop-append pre ((tlv_bytes t v ++ fields_bytes fs) ++ post)
        ∙ split in
      ground (
        arith,
        split,
        here,
        append_assoc pre (tlv_bytes t v) (fields_bytes fs ++ post),
        length-append pre (tlv_bytes t v),
        length-append (tlv_bytes t v) (fields_bytes fs),
        length-tlv_bytes t v,
        visit_at-tlv_bytes visit (λ offset' s'. walk_loop visit rounds buf offset' s') (length pre)
            s next t v (fields_bytes fs ++ post) h (hv (fields_bytes fs ++ post)),
        walk_loop-fields_bytes buf (pre ++ tlv_bytes t v) fs post rounds next s',
      )

  -- A walk over a value that consists of short fields, each of which is visited well, visits each of
  -- them once and in order.
  pub walk-fields_bytes :
      (fs : List Field) (after : List ℕ) (s s' : S)
      → All IsShort fs
      → Visits visit fs s s'
      → IsU16 (length (fields_bytes fs) + 3)
      → walk visit (fields_span fs after) s ≡ ok s'
  unfolding walk
  walk-fields_bytes fs after s s' short vs hu =
      walk_loop-fields_bytes (fields_span fs after) [] fs after (suc (length (fields_bytes fs))) s
        s' refl short vs (omega arith) hu (omega (arith, length-fields_bytes fs))
