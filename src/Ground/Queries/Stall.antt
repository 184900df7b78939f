-- ===== src/Ground/Queries/Stall.antt =====
-- gs_queries.cpp: a reply that keeps the ground station in its loop for ever.
use embedded_project_pc.Common.{ℕ, zero, suc, ◌≤◌, ◌≡◌, ◌≢◌, refl, List, [], ◌∷◌, ◌++◌, arith}
use embedded_project_pc.Protocol.{IsU16, ok, hangs, Span}
use embedded_project_pc.Protocol.Bytes.{put_u16, join_u16}
use embedded_project_pc.Protocol.Tlv.Single.{tlv_bytes}
use embedded_project_pc.Protocol.Tlv.Fields.{fields_bytes}
use embedded_project_pc.Protocol.Tlv.Found.{find_field-found}
use embedded_project_pc.Protocol.Walk.{walk_loop, walk}
use embedded_project_pc.Protocol.Walk.Stuck.{walk_loop-stalls}
use embedded_project_pc.Ground.Records.{
  Measurement, read_field, get_u8, field_status, field_measurement,
}
use embedded_project_pc.Ground.Queries.{visit_measurement, read_records}

-- A log reply with status success, whose next field has a tag of its own and declares 65533 bytes.
abbrev pub stalling_reply : ℕ → List ℕ → ℕ → Span
stalling_reply t rest len = record {
  bytes = tlv_bytes field_status (0 ∷ []) ++ t ∷ 255 ∷ 253 ∷ rest;
  len = len;
}

status_found :
    (t : ℕ) (rest : List ℕ) (len : ℕ)
    → 7 ≤ len
    → IsU16 len
    → read_field get_u8 (stalling_reply t rest len) field_status ≡ ok 0
unfolding read_field get_u8 fields_bytes tlv_bytes put_u16
status_found t rest len h hu =
    rw
      (
        read_field,
        find_field-found (stalling_reply t rest len) [] (0 ∷ []) (t ∷ 255 ∷ 253 ∷ rest) field_status
            refl (ground arith) (ground arith) (ground arith) (omega arith) hu,
      )
      refl

other_tag :
    (t : ℕ) (value : Span) (s : List Measurement)
    → t ≢ field_measurement
    → visit_measurement t value s ≡ ok s
unfolding visit_measurement
other_tag t value s h = ground arith

-- The loop from the start of the reply: past the status, it stays at the second field.
walk_loop-stalling_reply :
    (t : ℕ) (rest : List ℕ) (len rounds : ℕ)
    → t ≢ field_measurement
    → 7 ≤ len
    → IsU16 len
    → walk_loop visit_measurement rounds (stalling_reply t rest len) 0 [] ≡ hangs
unfolding walk_loop visit_measurement tlv_bytes put_u16 join_u16
walk_loop-stalling_reply t rest len zero ht h hu = refl
walk_loop-stalling_reply t rest len (suc rounds) ht h hu =
    let passes : (s : List Measurement)
        → (s' : List Measurement) × (visit_measurement t (record { bytes = rest; len = 65533 }) s
            ≡ ok s') =
      λ s. (s, other_tag t (record { bytes = rest; len = 65533 }) s ht) in
    ground (
      arith,
      walk_loop-stalls visit_measurement (stalling_reply t rest len)
          (tlv_bytes field_status (0 ∷ [])) t rest rounds [] refl passes h hu,
    )

-- A log reply with status success, whose second field is no measurement and declares 65533 bytes,
-- whatever is there of them; the reply's length is a uint16_t of 7 at least. The status is read as
-- success, and then no number of rounds, however large, brings the loop over the records to an end:
-- from the status field on, the 16-bit offset comes back to the second field in every round. The
-- reading of the reply does not end either.
pub read_records-stalls :
    (t : ℕ) (rest : List ℕ) (len rounds : ℕ)
    → t ≢ field_measurement
    → 7 ≤ len
    → IsU16 len
    → (read_field get_u8 (stalling_reply t rest len) field_status ≡ ok 0)
      × (walk_loop visit_measurement rounds (stalling_reply t rest len) 0 [] ≡ hangs)
      × (read_records visit_measurement (stalling_reply t rest len) ≡ hangs)
unfolding read_records walk
read_records-stalls t rest len rounds ht h hu =
    let status = status_found t rest len h hu in
    let stays = walk_loop-stalling_reply t rest len (suc len) ht h hu in
    (status, walk_loop-stalling_reply t rest len rounds ht h hu, ground (arith, status, stays))
