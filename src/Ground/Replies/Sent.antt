-- ===== src/Ground/Replies/Sent.antt =====
-- comm_gs.cpp: the records that a reply holds.
use embedded_project_pc.Common.{
  ℕ, ◌+◌, ◌≤◌, ◌<◌, ◌≡◌, refl, sym, ap, ◌∙◌, ◌⊎◌, inl, inr, List, [], ◌∷◌, ◌++◌, append_assoc,
  append-nil, map, length, length-append, arith, le_or_lt,
}
use embedded_project_pc.Protocol.{Outcome, ok, ◌>>=◌}
use embedded_project_pc.Protocol.Bytes.{put_u16}
use embedded_project_pc.Protocol.Tlv.{encode_tlv}
use embedded_project_pc.Protocol.Tlv.Single.{tlv_bytes, length-tlv_bytes}
use embedded_project_pc.Protocol.Tlv.Fields.{Field, fields_bytes}
use embedded_project_pc.Ground.Records.{field_status}
use embedded_project_pc.Ground.Replies.{
  append_records, reply_with, status_field, gs_send_raw, wrap_message, gs_resp_max_payload,
  status_success, status_no_data_found,
}

module _ {A : Type 0} (append_record : List ℕ → A → Outcome (List ℕ)) (tag : ℕ)
    (encode : A → List ℕ) (size : ℕ) where
  abbrev pub record_fields : List A → List Field
  record_fields records = map (λ a. (tag, encode a)) records

  -- The encoder adds one field of at most `size` bytes.
  abbrev pub AddsField : Type 0
  AddsField =
      (out : List ℕ) (a : A)
      → (append_record out a ≡ ok (out ++ tlv_bytes tag (encode a)))
        × (3 + length (encode a) ≤ size)

  -- The records `sent` of a payload that starts with `start`: a prefix, which ends early only behind a
  -- payload of more than 60000 bytes.
  pub record IsSent (start : List ℕ) (records sent left : List A) : Type 0 where
    pub split : records ≡ sent ++ left
    pub payload :
        append_records append_record start records ≡ ok (start ++ fields_bytes (record_fields sent))
    pub bounded : length (start ++ fields_bytes (record_fields sent)) ≤ gs_resp_max_payload + size
    pub all_or_full :
        (left ≡ []) ⊎ (gs_resp_max_payload < length (start ++ fields_bytes (record_fields sent)))

  IsSent-none : (start : List ℕ) → length start ≤ gs_resp_max_payload + size → IsSent start [] [] []
  unfolding append_records fields_bytes
  IsSent-none start h = record {
    split = refl;
    payload = ap ok (sym (append-nil start));
    bounded = ground (arith, append-nil start);
    all_or_full = inl refl;
  }

  IsSent-full :
      (start : List ℕ) (a : A) (records : List A)
      → length start ≤ gs_resp_max_payload + size
      → gs_resp_max_payload < length start
      → IsSent start (a ∷ records) [] (a ∷ records)
  unfolding append_records fields_bytes
  IsSent-full start a records h full = record {
    split = refl;
    payload = ground (arith, append-nil start);
    bounded = ground (arith, append-nil start);
    all_or_full = inr (ground (arith, append-nil start));
  }

  IsSent-more :
      (start : List ℕ) (a : A) (records sent left : List A)
      → AddsField
      → length start ≤ gs_resp_max_payload
      → IsSent (start ++ tlv_bytes tag (encode a)) records sent left
      → IsSent start (a ∷ records) (a ∷ sent) left
  unfolding append_records fields_bytes
  IsSent-more start a records sent left adds room s =
      let assoc =
        append_assoc start (tlv_bytes tag (encode a)) (fields_bytes (record_fields sent)) in
      let (added, _) = adds start a in
      record {
        split = ap (λ r. a ∷ r) s.split;
        payload = ground (arith, added, s.payload, assoc);
        bounded = ground (arith, s.bounded, assoc);
        all_or_full = ground (arith, s.all_or_full, assoc);
      }

  -- The loop over the records.
  pub append_records-IsSent :
      (start : List ℕ) (records : List A)
      → AddsField
      → length start ≤ gs_resp_max_payload + size
      → (sent : List A) × ((left : List A) × IsSent start records sent left)
  append_records-IsSent start [] adds h = ([], ([], IsSent-none start h))
  append_records-IsSent start (a ∷ records) adds h =
      elim (le_or_lt (length start) gs_resp_max_payload) [
        | inl room ↦
            let (added, short) = adds start a in
            let longer : length (start ++ tlv_bytes tag (encode a)) ≤ gs_resp_max_payload + size =
              omega (
                arith,
                length-append start (tlv_bytes tag (encode a)),
                length-tlv_bytes tag (encode a),
                short,
              ) in
            let (sent, (left, s)) =
              append_records-IsSent (start ++ tlv_bytes tag (encode a)) records adds longer in
            (a ∷ sent, (left, IsSent-more start a records sent left adds room s))
        | inr full ↦ ([], (a ∷ records, IsSent-full start a records h full))
      ]

-- CC_GsLink's status, and the message around a payload that has it in front.
abbrev pub status_of : {A : Type 0} → List A → ℕ
status_of [] = status_no_data_found
status_of (a ∷ records) = status_success

reply_with-start :
    {A : Type 0} (append_record : List ℕ → A → Outcome (List ℕ)) (reply_tag : ℕ) (records : List A)
    → reply_with append_record reply_tag records ≡ (
        append_records append_record (tlv_bytes field_status (status_of records ∷ [])) records
        >>= λ payload. ok (gs_send_raw (wrap_message reply_tag payload)))
unfolding reply_with status_field encode_tlv tlv_bytes put_u16
reply_with-start append_record reply_tag [] = refl
reply_with-start append_record reply_tag (a ∷ records) = refl

-- A reply holds the status and a prefix of the records.
pub reply_with-IsSent :
    {A : Type 0} (append_record : List ℕ → A → Outcome (List ℕ)) (tag : ℕ) (encode : A → List ℕ)
    (size reply_tag : ℕ) (records : List A)
    → AddsField append_record tag encode size
    → (sent : List A) × ((left : List A) × (IsSent append_record tag encode size
            (tlv_bytes field_status (status_of records ∷ []))
            records
            sent
            left
          × (reply_with append_record reply_tag records
              ≡ ok (
                  gs_send_raw (
                    wrap_message reply_tag (
                      fields_bytes (
                        (field_status, status_of records ∷ [])
                        ∷ record_fields append_record tag encode size sent)))))))
unfolding fields_bytes
reply_with-IsSent append_record tag encode size reply_tag records adds =
    let start = tlv_bytes field_status (status_of records ∷ []) in
    let (sent, (left, s)) =
      append_records-IsSent append_record tag encode size start records adds
        (ground (arith, length-tlv_bytes field_status (status_of records ∷ []))) in
    let reply : List ℕ → Outcome (List ℕ) =
      λ payload. ok (gs_send_raw (wrap_message reply_tag payload)) in
    (
      sent,
      (
        left,
        (s, reply_with-start append_record reply_tag records ∙ ap (λ o. o >>= reply) s.payload),
      ),
    )
