-- ===== src/Ground/Queries/Answers.antt =====
-- gs_queries.cpp and comm_gs.cpp: a query of the ground station, answered by the central computer.
use embedded_project_pc.Common.{ℕ, ◌+◌, ◌≡◌, refl, List, [], ◌∷◌, map, length, All, arith}
use embedded_project_pc.Protocol.{IsU16, Outcome, ok, Span}
use embedded_project_pc.Protocol.Walk.{walk}
use embedded_project_pc.Protocol.Walk.Whole.{Visits, walk-fields_bytes}
use embedded_project_pc.Protocol.Tlv.Fields.{Field, IsShort, fields_bytes, fields_span, first_value}
use embedded_project_pc.Ground.Records.{read_field, get_u8, field_status}
use embedded_project_pc.Ground.Records.ReadBack.{get_u8-ReadsFront, read_field-first_value}
use embedded_project_pc.Ground.Replies.{status_success, status_no_data_found}
use embedded_project_pc.Ground.Replies.Sent.{status_of}
use embedded_project_pc.Ground.Queries.{QueryResult, no_data, done, read_records}
use embedded_project_pc.Ground.Queries.Reading.{Prints, Prints-Visits}

module _ {A B : Type 0} (visit : ℕ → Span → List B → Outcome (List B)) (tag : ℕ)
    (encode : A → List ℕ) (print : A → B) where
  -- What the query comes to if the central computer found `records` and sent `sent`.
  unfoldable pub answer : List A → List A → QueryResult B
  answer [] sent = no_data
  answer (a ∷ records) sent = done (map print sent)

  abbrev pub reply_fields : ℕ → List A → List Field
  reply_fields status sent = (field_status, status ∷ []) ∷ map (λ a. (tag, encode a)) sent

  status_read :
      (status : ℕ) (sent : List A)
      → All IsShort (reply_fields status sent)
      → IsU16 (length (fields_bytes (reply_fields status sent)))
      → read_field get_u8 (fields_span (reply_fields status sent) []) field_status ≡ ok status
  unfolding get_u8 first_value
  status_read status sent short small =
      read_field-first_value get_u8 (reply_fields status sent) [] (status ∷ []) field_status status
        get_u8-ReadsFront short small refl refl

  -- The walk passes over the status.
  abbrev pub SkipsStatus : Type 0
  SkipsStatus =
      (status : ℕ) (post : List ℕ)
      → visit field_status (record { bytes = status ∷ post; len = 1 }) [] ≡ ok []

  records_read :
      (status : ℕ) (sent : List A)
      → SkipsStatus
      → All (Prints visit tag encode print) sent
      → All IsShort (reply_fields status sent)
      → IsU16 (length (fields_bytes (reply_fields status sent)) + 3)
      → walk visit (fields_span (reply_fields status sent) []) [] ≡ ok (map print sent)
  unfolding Visits
  records_read status sent skips prints short small =
      walk-fields_bytes visit (reply_fields status sent) [] [] (map print sent) short
        (
          [],
          (
            (λ post. skips status post),
            Prints-Visits visit tag encode print sent [] (map print sent) prints refl,
          ),
        )
        small

  pub read_records-answer :
      (records sent : List A)
      → SkipsStatus
      → All (Prints visit tag encode print) sent
      → All IsShort (reply_fields (status_of records) sent)
      → IsU16 (length (fields_bytes (reply_fields (status_of records) sent)) + 3)
      → read_records visit (fields_span (reply_fields (status_of records) sent) [])
        ≡ ok (answer records sent)
  unfolding read_records answer
  read_records-answer [] sent skips prints short small =
      rw (status_read status_no_data_found sent short (omega arith)) refl
  read_records-answer (a ∷ records) sent skips prints short small =
      rw
        (
          status_read status_success sent short (omega arith),
          records_read status_success sent skips prints short small,
        )
        refl
