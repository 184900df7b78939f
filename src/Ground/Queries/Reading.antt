-- ===== src/Ground/Queries/Reading.antt =====
-- gs_queries.cpp: the walk over a reply prints every record of it, in order.
use embedded_project_pc.Common.{
  ℕ, ◌≡◌, sym, ap, ◌∙◌, List, [], ◌∷◌, ◌++◌, append_assoc, append-nil, length, All, map,
}
use embedded_project_pc.Protocol.{Outcome, ok, ◌>>=◌, Span}
use embedded_project_pc.Protocol.Tlv.Fields.{Field, fields_bytes}
use embedded_project_pc.Protocol.Walk.Whole.{Visits}
use embedded_project_pc.Ground.Records.{Measurement, Event, field_measurement, field_event}
use embedded_project_pc.Ground.Records.Encoded.{
  measurement_fields, event_fields, measurement_bytes, event_bytes,
}
use embedded_project_pc.Ground.Records.ReadBack.{InRange, read_measurement-measurement_fields}
use embedded_project_pc.Ground.Records.Printed.{printed_event}
use embedded_project_pc.Ground.Records.PrintedBack.{IsInRange, read_event-event_fields}
use embedded_project_pc.Ground.Queries.{visit_measurement, visit_event}

abbrev pub log_fields : List Measurement → List Field
log_fields ms = map (λ m. (field_measurement, fields_bytes (measurement_fields m))) ms

abbrev pub events_fields : List Event → List Field
events_fields es = map (λ e. (field_event, fields_bytes (event_fields e))) es

module _ {A B : Type 0} (visit : ℕ → Span → List B → Outcome (List B)) (tag : ℕ)
    (encode : A → List ℕ) (print : A → B) where
  -- A field that is printed as the record it encodes.
  abbrev pub Prints : A → Type 0
  Prints a =
      (post : List ℕ) (before : List B)
      → visit tag (record { bytes = encode a ++ post; len = length (encode a) }) before
        ≡ ok (before ++ print a ∷ [])

  pub Prints-Visits :
      (records : List A) (before after : List B)
      → All Prints records
      → before ++ map print records ≡ after
      → Visits visit (map (λ a. (tag, encode a)) records) before after
  unfolding Visits
  Prints-Visits [] before after ps e = sym (append-nil before) ∙ e
  Prints-Visits (a ∷ records) before after (p, ps) e = (
    before ++ print a ∷ [],
    (
      (λ post. p post before),
      Prints-Visits records (before ++ print a ∷ []) after ps
          (append_assoc before (print a ∷ []) (map print records) ∙ e),
    ),
  )

pub visit_measurement-Prints :
    (ms : List Measurement)
    → All InRange ms
    → All (Prints visit_measurement field_measurement measurement_bytes (λ m. m)) ms
unfolding visit_measurement
visit_measurement-Prints [] rs = rs
visit_measurement-Prints (m ∷ ms) (r, rs) = (
  (λ post before.
      ap (λ o. o >>= λ m'. ok (before ++ m' ∷ [])) (read_measurement-measurement_fields m post r)),
  visit_measurement-Prints ms rs,
)

pub visit_event-Prints :
    (es : List Event)
    → All IsInRange es
    → All (Prints visit_event field_event event_bytes printed_event) es
unfolding visit_event
visit_event-Prints [] rs = rs
visit_event-Prints (e ∷ es) (r, rs) = (
  (λ post before. ap (λ o. o >>= λ e'. ok (before ++ e' ∷ [])) (read_event-event_fields e post r)),
  visit_event-Prints es rs,
)
