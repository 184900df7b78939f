-- ===== src/Store/Files/Kept.antt =====
-- data_collection.cpp: what is stored is what a query gives.
use embedded_project_pc.Common.{
  ℕ, ◌≡◌, refl, sym, ap, ◌∙◌, List, [], ◌∷◌, ◌++◌, append_assoc, append-nil, true, false,
  if◌then◌else◌, All, inl, inr, arith,
}
use embedded_project_pc.Common.Text.{Text, same, same_refl}
use embedded_project_pc.Protocol.{Outcome, ok, err, fault, hangs, ◌>>=◌}
use embedded_project_pc.Ground.Records.{Measurement}
use embedded_project_pc.Ground.Records.Printed.{PrintedEvent}
use embedded_project_pc.Store.{
  newline, measurement_line, event_line, read_measurement_line, read_event_line,
}
use embedded_project_pc.Store.Lines.{IsStorable, in_range, read_measurement_line-measurement_line}
use embedded_project_pc.Store.EventLines.{IsStorableEvent, event_back, read_event_line-event_line}
use embedded_project_pc.Store.Files.{
  File, rotate, write_file, append_line, read_all_lines, read_lines, store_measurement, store_event,
  query_measurements, query_events,
}
use embedded_project_pc.Store.Files.Today.{Dated, Earlier-same}
use embedded_project_pc.Store.Files.Stored.{Whole, IsLine, read_all_lines-write_file}
use embedded_project_pc.Store.Files.Rotation.{rotate-Dated, rotate-All}
use embedded_project_pc.Store.Files.Plain.{measurement_line-IsLine, event_line-IsLine}

-- A line behind the others that is read as `found`.
read_lines-last :
    {A : Type 0} (read_line : Text → Outcome (List A)) (lines : List Text) (line : Text)
    (found : List A)
    → read_line line ≡ ok found
    → read_lines read_line (lines ++ line ∷ [])
      ≡ (read_lines read_line lines >>= λ xs. ok (xs ++ found))
unfolding read_lines
read_lines-last read_line [] line found e = rw e (ap ok (append-nil found))
read_lines-last {A = A} read_line (l ∷ lines) line found e =
    ap (λ o. read_line l >>= λ xs. o >>= λ ys. ok (xs ++ ys))
      (read_lines-last read_line lines line found e)
    ∙ regroup (read_line l) (read_lines read_line lines)
  where
    regroup :
        (first rest : Outcome (List A))
        → (first >>= λ xs. (rest >>= λ ys. ok (ys ++ found)) >>= λ zs. ok (xs ++ zs))
          ≡ ((first >>= λ xs. rest >>= λ ys. ok (xs ++ ys)) >>= λ zs. ok (zs ++ found))
    regroup (ok xs) (ok ys) = ap ok (sym (append_assoc xs ys found))
    regroup (ok xs) (err x) = refl
    regroup (ok xs) fault = refl
    regroup (ok xs) hangs = refl
    regroup (err x) rest = refl
    regroup fault rest = refl
    regroup hangs rest = refl

-- A directory whose files hold whole lines, none of a day later than `today`.
pub record IsKept (today : Text) (files : List File) : Type 0 where
  pub dated : Dated today files
  pub whole : All (λ (f : File). Whole f.content) files

Whole-line : (content line : Text) → Whole (content ++ (line ++ newline ∷ []))
Whole-line content line = inr (content ++ line, sym (append_assoc content line (newline ∷ [])))

write_file-Whole :
    (today line : Text) (files : List File)
    → All (λ (f : File). Whole f.content) files
    → All (λ (f : File). Whole f.content) (write_file today (line ++ newline ∷ []) files)
unfolding write_file
write_file-Whole today line [] h = (Whole-line [] line, _)
write_file-Whole today line (f ∷ files) (h, hs) =
    elim (same f.name today)
      as (λ b.
        All (λ (g : File). Whole g.content)
          (if b
            then record f { content = f.content ++ (line ++ newline ∷ []) } ∷ files
            else f ∷ write_file today (line ++ newline ∷ []) files)) [
              | true ↦ (Whole-line f.content line, hs)
              | false ↦ (h, write_file-Whole today line files hs)
            ]

write_file-Dated :
    (today line : Text) (files : List File)
    → Dated today files
    → Dated today (write_file today line files)
unfolding write_file
write_file-Dated today line [] h = inr (refl, _)
write_file-Dated today line (f ∷ files) (inl (e, h)) =
    elim (same f.name today)
        as (λ b.
          same f.name today ≡ b
          → Dated today (
              if b
              then record f { content = f.content ++ line } ∷ files
              else f ∷ write_file today line files)) [
                | true ↦ (λ t. absurd (ground (arith, t, Earlier-same today f e)))
                | false ↦ (λ t. inl (e, write_file-Dated today line files h))
              ]
      refl
write_file-Dated today line (f ∷ files) (inr (e, h)) =
    let here : same f.name today ≡ true = ap (λ n. same n today) e ∙ same_refl today in
    rw here (inr (e, h))

-- Storing a line of the day keeps the directory well-formed: its files hold whole lines, one file at
-- most is of this day, and none of a later one.
pub append_line-IsKept :
    (today line : Text) (files : List File)
    → IsKept today files
    → IsKept today (append_line today line files)
unfolding append_line
append_line-IsKept today line files k = record {
  dated =
      write_file-Dated today (line ++ newline ∷ []) (rotate files)
        (rotate-Dated today files k.dated);
  whole =
      write_file-Whole today line (rotate files)
        (rotate-All (λ (f : File). Whole f.content) files k.whole);
}

append_line-read :
    (today line : Text) (files : List File)
    → IsKept today files
    → IsLine line
    → read_all_lines (append_line today line files) ≡ read_all_lines (rotate files) ++ line ∷ []
unfolding append_line
append_line-read today line files k h =
    read_all_lines-write_file today line (rotate files) (rotate-Dated today files k.dated)
      (rotate-All (λ (f : File). Whole f.content) files k.whole) h

-- A measurement that DCA_StoreMeasurement stores is the last one that DCA_QueryMeasurements gives, if
-- its time is in the range, and is passed over otherwise. In front of it stands what the query gives
-- of the directory after its rotation. The members are in the range of their types, the files hold
-- whole lines, and none is of a later day.
pub query_measurements-store_measurement :
    (today : Text) (m : Measurement) (files : List File) (start end : ℕ)
    → IsStorable m
    → IsKept today files
    → query_measurements start end (store_measurement today m files) ≡ (
        query_measurements start end (rotate files) >>= λ ms.
        ok (ms ++ in_range start end m.timestamp m))
unfolding query_measurements store_measurement
query_measurements-store_measurement today m files start end s k =
    ap (read_lines (read_measurement_line start end))
      (append_line-read today (measurement_line m) files k (measurement_line-IsLine m))
    ∙ read_lines-last (read_measurement_line start end) (read_all_lines (rotate files))
        (measurement_line m) (in_range start end m.timestamp m)
        (read_measurement_line-measurement_line start end m s)

-- The same of an event, DCA_StoreEvent and DCA_QueryEvents; its measurement comes back with the
-- event's time.
pub query_events-store_event :
    (today : Text) (e : PrintedEvent) (files : List File) (start end : ℕ)
    → IsStorableEvent e
    → IsKept today files
    → query_events start end (store_event today e files) ≡ (
        query_events start end (rotate files) >>= λ es. ok (
          es
          ++ in_range start end e.timestamp
              (event_back e.timestamp e.event_type e.event_source e.sample)))
unfolding query_events store_event
query_events-store_event today e files start end s k =
    ap (read_lines (read_event_line start end))
      (append_line-read today (event_line e) files k (event_line-IsLine e))
    ∙ read_lines-last (read_event_line start end) (read_all_lines (rotate files)) (event_line e)
        (in_range start end e.timestamp
          (event_back e.timestamp e.event_type e.event_source e.sample))
        (read_event_line-event_line start end e s)
