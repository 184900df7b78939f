-- ===== src/Central/Serving/Shown.antt =====
-- central_computer and ground_station: a keep-alive of the LNC, up to the ground station's output.
use embedded_project_pc.Common.{
  ℕ, ◌≤◌, ◌≡◌, refl, sym, ap, subst, ◌∙◌, List, [], ◌∷◌, ◌++◌, length, inl, All, All-append, arith,
}
use embedded_project_pc.Common.Text.{Text, same_refl}
use embedded_project_pc.Protocol.{IsU32, ok, ◌>>=◌}
use embedded_project_pc.Protocol.Bytes.{put_u16, put_u32}
use embedded_project_pc.Protocol.Tlv.Single.{tlv_bytes}
use embedded_project_pc.Protocol.Tlv.Fields.{fields_bytes}
use embedded_project_pc.Ground.Records.{Measurement}
use embedded_project_pc.Ground.Records.ReadBack.{InRange}
use embedded_project_pc.Ground.Queries.{gs_request_log}
use embedded_project_pc.Ground.Queries.Served.{log_answer, gs_request_log-log_answer}
use embedded_project_pc.Log.{measurement_stored}
use embedded_project_pc.Log.Kept.{keep_alive_fields, print_keep_alive-keep_alive_fields}
use embedded_project_pc.Lnc.Reports.{Report, IsReport}
use embedded_project_pc.Store.Lines.{IsStorable, in_range}
use embedded_project_pc.Store.Files.{rotate, query_measurements, query_events}
use embedded_project_pc.Store.Files.Kept.{IsKept, query_measurements-store_measurement}
use embedded_project_pc.Central.{Streamed, stream_reports}
use embedded_project_pc.Central.Traffic.{traffic, stream_reports-traffic}
use embedded_project_pc.Central.Serving.{Directories, store_all, store_under, found, serve}

in_range-here :
    (start end : ℕ) (m : Measurement)
    → start ≤ m.timestamp
    → m.timestamp ≤ end
    → in_range start end m.timestamp m ≡ m ∷ []
in_range-here start end m h k = ground arith

IsStorable-InRange : (m : Measurement) → IsStorable m → InRange m
IsStorable-InRange m s = record {
  timestamp_u32 = s.timestamp_u32;
  temperature_u16 = s.temperature_u16;
  light_u16 = s.light_u16;
  battery_u16 = s.battery_u16;
}

-- The keep-alive that carries a measurement.
abbrev pub keep_alive_report : Measurement → Report
keep_alive_report m = record {
  tag = 0x11;
  value = fields_bytes (keep_alive_fields m);
  stored = measurement_stored m ∷ [];
}

keep_alive-IsReport : (m : Measurement) → InRange m → IsReport 256 (keep_alive_report m)
unfolding fields_bytes tlv_bytes put_u16 put_u32
keep_alive-IsReport m r = record {
  tag_of_report = inl refl;
  fits = ground arith;
  printed = print_keep_alive-keep_alive_fields m [] r;
}

-- The query of the store, once the measurement is in it.
found_after :
    (m : Measurement) (today submarine_id : Text) (start end : ℕ) (dirs : Text → Directories)
    (before : List Measurement)
    → IsStorable m
    → IsKept today (dirs submarine_id).measurements
    → start ≤ m.timestamp
    → m.timestamp ≤ end
    → query_measurements start end (rotate (dirs submarine_id).measurements) ≡ ok before
    → found (
        query_measurements start end
          (store_under submarine_id today
            (measurement_stored m ∷ [])
            dirs
            submarine_id).measurements)
      ≡ before ++ m ∷ []
unfolding store_under store_all found
found_after m today submarine_id start end dirs before s k h1 h2 e = rw (same_refl submarine_id) (
    ap found (
      query_measurements-store_measurement today m (dirs submarine_id).measurements start end s k
      ∙ ap (λ o. o >>= λ ms. ok (ms ++ in_range start end m.timestamp m)) e)
    ∙ ap (λ l. before ++ l) (in_range-here start end m h1 h2))

-- A keep-alive that comes over the LNC's connection is stored by the streaming loop, and a request of
-- the ground station for a range that has its time then shows its measurement, behind those that a
-- query of this range gives of the directory after its rotation: up to the first 1819 of all these.
-- The measurement is in the range of its types, the directory holds whole lines of no later day, the
-- submarine's id has at most 63 bytes, and the query can read the directory.
pub keep_alive-shown :
    (m : Measurement) (today submarine_id : Text) (start end : ℕ) (dirs : Text → Directories)
    (before : List Measurement)
    → IsStorable m
    → IsKept today (dirs submarine_id).measurements
    → length submarine_id ≤ 63
    → IsU32 start
    → IsU32 end
    → start ≤ m.timestamp
    → m.timestamp ≤ end
    → query_measurements start end (rotate (dirs submarine_id).measurements) ≡ ok before
    → All InRange before
    → (streamed : Streamed) × ((stream_reports (traffic [] (keep_alive_report m ∷ []))
          ≡ ok streamed)
        × (gs_request_log
              (serve (store_under submarine_id today streamed.stored dirs))
              submarine_id
              start
              end
            ≡ ok (log_answer (before ++ m ∷ []))))
unfolding serve
keep_alive-shown m today submarine_id start end dirs before s k short hs he h1 h2 e ranges =
    let range = IsStorable-InRange m s in
    let dirs' = store_under submarine_id today (measurement_stored m ∷ []) dirs in
    let after = found_after m today submarine_id start end dirs before s k h1 h2 e in
    (
      record { stored = measurement_stored m ∷ []; unhandled = [] },
      (
        stream_reports-traffic [] (keep_alive_report m ∷ []) _ (keep_alive-IsReport m range, _),
        gs_request_log-log_answer
              (λ r. found (query_measurements r.start r.end (dirs' r.submarine_id).measurements))
              (λ r. found (query_events r.start r.end (dirs' r.submarine_id).events)) submarine_id
              start end short hs he
              (subst (All InRange) (sym after)
                (All-append InRange before (m ∷ []) ranges (range, _)))
            ∙ ap (λ l. ok (log_answer l)) after,
      ),
    )
