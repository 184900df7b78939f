-- ===== src/Tests/Stores.antt =====
-- The central computer's store at concrete inputs.
use embedded_project_pc.Common.{
  ℕ, ◌+◌, ◌≤◌, ◌<◌, ◌≡◌, ◌⊎◌, refl, List, [], ◌∷◌, ◌++◌, length, inr, arith,
}
use embedded_project_pc.Common.Text.{Text}
use embedded_project_pc.Protocol.{ok, ◌>>=◌}
use embedded_project_pc.Ground.Records.Printed.{printed_event}
use embedded_project_pc.Store.{
  measurement_line, newline, put_digits, print_unsigned, print_int16, sample_line,
}
use embedded_project_pc.Store.Lines.{IsStorable, in_range}
use embedded_project_pc.Store.EventLines.{IsStorableEvent, event_back}
use embedded_project_pc.Store.Files.{
  File, max_files, rotate, erase, append_line, less, store_measurement, store_event,
  query_measurements, query_events,
}
use embedded_project_pc.Store.Files.Rotation.{Least, rotate-oldest, length-append_line}
use embedded_project_pc.Store.Files.Kept.{
  IsKept, append_line-IsKept, query_measurements-store_measurement, query_events-store_event,
}
use embedded_project_pc.Ground.Queries.{gs_request_log}
use embedded_project_pc.Ground.Queries.Served.{log_answer}
use embedded_project_pc.Store.Files.{read_all_lines, files_lines, sort, read_lines}
use embedded_project_pc.Central.{Streamed, stream_reports}
use embedded_project_pc.Central.Traffic.{traffic}
use embedded_project_pc.Central.Serving.{Directories, store_under, serve}
use embedded_project_pc.Central.Serving.Shown.{keep_alive_report, keep_alive-shown}
use embedded_project_pc.Tests.Queries.{reading, alarm}

-- "1700000000,-10,40,4095,3300,1"
abbrev reading_line : Text
reading_line =
    49 ∷ 55 ∷ 48 ∷ 48 ∷ 48 ∷ 48 ∷ 48 ∷ 48 ∷ 48 ∷ 48 ∷ 44 ∷ 45 ∷ 49 ∷ 48 ∷ 44 ∷ 52 ∷ 48 ∷ 44 ∷ 52
    ∷ 48 ∷ 57 ∷ 53 ∷ 44 ∷ 51 ∷ 51 ∷ 48 ∷ 48 ∷ 44 ∷ 49 ∷ []

measurement_line_run : measurement_line reading ≡ reading_line
unfolding measurement_line print_unsigned print_int16 put_digits sample_line
measurement_line_run = refl

reading-IsStorable : IsStorable reading
reading-IsStorable = record {
  timestamp_u32 = omega arith;
  temperature_u16 = omega arith;
  humidity_u8 = omega arith;
  light_u16 = omega arith;
  battery_u16 = omega arith;
  mode_u8 = omega arith;
}

alarm-IsStorableEvent : IsStorableEvent (printed_event alarm)
unfolding printed_event
alarm-IsStorableEvent = record {
  timestamp_u32 = omega arith;
  event_type_u8 = omega arith;
  event_source_u8 = omega arith;
  sample_storable = record {
    temperature_u16 = omega arith;
    humidity_u8 = omega arith;
    light_u16 = omega arith;
    battery_u16 = omega arith;
    mode_u8 = omega arith;
  };
}

-- Names of days: one digit stands for a date.
abbrev day : ℕ → Text
day d = (48 + d) ∷ []

abbrev file : ℕ → File
file d = record { name = day d; content = 120 ∷ newline ∷ [] }

abbrev two_files : List File
two_files = file 2 ∷ file 1 ∷ []

two_files-IsKept : IsKept (day 2) two_files
unfolding less
two_files-IsKept = record {
  dated = inr (refl, (refl, _));
  whole = (inr (120 ∷ [], refl), (inr (120 ∷ [], refl), _));
}

append_line-IsKept_example : IsKept (day 2) (append_line (day 2) reading_line two_files)
append_line-IsKept_example = append_line-IsKept (day 2) reading_line two_files two_files-IsKept

query_measurements-store_measurement_example :
    query_measurements 0 1700000000 (store_measurement (day 2) reading two_files) ≡ (
      query_measurements 0 1700000000 (rotate two_files) >>= λ ms.
      ok (ms ++ in_range 0 1700000000 1700000000 reading))
query_measurements-store_measurement_example =
    query_measurements-store_measurement (day 2) reading two_files 0 1700000000 reading-IsStorable
      two_files-IsKept

query_events-store_event_example :
    query_events 0 1700000001 (store_event (day 2) (printed_event alarm) two_files) ≡ (
      query_events 0 1700000001 (rotate two_files) >>= λ es. ok (
        es
        ++ in_range 0 1700000001 (printed_event alarm).timestamp (
            event_back
              (printed_event alarm).timestamp
              (printed_event alarm).event_type
              (printed_event alarm).event_source
              (printed_event alarm).sample)))
query_events-store_event_example =
    query_events-store_event (day 2) (printed_event alarm) two_files 0 1700000001
      alarm-IsStorableEvent two_files-IsKept

-- Eight files, of which the third one is the oldest.
abbrev eight_files : List File
eight_files = file 2 ∷ file 3 ∷ file 1 ∷ file 4 ∷ file 5 ∷ file 6 ∷ file 7 ∷ file 8 ∷ []

rotate-oldest_example :
    ((length eight_files ≤ max_files) × (rotate eight_files ≡ eight_files))
    ⊎ ((max_files < length eight_files)
        × ((f : File) × (Least f eight_files
              × ((rotate eight_files ≡ erase f.name eight_files)
                  × (length (rotate eight_files) + 1 ≡ length eight_files)))))
rotate-oldest_example = rotate-oldest eight_files

length-append_line_example : length (append_line (day 9) reading_line eight_files) ≤ max_files + 1
length-append_line_example = length-append_line (day 9) reading_line eight_files (ground arith)

-- "LNC-01", with nothing stored yet.
abbrev lnc_id : Text
lnc_id = 76 ∷ 78 ∷ 67 ∷ 45 ∷ 48 ∷ 49 ∷ []

abbrev nothing_stored : Text → Directories
nothing_stored id = record { measurements = []; events = [] }

nothing_found : query_measurements 0 1700000000 (rotate []) ≡ ok []
unfolding query_measurements rotate read_all_lines files_lines sort read_lines
nothing_found = refl

keep_alive-shown_example :
    (streamed : Streamed) × ((stream_reports (traffic [] (keep_alive_report reading ∷ []))
        ≡ ok streamed)
      × (gs_request_log
            (serve (store_under lnc_id (day 2) streamed.stored nothing_stored))
            lnc_id
            0
            1700000000
          ≡ ok (log_answer ([] ++ reading ∷ []))))
keep_alive-shown_example =
    keep_alive-shown reading (day 2) lnc_id 0 1700000000 nothing_stored [] reading-IsStorable
      (record { dated = _; whole = _ }) (omega arith) (omega arith) (omega arith) (omega arith)
      (omega arith) nothing_found _
