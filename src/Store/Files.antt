-- ===== src/Store/Files.antt =====
-- central_computer/data_collection.cpp: the directory of a submarine's category, as the list of its
-- regular files in the order in which it is iterated.
pub mod Order
pub mod Today
pub mod Stored
pub mod Rotation
pub mod Plain
pub mod Kept
use embedded_project_pc.Common.{
  ℕ, ◌+◌, ◌==◌, ◌&&◌, ◌||◌, List, [], ◌∷◌, ◌++◌, Bool, true, false, length, ltb, leb, if◌then◌else◌,
}
use embedded_project_pc.Common.Text.{Text, same}
use embedded_project_pc.Protocol.{Outcome, ok, ◌>>=◌}
use embedded_project_pc.Ground.Records.{Measurement, Event}
use embedded_project_pc.Ground.Records.Printed.{PrintedEvent}
use embedded_project_pc.Store.{
  newline, measurement_line, event_line, read_measurement_line, read_event_line,
}

pub record File : Type 0 where
  pub name : Text
  pub content : Text

-- DCA_MAX_FILES
abbrev pub max_files : ℕ
max_files = 7

-- The order of std::sort on the names, which are dates.
unfoldable pub less : Text → Text → Bool
less s [] = false
less [] (b ∷ t) = true
less (a ∷ s) (b ∷ t) = ltb a b || (a == b && less s t)

unfoldable pub insert : File → List File → List File
insert f [] = f ∷ []
insert f (g ∷ files) =
    let later = g ∷ insert f files in if less g.name f.name then later else f ∷ (g ∷ files)

unfoldable pub sort : List File → List File
unfolding insert
sort [] = []
sort (f ∷ files) = insert f (sort files)

-- fs::remove of the file with the name.
unfoldable pub erase : Text → List File → List File
erase name [] = []
erase name (f ∷ files) = let kept = f ∷ erase name files in if same f.name name then files else kept

-- `files.front()` of the sorted files.
unfoldable pub remove_front : List File → List File → List File
unfolding erase
remove_front [] files = files
remove_front (f ∷ sorted) files = erase f.name files

-- RotateIfNeeded
unfoldable pub rotate : List File → List File
unfolding remove_front sort
rotate files = if leb (length files) max_files then files else remove_front (sort files) files

-- The file of the day is opened at its end, and made if there is none.
unfoldable pub write_file : Text → Text → List File → List File
write_file today line [] = record { name = today; content = line } ∷ []
write_file today line (f ∷ files) =
    let behind = f ∷ write_file today line files in
    if same f.name today then record f { content = f.content ++ line } ∷ files else behind

-- AppendLine on the directory; `today` is the name of the day's file.
unfoldable pub append_line : Text → Text → List File → List File
unfolding write_file rotate
append_line today line files = write_file today (line ++ newline ∷ []) (rotate files)

-- The lines that getline gives, less the empty ones; `line` is the one that has begun.
unfoldable pub end_line : Text → List Text → List Text
end_line [] lines = lines
end_line (c ∷ line) lines = (c ∷ line) ∷ lines

unfoldable pub split_lines : Text → Text → List Text
unfolding end_line
split_lines line [] = end_line line []
split_lines line (c ∷ content) =
    let ended = end_line line (split_lines [] content) in
    let longer = split_lines (line ++ c ∷ []) content in if c == newline then ended else longer

unfoldable pub files_lines : List File → List Text
unfolding split_lines
files_lines [] = []
files_lines (f ∷ files) = split_lines [] f.content ++ files_lines files

-- ReadAllLines; a directory that is missing has no files.
unfoldable pub read_all_lines : List File → List Text
unfolding files_lines sort
read_all_lines files = files_lines (sort files)

-- The loop over the lines.
module _ {A : Type 0} (read_line : Text → Outcome (List A)) where
  unfoldable pub read_lines : List Text → Outcome (List A)
  read_lines [] = ok []
  read_lines (line ∷ lines) = do found ← read_line line; more ← read_lines lines; ok (found ++ more)

unfoldable pub store_measurement : Text → Measurement → List File → List File
unfolding append_line
store_measurement today m files = append_line today (measurement_line m) files

unfoldable pub store_event : Text → PrintedEvent → List File → List File
unfolding append_line
store_event today e files = append_line today (event_line e) files

unfoldable pub query_measurements : ℕ → ℕ → List File → Outcome (List Measurement)
unfolding read_lines read_all_lines
query_measurements start end files =
    read_lines (read_measurement_line start end) (read_all_lines files)

unfoldable pub query_events : ℕ → ℕ → List File → Outcome (List Event)
unfolding read_lines read_all_lines
query_events start end files = read_lines (read_event_line start end) (read_all_lines files)
