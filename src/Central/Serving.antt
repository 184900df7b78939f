-- ===== src/Central/Serving.antt =====
-- central_computer: what its parts do together. The reports that come from the LNC are stored, and the
-- ground station's requests are answered from the store.
pub mod Shown
use embedded_project_pc.Common.{ℕ, List, [], ◌∷◌, Bool, true, false, if◌then◌else◌, Option}
use embedded_project_pc.Common.Text.{Text, same}
use embedded_project_pc.Protocol.{Outcome, ok, err, fault, hangs, ◌>>=◌}
use embedded_project_pc.Ground.Records.{Measurement, Event}
use embedded_project_pc.Ground.Requests.{RangeRequest}
use embedded_project_pc.Ground.Replies.{gs_link_dispatch}
use embedded_project_pc.Log.{Stored, measurement_stored, event_stored}
use embedded_project_pc.Store.Files.{
  File, store_measurement, store_event, query_measurements, query_events,
}

-- The two directories of a submarine.
pub record Directories : Type 0 where
  pub measurements : List File
  pub events : List File

-- The calls of the store, in their order, on a day.
unfoldable pub store_all : Text → List Stored → Directories → Directories
store_all today [] dirs = dirs
store_all today (measurement_stored m ∷ calls) dirs =
    store_all today calls
      (record dirs { measurements = store_measurement today m dirs.measurements })
store_all today (event_stored e ∷ calls) dirs =
    store_all today calls (record dirs { events = store_event today e dirs.events })

-- The data directory, with a submarine's directories after the calls.
unfoldable pub store_under : Text → Text → List Stored → (Text → Directories) → Text → Directories
unfolding store_all
store_under submarine_id today calls dirs id =
    if same id submarine_id then store_all today calls (dirs id) else dirs id

-- The records that a query finds. One that reads a number that does not fit is undefined in the
-- source; here it finds nothing.
unfoldable pub found : {A : Type 0} → Outcome (List A) → List A
found (ok records) = records
found (err e) = []
found fault = []
found hangs = []

-- CC_GsLink_Dispatch over the store.
unfoldable pub serve : (Text → Directories) → List ℕ → Outcome (Option (List ℕ))
unfolding found
serve dirs =
    gs_link_dispatch
      (λ r. found (query_measurements r.start r.end (dirs r.submarine_id).measurements))
      (λ r. found (query_events r.start r.end (dirs r.submarine_id).events))
