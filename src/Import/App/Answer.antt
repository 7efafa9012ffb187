-- ===== src/Import/App/Answer.antt =====
-- The answers of an import request, and the events on the way to them (gcimport/src/gcimport/app.py).
use topografisk_gdb_api.Prelude.{ℕ, String, Option, some, List, [], ◌∷◌, ◌++◌, Result, ok, err}
use topografisk_gdb_api.Jobs.Event.{ImportEvent}
use topografisk_gdb_api.Import.Geometry.{Problem}
use topografisk_gdb_api.Import.Batches.{UpstreamImportError, Imported}
use topografisk_gdb_api.Import.Convert.{ConversionError}
use topografisk_gdb_api.Import.Sosi.{SosiParseError}
use topografisk_gdb_api.Import.App.Uploads.{UploadError}
use topografisk_gdb_api.Import.App.Summary.{SosiSummary}

-- What the answers of a request other than its result are, and an exception that is not caught.
pub data ImportError : Type 0 where
  unknown_profile mixed_uploads bad_json bad_text : ImportError
  upload_refused : UploadError → ImportError
  bad_geojson : ConversionError → ImportError
  bad_document : List Problem → ImportError
  bad_sosi : SosiParseError → ImportError
  upstream_failed : UpstreamImportError → ImportError
  uncaught : ImportError

-- The result of an import, and of a request for statistics.
pub data ImportResult : Type 0 where
  imported : ℕ → List (Option Imported) → ImportResult
  summarized : SosiSummary → ImportResult

-- An answer and the events published on the way to it.
pub record Ran (A : Type 0) : Type 0 where
  pub outcome : Result ImportError A
  pub events : List ImportEvent

abbrev pub returned : {A : Type 0} → A → Ran A
returned a = record { outcome = ok a; events = [] }

abbrev pub raised : {A : Type 0} → ImportError → Ran A
raised e = record { outcome = err e; events = [] }

abbrev pub after : {A B : Type 0} → List ImportEvent → Result ImportError A → (A → Ran B) → Ran B
after events (ok a) f = record { outcome = (f a).outcome; events = events ++ (f a).events }
after events (err e) f = record { outcome = err e; events = events }

-- The next step of a request, unless an exception was raised.
abbrev pub and_then : {A B : Type 0} → Ran A → (A → Ran B) → Ran B
and_then m f = after m.events m.outcome f

-- `_import_event`, without extra keys.
abbrev pub event_of : ImportEvent → String → String → ImportEvent
event_of base name phase = record base { event = some name; phase = some phase }

abbrev pub publish : ImportEvent → Ran (Unit {0})
publish e = record { outcome = ok tt; events = e ∷ [] }

-- An event and then an exception.
abbrev pub fail : {A : Type 0} → ImportEvent → ImportError → Ran A
fail e error = record { outcome = err error; events = e ∷ [] }

abbrev pub failed_parsing : ImportEvent → String → ImportEvent
failed_parsing base reason = record (event_of base "import.completed.failed" "parsing") {
  reason = some reason;
}

abbrev pub features_parsed : ImportEvent → ℕ → ImportEvent
features_parsed base total = record (event_of base "import.parsed" "importing") {
  total_features = some total;
}

-- The event of a result, and the result.
abbrev pub completed : ImportEvent → ℕ → ImportResult → Ran ImportResult
completed base total result =
    and_then
      (publish (record (event_of base "import.completed.succeeded" "completed") {
        total_features = some total;
      }))
      (λ _. returned result)
