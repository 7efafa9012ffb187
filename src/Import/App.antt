-- ===== src/Import/App.antt =====
-- gcimport/src/gcimport/app.py: one import request, from its upload to its last event.
-- An answer stands beside the events that were handed to the publisher. Publishing an event that
-- fails is logged and nothing else, so it changes no answer. Of an event, the keys that gcjobs does
-- not read are left out. Parameters: the functions and texts of `Services`.
pub mod Uploads
pub mod Summary
pub mod Answer
pub mod Closing
pub mod Lifecycle
pub mod Quiet
pub mod Bounded
use topografisk_gdb_api.Prelude.{
  ℕ, zero, suc, ◌+◌, String, Bool, true, false, not, ◌&&◌, ◌||◌, Option, none, some, List, [], ◌∷◌,
  ◌++◌, map, ◌==◌, if◌then◌else◌, ltb, eqb, is_some, is_nonempty, length, any_of, all_of, Result,
  ok, err,
}
use topografisk_gdb_api.Prelude.Dict
use topografisk_gdb_api.Prelude.Dict.{Dict}
use topografisk_gdb_api.Prelude.Text.{concat, is_empty, strip, lstrip, rstrip}
use topografisk_gdb_api.Jobs.Event.{ImportEvent, no_keys}
use topografisk_gdb_api.Import.Json.{Json}
use topografisk_gdb_api.Import.Profile.{ImportProfile}
use topografisk_gdb_api.Import.Geometry.{
  Problem, Failure, invalid, proj_error, missing_key, index_error,
}
use topografisk_gdb_api.Import.Feature.{PreparedFeature, Checker}
use topografisk_gdb_api.Import.Document.{prepare_document}
use topografisk_gdb_api.Import.Batches.{
  Upstream, UpstreamImportError, Reason, Imported, BatchEvent, succeeded, failed, Progress,
  import_features,
}
use topografisk_gdb_api.Import.Convert.{ConversionError, no_key, convert_document}
use topografisk_gdb_api.Import.Sosi.{
  SosiParseError, SosiStats, parse_text, summarize_tree, count_up,
}
use topografisk_gdb_api.Import.App.Uploads.{
  UploadFile, UploadedImportFile, UploadError, no_files, file_too_large, files_too_large,
  read_uploaded_files,
}
use topografisk_gdb_api.Import.App.Answer.{
  ImportError, unknown_profile, mixed_uploads, bad_json, bad_text, upload_refused, bad_geojson,
  bad_document, bad_sosi, upstream_failed, uncaught, ImportResult, imported, summarized, Ran,
  returned, raised, after, and_then, event_of, publish, fail, failed_parsing, features_parsed,
  completed,
}
use topografisk_gdb_api.Import.App.Summary.{SosiSummary, add_counts, aggregate, no_summary}

-- What the request uses and does not implement.
pub record Services (N : Type 0) : Type 0 where
  pub checker : Checker N
  pub profiles : Dict (ImportProfile N)
  pub uuid4 : String
  pub suffix : String → String
  pub decode : List ℕ → Option String
  pub loads : List ℕ → Option (Json N)
  pub epsg_code : String → Option String
  pub parse_uuid : String → Option String
  pub parse_token : String → Option N
  pub is_digit : ℕ → Bool
  pub upstream : String → Upstream N
  pub geocomponents_api_url : String
  pub upsert_batch_size : ℕ
  pub max_upload_bytes : ℕ
  pub conversion_text : ConversionError → String
  pub problem_text : Problem → String
  pub reason_text : Reason → String
  pub sosi_text : SosiParseError → String

-- The file names that are given and not empty.
abbrev pub given_names : List UploadedImportFile → List String
given_names [] = []
given_names (u ∷ us) =
    let rest = given_names us in
    elim u.filename [ none ↦ rest | some name ↦ if is_empty name then rest else name ∷ rest ]

abbrev pub only_name : List String → Option String
only_name (name ∷ []) = some name
only_name [] = none
only_name (a ∷ b ∷ names) = none

module _ {N : Type 0} (k : Services N) where
  abbrev pub casefold : String → String
  casefold = k.checker.casefold

  -- `_is_classic_geojson_filename` and `_is_sosi_filename`
  abbrev pub has_suffix : String → Option String → Bool
  has_suffix suffix none = false
  has_suffix suffix (some name) = not (is_empty name) && casefold (k.suffix name) == suffix

  abbrev pub is_sosi : UploadedImportFile → Bool
  is_sosi u = has_suffix ".sos" u.filename

  -- `_request_import_id`
  unfoldable pub request_import_id : Option String → String
  request_import_id none = k.uuid4
  request_import_id (some s) = if is_empty (strip s) then k.uuid4 else strip s

  -- `_base_event`
  unfoldable pub base_event : ImportProfile N → String → List UploadedImportFile → ImportEvent
  base_event profile import_id uploads = record no_keys {
    import_id = some import_id;
    profile = some profile.name;
    dataset_api_path = some profile.dataset_api_path;
    filename = only_name (given_names uploads);
    filenames = some (given_names uploads);
  }

  -- `_dataset_api_url`
  abbrev pub is_slash : ℕ → Bool
  is_slash c = eqb c 47

  unfoldable pub dataset_api_url : ImportProfile N → String
  dataset_api_url profile = concat (
      rstrip is_slash k.geocomponents_api_url
      ∷ "/"
      ∷ rstrip is_slash (lstrip is_slash profile.dataset_api_path)
      ∷ [])

  abbrev pub loaded : ImportEvent → Option (Json N) → Ran (Json N)
  loaded base (some document) = returned document
  loaded base none =
      fail (failed_parsing base "uploaded file must contain valid UTF-8 JSON") bad_json

  -- `_load_import_document`
  unfoldable pub load_import_document : ImportEvent → List ℕ → Ran (Json N)
  load_import_document base body = loaded base (k.loads body)

  -- The handlers of `_prepare_import_features`; a `KeyError` is not caught.
  abbrev pub is_key_error : ConversionError → Bool
  is_key_error (no_key name) = true
  is_key_error _ = false

  abbrev pub converted : ImportEvent → Result ConversionError (Json N) → Ran (Json N)
  converted base (ok document) = returned document
  converted base (err e) =
      if is_key_error e
      then raised uncaught
      else fail (failed_parsing base (k.conversion_text e)) (bad_geojson e)

  abbrev pub checked :
      ImportEvent → Result Failure (List (PreparedFeature N)) → Ran (List (PreparedFeature N))
  checked base (ok features) = returned features
  checked base (err (invalid ps)) =
      fail
        (record (failed_parsing base "invalid JSON-FG document") {
          errors = some (map k.problem_text ps);
        })
        (bad_document ps)
  checked base (err proj_error) = raised uncaught
  checked base (err (missing_key name)) = raised uncaught
  checked base (err index_error) = raised uncaught

  -- `_normalize_upload` and the document check.
  unfoldable pub prepare_import_features :
      ImportProfile N → ImportEvent → Option String → Json N → Ran (List (PreparedFeature N))
  prepare_import_features profile base filename document =
      and_then
        (if has_suffix ".geojson" filename
          then converted base (convert_document casefold profile k.epsg_code none document)
          else returned document)
        (λ normalized. checked base (prepare_document k.checker profile normalized))

  -- The loop of `_prepare_import_features_from_uploads`.
  unfoldable pub prepare_uploads :
      ImportProfile N → ImportEvent → List UploadedImportFile → Ran (List (PreparedFeature N))
  unfolding load_import_document prepare_import_features
  prepare_uploads profile base [] = returned []
  prepare_uploads profile base (upload ∷ uploads) =
      and_then (load_import_document base upload.body) (λ document.
        and_then (prepare_import_features profile base upload.filename document) (λ features.
          and_then (prepare_uploads profile base uploads) (λ rest. returned (features ++ rest))))

  -- `publish_batch_event`
  abbrev pub batch_event : ImportEvent → ℕ → BatchEvent → ImportEvent
  batch_event base total (succeeded collection size ids) =
      record (event_of base "import.batch.succeeded" "importing") {
        total_features = some total;
        collection = some collection;
        batch_size = some size;
      }
  batch_event base total (failed collection id size reason) =
      record (event_of base "import.batch.failed" "importing") {
        total_features = some total;
        collection = some collection;
        feature_id = some id;
        batch_size = some size;
        reason = some (k.reason_text reason);
      }

  abbrev pub import_failed : ImportEvent → ℕ → UpstreamImportError → ImportEvent
  import_failed base total e = record (event_of base "import.completed.failed" "importing") {
    total_features = some total;
    collection = some e.collection;
    feature_id = some e.feature_id;
    reason = some (k.reason_text e.reason);
  }

  abbrev pub finish_import :
      ImportEvent → ℕ → Result UpstreamImportError (Unit {0}) × Progress → Ran ImportResult
  finish_import base total (ok _, p) = record {
    outcome = ok (imported total p.imported);
    events = map (batch_event base total) p.events;
  }
  finish_import base total (err e, p) = record {
    outcome = err (upstream_failed e);
    events = map (batch_event base total) p.events ++ import_failed base total e ∷ [];
  }

  -- `_run_import`
  unfoldable pub run_import :
      ImportProfile N → ImportEvent → List (PreparedFeature N) → Ran ImportResult
  run_import profile base features = finish_import base (length features) (
      import_features k.parse_uuid (k.upstream (dataset_api_url profile)) features
        k.upsert_batch_size)

  abbrev pub parsed_sosi :
      ImportEvent
      → Option String
      → Result SosiParseError SosiStats
      → Ran (Option String × SosiStats)
  parsed_sosi base filename (ok stats) = returned (filename, stats)
  parsed_sosi base filename (err e) = fail (failed_parsing base (k.sosi_text e)) (bad_sosi e)

  abbrev pub stats_of : String → Result SosiParseError SosiStats
  stats_of text = elim (parse_text k.parse_token k.is_digit text) [
    | err e ↦ err e
    | ok tree ↦ ok (summarize_tree tree)
  ]

  abbrev pub decoded : ImportEvent → Option String → Option String → Ran (Option String × SosiStats)
  decoded base filename none =
      fail (failed_parsing base "uploaded SOSI file must contain valid UTF-8 text") bad_text
  decoded base filename (some text) = parsed_sosi base filename (stats_of text)

  unfoldable pub summarize_upload :
      ImportEvent → UploadedImportFile → Ran (Option String × SosiStats)
  summarize_upload base upload = decoded base upload.filename (k.decode upload.body)

  -- The loop of `_summarize_sosi_uploads`.
  unfoldable pub summarize_uploads :
      ImportEvent → List UploadedImportFile → Ran (List (Option String × SosiStats))
  unfolding summarize_upload
  summarize_uploads base [] = returned []
  summarize_uploads base (upload ∷ uploads) =
      and_then (summarize_upload base upload)
        (λ one. and_then (summarize_uploads base uploads) (λ rest. returned (one ∷ rest)))

  -- The part of `_handle_import_request` for SOSI uploads.
  unfoldable pub handle_sosi : ImportEvent → List UploadedImportFile → Ran ImportResult
  unfolding summarize_uploads aggregate
  handle_sosi base uploads =
      if not (all_of is_sosi uploads)
      then fail (failed_parsing base "SOSI uploads cannot be mixed with JSON or GeoJSON uploads")
          mixed_uploads
      else and_then (summarize_uploads base uploads) (λ summaries.
        let result = aggregate summaries no_summary in
        and_then
          (publish (record (event_of base "import.parsed" "completed") {
            total_features = some result.total_objects;
          }))
          (λ _. completed base result.total_objects (summarized result)))

  -- The part for JSON and GeoJSON uploads.
  unfoldable pub handle_features :
      ImportProfile N → ImportEvent → List UploadedImportFile → Ran ImportResult
  unfolding prepare_uploads run_import
  handle_features profile base uploads =
      and_then (prepare_uploads profile base uploads) (λ features.
        let total = length features in
        and_then (publish (features_parsed base total)) (λ _.
          and_then (run_import profile base features) (λ result. completed base total result)))

  -- What follows the reading of the request.
  unfoldable pub handle_uploads :
      ImportProfile N → ImportEvent → List UploadedImportFile → Ran ImportResult
  unfolding handle_sosi handle_features
  handle_uploads profile base uploads =
      and_then (publish (event_of base "import.started" "parsing")) (λ _.
        if any_of is_sosi uploads
        then handle_sosi base uploads
        else handle_features profile base uploads)

  abbrev pub received :
      ImportProfile N
      → Option String
      → Result UploadError (List UploadedImportFile)
      → Ran ImportResult
  received profile requested_id (err e) = raised (upload_refused e)
  received profile requested_id (ok uploads) =
      handle_uploads profile (base_event profile (request_import_id requested_id) uploads) uploads

  abbrev pub looked_up :
      Option String → List UploadFile → Option (ImportProfile N) → Ran ImportResult
  looked_up requested_id files none = raised unknown_profile
  looked_up requested_id files (some profile) =
      received profile requested_id (read_uploaded_files k.max_upload_bytes files)

  -- `_handle_import_request`, on the files of the form.
  unfoldable pub handle_import_request : String → Option String → List UploadFile → Ran ImportResult
  unfolding handle_uploads base_event request_import_id
  handle_import_request profile_name requested_id files =
      looked_up requested_id files (Dict.get (casefold profile_name) k.profiles)
