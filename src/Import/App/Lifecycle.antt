-- ===== src/Import/App/Lifecycle.antt =====
-- The events of one import request (gcimport/src/gcimport/app.py), in their order.
use mathlib.Core.Path.{refl}
use topografisk_gdb_api.Prelude.{
  String, Bool, true, false, not, ◌≡◌, Option, none, some, List, [], ◌∷◌, map, Result, ok, err, All,
  all_of, any_of, ℕ, length,
}
use topografisk_gdb_api.Prelude.Dict
use topografisk_gdb_api.Jobs.Event.{ImportEvent}
use topografisk_gdb_api.Import.Json.{Json}
use topografisk_gdb_api.Import.Profile.{ImportProfile}
use topografisk_gdb_api.Import.Geometry.{Failure, invalid, proj_error, missing_key, index_error}
use topografisk_gdb_api.Import.Feature.{PreparedFeature}
use topografisk_gdb_api.Import.Batches.{
  UpstreamImportError, BatchEvent, succeeded, failed, Progress,
}
use topografisk_gdb_api.Import.Convert.{ConversionError}
use topografisk_gdb_api.Import.Sosi.{SosiParseError, SosiStats}
use topografisk_gdb_api.Import.App.Uploads.{
  read_uploaded_files, UploadFile, UploadError, UploadedImportFile,
}
use topografisk_gdb_api.Import.App.{
  import_failed, Services, has_suffix, is_sosi, converted, checked, load_import_document,
  prepare_import_features, prepare_uploads, batch_event, finish_import, run_import, parsed_sosi,
  decoded, loaded, summarize_upload, summarize_uploads, handle_sosi, handle_features, base_event,
  request_import_id, received, looked_up, handle_import_request, handle_uploads, is_key_error,
}
use topografisk_gdb_api.Import.App.Answer.{
  ImportError, unknown_profile, upload_refused, Ran, publish, ImportResult, features_parsed,
  event_of, completed,
}
use topografisk_gdb_api.Import.App.Closing.{
  Closing, silent, by, IsProgress, IsClosed, if-IsClosed, and_then-IsClosed,
}

-- The event that a result ends with.
abbrev pub handled : Closing
handled = by "import.completed.succeeded"

-- A request that is answered before it starts.
abbrev pub is_refused : Result ImportError ImportResult → Bool
is_refused (err unknown_profile) = true
is_refused (err (upload_refused e)) = true
is_refused _ = false

-- The request's first event, and what follows it.
abbrev pub IsStarted : ImportEvent → Ran ImportResult → Type 0
IsStarted base m =
    (rest : List ImportEvent) × (m.events ≡ event_of base "import.started" "parsing" ∷ rest)
    × IsClosed base handled (record { outcome = m.outcome; events = rest })

-- Why a request starts no import.
pub data Refusal : Type 0 where
  no_profile : Refusal
  unreadable : UploadError → Refusal

abbrev pub answer_to : Refusal → ImportError
answer_to no_profile = unknown_profile
answer_to (unreadable e) = upload_refused e

-- By what the request gives before its import starts.
abbrev pub IsHandled :
    {N : Type 0}
    → String
    → Result Refusal (ImportProfile N × List UploadedImportFile)
    → Ran ImportResult
    → Type 0
IsHandled import_id (err e) m = (m.outcome ≡ err (answer_to e)) × (m.events ≡ [])
IsHandled import_id (ok request) m =
    (base : ImportEvent) × (base.import_id ≡ some import_id) × IsStarted base m

module _ {N : Type 0} (k : Services N) where
  abbrev readable :
      ImportProfile N
      → Result UploadError (List UploadedImportFile)
      → Result Refusal (ImportProfile N × List UploadedImportFile)
  readable profile (err e) = err (unreadable e)
  readable profile (ok uploads) = ok (profile, uploads)

  abbrev of_profile :
      List UploadFile
      → Option (ImportProfile N)
      → Result Refusal (ImportProfile N × List UploadedImportFile)
  of_profile files none = err no_profile
  of_profile files (some profile) = readable profile (read_uploaded_files k.max_upload_bytes files)

  -- The profile that the request names and its files, or why there is none or they cannot be read.
  abbrev pub request_of :
      String → List UploadFile → Result Refusal (ImportProfile N × List UploadedImportFile)
  request_of profile_name files =
      of_profile files (Dict.get (k.checker.casefold profile_name) k.profiles)

  loaded-IsClosed :
      (base : ImportEvent) (o : Option (Json N)) → IsClosed base silent (loaded k base o)
  loaded-IsClosed base (some document) = ([], (tt, refl))
  loaded-IsClosed base none = ([], (tt, (_, refl, refl, refl)))

  load_import_document-IsClosed :
      (base : ImportEvent) (body : List ℕ) → IsClosed base silent (load_import_document k base body)
  unfolding load_import_document
  load_import_document-IsClosed base body = loaded-IsClosed base (k.loads body)

  converted-IsClosed :
      (base : ImportEvent) (r : Result ConversionError (Json N))
      → IsClosed base silent (converted k base r)
  converted-IsClosed base (ok document) = ([], (tt, refl))
  converted-IsClosed base (err e) =
      if-IsClosed base silent (is_key_error k e) _ _ ([], (tt, refl))
        ([], (tt, (_, refl, refl, refl)))

  checked-IsClosed :
      (base : ImportEvent) (r : Result Failure (List (PreparedFeature N)))
      → IsClosed base silent (checked k base r)
  checked-IsClosed base (ok features) = ([], (tt, refl))
  checked-IsClosed base (err (invalid ps)) = ([], (tt, (_, refl, refl, refl)))
  checked-IsClosed base (err proj_error) = ([], (tt, refl))
  checked-IsClosed base (err (missing_key name)) = ([], (tt, refl))
  checked-IsClosed base (err index_error) = ([], (tt, refl))

  prepare_import_features-IsClosed :
      (profile : ImportProfile N) (base : ImportEvent) (filename : Option String)
      (document : Json N)
      → IsClosed base silent (prepare_import_features k profile base filename document)
  unfolding prepare_import_features
  prepare_import_features-IsClosed profile base filename document =
      and_then-IsClosed base silent _ _
        (if-IsClosed base silent (has_suffix k ".geojson" filename) _ _ (converted-IsClosed base _)
          ([], (tt, refl)))
        (λ normalized. checked-IsClosed base _)

  prepare_uploads-IsClosed :
      (profile : ImportProfile N) (base : ImportEvent) (uploads : List UploadedImportFile)
      → IsClosed base silent (prepare_uploads k profile base uploads)
  unfolding prepare_uploads
  prepare_uploads-IsClosed profile base [] = ([], (tt, refl))
  prepare_uploads-IsClosed profile base (upload ∷ uploads) =
      and_then-IsClosed base silent _ _ (load_import_document-IsClosed base upload.body)
        (λ document.
          and_then-IsClosed base silent _ _
            (prepare_import_features-IsClosed profile base upload.filename document)
            (λ features.
              and_then-IsClosed base silent _ _ (prepare_uploads-IsClosed profile base uploads)
                (λ rest. ([], (tt, refl)))))

  batch_events-IsProgress :
      (base : ImportEvent) (total : ℕ) (events : List BatchEvent)
      → All (IsProgress base) (map (batch_event k base total) events)
  batch_events-IsProgress base total [] = tt
  batch_events-IsProgress base total (succeeded c n ids ∷ events) =
      ((refl, (refl, refl)), batch_events-IsProgress base total events)
  batch_events-IsProgress base total (failed c id n reason ∷ events) =
      ((refl, (refl, refl)), batch_events-IsProgress base total events)

  finish_import-IsClosed :
      (base : ImportEvent) (total : ℕ) (r : Result UpstreamImportError (Unit {0}) × Progress)
      → IsClosed base silent (finish_import k base total r)
  finish_import-IsClosed base total (ok _, p) =
      (map (batch_event k base total) p.events, (batch_events-IsProgress base total p.events, refl))
  finish_import-IsClosed base total (err e, p) = (
    map (batch_event k base total) p.events,
    (batch_events-IsProgress base total p.events, (import_failed k base total e, refl, refl, refl)),
  )

  run_import-IsClosed :
      (profile : ImportProfile N) (base : ImportEvent) (features : List (PreparedFeature N))
      → IsClosed base silent (run_import k profile base features)
  unfolding run_import
  run_import-IsClosed profile base features = finish_import-IsClosed base (length features) _

  parsed_sosi-IsClosed :
      (base : ImportEvent) (filename : Option String) (r : Result SosiParseError SosiStats)
      → IsClosed base silent (parsed_sosi k base filename r)
  parsed_sosi-IsClosed base filename (ok stats) = ([], (tt, refl))
  parsed_sosi-IsClosed base filename (err e) = ([], (tt, (_, refl, refl, refl)))

  decoded-IsClosed :
      (base : ImportEvent) (filename o : Option String)
      → IsClosed base silent (decoded k base filename o)
  decoded-IsClosed base filename none = ([], (tt, (_, refl, refl, refl)))
  decoded-IsClosed base filename (some text) = parsed_sosi-IsClosed base filename _

  summarize_upload-IsClosed :
      (base : ImportEvent) (upload : UploadedImportFile)
      → IsClosed base silent (summarize_upload k base upload)
  unfolding summarize_upload
  summarize_upload-IsClosed base upload =
      decoded-IsClosed base upload.filename (k.decode upload.body)

  summarize_uploads-IsClosed :
      (base : ImportEvent) (uploads : List UploadedImportFile)
      → IsClosed base silent (summarize_uploads k base uploads)
  unfolding summarize_uploads
  summarize_uploads-IsClosed base [] = ([], (tt, refl))
  summarize_uploads-IsClosed base (upload ∷ uploads) =
      and_then-IsClosed base silent _ _ (summarize_upload-IsClosed base upload) (λ one.
        and_then-IsClosed base silent _ _ (summarize_uploads-IsClosed base uploads)
          (λ rest. ([], (tt, refl))))

  handle_sosi-IsClosed :
      (base : ImportEvent) (uploads : List UploadedImportFile)
      → IsClosed base handled (handle_sosi k base uploads)
  unfolding handle_sosi
  handle_sosi-IsClosed base uploads =
      if-IsClosed base handled (not (all_of (is_sosi k) uploads)) _ _
        ([], (tt, (_, refl, refl, refl)))
        (and_then-IsClosed base handled _ _ (summarize_uploads-IsClosed base uploads)
          (λ summaries. (_ ∷ [], (((refl, (refl, refl)), tt), (_, refl, refl, refl)))))

  handle_features-IsClosed :
      (profile : ImportProfile N) (base : ImportEvent) (uploads : List UploadedImportFile)
      → IsClosed base handled (handle_features k profile base uploads)
  unfolding handle_features
  handle_features-IsClosed profile base uploads =
      and_then-IsClosed base handled _ _ (prepare_uploads-IsClosed profile base uploads)
        (λ features.
          and_then-IsClosed base handled (publish (features_parsed base (length features))) _
            (features_parsed base (length features) ∷ [], (((refl, (refl, refl)), tt), refl))
            (λ _.
              and_then-IsClosed base handled _ (completed base (length features))
                (run_import-IsClosed profile base features)
                (λ result. ([], (tt, (_, refl, refl, refl))))))

  handle_uploads-IsStarted :
      (profile : ImportProfile N) (base : ImportEvent) (uploads : List UploadedImportFile)
      → IsStarted base (handle_uploads k profile base uploads)
  unfolding handle_uploads
  handle_uploads-IsStarted profile base uploads = (
    _,
    refl,
    if-IsClosed base handled (any_of (is_sosi k) uploads) _ _ (handle_sosi-IsClosed base uploads)
        (handle_features-IsClosed profile base uploads),
  )

  received-IsHandled :
      (profile : ImportProfile N) (requested_id : Option String)
      (r : Result UploadError (List UploadedImportFile))
      → IsHandled
          (request_import_id k requested_id)
          (readable profile r)
          (received k profile requested_id r)
  unfolding base_event
  received-IsHandled profile requested_id (err e) = (refl, refl)
  received-IsHandled profile requested_id (ok uploads) =
      let base = base_event k profile (request_import_id k requested_id) uploads in
      (base, refl, handle_uploads-IsStarted profile base uploads)

  looked_up-IsHandled :
      (requested_id : Option String) (files : List UploadFile) (o : Option (ImportProfile N))
      → IsHandled
          (request_import_id k requested_id)
          (of_profile files o)
          (looked_up k requested_id files o)
  looked_up-IsHandled requested_id files none = (refl, refl)
  looked_up-IsHandled requested_id files (some profile) = received-IsHandled profile requested_id _

  -- A request that names no profile, or whose files cannot be read, is answered with that error and
  -- publishes no event. No other request is answered so; it publishes the start of its import first and then, unless an exception leaves the
  -- handler uncaught, one event that ends the import, as its last one: success where the
  -- request is answered with a result, failure where it is answered with an error. No event in
  -- between ends an import, and all events are of one import, the requested one where one is
  -- requested and a fresh one otherwise.
  pub handle_import_request-IsHandled :
      (profile_name : String) (requested_id : Option String) (files : List UploadFile)
      → IsHandled
          (request_import_id k requested_id)
          (request_of profile_name files)
          (handle_import_request k profile_name requested_id files)
  unfolding handle_import_request
  handle_import_request-IsHandled profile_name requested_id files =
      looked_up-IsHandled requested_id files _
