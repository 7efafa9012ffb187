-- ===== src/Tracking/Counted.antt =====
-- The counters of a run, once the events of its import are consumed.
use topografisk_gdb_api.Prelude.{
  ℕ, ◌+◌, ◌≤◌, arith, String, ◌≡◌, refl, ap, ◌∙◌, sym, Bool, true, false, not, Option, none, some,
  List, [], ◌∷◌, ◌++◌, map, All, Result, ok, err, ok_injective, length, if◌then◌else◌, any_of,
  all_of,
}
use topografisk_gdb_api.Jobs.Event.{ImportEvent, run_updates_for_event}
use topografisk_gdb_api.Jobs.Runs.{Run, updated_run}
use topografisk_gdb_api.Jobs.Service.{ImportEventMessage}
use topografisk_gdb_api.Import.Profile.{ImportProfile}
use topografisk_gdb_api.Import.Batches.{
  Imported, BatchEvent, succeeded, failed, UpstreamImportError, Progress, import_features,
}
use topografisk_gdb_api.Import.Batches.Sized.{IsExact, upserted_count, import_features-upserted}
use topografisk_gdb_api.Import.App.{
  Services, batch_event, finish_import, dataset_api_url, run_import, is_sosi, summarize_uploads,
  handle_sosi, prepare_uploads, handle_features, handle_uploads, received, looked_up,
  handle_import_request,
}
use topografisk_gdb_api.Import.App.Answer.{
  ImportError, Ran, and_then, ImportResult, imported, summarized, completed, features_parsed,
}
use topografisk_gdb_api.Import.App.Summary.{SosiSummary, no_summary, aggregate}
use topografisk_gdb_api.Import.App.Uploads.{UploadFile, UploadedImportFile, UploadError}
use topografisk_gdb_api.Import.App.Quiet.{and_then-returned, prepare_uploads-IsQuiet}
use topografisk_gdb_api.Tracking.{events_of, updates_for, apply_messages}

-- What events add to the two counters of features.
abbrev pub succeeded_sum : List ImportEvent → ℕ
succeeded_sum [] = 0
succeeded_sum (e ∷ es) = (updates_for e).succeeded_features + succeeded_sum es

abbrev pub failed_sum : List ImportEvent → ℕ
failed_sum [] = 0
failed_sum (e ∷ es) = (updates_for e).failed_features + failed_sum es

-- The events report `total` features as upserted and none as failed.
abbrev pub IsCounted : ℕ → List ImportEvent → Type 0
IsCounted total events = (succeeded_sum events ≡ total) × (failed_sum events ≡ 0)

sums-append :
    (xs ys : List ImportEvent)
    → (succeeded_sum (xs ++ ys) ≡ succeeded_sum xs + succeeded_sum ys)
      × (failed_sum (xs ++ ys) ≡ failed_sum xs + failed_sum ys)
sums-append [] ys = (omega arith, omega arith)
sums-append (x ∷ xs) ys =
    let rest = sums-append xs ys in (omega (arith, rest.0), omega (arith, rest.1))

pub apply_messages-counted :
    (ms : List ImportEventMessage) (r : Run)
    → ((apply_messages ms r).succeeded_features
        ≡ r.succeeded_features + succeeded_sum (events_of ms))
      × ((apply_messages ms r).failed_features ≡ r.failed_features + failed_sum (events_of ms))
unfolding updated_run
apply_messages-counted [] r = (omega arith, omega arith)
apply_messages-counted (m ∷ ms) r =
    let rest = apply_messages-counted ms (updated_run m.at m.event (updates_for m.event) r) in
    (omega (arith, rest.0), omega (arith, rest.1))

-- Whatever is returned satisfies `P`.
abbrev Outcomes : (ImportResult → Type 0) → Ran ImportResult → Type 0
Outcomes P m = (result : ImportResult) → m.outcome ≡ ok result → P result

if-Outcomes :
    (P : ImportResult → Type 0) (c : Bool) (m n : Ran ImportResult)
    → Outcomes P m
    → Outcomes P n
    → Outcomes P (if c then m else n)
if-Outcomes P true m n h k = h
if-Outcomes P false m n h k = k

abbrev IsSummary : ImportResult → Type 0
IsSummary result = (s : SosiSummary) × (result ≡ summarized s)

-- Where the request imports features, its events count all of them.
abbrev pub IsCountedRun : Ran ImportResult → Type 0
IsCountedRun m =
    (total : ℕ) (slots : List (Option Imported))
    → m.outcome ≡ ok (imported total slots)
    → IsCounted total m.events

if-IsCountedRun :
    (c : Bool) (m n : Ran ImportResult)
    → IsCountedRun m
    → IsCountedRun n
    → IsCountedRun (if c then m else n)
if-IsCountedRun true m n h k = h
if-IsCountedRun false m n h k = k

module _ {N : Type 0} (k : Services N) where
  batch_events-IsCounted :
      (base : ImportEvent) (total : ℕ) (events : List BatchEvent)
      → All IsExact events
      → IsCounted (upserted_count events) (map (batch_event k base total) events)
  unfolding run_updates_for_event
  batch_events-IsCounted base total [] h = (refl, refl)
  batch_events-IsCounted base total (succeeded c n ids ∷ events) (h, hs) =
      let rest = batch_events-IsCounted base total events hs in
      (omega (arith, rest.0), omega (arith, rest.1))
  batch_events-IsCounted base total (failed c i n reason ∷ events) (h, hs) = absurd h

  finish_import-IsCounted :
      (base : ImportEvent) (total : ℕ) (r : Result UpstreamImportError (Unit {0}) × Progress)
      (result : ImportResult)
      → (r.0 ≡ ok tt → All IsExact r.1.events × (upserted_count r.1.events ≡ total))
      → (finish_import k base total r).outcome ≡ ok result
      → (result ≡ imported total r.1.imported)
        × IsCounted total (finish_import k base total r).events
  finish_import-IsCounted base total (ok tt, p) result exact h =
      let (each, whole) = exact refl in
      let counted = batch_events-IsCounted base total p.events each in
      (cc h, (counted.0 ∙ whole, counted.1))
  finish_import-IsCounted base total (err e, p) result exact h = absurd (cc h)

  handle_features-IsCounted :
      (profile : ImportProfile N) (base : ImportEvent) (uploads : List UploadedImportFile)
      (result : ImportResult)
      → 1 ≤ k.upsert_batch_size
      → (handle_features k profile base uploads).outcome ≡ ok result
      → (total : ℕ) × (slots : List (Option Imported)) × (result ≡ imported total slots)
        × IsCounted total (handle_features k profile base uploads).events
  unfolding handle_features run_import run_updates_for_event
  handle_features-IsCounted profile base uploads result positive h =
      let (features, prepared, later, events) =
        and_then-returned (prepare_uploads k profile base uploads) _ result h in
      let total = length features in
      let (tried, run, finished, later_events) =
        and_then-returned (run_import k profile base features) (completed base total) result
          later in
      let upserts =
        import_features k.parse_uuid (k.upstream (dataset_api_url k profile)) features
          k.upsert_batch_size in
      let counted =
        finish_import-IsCounted base total upserts tried
          (λ fine.
            import_features-upserted k.parse_uuid (k.upstream (dataset_api_url k profile)) features
              k.upsert_batch_size positive fine)
          run in
      let parsed = features_parsed base total in
      let rest = and_then (run_import k profile base features) (completed base total) in
      let before = (run_import k profile base features).events in
      let after = (completed base total tried).events in
      let whole : (handle_features k profile base uploads).events ≡ parsed ∷ (before ++ after) =
        events
        ∙ (ap (λ (es : List ImportEvent). es ++ (parsed ∷ rest.events))
              (prepare_uploads-IsQuiet k profile base uploads features prepared)
            ∙ ap (λ (es : List ImportEvent). parsed ∷ es) later_events) in
      let sums = sums-append before after in
      (
        total,
        upserts.1.imported,
        ok_injective {E = ImportError} result tried (sym finished) ∙ counted.0,
        rw whole (omega (arith, sums.0, counted.1.0), omega (arith, sums.1, counted.1.1)),
      )

  handle_sosi-IsSummary :
      (base : ImportEvent) (uploads : List UploadedImportFile)
      → Outcomes IsSummary (handle_sosi k base uploads)
  unfolding handle_sosi
  handle_sosi-IsSummary base uploads =
      if-Outcomes IsSummary (not (all_of (is_sosi k) uploads)) _ _ (λ result h. absurd (cc h))
        (λ result h.
          let (summaries, _, published, _) =
            and_then-returned (summarize_uploads k base uploads) _ result h in
          (aggregate summaries no_summary, sym (ok_injective {E = ImportError} _ result published)))

  handle_sosi-IsCountedRun :
      (base : ImportEvent) (uploads : List UploadedImportFile)
      → IsCountedRun (handle_sosi k base uploads)
  handle_sosi-IsCountedRun base uploads total slots h =
      let (s, same) = handle_sosi-IsSummary base uploads (imported total slots) h in
      absurd (cc same)

  handle_features-IsCountedRun :
      (profile : ImportProfile N) (base : ImportEvent) (uploads : List UploadedImportFile)
      → 1 ≤ k.upsert_batch_size
      → IsCountedRun (handle_features k profile base uploads)
  handle_features-IsCountedRun profile base uploads positive total slots h =
      let (n, _, same, counted) =
        handle_features-IsCounted profile base uploads (imported total slots) positive h in
      let equal : total ≡ n = cc same in (counted.0 ∙ sym equal, counted.1)

  handle_uploads-IsCountedRun :
      (profile : ImportProfile N) (base : ImportEvent) (uploads : List UploadedImportFile)
      → 1 ≤ k.upsert_batch_size
      → IsCountedRun (handle_uploads k profile base uploads)
  unfolding handle_uploads run_updates_for_event
  handle_uploads-IsCountedRun profile base uploads positive total slots h =
      let counted =
        if-IsCountedRun (any_of (is_sosi k) uploads) _ _ (handle_sosi-IsCountedRun base uploads)
          (handle_features-IsCountedRun profile base uploads positive) total slots h in
      (omega (arith, counted.0), omega (arith, counted.1))

  received-IsCountedRun :
      (profile : ImportProfile N) (requested_id : Option String)
      (r : Result UploadError (List UploadedImportFile))
      → 1 ≤ k.upsert_batch_size
      → IsCountedRun (received k profile requested_id r)
  received-IsCountedRun profile requested_id (err e) positive = λ total slots h. absurd (cc h)
  received-IsCountedRun profile requested_id (ok uploads) positive =
      handle_uploads-IsCountedRun profile _ uploads positive

  looked_up-IsCountedRun :
      (requested_id : Option String) (files : List UploadFile) (o : Option (ImportProfile N))
      → 1 ≤ k.upsert_batch_size
      → IsCountedRun (looked_up k requested_id files o)
  looked_up-IsCountedRun requested_id files none positive = λ total slots h. absurd (cc h)
  looked_up-IsCountedRun requested_id files (some profile) positive =
      received-IsCountedRun profile requested_id _ positive

  -- The events of a request that imports features count exactly the imported features as
  -- succeeded and none as failed, whatever their collections and batches, given a positive batch size.
  pub handle_import_request-IsCounted :
      (profile_name : String) (requested_id : Option String) (files : List UploadFile) (total : ℕ)
      (slots : List (Option Imported))
      → 1 ≤ k.upsert_batch_size
      → (handle_import_request k profile_name requested_id files).outcome
        ≡ ok (imported total slots)
      → IsCounted total (handle_import_request k profile_name requested_id files).events
  unfolding handle_import_request
  handle_import_request-IsCounted profile_name requested_id files total slots positive h =
      looked_up-IsCountedRun requested_id files _ positive total slots h
