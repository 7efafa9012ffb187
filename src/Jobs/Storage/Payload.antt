-- ===== src/Jobs/Storage/Payload.antt =====
-- gcjobs/src/gcjobs/storage.py: job payloads, the job list and its filters, and job results.
-- Parameters: `str.casefold`; the RFC 3339 text of a timestamp (`_rfc3339_timestamp` on the
-- datetimes of the table); and `round((processed / total) * 100)` in floating point.
use topografisk_gdb_api.Prelude.{
  ℕ, ltb, String, Bool, false, ◌&&◌, not, Option, none, some, List, [], ◌∷◌, map, ◌==◌,
  if◌then◌else◌, keep, take, is_nonempty, Result, ok, err, ◌>>=◌, is_some,
}
use topografisk_gdb_api.Prelude.Int.{ℤ}
use topografisk_gdb_api.Jobs.Runs.{Run, Database, get_import_run, list_import_runs}
use topografisk_gdb_api.Jobs.Storage.{
  JobQuery, JobPayloadSettings, HttpError, http_error, JobRun, JobPayload, JobSummary, JobList,
  in_values, is_phase, map_status, service_link, job_links, normalized_filenames,
  run_with_filenames, job_message, clamp_percent,
}

module _ (casefold : String → String) where
  -- `_dataset_matches_run`
  unfoldable pub dataset_matches_run : Run → String → Bool
  dataset_matches_run r dataset_name = elim r.profile [
    | none ↦ false
    | some profile ↦ casefold profile == casefold dataset_name
  ]

  -- `_require_dataset_run`
  unfoldable pub require_dataset_run : String → String → Database → Result HttpError Run
  unfolding dataset_matches_run
  require_dataset_run dataset_name job_id db = elim (get_import_run job_id db) [
    | none ↦ err (http_error 404 "job not found")
    | some r ↦
        if dataset_matches_run r dataset_name then ok r else err (http_error 404 "job not found")
  ]

module _ (rfc3339 : ℕ → String) (round_percent : ℕ → ℕ → ℤ) where
  unfoldable pub progress_of : Run → Option ℕ
  unfolding clamp_percent
  progress_of r = elim r.total_features [
    | none ↦ none
    | some total ↦
        if ltb 0 total
        then some (clamp_percent (round_percent r.processed_features total))
        else none
  ]

  -- `_job_payload`
  unfoldable pub job_payload : JobRun → String → JobPayloadSettings → JobPayload
  unfolding progress_of map_status job_links normalized_filenames job_message
  job_payload j base_url settings =
      let r = j.run in
      let status = map_status r in
      record {
        type_name = settings.process_job_type;
        job_id = r.id;
        status = status;
        links = job_links r base_url settings.results_rel;
        updated = some (rfc3339 r.last_event_at);
        phase = r.phase;
        total_features = r.total_features;
        processed_features = r.processed_features;
        succeeded_features = r.succeeded_features;
        failed_features = r.failed_features;
        processed_batches = r.processed_batches;
        succeeded_batches = r.succeeded_batches;
        failed_batches = r.failed_batches;
        process_id = settings.import_process_id;
        progress = progress_of r;
        created = some (rfc3339 r.started_at);
        started =
            if is_some r.phase && not (is_phase "accepted" r.phase)
            then some (rfc3339 r.started_at)
            else none;
        finished = elim r.completed_at [ none ↦ none | some at ↦ some (rfc3339 at) ];
        last_error = r.last_error;
        filenames = normalized_filenames j.filenames;
        message = job_message status r.last_error;
      }

-- `_filter_jobs`: an empty set of values filters nothing.
abbrev pub filter_by : List String → (JobPayload → String) → List JobPayload → List JobPayload
filter_by values key jobs =
    if is_nonempty values then keep (λ (j : JobPayload). in_values values (key j)) jobs else jobs

unfoldable pub filter_jobs :
    List JobPayload → List String → List String → List String → List JobPayload
filter_jobs jobs type_values process_ids statuses =
    filter_by statuses (λ j. j.status)
      (filter_by process_ids (λ j. j.process_id) (filter_by type_values (λ j. j.type_name) jobs))

-- `_job_results_payload`
unfoldable pub job_results_payload : JobRun → JobSummary
unfolding normalized_filenames
job_results_payload j =
    let r = j.run in
    record {
      job_id = r.id;
      processed_features = r.processed_features;
      succeeded_features = r.succeeded_features;
      failed_features = r.failed_features;
      processed_batches = r.processed_batches;
      succeeded_batches = r.succeeded_batches;
      failed_batches = r.failed_batches;
      total_features = r.total_features;
      completed = r.completed_at;
      filenames = normalized_filenames j.filenames;
    }

abbrev pub without_filenames : Run → JobRun
without_filenames r = record { run = r; filenames = none }

module _ (casefold : String → String) where
  unfoldable pub get_dataset_job_results : String → String → Database → Result HttpError JobSummary
  get_dataset_job_results dataset_name job_id db =
      require_dataset_run casefold dataset_name job_id db >>= λ r.
      let j = run_with_filenames (without_filenames r) db in
      let mapped_status = map_status j.run in
      if in_values ("accepted" ∷ "running" ∷ []) mapped_status
      then err (http_error 404 "job results are not ready")
      else if mapped_status == "failed"
      then err (
          http_error 422
            (elim j.run.last_error.reason [ none ↦ "job failed" | some reason ↦ reason ]))
      else ok (job_results_payload j)

module _ (casefold : String → String) (rfc3339 : ℕ → String) (round_percent : ℕ → ℕ → ℤ) where
  unfoldable pub get_dataset_job :
      String → String → String → JobPayloadSettings → Database → Result HttpError JobPayload
  get_dataset_job dataset_name job_id base_url settings db =
      require_dataset_run casefold dataset_name job_id db >>= λ r. ok (
        job_payload rfc3339 round_percent (run_with_filenames (without_filenames r) db) base_url
          settings)

  unfoldable pub list_dataset_jobs :
      (List Run → List Run) → JobQuery → JobPayloadSettings → Database → JobList
  unfolding dataset_matches_run job_payload filter_jobs
  list_dataset_jobs order query settings db =
      let filtered =
        if is_nonempty query.process_ids
          && not (in_values query.process_ids settings.import_process_id)
        then []
        else if is_nonempty query.type_values
            && not (in_values query.type_values settings.process_job_type)
        then []
        else filter_jobs
            (map
              (λ r. job_payload rfc3339 round_percent (without_filenames r) query.base_url settings)
              (keep (λ r. dataset_matches_run casefold r query.dataset_name)
                (list_import_runs order false 10000 db)))
            query.type_values query.process_ids query.statuses in
      record {
        jobs = take query.limit filtered;
        links = service_link query.public_url "self" "This document" ∷ [];
      }
