-- ===== src/Jobs/Storage/Results.antt =====
-- Job status, progress and results (`_map_status`, `_job_payload`, `get_dataset_job` and
-- `get_dataset_job_results` of gcjobs/src/gcjobs/storage.py).
use topografisk_gdb_api.Prelude.{
  ℕ, ◌≤◌, ◌<◌, String, ◌≡◌, refl, true, false, Option, none, some, arith, if◌then◌else◌, Result, ok,
  err, ◌==◌, inl, inr, or_zero, ◌∷◌, [], ◌⊎◌, ◌∙◌, sym,
}
use topografisk_gdb_api.Prelude.Int.{ℤ}
use topografisk_gdb_api.Jobs.Event.{RunStatus}
use topografisk_gdb_api.Jobs.Runs.{Run, Database, get_import_run}
use topografisk_gdb_api.Jobs.Storage.{
  HttpError, http_error, JobPayloadSettings, JobRun, JobSummary, in_values, map_status,
  run_with_filenames,
}
use topografisk_gdb_api.Jobs.Storage.Payload.{
  dataset_matches_run, require_dataset_run, job_payload, job_results_payload, get_dataset_job,
  get_dataset_job_results, without_filenames,
}

-- The reason of a failed job's 422 answer.
abbrev pub failure_detail : Run → String
failure_detail r = elim r.last_error.reason [ none ↦ "job failed" | some reason ↦ reason ]

run_with_filenames-run : (j : JobRun) (db : Database) → (run_with_filenames j db).run ≡ j.run
unfolding run_with_filenames
run_with_filenames-run j db = ground arith

required :
    (casefold : String → String) (dataset job_id : String) (db : Database) {r : Run}
    → get_import_run job_id db ≡ some r
    → require_dataset_run casefold dataset job_id db ≡ (
        if dataset_matches_run casefold r dataset
        then ok r
        else err (http_error 404 "job not found"))
unfolding require_dataset_run
required casefold dataset job_id db found = rw (require_dataset_run, found) refl

-- What the results of a run are, by its status.
abbrev pub results_for : RunStatus → Run → Database → Result HttpError JobSummary
results_for RunStatus.completed r db =
    ok (job_results_payload (run_with_filenames (without_filenames r) db))
results_for RunStatus.failed r db = err (http_error 422 (failure_detail r))
results_for RunStatus.running r db = err (http_error 404 "job results are not ready")

-- A status is one text where its run has ended, and else one of two.
map_status-text : (r : Run) → (s : RunStatus) → r.status ≡ s → elim s as (λ _. Type 0) [
  | RunStatus.completed ↦ map_status r ≡ "successful"
  | RunStatus.failed ↦ map_status r ≡ "failed"
  | RunStatus.running ↦ (map_status r ≡ "accepted") ⊎ (map_status r ≡ "running")
]
unfolding map_status
map_status-text r RunStatus.completed e = rw (map_status, e) refl
map_status-text r RunStatus.failed e = rw (map_status, e) refl
map_status-text r RunStatus.running e = ground arith

module _ (casefold : String → String) (dataset job_id : String) (db : Database) where
  denied-job :
      (rfc3339 : ℕ → String) (round_percent : ℕ → ℕ → ℤ) (base_url : String)
      (settings : JobPayloadSettings) (d : Database) (e : HttpError)
      → require_dataset_run casefold dataset job_id d ≡ err e
      → get_dataset_job casefold rfc3339 round_percent dataset job_id base_url settings d ≡ err e
  unfolding get_dataset_job
  denied-job rfc3339 round_percent base_url settings d e denied = rw denied refl

  denied-results :
      (d : Database) (e : HttpError)
      → require_dataset_run casefold dataset job_id d ≡ err e
      → get_dataset_job_results casefold dataset job_id d ≡ err e
  unfolding get_dataset_job_results
  denied-results d e denied = rw denied refl

  -- A job that belongs to another dataset, or to none, cannot be told from one that is not there: the
  -- job and its results answer as they do on tables without the job, with 404 "job not found".
  pub foreign_job-hidden :
      (rfc3339 : ℕ → String) (round_percent : ℕ → ℕ → ℤ) (base_url : String)
      (settings : JobPayloadSettings) (r : Run) (without : Database)
      → get_import_run job_id db ≡ some r
      → dataset_matches_run casefold r dataset ≡ false
      → get_import_run job_id without ≡ none
      → let job = get_dataset_job casefold rfc3339 round_percent dataset job_id base_url settings in
        let results = get_dataset_job_results casefold dataset job_id in
        (job db ≡ job without)
        × (results db ≡ results without)
        × (job without ≡ err (http_error 404 "job not found"))
        × (results without ≡ err (http_error 404 "job not found"))
  foreign_job-hidden rfc3339 round_percent base_url settings r without found other absent =
      let denied : require_dataset_run casefold dataset job_id db
          ≡ err (http_error 404 "job not found") =
        required casefold dataset job_id db found ∙ rw other refl in
      let unknown : require_dataset_run casefold dataset job_id without
          ≡ err (http_error 404 "job not found") =
        unfold require_dataset_run in rw (require_dataset_run, absent) refl in
      let job = denied-job rfc3339 round_percent base_url settings in
      let results = denied-results in
      (
        job db _ denied ∙ sym (job without _ unknown),
        results db _ denied ∙ sym (results without _ unknown),
        job without _ unknown,
        results without _ unknown,
      )

  -- Of a job of the dataset the results are its summary exactly if its run has completed; a failed
  -- run answers 422 with its reason, and a running one 404.
  pub get_dataset_job_results-by_status :
      (r : Run)
      → get_import_run job_id db ≡ some r
      → dataset_matches_run casefold r dataset ≡ true
      → get_dataset_job_results casefold dataset job_id db ≡ results_for r.status r db
  unfolding get_dataset_job_results run_with_filenames
  get_dataset_job_results-by_status r found own =
      rw
        (
          required casefold dataset job_id db found,
          own,
          run_with_filenames-run (without_filenames r) db,
        )
        (go r.status refl)
    where
      answer : String → Result HttpError JobSummary
      answer status =
          if in_values ("accepted" ∷ "running" ∷ []) status
          then err (http_error 404 "job results are not ready")
          else if status == "failed"
          then err (http_error 422 (failure_detail r))
          else ok (job_results_payload (run_with_filenames (without_filenames r) db))

      go : (s : RunStatus) → r.status ≡ s → answer (map_status r) ≡ results_for s r db
      go RunStatus.completed e = rw (map_status-text r RunStatus.completed e) refl
      go RunStatus.failed e = rw (map_status-text r RunStatus.failed e) refl
      go RunStatus.running e = elim (map_status-text r RunStatus.running e) [
        | inl a ↦ rw a refl
        | inr b ↦ rw b refl
      ]

-- A percentage where the total is positive, and no progress where it is 0 or unknown.
abbrev pub IsProgress : ℕ → Option ℕ → Type 0
IsProgress total none = total ≡ 0
IsProgress total (some percent) = (percent ≤ 100) × (0 < total)

module _ (rfc3339 : ℕ → String) (round_percent : ℕ → ℕ → ℤ) where
  -- A progress is a percentage, whatever the rounding and the counters; there is one exactly if the
  -- total is known and not 0.
  pub job_payload-progress :
      (j : JobRun) (base_url : String) (settings : JobPayloadSettings)
      → IsProgress
          (or_zero j.run.total_features)
          (job_payload rfc3339 round_percent j base_url settings).progress
  unfolding job_payload
  job_payload-progress j base_url settings = ground arith
