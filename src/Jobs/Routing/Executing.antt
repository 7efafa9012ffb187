-- ===== src/Jobs/Routing/Executing.antt =====
-- Executions, and the job that an accepted one leads to (gcjobs/src/gcjobs/routing.py).
use mathlib.Core.Path.{subst}
use topografisk_gdb_api.Prelude.{
  ℕ, ◌≤◌, String, ◌≡◌, refl, sym, ap, ◌∙◌, ◌⊎◌, inl, inr, true, false, none, some, List, [], ◌∷◌,
  ◌==◌, eq_iff, eq_refl, arith, find_first-satisfies, length, Result, ok, err, Bool-cases,
  Option-cases,
}
use topografisk_gdb_api.Prelude.Text.{concat, strip}
use topografisk_gdb_api.Jobs.Runs.{Run, Database, find_run, get_import_run}
use topografisk_gdb_api.Jobs.Storage.{JobPayload, JobRun, run_with_filenames, map_status}
use topografisk_gdb_api.Jobs.Storage.Payload.{
  get_dataset_job, require_dataset_run, dataset_matches_run, job_payload, without_filenames,
}
use topografisk_gdb_api.Jobs.Service.{
  Service, QueueError, refused, not_recorded, queue_import_request, declared_content_length,
  exceeds,
}
use topografisk_gdb_api.Jobs.Service.Uploads.{join}
use topografisk_gdb_api.Jobs.Service.Forwarding.{queue_import_request-accepted}
use topografisk_gdb_api.Jobs.Datasets.{DatasetDescription}
use topografisk_gdb_api.Jobs.Routing.{
  AcceptedJob, Request, Route, landing, processes, process, execution, jobs, job, job_results,
  Response, created, of_job, job_page, Environment, import_process_id, job_payload_settings,
  mounted_url, mounted_base_url, accepted_job_payload, normalize_process_id, is_multipart, queued,
  execute_process, handle,
}

find_run-id : (id : String) (rs : List Run) (r : Run) → find_run id rs ≡ some r → r.id ≡ id
unfolding find_run
find_run-id id rs r h =
    let same = find_first-satisfies (λ (q : Run). q.id == id) rs r h in (eq_iff r.id id).0 same

run_with_filenames-run : (j : JobRun) (db : Database) → (run_with_filenames j db).run ≡ j.run
unfolding run_with_filenames
run_with_filenames-run j db = ground arith

module _ (env : Environment) (dataset : DatasetDescription) where
  -- The answer is that a job was created.
  abbrev pub IsCreated : Response → Type 0
  IsCreated response = (url : String) × (payload : AcceptedJob) × (response ≡ created url payload)

  queued-unchanged :
      (request : Request) (id : String) (s : Service) (r : Result QueueError (String × Service))
      → let (response, after) = queued env dataset request id s r in
        (after ≡ s) ⊎ IsCreated response
  queued-unchanged request id s (err (refused e)) = inl refl
  queued-unchanged request id s (err (not_recorded e)) = inl refl
  queued-unchanged request id s (ok (import_id, s')) = inr (
    mounted_url request (concat ("/jobs/" ∷ import_id ∷ [])),
    accepted_job_payload request import_id id,
    refl,
  )

  execute_process-queued :
      (import_id : String) (now : ℕ) (request : Request) (id normalized : String) (s : Service)
      → dataset.import_enabled ≡ true
      → normalize_process_id env dataset id ≡ some normalized
      → is_multipart env dataset request.content_type ≡ true
      → execute_process env dataset import_id now request id s
        ≡ queued env dataset request normalized s (
            queue_import_request env.parse_int env.max_bytes import_id now request.content_length
              request.content_type request.stream dataset.name s)
  unfolding execute_process
  execute_process-queued import_id now request id normalized s on known multipart =
      rw (known, multipart, on, execute_process) refl

  execute_process_unchanged :
      (import_id : String) (now : ℕ) (request : Request) (id : String) (s : Service)
      → let (response, after) = execute_process env dataset import_id now request id s in
        (after ≡ s) ⊎ IsCreated response
  unfolding execute_process
  execute_process_unchanged import_id now request id s = elim (Bool-cases dataset.import_enabled) [
    | inr off ↦ rw (off, execute_process) (inl refl)
    | inl on ↦ elim (Option-cases (normalize_process_id env dataset id)) [
      | inl unknown ↦ rw (unknown, on, execute_process) (inl refl)
      | inr (normalized, known) ↦
          elim (Bool-cases (is_multipart env dataset request.content_type)) [
            | inr other ↦ rw (known, other, on, execute_process) (inl refl)
            | inl multipart ↦
                subst (λ (x : Response × Service). (x.1 ≡ s) ⊎ IsCreated x.0)
                  (sym (
                    execute_process-queued import_id now request id normalized s on known
                      multipart))
                  (queued-unchanged request normalized s (
                    queue_import_request env.parse_int env.max_bytes import_id now
                      request.content_length request.content_type request.stream dataset.name s))
          ]
    ]
  ]

  owned_run :
      (id : String) (db : Database) (r : Run)
      → find_run id db.runs ≡ some r
      → r.profile ≡ some dataset.name
      → require_dataset_run env.casefold dataset.name id db ≡ ok r
  unfolding require_dataset_run get_import_run
  owned_run id db r found owned =
      rw (found, require_dataset_run)
        (rw (owned, eq_refl (env.casefold dataset.name), dataset_matches_run) refl)

  get_dataset_job-found :
      (id base_url : String) (db : Database) (r : Run)
      → find_run id db.runs ≡ some r
      → r.profile ≡ some dataset.name
      → get_dataset_job env.casefold env.rfc3339 env.round_percent dataset.name id base_url
          job_payload_settings db
        ≡ ok (
            job_payload env.rfc3339 env.round_percent
              (run_with_filenames (without_filenames r) db)
              base_url
              job_payload_settings)
  unfolding get_dataset_job
  get_dataset_job-found id base_url db r found owned = rw (owned_run id db r found owned) refl

  normalize_process_id-import :
      (id : String)
      → env.casefold (strip id) ≡ import_process_id
      → normalize_process_id env dataset id ≡ some import_process_id
  unfolding normalize_process_id
  normalize_process_id-import id named = rw named refl

  -- The tables and the tasks change only with an answer that a job was created.
  pub handle_unchanged :
      (import_id : String) (now : ℕ) (request : Request) (route : Route) (s : Service)
      → let (response, after) = handle env dataset import_id now request route s in
        (after ≡ s) ⊎ IsCreated response
  unfolding handle
  handle_unchanged import_id now request landing s = inl refl
  handle_unchanged import_id now request processes s = inl refl
  handle_unchanged import_id now request (process id) s = inl refl
  handle_unchanged import_id now request (execution id) s =
      execute_process_unchanged import_id now request id s
  handle_unchanged import_id now request (jobs params) s = inl refl
  handle_unchanged import_id now request (job id) s = inl refl
  handle_unchanged import_id now request (job_results id) s = inl refl

  -- An upload within the bound, in its length header too, with a multipart content type, for the
  -- import process of a dataset that has import enabled, under an id that no run has, is answered with the job's location; the job is there then, and reads `accepted`.
  pub execute-job :
      (import_id process_id : String) (now later : ℕ) (request other : Request) (s : Service)
      → dataset.import_enabled ≡ true
      → env.casefold (strip process_id) ≡ import_process_id
      → is_multipart env dataset request.content_type ≡ true
      → exceeds (declared_content_length env.parse_int request.content_length) env.max_bytes ≡ false
      → length (join request.stream) ≤ env.max_bytes
      → find_run import_id s.db.runs ≡ none
      → (after : Service) × (j : JobPayload) × (handle env dataset import_id now request
            (execution process_id)
            s
          ≡ (
            created
                (mounted_url request (concat ("/jobs/" ∷ import_id ∷ [])))
                (accepted_job_payload request import_id import_process_id),
            after,
          ))
        × (handle env dataset import_id later other (job import_id) after ≡ (job_page j, after))
        × (j.job_id ≡ import_id)
        × (j.status ≡ "accepted")
  unfolding handle job_payload
  execute-job import_id process_id now later request other s on named multipart small fits new =
      let (after, r, accepted, found, reads, owned, _) =
        queue_import_request-accepted env.parse_int env.max_bytes import_id now
          request.content_length request.content_type request.stream dataset.name s small fits
          new in
      let listed = run_with_filenames (without_filenames r) after.db in
      let same = run_with_filenames-run (without_filenames r) after.db in
      (
        after,
        job_payload env.rfc3339 env.round_percent listed (mounted_base_url other)
            job_payload_settings,
        execute_process-queued import_id now request process_id import_process_id s on
              (normalize_process_id-import process_id named) multipart
            ∙ ap (queued env dataset request import_process_id s) accepted,
        ap (λ x. (of_job x, after))
            (get_dataset_job-found import_id (mounted_base_url other) after.db r found owned),
        ap (λ (q : Run). q.id) same ∙ find_run-id import_id after.db.runs r found,
        ap map_status same ∙ reads,
      )
