-- ===== src/Jobs/Tests.antt =====
-- Runs of the job tracking service, and its theorems at concrete inputs.
use mathlib.Core.List.{Perm}
use mathlib.Core.List.Perm
use topografisk_gdb_api.Jobs.Runs.Tally.{tally_of}
use topografisk_gdb_api.Jobs.Runs.Redelivered.{SameTables}
use topografisk_gdb_api.Prelude.{
  ℕ, ◌+◌, ◌≤◌, String, ◌≡◌, refl, true, false, Option, none, some, List, [], ◌∷◌, ◌++◌, arith, All,
  All-weaken, Bool-cases, inr, length, inl, if◌then◌else◌, ◌==◌, ok, err, ◌||◌, ltb, ◌*◌, ◌/◌,
}
use topografisk_gdb_api.Prelude.Int.{ℤ, pos}
use topografisk_gdb_api.Jobs.Event.{ImportEvent, no_keys, RunStatus, run_updates_for_event}
use topografisk_gdb_api.Jobs.Runs.{
  Run, Database, empty, find_run, conflicts, record_row, record_import_event, updated_run, new_run,
  get_import_run,
}
use topografisk_gdb_api.Jobs.Runs.Consistent.{
  IsConsistent, IsConsistent-empty, IsConsistent-balanced,
}
use topografisk_gdb_api.Jobs.Runs.Lifecycle.{record_row-fresh, run_before}
use topografisk_gdb_api.Jobs.Storage.{JobQuery, JobPayloadSettings, http_error, map_status}
use topografisk_gdb_api.Jobs.Storage.Payload.{
  get_dataset_job, get_dataset_job_results, list_dataset_jobs, job_payload, dataset_matches_run,
  without_filenames,
}
use topografisk_gdb_api.Jobs.Storage.Listing.{
  IsDescending, IsOrder, IsListed, list_dataset_jobs_sound,
}
use topografisk_gdb_api.Jobs.Storage.Results.{
  results_for, IsProgress, foreign_job-hidden, get_dataset_job_results-by_status,
  job_payload-progress,
}
use topografisk_gdb_api.Jobs.Service.{
  Service, ProxyTask, ImportEventMessage, record_message, consume_import_events,
  declared_content_length, exceeds, too_large, read_bounded_request_body, queue_import_request,
  proxy_import, forwarding_failed,
}
use topografisk_gdb_api.Jobs.Service.Delivery.{
  recorded-redelivered, recorded_messages, consume_import_events-IsConsistent,
}
use topografisk_gdb_api.Jobs.Service.Stopping.{
  IsComplete, IsSplit, consume-missing_key, consume_import_events-IsSplit,
}
use topografisk_gdb_api.Jobs.Service.Uploads.{join, read_bounded_request_body-eq}
use topografisk_gdb_api.Jobs.Service.Forwarding.{queue_import_request-accepted, proxy_import-failed}

abbrev batch_event : String → ℕ → ImportEvent
batch_event name size = record no_keys {
  import_id = some "a1";
  event = some name;
  profile = some "fkb_bane";
  batch_size = some size;
}

abbrev message : String → ImportEvent → ImportEventMessage
message key e = record {
  event = e;
  message_id = some key;
  at = 7;
  store_succeeds = true;
  ack_succeeds = true;
}

abbrev two_batches : List ImportEventMessage
two_batches =
    message "1-0" (batch_event "import.batch.succeeded" 5)
    ∷ message "2-0" (batch_event "import.batch.failed" 3)
    ∷ []

abbrev malformed : ImportEventMessage
malformed = message "3-0" no_keys

abbrev after_batches : Database
after_batches = (consume_import_events two_batches empty).db

two_batches-IsComplete : All IsComplete two_batches
two_batches-IsComplete = (
  record {
    import_id = "a1";
    event_type = "import.batch.succeeded";
    has_import_id = refl;
    has_event = refl;
    stored = refl;
    acknowledged = refl;
  },
  (
    record {
      import_id = "a1";
      event_type = "import.batch.failed";
      has_import_id = refl;
      has_event = refl;
      stored = refl;
      acknowledged = refl;
    },
    tt,
  ),
)

-- The second message is recorded, but its acknowledgement fails.
abbrev unacked_batches : List ImportEventMessage
unacked_batches =
    message "1-0" (batch_event "import.batch.succeeded" 5)
    ∷ record (message "2-0" (batch_event "import.batch.failed" 3)) { ack_succeeds = false }
    ∷ []

abbrev reread : List ImportEventMessage
reread =
    record (message "2-0" (batch_event "import.batch.failed" 3)) { at = 9 }
    ∷ message "1-0" (batch_event "import.batch.succeeded" 5)
    ∷ []

recorded-redelivered_example :
    let first = consume_import_events unacked_batches empty in
    SameTables (consume_import_events reread first.db).db first.db
recorded-redelivered_example =
    recorded-redelivered unacked_batches reread empty (("1-0", refl), (("2-0", refl), tt))
      (unfold recorded_messages record_message record_import_event in
        (inr (inl (refl, refl)), (inl (refl, refl), tt)))

consume_import_events-IsConsistent_example : IsConsistent after_batches
consume_import_events-IsConsistent_example =
    consume_import_events-IsConsistent two_batches empty IsConsistent-empty

consume-missing_key_example :
    consume_import_events (two_batches ++ malformed ∷ two_batches) empty
    ≡ record { db = after_batches; acked = two_batches; listening = false }
consume-missing_key_example =
    consume-missing_key two_batches malformed two_batches empty two_batches-IsComplete (inl refl)

consume_import_events-IsSplit_example :
    All IsComplete (consume_import_events unacked_batches empty).acked
    × IsSplit unacked_batches (consume_import_events unacked_batches empty)
consume_import_events-IsSplit_example = consume_import_events-IsSplit unacked_batches empty

abbrev first_batch : ImportEvent
first_batch = batch_event "import.batch.succeeded" 5

abbrev last_batch : ImportEvent
last_batch = batch_event "import.batch.failed" 3

abbrev done_run : Run
done_run =
    updated_run 9 first_batch (run_updates_for_event "import.completed.succeeded" none)
      (new_run 8 "a1" RunStatus.running first_batch)

abbrev done_db : Database
done_db = record { runs = done_run ∷ []; events = []; next_event_id = 3 }

abbrev going_run : Run
going_run = new_run 8 "a1" RunStatus.running first_batch

abbrev going_db : Database
going_db = record { runs = going_run ∷ []; events = []; next_event_id = 3 }

IsConsistent-balanced_example :
    All
      (λ (r : Run).
        (r.processed_features ≡ r.succeeded_features + r.failed_features)
        × (r.processed_batches ≡ r.succeeded_batches + r.failed_batches))
      after_batches.runs
IsConsistent-balanced_example =
    IsConsistent-balanced after_batches
      (consume_import_events-IsConsistent two_batches empty IsConsistent-empty)

record_row-fresh_example :
    let u = run_updates_for_event "import.batch.failed" (some 3) in
    let (row, db') = record_row 9 "a1" "import.batch.failed" last_batch (some "4-0") going_db in
    let after = updated_run 9 last_batch u (run_before 9 "a1" u.status last_batch going_db) in
    (row ≡ some after)
    × (find_run "b2" db'.runs ≡ (if "a1" == "b2" then some after else find_run "b2" going_db.runs))
record_row-fresh_example =
    record_row-fresh 9 "a1" "import.batch.failed" last_batch (some "4-0") going_db "b2"
      (unfold conflicts in refl)

abbrev no_number : String → Option ℤ
no_number _ = none

abbrev bytes : List (List ℕ)
bytes = (1 ∷ 2 ∷ []) ∷ (3 ∷ []) ∷ []

abbrev idle : Service
idle = record { db = empty; proxy_tasks = [] }

read_bounded_request_body-eq_example : read_bounded_request_body no_number none bytes 2 ≡ (
    if exceeds (declared_content_length no_number none) 2 || ltb 2 (length (join bytes))
    then err too_large
    else ok (join bytes))
read_bounded_request_body-eq_example = read_bounded_request_body-eq no_number none bytes 2

abbrev queued_task : ProxyTask
queued_task = record {
  import_id = "a1";
  profile_name = "fkb_bane";
  content_type = "multipart/form-data";
  payload = join bytes;
}

queue_import_request-accepted_example :
    (after : Service) × (r : Run) × (queue_import_request no_number 3 "a1" 7 none
        (some "multipart/form-data")
        bytes
        "fkb_bane"
        idle
      ≡ ok ("a1", after))
    × (find_run "a1" after.db.runs ≡ some r)
    × (map_status r ≡ "accepted")
    × (r.profile ≡ some "fkb_bane")
    × (after.proxy_tasks ≡ queued_task ∷ [])
queue_import_request-accepted_example =
    queue_import_request-accepted no_number 3 "a1" 7 none (some "multipart/form-data") bytes
      "fkb_bane" idle (unfold declared_content_length in refl) (omega arith)
      (unfold find_run in refl)

proxy_import-failed_example :
    (after : Database) × (q : Run) × (proxy_import 9 (some "timeout") queued_task going_db done_db
      ≡ ok after)
    × (find_run "a1" after.runs ≡ some q)
    × (q.status ≡ RunStatus.failed)
    × (q.last_error.reason ≡ (forwarding_failed queued_task "timeout").reason)
    × (q.completed_at ≡ some 9)
    × (tally_of q ≡ record (tally_of done_run) { ended = true })
    × ((j : String) → "a1" == j ≡ false → find_run j after.runs ≡ find_run j done_db.runs)
proxy_import-failed_example =
    proxy_import-failed 9 "timeout" queued_task going_db done_db going_run done_run
      (unfold find_run new_run in refl) (unfold new_run in refl)
      (unfold find_run updated_run new_run in refl)

abbrev same_case : String → String
same_case s = s

abbrev at_time : ℕ → String
at_time _ = "2026-08-19T12:00:00Z"

abbrev whole_percent : ℕ → ℕ → ℤ
whole_percent processed total = pos (processed * 100 / total)

abbrev settings : JobPayloadSettings
settings = record {
  process_job_type = "process";
  import_process_id = "import";
  results_rel = "http://www.opengis.net/def/rel/ogc/1.0/results";
}

abbrev bane_query : JobQuery
bane_query = record {
  dataset_name = "fkb_bane";
  limit = 1;
  type_values = [];
  process_ids = "import" ∷ [];
  statuses = "successful" ∷ [];
  base_url = "http://localhost";
  public_url = "http://localhost/jobs";
}

-- An order that the database may give.
abbrev insert_latest : Run → List Run → List Run
insert_latest r [] = r ∷ []
insert_latest r (s ∷ rs) =
    let rest = insert_latest r rs in
    if ltb s.last_event_at r.last_event_at then r ∷ s ∷ rs else s ∷ rest

abbrev latest_first : List Run → List Run
latest_first [] = []
latest_first (r ∷ rs) = insert_latest r (latest_first rs)

All-insert :
    (P : Run → Type 0) (r : Run) (rs : List Run) → P r → All P rs → All P (insert_latest r rs)
All-insert P r [] p h = (p, tt)
All-insert P r (s ∷ rs) p h = elim (Bool-cases (ltb s.last_event_at r.last_event_at)) [
  | inl e ↦ rw e (p, (h.0, h.1))
  | inr e ↦ rw e (h.0, All-insert P r rs p h.1)
]

insert-IsDescending :
    (r : Run) (rs : List Run) → IsDescending rs → IsDescending (insert_latest r rs)
insert-IsDescending r [] d = (tt, tt)
insert-IsDescending r (s ∷ rs) d = elim (Bool-cases (ltb s.last_event_at r.last_event_at)) [
  | inl e ↦ rw e (
    (
      ground arith,
      All-weaken (λ (q : Run). q.last_event_at ≤ s.last_event_at)
          (λ (q : Run). q.last_event_at ≤ r.last_event_at) rs (λ q h. ground arith) d.0,
    ),
    (d.0, d.1),
  )
  | inr e ↦ rw e (
    All-insert (λ (q : Run). q.last_event_at ≤ s.last_event_at) r rs (ground arith) d.0,
    insert-IsDescending r rs d.1,
  )
]

insert-perm : (r : Run) (rs : List Run) → Perm (insert_latest r rs) (r ∷ rs)
insert-perm r [] = Perm.refl (r ∷ [])
insert-perm r (s ∷ rs) = elim (Bool-cases (ltb s.last_event_at r.last_event_at)) [
  | inl e ↦ rw e (Perm.refl (r ∷ s ∷ rs))
  | inr e ↦ rw e (Perm.trans (Perm.cons s (insert-perm r rs)) (Perm.swap r s rs))
]

latest_first-IsOrder : IsOrder latest_first
latest_first-IsOrder [] = (Perm.refl [], tt)
latest_first-IsOrder (r ∷ rs) =
    let (same, descending) = latest_first-IsOrder rs in
    (
      Perm.trans (insert-perm r (latest_first rs)) (Perm.cons r same),
      insert-IsDescending r (latest_first rs) descending,
    )

list_dataset_jobs_sound_example :
    let jobs =
      (list_dataset_jobs same_case at_time whole_percent latest_first bane_query settings
        done_db).jobs in
    (length jobs ≤ 1)
    × All (IsListed same_case at_time whole_percent bane_query settings done_db) jobs
list_dataset_jobs_sound_example =
    list_dataset_jobs_sound same_case at_time whole_percent bane_query settings done_db latest_first
      latest_first-IsOrder

abbrev two_runs : Database
two_runs = record done_db { runs = going_run ∷ done_run ∷ [] }

get_dataset_job_results-by_status_example :
    get_dataset_job_results same_case "fkb_bane" "a1" done_db
    ≡ results_for RunStatus.completed done_run done_db
get_dataset_job_results-by_status_example =
    unfold updated_run run_updates_for_event in
    get_dataset_job_results-by_status same_case "fkb_bane" "a1" done_db done_run
      (unfold get_import_run find_run updated_run new_run in refl)
      (unfold dataset_matches_run updated_run new_run in refl)

foreign_job-hidden_example :
    let job = get_dataset_job same_case at_time whole_percent "fkb_veg" "a1" "" settings in
    let results = get_dataset_job_results same_case "fkb_veg" "a1" in
    (job done_db ≡ job empty)
    × (results done_db ≡ results empty)
    × (job empty ≡ err (http_error 404 "job not found"))
    × (results empty ≡ err (http_error 404 "job not found"))
foreign_job-hidden_example =
    foreign_job-hidden same_case "fkb_veg" "a1" done_db at_time whole_percent "" settings done_run
      empty (unfold get_import_run find_run updated_run new_run in refl)
      (unfold dataset_matches_run updated_run new_run in refl)
      (unfold get_import_run find_run in refl)

job_payload-progress_example :
    IsProgress 0
      (job_payload at_time whole_percent (without_filenames going_run) "" settings).progress
job_payload-progress_example =
    unfold new_run in
    job_payload-progress at_time whole_percent (without_filenames going_run) "" settings
