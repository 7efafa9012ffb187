-- ===== src/Jobs/Service/Forwarding.antt =====
-- From a queued import to the end of its forwarding (`queue_import_request` and `proxy_import` of
-- gcjobs/src/gcjobs/service.py; `record_terminal_event_if_running` of gcjobs/src/gcjobs/storage.py).
use topografisk_gdb_api.Prelude.{
  ℕ, ◌≤◌, ltb, String, ◌≡◌, refl, true, false, Option, none, some, List, ◌∷◌, arith, length, ok,
  ◌∙◌, ◌==◌,
}
use topografisk_gdb_api.Prelude.Int.{ℤ}
use topografisk_gdb_api.Prelude.Text.{is_empty, is_empty-append}
use topografisk_gdb_api.Jobs.Event.{
  ImportEvent, LastError, RunStatus, RunUpdates, last_error_of, run_updates_for_event,
}
use topografisk_gdb_api.Jobs.Runs.{
  Run, StoredEvent, Database, find_run, conflicts, new_run, updated_run, record_row,
  record_import_event, get_import_run,
}
use topografisk_gdb_api.Jobs.Runs.Lifecycle.{record_row-fresh, record_row-stored, record_row-new}
use topografisk_gdb_api.Jobs.Runs.Tally.{Tally, tally_of, add_updates, tally_of-updated_run}
use topografisk_gdb_api.Jobs.Storage.{
  accepted_event, run_is_terminal, map_status, record_accepted_import,
  record_terminal_event_if_running,
}
use topografisk_gdb_api.Jobs.Service.{
  Service, ProxyTask, declared_content_length, exceeds, content_type_or_default,
  queue_import_request, proxy_import, forwarding_failed,
}
use topografisk_gdb_api.Jobs.Service.Uploads.{join, read_bounded_request_body-eq}

le→ltb : (a b : ℕ) → a ≤ b → ltb b a ≡ false
le→ltb a b h = ground arith

conflicts-none : (es : List StoredEvent) → conflicts none es ≡ false
unfolding conflicts
conflicts-none es = refl

-- An upload within the bound, under an id that no run has, is queued: its run is there, reads
-- `accepted` and belongs to the dataset, and one task holds the whole body.
pub queue_import_request-accepted :
    (parse_int : String → Option ℤ) (max_bytes : ℕ) (import_id : String) (now : ℕ)
    (length_header type_header : Option String) (stream : List (List ℕ)) (dataset_name : String)
    (s : Service)
    → exceeds (declared_content_length parse_int length_header) max_bytes ≡ false
    → length (join stream) ≤ max_bytes
    → find_run import_id s.db.runs ≡ none
    → (after : Service) × (r : Run) × (queue_import_request parse_int max_bytes import_id now
          length_header type_header stream dataset_name s
        ≡ ok (import_id, after))
      × (find_run import_id after.db.runs ≡ some r)
      × (map_status r ≡ "accepted")
      × (r.profile ≡ some dataset_name)
      × (after.proxy_tasks
          ≡ record {
            import_id = import_id;
            profile_name = dataset_name;
            content_type = content_type_or_default type_header;
            payload = join stream;
          }
            ∷ s.proxy_tasks)
unfolding queue_import_request
queue_import_request-accepted parse_int max_bytes import_id now length_header type_header stream
      dataset_name s small fits new =
    let e = accepted_event import_id dataset_name in
    let u = run_updates_for_event "import.accepted" none in
    let r = updated_run now e u (new_run now import_id u.status e) in
    (
      record {
        db = (record_row now import_id "import.accepted" e none s.db).1;
        proxy_tasks =
            record {
              import_id = import_id;
              profile_name = dataset_name;
              content_type = content_type_or_default type_header;
              payload = join stream;
            }
            ∷ s.proxy_tasks;
      },
      r,
      rw
          (
            read_bounded_request_body-eq parse_int length_header stream max_bytes,
            small,
            le→ltb _ _ fits,
          )
          (unfold record_accepted_import record_import_event in refl),
      record_row-new now import_id "import.accepted" e none s.db (conflicts-none s.db.events) new,
      unfold updated_run new_run map_status run_updates_for_event in refl,
      unfold updated_run in refl,
      refl,
    )

-- A forwarding that fails after its run is seen to have ended changes nothing.
pub proxy_import-ended :
    (now : ℕ) (reason : String) (task : ProxyTask) (seen db : Database)
    → run_is_terminal (find_run task.import_id seen.runs) ≡ true
    → proxy_import now (some reason) task seen db ≡ ok db
unfolding proxy_import get_import_run
proxy_import-ended now reason task seen db ended = rw ended refl

last_error_of-reason :
    (e : ImportEvent) {reason : String}
    → e.reason ≡ some reason
    → is_empty reason ≡ false
    → (l : LastError) × (last_error_of e ≡ some l) × (l.reason ≡ some reason)
unfolding last_error_of
last_error_of-reason e p q = (
  record {
    reason = e.reason;
    errors = e.errors;
    collection = e.collection;
    feature_id = e.feature_id;
  },
  ground (arith, p, q),
  p,
)

forwarding-last_error :
    (now : ℕ) (u : RunUpdates) (task : ProxyTask) (reason : String) (r : Run)
    → (updated_run now (forwarding_failed task reason) u r).last_error.reason
      ≡ (forwarding_failed task reason).reason
unfolding updated_run
forwarding-last_error now u task reason r =
    let (l, p, q) =
      last_error_of-reason (forwarding_failed task reason) refl
        (is_empty-append "g" "cjobs could not reach gcimport: " reason) in
    rw (updated_run, p) q

failed_adds_nothing :
    (t : Tally)
    → add_updates (run_updates_for_event "import.completed.failed" none) t
      ≡ record t { ended = true }
unfolding add_updates run_updates_for_event
failed_adds_nothing t = ground arith

-- A forwarding that fails while its run is seen going on marks that run as failed, with the reason
-- and the time, and keeps all its counters, whatever became of the run between the reading and the
-- recording as long as its row is there; every other run stays as it was.
pub proxy_import-failed :
    (now : ℕ) (reason : String) (task : ProxyTask) (seen db : Database) (before r : Run)
    → find_run task.import_id seen.runs ≡ some before
    → before.status ≡ RunStatus.running
    → find_run task.import_id db.runs ≡ some r
    → (after : Database) × (q : Run) × (proxy_import now (some reason) task seen db ≡ ok after)
      × (find_run task.import_id after.runs ≡ some q)
      × (q.status ≡ RunStatus.failed)
      × (q.last_error.reason ≡ (forwarding_failed task reason).reason)
      × (q.completed_at ≡ some now)
      × (tally_of q ≡ record (tally_of r) { ended = true })
      × ((j : String) → task.import_id == j ≡ false → find_run j after.runs ≡ find_run j db.runs)
unfolding proxy_import get_import_run
proxy_import-failed now reason task seen db before r was going f =
    let e = forwarding_failed task reason in
    let u = run_updates_for_event "import.completed.failed" none in
    let fresh = λ (j : String).
      record_row-fresh now task.import_id "import.completed.failed" e none db j
        (conflicts-none db.events) in
    (
      (record_row now task.import_id "import.completed.failed" e none db).1,
      updated_run now e u r,
      unfold record_terminal_event_if_running run_is_terminal get_import_run in
          rw (was, going) (unfold record_import_event in refl),
      record_row-stored now task.import_id "import.completed.failed" e none db
          (conflicts-none db.events) f,
      unfold updated_run run_updates_for_event in refl,
      forwarding-last_error now u task reason r,
      unfold updated_run run_updates_for_event in refl,
      tally_of-updated_run now e u r ∙ failed_adds_nothing (tally_of r),
      λ j h. (fresh j).1 ∙ rw h refl,
    )
