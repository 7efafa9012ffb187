-- ===== src/Jobs/Runs.antt =====
-- The tables `import_run` and `import_event` and the statements that read and write them
-- (gcjobs/src/gcjobs/db.py; the columns are those of alembic revision 20260819_000002).
-- One call of `record_import_event` is one transaction, so it is one function on the tables.
-- `order by last_event_at desc` is a parameter: SQL leaves the order of equal times open.
-- A timestamp is a number of microseconds, and `now` is `current_timestamp` of the transaction.
pub mod Laws
pub mod Tally
pub mod Consistent
pub mod Redelivered
pub mod Lifecycle
use topografisk_gdb_api.Prelude.{
  ℕ, zero, suc, ◌+◌, String, ◌≡◌, Bool, true, false, ◌&&◌, not, Option, none, some, List, [], ◌∷◌,
  ◌++◌, map, ◌==◌, if◌then◌else◌, is_some, coalesce, find_first, any_of, take, keep, ltb, Result,
  ok, err, ◌>>=◌, or_raise,
}
use topografisk_gdb_api.Jobs.Event.{
  ImportEvent, LastError, no_error, last_error_of, RunStatus, RunUpdates, run_updates_for_event,
}

pub record Run : Type 0 where
  pub id : String
  pub profile : Option String
  pub dataset_api_path : Option String
  pub filename : Option String
  pub status : RunStatus
  pub phase : Option String
  pub total_features : Option ℕ
  pub processed_features : ℕ
  pub succeeded_features : ℕ
  pub failed_features : ℕ
  pub processed_batches : ℕ
  pub succeeded_batches : ℕ
  pub failed_batches : ℕ
  pub last_error : LastError
  pub started_at : ℕ
  pub completed_at : Option ℕ
  pub last_event_at : ℕ
  pub updated_at : ℕ

pub record StoredEvent : Type 0 where
  pub id : ℕ
  pub import_id : String
  pub event_type : String
  pub message_id : Option String
  pub occurred_at : ℕ
  pub payload : ImportEvent

-- `next_event_id` is the identity sequence of `import_event.id`. An insert takes a value from it
-- also when the insert conflicts.
pub record Database : Type 0 where
  pub runs : List Run
  pub events : List StoredEvent
  pub next_event_id : ℕ

abbrev pub empty : Database
empty = record { runs = []; events = []; next_event_id = 1 }

-- `KeyError`, with the key, and an error of the database.
pub data EventError : Type 0 where
  missing_key : String → EventError
  storage_failed : EventError

-- `select * from import_run where id = %s`
unfoldable pub find_run : String → List Run → Option Run
find_run id = find_first (λ (r : Run). r.id == id)

abbrev pub has_run : String → List Run → Bool
has_run id = any_of (λ (r : Run). r.id == id)

-- The row that the first statement inserts; the other columns have their server defaults.
unfoldable pub new_run : ℕ → String → RunStatus → ImportEvent → Run
new_run now id status e = record {
  id = id;
  profile = e.profile;
  dataset_api_path = e.dataset_api_path;
  filename = e.filename;
  status = status;
  phase = e.phase;
  total_features = e.total_features;
  processed_features = 0;
  succeeded_features = 0;
  failed_features = 0;
  processed_batches = 0;
  succeeded_batches = 0;
  failed_batches = 0;
  last_error = no_error;
  started_at = now;
  completed_at = none;
  last_event_at = now;
  updated_at = now;
}

-- `insert into import_run … on conflict (id) do nothing`
unfoldable pub insert_run : Run → List Run → List Run
insert_run r rs = if has_run r.id rs then rs else rs ++ r ∷ []

-- Whether a stored event has this message id, which its unique index refuses a second time. Nulls
-- never conflict.
abbrev pub is_message : String → StoredEvent → Bool
is_message m e = elim e.message_id [ none ↦ false | some n ↦ n == m ]

unfoldable pub conflicts : Option String → List StoredEvent → Bool
conflicts none es = false
conflicts (some m) es = any_of (is_message m) es

-- The `set` list of the update statement.
unfoldable pub updated_run : ℕ → ImportEvent → RunUpdates → Run → Run
updated_run now e u r = record {
  id = r.id;
  profile = coalesce e.profile r.profile;
  dataset_api_path = coalesce e.dataset_api_path r.dataset_api_path;
  filename = coalesce e.filename r.filename;
  status = u.status;
  phase = coalesce e.phase r.phase;
  total_features = coalesce e.total_features r.total_features;
  processed_features = r.processed_features + u.processed_features;
  succeeded_features = r.succeeded_features + u.succeeded_features;
  failed_features = r.failed_features + u.failed_features;
  processed_batches = r.processed_batches + u.processed_batches;
  succeeded_batches = r.succeeded_batches + u.succeeded_batches;
  failed_batches = r.failed_batches + u.failed_batches;
  last_error = elim (last_error_of e) [ none ↦ r.last_error | some l ↦ l ];
  started_at = r.started_at;
  completed_at = if u.is_terminal then some now else r.completed_at;
  last_event_at = now;
  updated_at = now;
}

-- `update import_run set … where id = %s`
unfoldable pub update_runs : String → (Run → Run) → List Run → List Run
update_runs id f [] = []
update_runs id f (r ∷ rs) = (if r.id == id then f r else r) ∷ update_runs id f rs

-- The transaction, once the keys of the event are read. The row that it returns is `none` where
-- the code falls back to `{"id": import_id}`.
unfoldable pub record_row :
    ℕ → String → String → ImportEvent → Option String → Database → Option Run × Database
unfolding find_run new_run insert_run conflicts updated_run update_runs run_updates_for_event
record_row now id event_type e message_id db =
    let u = run_updates_for_event event_type e.batch_size in
    let runs = insert_run (new_run now id u.status e) db.runs in
    if conflicts message_id db.events && is_some message_id
    then (
      find_run id runs,
      record { runs = runs; events = db.events; next_event_id = suc db.next_event_id },
    )
    else (let updated = update_runs id (updated_run now e u) runs in
        (
          find_run id updated,
          record {
            runs = updated;
            events =
                db.events
                ++ record {
                  id = db.next_event_id;
                  import_id = id;
                  event_type = event_type;
                  message_id = message_id;
                  occurred_at = now;
                  payload = e;
                }
                  ∷ [];
            next_event_id = suc db.next_event_id;
          },
        ))

-- A missing key raises before the connection is opened.
unfoldable pub record_import_event :
    ℕ → ImportEvent → Option String → Database → Result EventError (Option Run × Database)
unfolding record_row
record_import_event now e message_id db = or_raise e.import_id (missing_key "import_id") >>= λ id.
    or_raise e.event (missing_key "event") >>= λ event_type.
    ok (record_row now id event_type e message_id db)

unfoldable pub get_import_run : String → Database → Option Run
unfolding find_run
get_import_run id db = find_run id db.runs

abbrev pub is_active : Run → Bool
is_active r = elim r.status [ RunStatus.running ↦ true | _ ↦ false ]

abbrev pub selected : Bool → List Run → List Run
selected active_only runs = if active_only then keep is_active runs else runs

unfoldable pub list_import_runs : (List Run → List Run) → Bool → ℕ → Database → List Run
list_import_runs order active_only limit db = take limit (order (selected active_only db.runs))

-- The events of one import in the order of their ids, which is that of the table.
unfoldable pub get_import_events : String → ℕ → Database → List StoredEvent
get_import_events id limit db = take limit (keep (λ (e : StoredEvent). e.import_id == id) db.events)
