-- ===== src/Jobs/Event.antt =====
-- The import events that gcimport publishes and gcjobs consumes, and what one event adds to its run
-- (gcjobs/src/gcjobs/db.py). An event is a JSON object. A key that is missing or null is `none`, but
-- for `import_id` and `event`, which `record_import_event` takes through `str`: a null there stands as
-- the text "None", and `none` is a missing key only.
use topografisk_gdb_api.Prelude.{
  ℕ, String, Bool, true, false, ◌||◌, not, Option, none, some, List, is_nonempty, ◌==◌, or_zero,
  if◌then◌else◌,
}
use topografisk_gdb_api.Prelude.Text.{is_empty}

pub record ImportEvent : Type 0 where
  pub import_id : Option String
  pub event : Option String
  pub phase : Option String
  pub profile : Option String
  pub dataset_api_path : Option String
  pub filename : Option String
  pub filenames : Option (List String)
  pub collection : Option String
  pub feature_id : Option String
  pub reason : Option String
  pub errors : Option (List String)
  pub total_features : Option ℕ
  pub batch_size : Option ℕ

-- An event object with no keys, which `record` expressions extend.
abbrev pub no_keys : ImportEvent
no_keys = record {
  import_id = none;
  event = none;
  phase = none;
  profile = none;
  dataset_api_path = none;
  filename = none;
  filenames = none;
  collection = none;
  feature_id = none;
  reason = none;
  errors = none;
  total_features = none;
  batch_size = none;
}

-- The JSON object of column `last_error`: a key that the dictionary lacks is `none`.
pub record LastError : Type 0 where
  pub reason : Option String
  pub errors : Option (List String)
  pub collection : Option String
  pub feature_id : Option String

-- The column's server default `{}`.
abbrev pub no_error : LastError
no_error = record { reason = none; errors = none; collection = none; feature_id = none }

-- Python's truth value of an optional text, and of an optional list.
abbrev pub truthy_text : Option String → Bool
truthy_text none = false
truthy_text (some s) = not (is_empty s)

abbrev pub truthy_list : Option (List String) → Bool
truthy_list none = false
truthy_list (some l) = is_nonempty l

unfoldable pub last_error_of : ImportEvent → Option LastError
last_error_of e =
    if truthy_text e.reason || truthy_list e.errors
    then some (record {
      reason = e.reason;
      errors = e.errors;
      collection = e.collection;
      feature_id = e.feature_id;
    })
    else none

pub data RunStatus : Type 0 where
  running completed failed : RunStatus

pub record RunUpdates : Type 0 where
  pub status : RunStatus
  pub processed_features : ℕ
  pub succeeded_features : ℕ
  pub failed_features : ℕ
  pub processed_batches : ℕ
  pub succeeded_batches : ℕ
  pub failed_batches : ℕ
  pub is_terminal : Bool

-- `_run_update_payload` with no counters.
unfoldable pub run_update_payload : RunStatus → Bool → RunUpdates
run_update_payload status is_terminal = record {
  status = status;
  processed_features = 0;
  succeeded_features = 0;
  failed_features = 0;
  processed_batches = 0;
  succeeded_batches = 0;
  failed_batches = 0;
  is_terminal = is_terminal;
}

-- `_run_updates_for_event`, on the event's type and its `batch_size`.
unfoldable pub run_updates_for_event : String → Option ℕ → RunUpdates
unfolding run_update_payload
run_updates_for_event event_type size =
    let batch_size = or_zero size in
    if event_type == "import.batch.succeeded"
    then (let p = run_update_payload RunStatus.running false in
        record p {
          processed_features = batch_size;
          succeeded_features = batch_size;
          processed_batches = 1;
          succeeded_batches = 1;
        })
    else if event_type == "import.batch.failed"
    then (let p = run_update_payload RunStatus.failed true in
        record p {
          processed_features = batch_size;
          failed_features = batch_size;
          processed_batches = 1;
          failed_batches = 1;
        })
    else if event_type == "import.completed.succeeded"
    then run_update_payload RunStatus.completed true
    else if event_type == "import.completed.failed"
    then run_update_payload RunStatus.failed true
    else run_update_payload RunStatus.running false
