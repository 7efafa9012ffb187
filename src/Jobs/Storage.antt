-- ===== src/Jobs/Storage.antt =====
-- gcjobs/src/gcjobs/storage.py: the runs of the tracking tables as OGC API jobs.
-- A JSON key that a payload leaves out is `none`.
pub mod Payload
pub mod Listing
pub mod Results
use Prim.Native.Nat.{min}
use topografisk_gdb_api.Prelude.{
  ℕ, zero, suc, ltb, String, Bool, true, false, ◌&&◌, ◌||◌, not, Option, none, some, List, [], ◌∷◌,
  ◌++◌, map, ◌==◌, if◌then◌else◌, coalesce, any_of, keep, take, is_nonempty, Result, ok, err, ◌>>=◌,
  is_some, eqb,
}
use topografisk_gdb_api.Prelude.Int.{ℤ, pos, negsuc}
use topografisk_gdb_api.Prelude.Text.{concat, is_empty, strip, rstrip}
use topografisk_gdb_api.Jobs.Event.{ImportEvent, no_keys, LastError, RunStatus}
use topografisk_gdb_api.Jobs.Runs.{
  Run, StoredEvent, Database, EventError, record_import_event, get_import_run, get_import_events,
  list_import_runs,
}

pub record JobQuery : Type 0 where
  pub dataset_name : String
  pub limit : ℕ
  pub type_values : List String
  pub process_ids : List String
  pub statuses : List String
  pub base_url : String
  pub public_url : String

pub record JobPayloadSettings : Type 0 where
  pub process_job_type : String
  pub import_process_id : String
  pub results_rel : String

-- `HTTPException(status_code, detail)`
pub data HttpError : Type 0 where
  http_error : ℕ → String → HttpError

pub record Link : Type 0 where
  pub href : String
  pub rel : String
  pub media_type : String
  pub title : String

-- The values that `_normalized_filenames` tells apart: a text or a list of texts.
pub data FilenameValue : Type 0 where
  one : String → FilenameValue
  many : List String → FilenameValue

-- A row of `import_run` with the key `filenames`, which the table itself does not have.
pub record JobRun : Type 0 where
  pub run : Run
  pub filenames : Option FilenameValue

pub record JobPayload : Type 0 where
  pub type_name : String
  pub job_id : String
  pub status : String
  pub links : List Link
  pub updated : Option String
  pub phase : Option String
  pub total_features : Option ℕ
  pub processed_features : ℕ
  pub succeeded_features : ℕ
  pub failed_features : ℕ
  pub processed_batches : ℕ
  pub succeeded_batches : ℕ
  pub failed_batches : ℕ
  pub process_id : String
  pub progress : Option ℕ
  pub created : Option String
  pub started : Option String
  pub finished : Option String
  pub last_error : LastError
  pub filenames : Option (List String)
  pub message : Option String

pub record JobSummary : Type 0 where
  pub job_id : String
  pub processed_features : ℕ
  pub succeeded_features : ℕ
  pub failed_features : ℕ
  pub processed_batches : ℕ
  pub succeeded_batches : ℕ
  pub failed_batches : ℕ
  pub total_features : Option ℕ
  pub completed : Option ℕ
  pub filenames : Option (List String)

pub record JobList : Type 0 where
  pub jobs : List JobPayload
  pub links : List Link

-- `value in values`
abbrev pub in_values : List String → String → Bool
in_values values value = any_of (λ v. v == value) values

-- The event that `record_accepted_import` records.
abbrev pub accepted_event : String → String → ImportEvent
accepted_event import_id dataset_name = record no_keys {
  import_id = some import_id;
  event = some "import.accepted";
  phase = some "accepted";
  profile = some dataset_name;
}

unfoldable pub record_accepted_import :
    ℕ → String → String → Database → Result EventError (Option Run × Database)
record_accepted_import now import_id dataset_name db =
    record_import_event now (accepted_event import_id dataset_name) none db

unfoldable pub run_is_terminal : Option Run → Bool
run_is_terminal none = false
run_is_terminal (some r) = elim r.status [ RunStatus.running ↦ false | _ ↦ true ]

-- The status is read in one transaction, on `seen`, and the event recorded in a later one, on `db`.
unfoldable pub record_terminal_event_if_running :
    ℕ → String → ImportEvent → Database → Database → Result EventError Database
unfolding run_is_terminal
record_terminal_event_if_running now import_id e seen db =
    if run_is_terminal (get_import_run import_id seen)
    then ok db
    else record_import_event now e none db >>= λ (row, db'). ok db'

abbrev pub is_phase : String → Option String → Bool
is_phase p none = false
is_phase p (some q) = q == p

unfoldable pub map_status : Run → String
map_status r = elim r.status [
  | RunStatus.completed ↦ "successful"
  | RunStatus.failed ↦ "failed"
  | RunStatus.running ↦
      if not (is_some r.phase) || is_phase "accepted" r.phase then "accepted" else "running"
]

unfoldable pub mounted_url : String → String → String
mounted_url base_url path = concat (rstrip (λ c. eqb c b'/') base_url ∷ path ∷ [])

unfoldable pub service_link : String → String → String → Link
service_link href rel title = record {
  href = href;
  rel = rel;
  media_type = "application/json";
  title = title;
}

unfoldable pub mounted_link : String → String → String → String → Link
unfolding service_link mounted_url
mounted_link base_url path rel title = service_link (mounted_url base_url path) rel title

unfoldable pub job_links : Run → String → String → List Link
unfolding mounted_link map_status
job_links r base_url results_rel =
    let links =
      mounted_link base_url (concat ("/jobs/" ∷ r.id ∷ [])) "self" "This document"
      ∷ mounted_link base_url "/jobs" "up" "Job list"
      ∷ [] in
    if map_status r == "successful"
    then links
      ++ mounted_link base_url (concat ("/jobs/" ∷ r.id ∷ "/results" ∷ [])) results_rel
          "Job results"
        ∷ []
    else links

-- The items that are not blank, stripped.
unfoldable pub stripped : List String → List String
stripped [] = []
stripped (item ∷ items) =
    let rest = stripped items in if is_empty (strip item) then rest else strip item ∷ rest

unfoldable pub normalized_filenames : Option FilenameValue → Option (List String)
unfolding stripped
normalized_filenames none = none
normalized_filenames (some (one value)) =
    let filename = strip value in if is_empty filename then none else some (filename ∷ [])
normalized_filenames (some (many values)) = elim (stripped values) [
  | [] ↦ none
  | f ∷ fs ↦ some (f ∷ fs)
]

abbrev pub text_value : Option String → Option FilenameValue
text_value none = none
text_value (some s) = some (one s)

abbrev pub list_value : Option (List String) → Option FilenameValue
list_value none = none
list_value (some l) = some (many l)

-- The loop of `_import_filenames` over the first events of the import.
unfoldable pub first_filenames : List StoredEvent → Option (List String)
unfolding normalized_filenames
first_filenames [] = none
first_filenames (e ∷ es) =
    coalesce (normalized_filenames (list_value e.payload.filenames))
      (coalesce (normalized_filenames (text_value e.payload.filename)) (first_filenames es))

unfoldable pub import_filenames : String → Database → Option (List String)
unfolding first_filenames
import_filenames import_id db = first_filenames (get_import_events import_id 5 db)

unfoldable pub run_with_filenames : JobRun → Database → JobRun
unfolding import_filenames
run_with_filenames j db =
    elim (coalesce (normalized_filenames j.filenames) (
      coalesce (import_filenames j.run.id db) (normalized_filenames (text_value j.run.filename)))) [
        | none ↦ j
        | some names ↦ record j { filenames = some (many names) }
      ]

unfoldable pub job_message : String → LastError → Option String
job_message status last_error = elim last_error.reason [
  | some reason ↦ some reason
  | none ↦
      if status == "accepted"
      then some "Import accepted"
      else if status == "running"
      then some "Import running"
      else if status == "successful"
      then some "Import completed"
      else none
]

-- `max(0, min(100, n))`
unfoldable pub clamp_percent : ℤ → ℕ
clamp_percent (pos n) = min 100 n
clamp_percent (negsuc n) = 0
