-- ===== src/Jobs/Routing.antt =====
-- gcjobs/src/gcjobs/routing.py: the routes of a dataset's job API. The texts of a request, the
-- functions of Python on texts and the parameters of the job payload are parameters.
pub mod Executing
mod Tests
use Prim.Native.String
use topografisk_gdb_api.Prelude.{
  ℕ, String, Bool, true, false, not, ◌&&◌, ◌||◌, Option, none, some, List, [], ◌∷◌, ◌++◌, map, ◌==◌,
  eqb, leb, if◌then◌else◌, is_nonempty, Result, ok, err,
}
use topografisk_gdb_api.Prelude.Int.{ℤ}
use topografisk_gdb_api.Prelude.Text.{
  concat, is_empty, strip, rstrip, has_prefix, drop_chars, split_on,
}
use topografisk_gdb_api.Jobs.Runs.{EventError, Database, Run}
use topografisk_gdb_api.Jobs.Storage.{
  JobQuery, JobPayloadSettings, HttpError, http_error, Link, JobPayload, JobSummary, JobList,
  stripped,
}
use topografisk_gdb_api.Jobs.Storage.Payload.{
  get_dataset_job, get_dataset_job_results, list_dataset_jobs,
}
use topografisk_gdb_api.Jobs.Service.{
  Service, QueueError, refused, not_recorded, queue_import_request,
}
use topografisk_gdb_api.Jobs.Datasets.{DatasetDescription}

abbrev pub import_process_id : String
import_process_id = "import"

abbrev pub job_list_rel : String
job_list_rel = "http://www.opengis.net/def/rel/ogc/1.0/job-list"

abbrev pub execute_rel : String
execute_rel = "http://www.opengis.net/def/rel/ogc/1.0/execute"

-- `JOB_PAYLOAD_SETTINGS`
abbrev pub job_payload_settings : JobPayloadSettings
job_payload_settings = record {
  process_job_type = "process";
  import_process_id = import_process_id;
  results_rel = "http://www.opengis.net/def/rel/ogc/1.0/results";
}

pub record DatasetMount : Type 0 where
  pub dataset : DatasetDescription
  pub mount_path : String
  pub api_url : String

unfoldable pub mount_path : String → String
mount_path name = concat ("/datasets/" ∷ name ∷ "/ogc_api" ∷ [])

pub record DatasetEntry : Type 0 where
  pub id : String
  pub title : String
  pub description : String
  pub processes : List String
  pub links : List Link

-- An entry of `dataset_index`.
unfoldable pub dataset_entry : DatasetMount → DatasetEntry
dataset_entry mount = record {
  id = mount.dataset.name;
  title = mount.dataset.title;
  description = mount.dataset.description;
  processes = if mount.dataset.import_enabled then import_process_id ∷ [] else [];
  links =
      record {
        href = concat (mount.api_url ∷ "/" ∷ []);
        rel = "service-desc";
        media_type = "application/json";
        title = concat ("OGC API for '" ∷ mount.dataset.name ∷ "'" ∷ []);
      }
      ∷ [];
}

unfoldable pub dataset_index : List DatasetMount → List DatasetEntry
unfolding dataset_entry
dataset_index mounts = map dataset_entry mounts

-- The parts of a request that the routes read. The application's `api_url` has no slash at its end.
pub record Request : Type 0 where
  pub api_url : String
  pub root_path : String
  pub path : String
  pub query : String
  pub content_type : Option String
  pub content_length : Option String
  pub stream : List (List ℕ)

abbrev pub without_slash : String → String
without_slash s = rstrip (λ c. eqb c b'/') s

unfoldable pub mounted_base_url : Request → String
mounted_base_url request = without_slash request.api_url

unfoldable pub mounted_url : Request → String → String
unfolding mounted_base_url
mounted_url request path = concat (mounted_base_url request ∷ path ∷ [])

unfoldable pub service_link : String → String → String → String → Link
service_link href rel title media_type = record {
  href = href;
  rel = rel;
  media_type = media_type;
  title = title;
}

abbrev pub json : String
json = "application/json"

unfoldable pub mounted_link : Request → String → String → String → String → Link
unfolding service_link mounted_url
mounted_link request path rel title media_type =
    service_link (mounted_url request path) rel title media_type

-- The path below the mount, "/" where that is empty.
abbrev pub below_root : String → String → String
below_root root path =
    if not (is_empty root) && has_prefix root path
    then (let rest = drop_chars root path in if is_empty rest then "/" else rest)
    else path

unfoldable pub public_request_url : Request → String
unfolding mounted_base_url
public_request_url request =
    let path = below_root (without_slash request.root_path) request.path in
    let url = concat (mounted_base_url request ∷ path ∷ []) in
    if is_empty request.query then url else concat (url ∷ "?" ∷ request.query ∷ [])

-- `_csv_values`: a set, here as the list of its values.
unfoldable pub csv_values : Option String → List String
csv_values none = []
csv_values (some raw) = stripped (split_on b',' raw)

pub record AcceptedJob : Type 0 where
  pub type_name : String
  pub job_id : String
  pub process_id : String
  pub status : String
  pub message : String
  pub links : List Link

unfoldable pub accepted_job_payload : Request → String → String → AcceptedJob
unfolding mounted_link
accepted_job_payload request import_id process_id = record {
  type_name = "process";
  job_id = import_id;
  process_id = process_id;
  status = "accepted";
  message = "Import accepted";
  links =
      mounted_link request (concat ("/jobs/" ∷ import_id ∷ [])) "self" "This document" json
      ∷ mounted_link request "/jobs" "up" "Job list" json
      ∷ [];
}

pub record ProcessPayload : Type 0 where
  pub id : String
  pub title : String
  pub description : String
  pub job_control_options : List String
  pub links : List Link

unfoldable pub process_payload : Request → DatasetDescription → ProcessPayload
unfolding mounted_link
process_payload request dataset = record {
  id = import_process_id;
  title = concat ("Import " ∷ dataset.title ∷ []);
  description = concat ("Asynchronously import data into the " ∷ dataset.title ∷ " dataset." ∷ []);
  job_control_options = "async-execute" ∷ [];
  links =
      mounted_link request "/processes/import" "self" "This process" json
      ∷ mounted_link request "/processes/import/execution" execute_rel "Execute process"
          "multipart/form-data"
      ∷ record {
        href = concat (mounted_url request "/jobs" ∷ "?type=process&processID=import" ∷ []);
        rel = job_list_rel;
        media_type = json;
        title = "Process jobs";
      }
      ∷ [];
}

pub record LandingPayload : Type 0 where
  pub title : String
  pub description : String
  pub links : List Link

unfoldable pub landing_payload : Request → DatasetDescription → LandingPayload
unfolding mounted_link
landing_payload request dataset = record {
  title = dataset.title;
  description = if is_empty dataset.description then dataset.title else dataset.description;
  links =
      mounted_link request "/" "self" "This document" json
      ∷ mounted_link request "/openapi" "service-desc" "OpenAPI definition" json
      ∷ mounted_link request "/processes" "http://www.opengis.net/def/rel/ogc/1.0/processes"
          "Processes" json
      ∷ mounted_link request "/jobs" job_list_rel "Jobs" json
      ∷ [];
}

pub record ProcessList : Type 0 where
  pub processes : List ProcessPayload
  pub links : List Link

unfoldable pub processes_payload : Request → DatasetDescription → ProcessList
unfolding process_payload mounted_link
processes_payload request dataset = record {
  processes = if dataset.import_enabled then process_payload request dataset ∷ [] else [];
  links = mounted_link request "/processes" "self" "This document" json ∷ [];
}

-- The query parameters of the job list.
pub record JobsParams : Type 0 where
  pub limit : Option ℕ
  pub type_values : Option String
  pub status : Option String
  pub process_id : Option String

-- The routes of `build_dataset_app`, but for the generated OpenAPI document.
pub data Route : Type 0 where
  landing processes : Route
  process execution : String → Route
  jobs : JobsParams → Route
  job job_results : String → Route

-- The answers; `unhandled` is an exception that no route catches.
pub data Response : Type 0 where
  landing_page : LandingPayload → Response
  process_list : ProcessList → Response
  process_page : ProcessPayload → Response
  created : String → AcceptedJob → Response
  job_list : JobList → Response
  job_page : JobPayload → Response
  results_page : JobSummary → Response
  refusal : HttpError → Response
  invalid_query : Response
  unhandled : EventError → Response

abbrev pub refusal_of : ℕ → String → Response
refusal_of code detail = refusal (http_error code detail)

abbrev pub of_job : Result HttpError JobPayload → Response
of_job (ok j) = job_page j
of_job (err e) = refusal e

abbrev pub of_results : Result HttpError JobSummary → Response
of_results (ok j) = results_page j
of_results (err e) = refusal e

abbrev pub limit_or_default : Option ℕ → ℕ
limit_or_default none = 10
limit_or_default (some n) = n

-- Python's functions on texts and numbers, the bound of an upload, and the id and the time that an
-- execution is given.
pub record Environment : Type 0 where
  pub casefold : String → String
  pub lower : String → String
  pub order : List Run → List Run
  pub rfc3339 : ℕ → String
  pub round_percent : ℕ → ℕ → ℤ
  pub parse_int : String → Option ℤ
  pub max_bytes : ℕ

module _ (env : Environment) (dataset : DatasetDescription) where
  -- `_normalize_process_id`, `none` for its `LookupError`.
  unfoldable pub normalize_process_id : String → Option String
  normalize_process_id process_id =
      let normalized = env.casefold (strip process_id) in
      if normalized == import_process_id then some normalized else none

  unfoldable pub get_process : Request → String → Response
  unfolding process_payload
  get_process request process_id =
      if not dataset.import_enabled || not (env.casefold process_id == import_process_id)
      then refusal_of 404 "process not found"
      else process_page (process_payload request dataset)

  abbrev pub is_multipart : Option String → Bool
  is_multipart none = false
  is_multipart (some t) = has_prefix "multipart/form-data" (env.lower t)

  -- What follows the checks of an execution.
  abbrev pub queued :
      Request → String → Service → Result QueueError (String × Service) → Response × Service
  queued request process_id s (err (refused e)) = (refusal e, s)
  queued request process_id s (err (not_recorded e)) = (unhandled e, s)
  queued request process_id s (ok (import_id, s')) = (
    created (mounted_url request (concat ("/jobs/" ∷ import_id ∷ [])))
        (accepted_job_payload request import_id process_id),
    s',
  )

  -- `execute_process`, for the id that `uuid4` gives and the time of the event.
  unfoldable pub execute_process : String → ℕ → Request → String → Service → Response × Service
  execute_process import_id now request process_id s =
      if not dataset.import_enabled
      then (refusal_of 404 "process not found", s)
      else elim (normalize_process_id process_id) [
        | none ↦ (refusal_of 404 "processID must be one of: import", s)
        | some normalized ↦
            if not (is_multipart request.content_type)
            then (refusal_of 415 "Import processes require multipart/form-data uploads", s)
            else queued request normalized s (
                queue_import_request env.parse_int env.max_bytes import_id now
                  request.content_length request.content_type request.stream dataset.name s)
      ]

  unfoldable pub get_jobs : Request → JobsParams → Database → Response
  unfolding csv_values mounted_base_url public_request_url
  get_jobs request params db =
      let limit = limit_or_default params.limit in
      if leb 1 limit && leb limit 10000
      then job_list (
          list_dataset_jobs env.casefold env.rfc3339 env.round_percent env.order
            (record {
              dataset_name = dataset.name;
              limit = limit;
              type_values = csv_values params.type_values;
              process_ids = csv_values params.process_id;
              statuses = csv_values params.status;
              base_url = mounted_base_url request;
              public_url = public_request_url request;
            })
            job_payload_settings db)
      else invalid_query

  -- `build_dataset_app`: the answer of a route and the service after it.
  unfoldable pub handle : String → ℕ → Request → Route → Service → Response × Service
  unfolding execute_process get_process get_jobs landing_payload processes_payload mounted_base_url
  handle import_id now request landing s = (landing_page (landing_payload request dataset), s)
  handle import_id now request processes s = (process_list (processes_payload request dataset), s)
  handle import_id now request (process id) s = (get_process request id, s)
  handle import_id now request (execution id) s = execute_process import_id now request id s
  handle import_id now request (jobs params) s = (get_jobs request params s.db, s)
  handle import_id now request (job id) s = (
    of_job (
        get_dataset_job env.casefold env.rfc3339 env.round_percent dataset.name id
          (mounted_base_url request) job_payload_settings s.db),
    s,
  )
  handle import_id now request (job_results id) s =
      (of_results (get_dataset_job_results env.casefold dataset.name id s.db), s)
