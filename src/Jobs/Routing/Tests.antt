-- ===== src/Jobs/Routing/Tests.antt =====
-- Requests to the job routes, and a directory of descriptions, at concrete inputs.
use topografisk_gdb_api.Prelude.{
  ◌⊎◌, String, ◌≡◌, refl, true, is_nonempty, none, some, List, [], ◌∷◌, arith, ok, err, Result,
}
use topografisk_gdb_api.Prelude.Int.{pos}
use topografisk_gdb_api.Prelude.Text.{strip, concat, has_prefix}
use topografisk_gdb_api.Jobs.Runs.{empty, find_run}
use topografisk_gdb_api.Jobs.Service.{Service, declared_content_length}
use topografisk_gdb_api.Jobs.Storage.{JobPayload}
use topografisk_gdb_api.Jobs.Datasets.{
  DescriptionError, DatasetDescription, DescriptionFile, directory, dataset_files, load_files,
  load_dataset_descriptions,
}
use topografisk_gdb_api.Jobs.Datasets.Loaded.{IsLoaded, load_dataset_descriptions-IsLoaded}
use topografisk_gdb_api.Jobs.Routing.{
  Environment, Request, execution, created, job, job_page, mounted_url, accepted_job_payload,
  import_process_id, handle,
}
use topografisk_gdb_api.Jobs.Routing.Executing.{IsCreated, execute-job, handle_unchanged}

abbrev unchanged : String → String
unchanged s = s

abbrev environment : Environment
environment = record {
  casefold = unchanged;
  lower = unchanged;
  order = λ runs. runs;
  rfc3339 = λ _. "2026-08-19T00:00:00Z";
  round_percent = λ _ _. pos 0;
  parse_int = λ _. some (pos 3);
  max_bytes = 10;
}

abbrev bane : DatasetDescription
bane = record { name = "fkb_bane"; title = "FKB-Bane"; description = ""; import_enabled = true }

abbrev request : Request
request = record {
  api_url = "http://localhost";
  root_path = "/fkb_bane";
  path = "/fkb_bane/processes/import/execution";
  query = "";
  content_type = some "multipart/form-data; boundary=x";
  content_length = some "3";
  stream = (1 ∷ 2 ∷ []) ∷ (3 ∷ []) ∷ [];
}

abbrev idle : Service
idle = record { db = empty; proxy_tasks = [] }

execute-job_example :
    (after : Service) × (j : JobPayload) × (handle environment bane "a1" 5 request
        (execution " import ")
        idle
      ≡ (
        created
            (mounted_url request (concat ("/jobs/" ∷ "a1" ∷ [])))
            (accepted_job_payload request "a1" import_process_id),
        after,
      ))
    × (handle environment bane "a1" 6 request (job "a1") after ≡ (job_page j, after))
    × (j.job_id ≡ "a1")
    × (j.status ≡ "accepted")
unfolding strip declared_content_length find_run has_prefix
execute-job_example =
    execute-job environment bane "a1" " import " 5 6 request request idle refl refl refl refl
      (omega arith) refl

handle_unchanged_example :
    let (response, after) = handle environment bane "a1" 5 request (execution "import") idle in
    (after ≡ idle) ⊎ IsCreated environment bane response
handle_unchanged_example =
    handle_unchanged environment bane "a1" 5 request (execution "import") idle

abbrev file_of : String → String → DescriptionFile
file_of file_name name = record {
  file_name = file_name;
  mapping = some (record { name = some name; title = none; description = some " Jernbane " });
}

abbrev files : List DescriptionFile
files =
    record { file_name = "commons.yaml"; mapping = none } ∷ file_of "bane.yaml" " fkb_bane " ∷ []

abbrev or_none : Result DescriptionError (List DatasetDescription) → List DatasetDescription
or_none (ok ds) = ds
or_none (err e) = []

abbrev loaded : List DatasetDescription
loaded = or_none (load_dataset_descriptions unchanged unchanged ("fkb_bane" ∷ []) (directory files))

load_dataset_descriptions-IsLoaded_example :
    IsLoaded ("fkb_bane" ∷ []) [] (dataset_files unchanged unchanged files) loaded
    × (is_nonempty loaded ≡ true)
unfolding load_dataset_descriptions load_files strip
load_dataset_descriptions-IsLoaded_example =
    load_dataset_descriptions-IsLoaded unchanged unchanged ("fkb_bane" ∷ []) files loaded refl
