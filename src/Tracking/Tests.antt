-- ===== src/Tracking/Tests.antt =====
-- An upload that is imported, and its run, at concrete inputs.
use topografisk_gdb_api.Import.App.Bounded.{IsBounded, read_uploaded_files-IsBounded}
use topografisk_gdb_api.Import.Geometry.{
  transform_geometry, transform_coordinates, transform_line, enumerate_result, transform_position,
  position_of, iter_positions,
}
use topografisk_gdb_api.Import.Document.{
  prepare_document, prepare_features, identified, identity_of, place_item,
}
use topografisk_gdb_api.Prelude.{
  ℕ, String, ◌≡◌, refl, true, false, Option, none, some, List, [], ◌∷◌, arith, err,
}
use topografisk_gdb_api.Prelude.Dict
use topografisk_gdb_api.Prelude.Text.{strip}
use topografisk_gdb_api.Jobs.Event.{ImportEvent, no_keys, RunStatus}
use topografisk_gdb_api.Jobs.Runs.{Run, Database, new_run, find_run, conflicts}
use topografisk_gdb_api.Jobs.Service.{ImportEventMessage, consume_import_events}
use topografisk_gdb_api.Import.Json.{
  Json, text, number, array, object, nil, cons, end, field, get_field, find_field,
}
use topografisk_gdb_api.Import.Profile.{
  ImportProfile, collection_for, geometry_type_for_collection, properties_for_upstream,
}
use topografisk_gdb_api.Import.Feature.{Checker, prepare_feature, select_geometry, identity_values}
use topografisk_gdb_api.Import.Batches.{Imported, import_features}
use topografisk_gdb_api.Import.App.{Services, request_import_id, handle_import_request}
use topografisk_gdb_api.Import.App.Answer.{bad_json, Ran, ImportResult}
use topografisk_gdb_api.Import.App.Uploads.{UploadFile, read_uploaded_files}
use topografisk_gdb_api.Import.App.Lifecycle.{
  request_of, IsHandled, handle_import_request-IsHandled,
}
use topografisk_gdb_api.Tracking.Ended.{IsEnded, consume-handle_import_request}
use topografisk_gdb_api.Tracking.Completed.{IsCompletedWith, consume-imported}

abbrev unchanged : String → String
unchanged s = s

abbrev bane : ImportProfile ℕ
bane = record {
  name = "bane";
  title = "FKB-Bane";
  dataset_api_path = "/fkb_bane";
  target_crs = "EPSG:5972";
  geometry_type = "LineString";
  collections = ("spormidt", "spormidt" ∷ []) ∷ [];
  required_fields = ("spormidt", []) ∷ [];
  identity_fields = "id" ∷ [];
  geometry_types = ("spormidt", "LineString") ∷ [];
  merge_duplicate_multilinestrings = false;
  property_transform = none;
}

abbrev text_of : Json ℕ → String
text_of (text s) = s
text_of _ = ""

abbrev checker : Checker ℕ
checker = record {
  is_finite = λ _. true;
  transformers = λ _ _. some (λ ns. some ns);
  casefold = unchanged;
  str = text_of;
  same_fields = λ _ _. true;
}

abbrev position : ℕ → Json ℕ
position n = array (cons (number n) (cons (number n) nil))

abbrev feature : Json ℕ
feature = object (
    field "type" (text "Feature") (
      field "featureType" (text "spormidt") (
        field "geometry"
          (object (
            field "type" (text "LineString")
              (field "coordinates" (array (cons (position 1) (cons (position 2) nil))) end)))
          (field "properties" (object (field "id" (text "f1") end)) end))))

abbrev document : Json ℕ
document = object (
    field "type" (text "FeatureCollection")
      (field "conformsTo" (array nil) (field "features" (array (cons feature nil)) end)))

abbrev services : Services ℕ
services = record {
  checker = checker;
  profiles = ("bane", bane) ∷ [];
  uuid4 = "a1";
  suffix = λ _. ".json";
  decode = λ _. none;
  loads = λ _. some document;
  epsg_code = λ _. none;
  parse_uuid = λ s. some s;
  parse_token = λ _. none;
  is_digit = λ _. false;
  upstream = λ url collection features. some (record {
    status_code = 200;
    body =
        some
          (object (field "features" (array (cons (object (field "id" (text "f1") end)) nil)) end));
  });
  geocomponents_api_url = "http://localhost/";
  upsert_batch_size = 10;
  max_upload_bytes = 100;
  conversion_text = λ _. "";
  problem_text = λ _. "";
  reason_text = λ _. "";
  sosi_text = λ _. "";
}

abbrev upload_of : List ℕ → UploadFile
upload_of chunk = record { filename = none; chunks = (1 ∷ []) ∷ chunk ∷ [] }

abbrev uploads_of : List ℕ → List UploadFile
uploads_of chunk = upload_of [] ∷ upload_of chunk ∷ []

abbrev uploads : List UploadFile
uploads = record { filename = some "bane.json"; chunks = (1 ∷ []) ∷ [] } ∷ []

handle_import_request-IsHandled_example :
    IsHandled "a1"
      (request_of services "bane" uploads)
      (handle_import_request services "bane" none uploads)
unfolding request_import_id
handle_import_request-IsHandled_example =
    handle_import_request-IsHandled services "bane" none uploads

abbrev messages_of : List String → List ImportEvent → List ImportEventMessage
messages_of [] es = []
messages_of (k ∷ ks) [] = []
messages_of (k ∷ ks) (e ∷ es) =
    record { event = e; message_id = some k; at = 7; store_succeeds = true; ack_succeeds = true }
    ∷ messages_of ks es

abbrev messages : List ImportEventMessage
messages =
    messages_of ("1-0" ∷ "2-0" ∷ "3-0" ∷ "4-0" ∷ [])
      (handle_import_request services "bane" none uploads).events

abbrev accepted : Run
accepted = new_run 1 "a1" RunStatus.running no_keys

abbrev tables : Database
tables = record { runs = accepted ∷ []; events = []; next_event_id = 1 }

abbrev slots : List (Option Imported)
slots = some (record { collection = "spormidt"; id = "f1" }) ∷ []

consume-imported_example :
    (after : Run) × (find_run "a1" (consume_import_events messages tables).db.runs ≡ some after)
    × IsCompletedWith 1 accepted after
unfolding handle_import_request find_run conflicts Dict.get read_uploaded_files prepare_document
    get_field prepare_features identified prepare_feature select_geometry collection_for
    transform_geometry geometry_type_for_collection transform_coordinates transform_line
    enumerate_result transform_position position_of iter_positions identity_values strip identity_of
    find_field properties_for_upstream place_item import_features new_run
consume-imported_example =
    consume-imported services "bane" none uploads 1 slots messages tables accepted (omega arith)
      refl refl
      (
        refl,
        refl,
        refl,
        (refl, (refl, (refl, tt))),
        (
          refl,
          refl,
          refl,
          (refl, (refl, tt)),
          (refl, refl, refl, (refl, tt), (refl, refl, refl, tt, tt)),
        ),
      )
      refl

-- The bodies of the uploads are no JSON.
abbrev strict : Services ℕ
strict = record services { loads = λ _. none }

abbrev refused_run : Ran ImportResult
refused_run = handle_import_request strict "bane" (some " a1 ") uploads

abbrev two_messages : List ImportEventMessage
two_messages = messages_of ("1-0" ∷ "2-0" ∷ []) refused_run.events

consume-handle_import_request_example :
    (after : Run) × (find_run "a1" (consume_import_events two_messages tables).db.runs ≡ some after)
    × IsEnded (err bad_json) after
unfolding handle_import_request request_import_id strip find_run conflicts Dict.get
    read_uploaded_files new_run
consume-handle_import_request_example =
    consume-handle_import_request strict "bane" (some " a1 ") uploads two_messages tables accepted
      refl refl refl (refl, refl, refl, (refl, tt), (refl, refl, refl, tt, tt)) refl

read_uploaded_files-IsBounded_example :
    IsBounded 3 (uploads_of (2 ∷ [])) (read_uploaded_files 3 (uploads_of (2 ∷ [])))
read_uploaded_files-IsBounded_example =
    read_uploaded_files-IsBounded 3 (upload_of []) (upload_of (2 ∷ []) ∷ [])
