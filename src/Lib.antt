-- ===== src/Lib.antt =====
-- The job tracking and import services of this repository and the resolution of its dataset
-- descriptions, as functions and records, and the theorems about them.
--
-- A client uploads features to gcjobs, which records an accepted run and forwards the bytes to
-- gcimport. gcimport checks the upload, upserts the features in batches at the feature API and
-- publishes an event per batch and at the end. gcjobs consumes the events, keeps the run's
-- counters and answers the job resources from them.
--
-- gcjobs/src/gcjobs, the modules under Jobs:
-- - Jobs/Event.antt: the keys of an import event and `_run_updates_for_event` (db.py).
-- - Jobs/Runs.antt: the tables import_run and import_event (alembic/versions) and every statement
--   on them in db.py. `record_import_event` is one function, since it is one transaction; a run is
--   found by its id, and a message id that stands already ends the transaction.
-- - Jobs/Storage.antt, Jobs/Storage/Payload.antt: the job resources, their links, filters, results
--   and `record_terminal_event_if_running` (storage.py).
-- - Jobs/Service.antt: the bounded request body, `queue_import_request`, `proxy_import` and
--   `consume_import_events` (service.py). The consumer is a function of the messages in their
--   order, each with the outcome of its transaction and of its acknowledgement, and its state tells
--   which messages were acknowledged and whether it still listens. `record_terminal_event_if_running`
--   reads one state of the tables and writes to a later one.
-- - Jobs/Datasets.antt: the dataset catalogue (datasets.py), on the files of a directory.
-- - Jobs/Routing.antt: the routes of a dataset's job API (routing.py) as one handler, which answers
--   a request and returns the service after it.
-- - The other files below Jobs/Runs, Jobs/Storage, Jobs/Service, Jobs/Datasets and Jobs/Routing are
--   proofs about these.
--
-- gcimport/src/gcimport, the modules under Import:
-- - Import/Json.antt: JSON values as `json.loads` yields them, over any type of numbers. An object
--   is the list of its fields.
-- - Import/Profile.antt: `ImportProfile` (profiles/base.py).
-- - Import/Geometry.antt: `_transform_geometry` and what it calls (importer.py).
-- - Import/Feature.antt: `_prepare_feature`, `_identity_values` and `_select_geometry`.
-- - Import/Document.antt: `prepare_document` and the merging of features of one identity.
-- - Import/Batches.antt: `import_features`, its chunks and the reading of the response. The result
--   stands beside the slots and the events so far, since the events of an import that fails have
--   been published.
-- - Import/Convert.antt: `convert_document` (parsers/geojson_to_jsonfg.py).
-- - Import/Sosi.antt, Import/Sosi/Lines.antt: `parse_text` and `summarize_tree`
--   (parsers/sosi.py). The open nodes are a stack beside the tree; a node is put into its parent
--   when the parser leaves it.
-- - Import/App.antt: `_handle_import_request` and what it calls (app.py), with the reading of the
--   upload in Import/App/Uploads.antt, the summary of SOSI files in Import/App/Summary.antt, and
--   answers in Import/App/Answer.antt. An answer stands beside the events published on the way to it.
-- - The other files below Import/App, the files below Import/Sosi but for Lines, and those below
--   Import/Profile, Import/Geometry, Import/Document, Import/Batches and Import/Convert are proofs
--   about these.
--
-- geocomponents/src/geocomponents, the modules under Descriptions:
-- - Descriptions/Models.antt: the raw and the resolved models with their validators
--   (descriptions/models.py). What pydantic has parsed is given.
-- - Descriptions/Fields.antt, Descriptions/Derived.antt, Descriptions/Loader.antt: `resolve_dataset`
--   and what it calls (descriptions/loader.py), and the ids of processes/registry.py.
-- - The files below these are proofs about them.
--
-- Tracking joins the two services: the events of a request of gcimport are the messages that
-- gcjobs consumes, in their order. Tracking.antt says when they are delivered once each; the files
-- below it follow one request to the end of its run.
--
-- Prelude holds what all share: exceptions as results, dictionaries in insertion order, the
-- operations on texts, and lists measured by native numbers.
--
-- Parameters, wherever a definition uses them: `str.casefold`, `str` on a property value, the
-- equality of property dictionaries, `math.isfinite`, pyproj's transformers, `uuid.UUID`, the
-- regular expressions of `normalize_crs`, `str.title`, `str.lower`, `str.isdigit`, the numeric
-- parse of a SOSI token, `uuid4`, `Path.suffix`, the decoding of bytes and `json.loads`, the
-- rounded percentage, the text of a timestamp, the parsing of a header's integer, the order in
-- which PostgreSQL gives the rows of `order by last_event_at desc` (which leaves open how equal
-- times stand), the answer of the feature API and a profile's `property_transform`. Messages of
-- exceptions are constructors.
--
-- Bounds: a time is a natural number, and so is a counter of a run, where its column has 32 bits. A
-- sum beyond them, like any other error of the database, makes PostgreSQL refuse the transaction,
-- which for a consumed message is `store_succeeds = false`; elsewhere the transactions are taken to
-- go through. A transaction that is rolled back leaves the tables as they were; the number that it
-- may have taken from the identity sequence is not followed. `chunked_rounds` has as many rounds as
-- there are items, which is enough for a positive batch size, the only sizes that gcimport's
-- configuration admits. An event's optional keys are typed as the publisher writes them, with a
-- natural number as the batch size, and the callback that publishes a batch event does not raise.
--
-- Outside the model: HTTP, Redis and PostgreSQL themselves, the cancellation of tasks, the
-- applications' wiring and settings, the reading of YAML, the schema that is built from the
-- descriptions, the feature API and the map viewer.
mod Prelude
pub mod Jobs
pub mod Import
pub mod Tracking
pub mod Descriptions
