-- ===== src/Jobs/Service.antt =====
-- gcjobs/src/gcjobs/service.py: bounded uploads, queued imports and the consumer of import events.
-- Parameters: `int` on a header's text; the import id that `uuid4` draws; what the HTTP client does
-- with a forwarded import. A task is forwarded after the request that queued it.
pub mod Delivery
pub mod Stopping
pub mod Uploads
pub mod Forwarding
use topografisk_gdb_api.Prelude.{
  ℕ, ◌+◌, ltb, String, Bool, true, false, Option, none, some, List, [], ◌∷◌, ◌++◌, if◌then◌else◌,
  length, Result, ok, err, ◌>>=◌, ◌>>◌, raise_if,
}
use topografisk_gdb_api.Prelude.Int.{ℤ, pos, negsuc}
use topografisk_gdb_api.Prelude.Text.{concat}
use topografisk_gdb_api.Jobs.Event.{ImportEvent, no_keys}
use topografisk_gdb_api.Jobs.Runs.{Run, Database, EventError, storage_failed, record_import_event}
use topografisk_gdb_api.Jobs.Storage.{
  HttpError, http_error, record_accepted_import, record_terminal_event_if_running,
}

-- `_declared_content_length`: the header's value, where it is a number that is not negative.
unfoldable pub declared_content_length : (String → Option ℤ) → Option String → Option ℕ
declared_content_length parse_int none = none
declared_content_length parse_int (some raw_value) = elim (parse_int raw_value) [
  | none ↦ none
  | some value ↦ elim value [ pos n ↦ some n | negsuc n ↦ none ]
]

abbrev pub too_large : HttpError
too_large = http_error 413 "upload exceeds size limit"

abbrev pub exceeds : Option ℕ → ℕ → Bool
exceeds none max_bytes = false
exceeds (some declared) max_bytes = ltb max_bytes declared

-- The `async for` over the request's stream, after `total_bytes` bytes in `chunks`.
unfoldable pub read_chunks : ℕ → ℕ → List ℕ → List (List ℕ) → Result HttpError (List ℕ)
read_chunks max_bytes total_bytes chunks [] = ok chunks
read_chunks max_bytes total_bytes chunks (chunk ∷ stream) =
    let total = total_bytes + length chunk in
    let rest = read_chunks max_bytes total (chunks ++ chunk) stream in
    if ltb max_bytes total then err too_large else rest

-- `_read_bounded_request_body`, on the `content-length` header and the chunks of the stream.
unfoldable pub read_bounded_request_body :
    (String → Option ℤ) → Option String → List (List ℕ) → ℕ → Result HttpError (List ℕ)
unfolding declared_content_length read_chunks
read_bounded_request_body parse_int header stream max_bytes =
    raise_if (exceeds (declared_content_length parse_int header) max_bytes) too_large
    >> read_chunks max_bytes 0 [] stream

-- A task of `root_app.state.proxy_tasks`: the arguments of `proxy_import`.
pub record ProxyTask : Type 0 where
  pub import_id : String
  pub profile_name : String
  pub content_type : String
  pub payload : List ℕ

pub record Service : Type 0 where
  pub db : Database
  pub proxy_tasks : List ProxyTask

pub data QueueError : Type 0 where
  refused : HttpError → QueueError
  not_recorded : EventError → QueueError

abbrev pub lift_http {ℓ} : {A : Type ℓ} → Result HttpError A → Result QueueError A
lift_http (ok a) = ok a
lift_http (err e) = err (refused e)

abbrev pub lift_event {ℓ} : {A : Type ℓ} → Result EventError A → Result QueueError A
lift_event (ok a) = ok a
lift_event (err e) = err (not_recorded e)

abbrev pub content_type_or_default : Option String → String
content_type_or_default none = "application/octet-stream"
content_type_or_default (some t) = t

-- `queue_import_request`: the id that it returns, and the service after it.
unfoldable pub queue_import_request :
    (String → Option ℤ)
    → ℕ
    → String
    → ℕ
    → Option String
    → Option String
    → List (List ℕ)
    → String
    → Service
    → Result QueueError (String × Service)
unfolding read_bounded_request_body record_accepted_import
queue_import_request parse_int max_bytes import_id now length_header type_header stream dataset_name
      s =
    lift_http (read_bounded_request_body parse_int length_header stream max_bytes) >>= λ payload.
    lift_event (record_accepted_import now import_id dataset_name s.db) >>= λ (row, db). ok (
      import_id,
      record {
        db = db;
        proxy_tasks =
            record {
              import_id = import_id;
              profile_name = dataset_name;
              content_type = content_type_or_default type_header;
              payload = payload;
            }
            ∷ s.proxy_tasks;
      },
    )

-- What the client's `post` and `raise_for_status` do: nothing to report, or an `HTTPError` with its text.
abbrev pub ForwardOutcome : Type 0
ForwardOutcome = Option String

abbrev pub forwarding_failed : ProxyTask → String → ImportEvent
forwarding_failed task reason = record no_keys {
  import_id = some task.import_id;
  event = some "import.completed.failed";
  phase = some "forwarding";
  profile = some task.profile_name;
  reason = some (concat ("gcjobs could not reach gcimport: " ∷ reason ∷ []));
}

-- `seen` holds the tables when the run's status is read, `db` when the event is recorded.
unfoldable pub proxy_import :
    ℕ → ForwardOutcome → ProxyTask → Database → Database → Result EventError Database
unfolding record_terminal_event_if_running
proxy_import now none task seen db = ok db
proxy_import now (some reason) task seen db =
    record_terminal_event_if_running now task.import_id (forwarding_failed task reason) seen db

-- A message of the event stream, the time at which it is recorded, whether the transaction that
-- records it goes through, and whether its acknowledgement reaches Redis: where it does not, `ack`
-- raises after the event is recorded.
pub record ImportEventMessage : Type 0 where
  pub event : ImportEvent
  pub message_id : Option String
  pub at : ℕ
  pub store_succeeds : Bool
  pub ack_succeeds : Bool

-- `record_import_event` of the consumer: a transaction that does not go through is rolled back, and
-- raises.
unfoldable pub record_message :
    ImportEventMessage → Database → Result EventError (Option Run × Database)
record_message m db = record_import_event m.at m.event m.message_id db >>= λ recorded.
    if m.store_succeeds then ok recorded else err storage_failed

-- The tables after the messages, those acknowledged, in order, and whether the loop is still
-- running: an exception ends it.
pub record Consumed : Type 0 where
  pub db : Database
  pub acked : List ImportEventMessage
  pub listening : Bool

abbrev pub and_acked : ImportEventMessage → Consumed → Consumed
and_acked m c = record c { acked = m ∷ c.acked }

-- What follows the recording of a message: its acknowledgement, then the rest of the loop.
abbrev pub after_ack : Bool → ImportEventMessage → Database → Consumed → Consumed
after_ack false m db rest = record { db = db; acked = []; listening = false }
after_ack true m db rest = and_acked m rest

unfoldable pub consume_import_events : List ImportEventMessage → Database → Consumed
unfolding record_message
consume_import_events [] db = record { db = db; acked = []; listening = true }
consume_import_events (m ∷ ms) db = elim (record_message m db) [
  | err e ↦ record { db = db; acked = []; listening = false }
  | ok (row, db') ↦ after_ack m.ack_succeeds m db' (consume_import_events ms db')
]
