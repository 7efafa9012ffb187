-- ===== src/Tracking/Ended.antt =====
-- The run of a handled request, once its events are consumed.
use mathlib.Core.Path.{subst}
use topografisk_gdb_api.Prelude.{
  ℕ, String, ◌≡◌, refl, ap, ◌∙◌, Bool, true, false, Option, some, List, [], ◌∷◌, ◌++◌, All,
  All-weaken, All-append, Result, ok, err, inl, inr, is_some, Option-cases,
}
use topografisk_gdb_api.Jobs.Event.{ImportEvent, RunStatus, run_updates_for_event}
use topografisk_gdb_api.Jobs.Runs.{Run, Database, find_run, updated_run}
use topografisk_gdb_api.Jobs.Service.{ImportEventMessage, consume_import_events}
use topografisk_gdb_api.Import.App.{Services, request_import_id, handle_import_request}
use topografisk_gdb_api.Import.App.Answer.{
  ImportError, unknown_profile, mixed_uploads, bad_json, bad_text, upload_refused, bad_geojson,
  bad_document, bad_sosi, upstream_failed, uncaught, Ran, ImportResult, event_of,
}
use topografisk_gdb_api.Import.App.Uploads.{UploadFile, UploadedImportFile}
use topografisk_gdb_api.Import.Profile.{ImportProfile}
use topografisk_gdb_api.Import.App.Closing.{by, IsProgress, IsClosedBy, closing}
use topografisk_gdb_api.Import.App.Lifecycle.{
  handled, Refusal, unreadable, no_profile, answer_to, request_of, is_refused, IsStarted, IsHandled,
  handle_import_request-IsHandled,
}
use topografisk_gdb_api.Tracking.{IsDelivered, IsEventOf, events_of, updates_for, apply_messages}
use topografisk_gdb_api.Tracking.Applied.{consume-applied}

-- An exception that the handler does not catch.
abbrev pub is_uncaught : Result ImportError ImportResult → Bool
is_uncaught (err uncaught) = true
is_uncaught _ = false

-- What a run of the outcome is to show.
abbrev pub status_of : Result ImportError ImportResult → RunStatus
status_of (ok result) = RunStatus.completed
status_of (err e) = RunStatus.failed

abbrev last_name : Result ImportError ImportResult → String
last_name (ok result) = "import.completed.succeeded"
last_name (err e) = "import.completed.failed"

closing_named :
    (o : Result ImportError ImportResult)
    → is_refused o ≡ false
    → is_uncaught o ≡ false
    → closing handled o ≡ by (last_name o)
closing_named (ok result) r h = refl
closing_named (err uncaught) r h = absurd (cc h)
closing_named (err unknown_profile) r h = absurd (cc r)
closing_named (err mixed_uploads) r h = refl
closing_named (err bad_json) r h = refl
closing_named (err bad_text) r h = refl
closing_named (err (upload_refused e)) r h = absurd (cc r)
closing_named (err (bad_geojson e)) r h = refl
closing_named (err (bad_document ps)) r h = refl
closing_named (err (bad_sosi e)) r h = refl
closing_named (err (upstream_failed e)) r h = refl

-- Messages that carry a last event.
split_last :
    (ms : List ImportEventMessage) (xs : List ImportEvent) (y : ImportEvent)
    → events_of ms ≡ xs ++ y ∷ []
    → (before : List ImportEventMessage) × (m : ImportEventMessage) × (ms ≡ before ++ m ∷ [])
      × (m.event ≡ y)
split_last [] [] y h = absurd (cc h)
split_last [] (x ∷ xs) y h = absurd (cc h)
split_last (m ∷ []) [] y h = ([], m, refl, cc h)
split_last (m ∷ n ∷ ms) [] y h = absurd (cc h)
split_last (m ∷ ms) (x ∷ xs) y h =
    let (before, last, whole, named) = split_last ms xs y (cc h) in
    (m ∷ before, last, ap (λ (l : List ImportEventMessage). m ∷ l) whole, named)

apply_messages-append :
    (before : List ImportEventMessage) (m : ImportEventMessage) (r : Run)
    → apply_messages (before ++ m ∷ []) r
      ≡ updated_run m.at m.event (updates_for m.event) (apply_messages before r)
apply_messages-append [] m r = refl
apply_messages-append (n ∷ before) m r = apply_messages-append before m _

-- The run has ended, with the outcome's status, at the time of the message.
abbrev pub IsEnded : Result ImportError ImportResult → Run → Type 0
IsEnded o r = (r.status ≡ status_of o) × ((at : ℕ) × (r.completed_at ≡ some at))

updated-IsEnded :
    (o : Result ImportError ImportResult) (m : ImportEventMessage) (r : Run)
    → m.event.event ≡ some (last_name o)
    → IsEnded o (updated_run m.at m.event (updates_for m.event) r)
unfolding updated_run run_updates_for_event
updated-IsEnded (ok result) m r h = rw h (refl, (m.at, refl))
updated-IsEnded (err e) m r h = rw h (refl, (m.at, refl))

progress-IsEventOf :
    (base : ImportEvent) (id : String) (e : ImportEvent)
    → base.import_id ≡ some id
    → is_some e.event ≡ true
    → e.import_id ≡ base.import_id
    → IsEventOf id e
progress-IsEventOf base id e h typed own = elim (Option-cases e.event) [
  | inl none' ↦ absurd (cc (typed, ap (λ (o : Option String). is_some o) none'))
  | inr (t, named) ↦ (t, named, own ∙ h)
]

pub All-events_of :
    (P : ImportEvent → Type 0) (ms : List ImportEventMessage)
    → All P (events_of ms)
    → All (λ m. P m.event) ms
All-events_of P [] h = tt
All-events_of P (m ∷ ms) h = (h.0, All-events_of P ms h.1)

-- What the events of a started request are, where an event ends it.
pub record IsTracked (id : String) (o : Result ImportError ImportResult) (events : List ImportEvent)
    : Type 0 where
  pub before : List ImportEvent
  pub last : ImportEvent
  pub ends : events ≡ before ++ last ∷ []
  pub named : last.event ≡ some (last_name o)
  pub own : All (IsEventOf id) events

started-IsTracked :
    (id : String) (base : ImportEvent) (m : Ran ImportResult)
    → base.import_id ≡ some id
    → is_refused m.outcome ≡ false
    → is_uncaught m.outcome ≡ false
    → IsStarted base m
    → IsTracked id m.outcome m.events
started-IsTracked id base m h started caught (rest, events, (middle, (progress, closed))) =
    let start = event_of base "import.started" "parsing" in
    let (last, named, same, whole) =
      subst (λ c. IsClosedBy base c middle rest) (closing_named m.outcome started caught) closed in
    let all : m.events ≡ start ∷ middle ++ last ∷ [] =
      events ∙ ap (λ (es : List ImportEvent). start ∷ es) whole in
    record {
      before = start ∷ middle;
      last = last;
      ends = all;
      named = named;
      own = rw all (
        ("import.started", refl, h),
        All-append (IsEventOf id) middle (last ∷ [])
            (All-weaken (IsProgress base) (IsEventOf id) middle
              (λ e p. progress-IsEventOf base id e h p.1.0 p.1.1) progress)
            ((last_name m.outcome, named, same ∙ h), tt),
      );
    }

answer_to-is_refused : (e : Refusal) → is_refused (err (answer_to e)) ≡ true
answer_to-is_refused no_profile = refl
answer_to-is_refused (unreadable e) = refl

pub handled-IsTracked :
    {N : Type 0} (id : String)
    (request : Result Refusal (ImportProfile N × List UploadedImportFile)) (m : Ran ImportResult)
    → is_refused m.outcome ≡ false
    → is_uncaught m.outcome ≡ false
    → IsHandled id request m
    → IsTracked id m.outcome m.events
handled-IsTracked id (err e) m started caught (answered, quiet) =
    absurd (cc (started, ap (λ o. is_refused o) answered, answer_to-is_refused e))
handled-IsTracked id (ok request) m started caught (base, h, run) =
    started-IsTracked id base m h started caught run

pub consumed-IsEnded :
    (id : String) (o : Result ImportError ImportResult) (events : List ImportEvent)
    (ms : List ImportEventMessage) (db : Database) (r : Run)
    → IsTracked id o events
    → events_of ms ≡ events
    → IsDelivered db.events ms
    → find_run id db.runs ≡ some r
    → (after : Run) × (find_run id (consume_import_events ms db).db.runs ≡ some after)
      × IsEnded o after
consumed-IsEnded id o events ms db r tracked carried delivered stored =
    let (before, m, whole, named) =
      split_last ms tracked.before tracked.last (carried ∙ tracked.ends) in
    let own = All-events_of (IsEventOf id) ms (rw carried tracked.own) in
    (
      apply_messages ms r,
      consume-applied ms db id r delivered own stored,
      rw (whole, apply_messages-append before m r)
          (updated-IsEnded o m (apply_messages before r)
            (ap (λ (e : ImportEvent). e.event) named ∙ tracked.named)),
    )

module _ {N : Type 0} (k : Services N) where
  -- Of a request that starts its import, and whose handler leaves no exception uncaught, let the
  -- published events be delivered in their order, each once and as a new message that is recorded
  -- and acknowledged, while the run of the import is stored. Once they are consumed, the run has ended: as completed
  -- where the request was answered with a result, as failed where it was answered with an error.
  pub consume-handle_import_request :
      (profile_name : String) (requested_id : Option String) (files : List UploadFile)
      (ms : List ImportEventMessage) (db : Database) (r : Run)
      → let m = handle_import_request k profile_name requested_id files in
        let id = request_import_id k requested_id in
        is_refused m.outcome ≡ false
        → is_uncaught m.outcome ≡ false
        → events_of ms ≡ m.events
        → IsDelivered db.events ms
        → find_run id db.runs ≡ some r
        → (after : Run) × (find_run id (consume_import_events ms db).db.runs ≡ some after)
          × IsEnded m.outcome after
  consume-handle_import_request profile_name requested_id files ms db r started caught =
      let m = handle_import_request k profile_name requested_id files in
      consumed-IsEnded (request_import_id k requested_id) m.outcome m.events ms db r (
        handled-IsTracked (request_import_id k requested_id) (request_of k profile_name files) m
          started caught (handle_import_request-IsHandled k profile_name requested_id files))
