-- ===== src/Tracking/Completed.antt =====
-- The run of a request that imports features, once the events of the import are consumed.
use topografisk_gdb_api.Prelude.{
  ℕ, ◌+◌, ◌≤◌, arith, String, ◌≡◌, ap, ◌∙◌, false, Option, some, List, ok,
}
use topografisk_gdb_api.Jobs.Event.{RunStatus}
use topografisk_gdb_api.Jobs.Runs.{Run, Database, find_run}
use topografisk_gdb_api.Jobs.Service.{ImportEventMessage, consume_import_events}
use topografisk_gdb_api.Import.Batches.{Imported}
use topografisk_gdb_api.Import.App.{Services, request_import_id, handle_import_request}
use topografisk_gdb_api.Import.App.Answer.{imported}
use topografisk_gdb_api.Import.App.Uploads.{UploadFile}
use topografisk_gdb_api.Import.App.Lifecycle.{
  request_of, is_refused, handle_import_request-IsHandled,
}
use topografisk_gdb_api.Tracking.{IsDelivered, IsEventOf, events_of, apply_messages}
use topografisk_gdb_api.Tracking.Applied.{consume-applied}
use topografisk_gdb_api.Tracking.Ended.{
  is_uncaught, status_of, All-events_of, handled-IsTracked, consume-handle_import_request,
}
use topografisk_gdb_api.Tracking.Counted.{
  apply_messages-counted, handle_import_request-IsCounted, succeeded_sum, failed_sum,
}

-- The run has completed, with this many more features upserted and no more failed.
abbrev pub IsCompletedWith : ℕ → Run → Run → Type 0
IsCompletedWith total before after =
    (after.status ≡ RunStatus.completed)
    × ((at : ℕ) × (after.completed_at ≡ some at))
    × (after.succeeded_features ≡ before.succeeded_features + total)
    × (after.failed_features ≡ before.failed_features)

module _ {N : Type 0} (k : Services N) where
  -- Of a request that imports features, with a positive batch size, let the published events be
  -- delivered in their order, each once and as a new message that is recorded and acknowledged, while
  -- the run of the import is stored. Once they are consumed, the run has completed, its count of succeeded features is
  -- larger by the number of imported features, and its count of failed ones is as it was.
  pub consume-imported :
      (profile_name : String) (requested_id : Option String) (files : List UploadFile) (total : ℕ)
      (slots : List (Option Imported)) (ms : List ImportEventMessage) (db : Database) (r : Run)
      → let m = handle_import_request k profile_name requested_id files in
        let id = request_import_id k requested_id in
        1 ≤ k.upsert_batch_size
        → m.outcome ≡ ok (imported total slots)
        → events_of ms ≡ m.events
        → IsDelivered db.events ms
        → find_run id db.runs ≡ some r
        → (after : Run) × (find_run id (consume_import_events ms db).db.runs ≡ some after)
          × IsCompletedWith total r after
  consume-imported profile_name requested_id files total slots ms db r positive done carried
        delivered stored =
      let m = handle_import_request k profile_name requested_id files in
      let id = request_import_id k requested_id in
      let started : is_refused m.outcome ≡ false = ap (λ o. is_refused o) done in
      let caught : is_uncaught m.outcome ≡ false = ap (λ o. is_uncaught o) done in
      let (after, found, (status, ended)) =
        consume-handle_import_request k profile_name requested_id files ms db r started caught
          carried delivered stored in
      let tracked =
        handled-IsTracked id (request_of k profile_name files) m started caught
          (handle_import_request-IsHandled k profile_name requested_id files) in
      let applied =
        consume-applied ms db id r delivered
          (All-events_of (IsEventOf id) ms (rw carried tracked.own)) stored in
      let same : after ≡ apply_messages ms r = cc (found, applied) in
      let counts = apply_messages-counted ms r in
      let counted =
        handle_import_request-IsCounted k profile_name requested_id files total slots positive
          done in
      (
        after,
        found,
        (
          status ∙ ap (λ o. status_of o) done,
          ended,
          rw same (
              counts.0
              ∙ ap (λ n. r.succeeded_features + n)
                  (ap (λ es. succeeded_sum es) carried ∙ counted.0)),
          rw same (omega (arith, counts.1, ap (λ es. failed_sum es) carried, counted.1)),
        ),
      )
