-- ===== src/Jobs/Runs/Tally.antt =====
-- The abstract view of a run's counters: a replay of the import's stored events.
use topografisk_gdb_api.Prelude.{
  ℕ, ◌+◌, String, ◌≡◌, refl, Bool, false, ◌||◌, List, [], ◌∷◌, ◌++◌, arith, ◌==◌, if◌then◌else◌,
  is_some,
}
use topografisk_gdb_api.Jobs.Event.{RunUpdates, run_updates_for_event, ImportEvent}
use topografisk_gdb_api.Jobs.Runs.{Run, StoredEvent, updated_run}

pub record Tally : Type 0 where
  pub processed_features : ℕ
  pub succeeded_features : ℕ
  pub failed_features : ℕ
  pub processed_batches : ℕ
  pub succeeded_batches : ℕ
  pub failed_batches : ℕ
  pub ended : Bool

abbrev pub no_tally : Tally
no_tally = record {
  processed_features = 0;
  succeeded_features = 0;
  failed_features = 0;
  processed_batches = 0;
  succeeded_batches = 0;
  failed_batches = 0;
  ended = false;
}

-- What a run shows: its counters, and whether it has a completion time.
unfoldable pub tally_of : Run → Tally
tally_of r = record {
  processed_features = r.processed_features;
  succeeded_features = r.succeeded_features;
  failed_features = r.failed_features;
  processed_batches = r.processed_batches;
  succeeded_batches = r.succeeded_batches;
  failed_batches = r.failed_batches;
  ended = is_some r.completed_at;
}

unfoldable pub add_updates : RunUpdates → Tally → Tally
add_updates u t = record {
  processed_features = t.processed_features + u.processed_features;
  succeeded_features = t.succeeded_features + u.succeeded_features;
  failed_features = t.failed_features + u.failed_features;
  processed_batches = t.processed_batches + u.processed_batches;
  succeeded_batches = t.succeeded_batches + u.succeeded_batches;
  failed_batches = t.failed_batches + u.failed_batches;
  ended = u.is_terminal || t.ended;
}

abbrev pub updates_of : StoredEvent → RunUpdates
updates_of e = run_updates_for_event e.event_type e.payload.batch_size

-- The sum over the stored events of one import.
unfoldable pub replay : String → List StoredEvent → Tally
replay id [] = no_tally
replay id (e ∷ es) =
    let rest = replay id es in if e.import_id == id then add_updates (updates_of e) rest else rest

pub add_updates_comm :
    (u v : RunUpdates) (t : Tally)
    → add_updates u (add_updates v t) ≡ add_updates v (add_updates u t)
unfolding add_updates
add_updates_comm u v t = ground arith

pub replay-append :
    (id : String) (es : List StoredEvent) (e : StoredEvent)
    → replay id (es ++ e ∷ [])
      ≡ (if e.import_id == id then add_updates (updates_of e) (replay id es) else replay id es)
unfolding replay
replay-append id [] e = refl
replay-append id (d ∷ es) e =
    ground
      (arith, replay-append id es e, add_updates_comm (updates_of d) (updates_of e) (replay id es))

-- An update adds to the tally what the event's type and size say.
pub tally_of-updated_run :
    (now : ℕ) (e : ImportEvent) (u : RunUpdates) (r : Run)
    → tally_of (updated_run now e u r) ≡ add_updates u (tally_of r)
unfolding tally_of updated_run add_updates
tally_of-updated_run now e u r = ground arith

-- Each event type adds as many processed features and batches as succeeded and failed ones.
pub run_updates-balanced :
    (t : String) (e : ImportEvent)
    → let u = run_updates_for_event t e.batch_size in
      (u.processed_features ≡ u.succeeded_features + u.failed_features)
      × (u.processed_batches ≡ u.succeeded_batches + u.failed_batches)
unfolding run_updates_for_event
run_updates-balanced t e = ground arith

-- The counters of a replay are balanced.
pub replay-balanced :
    (id : String) (es : List StoredEvent)
    → ((replay id es).processed_features
        ≡ (replay id es).succeeded_features + (replay id es).failed_features)
      × ((replay id es).processed_batches
          ≡ (replay id es).succeeded_batches + (replay id es).failed_batches)
unfolding replay add_updates
replay-balanced id [] = omega arith
replay-balanced id (e ∷ es) =
    ground (arith, replay-balanced id es, run_updates-balanced e.event_type e.payload)
