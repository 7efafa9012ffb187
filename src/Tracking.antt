-- ===== src/Tracking.antt =====
-- How gcjobs tracks what gcimport publishes: gcimport/src/gcimport/app.py (`_handle_import_request`)
-- and gcjobs/src/gcjobs/service.py (`consume_import_events`), joined by the event stream. The
-- stream is the list of messages in their order.
pub mod Applied
pub mod Ended
pub mod Counted
pub mod Completed
mod Tests
use topografisk_gdb_api.Prelude.{
  ℕ, String, ◌≡◌, Bool, true, false, Option, none, some, List, [], ◌∷◌, map, ◌==◌,
}
use topografisk_gdb_api.Jobs.Event.{
  ImportEvent, RunStatus, RunUpdates, run_updates_for_event, run_update_payload,
}
use topografisk_gdb_api.Jobs.Runs.{Run, StoredEvent, conflicts, updated_run}
use topografisk_gdb_api.Jobs.Service.{ImportEventMessage}

-- Whether the second message has the id of the first.
abbrev pub same_message : Option String → Option String → Bool
same_message none n = false
same_message (some k) none = false
same_message (some k) (some l) = k == l

abbrev pub IsApart : ImportEventMessage → List ImportEventMessage → Type 0
IsApart m [] = Unit
IsApart m (n ∷ ns) = (same_message m.message_id n.message_id ≡ false) × IsApart m ns

-- Each message is new to the event table and to the messages before it, and is recorded and
-- acknowledged.
abbrev pub IsDelivered : List StoredEvent → List ImportEventMessage → Type 0
IsDelivered es [] = Unit
IsDelivered es (m ∷ ms) =
    (conflicts m.message_id es ≡ false)
    × (m.store_succeeds ≡ true)
    × (m.ack_succeeds ≡ true)
    × IsApart m ms
    × IsDelivered es ms

abbrev pub events_of : List ImportEventMessage → List ImportEvent
events_of ms = map (λ (m : ImportEventMessage). m.event) ms

-- The event is one of the import, and has a type.
abbrev pub IsEventOf : String → ImportEvent → Type 0
IsEventOf id e = (t : String) × (e.event ≡ some t) × (e.import_id ≡ some id)

abbrev pub updates_for : ImportEvent → RunUpdates
updates_for e = elim e.event [
  | none ↦ run_update_payload RunStatus.running false
  | some t ↦ run_updates_for_event t e.batch_size
]

-- What the messages make of a run, one after the other.
abbrev pub apply_messages : List ImportEventMessage → Run → Run
apply_messages [] r = r
apply_messages (m ∷ ms) r = apply_messages ms (updated_run m.at m.event (updates_for m.event) r)
