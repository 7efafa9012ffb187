-- ===== src/Tracking/Applied.antt =====
-- Consuming the messages of one import applies each to its run.
use topografisk_gdb_api.Prelude.{
  String, ◌≡◌, refl, ◌∙◌, false, ◌||◌, Option, none, some, List, [], ◌∷◌, ◌++◌, All, ◌==◌,
}
use topografisk_gdb_api.Jobs.Runs.{
  Run, StoredEvent, Database, find_run, is_message, conflicts, record_row,
}
use topografisk_gdb_api.Jobs.Runs.Laws.{any_of-append}
use topografisk_gdb_api.Jobs.Runs.Lifecycle.{record_row-stored}
use topografisk_gdb_api.Jobs.Service.{ImportEventMessage, consume_import_events}
use topografisk_gdb_api.Jobs.Service.Stopping.{complete-step}
use topografisk_gdb_api.Tracking.{same_message, IsApart, IsDelivered, IsEventOf, apply_messages}

-- A message conflicts with one more stored event where their ids are the same.
conflicts-append :
    (n : Option String) (es : List StoredEvent) (e : StoredEvent)
    → conflicts n es ≡ false
    → same_message e.message_id n ≡ false
    → conflicts n (es ++ e ∷ []) ≡ false
unfolding conflicts
conflicts-append none es e h k = refl
conflicts-append (some l) es e h k =
    any_of-append (is_message l) es (e ∷ []) ∙ rw h (apart e.message_id k)
  where
    apart :
        (o : Option String)
        → same_message o (some l) ≡ false
        → (elim o [ none ↦ false | some n ↦ n == l ] || false) ≡ false
    apart none q = refl
    apart (some j) q = rw q refl

IsDelivered-append :
    (ms : List ImportEventMessage) (es : List StoredEvent) (e : StoredEvent)
    (m : ImportEventMessage)
    → e.message_id ≡ m.message_id
    → IsApart m ms
    → IsDelivered es ms
    → IsDelivered (es ++ e ∷ []) ms
IsDelivered-append [] es e m same a d = tt
IsDelivered-append (n ∷ ms) es e m same a (fresh, kept, acked, apart, d) = (
  conflicts-append n.message_id es e fresh (rw same a.0),
  kept,
  acked,
  apart,
  IsDelivered-append ms es e m same a.1 d,
)

record_row-IsDelivered :
    (ms : List ImportEventMessage) (m : ImportEventMessage) (id t : String) (db : Database)
    → conflicts m.message_id db.events ≡ false
    → IsApart m ms
    → IsDelivered db.events ms
    → IsDelivered (record_row m.at id t m.event m.message_id db).1.events ms
unfolding record_row
record_row-IsDelivered ms m id t db fresh a d =
    rw fresh (IsDelivered-append ms db.events _ m refl a d)

-- Messages that carry events of one import and are delivered once each are applied to its run,
-- in their order.
pub consume-applied :
    (ms : List ImportEventMessage) (db : Database) (id : String) (r : Run)
    → IsDelivered db.events ms
    → All (λ m. IsEventOf id m.event) ms
    → find_run id db.runs ≡ some r
    → find_run id (consume_import_events ms db).db.runs ≡ some (apply_messages ms r)
consume-applied [] db id r d named stored = unfold consume_import_events in stored
consume-applied (m ∷ ms) db id r (fresh, kept, acked, apart, d) ((t, typed, own), named) stored =
    let step = complete-step m ms db (record {
      import_id = id;
      event_type = t;
      has_import_id = own;
      has_event = typed;
      stored = kept;
      acknowledged = acked;
    }) in
    let db' = (record_row m.at id t m.event m.message_id db).1 in
    rw step (
      consume-applied ms db' id _ (record_row-IsDelivered ms m id t db fresh apart d) named
        (record_row-stored m.at id t m.event m.message_id db fresh stored ∙ rw typed refl))
