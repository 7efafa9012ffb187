-- ===== src/Jobs/Service/Delivery.antt =====
-- At-least-once delivery of import events (`consume_import_events` of gcjobs/src/gcjobs/service.py,
-- `record_import_event` of gcjobs/src/gcjobs/db.py).
use topografisk_gdb_api.Prelude.{
  suc, String, ◌≡◌, refl, ap, Bool, true, false, Option, some, List, [], ◌∷◌, All, inl, inr, Result,
  ok, err, ◌∙◌, ◌⊎◌, ◌>>=◌, if◌then◌else◌, All-weaken,
}
use topografisk_gdb_api.Jobs.Event.{ImportEvent}
use topografisk_gdb_api.Jobs.Runs.{Run, Database, record_import_event, EventError, storage_failed}
use topografisk_gdb_api.Jobs.Runs.Consistent.{IsConsistent}
use topografisk_gdb_api.Jobs.Service.{
  ImportEventMessage, and_acked, after_ack, record_message, consume_import_events,
}
use topografisk_gdb_api.Jobs.Runs.Redelivered.{
  SameTables, Holds, record_row-Holds_self, record_row-redelivered, record_import_event-ok,
  Holds-record, record_import_event-IsConsistent,
}

-- A message whose keys are there and whose effect the tables already hold.
pub record IsRecorded (m : ImportEventMessage) (db : Database) : Type 0 where
  pub key : String
  pub import_id : String
  pub event_type : String
  pub has_key : m.message_id ≡ some key
  pub has_import_id : m.event.import_id ≡ some import_id
  pub has_event : m.event.event ≡ some event_type
  pub holds : Holds key import_id db

-- One step of the consumer, by the outcomes of recording and of acknowledging.
pub data Step (m : ImportEventMessage) (ms : List ImportEventMessage) (db : Database) : Type 0 where
  raised :
      (e : EventError)
      → record_message m db ≡ err e
      → consume_import_events (m ∷ ms) db ≡ record { db = db; acked = []; listening = false }
      → Step m ms db
  unacked :
      (row : Option Run) (db' : Database)
      → record_import_event m.at m.event m.message_id db ≡ ok (row, db')
      → record_message m db ≡ ok (row, db')
      → m.ack_succeeds ≡ false
      → consume_import_events (m ∷ ms) db ≡ record { db = db'; acked = []; listening = false }
      → Step m ms db
  acknowledged :
      (row : Option Run) (db' : Database)
      → record_import_event m.at m.event m.message_id db ≡ ok (row, db')
      → record_message m db ≡ ok (row, db')
      → m.store_succeeds ≡ true
      → m.ack_succeeds ≡ true
      → consume_import_events (m ∷ ms) db ≡ and_acked m (consume_import_events ms db')
      → Step m ms db

with_stored :
    {A : Type 0} (x : Result EventError A) (b : Bool) (p : A)
    → (x >>= λ r. if b then ok r else err storage_failed) ≡ ok p
    → (x ≡ ok p) × (b ≡ true)
with_stored (ok a) true p h = (h, refl)
with_stored (ok a) false p h = absurd (cc h)
with_stored (err e) b p h = absurd (cc h)

-- A message that is recorded is one whose keys are there and whose transaction goes through.
pub record_message-ok :
    (m : ImportEventMessage) (db : Database) (p : Option Run × Database)
    → record_message m db ≡ ok p
    → (record_import_event m.at m.event m.message_id db ≡ ok p) × (m.store_succeeds ≡ true)
unfolding record_message
record_message-ok m db p h =
    with_stored (record_import_event m.at m.event m.message_id db) m.store_succeeds p h

pub step : (m : ImportEventMessage) (ms : List ImportEventMessage) (db : Database) → Step m ms db
unfolding consume_import_events
step m ms db = go (record_message m db) m.ack_succeeds refl refl
  where
    go :
        (r : Result EventError (Option Run × Database)) (b : Bool)
        → record_message m db ≡ r
        → m.ack_succeeds ≡ b
        → Step m ms db
    go (err e) b p q = raised e p (rw (p, consume_import_events) refl)
    go (ok (row, db')) false p q = unacked row db' (record_message-ok m db (row, db') p).0 p q (
        rw (p, consume_import_events)
          (ap (λ (b : Bool). after_ack b m db' (consume_import_events ms db')) q))
    go (ok (row, db')) true p q =
        let stored = record_message-ok m db (row, db') p in
        acknowledged row db' stored.0 p stored.1 q (
          rw (p, consume_import_events)
            (ap (λ (b : Bool). after_ack b m db' (consume_import_events ms db')) q))

-- Recorded messages stay recorded while the consumer works.
Holds-consume :
    (ms : List ImportEventMessage) (db : Database) (k i : String)
    → Holds k i db
    → Holds k i (consume_import_events ms db).db
Holds-consume [] db k i h = unfold consume_import_events in h
Holds-consume (m ∷ ms) db k i h = elim (step m ms db) [
  | raised e p q ↦ rw q h
  | unacked row db' p r a q ↦ rw q (Holds-record m.at m.event m.message_id db row db' p k i h)
  | acknowledged row db' p r s a q ↦
      rw q (Holds-consume ms db' k i (Holds-record m.at m.event m.message_id db row db' p k i h))
]

-- Consuming keeps the invariant of the tables, however the loop ends.
pub consume_import_events-IsConsistent :
    (ms : List ImportEventMessage) (db : Database)
    → IsConsistent db
    → IsConsistent (consume_import_events ms db).db
consume_import_events-IsConsistent [] db c = unfold consume_import_events in c
consume_import_events-IsConsistent (m ∷ ms) db c = elim (step m ms db) [
  | raised e p q ↦ rw q c
  | unacked row db' p r a q ↦
      rw q (record_import_event-IsConsistent m.at m.event m.message_id db row db' p c)
  | acknowledged row db' p r s a q ↦ rw q (
      consume_import_events-IsConsistent ms db'
        (record_import_event-IsConsistent m.at m.event m.message_id db row db' p c))
]

-- Every message comes from Redis with an id.
abbrev pub HasId : ImportEventMessage → Type 0
HasId m = (k : String) × (m.message_id ≡ some k)

IsRecorded-first :
    (m : ImportEventMessage) (db : Database) (row : Option Run) (db' : Database)
    → record_import_event m.at m.event m.message_id db ≡ ok (row, db')
    → HasId m
    → (ms : List ImportEventMessage) → IsRecorded m (consume_import_events ms db').db
IsRecorded-first m db row db' p (k, has) ms =
    let (j, t, pi, pe, same) = record_import_event-ok m.at m.event m.message_id db row db' p in
    record {
      key = k;
      import_id = j;
      event_type = t;
      has_key = has;
      has_import_id = pi;
      has_event = pe;
      holds =
          Holds-consume ms db' k j (rw (same, has) (record_row-Holds_self m.at j t m.event k db));
    }

abbrev recorded_of :
    ImportEventMessage
    → Result EventError (Option Run × Database)
    → Bool
    → (Database → List ImportEventMessage)
    → List ImportEventMessage
recorded_of m (err e) acked rest = []
recorded_of m (ok (row, db')) false rest = m ∷ []
recorded_of m (ok (row, db')) true rest = m ∷ rest db'

-- The messages whose recording goes through: those that are acknowledged, and the one whose
-- acknowledgement fails, if there is one.
unfoldable pub recorded_messages : List ImportEventMessage → Database → List ImportEventMessage
recorded_messages [] db = []
recorded_messages (m ∷ ms) db =
    recorded_of m (record_message m db) m.ack_succeeds (λ db'. recorded_messages ms db')

recorded_messages-step :
    (m : ImportEventMessage) (ms : List ImportEventMessage) (db : Database)
    (r : Result EventError (Option Run × Database)) (b : Bool)
    → record_message m db ≡ r
    → m.ack_succeeds ≡ b
    → recorded_messages (m ∷ ms) db ≡ recorded_of m r b (λ db'. recorded_messages ms db')
unfolding recorded_messages
recorded_messages-step m ms db r b p q =
    ap (λ x. recorded_of m x m.ack_succeeds (λ db'. recorded_messages ms db')) p
    ∙ ap (λ x. recorded_of m r x (λ db'. recorded_messages ms db')) q

recorded_messages-IsRecorded :
    (ms : List ImportEventMessage) (db : Database)
    → All HasId ms
    → All (λ m. IsRecorded m (consume_import_events ms db).db) (recorded_messages ms db)
recorded_messages-IsRecorded [] db h = unfold recorded_messages in tt
recorded_messages-IsRecorded (m ∷ ms) db h = elim (step m ms db) [
  | raised e p q ↦ rw (recorded_messages-step m ms db (err e) m.ack_succeeds p refl) tt
  | unacked row db' p r a q ↦
      rw (recorded_messages-step m ms db (ok (row, db')) false r a, q)
        (unfold consume_import_events in IsRecorded-first m db row db' p h.0 [], tt)
  | acknowledged row db' p r s a q ↦
      rw (q, recorded_messages-step m ms db (ok (row, db')) true r a)
        (IsRecorded-first m db row db' p h.0 ms, recorded_messages-IsRecorded ms db' h.1)
]

-- A recorded message that is read again changes only the identity sequence.
recorded_again :
    (m : ImportEventMessage) (db : Database) (row : Option Run) (db' : Database)
    → IsRecorded m db
    → record_import_event m.at m.event m.message_id db ≡ ok (row, db')
    → SameTables db' db
recorded_again m db row db' r p =
    let (j, t, pi, _, same) = record_import_event-ok m.at m.event m.message_id db row db' p in
    let same_id : r.import_id ≡ j = cc (r.has_import_id, pi) in
    let again : db' ≡ record db { next_event_id = suc db.next_event_id } =
      same
      ∙ rw r.has_key (
          record_row-redelivered m.at j t m.event r.key db (r.holds.0, rw (← same_id) r.holds.1)) in
    (ap (λ (d : Database). d.runs) again, ap (λ (d : Database). d.events) again)

IsRecorded-SameTables :
    (m : ImportEventMessage) (a b : Database) → SameTables b a → IsRecorded m a → IsRecorded m b
IsRecorded-SameTables m a b same r = record {
  key = r.key;
  import_id = r.import_id;
  event_type = r.event_type;
  has_key = r.has_key;
  has_import_id = r.has_import_id;
  has_event = r.has_event;
  holds = (rw same.1 r.holds.0, rw same.0 r.holds.1);
}

All-IsRecorded :
    (ms : List ImportEventMessage) (a b : Database)
    → SameTables b a
    → All (λ m. IsRecorded m a) ms
    → All (λ m. IsRecorded m b) ms
All-IsRecorded [] a b same h = tt
All-IsRecorded (m ∷ ms) a b same h =
    (IsRecorded-SameTables m a b same h.0, All-IsRecorded ms a b same h.1)

redelivered-SameTables :
    (ms : List ImportEventMessage) (db : Database)
    → All (λ m. IsRecorded m db) ms
    → SameTables (consume_import_events ms db).db db
redelivered-SameTables [] db h = unfold consume_import_events in (refl, refl)
redelivered-SameTables (m ∷ ms) db (old, h) = elim (step m ms db) [
  | raised e p q ↦ rw q (refl, refl)
  | unacked row db' p r a q ↦ rw q (recorded_again m db row db' old p)
  | acknowledged row db' p r s a q ↦
      let same = recorded_again m db row db' old p in
      let rest = redelivered-SameTables ms db' (All-IsRecorded ms db db' same h) in
      rw q (rest.0 ∙ same.0, rest.1 ∙ same.1)
]

-- Some element of the list has the property.
abbrev pub Some {ℓ} : {A : Type ℓ} → (A → Type 0) → List A → Type 0
Some P [] = ⊥
Some P (x ∷ xs) = P x ⊎ Some P xs

-- The same event under the same message id; the time and the outcomes may differ.
abbrev pub IsCopy : ImportEventMessage → ImportEventMessage → Type 0
IsCopy a m = (a.event ≡ m.event) × (a.message_id ≡ m.message_id)

IsRecorded-IsCopy :
    (a m : ImportEventMessage) (db : Database) → IsCopy a m → IsRecorded m db → IsRecorded a db
IsRecorded-IsCopy a m db (same, id) r = record {
  key = r.key;
  import_id = r.import_id;
  event_type = r.event_type;
  has_key = id ∙ r.has_key;
  has_import_id = ap (λ (e : ImportEvent). e.import_id) same ∙ r.has_import_id;
  has_event = ap (λ (e : ImportEvent). e.event) same ∙ r.has_event;
  holds = r.holds;
}

Some-IsRecorded :
    (a : ImportEventMessage) (ms : List ImportEventMessage) (db : Database)
    → Some (IsCopy a) ms
    → All (λ m. IsRecorded m db) ms
    → IsRecorded a db
Some-IsRecorded a [] db s h = absurd s
Some-IsRecorded a (m ∷ ms) db (inl c) h = IsRecorded-IsCopy a m db c h.0
Some-IsRecorded a (m ∷ ms) db (inr s) h = Some-IsRecorded a ms db s h.1

-- Messages from Redis that are read again after they were recorded, acknowledged or not, in any order
-- and any number and at any time, leave the run and event tables as they were, however the first
-- reading ended and whether or not the second one is stored, acknowledged or stopped.
pub recorded-redelivered :
    (ms again : List ImportEventMessage) (db : Database)
    → All HasId ms
    → All (λ a. Some (IsCopy a) (recorded_messages ms db)) again
    → let first = consume_import_events ms db in
      SameTables (consume_import_events again first.db).db first.db
recorded-redelivered ms again db ids copies =
    let first = consume_import_events ms db in
    redelivered-SameTables again first.db (
      All-weaken (λ a. Some (IsCopy a) (recorded_messages ms db)) (λ a. IsRecorded a first.db) again
        (λ a s.
          Some-IsRecorded a (recorded_messages ms db) first.db s
            (recorded_messages-IsRecorded ms db ids))
        copies)
