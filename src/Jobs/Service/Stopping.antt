-- ===== src/Jobs/Service/Stopping.antt =====
-- Where the consumer of import events stops (`consume_import_events` of
-- gcjobs/src/gcjobs/service.py).
use topografisk_gdb_api.Prelude.{
  ℕ, String, ◌≡◌, refl, ap, Bool, true, false, Option, none, some, List, [], ◌∷◌, ◌++◌, All, inl,
  inr, ok, err, ◌∙◌, ◌⊎◌, Option-cases, Bool-cases,
}
use topografisk_gdb_api.Jobs.Event.{ImportEvent}
use topografisk_gdb_api.Jobs.Runs.{
  Run, Database, record_row, record_import_event, EventError, missing_key,
}
use topografisk_gdb_api.Jobs.Service.{
  ImportEventMessage, Consumed, and_acked, after_ack, record_message, consume_import_events,
}
use topografisk_gdb_api.Jobs.Runs.Redelivered.{record_import_event-ok, record_import_event-keys}
use topografisk_gdb_api.Jobs.Service.Delivery.{step, raised, unacked, acknowledged}

-- A message that the consumer gets through: both keys are there, the transaction goes through, and
-- the acknowledgement succeeds.
pub record IsComplete (m : ImportEventMessage) : Type 0 where
  pub import_id : String
  pub event_type : String
  pub has_import_id : m.event.import_id ≡ some import_id
  pub has_event : m.event.event ≡ some event_type
  pub stored : m.store_succeeds ≡ true
  pub acknowledged : m.ack_succeeds ≡ true

pub record_message-keys :
    (m : ImportEventMessage) (db : Database) (i t : String)
    → m.event.import_id ≡ some i
    → m.event.event ≡ some t
    → m.store_succeeds ≡ true
    → record_message m db ≡ ok (record_row m.at i t m.event m.message_id db)
unfolding record_message
record_message-keys m db i t has_id has_type stored =
    rw (record_import_event-keys m.at m.event m.message_id db i t has_id has_type, stored) refl

pub complete-step :
    (m : ImportEventMessage) (ms : List ImportEventMessage) (db : Database) (c : IsComplete m)
    → consume_import_events (m ∷ ms) db
      ≡ and_acked m (
          consume_import_events ms
            (record_row m.at c.import_id c.event_type m.event m.message_id db).1)
unfolding consume_import_events
complete-step m ms db c =
    rw
      (
        record_message-keys m db c.import_id c.event_type c.has_import_id c.has_event c.stored,
        consume_import_events,
      )
      (ap
        (λ (b : Bool).
          let db' = (record_row m.at c.import_id c.event_type m.event m.message_id db).1 in
          after_ack b m db' (consume_import_events ms db'))
        c.acknowledged)

record-missing_key :
    (now : ℕ) (e : ImportEvent) (m : Option String) (db : Database)
    → (e.import_id ≡ none) ⊎ (e.event ≡ none)
    → (x : EventError) × (record_import_event now e m db ≡ err x)
unfolding record_import_event
record-missing_key now e m db (inl p) = (missing_key "import_id", rw p refl)
record-missing_key now e m db (inr p) = go e.import_id refl
  where
    go :
        (i : Option String)
        → e.import_id ≡ i
        → (x : EventError) × (record_import_event now e m db ≡ err x)
    go none q = (missing_key "import_id", rw q refl)
    go (some i) q = (missing_key "event", rw (q, p) refl)

stop_at :
    (m : ImportEventMessage) (ms : List ImportEventMessage) (db : Database) (x : EventError)
    → record_import_event m.at m.event m.message_id db ≡ err x
    → consume_import_events (m ∷ ms) db ≡ record { db = db; acked = []; listening = false }
unfolding consume_import_events record_message
stop_at m ms db x p = rw (p, consume_import_events, record_message) refl

-- Where the messages before an event that lacks one of its keys have their keys, are stored and have
-- their acknowledgement succeed, the consumer acknowledges just these and ends at that event, whatever
-- stands behind it.
pub consume-missing_key :
    (good : List ImportEventMessage) (bad : ImportEventMessage) (rest : List ImportEventMessage)
    (db : Database)
    → All IsComplete good
    → (bad.event.import_id ≡ none) ⊎ (bad.event.event ≡ none)
    → consume_import_events (good ++ bad ∷ rest) db
      ≡ record { db = (consume_import_events good db).db; acked = good; listening = false }
consume-missing_key [] bad rest db h k =
    let (x, p) = record-missing_key bad.at bad.event bad.message_id db k in
    unfold consume_import_events in stop_at bad rest db x p
consume-missing_key (m ∷ good) bad rest db (c, h) k =
    complete-step m (good ++ bad ∷ rest) db c
    ∙ rw
        (
          consume-missing_key good bad rest
              (record_row m.at c.import_id c.event_type m.event m.message_id db).1 h k,
          complete-step m good db c,
        )
        refl

-- What makes the consumer stop at a message.
abbrev pub Stops : ImportEventMessage → Type 0
Stops m =
    ((m.event.import_id ≡ none) ⊎ (m.event.event ≡ none))
    ⊎ ((m.store_succeeds ≡ false) ⊎ (m.ack_succeeds ≡ false))

raised-Stops :
    (m : ImportEventMessage) (db : Database) (e : EventError)
    → record_message m db ≡ err e
    → Stops m
raised-Stops m db e p = elim (Option-cases m.event.import_id) [
  | inl no_id ↦ inl (inl no_id)
  | inr (i, has_id) ↦ elim (Option-cases m.event.event) [
    | inl no_type ↦ inl (inr no_type)
    | inr (t, has_type) ↦ elim (Bool-cases m.store_succeeds) [
      | inr off ↦ inr (inl off)
      | inl on ↦ absurd (cc (p, record_message-keys m db i t has_id has_type on))
    ]
  ]
]

IsComplete-step :
    (m : ImportEventMessage) (db : Database) (row : Option Run) (db' : Database)
    → record_import_event m.at m.event m.message_id db ≡ ok (row, db')
    → m.store_succeeds ≡ true
    → m.ack_succeeds ≡ true
    → IsComplete m
IsComplete-step m db row db' p s a =
    let (j, t, pi, pe, _) = record_import_event-ok m.at m.event m.message_id db row db' p in
    record {
      import_id = j;
      event_type = t;
      has_import_id = pi;
      has_event = pe;
      stored = s;
      acknowledged = a;
    }

abbrev pub IsSplit : List ImportEventMessage → Consumed → Type 0
IsSplit ms c =
    ((c.acked ≡ ms) × (c.listening ≡ true))
    ⊎ ((m : ImportEventMessage) × (rest : List ImportEventMessage) × (ms ≡ c.acked ++ m ∷ rest)
        × (c.listening ≡ false)
        × Stops m)

IsSplit-and_acked :
    (m : ImportEventMessage) (ms : List ImportEventMessage) (c : Consumed)
    → IsSplit ms c
    → IsSplit (m ∷ ms) (and_acked m c)
IsSplit-and_acked m ms c (inl (all, on)) = inl (ap (λ (l : List ImportEventMessage). m ∷ l) all, on)
IsSplit-and_acked m ms c (inr (n, rest, split, off, why)) =
    inr (n, rest, ap (λ (l : List ImportEventMessage). m ∷ l) split, off, why)

-- The consumer acknowledges the messages up to the first one that lacks a key, whose transaction or
-- whose acknowledgement fails, and stops there; without such a message it acknowledges all of them
-- and goes on listening. Each acknowledged message has its keys, was stored and acknowledged.
pub consume_import_events-IsSplit :
    (ms : List ImportEventMessage) (db : Database)
    → let c = consume_import_events ms db in All IsComplete c.acked × IsSplit ms c
consume_import_events-IsSplit [] db = unfold consume_import_events in (tt, inl (refl, refl))
consume_import_events-IsSplit (m ∷ ms) db = elim (step m ms db) [
  | raised e p q ↦ rw q (tt, inr (m, ms, refl, refl, raised-Stops m db e p))
  | unacked row db' p r a q ↦ rw q (tt, inr (m, ms, refl, refl, inr (inr a)))
  | acknowledged row db' p r s a q ↦
      let (each, split) = consume_import_events-IsSplit ms db' in
      rw q (
        (IsComplete-step m db row db' p s a, each),
        IsSplit-and_acked m ms (consume_import_events ms db') split,
      )
]
