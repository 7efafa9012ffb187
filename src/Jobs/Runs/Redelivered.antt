-- ===== src/Jobs/Runs/Redelivered.antt =====
-- What recording an event a second time does to the tables (`record_import_event` of
-- gcjobs/src/gcjobs/db.py).
use topografisk_gdb_api.Prelude.{
  ℕ, suc, String, ◌≡◌, refl, ap, true, ◌&&◌, ◌||◌, Option, none, some, List, arith, ◌==◌, eq_iff,
  eq_refl, any_of, Bool-cases, inl, inr, Result, ok, err, is_some, ◌∙◌, sym, or_raise, ◌>>=◌,
}
use topografisk_gdb_api.Jobs.Event.{ImportEvent, RunStatus, run_updates_for_event}
use topografisk_gdb_api.Jobs.Runs.{
  Run, Database, has_run, new_run, conflicts, is_message, updated_run, record_row,
  record_import_event, EventError, missing_key,
}
use topografisk_gdb_api.Jobs.Runs.Laws.{
  any_of-append, has_run-insert_run, has_run-update_runs, insert_run-has_run,
}
use topografisk_gdb_api.Jobs.Runs.Consistent.{IsConsistent, record_row-IsConsistent, updated_run-id}

-- The run and event tables agree; the identity sequence may differ.
abbrev pub SameTables : Database → Database → Type 0
SameTables a b = (a.runs ≡ b.runs) × (a.events ≡ b.events)

-- The tables hold this message id and this import.
abbrev pub Holds : String → String → Database → Type 0
Holds k i db = (conflicts (some k) db.events ≡ true) × (has_run i db.runs ≡ true)

new_run-id :
    (now : ℕ) (id : String) (s : RunStatus) (e : ImportEvent) → (new_run now id s e).id ≡ id
unfolding new_run
new_run-id now id s e = refl

-- The runs after the transaction are the old ones and that of the event.
pub has_run-record_row :
    (now : ℕ) (id t : String) (e : ImportEvent) (m : Option String) (db : Database) (j : String)
    → has_run j (record_row now id t e m db).1.runs ≡ (id == j || has_run j db.runs)
unfolding record_row
has_run-record_row now id t e m db j =
    let u = run_updates_for_event t e.batch_size in
    let inserted = has_run-insert_run j (new_run now id u.status e) db.runs in
    elim (Bool-cases (conflicts m db.events && is_some m)) [
      | inl seen ↦ rw seen (inserted ∙ rw (new_run-id now id u.status e))
      | inr fresh ↦ rw fresh (
          has_run-update_runs j id (updated_run now e u) _ (λ q. updated_run-id now e u q)
          ∙ inserted
          ∙ rw (new_run-id now id u.status e))
    ]

-- The messages after the transaction are the old ones and that of the event.
pub conflicts-record_row :
    (now : ℕ) (id t : String) (e : ImportEvent) (m : Option String) (db : Database) (k : String)
    → conflicts (some k) (record_row now id t e m db).1.events ≡ (
        conflicts (some k) db.events
        || is_message k (record {
          id = db.next_event_id;
          import_id = id;
          event_type = t;
          message_id = m;
          occurred_at = now;
          payload = e;
        }))
unfolding record_row conflicts
conflicts-record_row now id t e none db k = rw any_of-append (ground arith)
conflicts-record_row now id t e (some n) db k =
    elim (Bool-cases (any_of (is_message n) db.events)) [
      | inl seen ↦ rw seen (
          ground (
            arith,
            eq_iff n k,
            λ (q : n ≡ k). ap (λ (x : String). any_of (is_message x) db.events) q,
          ))
      | inr fresh ↦ rw (fresh, any_of-append) (ground arith)
    ]

-- A transaction forgets neither a message nor a run.
pub record_row-Holds :
    (now : ℕ) (id t : String) (e : ImportEvent) (m : Option String) (db : Database) (k i : String)
    → Holds k i db
    → Holds k i (record_row now id t e m db).1
record_row-Holds now id t e m db k i h = (
  rw (conflicts-record_row now id t e m db k, h.0) refl,
  rw (has_run-record_row now id t e m db i, h.1) (ground arith),
)

-- After the transaction the tables hold the message, also where they held it before.
pub record_row-Holds_self :
    (now : ℕ) (id t : String) (e : ImportEvent) (k : String) (db : Database)
    → Holds k id (record_row now id t e (some k) db).1
record_row-Holds_self now id t e k db = (
  rw (conflicts-record_row now id t e (some k) db k, eq_refl k) (ground arith),
  rw (has_run-record_row now id t e (some k) db id, eq_refl id) refl,
)

-- A message that the tables hold changes only the identity sequence.
pub record_row-redelivered :
    (now : ℕ) (id t : String) (e : ImportEvent) (k : String) (db : Database)
    → Holds k id db
    → (record_row now id t e (some k) db).1 ≡ record db { next_event_id = suc db.next_event_id }
unfolding record_row
record_row-redelivered now id t e k db h = rw h.0 (
    ap (λ (rs : List Run). record db { runs = rs; next_event_id = suc db.next_event_id })
      (insert_run-has_run (new_run now id (run_updates_for_event t e.batch_size).status e) db.runs
        (rw (new_run-id now id (run_updates_for_event t e.batch_size).status e) h.1)))

pub record_import_event-keys :
    (now : ℕ) (e : ImportEvent) (m : Option String) (db : Database) (i t : String)
    → e.import_id ≡ some i
    → e.event ≡ some t
    → record_import_event now e m db ≡ ok (record_row now i t e m db)
unfolding record_import_event
record_import_event-keys now e m db i t p q = rw (p, q) refl

-- What a call that returned has done: the transaction, under the keys of its event.
pub record_import_event-ok :
    (now : ℕ) (e : ImportEvent) (m : Option String) (db : Database) (row : Option Run)
    (db' : Database)
    → record_import_event now e m db ≡ ok (row, db')
    → (i : String) × (t : String) × (e.import_id ≡ some i)
      × (e.event ≡ some t)
      × (db' ≡ (record_row now i t e m db).1)
unfolding record_import_event
record_import_event-ok now e m db row db' h = go e.import_id e.event refl refl h
  where
    go :
        (x y : Option String)
        → e.import_id ≡ x
        → e.event ≡ y
        → (or_raise x (missing_key "import_id") >>= λ id.
            or_raise y (missing_key "event") >>= λ t. ok (record_row now id t e m db))
          ≡ ok (row, db')
        → (i : String) × (t : String) × (e.import_id ≡ some i)
          × (e.event ≡ some t)
          × (db' ≡ (record_row now i t e m db).1)
    go none y p q r = absurd (cc r)
    go (some i) none p q r = absurd (cc r)
    go (some i) (some t) p q r = (i, t, p, q, ap tables_of (sym r))
      where
        tables_of : Result EventError (Option Run × Database) → Database
        tables_of (ok (_, d)) = d
        tables_of (err _) = db'

-- Recording an event never drops an effect that the tables hold.
pub Holds-record :
    (now : ℕ) (e : ImportEvent) (m : Option String) (db : Database) (row : Option Run)
    (db' : Database)
    → record_import_event now e m db ≡ ok (row, db')
    → (k i : String) → Holds k i db
    → Holds k i db'
Holds-record now e m db row db' h k i holds =
    let (j, t, _, _, same) = record_import_event-ok now e m db row db' h in
    rw same (record_row-Holds now j t e m db k i holds)

pub record_import_event-IsConsistent :
    (now : ℕ) (e : ImportEvent) (m : Option String) (db : Database) (row : Option Run)
    (db' : Database)
    → record_import_event now e m db ≡ ok (row, db')
    → IsConsistent db
    → IsConsistent db'
record_import_event-IsConsistent now e m db row db' h c =
    let (j, t, _, _, same) = record_import_event-ok now e m db row db' h in
    rw same (record_row-IsConsistent now j t e m db c)
