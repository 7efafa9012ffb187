-- ===== src/Jobs/Runs/Consistent.antt =====
-- The invariant of the tracking tables, which every recorded event keeps
-- (`record_import_event` of gcjobs/src/gcjobs/db.py).
use topografisk_gdb_api.Prelude.{
  ◌&&◌, is_some, sym, ◌∙◌, ◌+◌, ℕ, suc, ◌<◌, String, ◌≡◌, refl, ap, Bool, true, false, Option, none,
  some, List, [], ◌∷◌, ◌++◌, arith, ◌==◌, ◌||◌, eq_iff, eq_refl, All, All-append, Bool-cases, inl,
  inr,
}
use topografisk_gdb_api.Jobs.Event.{ImportEvent, RunStatus, RunUpdates, run_updates_for_event}
use topografisk_gdb_api.Jobs.Runs.{
  Run, StoredEvent, Database, empty, has_run, new_run, insert_run, conflicts, is_message,
  updated_run, update_runs, record_row,
}
use topografisk_gdb_api.Jobs.Runs.Laws.{
  RunsDistinct, any_of-append, has_run-update_runs, has_run-insert_run, RunsDistinct-update_runs,
  RunsDistinct-insert_run,
}
use topografisk_gdb_api.Jobs.Runs.Tally.{
  Tally, replay-balanced, no_tally, tally_of, updates_of, replay, replay-append,
  tally_of-updated_run,
}

-- No message id is stored twice: the unique index.
abbrev pub MessagesDistinct : List StoredEvent → Type 0
MessagesDistinct [] = Unit
MessagesDistinct (e ∷ es) = (conflicts e.message_id es ≡ false) × MessagesDistinct es

abbrev pub Owned : List Run → List StoredEvent → Type 0
Owned rs = All (λ (e : StoredEvent). has_run e.import_id rs ≡ true)

abbrev pub Tallied : List StoredEvent → List Run → Type 0
Tallied es = All (λ (r : Run). tally_of r ≡ replay r.id es)

pub record IsConsistent (db : Database) : Type 0 where
  pub runs_distinct : RunsDistinct db.runs
  pub messages_distinct : MessagesDistinct db.events
  pub owned : Owned db.runs db.events
  pub tallied : Tallied db.events db.runs
  pub ids_fresh : All (λ (e : StoredEvent). e.id < db.next_event_id) db.events

pub IsConsistent-empty : IsConsistent empty
IsConsistent-empty = record {
  runs_distinct = tt;
  messages_distinct = tt;
  owned = tt;
  tallied = tt;
  ids_fresh = tt;
}

-- More runs own the same events.
Owned-mono :
    (rs qs : List Run) (es : List StoredEvent)
    → ((j : String) → has_run j rs ≡ true → has_run j qs ≡ true)
    → Owned rs es
    → Owned qs es
Owned-mono rs qs [] h o = tt
Owned-mono rs qs (e ∷ es) h o = (h e.import_id o.0, Owned-mono rs qs es h o.1)

replay-unowned :
    (id : String) (rs : List Run) (es : List StoredEvent)
    → Owned rs es
    → has_run id rs ≡ false
    → replay id es ≡ no_tally
unfolding replay
replay-unowned id rs [] o h = refl
replay-unowned id rs (e ∷ es) o h = ground (
  arith,
  eq_iff e.import_id id,
  λ (q : e.import_id ≡ id). ap (λ (k : String). has_run k rs) q,
  replay-unowned id rs es o.1 h,
)

Tallied-insert_run :
    (now : ℕ) (id : String) (s : RunStatus) (e : ImportEvent) (rs : List Run)
    (es : List StoredEvent)
    → Owned rs es
    → Tallied es rs
    → Tallied es (insert_run (new_run now id s e) rs)
unfolding insert_run new_run tally_of
Tallied-insert_run now id s e rs es o t = elim (Bool-cases (has_run id rs)) [
  | inl old ↦ rw old t
  | inr new ↦ rw new (
      All-append (λ (r : Run). tally_of r ≡ replay r.id es) rs _ t
        (rw (replay-unowned id rs es o new) refl, tt))
]

pub updated_run-id :
    (now : ℕ) (e : ImportEvent) (u : RunUpdates) (r : Run) → (updated_run now e u r).id ≡ r.id
unfolding updated_run
updated_run-id now e u r = refl

Tallied-update_runs :
    (now : ℕ) (d : StoredEvent) (e : ImportEvent) (rs : List Run) (es : List StoredEvent)
    → Tallied es rs
    → Tallied (es ++ d ∷ []) (update_runs d.import_id (updated_run now e (updates_of d)) rs)
unfolding update_runs
Tallied-update_runs now d e [] es t = tt
Tallied-update_runs now d e (r ∷ rs) es t = (
  ground (
    arith,
    t.0,
    updated_run-id now e (updates_of d) r,
    tally_of-updated_run now e (updates_of d) r,
    replay-append r.id es d,
    eq_iff r.id d.import_id,
    eq_iff d.import_id r.id,
  ),
  Tallied-update_runs now d e rs es t.1,
)

conflicts-append :
    (m : Option String) (es : List StoredEvent) (d : StoredEvent)
    → conflicts m (es ++ d ∷ []) ≡ (conflicts m es || conflicts m (d ∷ []))
unfolding conflicts
conflicts-append none es d = refl
conflicts-append (some m) es d = any_of-append (is_message m) es (d ∷ [])

abbrev clashes : Option String → Option String → Bool
clashes none n = false
clashes (some m) none = false
clashes (some m) (some n) = n == m

clashes_comm : (m n : Option String) → clashes m n ≡ clashes n m
clashes_comm none none = refl
clashes_comm none (some n) = refl
clashes_comm (some m) none = refl
clashes_comm (some m) (some n) = ground (arith, eq_iff n m, eq_iff m n)

conflicts-cons :
    (m : Option String) (e : StoredEvent) (es : List StoredEvent)
    → conflicts m (e ∷ es) ≡ (clashes m e.message_id || conflicts m es)
unfolding conflicts
conflicts-cons none e es = refl
conflicts-cons (some m) e es = ground arith

conflicts-nil : (m : Option String) → conflicts m [] ≡ false
unfolding conflicts
conflicts-nil none = refl
conflicts-nil (some m) = refl

MessagesDistinct-append :
    (es : List StoredEvent) (d : StoredEvent)
    → MessagesDistinct es
    → conflicts d.message_id es ≡ false
    → MessagesDistinct (es ++ d ∷ [])
MessagesDistinct-append [] d m h = (conflicts-nil d.message_id, tt)
MessagesDistinct-append (e ∷ es) d m h = (
  ground (
    arith,
    m.0,
    conflicts-append e.message_id es d,
    conflicts-cons e.message_id d [],
    conflicts-nil e.message_id,
    conflicts-cons d.message_id e es,
    clashes_comm e.message_id d.message_id,
  ),
  MessagesDistinct-append es d m.1 (ground (arith, h, conflicts-cons d.message_id e es)),
)

conflicts-ne-none :
    (m : Option String) (es : List StoredEvent) → (conflicts m es && is_some m) ≡ conflicts m es
unfolding conflicts
conflicts-ne-none none es = refl
conflicts-ne-none (some m) es = ground arith

pub has_run-new_run :
    (now : ℕ) (id : String) (s : RunStatus) (e : ImportEvent) (rs : List Run)
    → has_run id (insert_run (new_run now id s e) rs) ≡ true
unfolding new_run
has_run-new_run now id s e rs = rw (has_run-insert_run id (new_run now id s e) rs, eq_refl id) refl

ids_mono :
    (n : ℕ) (es : List StoredEvent)
    → All (λ (e : StoredEvent). e.id < n) es
    → All (λ (e : StoredEvent). e.id < suc n) es
ids_mono n [] h = tt
ids_mono n (e ∷ es) h = (omega (arith, h.0), ids_mono n es h.1)

-- The transaction keeps the invariant.
pub record_row-IsConsistent :
    (now : ℕ) (id t : String) (e : ImportEvent) (m : Option String) (db : Database)
    → IsConsistent db
    → IsConsistent (record_row now id t e m db).1
unfolding record_row
record_row-IsConsistent now id t e m db c =
    let u = run_updates_for_event t e.batch_size in
    let r = new_run now id u.status e in
    let rs = insert_run r db.runs in
    let d : StoredEvent = record {
      id = db.next_event_id;
      import_id = id;
      event_type = t;
      message_id = m;
      occurred_at = now;
      payload = e;
    } in
    let same_ids = λ (q : Run). updated_run-id now e u q in
    let owned_rs : Owned rs db.events =
      Owned-mono db.runs rs db.events
        (λ j h. rw (has_run-insert_run j r db.runs) (ground (arith, h))) c.owned in
    elim (Bool-cases (conflicts m db.events && is_some m)) [
      | inl seen ↦ rw seen (record {
        runs_distinct = RunsDistinct-insert_run r db.runs c.runs_distinct;
        messages_distinct = c.messages_distinct;
        owned = owned_rs;
        tallied = Tallied-insert_run now id u.status e db.runs db.events c.owned c.tallied;
        ids_fresh = ids_mono db.next_event_id db.events c.ids_fresh;
      })
      | inr fresh ↦ rw fresh (record {
        runs_distinct =
            RunsDistinct-update_runs id (updated_run now e u) rs same_ids
              (RunsDistinct-insert_run r db.runs c.runs_distinct);
        messages_distinct =
            MessagesDistinct-append db.events d c.messages_distinct
              (sym (conflicts-ne-none m db.events) ∙ fresh);
        owned =
            All-append
              (λ (q : StoredEvent).
                has_run q.import_id (update_runs id (updated_run now e u) rs) ≡ true)
              db.events (d ∷ [])
              (Owned-mono rs (update_runs id (updated_run now e u) rs) db.events
                (λ j h. has_run-update_runs j id (updated_run now e u) rs same_ids ∙ h) owned_rs)
              (
                has_run-update_runs id id (updated_run now e u) rs same_ids
                    ∙ has_run-new_run now id u.status e db.runs,
                tt,
              );
        tallied =
            Tallied-update_runs now d e rs db.events
              (Tallied-insert_run now id u.status e db.runs db.events c.owned c.tallied);
        ids_fresh =
            All-append (λ (q : StoredEvent). q.id < suc db.next_event_id) db.events (d ∷ [])
              (ids_mono db.next_event_id db.events c.ids_fresh) (omega arith, tt);
      })
    ]

All-balanced :
    (es : List StoredEvent) (rs : List Run)
    → Tallied es rs
    → All
        (λ (r : Run).
          (r.processed_features ≡ r.succeeded_features + r.failed_features)
          × (r.processed_batches ≡ r.succeeded_batches + r.failed_batches))
        rs
All-balanced es [] t = tt
All-balanced es (r ∷ rs) t = (
  unfold tally_of in
      ground (
        arith,
        replay-balanced r.id es,
        ap (λ (x : Tally). x.processed_features) t.0,
        ap (λ (x : Tally). x.succeeded_features) t.0,
        ap (λ (x : Tally). x.failed_features) t.0,
        ap (λ (x : Tally). x.processed_batches) t.0,
        ap (λ (x : Tally). x.succeeded_batches) t.0,
        ap (λ (x : Tally). x.failed_batches) t.0,
      ),
  All-balanced es rs t.1,
)

-- In consistent tables every run has as many processed features and batches as succeeded and
-- failed ones together.
pub IsConsistent-balanced :
    (db : Database)
    → IsConsistent db
    → All
        (λ (r : Run).
          (r.processed_features ≡ r.succeeded_features + r.failed_features)
          × (r.processed_batches ≡ r.succeeded_batches + r.failed_batches))
        db.runs
IsConsistent-balanced db c = All-balanced db.events db.runs c.tallied
