-- ===== src/Jobs/Runs/Lifecycle.antt =====
-- What one recorded event does to its run, and to the other runs (`record_import_event` of
-- gcjobs/src/gcjobs/db.py).
use topografisk_gdb_api.Prelude.{
  ℕ, String, ◌≡◌, refl, ap, ◌∙◌, true, false, Option, none, some, List, [], ◌∷◌, ◌++◌, arith, ◌==◌,
  eq_iff, eq_refl, if◌then◌else◌, Bool-cases, inl, inr,
}
use topografisk_gdb_api.Jobs.Event.{ImportEvent, RunStatus, RunUpdates, run_updates_for_event}
use topografisk_gdb_api.Jobs.Runs.{
  Run, Database, find_run, has_run, insert_run, new_run, conflicts, update_runs, updated_run,
  record_row,
}
use topografisk_gdb_api.Jobs.Runs.Laws.{find_run-update_runs}
use topografisk_gdb_api.Jobs.Runs.Consistent.{updated_run-id}

-- The run that the two statements on `import_run` start from: the one stored, or the one inserted.
abbrev pub run_or : Option Run → Run → Run
run_or none d = d
run_or (some r) d = r

abbrev pub run_before : ℕ → String → RunStatus → ImportEvent → Database → Run
run_before now id s e db = run_or (find_run id db.runs) (new_run now id s e)

find_run-append :
    (j : String) (rs : List Run) (r : Run)
    → find_run j (rs ++ r ∷ [])
      ≡ elim (find_run j rs) [ none ↦ if r.id == j then some r else none | some q ↦ some q ]
unfolding find_run
find_run-append j [] r = refl
find_run-append j (q ∷ rs) r = ground (arith, find_run-append j rs r)

find_run-has_run :
    (j : String) (rs : List Run)
    → has_run j rs ≡ elim (find_run j rs) [ none ↦ false | some _ ↦ true ]
unfolding find_run
find_run-has_run j [] = refl
find_run-has_run j (q ∷ rs) = ground (arith, find_run-has_run j rs)

find_run-insert_run :
    (j : String) (r : Run) (rs : List Run)
    → find_run j (insert_run r rs)
      ≡ elim (find_run j rs) [ none ↦ if r.id == j then some r else none | some q ↦ some q ]
unfolding insert_run
find_run-insert_run j r rs = elim (Bool-cases (has_run r.id rs)) [
  | inl old ↦ rw old (
      ground (
        arith,
        eq_iff r.id j,
        find_run-has_run j rs,
        λ (q : r.id ≡ j). ap (λ (k : String). has_run k rs) q,
      ))
  | inr new ↦ rw (new, find_run-append j rs r) refl
]

-- The table after the insert: the run of the event is there, the others as they were.
find_run-inserted :
    (now : ℕ) (id : String) (s : RunStatus) (e : ImportEvent) (db : Database) (j : String)
    → find_run j (insert_run (new_run now id s e) db.runs)
      ≡ (if id == j then some (run_before now id s e db) else find_run j db.runs)
unfolding new_run
find_run-inserted now id s e db j =
    rw (find_run-insert_run j (new_run now id s e) db.runs)
      (ground (arith, eq_iff id j, λ (q : id ≡ j). ap (λ (k : String). find_run k db.runs) q))

find_run-updated :
    (now : ℕ) (id : String) (e : ImportEvent) (u : RunUpdates) (db : Database) (j : String)
    → find_run j
        (update_runs id (updated_run now e u) (insert_run (new_run now id u.status e) db.runs))
      ≡ (if id == j
          then some (updated_run now e u (run_before now id u.status e db))
          else find_run j db.runs)
find_run-updated now id e u db j =
    rw
      (
        find_run-update_runs id j (updated_run now e u)
            (insert_run (new_run now id u.status e) db.runs) (λ q. updated_run-id now e u q),
        find_run-inserted now id u.status e db j,
      )
      (ground arith)

-- A fresh event leaves its run as the update makes it, from the stored run or a new one, and
-- returns that row; every other run stays as it was.
pub record_row-fresh :
    (now : ℕ) (id t : String) (e : ImportEvent) (m : Option String) (db : Database) (j : String)
    → conflicts m db.events ≡ false
    → let u = run_updates_for_event t e.batch_size in
      let (row, db') = record_row now id t e m db in
      let after = updated_run now e u (run_before now id u.status e db) in
      (row ≡ some after)
      × (find_run j db'.runs ≡ (if id == j then some after else find_run j db.runs))
unfolding record_row
record_row-fresh now id t e m db j h =
    let u = run_updates_for_event t e.batch_size in
    rw h
      (find_run-updated now id e u db id ∙ rw (eq_refl id) refl, find_run-updated now id e u db j)

pub record_row-stored :
    (now : ℕ) (id t : String) (e : ImportEvent) (m : Option String) (db : Database) {r : Run}
    → conflicts m db.events ≡ false
    → find_run id db.runs ≡ some r
    → find_run id (record_row now id t e m db).1.runs
      ≡ some (updated_run now e (run_updates_for_event t e.batch_size) r)
record_row-stored now id t e m db h f =
    (record_row-fresh now id t e m db id h).1 ∙ rw (eq_refl id, f) refl

pub record_row-new :
    (now : ℕ) (id t : String) (e : ImportEvent) (m : Option String) (db : Database)
    → conflicts m db.events ≡ false
    → find_run id db.runs ≡ none
    → let u = run_updates_for_event t e.batch_size in
      find_run id (record_row now id t e m db).1.runs
      ≡ some (updated_run now e u (new_run now id u.status e))
record_row-new now id t e m db h f =
    (record_row-fresh now id t e m db id h).1 ∙ rw (eq_refl id, f) refl
