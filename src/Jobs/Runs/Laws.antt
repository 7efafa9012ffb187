-- ===== src/Jobs/Runs/Laws.antt =====
-- Laws of the single statements on the run and event tables (gcjobs/src/gcjobs/db.py).
use topografisk_gdb_api.Prelude.{
  String, ◌≡◌, refl, Bool, true, false, ◌||◌, none, some, List, [], ◌∷◌, ◌++◌, arith, ◌==◌, eq_iff,
  if◌then◌else◌, any_of, ap, Bool-cases, inl, inr,
}
use topografisk_gdb_api.Jobs.Runs.{Run, find_run, has_run, insert_run, update_runs}

-- No run has the id of an earlier one: the primary key.
abbrev pub RunsDistinct : List Run → Type 0
RunsDistinct [] = Unit
RunsDistinct (r ∷ rs) = (has_run r.id rs ≡ false) × RunsDistinct rs

module _ {ℓ} {A : Type ℓ} where
  pub any_of-append :
      (p : A → Bool) (xs ys : List A) → any_of p (xs ++ ys) ≡ (any_of p xs || any_of p ys)
  any_of-append p [] ys = refl
  any_of-append p (x ∷ xs) ys = ground (arith, any_of-append p xs ys)

-- A run that the table holds stays there under an update that keeps ids.
pub has_run-update_runs :
    (j id : String) (f : Run → Run) (rs : List Run)
    → ((r : Run) → (f r).id ≡ r.id)
    → has_run j (update_runs id f rs) ≡ has_run j rs
unfolding update_runs
has_run-update_runs j id f [] h = refl
has_run-update_runs j id f (r ∷ rs) h = ground (arith, h r, has_run-update_runs j id f rs h)

pub has_run-insert_run :
    (j : String) (r : Run) (rs : List Run)
    → has_run j (insert_run r rs) ≡ (r.id == j || has_run j rs)
unfolding insert_run
has_run-insert_run j r rs = ground (
  arith,
  any_of-append (λ (t : Run). t.id == j) rs (r ∷ []),
  eq_iff r.id j,
  λ (e : r.id ≡ j). ap (λ (k : String). has_run k rs) e,
)

pub insert_run-has_run : (r : Run) (rs : List Run) → has_run r.id rs ≡ true → insert_run r rs ≡ rs
unfolding insert_run
insert_run-has_run r rs h = rw h

pub RunsDistinct-update_runs :
    (id : String) (f : Run → Run) (rs : List Run)
    → ((r : Run) → (f r).id ≡ r.id)
    → RunsDistinct rs
    → RunsDistinct (update_runs id f rs)
unfolding update_runs
RunsDistinct-update_runs id f [] h d = tt
RunsDistinct-update_runs id f (r ∷ rs) h d =
    ground (arith, h r, has_run-update_runs r.id id f rs h, RunsDistinct-update_runs id f rs h d.1)

RunsDistinct-append :
    (r : Run) (rs : List Run)
    → RunsDistinct rs
    → has_run r.id rs ≡ false
    → RunsDistinct (rs ++ r ∷ [])
RunsDistinct-append r [] d h = (refl, tt)
RunsDistinct-append r (s ∷ rs) d h = ground (
  arith,
  any_of-append (λ (t : Run). t.id == s.id) rs (r ∷ []),
  eq_iff s.id r.id,
  eq_iff r.id s.id,
  RunsDistinct-append r rs d.1,
)

pub RunsDistinct-insert_run :
    (r : Run) (rs : List Run) → RunsDistinct rs → RunsDistinct (insert_run r rs)
unfolding insert_run
RunsDistinct-insert_run r rs d = elim (Bool-cases (has_run r.id rs)) [
  | inl old ↦ rw old d
  | inr new ↦ rw new (RunsDistinct-append r rs d new)
]

-- The updated run is found under its id, as the update left it.
pub find_run-update_runs :
    (id j : String) (f : Run → Run) (rs : List Run)
    → ((r : Run) → (f r).id ≡ r.id)
    → find_run j (update_runs id f rs)
      ≡ elim (find_run j rs) [ none ↦ none | some r ↦ some (if id == j then f r else r) ]
unfolding update_runs find_run
find_run-update_runs id j f [] h = refl
find_run-update_runs id j f (r ∷ rs) h =
    ground
      (arith, h r, eq_iff r.id id, eq_iff r.id j, eq_iff id j, find_run-update_runs id j f rs h)
