-- ===== src/Jobs/Storage/Listing.antt =====
-- What a job list holds (`list_dataset_jobs` of gcjobs/src/gcjobs/storage.py and
-- `list_import_runs` of gcjobs/src/gcjobs/db.py).
use mathlib.Core.List.{Perm}
use mathlib.Core.List.{Mem, mem-cons_self, mem-cons_of_mem}
use mathlib.Core.List.Perm
use topografisk_gdb_api.Prelude.{
  ℕ, ◌≤◌, String, ◌≡◌, refl, Bool, true, false, ◌&&◌, not, List, [], ◌∷◌, map, arith, if◌then◌else◌,
  All, All-weaken, All-take, keep, is_nonempty, length, length-take, Bool-cases, inl, inr,
}
use topografisk_gdb_api.Prelude.Int.{ℤ}
use topografisk_gdb_api.Jobs.Runs.{Run, Database, list_import_runs}
use topografisk_gdb_api.Jobs.Storage.{JobQuery, JobPayloadSettings, JobPayload, in_values}
use topografisk_gdb_api.Jobs.Storage.Payload.{
  dataset_matches_run, job_payload, filter_by, filter_jobs, list_dataset_jobs, without_filenames,
}

module _ {A : Type 0} where
  All-Mem : (xs : List A) → All (λ x. Mem x xs) xs
  All-Mem [] = tt
  All-Mem (x ∷ xs) = (
    mem-cons_self,
    All-weaken (λ y. Mem y xs) (λ y. Mem y (x ∷ xs)) xs (λ y h. mem-cons_of_mem x h) (All-Mem xs),
  )

  All-keep_both :
      (P : A → Type 0) (p : A → Bool) (xs : List A)
      → All P xs
      → All (λ x. P x × (p x ≡ true)) (keep p xs)
  All-keep_both P p [] h = tt
  All-keep_both P p (x ∷ xs) h = elim (Bool-cases (p x)) [
    | inl e ↦ rw e ((h.0, e), All-keep_both P p xs h.1)
    | inr e ↦ rw e (All-keep_both P p xs h.1)
  ]

-- A filter that is applied only where `b` holds.
All-keep_if :
    {A : Type 0} (P : A → Type 0) (p : A → Bool) (b : Bool) (xs : List A)
    → All P xs
    → All (λ x. P x × (b ≡ true → p x ≡ true)) (if b then keep p xs else xs)
All-keep_if P p true xs h =
    All-weaken (λ x. P x × (p x ≡ true)) (λ x. P x × (true ≡ true → p x ≡ true)) (keep p xs)
      (λ x q. (q.0, λ _. q.1)) (All-keep_both P p xs h)
All-keep_if P p false xs h =
    All-weaken P (λ x. P x × (false ≡ true → p x ≡ true)) xs (λ x q. (q, λ n. absurd (cc n))) h

All-map :
    {A B : Type 0} (P : A → Type 0) (Q : B → Type 0) (f : A → B) (xs : List A)
    → ((x : A) → P x → Q (f x))
    → All P xs
    → All Q (map f xs)
All-map P Q f [] g h = tt
All-map P Q f (x ∷ xs) g h = (g x h.0, All-map P Q f xs g h.1)

-- The rows come latest event first.
abbrev pub IsDescending : List Run → Type 0
IsDescending [] = Unit
IsDescending (r ∷ rs) = All (λ (s : Run). s.last_event_at ≤ r.last_event_at) rs × IsDescending rs

-- What `order by last_event_at desc` gives: the rows, each once, latest event first.
abbrev pub IsOrder : (List Run → List Run) → Type 0
IsOrder order = (rs : List Run) → Perm (order rs) rs × IsDescending (order rs)

module _ (casefold : String → String) (rfc3339 : ℕ → String) (round_percent : ℕ → ℕ → ℤ)
    (query : JobQuery) (settings : JobPayloadSettings) (db : Database) where
  -- The job is the payload of a stored run of the query's dataset.
  abbrev pub Origin : JobPayload → Type 0
  Origin j =
      (r : Run) × Mem r db.runs
      × (dataset_matches_run casefold r query.dataset_name ≡ true)
      × (j ≡ job_payload rfc3339 round_percent (without_filenames r) query.base_url settings)

  -- A set of values that is not empty holds the value.
  abbrev pub Passes : List String → String → Type 0
  Passes values value = is_nonempty values ≡ true → in_values values value ≡ true

  abbrev pub IsListed : JobPayload → Type 0
  IsListed j =
      Origin j
      × Passes query.type_values j.type_name
      × Passes query.process_ids j.process_id
      × Passes query.statuses j.status

  All-filter_by :
      (P : JobPayload → Type 0) (values : List String) (key : JobPayload → String)
      (jobs : List JobPayload)
      → All P jobs
      → All (λ j. P j × Passes values (key j)) (filter_by values key jobs)
  All-filter_by P values key jobs h =
      All-keep_if P (λ j. in_values values (key j)) (is_nonempty values) jobs h

  All-filter_jobs :
      (jobs : List JobPayload)
      → All Origin jobs
      → All IsListed (filter_jobs jobs query.type_values query.process_ids query.statuses)
  unfolding filter_jobs
  All-filter_jobs jobs h =
      let typed = All-filter_by Origin query.type_values (λ j. j.type_name) jobs h in
      let named = All-filter_by _ query.process_ids (λ j. j.process_id) _ typed in
      All-weaken _ IsListed _ (λ j q. (q.0.0.0, q.0.0.1, q.0.1, q.1))
        (All-filter_by _ query.statuses (λ j. j.status) _ named)

  dataset_jobs : (List Run → List Run) → List JobPayload
  dataset_jobs order =
      map (λ r. job_payload rfc3339 round_percent (without_filenames r) query.base_url settings)
        (keep (λ r. dataset_matches_run casefold r query.dataset_name)
          (list_import_runs order false 10000 db))

  All-dataset_jobs : (order : List Run → List Run) → IsOrder order → All Origin (dataset_jobs order)
  unfolding dataset_jobs list_import_runs
  All-dataset_jobs order orders =
      All-map
        (λ (r : Run). Mem r db.runs × (dataset_matches_run casefold r query.dataset_name ≡ true))
        Origin _ _ (λ r q. (r, q.0, q.1, refl))
        (All-keep_both (λ (r : Run). Mem r db.runs)
          (λ r. dataset_matches_run casefold r query.dataset_name) _
          (All-take (λ (r : Run). Mem r db.runs) 10000 _
            (All-weaken (λ (r : Run). Mem r (order db.runs)) (λ (r : Run). Mem r db.runs)
              (order db.runs) (λ r. (Perm.mem_iff (orders db.runs).0).0)
              (All-Mem (order db.runs)))))

  -- The two early tests answer with no jobs.
  All-unless :
      (a b : Bool) (jobs : List JobPayload)
      → All IsListed jobs
      → All IsListed (if a then [] else if b then [] else jobs)
  All-unless true b jobs h = tt
  All-unless false true jobs h = tt
  All-unless false false jobs h = h

  -- Where the database orders as asked, a job list never passes its limit, and each of its jobs shows a stored run of the dataset and
  -- passes every filter that names values.
  pub list_dataset_jobs_sound :
      (order : List Run → List Run)
      → IsOrder order
      → let jobs =
          (list_dataset_jobs casefold rfc3339 round_percent order query settings db).jobs in
        (length jobs ≤ query.limit) × All IsListed jobs
  unfolding list_dataset_jobs dataset_jobs
  list_dataset_jobs_sound order orders =
      let foreign =
        is_nonempty query.process_ids
        && not (in_values query.process_ids settings.import_process_id) in
      let other =
        is_nonempty query.type_values
        && not (in_values query.type_values settings.process_job_type) in
      let jobs =
        filter_jobs (dataset_jobs order) query.type_values query.process_ids query.statuses in
      let listed = if foreign then [] else if other then [] else jobs in
      (
        omega (arith, length-take query.limit listed),
        All-take IsListed query.limit listed (
            All-unless foreign other jobs
              (All-filter_jobs (dataset_jobs order) (All-dataset_jobs order orders))),
      )
