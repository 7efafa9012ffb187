-- ===== src/Import/Batches/Accounting.antt =====
-- What the events of `import_features` (gcimport/src/gcimport/importer.py) account for.
use mathlib.Core.List.{Perm, append_assoc, append-nil}
use mathlib.Core.List.Perm
use topografisk_gdb_api.Prelude.{
  ℕ, suc, ◌≤◌, String, ◌≡◌, refl, ap, Option, none, List, [], ◌∷◌, ◌++◌, map, All, flatten, length,
  replicate, Result, ok, err, Result-cases, inl, inr, sym, ◌∙◌,
}
use topografisk_gdb_api.Import.Feature.{PreparedFeature}
use topografisk_gdb_api.Import.Batches.{
  Indexed, Upstream, Progress, BatchEvent, succeeded, failed, UpstreamImportError, read_response,
  geojson_of, ids_of, fill_slots, import_chunk, import_chunks, all_chunks, group_features,
  import_features,
}
use topografisk_gdb_api.Import.Batches.Chunks.{enumerate, all_chunks-Perm}

-- The ids of the features that the events report as upserted.
abbrev pub reported_ids : List BatchEvent → List String
reported_ids [] = []
reported_ids (succeeded collection size ids ∷ events) = ids ++ reported_ids events
reported_ids (failed collection id size reason ∷ events) = reported_ids events

reported_ids-append :
    (xs ys : List BatchEvent) → reported_ids (xs ++ ys) ≡ reported_ids xs ++ reported_ids ys
reported_ids-append [] ys = refl
reported_ids-append (succeeded c n ids ∷ xs) ys =
    rw (reported_ids-append xs ys, append_assoc ids (reported_ids xs) (reported_ids ys)) refl
reported_ids-append (failed c i n r ∷ xs) ys = reported_ids-append xs ys

module _ {N : Type 0} where
  ids_of-append : (xs ys : List (Indexed N)) → ids_of (xs ++ ys) ≡ ids_of xs ++ ids_of ys
  ids_of-append [] ys = refl
  ids_of-append ((i, feature) ∷ xs) ys =
      ap (λ (t : List String). feature.feature_id ∷ t) (ids_of-append xs ys)

  ids_of-map : (xs : List (Indexed N)) → ids_of xs ≡ map (λ (x : Indexed N). x.1.feature_id) xs
  ids_of-map [] = refl
  ids_of-map ((i, feature) ∷ xs) = ap (λ (t : List String). feature.feature_id ∷ t) (ids_of-map xs)

  ids_of-enumerate :
      (i : ℕ) (features : List (PreparedFeature N))
      → map (λ (x : Indexed N). x.1.feature_id) (enumerate i features)
        ≡ map (λ (f : PreparedFeature N). f.feature_id) features
  ids_of-enumerate i [] = refl
  ids_of-enumerate i (feature ∷ features) =
      ap (λ (t : List String). feature.feature_id ∷ t) (ids_of-enumerate (suc i) features)

abbrev pub outcome :
    Result UpstreamImportError (Unit {0}) × Progress → Result UpstreamImportError (Unit {0})
outcome x = x.0

abbrev progress_of : Result UpstreamImportError (Unit {0}) × Progress → Progress
progress_of x = x.1

abbrev pub events_of : Result UpstreamImportError (Unit {0}) × Progress → List BatchEvent
events_of x = x.1.events

abbrev returned_error : UpstreamImportError → Result UpstreamImportError (Unit {0})
returned_error d = err d

err_injective : (d e : UpstreamImportError) → returned_error d ≡ err e → d ≡ e
err_injective d e h = cc h

-- The progress once a chunk is upserted, and once it failed.
module _ {N : Type 0} where
  abbrev pub after_success :
      PreparedFeature N → List (Indexed N) → List String → Progress → Progress
  after_success first chunk ids p = record {
    imported = fill_slots chunk ids p.imported;
    events = p.events ++ succeeded first.collection (length chunk) (ids_of chunk) ∷ [];
  }

  abbrev pub after_failure : List (Indexed N) → UpstreamImportError → Progress → Progress
  after_failure chunk e p = record p {
    events = p.events ++ failed e.collection e.feature_id (length chunk) e.reason ∷ [];
  }

module _ {N : Type 0} (parse_uuid : String → Option String) (upstream : Upstream N) where
  -- The answer to a chunk whose first feature is the given one.
  abbrev pub answer_to :
      PreparedFeature N → List (Indexed N) → Result UpstreamImportError (List String)
  answer_to first chunk =
      read_response parse_uuid first chunk (upstream first.collection (geojson_of chunk))

  -- The service's answer to the batch gives its ids.
  abbrev pub IsAnswered : List (Indexed N) → Type 0
  IsAnswered [] = Unit
  IsAnswered ((i, feature) ∷ rest) =
      (ids : List String) × (answer_to feature ((i, feature) ∷ rest) ≡ ok ids)

  -- What is reported of batches that succeed.
  abbrev pub reports : List (List (Indexed N)) → List BatchEvent
  reports [] = []
  reports ([] ∷ chunks) = reports chunks
  reports (((i, feature) ∷ rest) ∷ chunks) =
      let chunk = (i, feature) ∷ rest in
      succeeded feature.collection (length chunk) (ids_of chunk) ∷ reports chunks

  -- One of the batches fails with the error: those before it are answered, and the events that follow
  -- the earlier ones are the reports of these and of the failed batch.
  pub record IsFailure (chunks : List (List (Indexed N))) (e : UpstreamImportError)
      (earlier events : List BatchEvent) : Type 0 where
    pub done : List (List (Indexed N))
    pub index : ℕ
    pub first : PreparedFeature N
    pub others : List (Indexed N)
    pub skipped : List (List (Indexed N))
    pub split : chunks ≡ done ++ ((index, first) ∷ others) ∷ skipped
    pub answered : All IsAnswered done
    pub refused : answer_to first ((index, first) ∷ others) ≡ err e
    pub ends :
        events
        ≡ earlier
          ++ (reports done
              ++ failed e.collection e.feature_id (length ((index, first) ∷ others)) e.reason ∷ [])

  IsFailure-skip :
      (chunks : List (List (Indexed N))) (e : UpstreamImportError)
      (earlier events : List BatchEvent)
      → IsFailure chunks e earlier events
      → IsFailure ([] ∷ chunks) e earlier events
  IsFailure-skip chunks e earlier events f = record {
    done = [] ∷ f.done;
    index = f.index;
    first = f.first;
    others = f.others;
    skipped = f.skipped;
    split = ap (λ (cs : List (List (Indexed N))). [] ∷ cs) f.split;
    answered = (tt, f.answered);
    refused = f.refused;
    ends = f.ends;
  }

  import_chunk-upserted :
      (feature : PreparedFeature N) (chunk : List (Indexed N)) (p : Progress) (ids : List String)
      → answer_to feature chunk ≡ ok ids
      → import_chunk parse_uuid upstream feature chunk p
        ≡ (ok tt, after_success feature chunk ids p)
  unfolding import_chunk
  import_chunk-upserted feature chunk p ids h = rw (h, import_chunk) refl

  import_chunk-refused :
      (feature : PreparedFeature N) (chunk : List (Indexed N)) (p : Progress)
      (e : UpstreamImportError)
      → answer_to feature chunk ≡ err e
      → import_chunk parse_uuid upstream feature chunk p ≡ (err e, after_failure chunk e p)
  unfolding import_chunk
  import_chunk-refused feature chunk p e h = rw (h, import_chunk) refl

  pub import_chunks-upserted :
      (i : ℕ) (feature : PreparedFeature N) (rest : List (Indexed N))
      (chunks : List (List (Indexed N))) (p : Progress) (ids : List String)
      → answer_to feature ((i, feature) ∷ rest) ≡ ok ids
      → import_chunks parse_uuid upstream (((i, feature) ∷ rest) ∷ chunks) p
        ≡ import_chunks parse_uuid upstream chunks
            (after_success feature ((i, feature) ∷ rest) ids p)
  unfolding import_chunks
  import_chunks-upserted i feature rest chunks p ids h =
      let step = import_chunk-upserted feature ((i, feature) ∷ rest) p ids h in
      rw (ap outcome step, ap progress_of step, import_chunks) refl

  pub import_chunks-refused :
      (i : ℕ) (feature : PreparedFeature N) (rest : List (Indexed N))
      (chunks : List (List (Indexed N))) (p : Progress) (e : UpstreamImportError)
      → answer_to feature ((i, feature) ∷ rest) ≡ err e
      → import_chunks parse_uuid upstream (((i, feature) ∷ rest) ∷ chunks) p
        ≡ (err e, after_failure ((i, feature) ∷ rest) e p)
  unfolding import_chunks
  import_chunks-refused i feature rest chunks p e h =
      let step = import_chunk-refused feature ((i, feature) ∷ rest) p e h in
      rw (ap outcome step, ap progress_of step, import_chunks) refl

  import_chunks-reported :
      (chunks : List (List (Indexed N))) (p : Progress)
      → (import_chunks parse_uuid upstream chunks p).0 ≡ ok tt
      → reported_ids (import_chunks parse_uuid upstream chunks p).1.events
        ≡ reported_ids p.events ++ ids_of (flatten chunks)
  unfolding import_chunks
  import_chunks-reported [] p h = sym (append-nil (reported_ids p.events))
  import_chunks-reported ([] ∷ chunks) p h = import_chunks-reported chunks p h
  import_chunks-reported (((i, feature) ∷ rest) ∷ chunks) p h =
      let chunk = (i, feature) ∷ rest in
      elim (Result-cases (answer_to feature chunk)) [
        | inr (e, refused) ↦
            absurd (cc (h, ap outcome (import_chunks-refused i feature rest chunks p e refused)))
        | inl (ids, upserted) ↦
            let step = import_chunks-upserted i feature rest chunks p ids upserted in
            let q = after_success feature chunk ids p in
            let later = import_chunks-reported chunks q (sym (ap outcome step) ∙ h) in
            ap
              (λ (x : Result UpstreamImportError (Unit {0}) × Progress). reported_ids (events_of x))
              step
            ∙ (later
                ∙ rw
                    (
                      reported_ids-append p.events
                          (succeeded feature.collection (length chunk) (ids_of chunk) ∷ []),
                      append-nil (ids_of chunk),
                      ids_of-append chunk (flatten chunks),
                      append_assoc (reported_ids p.events) (ids_of chunk) (ids_of (flatten chunks)),
                    )
                    refl)
      ]

  import_chunks-IsFailure :
      (chunks : List (List (Indexed N))) (p : Progress) (e : UpstreamImportError)
      → (import_chunks parse_uuid upstream chunks p).0 ≡ err e
      → IsFailure chunks e p.events (import_chunks parse_uuid upstream chunks p).1.events
  unfolding import_chunks
  import_chunks-IsFailure [] p e h = absurd (cc h)
  import_chunks-IsFailure ([] ∷ chunks) p e h =
      IsFailure-skip chunks e p.events _ (import_chunks-IsFailure chunks p e h)
  import_chunks-IsFailure (((i, feature) ∷ rest) ∷ chunks) p e h =
      let chunk = (i, feature) ∷ rest in
      elim (Result-cases (answer_to feature chunk)) [
        | inr (d, refused) ↦
            let step = import_chunks-refused i feature rest chunks p d refused in
            let same = err_injective d e (sym (ap outcome step) ∙ h) in
            record {
              done = [];
              index = i;
              first = feature;
              others = rest;
              skipped = chunks;
              split = refl;
              answered = tt;
              refused = refused ∙ ap (λ x. err x) same;
              ends =
                  ap events_of step
                  ∙ ap
                      (λ (x : UpstreamImportError).
                        p.events ++ failed x.collection x.feature_id (length chunk) x.reason ∷ [])
                      same;
            }
        | inl (ids, upserted) ↦
            let step = import_chunks-upserted i feature rest chunks p ids upserted in
            let q = after_success feature chunk ids p in
            let later = import_chunks-IsFailure chunks q e (sym (ap outcome step) ∙ h) in
            record {
              done = chunk ∷ later.done;
              index = later.index;
              first = later.first;
              others = later.others;
              skipped = later.skipped;
              split = ap (λ (cs : List (List (Indexed N))). chunk ∷ cs) later.split;
              answered = ((ids, upserted), later.answered);
              refused = later.refused;
              ends =
                  ap events_of step
                  ∙ later.ends
                  ∙ append_assoc p.events
                      (succeeded feature.collection (length chunk) (ids_of chunk) ∷ [])
                      (reports later.done
                        ++ failed e.collection e.feature_id
                            (length ((later.index, later.first) ∷ later.others)) e.reason
                          ∷ []);
            }
      ]

  -- An import that fails has had an answer with ids to each batch before the failed one, in the
  -- order of the batches, and has reported just these, as succeeded, and then the failed one: the
  -- batch whose answer is the error that the import raises, with its size.
  pub import_features-IsFailure :
      (features : List (PreparedFeature N)) (size : ℕ) (e : UpstreamImportError)
      → (import_features parse_uuid upstream features size).0 ≡ err e
      → IsFailure
          (all_chunks (group_features 0 features []) size)
          e
          []
          (import_features parse_uuid upstream features size).1.events
  unfolding import_features
  import_features-IsFailure features size e h =
      import_chunks-IsFailure (all_chunks (group_features 0 features []) size)
        (record { imported = replicate (length features) none; events = [] }) e h

  -- An import that succeeds with a positive batch size has reported every feature's id exactly
  -- once, whatever the collections and the batches.
  pub import_features-reported :
      (features : List (PreparedFeature N)) (size : ℕ)
      → 1 ≤ size
      → (import_features parse_uuid upstream features size).0 ≡ ok tt
      → Perm
          (reported_ids (import_features parse_uuid upstream features size).1.events)
          (map (λ (f : PreparedFeature N). f.feature_id) features)
  unfolding import_features
  import_features-reported features size h fine =
      let chunks = all_chunks (group_features 0 features []) size in
      rw
        (
          import_chunks-reported chunks
              (record { imported = replicate (length features) none; events = [] }) fine,
          ids_of-map (flatten chunks),
          sym (ids_of-enumerate 0 features),
        )
        (Perm.map (λ (x : Indexed N). x.1.feature_id) (all_chunks-Perm features size h))
