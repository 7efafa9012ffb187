-- ===== src/Import/Batches/Sized.antt =====
-- The batch sizes that the events of `import_features` report (gcimport/src/gcimport/importer.py).
use topografisk_gdb_api.Prelude.{
  ℕ, suc, ◌+◌, ◌≤◌, String, ◌≡◌, refl, ap, Option, none, List, [], ◌∷◌, map, All, All-append,
  length, replicate, ok, Result-cases, inl, inr, sym, ◌∙◌, length-Perm, length-append, arith,
}
use topografisk_gdb_api.Import.Feature.{PreparedFeature}
use topografisk_gdb_api.Import.Batches.{
  Indexed, Upstream, Progress, BatchEvent, succeeded, failed, ids_of, import_chunks, all_chunks,
  group_features, import_features,
}
use topografisk_gdb_api.Import.Batches.Accounting.{
  reported_ids, outcome, events_of, after_success, answer_to, import_chunks-upserted,
  import_chunks-refused, import_features-reported,
}

-- A success that reports as many features as it names.
abbrev pub IsExact : BatchEvent → Type 0
IsExact (succeeded collection size ids) = size ≡ length ids
IsExact (failed collection id size reason) = ⊥

abbrev pub upserted_count : List BatchEvent → ℕ
upserted_count [] = 0
upserted_count (succeeded collection size ids ∷ events) = size + upserted_count events
upserted_count (failed collection id size reason ∷ events) = upserted_count events

length-map : {A : Type 0} (f : A → String) (xs : List A) → length (map f xs) ≡ length xs
length-map f [] = refl
length-map f (x ∷ xs) = ap suc (length-map f xs)

exact-count :
    (events : List BatchEvent)
    → All IsExact events
    → upserted_count events ≡ length (reported_ids events)
exact-count [] h = refl
exact-count (succeeded c n ids ∷ events) (h, hs) =
    omega (arith, h, exact-count events hs, length-append ids (reported_ids events))
exact-count (failed c i n r ∷ events) (h, hs) = absurd h

module _ {N : Type 0} where
  length-ids_of : (chunk : List (Indexed N)) → length chunk ≡ length (ids_of chunk)
  length-ids_of [] = refl
  length-ids_of ((i, feature) ∷ chunk) = ap suc (length-ids_of chunk)

module _ {N : Type 0} (parse_uuid : String → Option String) (upstream : Upstream N) where
  import_chunks-IsExact :
      (chunks : List (List (Indexed N))) (p : Progress)
      → All IsExact p.events
      → (import_chunks parse_uuid upstream chunks p).0 ≡ ok tt
      → All IsExact (import_chunks parse_uuid upstream chunks p).1.events
  unfolding import_chunks
  import_chunks-IsExact [] p a h = a
  import_chunks-IsExact ([] ∷ chunks) p a h = import_chunks-IsExact chunks p a h
  import_chunks-IsExact (((i, feature) ∷ rest) ∷ chunks) p a h =
      let chunk = (i, feature) ∷ rest in
      elim (Result-cases (answer_to parse_uuid upstream feature chunk)) [
        | inr (e, refused) ↦ absurd (
            cc (
              h,
              ap outcome
                  (import_chunks-refused parse_uuid upstream i feature rest chunks p e refused),
            ))
        | inl (ids, upserted) ↦
            let step =
              import_chunks-upserted parse_uuid upstream i feature rest chunks p ids upserted in
            rw (ap events_of step) (
              import_chunks-IsExact chunks (after_success feature chunk ids p)
                (All-append IsExact p.events
                  (succeeded feature.collection (length chunk) (ids_of chunk) ∷ []) a
                  (length-ids_of chunk, tt))
                (sym (ap outcome step) ∙ h))
      ]

  -- The batches of a successful import sum up to its features.
  pub import_features-upserted :
      (features : List (PreparedFeature N)) (size : ℕ)
      → 1 ≤ size
      → (import_features parse_uuid upstream features size).0 ≡ ok tt
      → All IsExact (import_features parse_uuid upstream features size).1.events
        × (upserted_count (import_features parse_uuid upstream features size).1.events
            ≡ length features)
  unfolding import_features
  import_features-upserted features size positive h =
      let exact =
        import_chunks-IsExact (all_chunks (group_features 0 features []) size)
          (record { imported = replicate (length features) none; events = [] }) tt h in
      let events = (import_features parse_uuid upstream features size).1.events in
      (
        exact,
        exact-count events exact
            ∙ (length-Perm _ _
                  (import_features-reported parse_uuid upstream features size positive h)
                ∙ length-map (λ (f : PreparedFeature N). f.feature_id) features),
      )
