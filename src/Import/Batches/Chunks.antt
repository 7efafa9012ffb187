-- ===== src/Import/Batches/Chunks.antt =====
-- The chunks of `_chunked` and the groups of `import_features` in gcimport/src/gcimport/importer.py.
use mathlib.Core.List.{Perm, perm_middle, append_assoc, append-nil}
use mathlib.Core.List.Perm
use topografisk_gdb_api.Prelude.{
  ℕ, zero, suc, ◌≤◌, String, ◌≡◌, refl, List, [], ◌∷◌, ◌++◌, arith, ◌==◌, All, flatten,
  flatten-append, length, length-take, length-drop, take-append-drop, drop, Bool-cases, inl, inr,
}
use topografisk_gdb_api.Prelude.Dict.{Dict}
use topografisk_gdb_api.Import.Feature.{PreparedFeature}
use topografisk_gdb_api.Import.Batches.{
  Indexed, chunked, chunked_rounds, append_to, group_features, all_chunks,
}

module _ {ℓ} {A : Type ℓ} where
  -- A chunk holds at least one item and at most `size`.
  abbrev pub IsChunk : ℕ → List A → Type 0
  IsChunk size chunk = (1 ≤ length chunk) × (length chunk ≤ size)

  chunked_rounds-flatten :
      (rounds size : ℕ) (items : List A)
      → 1 ≤ size
      → length items ≤ rounds
      → flatten (chunked_rounds rounds size items) ≡ items
  unfolding chunked_rounds
  chunked_rounds-flatten zero size [] h k = refl
  chunked_rounds-flatten zero size (x ∷ items) h k = absurd (omega arith)
  chunked_rounds-flatten (suc rounds) size [] h k = refl
  chunked_rounds-flatten (suc rounds) size (x ∷ items) h k =
      rw
        (chunked_rounds-flatten rounds size (drop size (x ∷ items)) h
          (omega (arith, length-drop size (x ∷ items))))
        (take-append-drop size (x ∷ items))

  chunked_rounds-IsChunk :
      (rounds size : ℕ) (items : List A)
      → 1 ≤ size
      → All (IsChunk size) (chunked_rounds rounds size items)
  unfolding chunked_rounds
  chunked_rounds-IsChunk zero size items h = tt
  chunked_rounds-IsChunk (suc rounds) size [] h = tt
  chunked_rounds-IsChunk (suc rounds) size (x ∷ items) h = (
    (omega (arith, length-take size (x ∷ items)), omega (arith, length-take size (x ∷ items))),
    chunked_rounds-IsChunk rounds size (drop size (x ∷ items)) h,
  )

  -- For a positive size, the chunks put together are the items in their order, and every chunk
  -- holds at least one item and at most `size`.
  pub chunked-flatten :
      (items : List A) (size : ℕ)
      → 1 ≤ size
      → (flatten (chunked items size) ≡ items) × All (IsChunk size) (chunked items size)
  unfolding chunked
  chunked-flatten items size h = (
    chunked_rounds-flatten (length items) size items h (omega arith),
    chunked_rounds-IsChunk (length items) size items h,
  )

module _ {N : Type 0} where
  -- The features of all groups, in the order of the dictionary.
  abbrev pub grouped : Dict (List (Indexed N)) → List (Indexed N)
  grouped [] = []
  grouped ((key, items) ∷ d) = items ++ grouped d

  abbrev pub enumerate : ℕ → List (PreparedFeature N) → List (Indexed N)
  enumerate index [] = []
  enumerate index (feature ∷ features) = (index, feature) ∷ enumerate (suc index) features

  append_to-Perm :
      (key : String) (item : Indexed N) (d : Dict (List (Indexed N)))
      → Perm (grouped (append_to key item d)) (item ∷ grouped d)
  unfolding append_to
  append_to-Perm key item [] = Perm.refl (item ∷ [])
  append_to-Perm key item ((other, items) ∷ d) = elim (Bool-cases (other == key)) [
    | inl e ↦ rw (e, append_assoc items (item ∷ []) (grouped d)) (perm_middle items (grouped d))
    | inr e ↦ rw e (
        Perm.trans (Perm.append_left items (append_to-Perm key item d))
          (perm_middle items (grouped d)))
  ]

  group_features-Perm :
      (index : ℕ) (features : List (PreparedFeature N)) (d : Dict (List (Indexed N)))
      → Perm (grouped (group_features index features d)) (grouped d ++ enumerate index features)
  unfolding group_features
  group_features-Perm index [] d = rw append-nil (Perm.refl (grouped d))
  group_features-Perm index (feature ∷ features) d =
      Perm.trans
        (group_features-Perm (suc index) features (append_to feature.collection (index, feature) d))
        (Perm.trans
          (Perm.append_right (enumerate (suc index) features)
            (append_to-Perm feature.collection (index, feature) d))
          (Perm.symm (perm_middle (grouped d) (enumerate (suc index) features))))

  all_chunks-flatten :
      (d : Dict (List (Indexed N))) (size : ℕ) → 1 ≤ size → flatten (all_chunks d size) ≡ grouped d
  unfolding all_chunks
  all_chunks-flatten [] size h = refl
  all_chunks-flatten ((key, items) ∷ d) size h =
      rw
        (
          flatten-append (chunked items size) (all_chunks d size),
          (chunked-flatten items size h).0,
          all_chunks-flatten d size h,
        )
        refl

  -- The chunks of all collections hold every feature with its index exactly once.
  pub all_chunks-Perm :
      (features : List (PreparedFeature N)) (size : ℕ)
      → 1 ≤ size
      → Perm (flatten (all_chunks (group_features 0 features []) size)) (enumerate 0 features)
  all_chunks-Perm features size h =
      rw (all_chunks-flatten (group_features 0 features []) size h)
        (group_features-Perm 0 features [])
