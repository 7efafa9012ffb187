-- ===== src/Import/Document/Indexed.antt =====
-- The index of identities that `prepare_document` (gcimport/src/gcimport/importer.py) keeps.
use mathlib.Core.Path.{subst}
use topografisk_gdb_api.Prelude.{
  ℕ, zero, suc, refl, ap, ◌∙◌, set, All-weaken, String, ◌≡◌, Option, none, some, List, [], ◌∷◌,
  ◌++◌, arith, All, length, length-append, length-set, get_elem?, Result, ok, err, first-returned,
  ok_injective, Option-cases, inl, inr, map, sym,
}
use topografisk_gdb_api.Import.Json.{Json, as_object}
use topografisk_gdb_api.Import.Profile.{ImportProfile}
use topografisk_gdb_api.Import.Geometry.{
  Failure, invalid, proj_error, missing_key, index_error, at_feature,
}
use topografisk_gdb_api.Import.Feature.{PreparedFeature, Checker, prepare_feature}
use topografisk_gdb_api.Import.Document.{
  Progress, find_index, merge_at, merge_duplicate_feature, place_item, record_outcome, identified,
  prepare_features, identity_of, fields_or_empty, properties_of,
}
use topografisk_gdb_api.Import.Document.Merging.{merge_duplicate_feature-IsMerged}

module _ {N : Type 0} (k : Checker N) (profile : ImportProfile N) where
  -- The identity of a prepared feature, from its properties.
  abbrev pub own_identity : PreparedFeature N → Result Failure (List String)
  own_identity item =
      identity_of k profile (fields_or_empty k profile (properties_of item.geojson))
        profile.identity_fields

  -- The feature at the index has the identity.
  abbrev pub IsAt : List (PreparedFeature N) → List String → ℕ → Type 0
  IsAt prepared identity i =
      (item : PreparedFeature N) × (get_elem? prepared i ≡ some item)
      × (own_identity item ≡ ok identity)

  abbrev pub ArePlaced : List (PreparedFeature N) → List (List String × ℕ) → Type 0
  ArePlaced prepared indexes = All (λ (e : List String × ℕ). IsAt prepared e.0 e.1) indexes

  -- No identity stands twice.
  abbrev pub IsDistinct : List (List String × ℕ) → Type 0
  IsDistinct [] = Unit
  IsDistinct ((identity, i) ∷ rest) = (find_index k profile identity rest ≡ none) × IsDistinct rest

  pub record IsIndexed (p : Progress k profile) : Type 0 where
    pub one_each : length p.indexes ≡ length p.prepared
    pub placed : ArePlaced p.prepared p.indexes
    pub distinct : IsDistinct p.indexes

  IsAt-append :
      (xs ys : List (PreparedFeature N)) (identity : List String) (i : ℕ)
      → IsAt xs identity i
      → IsAt (xs ++ ys) identity i
  IsAt-append [] ys identity i (item, at, own) = absurd (cc at)
  IsAt-append (x ∷ xs) ys identity zero h = h
  IsAt-append (x ∷ xs) ys identity (suc i) h = IsAt-append xs ys identity i h

  IsAt-last :
      (xs : List (PreparedFeature N)) (item : PreparedFeature N) (identity : List String)
      → own_identity item ≡ ok identity
      → IsAt (xs ++ item ∷ []) identity (length xs)
  IsAt-last [] item identity own = (item, refl, own)
  IsAt-last (x ∷ xs) item identity own = IsAt-last xs item identity own

  -- A feature may be replaced by one of the same properties.
  IsAt-set :
      (xs : List (PreparedFeature N)) (i : ℕ) (old new : PreparedFeature N) (identity : List String)
      (j : ℕ)
      → get_elem? xs i ≡ some old
      → properties_of new.geojson ≡ properties_of old.geojson
      → IsAt xs identity j
      → IsAt (set xs i new) identity j
  IsAt-set [] i old new identity j at same h = absurd (cc at)
  IsAt-set (x ∷ xs) zero old new identity zero at same (item, found, own) =
      let is : item ≡ old = cc (at, found) in
      (
        new,
        refl,
        ap (λ o. identity_of k profile (fields_or_empty k profile o) profile.identity_fields)
              (same ∙ ap (λ (x : PreparedFeature N). properties_of x.geojson) (sym is))
            ∙ own,
      )
  IsAt-set (x ∷ xs) zero old new identity (suc j) at same h = h
  IsAt-set (x ∷ xs) (suc i) old new identity zero at same h = h
  IsAt-set (x ∷ xs) (suc i) old new identity (suc j) at same h =
      IsAt-set xs i old new identity j at same h

  merged-properties :
      (existing item merged : PreparedFeature N)
      → merge_duplicate_feature k profile existing item ≡ some merged
      → properties_of merged.geojson ≡ properties_of existing.geojson
  merged-properties existing item merged h =
      ap (λ j. as_object j)
        ((merge_duplicate_feature-IsMerged k profile existing item merged h).same_rest "properties")

  merge_at-IsIndexed :
      (index : ℕ) (item : PreparedFeature N) (i : ℕ) (existing : Option (PreparedFeature N))
      (p : Progress k profile)
      → get_elem? p.prepared i ≡ existing
      → IsIndexed p
      → IsIndexed (merge_at k profile index item i existing p)
  unfolding merge_at
  merge_at-IsIndexed index item i none p at h = h
  merge_at-IsIndexed index item i (some existing) p at h =
      elim (Option-cases (merge_duplicate_feature k profile existing item)) [
        | inl e ↦
            rw (e, merge_at)
              (record { one_each = h.one_each; placed = h.placed; distinct = h.distinct })
        | inr (merged, e) ↦
            rw (e, merge_at)
              (record {
                one_each = rw (length-set p.prepared i merged) h.one_each;
                placed =
                    All-weaken (λ (x : List String × ℕ). IsAt p.prepared x.0 x.1)
                      (λ (x : List String × ℕ). IsAt (set p.prepared i merged) x.0 x.1) p.indexes
                      (λ x.
                        IsAt-set p.prepared i existing merged x.0 x.1 at
                          (merged-properties existing item merged e))
                      h.placed;
                distinct = h.distinct;
              })
      ]

  place_item-IsIndexed :
      (index : ℕ) (item : PreparedFeature N) (identity : List String) (p : Progress k profile)
      → own_identity item ≡ ok identity
      → IsIndexed p
      → IsIndexed (place_item k profile index item identity p)
  unfolding place_item
  place_item-IsIndexed index item identity p own h =
      elim (Option-cases (find_index k profile identity p.indexes)) [
        | inl new ↦
            rw (new, place_item)
              (record {
                one_each = omega (arith, h.one_each, length-append p.prepared (item ∷ []));
                placed = (
                  IsAt-last p.prepared item identity own,
                  All-weaken (λ (x : List String × ℕ). IsAt p.prepared x.0 x.1)
                      (λ (x : List String × ℕ). IsAt (p.prepared ++ item ∷ []) x.0 x.1) p.indexes
                      (λ x. IsAt-append p.prepared (item ∷ []) x.0 x.1) h.placed,
                );
                distinct = (new, h.distinct);
              })
        | inr (i, e) ↦
            rw (e, place_item) (merge_at-IsIndexed index item i (get_elem? p.prepared i) p refl h)
      ]

  identified-identity :
      (feature inherited_crs : Json N) (item : PreparedFeature N) (identity : List String)
      → identified k profile feature inherited_crs ≡ ok (item, identity)
      → own_identity item ≡ ok identity
  unfolding identified
  identified-identity feature inherited_crs item identity h =
      let (item', _, rest) =
        first-returned (prepare_feature k profile feature inherited_crs) _ (item, identity) h in
      let (identity', own, last) = first-returned (own_identity item') _ (item, identity) rest in
      subst (λ (x : PreparedFeature N × List String). own_identity x.0 ≡ ok x.1)
        (ok_injective (item', identity') (item, identity) last) own

  record_outcome-IsIndexed :
      (feature inherited_crs : Json N) (index : ℕ)
      (outcome : Result Failure (PreparedFeature N × List String)) (p q : Progress k profile)
      → identified k profile feature inherited_crs ≡ outcome
      → IsIndexed p
      → record_outcome k profile index outcome p ≡ ok q
      → IsIndexed q
  record_outcome-IsIndexed feature inherited_crs index (ok (item, identity)) p q by h e =
      rw (sym (ok_injective (place_item k profile index item identity p) q e)) (
        place_item-IsIndexed index item identity p
          (identified-identity feature inherited_crs item identity by) h)
  record_outcome-IsIndexed feature inherited_crs index (err (invalid ps)) p q by h e =
      rw (sym (ok_injective (record p { errors = p.errors ++ map (at_feature index) ps }) q e))
        (record { one_each = h.one_each; placed = h.placed; distinct = h.distinct })
  record_outcome-IsIndexed feature inherited_crs index (err proj_error) p q by h e = absurd (cc e)
  record_outcome-IsIndexed feature inherited_crs index (err (missing_key key)) p q by h e =
      absurd (cc e)
  record_outcome-IsIndexed feature inherited_crs index (err index_error) p q by h e = absurd (cc e)

  -- The loop over the features keeps, whatever they are, one index per prepared feature: the feature
  -- that stands at the index of an identity has that identity, after merging too, and no identity
  -- stands twice, so that the identities of the prepared features differ pairwise.
  pub prepare_features-IsIndexed :
      (index : ℕ) (features : List (Json N)) (inherited_crs : Json N) (p q : Progress k profile)
      → IsIndexed p
      → prepare_features k profile index features inherited_crs p ≡ ok q
      → IsIndexed q
  unfolding prepare_features
  prepare_features-IsIndexed index [] inherited_crs p q h e = rw (sym (ok_injective p q e)) h
  prepare_features-IsIndexed index (feature ∷ features) inherited_crs p q h e =
      let (next, recorded, rest) =
        first-returned
          (record_outcome k profile index (identified k profile feature inherited_crs) p)
          (λ p'. prepare_features k profile (suc index) features inherited_crs p') q e in
      prepare_features-IsIndexed (suc index) features inherited_crs next q
        (record_outcome-IsIndexed feature inherited_crs index
          (identified k profile feature inherited_crs) p next refl h recorded)
        rest
