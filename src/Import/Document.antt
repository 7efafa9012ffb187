-- ===== src/Import/Document.antt =====
-- Checking an uploaded document (`prepare_document` of gcimport/src/gcimport/importer.py).
-- Its parameters are those of `Checker`.
pub mod Indexed
pub mod Merging
use topografisk_gdb_api.Prelude.{
  ℕ, zero, suc, String, Bool, true, false, ◌&&◌, ◌||◌, not, Option, none, some, List, [], ◌∷◌, ◌++◌,
  map, ◌==◌, if◌then◌else◌, is_some, is_nonempty, length, set, get_elem?, Result, ok, err, ◌>>=◌,
  ◌>>◌, raise_if, or_raise, keep, any_of,
}
use topografisk_gdb_api.Prelude.Dict
use topografisk_gdb_api.Prelude.Dict.{Dict}
use topografisk_gdb_api.Prelude.Text.{strip, is_empty}
use topografisk_gdb_api.Import.Json.{
  Json, Items, Fields, null, text, array, object, end, field, find_field, get_field, put_field,
  as_array, as_object, as_text, is_text, is_null, of_list, to_list,
}
use topografisk_gdb_api.Import.Profile.{
  ImportProfile, KeyError, collection_for, geometry_type_for_collection, properties_for_upstream,
}
use topografisk_gdb_api.Import.Geometry.{
  Problem, document_not_object, document_type, features_not_array, feature_not_object,
  feature_type_missing, properties_not_object, wrong_type, unsupported_feature_type, blank_property,
  missing_properties, place_not_object, place_without_crs, blank_crs, no_geometry,
  duplicate_identity, at_feature, Failure, invalid, proj_error, missing_key, index_error, lift_key,
  problem, Transformers, transform_geometry, geometry,
}
use topografisk_gdb_api.Import.Feature.{
  PreparedFeature, Checker, or_else, fields_or_empty, prepare_feature,
}

abbrev pub both {ℓ} : {A : Type ℓ} → Option A → Option A → Option (A × A)
both (some a) (some b) = some (a, b)
both none b = none
both (some a) none = none

-- `_DUPLICATE_MERGE_IGNORED_PROPERTIES`
abbrev pub is_ignored : String → Bool
is_ignored name = name == "OBJECTID" || name == "SHAPE_Length"

module _ {N : Type 0} where
  -- `_comparable_properties`
  unfoldable pub comparable_properties : Fields N → Fields N
  comparable_properties end = end
  comparable_properties (field name value rest) =
      let kept = comparable_properties rest in
      if is_ignored name then kept else field name value kept

  -- The coordinates of a MultiLineString geometry whose coordinates are an array.
  abbrev pub line_coordinates : Fields N → Option (List (Json N))
  line_coordinates geojson = elim (as_object (get_field "geometry" geojson)) [
    | none ↦ none
    | some fields ↦
        if is_text "MultiLineString" (get_field "type" fields)
        then as_array (get_field "coordinates" fields)
        else none
  ]

  abbrev pub properties_of : Fields N → Option (Fields N)
  properties_of geojson = as_object (get_field "properties" geojson)

  -- A MultiLineString of the given lines.
  abbrev pub lines_geometry : List (Json N) → Json N
  lines_geometry lines =
      object
        (field "type" (text "MultiLineString") (field "coordinates" (array (of_list lines)) end))

  abbrev pub with_lines : PreparedFeature N → List (Json N) → PreparedFeature N
  with_lines p lines = record p { geojson = put_field "geometry" (lines_geometry lines) p.geojson }

module _ {N : Type 0} (k : Checker N) (profile : ImportProfile N) where
  -- `_merge_duplicate_feature`
  unfoldable pub merge_duplicate_feature :
      PreparedFeature N → PreparedFeature N → Option (PreparedFeature N)
  merge_duplicate_feature existing incoming =
      if profile.merge_duplicate_multilinestrings
        && (existing.collection == incoming.collection)
        && (existing.feature_id == incoming.feature_id)
      then elim (both (properties_of existing.geojson) (properties_of incoming.geojson)) [
        | none ↦ none
        | some (ours, theirs) ↦
            if k.same_fields (comparable_properties ours) (comparable_properties theirs)
            then elim (both (line_coordinates existing.geojson)
                (line_coordinates incoming.geojson)) [
                  | none ↦ none
                  | some (lines, more) ↦ some (with_lines existing (lines ++ more))
                ]
            else none
      ]
      else none

  -- `tuple(str(item.geojson["properties"][name]) for name in profile.identity_fields)`
  unfoldable pub identity_of : Fields N → List String → Result Failure (List String)
  identity_of properties [] = ok []
  identity_of properties (name ∷ names) =
      or_raise (find_field name properties) (missing_key name) >>= λ value.
      identity_of properties names >>= λ rest. ok (k.str value ∷ rest)

  abbrev pub same_identity : List String → List String → Bool
  same_identity [] [] = true
  same_identity [] (b ∷ bs) = false
  same_identity (a ∷ as') [] = false
  same_identity (a ∷ as') (b ∷ bs) = a == b && same_identity as' bs

  -- The variables of the loop of `prepare_document`.
  pub record Progress : Type 0 where
    pub prepared : List (PreparedFeature N)
    pub indexes : List (List String × ℕ)
    pub errors : List Problem

  unfoldable pub find_index : List String → List (List String × ℕ) → Option ℕ
  find_index identity [] = none
  find_index identity ((other, i) ∷ rest) =
      if same_identity other identity then some i else find_index identity rest

  -- A feature whose identity is at `i` already is merged into that one, or is an error. The index
  -- is always that of a prepared feature.
  unfoldable pub merge_at :
      ℕ → PreparedFeature N → ℕ → Option (PreparedFeature N) → Progress → Progress
  merge_at index item i none p = p
  merge_at index item i (some existing) p = elim (merge_duplicate_feature existing item) [
    | none ↦ record p {
      errors = p.errors ++ at_feature index (duplicate_identity profile.identity_fields) ∷ [];
    }
    | some merged ↦ record p { prepared = set p.prepared i merged }
  ]

  unfoldable pub place_item : ℕ → PreparedFeature N → List String → Progress → Progress
  unfolding merge_at find_index
  place_item index item identity p = elim (find_index identity p.indexes) [
    | none ↦ record {
      prepared = p.prepared ++ item ∷ [];
      indexes = (identity, length p.prepared) ∷ p.indexes;
      errors = p.errors;
    }
    | some i ↦ merge_at index item i (get_elem? p.prepared i) p
  ]

  -- The body of the loop: `DocumentValidationError` is caught, anything else is not.
  abbrev pub record_outcome :
      ℕ → Result Failure (PreparedFeature N × List String) → Progress → Result Failure Progress
  record_outcome index (ok (item, identity)) p = ok (place_item index item identity p)
  record_outcome index (err (invalid ps)) p =
      ok (record p { errors = p.errors ++ map (at_feature index) ps })
  record_outcome index (err proj_error) p = err proj_error
  record_outcome index (err (missing_key key)) p = err (missing_key key)
  record_outcome index (err index_error) p = err index_error

  unfoldable pub identified : Json N → Json N → Result Failure (PreparedFeature N × List String)
  identified feature inherited_crs = prepare_feature k profile feature inherited_crs >>= λ item.
      identity_of (fields_or_empty k profile (properties_of item.geojson)) profile.identity_fields
      >>= λ identity. ok (item, identity)

  unfoldable pub prepare_features : ℕ → List (Json N) → Json N → Progress → Result Failure Progress
  prepare_features index [] inherited_crs p = ok p
  prepare_features index (feature ∷ features) inherited_crs p =
      record_outcome index (identified feature inherited_crs) p >>= λ p'.
      prepare_features (suc index) features inherited_crs p'

  abbrev pub no_progress : Progress
  no_progress = record { prepared = []; indexes = []; errors = [] }

  -- `prepare_document`
  unfoldable pub prepare_document : Json N → Result Failure (List (PreparedFeature N))
  prepare_document document = elim (as_object document) [
    | none ↦ problem document_not_object
    | some fields ↦
        if is_text "FeatureCollection" (get_field "type" fields)
        then elim (as_array (get_field "features" fields)) [
          | none ↦ problem features_not_array
          | some features ↦
              prepare_features 0 features (get_field "coordRefSys" fields) no_progress >>= λ p.
              raise_if (is_nonempty p.errors) (invalid p.errors) >> ok p.prepared
        ]
        else problem document_type
  ]
