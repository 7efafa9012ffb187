-- ===== src/Import/Tests.antt =====
-- Uploads, conversions and upserts of the import service at concrete inputs.
use mathlib.Core.List.{Perm}
use topografisk_gdb_api.Prelude.{
  contains, ℕ, String, ◌≡◌, refl, true, Option, none, some, Each, List, [], ◌∷◌, map, arith, All,
  flatten, ok,
}
use topografisk_gdb_api.Import.Json.{
  Json, Fields, Items, null, number, text, array, object, nil, cons, end, field, get_field,
  put_field, find_field,
}
use topografisk_gdb_api.Prelude.Dict
use topografisk_gdb_api.Prelude.Text.{strip}
use topografisk_gdb_api.Import.Profile.{
  ImportProfile, collection_for, collection_for_objtype, collections_for_objtype,
  geometry_type_for_collection, properties_for_upstream, matching, geometry_match_kind,
  match_geometry_types,
}
use topografisk_gdb_api.Import.Profile.Routing.{collection_for_objtype-contains}
use topografisk_gdb_api.Import.Geometry.{
  at_feature, feature_not_object, transform_geometry, transform_coordinates, transform_parts,
  transform_line, transform_position, position_of, iter_positions, iter_items, enumerate_result,
}
use topografisk_gdb_api.Import.Geometry.Finite.{IsTransformed, transform_geometry-IsTransformed}
use topografisk_gdb_api.Import.Feature.{
  PreparedFeature, Checker, prepare_feature, select_geometry, locate, locate_in, identity_values,
}
use topografisk_gdb_api.Import.Document.{
  identified, identity_of, place_item, find_index, merge_duplicate_feature, with_lines,
  lines_geometry, no_progress, prepare_features, Progress,
}
use topografisk_gdb_api.Import.Document.Merging.{IsMerged, merge_duplicate_feature-IsMerged}
use topografisk_gdb_api.Import.Document.Indexed.{IsIndexed, prepare_features-IsIndexed}
use topografisk_gdb_api.Import.Batches.{
  Upstream, UpstreamImportError, request_failed, import_features, chunked, all_chunks,
  group_features,
}
use topografisk_gdb_api.Import.Batches.Chunks.{IsChunk, chunked-flatten}
use topografisk_gdb_api.Import.Batches.Accounting.{
  reported_ids, IsFailure, import_features-reported, import_features-IsFailure,
}
use topografisk_gdb_api.Import.Convert.{
  convert_fields, feature_type_from_objtype, normalize_geometry_for_profile, normalize_properties,
  normalize_geometry, geometry_fields, convert_features, convert_feature,
}
use topografisk_gdb_api.Import.Convert.Laws.{normalize_properties-keeps}
use topografisk_gdb_api.Import.Convert.Converted.{
  IsConverted, normalize_geometry_for_profile-type, convert_features-IsConverted,
}

abbrev same_case : String → String
same_case s = s

abbrev bane : ImportProfile ℕ
bane = record {
  name = "bane";
  title = "FKB-Bane";
  dataset_api_path = "/fkb_bane";
  target_crs = "EPSG:5972";
  geometry_type = "MultiLineString";
  collections = ("spormidt", "spormidt" ∷ []) ∷ [];
  required_fields = ("spormidt", []) ∷ [];
  identity_fields = "id" ∷ [];
  geometry_types = ("spormidt", "MultiLineString") ∷ [];
  merge_duplicate_multilinestrings = true;
  property_transform = none;
}

abbrev text_of : Json ℕ → String
text_of (text s) = s
text_of null = "None"
text_of _ = ""

abbrev checker : Checker ℕ
checker = record {
  is_finite = λ _. true;
  transformers = λ _ _. some (λ ns. some ns);
  casefold = same_case;
  str = text_of;
  same_fields = λ _ _. true;
}

abbrev position : ℕ → Json ℕ
position n = array (cons (number n) (cons (number n) nil))

abbrev line : ℕ → Json ℕ
line n = array (cons (position n) (cons (position n) nil))

abbrev prepared_line : String → ℕ → PreparedFeature ℕ
prepared_line id n = record {
  collection = "spormidt";
  feature_id = id;
  geojson = field "type" (text "Feature") (
      field "id" (text id) (
        field "geometry" (lines_geometry (line n ∷ []))
          (field "properties" (object (field "id" (text id) end)) end)));
}

abbrev merged_line : PreparedFeature ℕ
merged_line = with_lines (prepared_line "a1" 1) (line 1 ∷ line 2 ∷ [])

merge_duplicate_feature-IsMerged_example :
    IsMerged checker bane (prepared_line "a1" 1) (prepared_line "a1" 2) merged_line
merge_duplicate_feature-IsMerged_example =
    merge_duplicate_feature-IsMerged checker bane (prepared_line "a1" 1) (prepared_line "a1" 2)
      merged_line (unfold merge_duplicate_feature get_field put_field in refl)

abbrev uploaded_feature : Json ℕ
uploaded_feature = object (
    field "type" (text "Feature") (
      field "featureType" (text "spormidt") (
        field "geometry"
          (object (field "type" (text "LineString") (field "coordinates" (line 1) end)))
          (field "properties" (object (field "id" (text "a1") end)) end))))

abbrev checked : Progress checker bane
checked = record {
  prepared = prepared_line "a1" 1 ∷ [];
  indexes = ("a1" ∷ [], 0) ∷ [];
  errors = at_feature 1 feature_not_object ∷ [];
}

prepare_features-IsIndexed_example : IsIndexed checker bane checked
prepare_features-IsIndexed_example =
    prepare_features-IsIndexed checker bane 0 (uploaded_feature ∷ null ∷ []) null
      (no_progress checker bane) checked (record { one_each = refl; placed = tt; distinct = tt })
      (unfold prepare_features identified prepare_feature select_geometry get_field find_field
          collection_for locate locate_in identity_values identity_of place_item find_index strip
          Dict.get geometry_type_for_collection transform_geometry transform_coordinates
          transform_parts transform_line transform_position position_of iter_positions iter_items
          enumerate_result properties_for_upstream in
        refl)

abbrev numbers : List ℕ
numbers = 1 ∷ 2 ∷ 3 ∷ []

chunked-flatten_example :
    (flatten (chunked numbers 2) ≡ numbers) × All (IsChunk 2) (chunked numbers 2)
chunked-flatten_example = chunked-flatten numbers 2 (omega arith)

abbrev answers : List (Fields ℕ) → Items ℕ
answers [] = nil
answers (f ∷ fs) = cons (object (field "id" (text "u1") end)) (answers fs)

abbrev accepting : Upstream ℕ
accepting collection features = some (record {
  status_code = 200;
  body = some (object (field "features" (array (answers features)) end));
})

abbrev unreachable : Upstream ℕ
unreachable collection features = none

abbrev any_uuid : String → Option String
any_uuid s = some s

abbrev lines : List (PreparedFeature ℕ)
lines = prepared_line "a1" 1 ∷ prepared_line "b2" 2 ∷ []

abbrev no_answer : UpstreamImportError
no_answer = record { collection = "spormidt"; feature_id = "a1"; reason = request_failed }

import_features-reported_example :
    Perm
      (reported_ids (import_features any_uuid accepting lines 1).1.events)
      (map (λ (f : PreparedFeature ℕ). f.feature_id) lines)
import_features-reported_example =
    import_features-reported any_uuid accepting lines 1 (omega arith)
      (unfold import_features get_field in refl)

import_features-IsFailure_example :
    IsFailure any_uuid unreachable
      (all_chunks (group_features 0 lines []) 1)
      no_answer
      []
      (import_features any_uuid unreachable lines 1).1.events
import_features-IsFailure_example =
    import_features-IsFailure any_uuid unreachable lines 1 no_answer
      (unfold import_features in refl)

abbrev aliased : Fields ℕ
aliased = field "synbarhet" (number 1) (field "kvalitet_synbarhet" (number 2) end)

normalize_properties-keeps_example :
    find_field "kvalitet_synbarhet" (normalize_properties aliased) ≡ some (number 2)
normalize_properties-keeps_example =
    normalize_properties-keeps aliased "kvalitet_synbarhet" (number 2) (unfold find_field in refl)

abbrev one_line : Fields ℕ
one_line = geometry_fields "LineString" (line 1)

abbrev wrapped_line : Fields ℕ
wrapped_line = geometry_fields "MultiLineString" (array (cons (line 1) nil))

normalize_geometry_for_profile-type_example :
    (target : String) × (geometry_type_for_collection same_case bane "spormidt" ≡ ok target)
    × (get_field "type" wrapped_line ≡ text target)
normalize_geometry_for_profile-type_example =
    normalize_geometry_for_profile-type same_case bane one_line "spormidt" wrapped_line (
      unfold normalize_geometry_for_profile geometry_type_for_collection Dict.get normalize_geometry
        get_field in
      refl)

abbrev source_feature : Json ℕ
source_feature = object (
    field "type" (text "Feature") (
      field "geometry" (object one_line)
        (field "properties" (object (field "objtype" (text "spormidt") end)) end)))

abbrev converted_feature : Json ℕ
converted_feature = object (
    field "type" (text "Feature") (
      field "featureType" (text "spormidt") (
        field "place" (object wrapped_line)
          (field "properties" (object (field "objtype" (text "spormidt") end)) end))))

convert_features-IsConverted_example :
    Each (IsConverted same_case bane) (source_feature ∷ []) (converted_feature ∷ [])
convert_features-IsConverted_example =
    convert_features-IsConverted same_case bane 0 (source_feature ∷ []) (converted_feature ∷ []) (
      unfold convert_features convert_feature convert_fields get_field find_field
        feature_type_from_objtype normalize_properties strip collection_for_objtype
        collections_for_objtype Dict.get normalize_geometry_for_profile geometry_type_for_collection
        normalize_geometry in
      refl)

transform_geometry-IsTransformed_example :
    IsTransformed checker.is_finite checker.transformers same_case one_line bane "spormidt"
      (lines_geometry (line 1 ∷ []))
transform_geometry-IsTransformed_example =
    transform_geometry-IsTransformed checker.is_finite checker.transformers same_case one_line
      "EPSG:4326" bane "spormidt" (lines_geometry (line 1 ∷ []))
      (unfold transform_geometry get_field geometry_type_for_collection Dict.get
          transform_coordinates transform_parts transform_line transform_position position_of
          iter_positions iter_items enumerate_result in
        refl)

-- An object type with a collection of surfaces and one of lines.
abbrev bygning : ImportProfile ℕ
bygning = record bane {
  collections = ("bygning", "bygning" ∷ "grense" ∷ []) ∷ [];
  geometry_types = ("bygning", "MultiPolygon") ∷ ("grense", "MultiLineString") ∷ [];
}

collection_for_objtype-contains_example :
    contains "grense" (collections_for_objtype same_case bygning "bygning") ≡ true
collection_for_objtype-contains_example =
    collection_for_objtype-contains same_case bygning "bygning" (some "LineString") (some "grense")
      (unfold collection_for_objtype collections_for_objtype matching geometry_match_kind
          geometry_type_for_collection match_geometry_types Dict.get in
        refl)
      "grense" refl
