-- ===== src/Import/Convert.antt =====
-- gcimport/src/gcimport/parsers/geojson_to_jsonfg.py: classic GeoJSON to JSON-FG.
-- Parameters: `str.casefold`, and `normalize_crs`'s regular expressions as one function from the
-- stripped text to the EPSG code. Reading and writing files is not modelled.
pub mod Laws
pub mod Converted
use topografisk_gdb_api.Prelude.{
  ℕ, zero, suc, String, Bool, true, false, ◌&&◌, ◌||◌, not, Option, none, some, List, [], ◌∷◌, ◌++◌,
  map, ◌==◌, if◌then◌else◌, is_some, is_nonempty, length, Result, ok, err, ◌>>=◌, ◌>>◌, raise_if,
  or_raise, any_of, all_of,
}
use topografisk_gdb_api.Prelude.Text.{concat, strip, is_empty}
use topografisk_gdb_api.Import.Json.{
  Json, Items, Fields, null, text, array, object, nil, cons, end, field, find_field, get_field,
  put_field, as_array, as_object, as_text, is_text, is_null, of_list, to_list,
}
use topografisk_gdb_api.Import.Profile.{
  ImportProfile, KeyError, key_error, collection_for_objtype, geometry_type_for_collection,
}

-- `ConversionError`, by its message, and `KeyError`.
pub data ConversionError : Type 0 where
  not_an_object not_a_collection features_not_array missing_crs : ConversionError
  unsupported_crs : String → ConversionError
  crs_not_object crs_type crs_properties crs_name : ConversionError
  blank_objtype blank_geometry_type unsupported_objtype : ConversionError
  feature_not_object feature_type properties_not_object geometry_not_object : ConversionError
  coordinates_not_array no_parts not_one_part part_not_array : ConversionError
  geometry_must_be : String → ConversionError
  in_feature : ℕ → ConversionError → ConversionError
  no_key : String → ConversionError

abbrev pub lift_key {ℓ} : {A : Type ℓ} → Result KeyError A → Result ConversionError A
lift_key (ok a) = ok a
lift_key (err (key_error k)) = err (no_key k)

-- Errors of a feature name its index; a `KeyError` passes through.
abbrev pub located_error : ℕ → ConversionError → ConversionError
located_error index (no_key k) = no_key k
located_error index e = in_feature index e

abbrev pub at_index {ℓ} : {A : Type ℓ} → ℕ → Result ConversionError A → Result ConversionError A
at_index index (ok a) = ok a
at_index index (err e) = err (located_error index e)

-- `_PROPERTY_ALIASES`
abbrev pub property_aliases : List (String × String)
property_aliases =
    ("navnerom", "identifikasjon_navnerom")
    ∷ ("versjonid", "identifikasjon_versjonid")
    ∷ ("datafangstmetode", "kvalitet_datafangstmetode")
    ∷ ("noyaktighet", "kvalitet_noyaktighet")
    ∷ ("synbarhet", "kvalitet_synbarhet")
    ∷ ("datafangstmetodehoyde", "kvalitet_datafangstmetodehoyde")
    ∷ ("noyaktighethoyde", "kvalitet_noyaktighethoyde")
    ∷ []

-- `normalize_crs`
unfoldable pub normalize_crs : (String → Option String) → String → Result ConversionError String
normalize_crs epsg_code value = elim (epsg_code (strip value)) [
  | none ↦ err (unsupported_crs value)
  | some digits ↦ ok (concat ("EPSG:" ∷ digits ∷ []))
]

module _ {N : Type 0} where
  -- A text that is not blank.
  abbrev pub nonblank : Json N → Option String
  nonblank (text s) = if is_empty (strip s) then none else some s
  nonblank null = none
  nonblank _ = none

  -- `normalize_properties`, over the aliases that are left.
  unfoldable pub copy_aliases : List (String × String) → Fields N → Fields N
  copy_aliases [] properties = properties
  copy_aliases ((source, target) ∷ aliases) properties =
      copy_aliases aliases (elim (find_field target properties) [
        | some v ↦ properties
        | none ↦ elim (find_field source properties) [
          | none ↦ properties
          | some value ↦ put_field target value properties
        ]
      ])

  unfoldable pub normalize_properties : Fields N → Fields N
  unfolding copy_aliases
  normalize_properties = copy_aliases property_aliases

  abbrev pub coordinates_of : Fields N → Result ConversionError (List (Json N))
  coordinates_of geometry =
      or_raise (as_array (get_field "coordinates" geometry)) coordinates_not_array

  -- `{"type": …, "coordinates": …}`
  abbrev pub geometry_fields : String → Json N → Fields N
  geometry_fields geometry_type coordinates =
      field "type" (text geometry_type) (field "coordinates" coordinates end)

  abbrev pub all_arrays : List (Json N) → Bool
  all_arrays [] = true
  all_arrays (part ∷ parts) = is_some (as_array part) && all_arrays parts

  -- The only part of a MultiLineString.
  abbrev pub only_part : List (Json N) → Result ConversionError (Json N)
  only_part (part ∷ []) = if is_some (as_array part) then ok part else err part_not_array
  only_part [] = err not_one_part
  only_part (p ∷ q ∷ parts) = err not_one_part

  abbrev pub one_ring : Json N → Json N
  one_ring part = array (cons part nil)

  -- The cases of `normalize_geometry_for_profile`, on the type that the collection stores.
  unfoldable pub normalize_geometry : Fields N → String → Result ConversionError (Fields N)
  normalize_geometry geometry target =
      let source = get_field "type" geometry in
      if is_text target source
      then ok geometry
      else if is_text "LineString" source && target == "MultiLineString"
      then (coordinates_of geometry >>= λ coordinates.
          ok (geometry_fields "MultiLineString" (array (cons (array (of_list coordinates)) nil))))
      else if is_text "MultiLineString" source && target == "LineString"
      then (coordinates_of geometry >>= λ coordinates.
          only_part coordinates >>= λ part. ok (geometry_fields "LineString" part))
      else if is_text "MultiLineString" source && target == "MultiPolygon"
      then (coordinates_of geometry >>= λ coordinates.
          raise_if (not (is_nonempty coordinates)) no_parts
          >> raise_if (not (all_arrays coordinates)) part_not_array
          >> ok (geometry_fields "MultiPolygon" (array (of_list (map one_ring coordinates)))))
      else err (geometry_must_be target)

module _ {N : Type 0} (epsg_code : String → Option String) where
  -- `crs_from_geojson`
  unfoldable pub crs_from_geojson : Fields N → Result ConversionError (Option String)
  unfolding normalize_crs
  crs_from_geojson document =
      let crs = get_field "crs" document in
      if is_null crs
      then ok none
      else (or_raise (as_object crs) crs_not_object >>= λ fields.
          raise_if (not (is_text "name" (get_field "type" fields))) crs_type
          >> or_raise (as_object (get_field "properties" fields)) crs_properties
          >>= λ properties. or_raise (nonblank (get_field "name" properties)) crs_name >>= λ name.
              normalize_crs epsg_code name >>= λ normalized. ok (some normalized))

module _ {N : Type 0} (casefold : String → String) (profile : ImportProfile N) where
  -- `feature_type_from_objtype`; the message for an unsupported type is not modelled further.
  unfoldable pub feature_type_from_objtype : Json N → Json N → Result ConversionError String
  feature_type_from_objtype objtype geometry_type =
      or_raise (nonblank objtype) blank_objtype >>= λ name.
      or_raise (nonblank geometry_type) blank_geometry_type >>= λ shape.
      lift_key (collection_for_objtype casefold profile name (some shape)) >>= λ collection.
      or_raise collection unsupported_objtype

  unfoldable pub normalize_geometry_for_profile :
      Fields N → String → Result ConversionError (Fields N)
  normalize_geometry_for_profile geometry collection =
      lift_key (geometry_type_for_collection casefold profile collection) >>= λ target.
      normalize_geometry geometry target

  -- `feature.get("geometry", {}).get("type")`, `None` where the geometry is no object.
  abbrev pub geometry_type_of : Fields N → Json N
  geometry_type_of feature = elim (as_object (get_field "geometry" feature)) [
    | none ↦ null
    | some geometry ↦ get_field "type" geometry
  ]

  -- The converted feature, with the id of the source where it has one.
  abbrev pub converted_fields : Fields N → String → Fields N → Json N → Fields N → Fields N
  converted_fields feature collection geometry coordinates properties =
      field "type" (text "Feature") (
        field "featureType" (text collection) (
          field "place"
            (object
              (field "type" (get_field "type" geometry) (field "coordinates" coordinates end)))
            (field "properties" (object properties)
              (elim (find_field "id" feature) [ none ↦ end | some id ↦ field "id" id end ]))))

  -- `convert_feature`, on a feature that is an object.
  unfoldable pub convert_fields : Fields N → Result ConversionError (Fields N)
  convert_fields feature =
      raise_if (not (is_text "Feature" (get_field "type" feature))) feature_type
      >> or_raise (as_object (get_field "properties" feature)) properties_not_object
      >>= λ given.
          let properties = normalize_properties given in
          feature_type_from_objtype (get_field "objtype" properties) (geometry_type_of feature)
          >>= λ collection.
              or_raise (as_object (get_field "geometry" feature)) geometry_not_object >>= λ source.
              normalize_geometry_for_profile source collection >>= λ geometry.
              coordinates_of geometry >>= λ coordinates. ok (
                converted_fields feature collection geometry (array (of_list coordinates))
                  properties)

  unfoldable pub convert_feature : ℕ → Json N → Result ConversionError (Json N)
  convert_feature index feature = at_index index (
      or_raise (as_object feature) feature_not_object >>= λ fields.
      convert_fields fields >>= λ converted. ok (object converted))

  unfoldable pub convert_features : ℕ → List (Json N) → Result ConversionError (List (Json N))
  convert_features index [] = ok []
  convert_features index (feature ∷ features) = convert_feature index feature >>= λ converted.
      convert_features (suc index) features >>= λ rest. ok (converted ∷ rest)

  -- `convert_document`
  unfoldable pub convert_document :
      (String → Option String) → Option String → Json N → Result ConversionError (Json N)
  convert_document epsg_code crs document =
      or_raise (as_object document) not_an_object >>= λ fields.
      raise_if (not (is_text "FeatureCollection" (get_field "type" fields))) not_a_collection
      >> or_raise (as_array (get_field "features" fields)) features_not_array
      >>= λ features.
          elim crs [
            | none ↦ crs_from_geojson epsg_code fields
            | some given ↦ normalize_crs epsg_code given >>= λ normalized. ok (some normalized)
          ]
          >>= λ resolved. or_raise resolved missing_crs >>= λ crs_name.
              convert_features 0 features >>= λ converted. ok (
                object (
                  field "type" (text "FeatureCollection") (
                    field "coordRefSys" (text crs_name)
                      (field "features" (array (of_list converted)) end))))
