-- ===== src/Import/Feature.antt =====
-- Checking one feature of an upload (`_prepare_feature` of gcimport/src/gcimport/importer.py).
-- Parameters: pyproj and `math.isfinite` as for the geometry, `str.casefold`, `str` on a property
-- value, and `!=` on property dictionaries.
use topografisk_gdb_api.Prelude.{
  String, Bool, Option, none, some, List, [], ◌∷◌, ◌++◌, if◌then◌else◌, is_some, is_nonempty,
  Result, ok, err, ◌>>=◌, ◌>>◌, raise_if, or_raise, keep,
}
use topografisk_gdb_api.Prelude.Dict
use topografisk_gdb_api.Prelude.Dict.{Dict}
use topografisk_gdb_api.Prelude.Text.{strip, is_empty}
use topografisk_gdb_api.Import.Json.{
  Json, Fields, null, text, object, end, field, find_field, get_field, as_object, as_text, is_text,
  is_null,
}
use topografisk_gdb_api.Import.Profile.{ImportProfile, collection_for, properties_for_upstream}
use topografisk_gdb_api.Import.Geometry.{
  Problem, feature_not_object, feature_type_missing, properties_not_object, wrong_type,
  unsupported_feature_type, blank_property, missing_properties, place_not_object, place_without_crs,
  blank_crs, no_geometry, Failure, invalid, proj_error, missing_key, index_error, lift_key, problem,
  Transformers, transform_geometry,
}

pub record PreparedFeature (N : Type 0) : Type 0 where
  pub collection : String
  pub feature_id : String
  pub geojson : Fields N

-- The errors of a failed step, where it is a `DocumentValidationError`.
abbrev pub or_else {ℓ} : {A : Type ℓ} → A → Result Failure A → Result Failure (A × List Problem)
or_else d (ok a) = ok (a, [])
or_else d (err (invalid ps)) = ok (d, ps)
or_else d (err proj_error) = err proj_error
or_else d (err (missing_key k)) = err (missing_key k)
or_else d (err index_error) = err index_error

module _ {N : Type 0} where
  -- The stripped text of a value that is a text and not blank.
  abbrev pub filled_text : Json N → Option String
  filled_text (text s) = if is_empty (strip s) then none else some (strip s)
  filled_text null = none
  filled_text _ = none

  -- `_identity_values`: the values and the errors.
  unfoldable pub identity_values : Fields N → List String → List String × List Problem
  identity_values properties [] = ([], [])
  identity_values properties (name ∷ names) =
      let (values, errors) = identity_values properties names in
      elim (filled_text (get_field name properties)) [
        | none ↦ (values, blank_property name ∷ errors)
        | some value ↦ (value ∷ values, errors)
      ]

  -- `place.get("coordRefSys", feature.get("coordRefSys", inherited_crs))`
  abbrev pub field_or : String → Fields N → Json N → Json N
  field_or name fields default = elim (find_field name fields) [ none ↦ default | some v ↦ v ]

  -- The reference system of a place.
  unfoldable pub place_crs : Fields N → Json N → Result Failure (Fields N × String)
  place_crs place crs = if is_null crs then problem place_without_crs else elim (as_text crs) [
    | none ↦ problem blank_crs
    | some s ↦ if is_empty (strip s) then problem blank_crs else ok (place, s)
  ]

  -- `_select_geometry`, with `FALLBACK_GEOMETRY_CRS` for a plain GeoJSON geometry.
  unfoldable pub select_geometry : Fields N → Json N → Result Failure (Fields N × String)
  unfolding place_crs
  select_geometry feature inherited_crs =
      let place = get_field "place" feature in
      if is_null place
      then elim (as_object (get_field "geometry" feature)) [
        | none ↦ problem no_geometry
        | some fields ↦ ok (fields, "EPSG:4326")
      ]
      else elim (as_object place) [
        | none ↦ problem place_not_object
        | some fields ↦
            place_crs fields
              (field_or "coordRefSys" fields (field_or "coordRefSys" feature inherited_crs))
      ]

  -- The required properties that are missing or null, which the code sorts for its message.
  abbrev pub missing_of : Fields N → List String → List String
  missing_of properties required = keep (λ name. is_null (get_field name properties)) required

-- The parameters of a check.
pub record Checker (N : Type 0) : Type 0 where
  pub is_finite : N → Bool
  pub transformers : Transformers N
  pub casefold : String → String
  pub str : Json N → String
  pub same_fields : Fields N → Fields N → Bool

module _ {N : Type 0} (k : Checker N) (profile : ImportProfile N) where
  -- What the `try` block of `_prepare_feature` finds: the collection, "" where there is none, the
  -- geometry, `null` where there is none, and the errors.
  pub record Located : Type 0 where
    pub collection : String
    pub place : Json N
    pub errors : List Problem

  abbrev pub nowhere : List Problem → Located
  nowhere errors = record { collection = ""; place = null; errors = errors }

  -- The part of the block that follows once the collection is known. `required_fields[collection]`
  -- may raise `KeyError`.
  unfoldable pub locate_in : Fields N → Fields N → String → String → Result Failure Located
  locate_in properties fields source_crs collection =
      or_raise (Dict.get collection profile.required_fields) (missing_key collection)
      >>= λ required.
          let missing = missing_of properties required in
          or_else null (
            transform_geometry k.is_finite k.transformers k.casefold fields source_crs profile
              collection)
          >>= λ (place, errors). ok (record {
            collection = collection;
            place = place;
            errors =
                (if is_nonempty missing then missing_properties missing ∷ [] else []) ++ errors;
          })

  abbrev pub or_text : Option String → String
  or_text none = ""
  or_text (some s) = s

  unfoldable pub locate : Fields N → Json N → Fields N → Result Failure Located
  unfolding locate_in
  locate feature inherited_crs properties =
      or_else (end, "") (select_geometry feature inherited_crs) >>= λ (found, errors).
      if is_nonempty errors
      then ok (nowhere errors)
      else elim (as_text (get_field "featureType" feature)) [
        | none ↦ ok (nowhere (feature_type_missing ∷ []))
        | some feature_type ↦
            lift_key
              (collection_for k.casefold profile feature_type (as_text (get_field "type" found.0)))
            >>= λ collection.
                if is_empty (or_text collection)
                then ok (nowhere (unsupported_feature_type ∷ []))
                else locate_in properties found.0 found.1 (or_text collection)
      ]

  -- `identity_values[0]`
  abbrev pub first_of : List String → Result Failure String
  first_of [] = err index_error
  first_of (v ∷ vs) = ok v

  abbrev pub fields_or_empty : Option (Fields N) → Fields N
  fields_or_empty none = end
  fields_or_empty (some fields) = fields

  -- `_prepare_feature`, on a feature that is an object.
  unfoldable pub prepare_fields : Fields N → Json N → Result Failure (PreparedFeature N)
  unfolding locate
  prepare_fields feature inherited_crs =
      let given = as_object (get_field "properties" feature) in
      let properties = fields_or_empty given in
      let (identity, identity_errors) = identity_values properties profile.identity_fields in
      locate feature inherited_crs properties >>= λ located.
      let errors =
        (if is_text "Feature" (get_field "type" feature) then [] else wrong_type ∷ [])
        ++ ((if is_some given then [] else properties_not_object ∷ [])
            ++ (identity_errors ++ located.errors)) in
      raise_if (is_nonempty errors) (invalid errors) >> first_of identity >>= λ feature_id.
      ok (record {
        collection = located.collection;
        feature_id = feature_id;
        geojson = field "type" (text "Feature") (
            field "id" (text feature_id) (
              field "geometry" located.place (
                field "properties"
                  (object
                    (properties_for_upstream k.casefold profile properties located.collection))
                  end)));
      })

  -- `_prepare_feature`
  unfoldable pub prepare_feature : Json N → Json N → Result Failure (PreparedFeature N)
  unfolding prepare_fields
  prepare_feature feature inherited_crs = elim (as_object feature) [
    | none ↦ problem feature_not_object
    | some fields ↦ prepare_fields fields inherited_crs
  ]
