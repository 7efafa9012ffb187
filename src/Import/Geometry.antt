-- ===== src/Import/Geometry.antt =====
-- The coordinate transformation of gcimport/src/gcimport/importer.py (`_transform_geometry` and what
-- it calls).
-- Parameters: pyproj's transformer for two reference systems, which may refuse a system (`CRSError`)
-- or a position (`ProjError`), and `math.isfinite`.
pub mod Finite
use topografisk_gdb_api.Prelude.{
  ℕ, suc, String, Bool, true, false, ◌&&◌, ◌||◌, not, Option, none, some, List, [], ◌∷◌, ◌++◌, map,
  ◌==◌, if◌then◌else◌, leb, ltb, length, Result, ok, err, ◌>>=◌, ◌>>◌, raise_if, all_of,
}
use topografisk_gdb_api.Import.Json.{
  Json, Items, Fields, null, boolean, number, text, array, object, nil, cons, to_list, end, field,
  get_field, as_array, is_text, of_list,
}
use topografisk_gdb_api.Import.Profile.{
  ImportProfile, KeyError, key_error, geometry_type_for_collection,
}

-- The messages of `DocumentValidationError`. A position is named by its geometry type and by its
-- indices from the outermost part.
pub data Problem : Type 0 where
  document_not_object document_type features_not_array : Problem
  feature_not_object feature_type_missing properties_not_object : Problem
  wrong_type unsupported_feature_type : Problem
  blank_property : String → Problem
  missing_properties : List String → Problem
  place_not_object place_without_crs blank_crs no_geometry : Problem
  geometry_must_be : String → Problem
  cannot_transform invalid_values : String → String → Problem
  not_implemented : Problem
  too_few : String → List ℕ → Problem
  bad_position : String → List ℕ → Problem
  duplicate_identity : List String → Problem
  at_feature : ℕ → Problem → Problem

-- What a step of the check raises: `DocumentValidationError`, pyproj's errors, `KeyError`,
-- `IndexError`.
pub data Failure : Type 0 where
  invalid : List Problem → Failure
  proj_error : Failure
  missing_key : String → Failure
  index_error : Failure

abbrev pub lift_key {ℓ} : {A : Type ℓ} → Result KeyError A → Result Failure A
lift_key (ok a) = ok a
lift_key (err (key_error k)) = err (missing_key k)

abbrev pub problem {ℓ} : {A : Type ℓ} → Problem → Result Failure A
problem p = err (invalid (p ∷ []))

-- `[f(i, x) for i, x in enumerate(xs, start=i)]`
unfoldable pub enumerate_result {ℓ κ} :
    {A : Type ℓ} {B : Type κ} → (ℕ → A → Result Failure B) → ℕ → List A → Result Failure (List B)
enumerate_result f i [] = ok []
enumerate_result f i (x ∷ xs) = f i x >>= λ y. enumerate_result f (suc i) xs >>= λ ys. ok (y ∷ ys)

module _ {N : Type 0} (is_finite : N → Bool) where
  -- The numbers of a position whose values are all finite numbers.
  unfoldable pub finite_numbers : List (Json N) → Option (List N)
  finite_numbers [] = some []
  finite_numbers (number n ∷ values) =
      if is_finite n
      then elim (finite_numbers values) [ none ↦ none | some ns ↦ some (n ∷ ns) ]
      else none
  finite_numbers (null ∷ values) = none
  finite_numbers (_ ∷ values) = none

  abbrev pub when_dimensions : List N → Option (List N)
  when_dimensions ns = if leb 2 (length ns) && leb (length ns) 3 then some ns else none

  -- The test of `_transform_position`: an array of two or three finite numbers.
  unfoldable pub position_of : Json N → Option (List N)
  unfolding finite_numbers
  position_of j = elim (as_array j) [
    | none ↦ none
    | some values ↦ elim (finite_numbers values) [ none ↦ none | some ns ↦ when_dimensions ns ]
  ]

  module _ (transform : List N → Option (List N)) (geometry_type : String) where
    unfoldable pub transform_position : List ℕ → Json N → Result Failure (Json N)
    transform_position path position = elim (position_of position) [
      | none ↦ problem (bad_position geometry_type path)
      | some ns ↦ elim (transform ns) [
        | none ↦ err proj_error
        | some moved ↦ ok (array (of_list (map number moved)))
      ]
    ]

    -- An array of at least `least` parts, each transformed by `part`, with the index of the part
    -- behind those of the whole.
    unfoldable pub transform_parts :
        ℕ → (List ℕ → Json N → Result Failure (Json N)) → List ℕ → Json N → Result Failure (Json N)
    transform_parts least part path j = elim (as_array j) [
      | none ↦ problem (too_few geometry_type path)
      | some parts ↦
          if ltb (length parts) least
          then problem (too_few geometry_type path)
          else enumerate_result (λ i p. part (path ++ i ∷ []) p) 0 parts >>= λ moved.
              ok (array (of_list moved))
    ]

    -- `MIN_LINESTRING_POSITIONS` is 2 and `MIN_LINEAR_RING_POSITIONS` is 4.
    unfoldable pub transform_line : List ℕ → Json N → Result Failure (Json N)
    unfolding transform_parts
    transform_line = transform_parts 2 transform_position

    unfoldable pub transform_ring : List ℕ → Json N → Result Failure (Json N)
    unfolding transform_parts
    transform_ring = transform_parts 4 transform_position

    unfoldable pub transform_polygon : List ℕ → Json N → Result Failure (Json N)
    unfolding transform_parts
    transform_polygon = transform_parts 1 transform_ring

  unfoldable pub transform_coordinates :
      String → Json N → (List N → Option (List N)) → Result Failure (Json N)
  transform_coordinates geometry_type coordinates transform =
      if geometry_type == "Point"
      then transform_position transform "Point" [] coordinates
      else if geometry_type == "LineString"
      then transform_line transform "LineString" [] coordinates
      else if geometry_type == "MultiLineString"
      then transform_parts transform "MultiLineString" 1
          (transform_line transform "MultiLineString") [] coordinates
      else if geometry_type == "Polygon"
      then transform_polygon transform "Polygon" [] coordinates
      else if geometry_type == "MultiPolygon"
      then transform_parts transform "MultiPolygon" 1 (transform_polygon transform "MultiPolygon")
          [] coordinates
      else problem not_implemented

module _ {N : Type 0} where
  -- `isinstance(value, int | float)`, which holds for a Boolean too.
  abbrev pub is_number : Json N → Bool
  is_number (number n) = true
  is_number (boolean b) = true
  is_number null = false
  is_number _ = false

  abbrev pub all_numbers : Items N → Bool
  all_numbers nil = true
  all_numbers (cons v vs) = is_number v && all_numbers vs

  abbrev pub is_cons : Items N → Bool
  is_cons nil = false
  is_cons (cons v vs) = true

-- `_iter_positions`, on an array's items: a non-empty array of numbers is a position, and any other
-- array holds the positions of its items.
unfoldable mutual
  pub iter_positions : {N : Type 0} → Json N → List (List (Json N))
  iter_positions (array items) =
      let below = iter_items items in
      if is_cons items && all_numbers items then to_list items ∷ [] else below
  iter_positions null = []
  iter_positions (boolean b) = []
  iter_positions (number n) = []
  iter_positions (text s) = []
  iter_positions (object f) = []

  pub iter_items : {N : Type 0} → Items N → List (List (Json N))
  iter_items nil = []
  iter_items (cons v vs) = iter_positions v ++ iter_items vs

-- pyproj: the transformer from one reference system to another.
abbrev pub Transformers : Type 0 → Type 0
Transformers N = String → String → Option (List N → Option (List N))

module _ {N : Type 0} (is_finite : N → Bool) (transformers : Transformers N)
    (casefold : String → String) where
  abbrev pub finite_value : Json N → Bool
  finite_value (number n) = is_finite n
  finite_value null = true
  finite_value _ = true

  -- The conversion of `CRSError` and `ProjError`.
  abbrev pub catch_proj {ℓ} : {A : Type ℓ} → String → String → Result Failure A → Result Failure A
  catch_proj source target (err proj_error) = problem (cannot_transform source target)
  catch_proj source target (ok a) = ok a
  catch_proj source target (err (invalid ps)) = err (invalid ps)
  catch_proj source target (err (missing_key k)) = err (missing_key k)
  catch_proj source target (err index_error) = err index_error

  abbrev pub wrapped : Bool → Json N → Json N
  wrapped true coordinates = array (cons coordinates nil)
  wrapped false coordinates = coordinates

  abbrev pub run_transformer :
      Option (List N → Option (List N)) → String → Json N → Result Failure (Json N)
  run_transformer none geometry_type coordinates = err proj_error
  run_transformer (some transform) geometry_type coordinates =
      transform_coordinates is_finite geometry_type coordinates transform

  abbrev pub geometry : String → Json N → Json N
  geometry geometry_type coordinates =
      object (field "type" (text geometry_type) (field "coordinates" coordinates end))

  -- `_transform_geometry`
  unfoldable pub transform_geometry :
      Fields N → String → ImportProfile N → String → Result Failure (Json N)
  transform_geometry fields source_crs profile collection =
      lift_key (geometry_type_for_collection casefold profile collection) >>= λ target.
      let wraps = is_text "LineString" (get_field "type" fields) && target == "MultiLineString" in
      let coordinates = wrapped wraps (get_field "coordinates" fields) in
      raise_if (not (wraps || is_text target (get_field "type" fields)))
        (invalid (geometry_must_be target ∷ []))
      >> catch_proj source_crs profile.target_crs
          (run_transformer (transformers source_crs profile.target_crs) target coordinates)
      >>= λ transformed.
          raise_if
            (not (all_of (λ position. all_of finite_value position) (iter_positions transformed)))
            (invalid (invalid_values source_crs profile.target_crs ∷ []))
          >> ok (geometry target transformed)
