-- ===== src/Import/Convert/Converted.antt =====
-- What the features of a conversion to JSON-FG are (`convert_feature` of
-- gcimport/src/gcimport/parsers/geojson_to_jsonfg.py).
use mathlib.Core.Path.{subst}
use topografisk_gdb_api.Prelude.{
  ℕ, suc, String, ◌≡◌, refl, ap, sym, Bool, true, false, Option, none, some, List, [], ◌∷◌, Result,
  ok, err, or_raise, or_raise-returned, raise_if-returned, Each, ◌∙◌, ◌>>=◌, ◌>>◌, raise_if,
  first-returned, ok_injective, not,
}
use topografisk_gdb_api.Import.Json.{
  Json, Fields, null, end, field, find_field, get_field, text, array, object, is_text, of_list,
  as_object, as_array,
}
use topografisk_gdb_api.Import.Profile.{
  ImportProfile, KeyError, key_error, geometry_type_for_collection,
}
use topografisk_gdb_api.Import.Convert.{
  normalize_properties, normalize_geometry, ConversionError, coordinates_of, geometry_fields,
  convert_feature, convert_features, lift_key, at_index, convert_fields,
  normalize_geometry_for_profile, feature_type_from_objtype, geometry_type_of, feature_type,
  properties_not_object, geometry_not_object, coordinates_not_array, feature_not_object,
}
use topografisk_gdb_api.Import.Convert.Laws.{normalize_geometry-type}

lift_key-returned : {A : Type 0} (r : Result KeyError A) (a : A) → lift_key r ≡ ok a → r ≡ ok a
lift_key-returned (ok b) a h = cc h
lift_key-returned (err (key_error key)) a h = absurd (cc h)

at_index-returned :
    {A : Type 0} (index : ℕ) (r : Result ConversionError A) (a : A)
    → at_index index r ≡ ok a
    → r ≡ ok a
at_index-returned index (ok b) a h = cc h
at_index-returned index (err e) a h = absurd (cc h)

module _ {N : Type 0} (casefold : String → String) (profile : ImportProfile N) where
  -- The geometry of a conversion for a collection is the converted geometry of the type that the
  -- collection stores.
  normalized_for :
      (geometry : Fields N) (collection : String) (g : Fields N)
      → normalize_geometry_for_profile casefold profile geometry collection ≡ ok g
      → (target : String) × (geometry_type_for_collection casefold profile collection ≡ ok target)
        × (normalize_geometry geometry target ≡ ok g)
  unfolding normalize_geometry_for_profile
  normalized_for geometry collection g h =
      let stored = geometry_type_for_collection casefold profile collection in
      let (target, e, done) = first-returned (lift_key stored) (normalize_geometry geometry) g h in
      (target, lift_key-returned stored target e, done)

  -- A geometry that is converted for a collection of the profile has the type that the profile
  -- stores for that collection.
  pub normalize_geometry_for_profile-type :
      (geometry : Fields N) (collection : String) (g : Fields N)
      → normalize_geometry_for_profile casefold profile geometry collection ≡ ok g
      → (target : String) × (geometry_type_for_collection casefold profile collection ≡ ok target)
        × (get_field "type" g ≡ text target)
  normalize_geometry_for_profile-type geometry collection g h =
      let (target, stored, done) = normalized_for geometry collection g h in
      (target, stored, normalize_geometry-type geometry target g done)

  -- The id of the source, where it has one.
  abbrev pub id_of : Fields N → Fields N
  id_of source = elim (find_field "id" source) [ none ↦ end | some id ↦ field "id" id end ]

  abbrev geometry_object : Json N → Json N → Json N
  geometry_object geometry_type coordinates =
      object (field "type" geometry_type (field "coordinates" coordinates end))

  -- The `place` of a geometry in the type that the collection stores.
  pub record IsPlaced (shape : Fields N) (collection : String) (place : Json N) : Type 0 where
    pub geometry : Fields N
    pub coordinates : List (Json N)
    pub target : String
    pub stored : geometry_type_for_collection casefold profile collection ≡ ok target
    pub normalized : normalize_geometry shape target ≡ ok geometry
    pub has_coordinates : as_array (get_field "coordinates" geometry) ≡ some coordinates
    pub is : place ≡ object (geometry_fields target (array (of_list coordinates)))

  -- What a feature is converted to.
  pub record IsConverted (feature converted : Json N) : Type 0 where
    pub source : Fields N
    pub given : Fields N
    pub shape : Fields N
    pub collection : String
    pub place : Json N
    pub is_object : as_object feature ≡ some source
    pub is_feature : is_text "Feature" (get_field "type" source) ≡ true
    pub has_properties : as_object (get_field "properties" source) ≡ some given
    pub has_shape : as_object (get_field "geometry" source) ≡ some shape
    pub routed :
        feature_type_from_objtype casefold profile
          (get_field "objtype" (normalize_properties given))
          (get_field "type" shape)
        ≡ ok collection
    pub placed : IsPlaced shape collection place
    pub is :
        converted
        ≡ object (
            field "type" (text "Feature") (
              field "featureType" (text collection) (
                field "place" place
                  (field "properties" (object (normalize_properties given)) (id_of source)))))

  converted-IsPlaced :
      (shape : Fields N) (collection : String) (geometry : Fields N) (coordinates : List (Json N))
      → normalize_geometry_for_profile casefold profile shape collection ≡ ok geometry
      → coordinates_of geometry ≡ ok coordinates
      → IsPlaced shape collection
          (geometry_object (get_field "type" geometry) (array (of_list coordinates)))
  converted-IsPlaced shape collection geometry coordinates h k =
      let (target, stored, done) = normalized_for shape collection geometry h in
      record {
        geometry = geometry;
        coordinates = coordinates;
        target = target;
        stored = stored;
        normalized = done;
        has_coordinates =
            or_raise-returned (as_array (get_field "coordinates" geometry)) coordinates_not_array
              coordinates k;
        is =
            ap (λ t. geometry_object t (array (of_list coordinates)))
              (normalize_geometry-type shape target geometry done);
      }

  not-false : (b : Bool) → not b ≡ false → b ≡ true
  not-false true h = refl
  not-false false h = absurd (cc h)

  geometry_type_of-shape :
      (source shape : Fields N)
      → as_object (get_field "geometry" source) ≡ some shape
      → geometry_type_of casefold profile source ≡ get_field "type" shape
  geometry_type_of-shape source shape h =
      ap (λ (o : Option (Fields N)). elim o [ none ↦ null | some g ↦ get_field "type" g ]) h

  convert_fields-IsConverted :
      (feature : Json N) (source converted : Fields N)
      → as_object feature ≡ some source
      → convert_fields casefold profile source ≡ ok converted
      → IsConverted feature (object converted)
  unfolding convert_fields
  convert_fields-IsConverted feature source converted known h =
      let typed = is_text "Feature" (get_field "type" source) in
      let properties = or_raise (as_object (get_field "properties" source)) properties_not_object in
      let (given, e0, h0) =
        first-returned (raise_if (not typed) feature_type >> properties) _ converted h in
      let (plain, e1) = raise_if-returned (not typed) feature_type properties given e0 in
      let ready = normalize_properties given in
      let (collection, e2, h2) =
        first-returned
          (feature_type_from_objtype casefold profile (get_field "objtype" ready)
            (geometry_type_of casefold profile source))
          _ converted h0 in
      let shapes = as_object (get_field "geometry" source) in
      let (shape, e3, h3) = first-returned (or_raise shapes geometry_not_object) _ converted h2 in
      let has_shape = or_raise-returned shapes geometry_not_object shape e3 in
      let (geometry, e4, h4) =
        first-returned (normalize_geometry_for_profile casefold profile shape collection) _
          converted h3 in
      let (coordinates, e5, h5) = first-returned (coordinates_of geometry) _ converted h4 in
      record {
        source = source;
        given = given;
        shape = shape;
        collection = collection;
        place = geometry_object (get_field "type" geometry) (array (of_list coordinates));
        is_object = known;
        is_feature = not-false typed plain;
        has_properties =
            or_raise-returned (as_object (get_field "properties" source)) properties_not_object
              given e1;
        has_shape = has_shape;
        routed =
            ap (λ j. feature_type_from_objtype casefold profile (get_field "objtype" ready) j)
              (sym (geometry_type_of-shape source shape has_shape))
            ∙ e2;
        placed = converted-IsPlaced shape collection geometry coordinates e4 e5;
        is = ap (λ (c : Fields N). object c) (sym (ok_injective _ converted h5));
      }

  convert_feature-IsConverted :
      (index : ℕ) (feature converted : Json N)
      → convert_feature casefold profile index feature ≡ ok converted
      → IsConverted feature converted
  unfolding convert_feature
  convert_feature-IsConverted index feature converted h =
      let (source, e, rest) =
        first-returned (or_raise (as_object feature) feature_not_object)
          (λ fields. convert_fields casefold profile fields >>= λ c. ok (object c)) converted
          (at_index-returned index _ converted h) in
      let (fields, made, is) =
        first-returned (convert_fields casefold profile source) (λ c. ok (object c)) converted
          rest in
      subst (IsConverted feature) (ok_injective (object fields) converted is) (
        convert_fields-IsConverted feature source fields
          (or_raise-returned (as_object feature) feature_not_object source e) made)

  -- Features are converted one for one, in their order. Each converted feature stands under the
  -- collection that its object type and geometry type choose, with the geometry in the type that the
  -- collection stores, the normalized properties, and the id of the source where it has one.
  pub convert_features-IsConverted :
      (i : ℕ) (features converted : List (Json N))
      → convert_features casefold profile i features ≡ ok converted
      → Each IsConverted features converted
  unfolding convert_features
  convert_features-IsConverted i [] converted h = rw (sym (ok_injective [] converted h)) tt
  convert_features-IsConverted i (feature ∷ features) converted h =
      let (c, hc, rest) =
        first-returned (convert_feature casefold profile i feature)
          (λ c. convert_features casefold profile (suc i) features >>= λ r. ok (c ∷ r)) converted
          h in
      let (cs, hcs, done) =
        first-returned (convert_features casefold profile (suc i) features) (λ r. ok (c ∷ r))
          converted rest in
      rw (sym (ok_injective (c ∷ cs) converted done)) (
        convert_feature-IsConverted i feature c hc,
        convert_features-IsConverted (suc i) features cs hcs,
      )
