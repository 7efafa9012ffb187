-- ===== src/Import/Geometry/Finite.antt =====
-- What a coordinate transformation returns (`_transform_geometry` of
-- gcimport/src/gcimport/importer.py).
use topografisk_gdb_api.Prelude.{
  String, ◌≡◌, refl, Bool, true, false, ◌&&◌, ◌||◌, not, [], ◌∷◌, ◌==◌, all_of, Result, ok, err,
  ◌>>◌, raise_if, Returns-ok, Returns-bind, first-returned,
}
use topografisk_gdb_api.Import.Json.{Json, Fields, get_field, is_text}
use topografisk_gdb_api.Import.Profile.{
  ImportProfile, KeyError, key_error, geometry_type_for_collection,
}
use topografisk_gdb_api.Import.Geometry.{
  invalid, geometry_must_be, invalid_values, lift_key, Transformers, transform_geometry, geometry,
  iter_positions, finite_value, catch_proj, run_transformer, wrapped,
}

lift_key-returned : {A : Type 0} (m : Result KeyError A) (a : A) → lift_key m ≡ ok a → m ≡ ok a
lift_key-returned (ok b) a h = cc h
lift_key-returned (err (key_error k)) a h = absurd (cc h)

not_raised : {E : Type 0} (c : Bool) (e : E) (u : Unit {0}) → raise_if (not c) e ≡ ok u → c ≡ true
not_raised true e u h = refl
not_raised false e u h = absurd (cc h)

module _ {N : Type 0} (is_finite : N → Bool) (transformers : Transformers N)
    (casefold : String → String) where
  -- A geometry of the type that the collection stores, all of whose positions are finite.
  pub record IsTransformed (fields : Fields N) (profile : ImportProfile N) (collection : String)
      (j : Json N) : Type 0 where
    pub target : String
    pub coordinates : Json N
    pub stored : geometry_type_for_collection casefold profile collection ≡ ok target
    pub given :
        (is_text "LineString" (get_field "type" fields) && target == "MultiLineString")
          || is_text target (get_field "type" fields)
        ≡ true
    pub is_geometry : j ≡ geometry is_finite transformers casefold target coordinates
    pub finite :
        all_of
          (λ position. all_of (finite_value is_finite transformers casefold) position)
          (iter_positions coordinates)
        ≡ true

  -- A transformed geometry has the type that the profile stores for the collection, which the
  -- source geometry had too unless it was a LineString for a MultiLineString, and every number of
  -- its positions is finite.
  pub transform_geometry-IsTransformed :
      (fields : Fields N) (source_crs : String) (profile : ImportProfile N) (collection : String)
      (j : Json N)
      → transform_geometry is_finite transformers casefold fields source_crs profile collection
        ≡ ok j
      → IsTransformed fields profile collection j
  unfolding transform_geometry
  transform_geometry-IsTransformed fields source_crs profile collection =
      let P = IsTransformed fields profile collection in
      let source = get_field "type" fields in
      Returns-bind P (lift_key (geometry_type_for_collection casefold profile collection)) _
        (λ target stored.
          let wraps = is_text "LineString" source && target == "MultiLineString" in
          let moved = catch_proj is_finite transformers casefold source_crs profile.target_crs (
            run_transformer is_finite transformers casefold
              (transformers source_crs profile.target_crs) target
              (wrapped is_finite transformers casefold wraps (get_field "coordinates" fields))) in
          Returns-bind P
            (raise_if (not (wraps || is_text target source))
                (invalid (geometry_must_be target ∷ []))
              >> moved)
            _
            (λ transformed checked.
              let (u, allowed, _) =
                first-returned
                  (raise_if (not (wraps || is_text target source))
                    (invalid (geometry_must_be target ∷ [])))
                  (λ _. moved) transformed checked in
              let values =
                all_of (λ position. all_of (finite_value is_finite transformers casefold) position)
                  (iter_positions transformed) in
              Returns-bind P
                (raise_if (not values)
                  (invalid (invalid_values source_crs profile.target_crs ∷ [])))
                _
                (λ v fine.
                  Returns-ok P (geometry is_finite transformers casefold target transformed)
                    (record {
                      target = target;
                      coordinates = transformed;
                      stored =
                          lift_key-returned
                            (geometry_type_for_collection casefold profile collection) target
                            stored;
                      given =
                          not_raised (wraps || is_text target source)
                            (invalid (geometry_must_be target ∷ [])) u allowed;
                      is_geometry = refl;
                      finite =
                          not_raised values
                            (invalid (invalid_values source_crs profile.target_crs ∷ [])) v fine;
                    }))))
