-- ===== src/Import/Convert/Laws.antt =====
-- The conversion to JSON-FG (gcimport/src/gcimport/parsers/geojson_to_jsonfg.py): properties and
-- geometries.
use topografisk_gdb_api.Prelude.{
  String, ◌≡◌, refl, ap, sym, Bool, true, false, none, some, List, [], ◌∷◌, map, ◌==◌, eq_iff,
  arith, if◌then◌else◌, Result, ok, ◌>>=◌, ◌>>◌, raise_if, first-returned, ok_injective, Returns,
  Returns-err, Returns-bind, Returns-if, Option-cases, inl, inr, ◌&&◌, not, is_nonempty,
}
use topografisk_gdb_api.Import.Json.{
  Json, Fields, null, cons, nil, boolean, number, end, field, find_field, get_field, put_field,
  text, array, object, is_text, of_list,
}
use topografisk_gdb_api.Import.Convert.{
  copy_aliases, normalize_properties, property_aliases, normalize_geometry, ConversionError,
  coordinates_of, geometry_fields, only_part, all_arrays, geometry_must_be, no_parts, one_ring,
  part_not_array,
}

second_true : (a : Bool) (s t : String) → a && (t == s) ≡ true → s == t ≡ true
second_true true s t h = ground (arith, eq_iff s t, eq_iff t s)
second_true false s t h = absurd (cc h)

module _ {N : Type 0} where
  find_field-put :
      (j k : String) (v : Json N) (d : Fields N)
      → find_field j (put_field k v d) ≡ (if k == j then some v else find_field j d)
  unfolding find_field put_field
  find_field-put j k v end = refl
  find_field-put j k v (field i w d) =
      ground (arith, eq_iff k j, eq_iff i k, eq_iff i j, find_field-put j k v d)

  -- A key that is absent can be written without a change to what another key holds.
  put_field-keeps :
      (k : String) (w : Json N) (d : Fields N) (name : String) (v : Json N)
      → find_field k d ≡ none
      → find_field name d ≡ some v
      → find_field name (put_field k w d) ≡ some v
  put_field-keeps k w d name v absent h =
      rw (find_field-put name k w d) (ground (arith, eq_iff k name))

  copy_aliases-keeps :
      (aliases : List (String × String)) (d : Fields N) (name : String) (v : Json N)
      → find_field name d ≡ some v
      → find_field name (copy_aliases aliases d) ≡ some v
  unfolding copy_aliases
  copy_aliases-keeps [] d name v h = h
  copy_aliases-keeps ((source, target) ∷ aliases) d name v h =
      elim (Option-cases (find_field target d)) [
        | inr (w, there) ↦ rw there (copy_aliases-keeps aliases d name v h)
        | inl absent ↦ elim (Option-cases (find_field source d)) [
          | inl missing ↦ rw (absent, missing) (copy_aliases-keeps aliases d name v h)
          | inr (value, given) ↦
              rw (absent, given)
                (copy_aliases-keeps aliases (put_field target value d) name v
                  (put_field-keeps target value d name v absent h))
        ]
      ]

  -- Normalizing the properties changes no property that the source has.
  pub normalize_properties-keeps :
      (d : Fields N) (name : String) (v : Json N)
      → find_field name d ≡ some v
      → find_field name (normalize_properties d) ≡ some v
  unfolding normalize_properties
  normalize_properties-keeps d name v h = copy_aliases-keeps property_aliases d name v h

module _ {N : Type 0} where
  is_text-eq : (s : String) (j : Json N) → is_text s j ≡ true → j ≡ text s
  is_text-eq s (text t) h = ap text (ground (arith, eq_iff t s))
  is_text-eq s null h = absurd (cc h)
  is_text-eq s (boolean b) h = absurd (cc h)
  is_text-eq s (number n) h = absurd (cc h)
  is_text-eq s (array vs) h = absurd (cc h)
  is_text-eq s (object d) h = absurd (cc h)

  abbrev pub HasType : String → Fields N → Type 0
  HasType target g = get_field "type" g ≡ text target

  text_of-eq : (s target : String) → s == target ≡ true → ◌≡◌ {A = Json N} (text s) (text target)
  text_of-eq s target h = ap text (ground (arith, eq_iff s target))

  built-type :
      (t target : String) (B : Type 0) (m : Result ConversionError B) (f : B → Json N)
      → t == target ≡ true
      → Returns (HasType target) (m >>= λ b. ok (geometry_fields t (f b)))
  unfolding get_field
  built-type t target B m f same g h =
      let (b, _, eq) = first-returned m (λ b. ok (geometry_fields t (f b))) g h in
      rw (sym (ok_injective (geometry_fields t (f b)) g eq)) (text_of-eq t target same)

  -- A converted geometry has the type that is asked for.
  pub normalize_geometry-type :
      (geometry : Fields N) (target : String) (g : Fields N)
      → normalize_geometry geometry target ≡ ok g
      → get_field "type" g ≡ text target
  unfolding normalize_geometry
  normalize_geometry-type geometry target =
      let P = HasType target in
      let source = get_field "type" geometry in
      Returns-if P (is_text target source) _ _
        (λ same g h. rw (sym (ok_injective geometry g h)) (is_text-eq target source same))
        (λ _.
          Returns-if P (is_text "LineString" source && target == "MultiLineString") _ _
            (λ line.
              built-type "MultiLineString" target (List (Json N)) (coordinates_of geometry)
                (λ coordinates. array (cons (array (of_list coordinates)) nil))
                (second_true (is_text "LineString" source) "MultiLineString" target line))
            (λ _.
              Returns-if P (is_text "MultiLineString" source && target == "LineString") _ _
                (λ lines.
                  Returns-bind P (coordinates_of geometry)
                    (λ coordinates.
                      only_part coordinates >>= λ part. ok (geometry_fields "LineString" part))
                    (λ coordinates _.
                      built-type "LineString" target (Json N) (only_part coordinates) (λ part. part)
                        (second_true (is_text "MultiLineString" source) "LineString" target lines)))
                (λ _.
                  Returns-if P (is_text "MultiLineString" source && target == "MultiPolygon") _ _
                    (λ polygon. Returns-bind P (coordinates_of geometry) _ (λ coordinates _.
                      built-type "MultiPolygon" target (Unit {0})
                        (raise_if (not (is_nonempty coordinates)) no_parts
                          >> raise_if (not (all_arrays coordinates)) part_not_array)
                        (λ _. array (of_list (map one_ring coordinates)))
                        (second_true (is_text "MultiLineString" source) "MultiPolygon" target
                          polygon)))
                    (λ _. Returns-err P (geometry_must_be target)))))
