-- ===== src/Import/Document/Merging.antt =====
-- Merging two features of one identity (`_merge_duplicate_feature` of
-- gcimport/src/gcimport/importer.py).
use topografisk_gdb_api.Prelude.{
  String, ◌≡◌, refl, ap, sym, Bool, true, false, ◌&&◌, Option, none, some, List, [], ◌∷◌, ◌++◌,
  ◌==◌, eq_iff, arith, if◌then◌else◌,
}
use topografisk_gdb_api.Import.Json.{
  Json, Fields, end, field, get_field, put_field, of_list, to_list,
}
use topografisk_gdb_api.Import.Profile.{ImportProfile}
use topografisk_gdb_api.Import.Feature.{PreparedFeature, Checker}
use topografisk_gdb_api.Import.Document.{
  both, comparable_properties, line_coordinates, properties_of, with_lines, lines_geometry,
  merge_duplicate_feature,
}

both-some :
    (A : Type 0) (a b : Option A) (x y : A) → both a b ≡ some (x, y) → (a ≡ some x) × (b ≡ some y)
both-some A (some a) (some b) x y h = (cc h, cc h)
both-some A none b x y h = absurd (cc h)
both-some A (some a) none x y h = absurd (cc h)

some_injective : {A : Type 0} (a b : A) → some a ≡ some b → a ≡ b
some_injective a b h = cc h

bound_some :
    {A B : Type 0} (o : Option A) (f : A → Option B) (b : B)
    → (elim o [ none ↦ none | some x ↦ f x ]) ≡ some b
    → (x : A) × (o ≡ some x) × (f x ≡ some b)
bound_some none f b h = absurd (cc h)
bound_some (some x) f b h = (x, refl, h)

both_true : (a b c : Bool) → a && b && c ≡ true → (a ≡ true) × (b ≡ true) × (c ≡ true)
both_true true true true h = (refl, refl, refl)
both_true true true false h = absurd (cc h)
both_true true false c h = absurd (cc h)
both_true false b c h = absurd (cc h)

if_some :
    {A : Type 0} (c : Bool) (o : Option A) (a : A)
    → (if c then o else none) ≡ some a
    → (c ≡ true) × (o ≡ some a)
if_some true o a h = (refl, h)
if_some false o a h = absurd (cc h)

module _ {N : Type 0} where
  to_list-of : (vs : List (Json N)) → to_list (of_list vs) ≡ vs
  to_list-of [] = refl
  to_list-of (v ∷ vs) = ap (λ (t : List (Json N)). v ∷ t) (to_list-of vs)

  get_field-put :
      (j k : String) (v : Json N) (d : Fields N)
      → get_field j (put_field k v d) ≡ (if k == j then v else get_field j d)
  unfolding get_field put_field
  get_field-put j k v end = refl
  get_field-put j k v (field i w d) =
      ground (arith, eq_iff k j, eq_iff i k, eq_iff i j, get_field-put j k v d)

  with_lines-coordinates :
      (p : PreparedFeature N) (lines : List (Json N))
      → line_coordinates (with_lines p lines).geojson ≡ some lines
  unfolding get_field
  with_lines-coordinates p lines =
      rw (get_field-put "geometry" "geometry" (lines_geometry lines) p.geojson, line_coordinates)
        (ap some (to_list-of lines))

module _ {N : Type 0} (k : Checker N) (profile : ImportProfile N) where
  -- What a merge of two features keeps.
  pub record IsMerged (existing incoming merged : PreparedFeature N) : Type 0 where
    pub lines : List (Json N)
    pub more : List (Json N)
    pub allowed : profile.merge_duplicate_multilinestrings ≡ true
    pub has_lines : line_coordinates existing.geojson ≡ some lines
    pub has_more : line_coordinates incoming.geojson ≡ some more
    pub all_lines : line_coordinates merged.geojson ≡ some (lines ++ more)
    pub same_collection :
        (merged.collection ≡ incoming.collection) × (merged.collection ≡ existing.collection)
    pub same_id :
        (merged.feature_id ≡ incoming.feature_id) × (merged.feature_id ≡ existing.feature_id)
    pub ours : Fields N
    pub theirs : Fields N
    pub has_ours : properties_of existing.geojson ≡ some ours
    pub has_theirs : properties_of incoming.geojson ≡ some theirs
    pub agree : k.same_fields (comparable_properties ours) (comparable_properties theirs) ≡ true
    pub same_rest :
        (name : String)
        → get_field name merged.geojson ≡ (
            if "geometry" == name
            then lines_geometry (lines ++ more)
            else get_field name existing.geojson)

  -- Two features that are merged keep every line: the lines of the merged feature are those of the
  -- first and then those of the second. The profile allows merging, the two have one collection and
  -- one id, which the merged feature has too, their comparable properties are the same, and every key
  -- but the geometry reads as in the first.
  pub merge_duplicate_feature-IsMerged :
      (existing incoming merged : PreparedFeature N)
      → merge_duplicate_feature k profile existing incoming ≡ some merged
      → IsMerged existing incoming merged
  unfolding merge_duplicate_feature
  merge_duplicate_feature-IsMerged existing incoming merged h =
      let (routed, h1) =
        if_some
          (profile.merge_duplicate_multilinestrings
            && (existing.collection == incoming.collection)
            && (existing.feature_id == incoming.feature_id))
          _ merged h in
      let (pair, both_properties, h2) =
        bound_some (both (properties_of existing.geojson) (properties_of incoming.geojson))
          (λ x.
            if k.same_fields (comparable_properties x.0) (comparable_properties x.1)
            then merged_lines
            else none)
          merged h1 in
      let (agree, h3) =
        if_some (k.same_fields (comparable_properties pair.0) (comparable_properties pair.1))
          merged_lines merged h2 in
      let (found, both_lines, h4) =
        bound_some (both (line_coordinates existing.geojson) (line_coordinates incoming.geojson))
          (λ x. some (with_lines existing (x.0 ++ x.1))) merged h3 in
      let (ours, theirs) =
        both-some (List (Json N)) (line_coordinates existing.geojson)
          (line_coordinates incoming.geojson) found.0 found.1 both_lines in
      let (our_properties, their_properties) =
        both-some (Fields N) (properties_of existing.geojson) (properties_of incoming.geojson)
          pair.0 pair.1 both_properties in
      let (on, same_c, same_i) =
        both_true profile.merge_duplicate_multilinestrings
          (existing.collection == incoming.collection) (existing.feature_id == incoming.feature_id)
          routed in
      let is = some_injective (with_lines existing (found.0 ++ found.1)) merged h4 in
      record {
        lines = found.0;
        more = found.1;
        allowed = on;
        has_lines = ours;
        has_more = theirs;
        all_lines = rw (sym is) (with_lines-coordinates existing (found.0 ++ found.1));
        same_collection = (
          rw (sym is) (ground (arith, eq_iff existing.collection incoming.collection, same_c)),
          rw (sym is) refl,
        );
        same_id = (
          rw (sym is) (ground (arith, eq_iff existing.feature_id incoming.feature_id, same_i)),
          rw (sym is) refl,
        );
        ours = pair.0;
        theirs = pair.1;
        has_ours = our_properties;
        has_theirs = their_properties;
        agree = agree;
        same_rest = λ name.
            rw (sym is) (
              get_field-put name "geometry" (lines_geometry (found.0 ++ found.1)) existing.geojson);
      }
    where
      merged_lines : Option (PreparedFeature N)
      merged_lines =
          elim (both (line_coordinates existing.geojson) (line_coordinates incoming.geojson)) [
            | none ↦ none
            | some x ↦ some (with_lines existing (x.0 ++ x.1))
          ]
