-- ===== src/Import/Profile.antt =====
-- gcimport/src/gcimport/profiles/base.py: the import rules of a dataset.
-- `str.casefold` and a profile's `property_transform` are parameters.
pub mod Routing
use topografisk_gdb_api.Prelude.{
  String, Bool, true, false, ◌&&◌, Option, none, some, List, [], ◌∷◌, map, ◌==◌, if◌then◌else◌,
  is_some, is_nonempty, Result, ok, ◌>>=◌, or_raise,
}
use topografisk_gdb_api.Prelude.Dict
use topografisk_gdb_api.Prelude.Dict.{Dict}
use topografisk_gdb_api.Import.Json.{Fields}

-- The fields of `ImportProfile`, over the numbers of its property values. A collection entry that
-- is one name is the list of that name, as `__post_init__` normalizes it.
pub record ImportProfile (N : Type 0) : Type 0 where
  pub name : String
  pub title : String
  pub dataset_api_path : String
  pub target_crs : String
  pub geometry_type : String
  pub collections : Dict (List String)
  pub required_fields : Dict (List String)
  pub identity_fields : List String
  pub geometry_types : Dict String
  pub merge_duplicate_multilinestrings : Bool
  pub property_transform : Option (Fields N → String → Fields N)

-- `EXACT_GEOMETRY_MATCH`, `COMPATIBLE_GEOMETRY_MATCH` and 0.
pub data GeometryMatch : Type 0 where
  exact compatible unrelated : GeometryMatch

abbrev pub is_exact : GeometryMatch → Bool
is_exact GeometryMatch.exact = true
is_exact _ = false

abbrev pub is_compatible : GeometryMatch → Bool
is_compatible GeometryMatch.compatible = true
is_compatible _ = false

-- The geometry types that a feature may have for the type that a collection stores.
unfoldable pub match_geometry_types : String → String → GeometryMatch
match_geometry_types source target =
    if source == target
    then GeometryMatch.exact
    else if source == "LineString" && target == "MultiLineString"
    then GeometryMatch.compatible
    else if source == "MultiLineString" && target == "MultiPolygon"
    then GeometryMatch.compatible
    else GeometryMatch.unrelated

-- The one candidate, where there is exactly one.
abbrev pub only : List String → Option String
only (c ∷ []) = some c
only [] = none
only (c ∷ d ∷ cs) = none

abbrev pub candidates_or_none : Option (List String) → List String
candidates_or_none none = []
candidates_or_none (some cs) = cs

-- `KeyError`, with the key.
pub data KeyError : Type 0 where
  key_error : String → KeyError

unfoldable pub set_defaults : String → List String → Dict String → Dict String
set_defaults t [] d = d
set_defaults t (c ∷ cs) d = set_defaults t cs (Dict.set_default c t d)

module _ {N : Type 0} (casefold : String → String) where
  -- `__post_init__`, on the values that the constructor is given.
  unfoldable pub post_init : ImportProfile N → ImportProfile N
  unfolding set_defaults
  post_init p =
      let required =
        Dict.put_all (map (λ (e : String × List String). (casefold e.0, e.1)) p.required_fields)
          [] in
      let targets =
        Dict.put_all
          (map (λ (e : String × List String). (casefold e.0, map casefold e.1)) p.collections) [] in
      let types =
        Dict.put_all (map (λ (e : String × String). (casefold e.0, e.1)) p.geometry_types) [] in
      record p {
        required_fields = required;
        collections = targets;
        geometry_types = set_defaults p.geometry_type (Dict.keys required) types;
      }

module _ {N : Type 0} (casefold : String → String) (profile : ImportProfile N) where
  unfoldable pub geometry_type_for_collection : String → Result KeyError String
  geometry_type_for_collection collection =
      or_raise (Dict.get (casefold collection) profile.geometry_types)
        (key_error (casefold collection))

  unfoldable pub collections_for_objtype : String → List String
  collections_for_objtype objtype =
      candidates_or_none (Dict.get (casefold objtype) profile.collections)

  unfoldable pub geometry_match_kind : String → String → Result KeyError GeometryMatch
  unfolding match_geometry_types
  geometry_match_kind source collection =
      geometry_type_for_collection collection >>= λ target. ok (match_geometry_types source target)

  -- `[c for c in candidates if self.geometry_match_kind(source, c) == …]`
  unfoldable pub matching :
      (GeometryMatch → Bool) → String → List String → Result KeyError (List String)
  matching wanted source [] = ok []
  matching wanted source (c ∷ cs) = geometry_match_kind source c >>= λ kind.
      matching wanted source cs >>= λ rest. ok (if wanted kind then c ∷ rest else rest)

  unfoldable pub collection_for_objtype : String → Option String → Result KeyError (Option String)
  unfolding matching
  collection_for_objtype objtype geometry_type =
      let candidates = collections_for_objtype objtype in
      elim (only candidates) [
        | some c ↦ ok (some c)
        | none ↦ elim geometry_type [
          | none ↦ ok none
          | some source ↦ matching is_exact source candidates >>= λ exact_matches.
              if is_nonempty exact_matches
              then ok (only exact_matches)
              else matching is_compatible source candidates >>= λ compatible_matches.
                  ok (only compatible_matches)
        ]
      ]

  unfoldable pub collection_for : String → Option String → Result KeyError (Option String)
  collection_for feature_type geometry_type =
      let token = casefold feature_type in
      if is_some (Dict.get token profile.required_fields)
      then ok (some token)
      else collection_for_objtype feature_type geometry_type

  unfoldable pub properties_for_upstream : Fields N → String → Fields N
  properties_for_upstream properties collection = elim profile.property_transform [
    | none ↦ properties
    | some transform ↦ transform properties (casefold collection)
  ]
