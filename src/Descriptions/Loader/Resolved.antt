-- ===== src/Descriptions/Loader/Resolved.antt =====
-- What a resolved dataset guarantees (`resolve_dataset` of
-- geocomponents/src/geocomponents/descriptions/loader.py).
use mathlib.Core.Path.{subst}
use topografisk_gdb_api.Prelude.{
  contains, String, ◌≡◌, refl, sym, ap, false, not, ◌||◌, Option, List, [], ◌∷◌, ◌++◌, map, ◌==◌,
  is_nonempty, Result, ok, ◌>>=◌, ◌>>◌, raise_if, keep, map_result, Returns, Returns-ok,
  Returns-bind, first-returned, raise_if-returned, ok_injective, Each, Each-trans, map_result-Each,
}
use topografisk_gdb_api.Prelude.Dict
use topografisk_gdb_api.Prelude.Dict.{Dict}
use topografisk_gdb_api.Descriptions.Models.{
  CollectionDef, Commons, DatasetDef, ResolvedField, ResolvedRelationship, ResolvedCollection,
  ResolvedDataset, ResolvedDerivedDef,
}
use topografisk_gdb_api.Descriptions.Fields.{
  DescriptionError, Types, CodeLists, upsert_alias_paths, filled, reserved_name, unknown_processes,
}
use topografisk_gdb_api.Descriptions.Derived.{
  resolve_relationships, validate_bounds, resolve_derived,
}
use topografisk_gdb_api.Descriptions.Derived.Roles.{
  IsLinked, resolve_relationships-IsLinked, HasRoles, resolve_derived-HasRoles, IsBounded,
  validate_bounds-IsBounded,
}
use topografisk_gdb_api.Descriptions.Loader.Merged.{IsMerged, resolve_merged-IsMerged}
use topografisk_gdb_api.Descriptions.Loader.{
  PreparedCollection, known_process_ids, validate_collection_name, resolve_merged,
  resolved_upsert_field, check_paths, option_list, resolve_upsert_path, prepare_collection,
  resolve_collection, resolve_dataset, types_of, codelists_of, targets_of, by_name, fields_by_name,
  title_or, or_blank,
}

-- A collection that was prepared from its description.
pub record IsPrepared (commons : Commons) (c : CollectionDef) (p : PreparedCollection)
    : Type 0 where
  pub same : p.collection ≡ c
  pub unreserved : (c.name == "association" || c.name == "association_role") ≡ false
  pub merged : IsMerged [] (commons.base_fields ++ c.fields) p.fields

pub prepare_collection-IsPrepared :
    (commons : Commons) (types : Types) (codelists : CodeLists) (c : CollectionDef)
    → Returns (IsPrepared commons c) (prepare_collection commons types codelists c)
unfolding prepare_collection validate_collection_name
prepare_collection-IsPrepared commons types codelists c =
    let P = IsPrepared commons c in
    let merged = commons.base_fields ++ c.fields in
    let fields_of = resolve_merged types codelists [] merged in
    Returns-bind P (validate_collection_name c.name >> fields_of) _ (λ fields e.
      let (free, resolved) =
        raise_if-returned (c.name == "association" || c.name == "association_role")
          (reserved_name c.name) fields_of fields e in
      let upsert_field = resolved_upsert_field c fields in
      Returns-bind P
        (check_paths fields (option_list (filled c.outward_identifier))
          >> check_paths fields (Dict.keys c.server_managed))
        _
        (λ u _.
          Returns-bind P
            (resolve_upsert_path merged (upsert_alias_paths fields c.outward_identifier)
              upsert_field)
            _
            (λ upsert_path _.
              Returns-ok P
                (record {
                  collection = c;
                  fields = fields;
                  upsert_field = upsert_field;
                  upsert_path = upsert_path;
                })
                (record {
                  same = refl;
                  unreserved = free;
                  merged = resolve_merged-IsMerged types codelists [] merged fields resolved;
                }))))

-- The fields of each collection by its name.
abbrev pub resolved_by_name : List ResolvedCollection → List (String × List ResolvedField)
resolved_by_name [] = []
resolved_by_name (r ∷ rs) = (r.name, r.fields) ∷ resolved_by_name rs

-- What holds of a resolved collection, by the dataset that its description stands in, and by the
-- dictionaries of the descriptions and of the resolved fields.
module _ (title : String → String) (dataset : DatasetDef) (commons : Commons) where
  abbrev collection_names : List String
  collection_names = map (λ (c : CollectionDef). c.name) dataset.collections

  abbrev descriptions : Dict CollectionDef
  descriptions = Dict.put_all (by_name dataset.collections) []

  pub record IsResolved (fields : Dict (List ResolvedField)) (c : CollectionDef)
      (r : ResolvedCollection) : Type 0 where
    pub same_name : r.name ≡ c.name
    pub unreserved : (r.name == "association" || r.name == "association_role") ≡ false
    pub merged : IsMerged [] (commons.base_fields ++ c.fields) r.fields
    pub linked : IsLinked collection_names c.relationships r.relationships
    pub bounded : IsBounded c (targets_of dataset.collections)
    pub same_bounds : r.bounds ≡ c.bounds
    pub same_model : r.feature_model ≡ c.feature_model
    pub same_geometry_type : r.geometry_type ≡ c.geometry.geometry_type
    pub same_srid : r.srid ≡ c.geometry.srid
    pub same_has_z : r.has_z ≡ c.geometry.has_z
    pub same_required : r.geometry_required ≡ c.geometry.required
    pub same_outward : r.outward_identifier_path ≡ c.outward_identifier
    pub same_managed : r.server_managed_paths ≡ c.server_managed
    pub roles : HasRoles descriptions fields r.srid r.derived

  -- The body of the second loop.
  abbrev resolve_one :
      Dict (List ResolvedField) → PreparedCollection → Result DescriptionError ResolvedCollection
  resolve_one fields =
      resolve_collection title descriptions fields (targets_of dataset.collections) collection_names

  -- The collection that is put together at its end.
  abbrev resolved_from :
      PreparedCollection
      → List ResolvedRelationship
      → Option ResolvedDerivedDef
      → ResolvedCollection
  resolved_from p relationships derived = record {
    name = p.collection.name;
    title = title_or title p.collection.title p.collection.name;
    description = or_blank title p.collection.description;
    feature_model = p.collection.feature_model;
    geometry_type = p.collection.geometry.geometry_type;
    srid = p.collection.geometry.srid;
    fields = p.fields;
    relationships = relationships;
    derived = derived;
    upsert_field = p.upsert_field;
    upsert_path = p.upsert_path;
    has_z = p.collection.geometry.has_z;
    geometry_required = p.collection.geometry.required;
    bounds = p.collection.bounds;
    outward_identifier_path = p.collection.outward_identifier;
    server_managed_paths = p.collection.server_managed;
  }

  resolve_one-IsResolved :
      (fields : Dict (List ResolvedField)) (p : PreparedCollection)
      → IsPrepared commons p.collection p
      → Returns (IsResolved fields p.collection) (resolve_one fields p)
  unfolding resolve_collection
  resolve_one-IsResolved fields p h =
      let c = p.collection in
      let P = IsResolved fields c in
      let targeted = targets_of dataset.collections in
      let related = resolve_relationships collection_names c.relationships in
      Returns-bind P (validate_bounds c targeted >> related) _ (λ relationships e.
        let (u, bounds, links) =
          first-returned (validate_bounds c targeted) (λ _. related) relationships e in
        Returns-bind P (resolve_derived descriptions fields c.geometry relationships) _
          (λ derived roles. Returns-ok P (resolved_from p relationships derived) (record {
            same_name = refl;
            unreserved = h.unreserved;
            merged = h.merged;
            linked =
                resolve_relationships-IsLinked collection_names c.relationships relationships links;
            bounded = validate_bounds-IsBounded c targeted u bounds;
            same_bounds = refl;
            same_model = refl;
            same_geometry_type = refl;
            same_srid = refl;
            same_has_z = refl;
            same_required = refl;
            same_outward = refl;
            same_managed = refl;
            roles =
                resolve_derived-HasRoles descriptions fields c.geometry relationships derived roles;
          })))

  resolve_one-from :
      (fields : Dict (List ResolvedField)) (c : CollectionDef) (p : PreparedCollection)
      (r : ResolvedCollection)
      → IsPrepared commons c p
      → resolve_one fields p ≡ ok r
      → IsResolved fields c r
  resolve_one-from fields c p r h e =
      subst (λ x. IsResolved fields x r) h.same
        (resolve_one-IsResolved fields p (subst (λ x. IsPrepared commons x p) (sym h.same) h) r e)

  -- A collection keeps the name and the fields that were prepared.
  resolve_one-kept :
      (fields : Dict (List ResolvedField)) (p : PreparedCollection)
      → Returns
          (λ (r : ResolvedCollection). (r.name ≡ p.collection.name) × (r.fields ≡ p.fields))
          (resolve_one fields p)
  unfolding resolve_collection
  resolve_one-kept fields p =
      let c = p.collection in
      let P = λ (r : ResolvedCollection). (r.name ≡ p.collection.name) × (r.fields ≡ p.fields) in
      Returns-bind P
        (validate_bounds c (targets_of dataset.collections)
          >> resolve_relationships collection_names c.relationships)
        _
        (λ relationships _.
          Returns-bind P (resolve_derived descriptions fields c.geometry relationships) _
            (λ derived _. Returns-ok P (resolved_from p relationships derived) (refl, refl)))

  fields_by_name-resolved :
      (fields : Dict (List ResolvedField)) (ps : List PreparedCollection)
      (rs : List ResolvedCollection)
      → Each (λ p r. resolve_one fields p ≡ ok r) ps rs
      → fields_by_name ps ≡ resolved_by_name rs
  fields_by_name-resolved fields [] [] h = refl
  fields_by_name-resolved fields [] (r ∷ rs) h = absurd h
  fields_by_name-resolved fields (p ∷ ps) [] h = absurd h
  fields_by_name-resolved fields (p ∷ ps) (r ∷ rs) (one, more) =
      let (same_name, same_fields) = resolve_one-kept fields p r one in
      cc (same_name, same_fields, fields_by_name-resolved fields ps rs more)

  -- A resolved dataset has the collections of its description, in their order. Each has an unreserved name,
  -- the shared fields and then its own under names that differ pairwise, its relationships with
  -- targets among the dataset's collections, bounds only on lines that are a target, and derived
  -- roles whose targets are lines in its reference system and whose conditions are Boolean fields.
  -- Its bounds, feature model, geometry, outward identifier and server-managed paths are those
  -- described.
  pub resolve_dataset-IsResolved :
      (d : ResolvedDataset)
      → resolve_dataset title dataset commons ≡ ok d
      → Each
          (IsResolved (Dict.put_all (resolved_by_name d.collections) []))
          dataset.collections
          d.collections
  unfolding resolve_dataset
  resolve_dataset-IsResolved d h =
      let unknown = keep (λ p. not (contains p known_process_ids)) dataset.processes in
      let prepare = prepare_collection commons (types_of commons) (codelists_of commons dataset) in
      let (prepared, e, rest) =
        first-returned
          (raise_if (is_nonempty unknown) (unknown_processes unknown)
            >> map_result prepare dataset.collections)
          (λ prepared.
            map_result (resolve_one (Dict.put_all (fields_by_name prepared) [])) prepared
            >>= λ collections. ok (finished collections))
          d h in
      let fields = Dict.put_all (fields_by_name prepared) [] in
      let (_, every) =
        raise_if-returned (is_nonempty unknown) (unknown_processes unknown)
          (map_result prepare dataset.collections) prepared e in
      let (collections, resolved, last) =
        first-returned (map_result (resolve_one fields) prepared) (λ cs. ok (finished cs)) d rest in
      let each = map_result-Each (resolve_one fields) prepared collections resolved in
      let same =
        ap (λ (l : List (String × List ResolvedField)). Dict.put_all l [])
          (fields_by_name-resolved fields prepared collections each) in
      subst
        (λ (x : ResolvedDataset).
          Each (IsResolved (Dict.put_all (resolved_by_name x.collections) [])) dataset.collections
            x.collections)
        (ok_injective (finished collections) d last)
        (subst (λ fs. Each (IsResolved fs) dataset.collections collections) same
          (Each-trans (λ c p. prepare c ≡ ok p) (λ p r. resolve_one fields p ≡ ok r)
            (IsResolved fields) dataset.collections prepared collections
            (λ c p r prepares resolves.
              resolve_one-from fields c p r
                (prepare_collection-IsPrepared commons (types_of commons)
                  (codelists_of commons dataset) c p prepares)
                resolves)
            (map_result-Each prepare dataset.collections prepared every) each))
    where
      finished : List ResolvedCollection → ResolvedDataset
      finished collections = record {
        name = dataset.name;
        title = title_or title dataset.title dataset.name;
        description = or_blank title dataset.description;
        processes = dataset.processes;
        collections = collections;
      }
