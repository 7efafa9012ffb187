-- ===== src/Descriptions/Loader/Raising.antt =====
-- What the resolution of a validated dataset may raise
-- (geocomponents/src/geocomponents/descriptions/loader.py).
use topografisk_gdb_api.Prelude.{
  contains, String, ◌≡◌, refl, ap, true, not, List, [], ◌∷◌, map, arith, is_nonempty, keep, ok, err,
  ◌>>◌, raise_if, map_result, first-returned, Raises, Raises-ok, Raises-bind, Raises-raise_if,
  map_result-Raises, map_result-Each, Each, All, All-append, All-weaken, All-trivial, Each-weaken,
}
use topografisk_gdb_api.Prelude.Dict
use topografisk_gdb_api.Prelude.Dict.{
  Dict, Holds, empty-Holds, put_all-Holds, put_all-has_key, has_key,
}
use topografisk_gdb_api.Descriptions.Models.{
  CollectionDef, Commons, DatasetDef, ResolvedField, ResolvedRelationship,
}
use topografisk_gdb_api.Descriptions.Fields.{DescriptionError, unknown_processes, Types, CodeLists}
use topografisk_gdb_api.Descriptions.Fields.Raising.{IsReported}
use topografisk_gdb_api.Descriptions.Derived.{
  resolve_relationships, validate_bounds, resolve_derived,
}
use topografisk_gdb_api.Descriptions.Derived.Roles.{resolve_relationships-IsLinked}
use topografisk_gdb_api.Descriptions.Loader.Resolved.{prepare_collection-IsPrepared}
use topografisk_gdb_api.Descriptions.Loader.{
  PreparedCollection, known_process_ids, prepare_collection, resolve_collection, resolve_dataset,
  types_of, codelists_of, targets_of, by_name, fields_by_name,
}
use topografisk_gdb_api.Descriptions.Loader.Preparing.{IsValidField, prepare_collection-IsReported}
use topografisk_gdb_api.Descriptions.Derived.Raising.{
  IsKnown, resolve_derived-IsReported, resolve_relationships-IsReported, validate_bounds-IsReported,
}

-- A key among the names of the pairs stands in their dictionary.
put_all-contains :
    {V : Type 0} (k : String) (pairs : List (String × V))
    → contains k (Dict.keys pairs) ≡ true
    → has_key k (Dict.put_all pairs []) ≡ true
put_all-contains k pairs h = put_all-has_key k pairs [] (ground (arith, h))

abbrev name_of : CollectionDef → String
name_of c = c.name

keys-by_name : (cs : List CollectionDef) → Dict.keys (by_name cs) ≡ map name_of cs
keys-by_name [] = refl
keys-by_name (c ∷ cs) = ap (λ (l : List String). c.name ∷ l) (keys-by_name cs)

keys-fields_by_name :
    (cs : List CollectionDef) (ps : List PreparedCollection)
    → Each (λ c (p : PreparedCollection). p.collection ≡ c) cs ps
    → Dict.keys (fields_by_name ps) ≡ map name_of cs
keys-fields_by_name [] [] h = refl
keys-fields_by_name [] (p ∷ ps) h = absurd h
keys-fields_by_name (c ∷ cs) [] h = absurd h
keys-fields_by_name (c ∷ cs) (p ∷ ps) (same, more) =
    let names : p.collection.name ≡ c.name = ap name_of same in
    cc (names, keys-fields_by_name cs ps more)

-- What pydantic validated: every field of the collections and of the shared definitions.
abbrev pub IsValidDataset : DatasetDef → Commons → Type 0
IsValidDataset dataset commons =
    All IsValidField commons.base_fields
    × All (λ (c : CollectionDef). All IsValidField c.fields) dataset.collections

module _ (title : String → String) where
  resolve_collection-IsReported :
      (collections : Dict CollectionDef) (fields : Dict (List ResolvedField))
      (targeted names : List String) (p : PreparedCollection)
      → ((k : String)
          → contains k names ≡ true
          → (has_key k collections ≡ true) × (has_key k fields ≡ true))
      → Raises IsReported (resolve_collection title collections fields targeted names p)
  unfolding resolve_collection
  resolve_collection-IsReported collections fields targeted names p known =
      let c = p.collection in
      let related = resolve_relationships names c.relationships in
      Raises-bind IsReported (validate_bounds c targeted >> related) _
        (Raises-bind IsReported (validate_bounds c targeted) _
          (validate_bounds-IsReported c targeted)
          (λ _ _. resolve_relationships-IsReported names c.relationships))
        (λ relationships e.
          let (u, _, links) =
            first-returned (validate_bounds c targeted) (λ _. related) relationships e in
          let (_, linked) =
            resolve_relationships-IsLinked names c.relationships relationships links in
          Raises-bind IsReported (resolve_derived collections fields c.geometry relationships) _
            (resolve_derived-IsReported collections fields c.geometry relationships (
              All-weaken (λ (r : ResolvedRelationship). contains r.target names ≡ true)
                (IsKnown collections fields) relationships (λ r h. known r.target h) linked))
            (λ derived _. Raises-ok IsReported _))

  prepared-collections :
      (commons : Commons) (types : Types) (codelists : CodeLists) (cs : List CollectionDef)
      (ps : List PreparedCollection)
      → map_result (prepare_collection commons types codelists) cs ≡ ok ps
      → Dict.keys (fields_by_name ps) ≡ map name_of cs
  prepared-collections commons types codelists cs ps h =
      let prepare = prepare_collection commons types codelists in
      keys-fields_by_name cs ps (
        Each-weaken (λ c p. prepare c ≡ ok p) (λ c (p : PreparedCollection). p.collection ≡ c) cs ps
          (λ c p e. (prepare_collection-IsPrepared commons types codelists c p e).same)
          (map_result-Each prepare cs ps h))

  -- The resolution of a dataset whose fields were validated ends in a dataset or in a
  -- `DescriptionError`: its assertion is unreachable, and no lookup of a collection by its name fails.
  pub resolve_dataset-IsReported :
      (dataset : DatasetDef) (commons : Commons)
      → IsValidDataset dataset commons
      → (e : DescriptionError) → resolve_dataset title dataset commons ≡ err e
      → IsReported e
  unfolding resolve_dataset
  resolve_dataset-IsReported dataset commons (base, own) =
      let unknown = keep (λ p. not (contains p known_process_ids)) dataset.processes in
      let types = types_of commons in
      let codelists = codelists_of commons dataset in
      let names = map name_of dataset.collections in
      let described = Dict.put_all (by_name dataset.collections) [] in
      let prepare = prepare_collection commons types codelists in
      let all_prepared = map_result prepare dataset.collections in
      let processes = raise_if (is_nonempty unknown) (unknown_processes unknown) in
      Raises-bind IsReported (processes >> all_prepared) _
        (Raises-bind IsReported processes _
          (Raises-raise_if IsReported (is_nonempty unknown) (unknown_processes unknown) tt)
          (λ _ _.
            map_result-Raises IsReported (λ (c : CollectionDef). All IsValidField c.fields) prepare
              (λ c h.
                prepare_collection-IsReported commons types codelists c
                  (All-append IsValidField commons.base_fields c.fields base h))
              dataset.collections own))
        (λ prepared e.
          let (_, _, every) = first-returned processes (λ _. all_prepared) prepared e in
          let fields = Dict.put_all (fields_by_name prepared) [] in
          let keys =
            prepared-collections commons types codelists dataset.collections prepared every in
          Raises-bind IsReported
            (map_result
              (resolve_collection title described fields (targets_of dataset.collections) names)
              prepared)
            _
            (map_result-Raises IsReported (λ _. Unit {0})
              (resolve_collection title described fields (targets_of dataset.collections) names)
              (λ p _.
                resolve_collection-IsReported described fields (targets_of dataset.collections)
                  names p
                  (λ k h. (
                    put_all-contains k (by_name dataset.collections)
                        (rw (keys-by_name dataset.collections) h),
                    put_all-contains k (fields_by_name prepared) (rw keys h),
                  )))
              prepared (All-trivial prepared))
            (λ collections _. Raises-ok IsReported _))
