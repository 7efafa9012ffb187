-- ===== src/Descriptions/Loader.antt =====
-- Resolving a dataset (`resolve_dataset` of
-- geocomponents/src/geocomponents/descriptions/loader.py). `str.title` is a parameter.
pub mod Merged
pub mod Preparing
pub mod Resolved
pub mod Raising
use Prim.Native.Char.{code}
use Prim.Native.String
use topografisk_gdb_api.Prelude.{
  contains, IsDistinct, ℕ, String, Bool, true, false, not, ◌&&◌, ◌||◌, Option, none, some, List, [],
  ◌∷◌, ◌++◌, map, ◌==◌, eqb, if◌then◌else◌, is_some, is_nonempty, Result, ok, err, ◌>>=◌, ◌>>◌,
  raise_if, or_raise, any_of, keep, map_result, flatten,
}
use topografisk_gdb_api.Prelude.Dict
use topografisk_gdb_api.Prelude.Dict.{Dict}
use topografisk_gdb_api.Descriptions.Models.{
  FieldType, CodeList, FieldSpec, FieldDef, spec_of, RelationshipDef, CollectionDef, Commons,
  DatasetDef, ResolvedField, field_name, ResolvedCollection, ResolvedDataset,
}
use topografisk_gdb_api.Descriptions.Fields.{
  DescriptionError, reserved_name, duplicate_field, unknown_processes, unknown_upsert_field,
  auto_increment_upsert, Types, CodeLists, resolve_field, resolve_dot_path, upsert_alias_paths,
  filled,
}
use topografisk_gdb_api.Descriptions.Derived.{
  resolve_relationships, resolve_derived, validate_bounds,
}

pub record PreparedCollection : Type 0 where
  pub collection : CollectionDef
  pub fields : List ResolvedField
  pub upsert_field : Option String
  pub upsert_path : Option String

-- `PROCESS_REGISTRY`, the ids alone (geocomponents/src/geocomponents/processes/registry.py).
abbrev pub known_process_ids : List String
known_process_ids = "hello" ∷ "upsert-batch" ∷ "import" ∷ []

-- `_RESERVED_COLLECTION_NAMES`, in `_validate_collection_name`.
unfoldable pub validate_collection_name : String → Result DescriptionError (Unit {0})
validate_collection_name name =
    raise_if (name == "association" || name == "association_role") (reserved_name name)

-- The loop over the merged fields.
unfoldable pub resolve_merged :
    Types → CodeLists → List String → List FieldDef → Result DescriptionError (List ResolvedField)
resolve_merged types codelists seen [] = ok []
resolve_merged types codelists seen (fld ∷ fields) =
    raise_if (contains (spec_of fld).name seen) (duplicate_field (spec_of fld).name)
    >> resolve_field types codelists fld
    >>= λ r.
        resolve_merged types codelists ((spec_of fld).name ∷ seen) fields >>= λ rest. ok (r ∷ rest)

-- `_resolved_upsert_field`
unfoldable pub resolved_upsert_field : CollectionDef → List ResolvedField → Option String
resolved_upsert_field coll fields = elim (filled coll.outward_identifier) [
  | some path ↦ some path
  | none ↦ if any_of (λ f. field_name f == "lokalid") fields then some "lokalid" else none
]

-- `resolve_dot_path` for every path of a list, for its errors.
unfoldable pub check_paths : List ResolvedField → List String → Result DescriptionError (Unit {0})
check_paths fields [] = ok tt
check_paths fields (path ∷ paths) = resolve_dot_path fields path >>= λ _. check_paths fields paths

abbrev pub option_list : Option String → List String
option_list none = []
option_list (some s) = s ∷ []

-- The names of the merged fields that count by themselves.
abbrev pub auto_increment_names : List FieldDef → List String
auto_increment_names fields =
    map (λ f. (spec_of f).name) (keep (λ f. (spec_of f).auto_increment) fields)

-- The checks of the upsert field, and the path that it stands for.
unfoldable pub resolve_upsert_path :
    List FieldDef → Dict String → Option String → Result DescriptionError (Option String)
resolve_upsert_path merged aliases none = ok none
resolve_upsert_path merged aliases (some name) =
    or_raise (Dict.get name aliases) (unknown_upsert_field name) >>= λ path.
    raise_if (contains path (auto_increment_names merged)) (auto_increment_upsert name)
    >> ok (some path)

-- The body of the first loop over the collections.
unfoldable pub prepare_collection :
    Commons → Types → CodeLists → CollectionDef → Result DescriptionError PreparedCollection
prepare_collection commons types codelists coll =
    let merged = commons.base_fields ++ coll.fields in
    validate_collection_name coll.name >> resolve_merged types codelists [] merged >>= λ fields.
    check_paths fields (option_list (filled coll.outward_identifier))
    >> check_paths fields (Dict.keys coll.server_managed)
    >> let upsert_field = resolved_upsert_field coll fields in
      resolve_upsert_path merged (upsert_alias_paths fields coll.outward_identifier) upsert_field
      >>= λ upsert_path. ok (record {
        collection = coll;
        fields = fields;
        upsert_field = upsert_field;
        upsert_path = upsert_path;
      })

-- `s.replace("_", " ")`
unfoldable pub spaced : String → String
spaced String.[] = ""
spaced (String.◌∷◌ c s) =
    let rest = spaced s in if eqb (code c) b'_' then String.◌∷◌ " " rest else String.◌∷◌ c rest

abbrev pub by_name : List CollectionDef → List (String × CollectionDef)
by_name [] = []
by_name (c ∷ cs) = (c.name, c) ∷ by_name cs

-- `resolved_fields_by_collection`
abbrev pub fields_by_name : List PreparedCollection → List (String × List ResolvedField)
fields_by_name [] = []
fields_by_name (p ∷ ps) = (p.collection.name, p.fields) ∷ fields_by_name ps

abbrev pub targets_of : List CollectionDef → List String
targets_of cs = flatten (map (λ c. map (λ (rel : RelationshipDef). rel.target) c.relationships) cs)

abbrev pub types_of : Commons → Types
types_of commons = Dict.put_all (map (λ (t : FieldType). (t.name, t)) commons.field_types) []

-- The code lists of the dataset take the place of shared ones of the same name.
abbrev pub codelists_of : Commons → DatasetDef → CodeLists
codelists_of commons dataset =
    Dict.put_all (map (λ (c : CodeList). (c.name, c)) (commons.code_lists ++ dataset.codelists)) []

module _ (title : String → String) where
  abbrev pub title_or : Option String → String → String
  title_or given name = elim (filled given) [ none ↦ title (spaced name) | some t ↦ t ]

  abbrev pub or_blank : Option String → String
  or_blank none = ""
  or_blank (some s) = s

  -- The body of the second loop over the collections.
  unfoldable pub resolve_collection :
      Dict CollectionDef
      → Dict (List ResolvedField)
      → List String
      → List String
      → PreparedCollection
      → Result DescriptionError ResolvedCollection
  resolve_collection collections fields targeted names p =
      let c = p.collection in
      validate_bounds c targeted >> resolve_relationships names c.relationships >>= λ relationships.
      resolve_derived collections fields c.geometry relationships >>= λ derived. ok (record {
        name = c.name;
        title = title_or c.title c.name;
        description = or_blank c.description;
        feature_model = c.feature_model;
        geometry_type = c.geometry.geometry_type;
        srid = c.geometry.srid;
        fields = p.fields;
        relationships = relationships;
        derived = derived;
        upsert_field = p.upsert_field;
        upsert_path = p.upsert_path;
        has_z = c.geometry.has_z;
        geometry_required = c.geometry.required;
        bounds = c.bounds;
        outward_identifier_path = c.outward_identifier;
        server_managed_paths = c.server_managed;
      })

  -- `resolve_dataset`
  unfoldable pub resolve_dataset : DatasetDef → Commons → Result DescriptionError ResolvedDataset
  resolve_dataset dataset commons =
      let names = map (λ (c : CollectionDef). c.name) dataset.collections in
      let unknown = keep (λ p. not (contains p known_process_ids)) dataset.processes in
      raise_if (is_nonempty unknown) (unknown_processes unknown)
      >> map_result (prepare_collection commons (types_of commons) (codelists_of commons dataset))
          dataset.collections
      >>= λ prepared.
          map_result
            (resolve_collection (Dict.put_all (by_name dataset.collections) [])
              (Dict.put_all (fields_by_name prepared) []) (targets_of dataset.collections) names)
            prepared
          >>= λ collections. ok (record {
            name = dataset.name;
            title = title_or dataset.title dataset.name;
            description = or_blank dataset.description;
            processes = dataset.processes;
            collections = collections;
          })

  -- `load_resolved_datasets`, on the names of the files in their order and what each holds.
  unfoldable pub load_resolved_datasets :
      (String → Result DescriptionError DatasetDef)
      → Commons
      → String
      → List String
      → Result DescriptionError (List ResolvedDataset)
  load_resolved_datasets load commons commons_filename paths =
      map_result (λ path. load path >>= λ dataset. resolve_dataset dataset commons)
        (keep (λ path. not (path == commons_filename)) paths)
