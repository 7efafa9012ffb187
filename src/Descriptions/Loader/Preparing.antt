-- ===== src/Descriptions/Loader/Preparing.antt =====
-- What the preparation of a collection may raise
-- (geocomponents/src/geocomponents/descriptions/loader.py).
use topografisk_gdb_api.Prelude.{
  contains, String, ◌≡◌, ◌||◌, Option, none, some, List, [], ◌∷◌, ◌++◌, ◌==◌, ok, ◌>>◌, raise_if,
  or_raise, Raises, Raises-ok, Raises-bind, Raises-or_raise, Raises-raise_if, All,
}
use topografisk_gdb_api.Prelude.Text.{split_on}
use topografisk_gdb_api.Prelude.Dict
use topografisk_gdb_api.Prelude.Dict.{
  Dict, Holds, empty-Holds, put_all-Holds, put_all-has_key, has_key,
}
use topografisk_gdb_api.Descriptions.Models.{
  FieldDef, spec_of, validate_field, CollectionDef, Commons, ResolvedField, sub_fields,
}
use topografisk_gdb_api.Descriptions.Fields.{
  reserved_name, duplicate_field, segment_not_found, empty_path, unknown_upsert_field,
  auto_increment_upsert, Types, CodeLists, resolve_field, walk_path, resolve_dot_path, find_field,
  upsert_alias_paths, filled,
}
use topografisk_gdb_api.Descriptions.Fields.Raising.{IsReported, resolve_valid_field-IsReported}
use topografisk_gdb_api.Descriptions.Loader.{
  validate_collection_name, resolve_merged, resolved_upsert_field, check_paths, option_list,
  resolve_upsert_path, auto_increment_names, prepare_collection,
}

abbrev pub IsValidField : FieldDef → Type 0
IsValidField f = validate_field f ≡ ok tt

walk_path-IsReported :
    (path : String) (fields : List ResolvedField) (found : Option ResolvedField)
    (parts : List String)
    → Raises IsReported (walk_path path fields found parts)
unfolding walk_path
walk_path-IsReported path fields found [] = Raises-or_raise IsReported found empty_path (λ _. tt)
walk_path-IsReported path fields found (part ∷ parts) =
    Raises-bind IsReported (or_raise (find_field part fields) (segment_not_found path part)) _
      (Raises-or_raise IsReported (find_field part fields) (segment_not_found path part) (λ _. tt))
      (λ f _. walk_path-IsReported path (sub_fields f) (some f) parts)

check_paths-IsReported :
    (fields : List ResolvedField) (paths : List String)
    → Raises IsReported (check_paths fields paths)
unfolding check_paths resolve_dot_path
check_paths-IsReported fields [] = Raises-ok IsReported tt
check_paths-IsReported fields (path ∷ paths) =
    Raises-bind IsReported (resolve_dot_path fields path) _
      (walk_path-IsReported path fields none (split_on b'.' path))
      (λ _ _. check_paths-IsReported fields paths)

resolve_merged-IsReported :
    (types : Types) (codelists : CodeLists) (seen : List String) (fields : List FieldDef)
    → All IsValidField fields
    → Raises IsReported (resolve_merged types codelists seen fields)
unfolding resolve_merged
resolve_merged-IsReported types codelists seen [] h = Raises-ok IsReported []
resolve_merged-IsReported types codelists seen (fld ∷ fields) h =
    let name = (spec_of fld).name in
    let fresh = raise_if (contains name seen) (duplicate_field name) in
    Raises-bind IsReported (fresh >> resolve_field types codelists fld) _
      (Raises-bind IsReported fresh _
        (Raises-raise_if IsReported (contains name seen) (duplicate_field name) tt)
        (λ _ _. resolve_valid_field-IsReported types codelists fld h.0))
      (λ r _.
        Raises-bind IsReported (resolve_merged types codelists (name ∷ seen) fields) _
          (resolve_merged-IsReported types codelists (name ∷ seen) fields h.1)
          (λ rest _. Raises-ok IsReported (r ∷ rest)))

resolve_upsert_path-IsReported :
    (merged : List FieldDef) (aliases : Dict String) (name : Option String)
    → Raises IsReported (resolve_upsert_path merged aliases name)
unfolding resolve_upsert_path
resolve_upsert_path-IsReported merged aliases none = Raises-ok IsReported none
resolve_upsert_path-IsReported merged aliases (some name) =
    Raises-bind IsReported (or_raise (Dict.get name aliases) (unknown_upsert_field name)) _
      (Raises-or_raise IsReported (Dict.get name aliases) (unknown_upsert_field name) (λ _. tt))
      (λ path _.
        Raises-bind IsReported
          (raise_if (contains path (auto_increment_names merged)) (auto_increment_upsert name)) _
          (Raises-raise_if IsReported (contains path (auto_increment_names merged))
            (auto_increment_upsert name) tt)
          (λ _ _. Raises-ok IsReported (some path)))

pub prepare_collection-IsReported :
    (commons : Commons) (types : Types) (codelists : CodeLists) (c : CollectionDef)
    → All IsValidField (commons.base_fields ++ c.fields)
    → Raises IsReported (prepare_collection commons types codelists c)
unfolding prepare_collection validate_collection_name
prepare_collection-IsReported commons types codelists c h =
    let merged = commons.base_fields ++ c.fields in
    let fields_of = resolve_merged types codelists [] merged in
    Raises-bind IsReported (validate_collection_name c.name >> fields_of) _
      (Raises-bind IsReported (validate_collection_name c.name) _
        (Raises-raise_if IsReported (c.name == "association" || c.name == "association_role")
          (reserved_name c.name) tt)
        (λ _ _. resolve_merged-IsReported types codelists [] merged h))
      (λ fields _.
        Raises-bind IsReported
          (check_paths fields (option_list (filled c.outward_identifier))
            >> check_paths fields (Dict.keys c.server_managed))
          _
          (Raises-bind IsReported (check_paths fields (option_list (filled c.outward_identifier))) _
            (check_paths-IsReported fields (option_list (filled c.outward_identifier)))
            (λ _ _. check_paths-IsReported fields (Dict.keys c.server_managed)))
          (λ _ _.
            Raises-bind IsReported
              (resolve_upsert_path merged (upsert_alias_paths fields c.outward_identifier)
                (resolved_upsert_field c fields))
              _
              (resolve_upsert_path-IsReported merged
                (upsert_alias_paths fields c.outward_identifier) (resolved_upsert_field c fields))
              (λ path _. Raises-ok IsReported _)))
