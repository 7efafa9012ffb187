-- ===== src/Descriptions/Tests.antt =====
-- A dataset of areas and their borders, and the theorems on its resolution.
use topografisk_gdb_api.Prelude.{
  String, refl, true, false, none, some, [], ◌∷◌, Each, Result, ok, err, map_result,
}
use topografisk_gdb_api.Prelude.Int.{pos}
use topografisk_gdb_api.Prelude.Dict
use topografisk_gdb_api.Descriptions.Models.{
  FieldDef, field_def, no_fields, line_string, multi_polygon, footprint, one, allowed, topology,
  single, CollectionDef, Commons, DatasetDef, ResolvedDataset, is_safe_identifier, validate_field,
  exactly_one_type_source,
}
use topografisk_gdb_api.Descriptions.Fields.{
  DescriptionError, resolve_field, resolve_scalar, upsert_alias_paths, find_field, unknown_when,
}
use topografisk_gdb_api.Descriptions.Derived.{
  resolve_relationships, resolve_derived, validate_bounds, resolve_when,
}
use topografisk_gdb_api.Descriptions.Fields.Raising.{IsReported}
use topografisk_gdb_api.Descriptions.Loader.{
  prepare_collection, resolve_collection, resolve_dataset, check_paths, resolve_upsert_path,
  resolved_upsert_field, resolve_merged, validate_collection_name,
}
use topografisk_gdb_api.Descriptions.Loader.Resolved.{
  IsResolved, resolved_by_name, resolve_dataset-IsResolved,
}
use topografisk_gdb_api.Descriptions.Loader.Raising.{resolve_dataset-IsReported}

abbrev titled : String → String
titled s = s

abbrev typed : String → String → FieldDef
typed name token =
    field_def
      (record {
        name = name;
        type_token = some token;
        type_ref = none;
        codelist = none;
        required = true;
        auto_increment = false;
        enum = [];
        indexable = false;
      })
      no_fields

abbrev commons : Commons
commons = record { base_fields = typed "lokalid" "uuid" ∷ []; field_types = []; code_lists = [] }

abbrev border : CollectionDef
border = record {
  name = "grense";
  title = none;
  description = none;
  feature_model = topology;
  bounds = some single;
  geometry = record {
    geometry_type = line_string;
    srid = pos 5972;
    has_z = false;
    required = true;
    derived = none;
  };
  fields = typed "synlig" "boolean" ∷ [];
  relationships = [];
  outward_identifier = none;
  server_managed = [];
}

abbrev area_with : String → CollectionDef
area_with when = record {
  name = "areal";
  title = some "Areal";
  description = none;
  feature_model = topology;
  bounds = none;
  geometry = record {
    geometry_type = multi_polygon;
    srid = pos 5972;
    has_z = false;
    required = false;
    derived = some (record {
      rule = footprint;
      areas = one;
      holes = allowed;
      one_of = (record { name = "avgrenses_av"; when = some when } ∷ []) ∷ [];
    });
  };
  fields = [];
  relationships = record { property = "avgrenses_av"; target = "grense" } ∷ [];
  outward_identifier = none;
  server_managed = [];
}

abbrev dataset_with : String → DatasetDef
dataset_with when = record {
  name = "fkb_areal";
  title = none;
  description = none;
  processes = "import" ∷ [];
  collections = area_with when ∷ border ∷ [];
  codelists = [];
}

abbrev result_of : DatasetDef → Result DescriptionError ResolvedDataset
result_of dataset = resolve_dataset titled dataset commons

abbrev or_nothing : Result DescriptionError ResolvedDataset → ResolvedDataset
or_nothing (ok d) = d
or_nothing (err e) = record {
  name = "";
  title = "";
  description = "";
  processes = [];
  collections = [];
}

abbrev resolved : ResolvedDataset
resolved = or_nothing (result_of (dataset_with "synlig"))

resolve_dataset-IsResolved_example :
    Each
      (IsResolved titled
        (dataset_with "synlig")
        commons
        (Dict.put_all (resolved_by_name resolved.collections) []))
      (dataset_with "synlig").collections
      resolved.collections
unfolding resolve_dataset prepare_collection resolve_collection map_result validate_collection_name
    resolve_merged resolve_field resolve_scalar Dict.get check_paths resolve_upsert_path
    resolved_upsert_field upsert_alias_paths Dict.put_all validate_bounds resolve_relationships
    resolve_derived resolve_when find_field
resolve_dataset-IsResolved_example =
    resolve_dataset-IsResolved titled (dataset_with "synlig") commons resolved refl

-- The condition of a role names no field of the target.
resolve_dataset-IsReported_example : IsReported (unknown_when "avgrenses_av" "mangler")
unfolding resolve_dataset prepare_collection resolve_collection map_result validate_collection_name
    resolve_merged resolve_field resolve_scalar Dict.get check_paths resolve_upsert_path
    resolved_upsert_field upsert_alias_paths Dict.put_all validate_bounds resolve_relationships
    resolve_derived resolve_when find_field validate_field exactly_one_type_source
    is_safe_identifier
resolve_dataset-IsReported_example =
    resolve_dataset-IsReported titled (dataset_with "mangler") commons
      ((refl, tt), (tt, ((refl, tt), tt))) (unknown_when "avgrenses_av" "mangler") refl
