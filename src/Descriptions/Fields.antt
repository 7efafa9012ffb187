-- ===== src/Descriptions/Fields.antt =====
-- Resolving the fields of a description and the paths that name them
-- (geocomponents/src/geocomponents/descriptions/loader.py).
pub mod Raising
use topografisk_gdb_api.Prelude.{
  ℕ, String, Bool, true, false, not, Option, none, some, List, [], ◌∷◌, map, ◌==◌, if◌then◌else◌,
  is_some, Result, ok, err, ◌>>=◌, ◌>>◌, raise_if, or_raise, any_of, find_first,
}
use topografisk_gdb_api.Prelude.Dict
use topografisk_gdb_api.Prelude.Dict.{Dict}
use topografisk_gdb_api.Prelude.Text.{concat, is_empty, split_on, last_part}
use topografisk_gdb_api.Descriptions.Models.{
  FieldType, CodeList, FieldSpec, FieldDef, FieldDefs, field_def, no_fields, more_fields, equals,
  ResolvedSpec, ResolvedField, ResolvedFields, resolved_field, no_resolved, more_resolved, list_of,
  sub_fields, field_name, builtin_sql_types,
}

-- `DescriptionError`, by what its message names but for the place, and the two exceptions of other
-- kinds that the resolution could raise.
pub data DescriptionError : Type 0 where
  reserved_name duplicate_field : String → DescriptionError
  unknown_code_list unknown_type unknown_builtin : String → String → DescriptionError
  segment_not_found : String → String → DescriptionError
  empty_path : DescriptionError
  unknown_processes : List String → DescriptionError
  unknown_upsert_field auto_increment_upsert : String → DescriptionError
  unknown_target : String → String → DescriptionError
  not_a_relationship : String → DescriptionError
  not_a_line other_srid : String → String → DescriptionError
  unknown_when non_boolean_when : String → String → DescriptionError
  untargeted_bounds bounds_geometry : String → DescriptionError
  assertion_error : String → DescriptionError
  key_error : String → DescriptionError

abbrev pub Types : Type 0
Types = Dict FieldType

abbrev pub CodeLists : Type 0
CodeLists = Dict CodeList

-- A resolved field that keeps the name, the enumeration and the flags of its definition.
abbrev pub resolved_as : FieldSpec → String → Option String → Bool → List String → ResolvedSpec
resolved_as f sql_type codelist auto_increment values = record {
  name = f.name;
  sql_type = sql_type;
  required = f.required;
  codelist = codelist;
  auto_increment = auto_increment;
  enum = f.enum;
  indexable = f.indexable;
  codelist_values = values;
}

-- The cases of `_resolve_field` for a field that is no object.
unfoldable pub resolve_builtin : FieldSpec → Option String → Result DescriptionError ResolvedSpec
resolve_builtin f none = err (assertion_error f.name)
resolve_builtin f (some token) =
    or_raise (Dict.get token builtin_sql_types) (unknown_builtin f.name token) >>= λ sql_type.
    ok (resolved_as f sql_type none f.auto_increment [])

unfoldable pub resolve_type_ref :
    Types → FieldSpec → Option String → Result DescriptionError ResolvedSpec
unfolding resolve_builtin
resolve_type_ref types f none = resolve_builtin f f.type_token
resolve_type_ref types f (some ref) =
    or_raise (Dict.get ref types) (unknown_type f.name ref) >>= λ t.
    ok (resolved_as f t.sql_type none f.auto_increment [])

unfoldable pub resolve_scalar :
    Types → CodeLists → FieldSpec → Option String → Result DescriptionError ResolvedSpec
unfolding resolve_type_ref
resolve_scalar types codelists f none = resolve_type_ref types f f.type_ref
resolve_scalar types codelists f (some name) =
    or_raise (Dict.get name codelists) (unknown_code_list f.name name) >>= λ cl.
    ok (resolved_as f "text" (some name) f.auto_increment cl.codes)

-- `_resolve_field`; the sub-fields of a field that is no object are not looked at.
unfoldable mutual
  pub resolve_field : Types → CodeLists → FieldDef → Result DescriptionError ResolvedField
  resolve_field types codelists (field_def f fields) =
      let below = resolve_fields types codelists fields in
      if equals "object" f.type_token
      then (below >>= λ subs. ok (resolved_field (resolved_as f "jsonb" none false []) subs))
      else (resolve_scalar types codelists f f.codelist >>= λ spec.
          ok (resolved_field spec no_resolved))

  pub resolve_fields : Types → CodeLists → FieldDefs → Result DescriptionError ResolvedFields
  resolve_fields types codelists no_fields = ok no_resolved
  resolve_fields types codelists (more_fields f fs) = resolve_field types codelists f >>= λ r.
      resolve_fields types codelists fs >>= λ rs. ok (more_resolved r rs)

-- `next((f for f in fields if f.name == name), None)`
unfoldable pub find_field : String → List ResolvedField → Option ResolvedField
find_field name fields = find_first (λ f. field_name f == name) fields

-- The loop of `_resolve_dot_path` over the segments that are left.
unfoldable pub walk_path :
    String
    → List ResolvedField
    → Option ResolvedField
    → List String
    → Result DescriptionError ResolvedField
walk_path dot_path current found [] = or_raise found empty_path
walk_path dot_path current found (part ∷ parts) =
    or_raise (find_field part current) (segment_not_found dot_path part) >>= λ f.
    walk_path dot_path (sub_fields f) (some f) parts

-- `_resolve_dot_path`
unfoldable pub resolve_dot_path :
    List ResolvedField → String → Result DescriptionError ResolvedField
unfolding walk_path
resolve_dot_path fields dot_path = walk_path dot_path fields none (split_on b'.' dot_path)

-- A text that is given and not empty.
abbrev pub filled : Option String → Option String
filled none = none
filled (some s) = if is_empty s then none else some s

-- `{field.name: field.name for field in fields}`
abbrev pub own_names : List ResolvedField → List (String × String)
own_names [] = []
own_names (f ∷ fs) = (field_name f, field_name f) ∷ own_names fs

unfoldable pub add_sub_aliases : String → List ResolvedField → Dict String → Dict String
add_sub_aliases name [] d = d
add_sub_aliases name (sub ∷ subs) d = add_sub_aliases name subs (
    Dict.set_default (concat (name ∷ "_" ∷ field_name sub ∷ []))
      (concat (name ∷ "." ∷ field_name sub ∷ [])) d)

unfoldable pub add_aliases : List ResolvedField → Dict String → Dict String
unfolding add_sub_aliases
add_aliases [] d = d
add_aliases (f ∷ fs) d = add_aliases fs (add_sub_aliases (field_name f) (sub_fields f) d)

-- `_upsert_alias_paths`
unfoldable pub upsert_alias_paths : List ResolvedField → Option String → Dict String
unfolding add_aliases
upsert_alias_paths fields outward =
    let d = add_aliases fields (Dict.put_all (own_names fields) []) in
    elim (filled outward) [
      | none ↦ d
      | some path ↦
          Dict.set_default (last_part path (split_on b'.' path)) path (Dict.set_default path path d)
    ]
