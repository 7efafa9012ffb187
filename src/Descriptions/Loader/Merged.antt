-- ===== src/Descriptions/Loader/Merged.antt =====
-- The merged fields of a collection (the inner loop of `resolve_dataset` in
-- geocomponents/src/geocomponents/descriptions/loader.py).
use topografisk_gdb_api.Prelude.{
  contains, IsDistinct, String, ◌≡◌, refl, false, Option, none, some, List, [], ◌∷◌, map, ◌>>◌,
  raise_if, or_raise, Returns, Returns-ok, Returns-err, Returns-bind, Returns-if, raise_if-returned,
}
use topografisk_gdb_api.Prelude.Dict
use topografisk_gdb_api.Prelude.Dict.{Dict}
use topografisk_gdb_api.Descriptions.Models.{
  FieldDef, spec_of, field_def, ResolvedField, resolved_field, field_name, equals, FieldSpec,
  ResolvedSpec, builtin_sql_types, no_resolved,
}
use topografisk_gdb_api.Descriptions.Fields.{
  Types, CodeLists, resolve_field, resolve_scalar, resolve_type_ref, resolve_builtin, resolved_as,
  assertion_error, unknown_builtin, unknown_type, unknown_code_list, resolve_fields,
  duplicate_field,
}
use topografisk_gdb_api.Descriptions.Loader.{resolve_merged}

abbrev pub names_of : List FieldDef → List String
names_of fields = map (λ f. (spec_of f).name) fields

abbrev IsNamed : FieldSpec → ResolvedSpec → Type 0
IsNamed f r = r.name ≡ f.name

-- A resolved field has the name of its definition.
resolve_builtin-name :
    (f : FieldSpec) (token : Option String) → Returns (IsNamed f) (resolve_builtin f token)
unfolding resolve_builtin
resolve_builtin-name f none = Returns-err (IsNamed f) (assertion_error f.name)
resolve_builtin-name f (some token) =
    Returns-bind (IsNamed f)
      (or_raise (Dict.get token builtin_sql_types) (unknown_builtin f.name token)) _
      (λ t _. Returns-ok (IsNamed f) (resolved_as f t none f.auto_increment []) refl)

resolve_type_ref-name :
    (types : Types) (f : FieldSpec) (ref : Option String)
    → Returns (IsNamed f) (resolve_type_ref types f ref)
unfolding resolve_type_ref
resolve_type_ref-name types f none = resolve_builtin-name f f.type_token
resolve_type_ref-name types f (some ref) =
    Returns-bind (IsNamed f) (or_raise (Dict.get ref types) (unknown_type f.name ref)) _
      (λ t _. Returns-ok (IsNamed f) (resolved_as f t.sql_type none f.auto_increment []) refl)

resolve_scalar-name :
    (types : Types) (codelists : CodeLists) (f : FieldSpec) (name : Option String)
    → Returns (IsNamed f) (resolve_scalar types codelists f name)
unfolding resolve_scalar
resolve_scalar-name types codelists f none = resolve_type_ref-name types f f.type_ref
resolve_scalar-name types codelists f (some name) =
    Returns-bind (IsNamed f) (or_raise (Dict.get name codelists) (unknown_code_list f.name name)) _
      (λ cl _.
        Returns-ok (IsNamed f) (resolved_as f "text" (some name) f.auto_increment cl.codes) refl)

resolve_field-name :
    (types : Types) (codelists : CodeLists) (f : FieldDef)
    → Returns
        (λ (r : ResolvedField). field_name r ≡ (spec_of f).name)
        (resolve_field types codelists f)
unfolding resolve_field
resolve_field-name types codelists (field_def spec subs) =
    let P = λ (r : ResolvedField). field_name r ≡ spec.name in
    Returns-if P (equals "object" spec.type_token) _ _
      (λ _.
        Returns-bind P (resolve_fields types codelists subs) _
          (λ rs _. Returns-ok P (resolved_field (resolved_as spec "jsonb" none false []) rs) refl))
      (λ _. Returns-bind P (resolve_scalar types codelists spec spec.codelist) _ (λ r e.
        Returns-ok P (resolved_field r no_resolved)
          (resolve_scalar-name types codelists spec spec.codelist r e)))

-- The fields are those of the definitions, in their order, under names that differ pairwise.
abbrev pub IsMerged : List String → List FieldDef → List ResolvedField → Type 0
IsMerged seen fields rs = (map field_name rs ≡ names_of fields) × IsDistinct seen (names_of fields)

pub resolve_merged-IsMerged :
    (types : Types) (codelists : CodeLists) (seen : List String) (fields : List FieldDef)
    → Returns (IsMerged seen fields) (resolve_merged types codelists seen fields)
unfolding resolve_merged
resolve_merged-IsMerged types codelists seen [] = Returns-ok (IsMerged seen []) [] (refl, tt)
resolve_merged-IsMerged types codelists seen (fld ∷ fields) =
    let P = IsMerged seen (fld ∷ fields) in
    let name = (spec_of fld).name in
    let fresh = raise_if (contains name seen) (duplicate_field name) in
    Returns-bind P (fresh >> resolve_field types codelists fld) _ (λ r resolved.
      let (new, one) =
        raise_if-returned (contains name seen) (duplicate_field name)
          (resolve_field types codelists fld) r resolved in
      Returns-bind P (resolve_merged types codelists (name ∷ seen) fields) _ (λ rest later.
        let (same, distinct) =
          resolve_merged-IsMerged types codelists (name ∷ seen) fields rest later in
        Returns-ok P (r ∷ rest)
          (cc (resolve_field-name types codelists fld r one, same), (new, distinct))))
