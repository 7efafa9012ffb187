-- ===== src/Descriptions/Fields/Raising.antt =====
-- What the resolution of a validated field may raise
-- (geocomponents/src/geocomponents/descriptions/loader.py).
use topografisk_gdb_api.Prelude.{
  String, ◌≡◌, true, false, not, ◌||◌, Option, none, some, [], arith, eqb, is_some, ok, ◌>>◌,
  raise_if, or_raise, first-returned, Raises, Raises-ok, Raises-bind, Raises-if, Raises-or_raise,
}
use topografisk_gdb_api.Prelude.Dict
use topografisk_gdb_api.Descriptions.Models.{
  unsafe_identifier, FieldSpec, FieldDef, FieldDefs, field_def, no_fields, more_fields, equals,
  exactly_one_type_source, type_source_count, validate_field, validate_fields, resolved_field,
  more_resolved, no_resolved, builtin_sql_types, is_safe_identifier,
}
use topografisk_gdb_api.Descriptions.Fields.{
  DescriptionError, unknown_code_list, unknown_type, unknown_builtin, assertion_error, key_error,
  Types, CodeLists, resolved_as, resolve_builtin, resolve_type_ref, resolve_scalar, resolve_field,
  resolve_fields,
}

-- A `DescriptionError`, and no `AssertionError` or `KeyError`.
abbrev pub IsReported : DescriptionError → Type 0
IsReported (assertion_error name) = ⊥
IsReported (key_error name) = ⊥
IsReported _ = Unit

-- A field that is no object and that was validated has one source of its type.
abbrev HasSource : FieldSpec → Type 0
HasSource f = eqb (type_source_count f) 1 ≡ true

resolve_builtin-IsReported :
    (f : FieldSpec) (token : Option String)
    → is_some token ≡ true
    → Raises IsReported (resolve_builtin f token)
unfolding resolve_builtin
resolve_builtin-IsReported f none h = absurd (cc h)
resolve_builtin-IsReported f (some token) h =
    Raises-bind IsReported
      (or_raise (Dict.get token builtin_sql_types) (unknown_builtin f.name token)) _
      (Raises-or_raise IsReported (Dict.get token builtin_sql_types) (unknown_builtin f.name token)
        (λ _. tt))
      (λ t _. Raises-ok IsReported (resolved_as f t none f.auto_increment []))

resolve_type_ref-IsReported :
    (types : Types) (f : FieldSpec) (ref : Option String)
    → is_some ref || is_some f.type_token ≡ true
    → Raises IsReported (resolve_type_ref types f ref)
unfolding resolve_type_ref
resolve_type_ref-IsReported types f none h = resolve_builtin-IsReported f f.type_token h
resolve_type_ref-IsReported types f (some ref) h =
    Raises-bind IsReported (or_raise (Dict.get ref types) (unknown_type f.name ref)) _
      (Raises-or_raise IsReported (Dict.get ref types) (unknown_type f.name ref) (λ _. tt))
      (λ t _. Raises-ok IsReported (resolved_as f t.sql_type none f.auto_increment []))

resolve_scalar-IsReported :
    (types : Types) (codelists : CodeLists) (f : FieldSpec) (name : Option String)
    → is_some name || (is_some f.type_ref || is_some f.type_token) ≡ true
    → Raises IsReported (resolve_scalar types codelists f name)
unfolding resolve_scalar
resolve_scalar-IsReported types codelists f none h =
    resolve_type_ref-IsReported types f f.type_ref h
resolve_scalar-IsReported types codelists f (some name) h =
    Raises-bind IsReported (or_raise (Dict.get name codelists) (unknown_code_list f.name name)) _
      (Raises-or_raise IsReported (Dict.get name codelists) (unknown_code_list f.name name)
        (λ _. tt))
      (λ cl _. Raises-ok IsReported (resolved_as f "text" (some name) f.auto_increment cl.codes))

exactly_one_type_source-any :
    (f : FieldSpec) (subs : FieldDefs) (u : Unit {0})
    → exactly_one_type_source f subs ≡ ok u
    → equals "object" f.type_token ≡ false
    → is_some f.codelist || (is_some f.type_ref || is_some f.type_token) ≡ true
unfolding exactly_one_type_source
exactly_one_type_source-any f subs u h scalar = ground arith

-- The parts of a field that was validated.
validate_field-parts :
    (f : FieldSpec) (subs : FieldDefs)
    → validate_field (field_def f subs) ≡ ok tt
    → (validate_fields subs ≡ ok tt) × (exactly_one_type_source f subs ≡ ok tt)
unfolding validate_field
validate_field-parts f subs h =
    let named = raise_if (not (is_safe_identifier f.name)) unsafe_identifier in
    let (u, e, one) =
      first-returned (named >> validate_fields subs) (λ _. exactly_one_type_source f subs) tt h in
    let (v, _, below) = first-returned named (λ _. validate_fields subs) u e in (below, one)

validate_fields-parts :
    (f : FieldDef) (fs : FieldDefs)
    → validate_fields (more_fields f fs) ≡ ok tt
    → (validate_field f ≡ ok tt) × (validate_fields fs ≡ ok tt)
unfolding validate_fields
validate_fields-parts f fs h =
    let (u, first, second) = first-returned (validate_field f) (λ _. validate_fields fs) tt h in
    (first, second)

mutual
  unfolding resolve_field

  resolve_field-IsReported :
      (types : Types) (codelists : CodeLists) (f : FieldDef)
      → validate_field f ≡ ok tt
      → Raises IsReported (resolve_field types codelists f)
  resolve_field-IsReported types codelists (field_def f subs) h =
      let (below, one) = validate_field-parts f subs h in
      Raises-if IsReported (equals "object" f.type_token) _ _
        (λ _.
          Raises-bind IsReported (resolve_fields types codelists subs) _
            (resolve_fields-IsReported types codelists subs below)
            (λ rs _.
              Raises-ok IsReported (resolved_field (resolved_as f "jsonb" none false []) rs)))
        (λ scalar.
          Raises-bind IsReported (resolve_scalar types codelists f f.codelist) _
            (resolve_scalar-IsReported types codelists f f.codelist
              (exactly_one_type_source-any f subs tt one scalar))
            (λ r _. Raises-ok IsReported (resolved_field r no_resolved)))

  resolve_fields-IsReported :
      (types : Types) (codelists : CodeLists) (fs : FieldDefs)
      → validate_fields fs ≡ ok tt
      → Raises IsReported (resolve_fields types codelists fs)
  resolve_fields-IsReported types codelists no_fields h = Raises-ok IsReported no_resolved
  resolve_fields-IsReported types codelists (more_fields f fs) h =
      let (first, second) = validate_fields-parts f fs h in
      Raises-bind IsReported (resolve_field types codelists f) _
        (resolve_field-IsReported types codelists f first)
        (λ r _.
          Raises-bind IsReported (resolve_fields types codelists fs) _
            (resolve_fields-IsReported types codelists fs second)
            (λ rs _. Raises-ok IsReported (more_resolved r rs)))

-- A field that was validated is resolved, or a `DescriptionError` is raised.
pub resolve_valid_field-IsReported :
    (types : Types) (codelists : CodeLists) (f : FieldDef)
    → validate_field f ≡ ok tt
    → Raises IsReported (resolve_field types codelists f)
resolve_valid_field-IsReported types codelists f h = resolve_field-IsReported types codelists f h
