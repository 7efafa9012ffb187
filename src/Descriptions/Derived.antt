-- ===== src/Descriptions/Derived.antt =====
-- Resolving relationships, derived geometries and bounds
-- (geocomponents/src/geocomponents/descriptions/loader.py).
pub mod Roles
pub mod Raising
use topografisk_gdb_api.Prelude.{
  ℕ, String, Bool, true, false, not, ◌&&◌, Option, none, some, List, [], ◌∷◌, map, ◌==◌, eqb,
  if◌then◌else◌, is_some, Result, ok, err, ◌>>=◌, ◌>>◌, raise_if, or_raise, any_of, map_result,
  contains,
}
use topografisk_gdb_api.Prelude.Int.{ℤ, pos, negsuc}
use topografisk_gdb_api.Prelude.Dict
use topografisk_gdb_api.Prelude.Dict.{Dict}
use topografisk_gdb_api.Descriptions.Models.{
  DerivedRoleDef, DerivedDef, GeometryDef, RelationshipDef, CollectionDef, ResolvedField,
  resolved_spec, field_name, ResolvedRelationship, ResolvedDerivedRole, ResolvedDerivedDef,
  is_line_type,
}
use topografisk_gdb_api.Descriptions.Fields.{
  DescriptionError, unknown_target, not_a_relationship, not_a_line, other_srid, unknown_when,
  non_boolean_when, untargeted_bounds, bounds_geometry, key_error, find_field,
}

-- The loop of `_resolve_relationships`.
unfoldable pub resolve_relationships :
    List String → List RelationshipDef → Result DescriptionError (List ResolvedRelationship)
resolve_relationships names [] = ok []
resolve_relationships names (rel ∷ rels) =
    raise_if (not (contains rel.target names)) (unknown_target rel.property rel.target)
    >> resolve_relationships names rels
    >>= λ rest. ok (record { property = rel.property; target = rel.target } ∷ rest)

abbrev pub same_int : ℤ → ℤ → Bool
same_int (pos m) (pos n) = eqb m n
same_int (pos m) (negsuc n) = false
same_int (negsuc m) (pos n) = false
same_int (negsuc m) (negsuc n) = eqb m n

-- `{rel.property: rel for rel in relationships}`
abbrev pub by_property : List ResolvedRelationship → List (String × ResolvedRelationship)
by_property [] = []
by_property (rel ∷ rels) = (rel.property, rel) ∷ by_property rels

module _ (collections : Dict CollectionDef) (fields : Dict (List ResolvedField)) where
  -- The field of the target that a role's `when` names.
  unfoldable pub resolve_when :
      String → String → Option String → Result DescriptionError (Option String)
  resolve_when role target none = ok none
  resolve_when role target (some name) =
      or_raise (Dict.get target fields) (key_error target) >>= λ target_fields.
      or_raise (find_field name target_fields) (unknown_when role name) >>= λ f.
      raise_if (not ((resolved_spec f).sql_type == "boolean")) (non_boolean_when role name)
      >> ok (some (field_name f))

  -- The body of the loop over the roles of an alternative.
  unfoldable pub resolve_role :
      ℤ → Dict ResolvedRelationship → DerivedRoleDef → Result DescriptionError ResolvedDerivedRole
  resolve_role srid relationships role =
      or_raise (Dict.get role.name relationships) (not_a_relationship role.name) >>= λ rel.
      or_raise (Dict.get rel.target collections) (key_error rel.target) >>= λ target.
      raise_if (not (is_line_type target.geometry.geometry_type)) (not_a_line role.name rel.target)
      >> raise_if (not (same_int target.geometry.srid srid)) (other_srid role.name rel.target)
      >> resolve_when role.name rel.target role.when
      >>= λ when_field.
          ok (record { property = role.name; target = rel.target; when_field = when_field })

  -- `_resolve_derived`, on the geometry of the collection.
  unfoldable pub resolve_derived :
      GeometryDef → List ResolvedRelationship → Result DescriptionError (Option ResolvedDerivedDef)
  unfolding resolve_role
  resolve_derived geometry relationships = elim geometry.derived [
    | none ↦ ok none
    | some d ↦
        map_result
          (map_result (resolve_role geometry.srid (Dict.put_all (by_property relationships) [])))
          d.one_of
        >>= λ alternatives. ok (
            some
              (record { rule = d.rule; areas = d.areas; holes = d.holes; one_of = alternatives }))
  ]

-- `_validate_bounds`
unfoldable pub validate_bounds : CollectionDef → List String → Result DescriptionError (Unit {0})
validate_bounds coll targeted =
    if is_some coll.bounds
    then (raise_if (not (contains coll.name targeted)) (untargeted_bounds coll.name)
        >> raise_if (not (is_line_type coll.geometry.geometry_type)) (bounds_geometry coll.name))
    else ok tt
