-- ===== src/Descriptions/Derived/Raising.antt =====
-- What relationships, derived geometries and bounds may raise
-- (geocomponents/src/geocomponents/descriptions/loader.py).
use topografisk_gdb_api.Prelude.{
  contains, String, ◌≡◌, true, not, Option, none, some, List, [], ◌∷◌, arith, ◌==◌, is_some, ◌>>◌,
  raise_if, or_raise, map_result, or_raise-returned, Raises, Raises-ok, Raises-bind, Raises-if,
  Raises-or_raise, Raises-raise_if, map_result-Raises, Option-cases, inl, inr, All, All-trivial,
}
use topografisk_gdb_api.Prelude.Int.{ℤ}
use topografisk_gdb_api.Prelude.Dict
use topografisk_gdb_api.Prelude.Dict.{
  Dict, Holds, empty-Holds, put_all-Holds, put_all-has_key, has_key,
}
use topografisk_gdb_api.Descriptions.Models.{
  RelationshipDef, CollectionDef, DerivedRoleDef, GeometryDef, ResolvedField, resolved_spec,
  ResolvedRelationship, is_line_type,
}
use topografisk_gdb_api.Descriptions.Fields.{
  unknown_target, not_a_relationship, not_a_line, other_srid, unknown_when, non_boolean_when,
  untargeted_bounds, bounds_geometry, key_error, find_field,
}
use topografisk_gdb_api.Descriptions.Fields.Raising.{IsReported}
use topografisk_gdb_api.Descriptions.Derived.{
  resolve_relationships, validate_bounds, resolve_derived, resolve_when, resolve_role, same_int,
  by_property,
}

-- A key that a dictionary has is found.
has_key-get : {V : Type 0} (k : String) (d : Dict V) → has_key k d ≡ true → Dict.get k d ≡ none → ⊥
has_key-get k d h e = ground (arith, h, e)

module _ (collections : Dict CollectionDef) (fields : Dict (List ResolvedField)) where
  -- The target of a relationship is described and resolved.
  abbrev pub IsKnown : ResolvedRelationship → Type 0
  IsKnown rel = (has_key rel.target collections ≡ true) × (has_key rel.target fields ≡ true)

  resolve_when-IsReported :
      (role target : String) (when : Option String)
      → has_key target fields ≡ true
      → Raises IsReported (resolve_when collections fields role target when)
  unfolding resolve_when
  resolve_when-IsReported role target none h = Raises-ok IsReported none
  resolve_when-IsReported role target (some name) h =
      Raises-bind IsReported (or_raise (Dict.get target fields) (key_error target)) _
        (Raises-or_raise IsReported (Dict.get target fields) (key_error target)
          (has_key-get target fields h))
        (λ fs _.
          Raises-bind IsReported (or_raise (find_field name fs) (unknown_when role name)) _
            (Raises-or_raise IsReported (find_field name fs) (unknown_when role name) (λ _. tt))
            (λ f _.
              Raises-bind IsReported
                (raise_if (not ((resolved_spec f).sql_type == "boolean"))
                  (non_boolean_when role name))
                _
                (Raises-raise_if IsReported (not ((resolved_spec f).sql_type == "boolean"))
                  (non_boolean_when role name) tt)
                (λ _ _. Raises-ok IsReported _)))

  resolve_role-IsReported :
      (srid : ℤ) (relationships : Dict ResolvedRelationship) (role : DerivedRoleDef)
      → Holds IsKnown relationships
      → Raises IsReported (resolve_role collections fields srid relationships role)
  unfolding resolve_role
  resolve_role-IsReported srid relationships role h =
      Raises-bind IsReported
        (or_raise (Dict.get role.name relationships) (not_a_relationship role.name)) _
        (Raises-or_raise IsReported (Dict.get role.name relationships)
          (not_a_relationship role.name) (λ _. tt))
        (λ rel found.
          let (described, resolved) = h role.name rel (
            or_raise-returned (Dict.get role.name relationships) (not_a_relationship role.name) rel
              found) in
          Raises-bind IsReported (or_raise (Dict.get rel.target collections) (key_error rel.target))
            _
            (Raises-or_raise IsReported (Dict.get rel.target collections) (key_error rel.target)
              (has_key-get rel.target collections described))
            (λ target _.
              let line =
                raise_if (not (is_line_type target.geometry.geometry_type))
                  (not_a_line role.name rel.target) in
              let system =
                raise_if (not (same_int target.geometry.srid srid))
                  (other_srid role.name rel.target) in
              Raises-bind IsReported
                (line >> system >> resolve_when collections fields role.name rel.target role.when) _
                (Raises-bind IsReported (line >> system) _
                  (Raises-bind IsReported line _
                    (Raises-raise_if IsReported (not (is_line_type target.geometry.geometry_type))
                      (not_a_line role.name rel.target) tt)
                    (λ _ _.
                      Raises-raise_if IsReported (not (same_int target.geometry.srid srid))
                        (other_srid role.name rel.target) tt))
                  (λ _ _. resolve_when-IsReported role.name rel.target role.when resolved))
                (λ when_field _. Raises-ok IsReported _)))

  All-by_property :
      (P : ResolvedRelationship → Type 0) (rels : List ResolvedRelationship)
      → All P rels
      → All (λ (e : String × ResolvedRelationship). P e.1) (by_property rels)
  All-by_property P [] h = tt
  All-by_property P (rel ∷ rels) h = (h.0, All-by_property P rels h.1)

  pub resolve_derived-IsReported :
      (geometry : GeometryDef) (relationships : List ResolvedRelationship)
      → All IsKnown relationships
      → Raises IsReported (resolve_derived collections fields geometry relationships)
  unfolding resolve_derived
  resolve_derived-IsReported geometry relationships h = elim (Option-cases geometry.derived) [
    | inl e ↦ rw (e, resolve_derived) (Raises-ok IsReported none)
    | inr (d, e) ↦
        let by = Dict.put_all (by_property relationships) [] in
        let role = resolve_role collections fields geometry.srid by in
        let known =
          put_all-Holds IsKnown (by_property relationships) []
            (All-by_property IsKnown relationships h) (empty-Holds IsKnown) in
        rw (e, resolve_derived)
          (Raises-bind IsReported (map_result (map_result role) d.one_of) _
            (map_result-Raises IsReported (λ _. Unit {0}) (map_result role)
              (λ roles _.
                map_result-Raises IsReported (λ _. Unit {0}) role
                  (λ r _. resolve_role-IsReported geometry.srid by r known) roles
                  (All-trivial roles))
              d.one_of (All-trivial d.one_of))
            (λ alternatives _. Raises-ok IsReported _))
  ]

pub resolve_relationships-IsReported :
    (names : List String) (rels : List RelationshipDef)
    → Raises IsReported (resolve_relationships names rels)
unfolding resolve_relationships
resolve_relationships-IsReported names [] = Raises-ok IsReported []
resolve_relationships-IsReported names (rel ∷ rels) =
    let known =
      raise_if (not (contains rel.target names)) (unknown_target rel.property rel.target) in
    Raises-bind IsReported (known >> resolve_relationships names rels) _
      (Raises-bind IsReported known _
        (Raises-raise_if IsReported (not (contains rel.target names))
          (unknown_target rel.property rel.target) tt)
        (λ _ _. resolve_relationships-IsReported names rels))
      (λ rest _. Raises-ok IsReported _)

pub validate_bounds-IsReported :
    (c : CollectionDef) (targeted : List String) → Raises IsReported (validate_bounds c targeted)
unfolding validate_bounds
validate_bounds-IsReported c targeted =
    Raises-if IsReported (is_some c.bounds) _ _
      (λ _.
        Raises-bind IsReported
          (raise_if (not (contains c.name targeted)) (untargeted_bounds c.name)) _
          (Raises-raise_if IsReported (not (contains c.name targeted)) (untargeted_bounds c.name)
            tt)
          (λ _ _.
            Raises-raise_if IsReported (not (is_line_type c.geometry.geometry_type))
              (bounds_geometry c.name) tt))
      (λ _. Raises-ok IsReported tt)
