-- ===== src/Descriptions/Derived/Roles.antt =====
-- What resolved relationships, derived geometries and bounds guarantee
-- (geocomponents/src/geocomponents/descriptions/loader.py).
use topografisk_gdb_api.Prelude.{
  contains, String, ◌≡◌, refl, Bool, true, false, not, Option, none, some, List, [], ◌∷◌, map, ◌==◌,
  eq_iff, or_raise-returned, find_first-satisfies, map_result-All, if◌then◌else◌, is_some, ok, ◌>>◌,
  raise_if, or_raise, map_result, Returns, Returns-ok, Returns-bind, first-returned, Option-cases,
  inl, inr, All,
}
use topografisk_gdb_api.Prelude.Int.{ℤ}
use topografisk_gdb_api.Prelude.Dict
use topografisk_gdb_api.Prelude.Dict.{Dict}
use topografisk_gdb_api.Descriptions.Models.{
  RelationshipDef, CollectionDef, DerivedRoleDef, GeometryDef, ResolvedField, field_name,
  ResolvedRelationship, is_line_type, ResolvedDerivedRole, ResolvedDerivedDef, resolved_spec,
}
use topografisk_gdb_api.Descriptions.Fields.{
  DescriptionError, find_field, unknown_target, key_error, unknown_when, non_boolean_when,
  not_a_relationship, not_a_line, other_srid, untargeted_bounds, bounds_geometry,
}
use topografisk_gdb_api.Descriptions.Derived.{
  resolve_relationships, validate_bounds, resolve_derived, resolve_when, resolve_role, same_int,
  by_property,
}

abbrev pub same_relationship : RelationshipDef → ResolvedRelationship
same_relationship rel = record { property = rel.property; target = rel.target }

-- The relationships of the description, each with a target among the collections.
abbrev pub IsLinked : List String → List RelationshipDef → List ResolvedRelationship → Type 0
IsLinked names rels rs =
    (rs ≡ map same_relationship rels)
    × All (λ (r : ResolvedRelationship). contains r.target names ≡ true) rs

pub not_raised :
    (b : Bool) (e : DescriptionError) (u : Unit {0}) → raise_if (not b) e ≡ ok u → b ≡ true
not_raised true e u h = refl
not_raised false e u h = absurd (cc h)

pub resolve_relationships-IsLinked :
    (names : List String) (rels : List RelationshipDef)
    → Returns (IsLinked names rels) (resolve_relationships names rels)
unfolding resolve_relationships
resolve_relationships-IsLinked names [] = Returns-ok (IsLinked names []) [] (refl, tt)
resolve_relationships-IsLinked names (rel ∷ rels) =
    let P = IsLinked names (rel ∷ rels) in
    let known =
      raise_if (not (contains rel.target names)) (unknown_target rel.property rel.target) in
    Returns-bind P (known >> resolve_relationships names rels) _ (λ rest e.
      let (u, here, there) = first-returned known (λ _. resolve_relationships names rels) rest e in
      let (same, linked) = resolve_relationships-IsLinked names rels rest there in
      Returns-ok P (same_relationship rel ∷ rest) (
        cc same,
        (
          not_raised (contains rel.target names) (unknown_target rel.property rel.target) u here,
          linked,
        ),
      ))

module _ (collections : Dict CollectionDef) (fields : Dict (List ResolvedField)) where
  -- The field that a role's condition names is a Boolean field of the target.
  abbrev pub IsCondition : String → Option String → Type 0
  IsCondition target none = Unit
  IsCondition target (some name) =
      (fs : List ResolvedField) × (f : ResolvedField) × (Dict.get target fields ≡ some fs)
      × (find_field name fs ≡ some f)
      × ((resolved_spec f).sql_type ≡ "boolean")

  -- A role names a collection of lines in the reference system of the surface.
  pub record IsRole (srid : ℤ) (r : ResolvedDerivedRole) : Type 0 where
    pub target : CollectionDef
    pub found : Dict.get r.target collections ≡ some target
    pub is_line : is_line_type target.geometry.geometry_type ≡ true
    pub same_srid : same_int target.geometry.srid srid ≡ true
    pub condition : IsCondition r.target r.when_field

  abbrev pub HasRoles : ℤ → Option ResolvedDerivedDef → Type 0
  HasRoles srid none = Unit
  HasRoles srid (some d) = All (All (IsRole srid)) d.one_of

  find_field-name :
      (name : String) (fs : List ResolvedField) (f : ResolvedField)
      → find_field name fs ≡ some f
      → find_field (field_name f) fs ≡ some f
  unfolding find_field
  find_field-name name fs f h =
      let same = find_first-satisfies (λ g. field_name g == name) fs f h in
      rw ((eq_iff (field_name f) name).0 same) h

  resolve_when-IsCondition :
      (role target : String) (when : Option String)
      → Returns (IsCondition target) (resolve_when collections fields role target when)
  unfolding resolve_when
  resolve_when-IsCondition role target none = Returns-ok (IsCondition target) none tt
  resolve_when-IsCondition role target (some name) =
      let P = IsCondition target in
      Returns-bind P (or_raise (Dict.get target fields) (key_error target)) _ (λ fs has.
        Returns-bind P (or_raise (find_field name fs) (unknown_when role name)) _ (λ f found.
          Returns-bind P
            (raise_if (not ((resolved_spec f).sql_type == "boolean")) (non_boolean_when role name))
            _
            (λ u typed. Returns-ok P (some (field_name f)) (
              fs,
              f,
              or_raise-returned (Dict.get target fields) (key_error target) fs has,
              find_field-name name fs f
                  (or_raise-returned (find_field name fs) (unknown_when role name) f found),
              (eq_iff (resolved_spec f).sql_type "boolean").0 (
                  not_raised ((resolved_spec f).sql_type == "boolean") (non_boolean_when role name)
                    u typed),
            ))))

  resolve_role-IsRole :
      (srid : ℤ) (relationships : Dict ResolvedRelationship) (role : DerivedRoleDef)
      → Returns (IsRole srid) (resolve_role collections fields srid relationships role)
  unfolding resolve_role
  resolve_role-IsRole srid relationships role =
      let P = IsRole srid in
      Returns-bind P (or_raise (Dict.get role.name relationships) (not_a_relationship role.name)) _
        (λ rel _.
          Returns-bind P (or_raise (Dict.get rel.target collections) (key_error rel.target)) _
            (λ target has.
              let line =
                raise_if (not (is_line_type target.geometry.geometry_type))
                  (not_a_line role.name rel.target) in
              let system =
                raise_if (not (same_int target.geometry.srid srid))
                  (other_srid role.name rel.target) in
              Returns-bind P
                (line >> system >> resolve_when collections fields role.name rel.target role.when) _
                (λ when_field steps.
                  let (v, both, when) =
                    first-returned (line >> system)
                      (λ _. resolve_when collections fields role.name rel.target role.when)
                      when_field steps in
                  let (u, first, second) = first-returned line (λ _. system) v both in
                  Returns-ok P
                    (record { property = role.name; target = rel.target; when_field = when_field })
                    (record {
                      target = target;
                      found =
                          or_raise-returned (Dict.get rel.target collections) (key_error rel.target)
                            target has;
                      is_line =
                          not_raised (is_line_type target.geometry.geometry_type)
                            (not_a_line role.name rel.target) u first;
                      same_srid =
                          not_raised (same_int target.geometry.srid srid)
                            (other_srid role.name rel.target) v second;
                      condition =
                          resolve_when-IsCondition role.name rel.target role.when when_field when;
                    }))))

  pub resolve_derived-HasRoles :
      (geometry : GeometryDef) (relationships : List ResolvedRelationship)
      → Returns (HasRoles geometry.srid) (resolve_derived collections fields geometry relationships)
  unfolding resolve_derived
  resolve_derived-HasRoles geometry relationships = elim (Option-cases geometry.derived) [
    | inl e ↦ rw (e, resolve_derived) (Returns-ok (HasRoles geometry.srid) none tt)
    | inr (d, e) ↦
        let P = HasRoles geometry.srid in
        let role =
          resolve_role collections fields geometry.srid
            (Dict.put_all (by_property relationships) []) in
        rw (e, resolve_derived)
          (Returns-bind P (map_result (map_result role) d.one_of) _ (λ alternatives h.
            Returns-ok P
              (some
                (record { rule = d.rule; areas = d.areas; holes = d.holes; one_of = alternatives }))
              (map_result-All (All (IsRole geometry.srid)) (map_result role)
                (map_result-All (IsRole geometry.srid) role
                  (resolve_role-IsRole geometry.srid (Dict.put_all (by_property relationships) [])))
                d.one_of alternatives h)))
  ]

then_branch : {A : Type 0} (b : Bool) (m k r : A) → b ≡ true → (if b then m else k) ≡ r → m ≡ r
then_branch true m k r h e = e
then_branch false m k r h e = absurd (cc h)

-- Bounds stand on a collection of lines that a relationship targets.
abbrev pub IsBounded : CollectionDef → List String → Type 0
IsBounded c targeted =
    is_some c.bounds ≡ true
    → (contains c.name targeted ≡ true) × (is_line_type c.geometry.geometry_type ≡ true)

pub validate_bounds-IsBounded :
    (c : CollectionDef) (targeted : List String) (u : Unit {0})
    → validate_bounds c targeted ≡ ok u
    → IsBounded c targeted
unfolding validate_bounds
validate_bounds-IsBounded c targeted u h declared =
    let (v, first, second) =
      first-returned (raise_if (not (contains c.name targeted)) (untargeted_bounds c.name))
        (λ _. raise_if (not (is_line_type c.geometry.geometry_type)) (bounds_geometry c.name)) u
        (then_branch (is_some c.bounds) _ (ok tt) (ok u) declared h) in
    (
      not_raised (contains c.name targeted) (untargeted_bounds c.name) v first,
      not_raised (is_line_type c.geometry.geometry_type) (bounds_geometry c.name) u second,
    )
