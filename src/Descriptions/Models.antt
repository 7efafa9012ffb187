-- ===== src/Descriptions/Models.antt =====
-- geocomponents/src/geocomponents/descriptions/models.py: the raw and the resolved models. Raw
-- models stand for what pydantic has parsed; the validators of the module are functions on them.
use Prim.Native.Char.{code}
use topografisk_gdb_api.Prelude.{
  ℕ, String, Bool, true, false, not, ◌&&◌, ◌||◌, Option, none, some, List, [], ◌∷◌, ◌==◌, eqb, leb,
  if◌then◌else◌, is_some, is_nonempty, Result, ok, ◌>>◌, raise_if, any_of, keep, ◌+◌,
}
use topografisk_gdb_api.Prelude.Int.{ℤ}
use topografisk_gdb_api.Prelude.Dict.{Dict}

-- `ValueError` of a validator, by its message, and a name that is no `SafeIdentifier`.
pub data ModelError : Type 0 where
  object_without_fields object_with_reference auto_increment_type : ModelError
  type_sources : ℕ → ModelError
  no_alternatives empty_alternative footprint_geometry unsafe_identifier : ModelError
  invalid_tokens : List String → ModelError

abbrev is_word_start : ℕ → Bool
is_word_start c = (leb b'a' c && leb c b'z') || eqb c b'_'

abbrev is_word : ℕ → Bool
is_word c = is_word_start c || (leb b'0' c && leb c b'9')

abbrev all_word : String → Bool
all_word String.[] = true
all_word (String.◌∷◌ c s) = is_word (code c) && all_word s

abbrev char_count : String → ℕ
char_count String.[] = 0
char_count (String.◌∷◌ c s) = char_count s + 1

-- `SafeIdentifier`
unfoldable pub is_safe_identifier : String → Bool
is_safe_identifier String.[] = false
is_safe_identifier (String.◌∷◌ c s) = is_word_start (code c) && all_word s && leb (char_count s) 39

pub record FieldType : Type 0 where
  pub name : String
  pub sql_type : String

-- The codes of a `CodeList`; labels serve documentation only.
pub record CodeList : Type 0 where
  pub name : String
  pub codes : List String

-- The fields of `FieldDef`, but for its sub-fields.
pub record FieldSpec : Type 0 where
  pub name : String
  pub type_token : Option String
  pub type_ref : Option String
  pub codelist : Option String
  pub required : Bool
  pub auto_increment : Bool
  pub enum : List String
  pub indexable : Bool

mutual
  pub data FieldDef : Type 0 where
    field_def : FieldSpec → FieldDefs → FieldDef

  pub data FieldDefs : Type 0 where
    no_fields : FieldDefs
    more_fields : FieldDef → FieldDefs → FieldDefs

abbrev pub spec_of : FieldDef → FieldSpec
spec_of (field_def spec subs) = spec

abbrev pub has_fields : FieldDefs → Bool
has_fields no_fields = false
has_fields (more_fields f fs) = true

-- `value == "…"` on an optional text.
abbrev pub equals : String → Option String → Bool
equals s none = false
equals s (some t) = t == s

abbrev one_if : Bool → ℕ
one_if true = 1
one_if false = 0

-- `n_set`
abbrev pub type_source_count : FieldSpec → ℕ
type_source_count f =
    one_if (is_some f.type_token) + one_if (is_some f.type_ref) + one_if (is_some f.codelist)

-- `_exactly_one_type_source`
unfoldable pub exactly_one_type_source : FieldSpec → FieldDefs → Result ModelError (Unit {0})
exactly_one_type_source f fields =
    (if equals "object" f.type_token
      then (raise_if (not (has_fields fields)) object_without_fields
          >> raise_if (is_some f.type_ref || is_some f.codelist) object_with_reference)
      else raise_if (not (eqb (type_source_count f) 1)) (type_sources (type_source_count f)))
    >> raise_if (f.auto_increment && not (equals "integer" f.type_token)) auto_increment_type

-- The validation of a field: its name and its sub-fields, and then the field as a whole.
unfoldable mutual
  pub validate_field : FieldDef → Result ModelError (Unit {0})
  validate_field (field_def spec fields) =
      raise_if (not (is_safe_identifier spec.name)) unsafe_identifier
      >> validate_fields fields
      >> exactly_one_type_source spec fields

  pub validate_fields : FieldDefs → Result ModelError (Unit {0})
  validate_fields no_fields = ok tt
  validate_fields (more_fields f fs) = validate_field f >> validate_fields fs

pub data DerivedRule : Type 0 where
  footprint : DerivedRule

pub data DerivedAreas : Type 0 where
  one many : DerivedAreas

pub data DerivedHoles : Type 0 where
  allowed forbidden : DerivedHoles

pub record DerivedRoleDef : Type 0 where
  pub name : String
  pub when : Option String

pub record DerivedDef : Type 0 where
  pub rule : DerivedRule
  pub areas : DerivedAreas
  pub holes : DerivedHoles
  pub one_of : List (List DerivedRoleDef)

-- `_validate_one_of`
unfoldable pub validate_one_of : DerivedDef → Result ModelError (Unit {0})
validate_one_of d =
    raise_if (not (is_nonempty d.one_of)) no_alternatives
    >> raise_if (any_of (λ alternative. not (is_nonempty alternative)) d.one_of) empty_alternative

pub data GeometryType : Type 0 where
  point multi_point line_string multi_line_string polygon multi_polygon geometry_collection :
      GeometryType

abbrev pub is_multi_polygon : GeometryType → Bool
is_multi_polygon multi_polygon = true
is_multi_polygon _ = false

-- `_LINE_GEOMETRY_TYPES`
abbrev pub is_line_type : GeometryType → Bool
is_line_type line_string = true
is_line_type multi_line_string = true
is_line_type _ = false

pub record GeometryDef : Type 0 where
  pub geometry_type : GeometryType
  pub srid : ℤ
  pub has_z : Bool
  pub required : Bool
  pub derived : Option DerivedDef

-- `_validate_derived_geometry_type`; `footprint` is the only rule.
unfoldable pub validate_derived_geometry_type : GeometryDef → Result ModelError (Unit {0})
validate_derived_geometry_type g =
    raise_if (is_some g.derived && not (is_multi_polygon g.geometry_type)) footprint_geometry

pub data FeatureModel : Type 0 where
  simple topology : FeatureModel

-- `BoundsValue`: 1 or 2.
pub data BoundsValue : Type 0 where
  single double : BoundsValue

pub record RelationshipDef : Type 0 where
  pub property : String
  pub target : String

pub record CollectionDef : Type 0 where
  pub name : String
  pub title : Option String
  pub description : Option String
  pub feature_model : FeatureModel
  pub bounds : Option BoundsValue
  pub geometry : GeometryDef
  pub fields : List FieldDef
  pub relationships : List RelationshipDef
  pub outward_identifier : Option String
  pub server_managed : Dict String

-- `_VALID_SERVER_MANAGED_TOKENS`
abbrev pub is_server_managed_token : String → Bool
is_server_managed_token v = v == "outward_identifier" || v == "timestamp_iso"

abbrev pub values_of : Dict String → List String
values_of [] = []
values_of ((k, v) ∷ d) = v ∷ values_of d

-- `_validate_collection`
unfoldable pub validate_collection : CollectionDef → Result ModelError (Unit {0})
validate_collection c =
    let invalid = keep (λ v. not (is_server_managed_token v)) (values_of c.server_managed) in
    raise_if (is_nonempty invalid) (invalid_tokens invalid)

pub record Commons : Type 0 where
  pub base_fields : List FieldDef
  pub field_types : List FieldType
  pub code_lists : List CodeList

pub record DatasetDef : Type 0 where
  pub name : String
  pub title : Option String
  pub description : Option String
  pub processes : List String
  pub collections : List CollectionDef
  pub codelists : List CodeList

-- The fields of `ResolvedField`, but for its sub-fields.
pub record ResolvedSpec : Type 0 where
  pub name : String
  pub sql_type : String
  pub required : Bool
  pub codelist : Option String
  pub auto_increment : Bool
  pub enum : List String
  pub indexable : Bool
  pub codelist_values : List String

mutual
  pub data ResolvedField : Type 0 where
    resolved_field : ResolvedSpec → ResolvedFields → ResolvedField

  pub data ResolvedFields : Type 0 where
    no_resolved : ResolvedFields
    more_resolved : ResolvedField → ResolvedFields → ResolvedFields

abbrev pub resolved_spec : ResolvedField → ResolvedSpec
resolved_spec (resolved_field spec subs) = spec

abbrev pub list_of : ResolvedFields → List ResolvedField
list_of no_resolved = []
list_of (more_resolved f fs) = f ∷ list_of fs

abbrev pub sub_fields : ResolvedField → List ResolvedField
sub_fields (resolved_field spec subs) = list_of subs

abbrev pub field_name : ResolvedField → String
field_name f = (resolved_spec f).name

pub record ResolvedRelationship : Type 0 where
  pub property : String
  pub target : String

pub record ResolvedDerivedRole : Type 0 where
  pub property : String
  pub target : String
  pub when_field : Option String

pub record ResolvedDerivedDef : Type 0 where
  pub rule : DerivedRule
  pub areas : DerivedAreas
  pub holes : DerivedHoles
  pub one_of : List (List ResolvedDerivedRole)

pub record ResolvedCollection : Type 0 where
  pub name : String
  pub title : String
  pub description : String
  pub feature_model : FeatureModel
  pub geometry_type : GeometryType
  pub srid : ℤ
  pub fields : List ResolvedField
  pub relationships : List ResolvedRelationship
  pub derived : Option ResolvedDerivedDef
  pub upsert_field : Option String
  pub upsert_path : Option String
  pub has_z : Bool
  pub geometry_required : Bool
  pub bounds : Option BoundsValue
  pub outward_identifier_path : Option String
  pub server_managed_paths : Dict String

abbrev is_simple : FeatureModel → Bool
is_simple simple = true
is_simple topology = false

unfoldable pub supports_crud : ResolvedCollection → Bool
supports_crud c = is_simple c.feature_model

unfoldable pub supports_upsert : ResolvedCollection → Bool
unfolding supports_crud
supports_upsert c = supports_crud c && is_some c.upsert_field

pub record ResolvedDataset : Type 0 where
  pub name : String
  pub title : String
  pub description : String
  pub processes : List String
  pub collections : List ResolvedCollection

-- `BUILTIN_SQL_TYPES`
abbrev pub builtin_sql_types : Dict String
builtin_sql_types =
    ("string", "text")
    ∷ ("integer", "integer")
    ∷ ("number", "double precision")
    ∷ ("boolean", "boolean")
    ∷ ("date", "date")
    ∷ ("timestamp", "timestamptz")
    ∷ ("uuid", "uuid")
    ∷ ("object", "jsonb")
    ∷ []
