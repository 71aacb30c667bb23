-- ===== src/Artifacts/Registry.antt =====
-- `ArtifactRegistry` of artifacts/registry.py: one class per artifact type. The entry points are
-- plugins and are not modelled.
pub mod Lookups
use flow_speckit.Prelude.{
  ℕ, Bool, true, ◌&&◌, Option, none, some, List, [], ◌∷◌, ◌++◌, ◌==◌, if◌then◌else◌, update_where,
  exists_where, Text, codes, text_eq, decimal, Dict, dict_get, dict_put,
}
use flow_speckit.Json.{Json}
use flow_speckit.Shared.{CollisionDecision, replace, keep_existing, collision, resolve_collision}
use flow_speckit.Errors.{Outcome, ok, raised, registry_collision, unknown_artifact_type}

-- A subclass of `ArtifactModel`; `class_id` stands for its identity.
pub record ArtifactClass : Type 0 where
  pub artifact_type : Text
  pub schema_version : ℕ
  pub json_schema : Json
  pub class_id : ℕ

pub record RegisteredType : Type 0 where
  pub cls : ArtifactClass
  pub source_package : Text

abbrev pub ArtifactRegistry : Type 0
ArtifactRegistry = Dict RegisteredType

abbrev pub register_type :
    CollisionDecision
    → RegisteredType
    → RegisteredType
    → ArtifactRegistry
    → Outcome ArtifactRegistry
register_type replace existing r types = ok (dict_put r.cls.artifact_type r types)
register_type keep_existing existing r types = ok types
register_type collision existing r types =
    raised (registry_collision r.cls.artifact_type existing.source_package r.source_package)

abbrev pub register_over :
    Option RegisteredType → RegisteredType → ArtifactRegistry → Outcome ArtifactRegistry
register_over none r types = ok (dict_put r.cls.artifact_type r types)
register_over (some existing) r types =
    if existing.cls.class_id == r.cls.class_id
    then ok types
    else register_type (resolve_collision r.source_package existing.source_package) existing r types

unfoldable pub register : ArtifactClass → Text → ArtifactRegistry → Outcome ArtifactRegistry
unfolding resolve_collision
register cls source_package types =
    register_over (dict_get cls.artifact_type types)
      (record { cls = cls; source_package = source_package }) types

-- `get`: a wanted schema version has to be the class's.
abbrev pub has_version : Option ℕ → ArtifactClass → Bool
has_version none cls = true
has_version (some version) cls = cls.schema_version == version

abbrev version_text : Option ℕ → Text
version_text none = []
version_text (some version) = codes " (schema_version=" ++ decimal version ++ codes ")"

unfoldable pub get : Text → Option ℕ → ArtifactRegistry → Outcome ArtifactClass
get name version types = elim (dict_get name types) [
  | none ↦ raised (unknown_artifact_type name)
  | some r ↦
      if has_version version r.cls
      then ok r.cls
      else raised (unknown_artifact_type (name ++ version_text version))
]

-- A row of the `artifact_types` table.
pub record TypeRow : Type 0 where
  pub name : Text
  pub schema_version : ℕ
  pub json_schema : Json
  pub source_package : Text

abbrev row_of : RegisteredType → TypeRow
row_of r = record {
  name = r.cls.artifact_type;
  schema_version = r.cls.schema_version;
  json_schema = r.cls.json_schema;
  source_package = r.source_package;
}

abbrev pub same_type : TypeRow → TypeRow → Bool
same_type a b = text_eq a.name b.name && (a.schema_version == b.schema_version)

-- `INSERT ... ON CONFLICT (name, schema_version) DO UPDATE`.
unfoldable pub upsert_type : TypeRow → List TypeRow → List TypeRow
upsert_type row rows =
    if exists_where (same_type row) rows
    then update_where (same_type row) (λ _. row) rows
    else rows ++ row ∷ []

-- `sync_to_db`.
unfoldable pub sync_to_db : ArtifactRegistry → List TypeRow → List TypeRow
unfolding upsert_type
sync_to_db [] rows = rows
sync_to_db ((name, r) ∷ types) rows = sync_to_db types (upsert_type (row_of r) rows)
