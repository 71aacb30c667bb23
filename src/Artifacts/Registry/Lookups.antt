-- ===== src/Artifacts/Registry/Lookups.antt =====
-- What a registration of an artifact type changes.
use flow_speckit.Prelude.{
  ◌≡◌, Option, none, some, arith, ◌==◌, if◌then◌else◌, Text, text_eq, text_eq_iff, dict_get,
  get-put,
}
use flow_speckit.Shared.{is_local, resolve_collision}
use flow_speckit.Errors.{ok}
use flow_speckit.Artifacts.Registry.{ArtifactClass, RegisteredType, ArtifactRegistry, register}

abbrev chosen : RegisteredType → Option RegisteredType → RegisteredType
chosen r none = r
chosen r (some existing) =
    if existing.cls.class_id == r.cls.class_id
    then existing
    else if is_local r.source_package
    then r
    else existing

-- After a registration that succeeded, its type has the class that takes precedence, and any other
-- type has what it had before.
get-register :
    (cls : ArtifactClass) (source_package name : Text) (types after : ArtifactRegistry)
    → register cls source_package types ≡ ok after
    → let r : RegisteredType = record { cls = cls; source_package = source_package } in
      dict_get name after ≡ (
        if text_eq cls.artifact_type name
        then some (chosen r (dict_get cls.artifact_type types))
        else dict_get name types)
unfolding register resolve_collision
get-register cls source_package name types after h =
    let r : RegisteredType = record { cls = cls; source_package = source_package } in
    ground (arith, get-put cls.artifact_type name r types, text_eq_iff cls.artifact_type name)
