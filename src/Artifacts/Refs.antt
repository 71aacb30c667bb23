-- ===== src/Artifacts/Refs.antt =====
-- artifacts/refs.py: the address of an artifact, and `parse_ref`.
pub mod Address
use flow_speckit.Prelude.{
  ℕ, Option, none, some, [], ◌∷◌, ◌++◌, ◌==◌, if◌then◌else◌, Text, is_digits, decimal, read_decimal,
}
use flow_speckit.Base.{Uuid, Status, Instant}
use flow_speckit.Storage.{ArtifactRow}

pub record ArtifactRef : Type 0 where
  pub id : Uuid
  pub type_name : Text
  pub key : Text
  pub version : ℕ
  pub status : Status
  pub content_hash : Text
  pub created_at : Instant

unfoldable pub row_to_ref : ArtifactRow → ArtifactRef
row_to_ref row = record {
  id = row.id;
  type_name = row.type_name;
  key = row.key;
  version = row.version;
  status = row.status;
  content_hash = row.content_hash;
  created_at = row.created_at;
}

-- `ArtifactRef.address`: `f"{key}@{version}"`.
unfoldable pub address : Text → ℕ → Text
address key version = key ++ b'@' ∷ decimal version

-- `ref.rpartition("@")`, where there is an `@`: the parts around the last one.
unfoldable pub rpartition_at : Text → Option (Text × Text)
rpartition_at [] = none
rpartition_at (c ∷ cs) = elim (rpartition_at cs) [
  | some (key, rest) ↦ some (c ∷ key, rest)
  | none ↦ if c == b'@' then some ([], cs) else none
]

-- What `parse_ref` returns: a UUID, or a key with or without a version.
pub data ParsedRef : Type 0 where
  by_id : Uuid → ParsedRef
  by_key : Text → Option ℕ → ParsedRef

abbrev parse_parts : Text → Option (Text × Text) → ParsedRef
parse_parts ref none = by_key ref none
parse_parts ref (some (key, version)) =
    if is_digits version then by_key key (some (read_decimal 0 version)) else by_key ref none

-- `parse_ref`; `uuid_of` is the constructor of the standard library, `none` where it raises
-- `ValueError`.
unfoldable pub parse_ref : (Text → Option Uuid) → Text → ParsedRef
unfolding rpartition_at
parse_ref uuid_of ref = elim (uuid_of ref) [
  | some u ↦ by_id u
  | none ↦ parse_parts ref (rpartition_at ref)
]
