-- ===== src/Artifacts/Store.antt =====
-- artifacts/store.py: versions of artifacts, their statuses and their edges. Each method is one
-- transaction, or a read; `create` holds the key's advisory lock from its reads to its commit.
pub mod Versions
pub mod Dedup
pub mod Again
pub mod Minting
use flow_speckit.Prelude.{
  ℕ, ◌+◌, Bool, true, false, ◌&&◌, not, Option, none, some, List, [], ◌∷◌, ◌++◌, map, ltb, ◌==◌,
  if◌then◌else◌, greatest, select, update_where, exists_where, first_where, Text, text_eq, order_by,
}
use flow_speckit.Base.{Uuid, Relation, Status}
use flow_speckit.Json.{Json}
use flow_speckit.Storage.{ArtifactRow, EdgeRow, Db}
use flow_speckit.Artifacts.Refs.{ArtifactRef, row_to_ref, ParsedRef, parse_ref, by_id, by_key}
use flow_speckit.Errors.{
  artifact_not_found, ok, raised, invalid_status_transition, integrity_error, unknown_artifact_type,
}
use flow_speckit.Action.{Action, raise}

abbrev pub same_status : Status → Status → Bool
same_status Status.draft Status.draft = true
same_status Status.proposed Status.proposed = true
same_status Status.approved Status.approved = true
same_status Status.rejected Status.rejected = true
same_status Status.superseded Status.superseded = true
same_status _ _ = false

abbrev pub same_relation : Relation → Relation → Bool
same_relation Relation.derived_from Relation.derived_from = true
same_relation Relation.supersedes Relation.supersedes = true
same_relation Relation.informs Relation.informs = true
same_relation Relation.implements Relation.implements = true
same_relation Relation.reviews Relation.reviews = true
same_relation _ _ = false

-- `_ALLOWED_TRANSITIONS`.
unfoldable pub is_allowed : Status → Status → Bool
is_allowed Status.draft Status.proposed = true
is_allowed Status.proposed Status.approved = true
is_allowed Status.proposed Status.rejected = true
is_allowed Status.draft Status.superseded = true
is_allowed Status.proposed Status.superseded = true
is_allowed Status.approved Status.superseded = true
is_allowed _ _ = false

abbrev pub is_rejected : Status → Bool
is_rejected s = same_status s Status.rejected

abbrev pub rows_of_key : Text → List ArtifactRow → List ArtifactRow
rows_of_key key rows = select (λ r. text_eq r.key key) rows

-- `ORDER BY version DESC LIMIT 1`.
unfoldable pub newest : List ArtifactRow → Option ArtifactRow
newest [] = none
newest (r ∷ rs) = elim (newest rs) [
  | none ↦ some r
  | some s ↦ if ltb r.version s.version then some s else some r
]

-- `_latest_row`.
unfoldable pub latest_row : Text → Db → Option ArtifactRow
unfolding newest
latest_row key db = newest (select (λ r. not (is_rejected r.status)) (rows_of_key key db.artifacts))

-- `_next_version`.
unfoldable pub next_version : Text → Db → ℕ
next_version key db = greatest (λ r. r.version) (rows_of_key key db.artifacts) + 1

unfoldable pub find_artifact : Uuid → Db → Option ArtifactRow
find_artifact id db = first_where (λ r. r.id == id) db.artifacts

-- `_get_row`, of what `parse_ref` gave.
unfoldable pub get_row : ParsedRef → Db → Option ArtifactRow
unfolding find_artifact latest_row
get_row (by_id id) db = find_artifact id db
get_row (by_key key (some version)) db =
    first_where (λ r. text_eq r.key key && (r.version == version)) db.artifacts
get_row (by_key key none) db = latest_row key db

-- `resolve`.
unfoldable pub resolve : ParsedRef → Action Db ArtifactRef
unfolding get_row row_to_ref
resolve ref db = elim (get_row ref db) [
  | none ↦ (raised artifact_not_found, db)
  | some row ↦ (ok (row_to_ref row), db)
]

-- `versions`.
unfoldable pub versions : Text → Db → List ArtifactRef
unfolding row_to_ref
versions key db = map row_to_ref (order_by (λ r. r.version) (rows_of_key key db.artifacts))

-- `_add_edge`: `ON CONFLICT DO NOTHING`.
unfoldable pub add_edge : Uuid → Uuid → Relation → Db → Db
add_edge from to relation db =
    if exists_where
      (λ e. (e.from_id == from) && ((e.to_id == to) && same_relation e.relation relation))
      db.artifact_edges
    then db
    else record db {
      artifact_edges =
          db.artifact_edges ++ record { from_id = from; to_id = to; relation = relation } ∷ [];
    }

-- `_set_status_raw`.
unfoldable pub set_status_raw : Uuid → Status → Db → Db
set_status_raw id status db = record db {
  artifacts = update_where (λ r. r.id == id) (λ r. record r { status = status }) db.artifacts;
}

-- What `create` takes of the model: its type, its dumped content and rendered body.
pub record ArtifactModel : Type 0 where
  pub artifact_type : Text
  pub content : Json
  pub body_md : Text
  pub schema_version : ℕ

-- The keyword arguments of `create`.
pub record CreateOptions : Type 0 where
  pub key : Text
  pub run_id : Option Uuid
  pub step_key : Option Text
  pub derived_from : List Uuid
  pub status : Status

abbrev pub new_row : ArtifactModel → Text → CreateOptions → ℕ → Db → ArtifactRow
new_row model digest o version db = record {
  id = db.fresh;
  type_name = model.artifact_type;
  key = o.key;
  version = version;
  content = model.content;
  content_hash = digest;
  body_md = some model.body_md;
  status = o.status;
  schema_version = model.schema_version;
  created_by_run = o.run_id;
  created_by_step = o.step_key;
  created_at = db.clock;
}

unfoldable pub insert_artifact : ArtifactRow → Db → Db
insert_artifact row db = record db { artifacts = db.artifacts ++ row ∷ []; fresh = db.fresh + 1 }

-- The edge to the version before, which is superseded.
unfoldable pub supersede : Uuid → Option ArtifactRow → Db → Db
unfolding add_edge set_status_raw
supersede id none db = db
supersede id (some latest) db =
    set_status_raw latest.id Status.superseded (add_edge id latest.id Relation.supersedes db)

unfoldable pub add_parents : Uuid → List Uuid → Db → Db
unfolding add_edge
add_parents id [] db = db
add_parents id (parent ∷ parents) db =
    add_parents id parents (add_edge id parent Relation.derived_from db)

-- The foreign keys of the edges hold: each parent is an artifact.
unfoldable pub are_artifacts : List Uuid → Db → Bool
are_artifacts [] db = true
are_artifacts (id ∷ ids) db = exists_where (λ r. r.id == id) db.artifacts && are_artifacts ids db

-- The writes of a new version, committed together or not at all.
unfoldable pub mint : ArtifactRow → Option ArtifactRow → List Uuid → Action Db ArtifactRef
unfolding insert_artifact supersede add_parents are_artifacts resolve
mint row latest parents db =
    let db1 = insert_artifact row db in
    if are_artifacts parents db1
    then resolve (by_id row.id) (add_parents row.id parents (supersede row.id latest db1))
    else (raised integrity_error, record db { fresh = db.fresh + 1 })

-- The latest version that is not rejected, where its content is the same.
unfoldable pub duplicate : Text → Option ArtifactRow → Option ArtifactRow
duplicate digest none = none
duplicate digest (some row) = if text_eq row.content_hash digest then some row else none

-- `create`; `registered` tells whether the registry knows a type, `canonical_hash` is
-- `canonical_hash` of artifacts/hashing.py.
unfoldable pub create :
    (Text → Bool) → (Json → Text) → ArtifactModel → CreateOptions → Action Db ArtifactRef
unfolding latest_row next_version duplicate mint
create registered canonical_hash model o db =
    let digest = canonical_hash model.content in
    let minted =
      mint (new_row model digest o (next_version o.key db) db) (latest_row o.key db) o.derived_from
        db in
    if registered model.artifact_type
    then elim (duplicate digest (latest_row o.key db)) [
      | some row ↦ (ok (row_to_ref row), db)
      | none ↦ minted
    ]
    else (raised (unknown_artifact_type model.artifact_type), db)

-- The end of `set_status`, where `row` was read before: the update's `WHERE` asks for its status
-- again, and a status that changed since then is reported.
unfoldable pub write_status : ArtifactRow → Status → Action Db ArtifactRef
unfolding find_artifact resolve
write_status row status db =
    if exists_where (λ r. (r.id == row.id) && same_status r.status row.status) db.artifacts
    then resolve (by_id row.id) (record db {
      artifacts =
          update_where (λ r. (r.id == row.id) && same_status r.status row.status)
            (λ r. record r { status = status }) db.artifacts;
    })
    else (
      raised (
          invalid_status_transition
            (elim (find_artifact row.id db) [ none ↦ row.status | some fresh ↦ fresh.status ])
            status),
      db,
    )

-- `set_status`, with no other session between its read and its update.
unfoldable pub set_artifact_status : ParsedRef → Status → Action Db ArtifactRef
unfolding get_row is_allowed write_status
set_artifact_status ref status db = elim (get_row ref db) [
  | none ↦ (raised artifact_not_found, db)
  | some row ↦
      if is_allowed row.status status
      then write_status row status db
      else (raised (invalid_status_transition row.status status), db)
]
