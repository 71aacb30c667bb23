-- ===== src/Artifacts/Reads.antt =====
-- The reads of artifacts/store.py. Each ends its transaction by a rollback, so that none changes a
-- table. The classes of the registry and their validation by pydantic are parameters.
pub mod Created
use flow_speckit.Prelude.{
  ℕ, Bool, true, ◌&&◌, ◌||◌, Option, none, some, List, [], ◌∷◌, map, ltb, ◌==◌, if◌then◌else◌, take,
  select, first_where, Text, text_eq,
}
use flow_speckit.Json.{Json}
use flow_speckit.Storage.{ArtifactRow, Db}
use flow_speckit.Artifacts.Refs.{ArtifactRef, row_to_ref, ParsedRef, by_id, by_key, address}
use flow_speckit.Artifacts.Store.{get_row}
use flow_speckit.Errors.{
  Outcome, ok, raised, artifact_not_found, unknown_artifact_type, as_of_conflict,
}
use flow_speckit.Action.{Action, raise}

module _ {Model : Type 0} (registered : Text → Bool) (validate : Text → Json → Outcome Model) where
  -- `self._registry.get(row.type)` and `cls.model_validate(row.content)`.
  abbrev load_model : ArtifactRow → Outcome Model
  load_model row =
      if registered row.type_name
      then validate row.type_name row.content
      else raised (unknown_artifact_type row.type_name)

  abbrev load_row : Option ArtifactRow → Action Db Model
  load_row none db = (raised artifact_not_found, db)
  load_row (some row) db = (load_model row, db)

  -- `get`, with `as_of_version`, of what `parse_ref` gave.
  unfoldable pub get : ParsedRef → Option ℕ → Action Db Model
  unfolding get_row
  get ref none db = load_row (get_row ref db) db
  get (by_id id) (some version) db = raise as_of_conflict db
  get (by_key key (some pinned)) (some version) db = raise as_of_conflict db
  get (by_key key none) (some version) db =
      load_row (first_where (λ r. text_eq r.key key && (r.version == version)) db.artifacts) db

-- `get_body_md`.
unfoldable pub get_body_md : ParsedRef → Action Db (Option Text)
unfolding get_row
get_body_md ref db = elim (get_row ref db) [
  | none ↦ (raised artifact_not_found, db)
  | some row ↦ (ok row.body_md, db)
]

-- `compute_diff` of artifacts/diff.py compares the addresses, the contents and the bodies.
unfoldable pub diff :
    {Diff : Type 0}
    → (Text → Json → Option Text → Text → Json → Option Text → Diff)
    → ParsedRef
    → ParsedRef
    → Action Db Diff
unfolding get_row address
diff compute_diff a b db = elim (get_row a db) [
  | none ↦ (raised artifact_not_found, db)
  | some row_a ↦ elim (get_row b db) [
    | none ↦ (raised artifact_not_found, db)
    | some row_b ↦ (
      ok (
          compute_diff (address row_a.key row_a.version) row_a.content row_a.body_md
            (address row_b.key row_b.version) row_b.content row_b.body_md),
      db,
    )
  ]
]

-- `ORDER BY created_at DESC, version DESC, id`.
abbrev before : ArtifactRow → ArtifactRow → Bool
before a b =
    ltb b.created_at a.created_at
    || ((a.created_at == b.created_at)
        && (ltb b.version a.version || ((a.version == b.version) && ltb a.id b.id)))

insert_row : ArtifactRow → List ArtifactRow → List ArtifactRow
insert_row a [] = a ∷ []
insert_row a (b ∷ rows) = if before b a then b ∷ insert_row a rows else a ∷ b ∷ rows

sort_rows : List ArtifactRow → List ArtifactRow
unfolding insert_row
sort_rows [] = []
sort_rows (a ∷ rows) = insert_row a (sort_rows rows)

abbrev has_type : Option Text → ArtifactRow → Bool
has_type none row = true
has_type (some type_name) row = text_eq row.type_name type_name

-- `list`.
unfoldable pub list_artifacts : Option Text → ℕ → Db → List ArtifactRef
unfolding insert_row sort_rows row_to_ref
list_artifacts type_name limit db =
    map row_to_ref (take limit (sort_rows (select (has_type type_name) db.artifacts)))
