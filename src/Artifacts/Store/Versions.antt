-- ===== src/Artifacts/Store/Versions.antt =====
-- The versions of a key are 1, 2, … in the order in which they were created.
use flow_speckit.Prelude.{
  ℕ, ◌+◌, ◌≡◌, refl, sym, ◌∙◌, subst, inl, inr, Bool, ◌&&◌, Option, none, some, List, [], ◌∷◌, ◌++◌,
  map, append-nil, arith, ◌==◌, Bool-cases, Option-cases, IsNumberedFrom, IsNumberedFrom-append,
  greatest-IsNumberedFrom, IsNumberedFrom-map, length, select, update_where, exists_where,
  select-append, Text, text_eq, text_eq_iff,
}
use flow_speckit.Base.{Uuid}
use flow_speckit.Json.{Json}
use flow_speckit.Storage.{ArtifactRow, Db}
use flow_speckit.Artifacts.Refs.{ParsedRef, by_id}
use flow_speckit.Artifacts.Store.{
  rows_of_key, create, Status, next_version, add_parents, add_edge, Relation, set_artifact_status,
  resolve, mint, ArtifactModel, supersede, CreateOptions, insert_artifact, write_status,
  set_status_raw, are_artifacts, duplicate, latest_row, new_row, same_status, get_row, is_allowed,
}

abbrev pub version_of : ArtifactRow → ℕ
version_of r = r.version

-- Every key's versions are 1, 2, … in the order of the table.
pub record IsVersioned (rows : List ArtifactRow) : Type 0 where
  pub at_key : (key : Text) → IsNumberedFrom version_of 1 (rows_of_key key rows)

-- A change of the status alone keeps the numbers of what a query selects by its key.
pub map-update_where :
    (key : Text) (q : ArtifactRow → Bool) (status : Status) (rows : List ArtifactRow)
    → map version_of (rows_of_key key (update_where q (λ r. record r { status = status }) rows))
      ≡ map version_of (rows_of_key key rows)
unfolding select update_where
map-update_where key q status [] = refl
map-update_where key q status (r ∷ rs) = ground (arith, map-update_where key q status rs)

pub IsVersioned-update_where :
    (q : ArtifactRow → Bool) (status : Status) (rows : List ArtifactRow)
    → IsVersioned rows
    → IsVersioned (update_where q (λ r. record r { status = status }) rows)
IsVersioned-update_where q status rows h = record {
  at_key = λ key.
      IsNumberedFrom-map version_of 1 (rows_of_key key rows) _
        (sym (map-update_where key q status rows)) (h.at_key key);
}

-- A row that takes the next version of its key.
IsVersioned-append :
    (db : Db) (row : ArtifactRow)
    → IsVersioned db.artifacts
    → row.version ≡ next_version row.key db
    → IsVersioned (db.artifacts ++ row ∷ [])
unfolding next_version select
IsVersioned-append db row h next = record {
  at_key = λ key.
      rw (select-append (λ r. text_eq r.key key) db.artifacts (row ∷ []))
        (elim (Bool-cases (text_eq row.key key)) [
          | inl same ↦
              let own = (text_eq_iff row.key key).0 same in
              rw same (
                IsNumberedFrom-append version_of 1 (rows_of_key key db.artifacts) row (h.at_key key)
                  (subst (λ k. row.version ≡ 1 + length (rows_of_key k db.artifacts)) own
                    (omega (
                      arith,
                      next,
                      greatest-IsNumberedFrom version_of 0 (rows_of_key row.key db.artifacts)
                          (h.at_key row.key),
                    ))))
          | inr differs ↦ rw (differs, append-nil) (h.at_key key)
        ]);
}

pub artifacts-add_edge :
    (from to : Uuid) (relation : Relation) (db : Db)
    → (add_edge from to relation db).artifacts ≡ db.artifacts
unfolding add_edge
artifacts-add_edge from to relation db = ground arith

pub artifacts-add_parents :
    (id : Uuid) (parents : List Uuid) (db : Db)
    → (add_parents id parents db).artifacts ≡ db.artifacts
unfolding add_parents
artifacts-add_parents id [] db = refl
artifacts-add_parents id (p ∷ ps) db =
    artifacts-add_parents id ps (add_edge id p Relation.derived_from db)
    ∙ artifacts-add_edge id p Relation.derived_from db

pub IsVersioned-supersede :
    (id : Uuid) (latest : Option ArtifactRow) (db : Db)
    → IsVersioned db.artifacts
    → IsVersioned (supersede id latest db).artifacts
unfolding supersede set_status_raw
IsVersioned-supersede id none db h = h
IsVersioned-supersede id (some latest) db h =
    IsVersioned-update_where (λ r. r.id == latest.id) Status.superseded
      (add_edge id latest.id Relation.supersedes db).artifacts
      (rw (artifacts-add_edge id latest.id Relation.supersedes db) h)

pub resolve-keeps : (ref : ParsedRef) (db : Db) → (resolve ref db).1 ≡ db
unfolding resolve
resolve-keeps ref db = ground arith

IsVersioned-mint :
    (row : ArtifactRow) (latest : Option ArtifactRow) (parents : List Uuid) (db : Db)
    → IsVersioned db.artifacts
    → row.version ≡ next_version row.key db
    → IsVersioned (mint row latest parents db).1.artifacts
unfolding mint insert_artifact
IsVersioned-mint row latest parents db h next =
    elim (Bool-cases (are_artifacts parents (insert_artifact row db))) [
      | inr missing ↦ rw missing h
      | inl there ↦
          let db2 = supersede row.id latest (insert_artifact row db) in
          rw
            (
              there,
              resolve-keeps (by_id row.id) (add_parents row.id parents db2),
              artifacts-add_parents row.id parents db2,
            )
            (IsVersioned-supersede row.id latest (insert_artifact row db)
              (IsVersioned-append db row h next))
    ]

-- However `create` ends, the versions of every key stay 1, 2, and so on in the order of the
-- table.
pub create-IsVersioned :
    (registered : Text → Bool) (canonical_hash : Json → Text) (model : ArtifactModel)
    (o : CreateOptions) (db : Db)
    → IsVersioned db.artifacts
    → IsVersioned (create registered canonical_hash model o db).1.artifacts
unfolding create
create-IsVersioned registered canonical_hash model o db h =
    elim (Bool-cases (registered model.artifact_type)) [
      | inr unknown ↦ rw (unknown, create) h
      | inl known ↦
          let digest = canonical_hash model.content in
          rw (known, create)
            (elim (Option-cases (duplicate digest (latest_row o.key db))) [
              | inr (row, same) ↦ rw same h
              | inl new ↦ rw new (
                  IsVersioned-mint (new_row model digest o (next_version o.key db) db)
                    (latest_row o.key db) o.derived_from db h refl)
            ])
    ]

write_status-IsVersioned :
    (row : ArtifactRow) (status : Status) (db : Db)
    → IsVersioned db.artifacts
    → IsVersioned (write_status row status db).1.artifacts
unfolding write_status
write_status-IsVersioned row status db h =
    let is_row = λ (r : ArtifactRow). (r.id == row.id) && same_status r.status row.status in
    elim (Bool-cases (exists_where is_row db.artifacts)) [
      | inr changed ↦ rw (changed, write_status) h
      | inl there ↦
          rw (there, write_status, resolve-keeps (by_id row.id))
            (IsVersioned-update_where is_row status db.artifacts h)
    ]

-- However `set_status` ends, the versions of every key stay 1, 2, and so on in the order of the
-- table.
set_artifact_status-IsVersioned :
    (ref : ParsedRef) (status : Status) (db : Db)
    → IsVersioned db.artifacts
    → IsVersioned (set_artifact_status ref status db).1.artifacts
unfolding set_artifact_status
set_artifact_status-IsVersioned ref status db h = elim (Option-cases (get_row ref db)) [
  | inl missing ↦ rw (missing, set_artifact_status) h
  | inr (row, found) ↦
      rw (found, set_artifact_status)
        (elim (Bool-cases (is_allowed row.status status)) [
          | inl allowed ↦ rw allowed (write_status-IsVersioned row status db h)
          | inr refused ↦ rw refused h
        ])
]
