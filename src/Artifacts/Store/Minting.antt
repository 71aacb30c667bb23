-- ===== src/Artifacts/Store/Minting.antt =====
-- What `create` answers, and that the same call made again changes nothing.
use flow_speckit.Prelude.{
  ◌<◌, ◌≡◌, refl, sym, ap, ◌∙◌, subst, inl, inr, Bool, false, not, some, List, [], ◌∷◌, ◌++◌, arith,
  ltb, ◌==◌, ==_refl, ==_iff, Bool-cases, Option-cases, greatest, All, select, update_where,
  exists_where, first_where, first_where-append, first_where-none, first_where-update_where,
  All-select_of, Text, text_eq,
}
use flow_speckit.Base.{Uuid, Relation}
use flow_speckit.Storage.{ArtifactRow, Db}
use flow_speckit.Artifacts.Store.{
  newest, latest_row, is_rejected, rows_of_key, mint, supersede, ArtifactRef, set_status_raw,
  insert_artifact, next_version, ok, add_parents, row_to_ref, Status, are_artifacts, Relation,
  resolve, find_artifact, by_id, get_row,
}
use flow_speckit.Artifacts.Store.Versions.{
  artifacts-add_parents, artifacts-add_edge, resolve-keeps, version_of,
}
use flow_speckit.Errors.{Outcome}
use flow_speckit.Artifacts.Store.Dedup.{newest-minted}

All-of_none {ℓ} :
    {A : Type ℓ} (p : A → Bool) (xs : List A)
    → exists_where p xs ≡ false
    → All (λ x. p x ≡ false) xs
unfolding exists_where
All-of_none p [] h = tt
All-of_none p (x ∷ xs) h = (ground arith, All-of_none p xs (ground arith))

All-newest {κ} :
    (P : ArtifactRow → Type κ) (rows : List ArtifactRow) (r : ArtifactRow)
    → All P rows
    → newest rows ≡ some r
    → P r
unfolding newest
All-newest P [] r h e = absurd (ground arith)
All-newest P (x ∷ xs) r h e = elim (Option-cases (newest xs)) [
  | inl nothing ↦ subst P (ground arith) h.0
  | inr (y, found) ↦ elim (Bool-cases (ltb x.version y.version)) [
    | inl newer ↦ subst P (ground arith) (All-newest P xs y h.1 found)
    | inr older ↦ subst P (ground arith) h.0
  ]
]

-- The version that is superseded is another row than one with an id that no row had.
latest-differs :
    (key : Text) (id : Uuid) (db : Db) (latest : ArtifactRow)
    → exists_where (λ r. r.id == id) db.artifacts ≡ false
    → latest_row key db ≡ some latest
    → (id == latest.id) ≡ false
unfolding latest_row
latest-differs key id db latest unused found =
    let other : (latest.id == id) ≡ false =
      All-newest (λ r. (r.id == id) ≡ false) _ latest
        (All-select_of (λ (r : ArtifactRow). (r.id == id) ≡ false)
          (λ (r : ArtifactRow). not (is_rejected r.status)) (rows_of_key key db.artifacts)
          (All-select_of (λ (r : ArtifactRow). (r.id == id) ≡ false)
            (λ (r : ArtifactRow). text_eq r.key key) db.artifacts
            (All-of_none (λ (r : ArtifactRow). r.id == id) db.artifacts unused)))
        found in
    ground (arith, ==_iff latest.id id, ==_iff id latest.id)

update_where-never :
    (f : ArtifactRow → ArtifactRow) (rows : List ArtifactRow)
    → update_where (λ _. false) f rows ≡ rows
unfolding update_where
update_where-never f [] = refl
update_where-never f (r ∷ rs) = ap (λ t. r ∷ t) (update_where-never f rs)

-- The table that a minted version leaves, as one update after the insert.
artifacts-minted :
    (row : ArtifactRow) (parents : List Uuid) (db : Db)
    → exists_where (λ r. r.id == row.id) db.artifacts ≡ false
    → (q : ArtifactRow → Bool) × (q row ≡ false)
      × ((add_parents row.id parents
            (supersede row.id (latest_row row.key db) (insert_artifact row db))).artifacts
          ≡ update_where q
              (λ r. record r { status = Status.superseded })
              (db.artifacts ++ row ∷ []))
unfolding supersede set_status_raw insert_artifact
artifacts-minted row parents db unused = elim (Option-cases (latest_row row.key db)) [
  | inl first ↦ (
    λ _. false,
    refl,
    artifacts-add_parents row.id parents _
        ∙ (rw first refl
            ∙ sym (
                update_where-never (λ r. record r { status = Status.superseded })
                  (db.artifacts ++ row ∷ []))),
  )
  | inr (latest, found) ↦ (
    (λ r. r.id == latest.id),
    latest-differs row.key row.id db latest unused found,
    artifacts-add_parents row.id parents _
        ∙ rw found (
            ap
              (update_where (λ r. r.id == latest.id) (λ r. record r { status = Status.superseded }))
              (artifacts-add_edge row.id latest.id Relation.supersedes (insert_artifact row db))),
  )
]

pub find-minted :
    (row : ArtifactRow) (q : ArtifactRow → Bool) (status : Status) (db dbf : Db)
    → exists_where (λ r. r.id == row.id) db.artifacts ≡ false
    → q row ≡ false
    → dbf.artifacts ≡ update_where q (λ r. record r { status = status }) (db.artifacts ++ row ∷ [])
    → find_artifact row.id dbf ≡ some row
unfolding find_artifact first_where
find-minted row q status db dbf unused other table =
    let mine = λ (r : ArtifactRow). r.id == row.id in
    rw
      (
        table,
        first_where-update_where mine q (λ r. record r { status = status })
            (db.artifacts ++ row ∷ []) (λ x. refl),
        first_where-append mine db.artifacts (row ∷ []),
        first_where-none mine db.artifacts unused,
      )
      (rw (==_refl row.id) (rw other refl))

resolved :
    (row : ArtifactRow) (ref : ArtifactRef) (db : Db)
    → find_artifact row.id db ≡ some row
    → (resolve (by_id row.id) db).0 ≡ ok ref
    → ref ≡ row_to_ref row
unfolding resolve get_row
resolved row ref db found h =
    let h' : ok (row_to_ref row) ≡ ok ref = sym (rw (found, resolve) refl) ∙ h in ground arith

-- The table that a mint that succeeded leaves.
pub table-mint :
    (row : ArtifactRow) (parents : List Uuid) (db db1 : Db) (ref : ArtifactRef)
    → exists_where (λ r. r.id == row.id) db.artifacts ≡ false
    → mint row (latest_row row.key db) parents db ≡ (ok ref, db1)
    → (q : ArtifactRow → Bool) × (q row ≡ false)
      × (db1.artifacts
          ≡ update_where q
              (λ r. record r { status = Status.superseded })
              (db.artifacts ++ row ∷ []))
unfolding mint
table-mint row parents db db1 ref unused h =
    elim (Bool-cases (are_artifacts parents (insert_artifact row db))) [
      | inr missing ↦
          absurd (cc (ap (λ (p : Outcome ArtifactRef × Db). p.0) (rw (missing, mint) at h)))
      | inl there ↦
          let dbf =
            add_parents row.id parents
              (supersede row.id (latest_row row.key db) (insert_artifact row db)) in
          let (q, other, table) = artifacts-minted row parents db unused in
          let h' : resolve (by_id row.id) dbf ≡ (ok ref, db1) = (rw (there, mint) at h) in
          let left : dbf ≡ db1 =
            sym (resolve-keeps (by_id row.id) dbf)
            ∙ ap (λ (p : Outcome ArtifactRef × Db). p.1) h' in
          (q, other, ap (λ (d : Db). d.artifacts) (sym left) ∙ table)
    ]

-- What a minted version leaves and answers.
pub mint-eq-ok :
    (row : ArtifactRow) (parents : List Uuid) (db db1 : Db) (ref : ArtifactRef)
    → exists_where (λ r. r.id == row.id) db.artifacts ≡ false
    → row.version ≡ next_version row.key db
    → is_rejected row.status ≡ false
    → mint row (latest_row row.key db) parents db ≡ (ok ref, db1)
    → (latest_row row.key db1 ≡ some row) × (ref ≡ row_to_ref row)
unfolding mint latest_row next_version
mint-eq-ok row parents db db1 ref unused next current h =
    elim (Bool-cases (are_artifacts parents (insert_artifact row db))) [
      | inr missing ↦
          absurd (cc (ap (λ (p : Outcome ArtifactRef × Db). p.0) (rw (missing, mint) at h)))
      | inl there ↦
          let dbf =
            add_parents row.id parents
              (supersede row.id (latest_row row.key db) (insert_artifact row db)) in
          let (q, other, table) = artifacts-minted row parents db unused in
          let h' : resolve (by_id row.id) dbf ≡ (ok ref, db1) = (rw (there, mint) at h) in
          let found = find-minted row q Status.superseded db dbf unused other table in
          let left : dbf ≡ db1 =
            sym (resolve-keeps (by_id row.id) dbf)
            ∙ ap (λ (p : Outcome ArtifactRef × Db). p.1) h' in
          let newer : greatest version_of (rows_of_key row.key db.artifacts) < row.version =
            omega (arith, next) in
          (
            ap (latest_row row.key) (sym left)
                ∙ (ap
                      (λ rows.
                        newest
                          (select (λ r. not (is_rejected r.status)) (rows_of_key row.key rows)))
                      table
                    ∙ newest-minted db.artifacts row q Status.superseded newer current other),
            resolved row ref dbf found (ap (λ (p : Outcome ArtifactRef × Db). p.0) h'),
          )
    ]
