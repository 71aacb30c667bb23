-- ===== src/Artifacts/Store/Again.antt =====
-- `create` called again with the same content.
use flow_speckit.Prelude.{
  ◌≡◌, refl, sym, ap, ◌∙◌, subst, inl, inr, Bool, true, false, some, ◌==◌, Bool-cases, Option-cases,
  exists_where, Text, text_eq_refl,
}
use flow_speckit.Json.{Json}
use flow_speckit.Errors.{Outcome}
use flow_speckit.Storage.{ArtifactRow, Db}
use flow_speckit.Artifacts.Refs.{ArtifactRef, row_to_ref}
use flow_speckit.Artifacts.Store.{
  create, latest_row, duplicate, ArtifactModel, CreateOptions, ok, is_rejected, new_row,
  next_version, mint,
}
use flow_speckit.Artifacts.Store.Minting.{mint-eq-ok}

module _ (registered : Text → Bool) (canonical_hash : Json → Text) (model : ArtifactModel)
    (o : CreateOptions) where
  -- A registered type, and a latest version with this content.
  create-duplicate :
      (row : ArtifactRow) (db : Db)
      → registered model.artifact_type ≡ true
      → duplicate (canonical_hash model.content) (latest_row o.key db) ≡ some row
      → create registered canonical_hash model o db ≡ (ok (row_to_ref row), db)
  unfolding create
  create-duplicate row db known same = rw (known, create) (rw same refl)

  duplicate_self :
      (row : ArtifactRow)
      → row.content_hash ≡ canonical_hash model.content
      → duplicate (canonical_hash model.content) (some row) ≡ some row
  unfolding duplicate
  duplicate_self row same = rw (same, text_eq_refl (canonical_hash model.content)) refl

-- `create` called again with the same content, after a call that succeeded under an unused id
-- with a status that is not rejected, answers with the same reference and changes nothing.
pub create-again :
    (registered : Text → Bool) (canonical_hash : Json → Text) (model : ArtifactModel)
    (o : CreateOptions) (db db1 : Db) (ref : ArtifactRef)
    → exists_where (λ r. r.id == db.fresh) db.artifacts ≡ false
    → is_rejected o.status ≡ false
    → create registered canonical_hash model o db ≡ (ok ref, db1)
    → create registered canonical_hash model o db1 ≡ (ok ref, db1)
unfolding create
create-again registered canonical_hash model o db db1 ref unused current h =
    let digest = canonical_hash model.content in
    elim (Bool-cases (registered model.artifact_type)) [
      | inr unknown ↦
          absurd (cc (ap (λ (p : Outcome ArtifactRef × Db). p.0) (rw (unknown, create) at h)))
      | inl known ↦ elim (Option-cases (duplicate digest (latest_row o.key db))) [
        | inr (row, same) ↦
            let e =
              sym (create-duplicate registered canonical_hash model o row db known same) ∙ h in
            let left : db ≡ db1 = ap (λ (p : Outcome ArtifactRef × Db). p.1) e in
            subst (λ d. create registered canonical_hash model o d ≡ (ok ref, d)) left
              (create-duplicate registered canonical_hash model o row db known same
                ∙ ap (λ (r : Outcome ArtifactRef). (r, db))
                    (ap (λ (p : Outcome ArtifactRef × Db). p.0) e))
        | inl new ↦
            let row = new_row model digest o (next_version o.key db) db in
            let h1 : mint row (latest_row o.key db) o.derived_from db ≡ (ok ref, db1) =
              (rw new at (rw (known, create) at h)) in
            let (latest, answer) =
              mint-eq-ok row o.derived_from db db1 ref unused refl current h1 in
            create-duplicate registered canonical_hash model o row db1 known (
              ap (duplicate digest) latest
              ∙ duplicate_self registered canonical_hash model o row refl)
            ∙ ap (λ r. (ok r, db1)) (sym answer)
      ]
    ]
