-- ===== src/Artifacts/Store/Dedup.antt =====
-- Creating the same content twice makes one version.
use flow_speckit.Prelude.{
  ℕ, ◌<◌, ◌≡◌, refl, ap, Bool, false, not, some, List, [], ◌∷◌, ◌++◌, arith, if◌then◌else◌,
  greatest, greatest-map, All, select, update_where, select-append, All-select_of, text_eq,
  text_eq_refl,
}
use flow_speckit.Storage.{ArtifactRow}
use flow_speckit.Artifacts.Store.{newest, Status, rows_of_key, is_rejected}
use flow_speckit.Artifacts.Store.Versions.{version_of, map-update_where}

newest-append :
    (rows : List ArtifactRow) (row : ArtifactRow)
    → All (λ r. r.version < row.version) rows
    → newest (rows ++ row ∷ []) ≡ some row
unfolding newest
newest-append [] row h = refl
newest-append (r ∷ rs) row h = rw (newest-append rs row h.1) (ground (arith, h.0))

below-greatest :
    (rows : List ArtifactRow) (bound : ℕ)
    → greatest (λ r. r.version) rows < bound
    → All (λ r. r.version < bound) rows
unfolding greatest
below-greatest [] bound h = tt
below-greatest (r ∷ rs) bound h = (omega arith, below-greatest rs bound (omega arith))

update_where-append :
    (q : ArtifactRow → Bool) (f : ArtifactRow → ArtifactRow) (xs ys : List ArtifactRow)
    → update_where q f (xs ++ ys) ≡ update_where q f xs ++ update_where q f ys
unfolding update_where
update_where-append q f [] ys = refl
update_where-append q f (x ∷ xs) ys =
    ap (λ t. (if q x then f x else x) ∷ t) (update_where-append q f xs ys)

-- A new row of a key is the latest one, also after a change of another row's status.
pub newest-minted :
    (rows : List ArtifactRow) (row : ArtifactRow) (q : ArtifactRow → Bool) (status : Status)
    → greatest version_of (rows_of_key row.key rows) < row.version
    → is_rejected row.status ≡ false
    → q row ≡ false
    → newest (
        select
          (λ r. not (is_rejected r.status))
          (rows_of_key row.key
            (update_where q (λ r. record r { status = status }) (rows ++ row ∷ []))))
      ≡ some row
unfolding select update_where
newest-minted rows row q status bound current other =
    let changed = update_where q (λ (r : ArtifactRow). record r { status = status }) rows in
    let is_current = λ (r : ArtifactRow). not (is_rejected r.status) in
    let below = below-greatest (rows_of_key row.key changed) row.version (
      rw
        (greatest-map version_of (rows_of_key row.key changed) (rows_of_key row.key rows)
          (map-update_where row.key q status rows))
        bound) in
    rw (update_where-append q (λ (r : ArtifactRow). record r { status = status }) rows (row ∷ [])) (
      rw (other, select-append (λ (r : ArtifactRow). text_eq r.key row.key) changed (row ∷ []))
        (rw
          (text_eq_refl row.key, select-append is_current (rows_of_key row.key changed) (row ∷ []))
          (rw current (
            newest-append (select is_current (rows_of_key row.key changed)) row (
              All-select_of (λ (r : ArtifactRow). r.version < row.version) is_current
                (rows_of_key row.key changed) below)))))
