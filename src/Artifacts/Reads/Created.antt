-- ===== src/Artifacts/Reads/Created.antt =====
-- A created version is read back under each of its addresses.
use flow_speckit.Prelude.{◌≡◌, Bool, none, some, Text}
use flow_speckit.Json.{Json}
use flow_speckit.Errors.{Outcome, ok}
use flow_speckit.Artifacts.Refs.{ArtifactRef, by_id, by_key}
use flow_speckit.Artifacts.Reads.{get, get_body_md}
use flow_speckit.Storage.{Db}
use flow_speckit.Artifacts.Store.{ArtifactModel}

-- Each address of a version, and what reading under it gives.
abbrev pub ReadsBack :
    {Model : Type 0}
    → (Text → Bool)
    → (Text → Json → Outcome Model)
    → ArtifactModel
    → Text
    → ArtifactRef
    → Db
    → Type 0
ReadsBack registered validate model key ref db =
    let read = validate model.artifact_type model.content in
    (get registered validate (by_id ref.id) none db ≡ (read, db))
    × (get registered validate (by_key key none) none db ≡ (read, db))
    × (get registered validate (by_key key (some ref.version)) none db ≡ (read, db))
    × (get registered validate (by_key key none) (some ref.version) db ≡ (read, db))
    × (get_body_md (by_id ref.id) db ≡ (ok (some model.body_md), db))
