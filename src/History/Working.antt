-- ===== src/History/Working.antt =====
-- The worker's turns (workflows/worker.py) and the writes of artifacts (artifacts/store.py), as
-- writers of the event table.
use flow_speckit.Prelude.{
  refl, ◌∙◌, inl, inr, Bool, Option, none, some, List, [], ◌∷◌, arith, Bool-cases, Option-cases,
  Text,
}
use flow_speckit.Artifacts.Store.{
  supersede, insert_artifact, add_parents, mint, add_edge, create, set_status_raw, ArtifactModel,
  are_artifacts, CreateOptions, duplicate, latest_row,
}
use flow_speckit.Worker.{drain_turn, release_claim, execute_claimed, after_claim, releases_row}
use flow_speckit.Queue.{claim_one, release, next_claimable}
use flow_speckit.Json.{Json}
use flow_speckit.Context.{Env}
use flow_speckit.Storage.{Db, ArtifactRow}
use flow_speckit.Base.{Uuid, Relation}
use flow_speckit.Engine.Execute.{World, RunOutcome, execute_run}
use flow_speckit.Errors.{Outcome}
use flow_speckit.Storage.Writes.{
  Writes, Writes-refl, followed, Logs, untouched, Untouched, Untouched-refl,
}
use flow_speckit.History.Executing.{execute_run-Writes}
use flow_speckit.Artifacts.Store.Versions.{resolve-keeps}
use flow_speckit.Artifacts.Refs.{by_id}
use flow_speckit.History.Starting.{same_db}

pub claim_one-Writes : (worker_id : Text) (db : Db) → Writes db (claim_one worker_id db).1
unfolding claim_one
claim_one-Writes worker_id db = elim (Option-cases (next_claimable db)) [
  | inl idle ↦ rw (idle, claim_one) (Writes-refl db)
  | inr (q, due) ↦
      rw (due, claim_one) (untouched (record { events = refl; timers = refl; fresh = omega arith }))
]

release_claim-Writes :
    (worker_id : Text) (run_id : Uuid) (o : Outcome RunOutcome) (w : World)
    → Writes w.db (release_claim worker_id run_id o w).db
unfolding release_claim release
release_claim-Writes worker_id run_id o w = elim (Bool-cases (releases_row o)) [
  | inl over ↦ rw over (untouched (record { events = refl; timers = refl; fresh = omega arith }))
  | inr kept ↦ rw kept (Writes-refl w.db)
]

execute_claimed-Writes :
    (env : Env) (worker_id : Text) (run_id : Uuid) (w : World)
    → Writes w.db (execute_claimed env worker_id run_id w).1.db
unfolding execute_claimed
execute_claimed-Writes env worker_id run_id w =
    let (o, w1) = execute_run env run_id w in
    followed (execute_run-Writes env run_id w) (release_claim-Writes worker_id run_id o w1)

after_claim-Writes :
    (env : Env) (worker_id : Text) (claimed : Option Uuid) (w : World)
    → Writes w.db (after_claim env worker_id claimed w).1.db
unfolding after_claim
after_claim-Writes env worker_id none w = Writes-refl w.db
after_claim-Writes env worker_id (some run_id) w = execute_claimed-Writes env worker_id run_id w

pub drain_turn-Writes :
    (env : Env) (worker_id : Text) (w : World) → Writes w.db (drain_turn env worker_id w).1.db
unfolding drain_turn
drain_turn-Writes env worker_id w =
    let (claimed, db) = claim_one worker_id w.db in
    followed (claim_one-Writes worker_id w.db)
      (after_claim-Writes env worker_id claimed (record w { db = db }))

insert_artifact-Untouched : (row : ArtifactRow) (db : Db) → Untouched db (insert_artifact row db)
unfolding insert_artifact
insert_artifact-Untouched row db = (record { events = refl; timers = refl; fresh = omega arith })

Untouched-trans : {a b c : Db} → Untouched a b → Untouched b c → Untouched a c
Untouched-trans h k = record {
  events = k.events ∙ h.events;
  timers = k.timers ∙ h.timers;
  fresh = omega (arith, h.fresh, k.fresh);
}

add_edge-Untouched :
    (from to : Uuid) (relation : Relation) (db : Db) → Untouched db (add_edge from to relation db)
unfolding add_edge
add_edge-Untouched from to relation db = record {
  events = ground arith;
  timers = ground arith;
  fresh = ground arith;
}

supersede-Untouched :
    (id : Uuid) (latest : Option ArtifactRow) (db : Db) → Untouched db (supersede id latest db)
unfolding supersede set_status_raw
supersede-Untouched id none db = Untouched-refl db
supersede-Untouched id (some latest) db =
    Untouched-trans (add_edge-Untouched id latest.id Relation.supersedes db)
      (record { events = refl; timers = refl; fresh = omega arith })

add_parents-Untouched :
    (id : Uuid) (parents : List Uuid) (db : Db) → Untouched db (add_parents id parents db)
unfolding add_parents
add_parents-Untouched id [] db = Untouched-refl db
add_parents-Untouched id (parent ∷ parents) db =
    Untouched-trans (add_edge-Untouched id parent Relation.derived_from db)
      (add_parents-Untouched id parents _)

mint-Untouched :
    (row : ArtifactRow) (latest : Option ArtifactRow) (parents : List Uuid) (db : Db)
    → Untouched db (mint row latest parents db).1
unfolding mint
mint-Untouched row latest parents db =
    let db1 = insert_artifact row db in
    elim (Bool-cases (are_artifacts parents db1)) [
      | inr dangling ↦ rw dangling (record { events = refl; timers = refl; fresh = omega arith })
      | inl there ↦ rw there (
          rw
            (resolve-keeps (by_id row.id)
              (add_parents row.id parents (supersede row.id latest db1)))
            (Untouched-trans (insert_artifact-Untouched row db) (
              Untouched-trans (supersede-Untouched row.id latest db1)
                (add_parents-Untouched row.id parents _))))
    ]

pub create-Logs :
    (registered : Text → Bool) (canonical_hash : Json → Text) (model : ArtifactModel)
    (o : CreateOptions)
    → Logs same_db (create registered canonical_hash model o)
unfolding create
create-Logs registered canonical_hash model o db =
    elim (Bool-cases (registered model.artifact_type)) [
      | inr unknown ↦ rw unknown (Writes-refl db)
      | inl known ↦
          rw known
            (elim (Option-cases (duplicate (canonical_hash model.content) (latest_row o.key db))) [
              | inr (row, same) ↦ rw (same, create) (Writes-refl db)
              | inl new ↦ rw (new, create) (untouched (mint-Untouched _ _ o.derived_from db))
            ])
    ]
