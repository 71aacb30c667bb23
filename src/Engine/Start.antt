-- ===== src/Engine/Start.antt =====
-- `start_run` and `_start_child`.
use flow_speckit.Prelude.{
  ◌+◌, Bool, ◌||◌, Option, none, some, [], ◌∷◌, ◌++◌, ◌==◌, if◌then◌else◌, exists_where, Text,
  codes,
}
use flow_speckit.Json.{Json}
use flow_speckit.Base.{Uuid, RunStatus}
use flow_speckit.UuidText.{uuid_text}
use flow_speckit.Errors.{integrity_error, Outcome, ok, raised}
use flow_speckit.Events.{run_started}
use flow_speckit.Storage.{RunRow, Db, fresh_queue_row, notify_run}
use flow_speckit.Storage.Log.{append}
use flow_speckit.Workflow.Registry
use flow_speckit.Workflow.Registry.{WorkflowRegistry}
use flow_speckit.Action.{Action, pure, modify, ◌>>=◌, ◌>>◌}

-- A registry call, which changes no table.
abbrev pub consult {ℓ} : {A : Type ℓ} {S : Type ℓ} → Outcome A → Action S A
consult o s = (o, s)

-- The inserts of one transaction: the run's row and its queue row, or neither.
unfoldable pub insert_run : RunRow → Action Db (Unit {0})
insert_run row db =
    if exists_where (λ r. r.run_id == row.run_id) db.workflow_runs
      || exists_where (λ q. q.run_id == row.run_id) db.task_queue
    then (raised integrity_error, db)
    else (
      ok tt,
      record db {
        workflow_runs = db.workflow_runs ++ row ∷ [];
        task_queue = db.task_queue ++ fresh_queue_row row.run_id db.clock ∷ [];
      },
    )

-- `run_id if run_id is not None else uuid4()`.
unfoldable pub choose_id : Option Uuid → Action Db Uuid
choose_id none db = (ok db.fresh, record db { fresh = db.fresh + 1 })
choose_id (some run_id) db = (ok run_id, db)

unfoldable pub start_run :
    WorkflowRegistry → Bool → Text → Text → Json → Text → Option Uuid → Option Uuid → Action Db Uuid
unfolding insert_run choose_id
start_run workflows notify name version input actor parent given = do
  consult (Registry.get name version workflows)
  run_id ← choose_id given
  modify (λ db.
      (append run_id
        (run_started (record {
          workflow_name = name;
          workflow_version = version;
          input = input;
          actor = actor;
        }))
        db).0)
  now ← (λ db. (ok db.clock, db))
  insert_run (record {
    run_id = run_id;
    workflow_name = name;
    workflow_version = version;
    status = RunStatus.pending;
    current_step = none;
    input = input;
    output_ref = none;
    error = none;
    parent_run_id = parent;
    created_at = now;
    updated_at = now;
  })
  modify (notify_run notify run_id)
  pure run_id

-- `version if version is not None else self._registry.latest(name).version`.
abbrev pub pinned_version : WorkflowRegistry → Text → Option Text → Action Db Text
pinned_version workflows name (some version) = pure version
pinned_version workflows name none = do d ← consult (Registry.latest name workflows); pure d.version

unfoldable pub start_child :
    WorkflowRegistry → Bool → Text → Option Text → Json → Uuid → Uuid → Action Db (Unit {0})
unfolding start_run
start_child workflows notify name version input parent run_id = do
  pinned ← pinned_version workflows name version
  start_run workflows notify name pinned input (codes "run:" ++ uuid_text parent) (some parent)
      (some run_id)
  pure tt
