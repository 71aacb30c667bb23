-- ===== src/Engine/Execute.antt =====
-- `execute_run` and `_reconcile_suspend` of workflows/engine.py.
pub mod Parking
use flow_speckit.Prelude.{
  ℕ, Bool, true, false, not, Option, none, some, List, [], ◌∷◌, if◌then◌else◌, exists_where, Text,
  codes, text_eq,
}
use flow_speckit.Base.{Uuid, RunStatus, TimerKind}
use flow_speckit.Errors.{
  Exception, non_determinism, step_kind_unavailable, unknown_run, unknown_workflow, SuspendRun,
  on_child, on_sleep, on_retry, on_gate, Outcome, ok, raised, suspended, cancelled_run, crashed,
}
use flow_speckit.Events.{
  WorkflowEvent, step_completed, gate_resolved, run_completed, run_failed, run_cancelled,
  project_run,
}
use flow_speckit.Storage.{
  RunRow, Db, find_run, set_status, delete_queue_row, upsert_task_queue, timer_exists, notify_run,
}
use flow_speckit.Storage.Log.{list}
use flow_speckit.Storage.Recording.{record_event}
use flow_speckit.Workflow.{Output, output_ref, Body, WorkflowDefinition}
use flow_speckit.Workflow.Registry
use flow_speckit.Action.{Action, pure, ◌>>=◌, ◌>>◌}
use flow_speckit.Context.{Env, Pass, new_context}
use flow_speckit.Context.Keys.{assert_replay_consistent}
use flow_speckit.Context.Steps.{is_run_cancelled}
use flow_speckit.Context.Run.{run_body}
use flow_speckit.Engine.Settle.{settles, settle_parent, fail_run}

pub record RunOutcome : Type 0 where
  pub run_id : Uuid
  pub status : RunStatus
  pub output : Option Output
  pub error : Option Exception

-- The database and the number of side effects that the process has started.
pub record World : Type 0 where
  pub db : Db
  pub effects : ℕ

abbrev outcome : Uuid → RunStatus → RunOutcome
outcome run_id status = record { run_id = run_id; status = status; output = none; error = none }

-- The last terminal event of the loop of `_reconcile_suspend`.
abbrev pub is_ending : WorkflowEvent → Bool
is_ending (run_cancelled _) = true
is_ending (run_failed _) = true
is_ending _ = false

unfoldable pub last_where {ℓ} : {A : Type ℓ} → (A → Bool) → List A → Option A
last_where p [] = none
last_where p (x ∷ xs) = elim (last_where p xs) [
  | some y ↦ some y
  | none ↦ if p x then some x else none
]

abbrev pub completes : Text → WorkflowEvent → Bool
completes key (step_completed e) = text_eq e.step_key key
completes key _ = false

abbrev pub resolves : Text → WorkflowEvent → Bool
resolves key (gate_resolved e) = text_eq e.step_key key
resolves key _ = false

-- The durable trace of a wake of the suspended step.
unfoldable pub is_woken : Uuid → SuspendRun → Db → Bool
is_woken run_id suspend db = elim suspend.kind [
  | on_child ↦ exists_where (settles suspend.step_key) (list run_id db)
  | on_sleep ↦ exists_where (completes suspend.step_key) (list run_id db)
  | on_retry ↦ not (timer_exists run_id suspend.step_key TimerKind.retry db)
  | on_gate ↦ exists_where (resolves suspend.step_key) (list run_id db)
]

-- `pending` again, a queue row and a notification.
unfoldable pub requeue : Bool → Uuid → Db → Db
requeue notify run_id db =
    notify_run notify run_id (upsert_task_queue run_id (set_status run_id RunStatus.pending db))

unfoldable pub reconcile_wake : Bool → Uuid → SuspendRun → Db → RunOutcome × Db
unfolding is_woken requeue
reconcile_wake notify run_id suspend db =
    if is_woken run_id suspend db
    then (outcome run_id RunStatus.pending, requeue notify run_id db)
    else (outcome run_id suspend.run_status, db)

-- `_reconcile_suspend`: the last terminal event, or else the step's wake, since the run parked.
unfoldable pub reconcile_suspend : Bool → Uuid → SuspendRun → Db → RunOutcome × Db
unfolding reconcile_wake last_where
reconcile_suspend notify run_id suspend db = elim (last_where is_ending (list run_id db)) [
  | some (run_cancelled _) ↦
      (outcome run_id RunStatus.cancelled, set_status run_id RunStatus.cancelled db)
  | some (run_failed e) ↦ (
    record (outcome run_id RunStatus.failed) { error = some e.error },
    set_status run_id RunStatus.failed db,
  )
  | _ ↦ reconcile_wake notify run_id suspend db
]

-- The status of the signal, and no queue row: a parked run cannot be claimed.
unfoldable pub park : Uuid → SuspendRun → Db → Db
park run_id suspend db = delete_queue_row run_id (set_status run_id suspend.run_status db)

abbrev or_else : Option Text → Text → Text
or_else (some k) _ = k
or_else none k = k

-- `except NonDeterminismError`, `except StepKindUnavailableError` and `except Exception`.
unfoldable pub end_raised : Env → Uuid → Exception → Pass → Outcome RunOutcome × World
end_raised env run_id (non_determinism key detail) s = (
  raised (non_determinism key detail),
  record {
    db =
        if s.ctx.sealed
        then s.db
        else fail_run env.child_run_id env.notify run_id (non_determinism key detail) key s.db;
    effects = s.effects;
  },
)
end_raised env run_id (step_kind_unavailable kind) s = (
  raised (step_kind_unavailable kind),
  record {
    db =
        fail_run env.child_run_id env.notify run_id (step_kind_unavailable kind)
          (or_else s.ctx.last_step_key (codes "<unknown>")) s.db;
    effects = s.effects;
  },
)
end_raised env run_id e s = (
  ok (record (outcome run_id RunStatus.failed) { error = some e }),
  record {
    db =
        fail_run env.child_run_id env.notify run_id e
          (or_else s.ctx.last_step_key (codes "<unknown>")) s.db;
    effects = s.effects;
  },
)

-- The end of a pass that returned: nothing more is written where the log is sealed.
unfoldable pub complete_run : Env → Uuid → Output → Pass → Db
complete_run env run_id out s =
    if s.ctx.sealed
    then s.db
    else settle_parent env.child_run_id env.notify run_id (
        delete_queue_row run_id
          (record_event run_id (run_completed (record { output_ref = output_ref out })) s.db))

-- The `except` clauses, and the end of the method.
unfoldable pub end_pass : Env → Uuid → Outcome Output → Pass → Outcome RunOutcome × World
unfolding complete_run end_raised park reconcile_suspend
end_pass env run_id (ok out) s = (
  ok (record (outcome run_id RunStatus.completed) { output = some out }),
  record { db = complete_run env run_id out s; effects = s.effects },
)
end_pass env run_id (raised e) s = end_raised env run_id e s
end_pass env run_id (suspended suspend) s =
    let (o, db) = reconcile_suspend env.notify run_id suspend (park run_id suspend s.db) in
    (ok o, record { db = db; effects = s.effects })
end_pass env run_id (cancelled_run key) s = (
  ok (outcome run_id RunStatus.cancelled),
  record {
    db = delete_queue_row run_id (set_status run_id RunStatus.cancelled s.db);
    effects = s.effects;
  },
)
end_pass env run_id crashed s = (crashed, record { db = s.db; effects = s.effects })

abbrev pub is_completed : RunStatus → Bool
is_completed RunStatus.completed = true
is_completed _ = false

-- The body, and the check that it asked for every memoized step.
unfoldable pub replay_body : Env → Body → Action Pass Output
unfolding run_body assert_replay_consistent
replay_body env body = do out ← run_body env body; assert_replay_consistent; pure out

abbrev pub fresh_pass : Uuid → World → Pass
fresh_pass run_id w = record {
  db = w.db;
  ctx =
      new_context run_id (is_completed (project_run run_id (list run_id w.db)).status)
        (list run_id w.db);
  effects = w.effects;
}

-- The pass of a definition that is registered.
unfoldable pub execute_definition :
    Env → Uuid → RunRow → WorkflowDefinition → World → Outcome RunOutcome × World
unfolding replay_body end_pass
execute_definition env run_id row d w =
    let (o, s) = replay_body env (d.fn row.input) (fresh_pass run_id w) in end_pass env run_id o s

-- The pinned version is not registered.
abbrev pub fail_unknown : Env → Uuid → RunRow → World → Outcome RunOutcome × World
fail_unknown env run_id row w =
    let error = unknown_workflow row.workflow_name row.workflow_version in
    (
      ok (record (outcome run_id RunStatus.failed) { error = some error }),
      record w {
        db =
            fail_run env.child_run_id env.notify run_id error
              (or_else (project_run run_id (list run_id w.db)).current_step
                (codes "<pinned-version>"))
              w.db;
      },
    )

unfoldable pub execute_row : Env → Uuid → RunRow → World → Outcome RunOutcome × World
unfolding execute_definition
execute_row env run_id row w =
    if exists_where is_run_cancelled (list run_id w.db)
    then (
      ok (record (outcome run_id RunStatus.cancelled) {
        error = (project_run run_id (list run_id w.db)).error;
      }),
      w,
    )
    else elim (Registry.get row.workflow_name row.workflow_version env.workflows) [
      | ok d ↦ execute_definition env run_id row d w
      | _ ↦ fail_unknown env run_id row w
    ]

unfoldable pub execute_run : Env → Uuid → World → Outcome RunOutcome × World
unfolding execute_row
execute_run env run_id w = elim (find_run run_id w.db) [
  | none ↦ (raised (unknown_run run_id), w)
  | some row ↦ execute_row env run_id row w
]
