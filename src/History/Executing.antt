-- ===== src/History/Executing.antt =====
-- `execute_run` and `cancel_run` (workflows/engine.py), as writers of the event table.
use flow_speckit.Prelude.{
  inl, inr, Bool, Option, none, some, Bool-cases, Option-cases, exists_where, Text,
}
use flow_speckit.Workflow.Registry
use flow_speckit.Engine.Execute.{
  World, park, requeue, reconcile_wake, reconcile_suspend, execute_row, execute_run,
  execute_definition, replay_body, end_pass, end_raised, complete_run, RunOutcome, is_woken,
  last_where, is_ending, fresh_pass, fail_unknown,
}
use flow_speckit.Context.{Env, Pass}
use flow_speckit.Engine.Cancel.{cancel_run, mark_cancelled}
use flow_speckit.Storage.{Db, RunRow, find_run}
use flow_speckit.Events.{
  WorkflowEvent, RunFailed, run_cancelled, run_failed, run_started, step_started, step_completed,
  step_failed, gate_opened, gate_resolved, run_completed,
}
use flow_speckit.Base.{Uuid, RunStatus}
use flow_speckit.Errors.{
  Outcome, SuspendRun, Exception, non_determinism, ok, raised, suspended, cancelled_run, crashed,
}
use flow_speckit.Storage.Writes.{Writes, Logs, followed, Writes-refl, >>=-Logs}
use flow_speckit.Context.Keys.{assert_replay_consistent}
use flow_speckit.Workflow.{Output, Body, WorkflowDefinition}
use flow_speckit.History.Starting.{same_db, settle_parent-Writes, fail_run-Writes}
use flow_speckit.Context.Steps.{is_run_cancelled}
use flow_speckit.History.Passing.{pass_db}
use flow_speckit.Engine.Cancel.Closing.{cancel_on_session-closed}
use flow_speckit.Storage.Log.{list}
use flow_speckit.Storage.Writes.Statements.{
  Writes-set_status, Writes-record_event, Writes-delete_queue_row, Writes-upsert_task_queue,
  Writes-delete_run_timers, Writes-notify_run,
}
use flow_speckit.History.Awaiting.{run_body-Logs}

abbrev pub world_db : World → Db
world_db w = w.db

requeue-Writes : (notify : Bool) (run_id : Uuid) (db : Db) → Writes db (requeue notify run_id db)
unfolding requeue
requeue-Writes notify run_id db =
    followed (Writes-set_status run_id RunStatus.pending db)
      (followed (Writes-upsert_task_queue run_id _) (Writes-notify_run notify run_id _))

reconcile_wake-Writes :
    (notify : Bool) (run_id : Uuid) (suspend : SuspendRun) (db : Db)
    → Writes db (reconcile_wake notify run_id suspend db).1
unfolding reconcile_wake
reconcile_wake-Writes notify run_id suspend db = elim (Bool-cases (is_woken run_id suspend db)) [
  | inl woken ↦ rw woken (requeue-Writes notify run_id db)
  | inr waiting ↦ rw waiting (Writes-refl db)
]

-- Each way in which a reconciliation can end.
by_ending-Writes :
    (db : Db) (found : Option WorkflowEvent) (over : RunOutcome × Db)
    (failing : RunFailed → RunOutcome × Db) (waking : RunOutcome × Db)
    → Writes db over.1
    → ((e : RunFailed) → Writes db (failing e).1)
    → Writes db waking.1
    → Writes db
        (elim found as (λ _. RunOutcome × Db) [
          | some (run_cancelled _) ↦ over
          | some (run_failed e) ↦ failing e
          | _ ↦ waking
        ]).1
by_ending-Writes db none over failing waking h k l = l
by_ending-Writes db (some (run_started e)) over failing waking h k l = l
by_ending-Writes db (some (step_started e)) over failing waking h k l = l
by_ending-Writes db (some (step_completed e)) over failing waking h k l = l
by_ending-Writes db (some (step_failed e)) over failing waking h k l = l
by_ending-Writes db (some (gate_opened e)) over failing waking h k l = l
by_ending-Writes db (some (gate_resolved e)) over failing waking h k l = l
by_ending-Writes db (some (run_completed e)) over failing waking h k l = l
by_ending-Writes db (some (run_failed e)) over failing waking h k l = k e
by_ending-Writes db (some (run_cancelled e)) over failing waking h k l = h

reconcile_suspend-Writes :
    (notify : Bool) (run_id : Uuid) (suspend : SuspendRun) (db : Db)
    → Writes db (reconcile_suspend notify run_id suspend db).1
unfolding reconcile_suspend
reconcile_suspend-Writes notify run_id suspend db =
    by_ending-Writes db (last_where is_ending (list run_id db)) _ _ _
      (Writes-set_status run_id RunStatus.cancelled db)
      (λ _. Writes-set_status run_id RunStatus.failed db)
      (reconcile_wake-Writes notify run_id suspend db)

park-Writes : (run_id : Uuid) (suspend : SuspendRun) (db : Db) → Writes db (park run_id suspend db)
unfolding park
park-Writes run_id suspend db =
    followed (Writes-set_status run_id suspend.run_status db) (Writes-delete_queue_row run_id _)

module _ (env : Env) where
  end_raised-Writes :
      (run_id : Uuid) (e : Exception) (s : Pass) → Writes s.db (end_raised env run_id e s).1.db
  unfolding end_raised
  end_raised-Writes run_id (non_determinism key detail) s = elim (Bool-cases s.ctx.sealed) [
    | inl over ↦ rw over (Writes-refl s.db)
    | inr live ↦ rw live (fail_run-Writes env.child_run_id env.notify run_id _ key s.db)
  ]
  end_raised-Writes run_id e s = fail_run-Writes env.child_run_id env.notify run_id _ _ s.db

  complete_run-Writes :
      (run_id : Uuid) (out : Output) (s : Pass) → Writes s.db (complete_run env run_id out s)
  unfolding complete_run
  complete_run-Writes run_id out s = elim (Bool-cases s.ctx.sealed) [
    | inl over ↦ rw over (Writes-refl s.db)
    | inr live ↦ rw live (
        followed (Writes-record_event run_id _ s.db) (
          followed (Writes-delete_queue_row run_id _)
            (settle_parent-Writes env.child_run_id env.notify run_id _)))
  ]

  end_pass-Writes :
      (run_id : Uuid) (o : Outcome Output) (s : Pass) → Writes s.db (end_pass env run_id o s).1.db
  unfolding end_pass
  end_pass-Writes run_id (ok out) s = complete_run-Writes run_id out s
  end_pass-Writes run_id (raised e) s = end_raised-Writes run_id e s
  end_pass-Writes run_id (suspended suspend) s =
      followed (park-Writes run_id suspend s.db)
        (reconcile_suspend-Writes env.notify run_id suspend _)
  end_pass-Writes run_id (cancelled_run key) s =
      followed (Writes-set_status run_id RunStatus.cancelled s.db)
        (Writes-delete_queue_row run_id _)
  end_pass-Writes run_id crashed s = Writes-refl s.db

  replay_body-Logs : (body : Body) → Logs pass_db (replay_body env body)
  unfolding replay_body assert_replay_consistent
  replay_body-Logs body =
      >>=-Logs pass_db _ _ (run_body-Logs env body)
        (λ out. >>=-Logs pass_db _ _ (λ s. Writes-refl s.db) (λ _ s. Writes-refl s.db))

  execute_definition-Writes :
      (run_id : Uuid) (row : RunRow) (d : WorkflowDefinition) (w : World)
      → Writes w.db (execute_definition env run_id row d w).1.db
  unfolding execute_definition
  execute_definition-Writes run_id row d w =
      let (o, s) = replay_body env (d.fn row.input) (fresh_pass run_id w) in
      followed (replay_body-Logs (d.fn row.input) (fresh_pass run_id w))
        (end_pass-Writes run_id o s)

  execute_found-Writes :
      (run_id : Uuid) (row : RunRow) (found : Outcome WorkflowDefinition) (w : World)
      → Writes w.db
          (elim found as (λ _. Outcome RunOutcome × World) [
            | ok d ↦ execute_definition env run_id row d w
            | _ ↦ fail_unknown env run_id row w
          ]).1.db
  execute_found-Writes run_id row (ok d) w = execute_definition-Writes run_id row d w
  execute_found-Writes run_id row (raised e) w =
      fail_run-Writes env.child_run_id env.notify run_id _ _ w.db
  execute_found-Writes run_id row (suspended r) w =
      fail_run-Writes env.child_run_id env.notify run_id _ _ w.db
  execute_found-Writes run_id row (cancelled_run k) w =
      fail_run-Writes env.child_run_id env.notify run_id _ _ w.db
  execute_found-Writes run_id row crashed w =
      fail_run-Writes env.child_run_id env.notify run_id _ _ w.db

  execute_row-Writes :
      (run_id : Uuid) (row : RunRow) (w : World) → Writes w.db (execute_row env run_id row w).1.db
  unfolding execute_row
  execute_row-Writes run_id row w =
      elim (Bool-cases (exists_where is_run_cancelled (list run_id w.db))) [
        | inl over ↦ rw over (Writes-refl w.db)
        | inr live ↦ rw live (
            execute_found-Writes run_id row
              (Registry.get row.workflow_name row.workflow_version env.workflows) w)
      ]

  pub execute_run-Writes : (run_id : Uuid) (w : World) → Writes w.db (execute_run env run_id w).1.db
  unfolding execute_run
  execute_run-Writes run_id w = elim (Option-cases (find_run run_id w.db)) [
    | inl missing ↦ rw (missing, execute_run) (Writes-refl w.db)
    | inr (row, found) ↦ rw (found, execute_run) (execute_row-Writes run_id row w)
  ]

mark_cancelled-Writes :
    (run_id : Uuid) (actor reason : Text) (db : Db)
    → Writes db (mark_cancelled run_id actor reason db)
unfolding mark_cancelled
mark_cancelled-Writes run_id actor reason db =
    followed (Writes-record_event run_id _ db)
      (followed (Writes-delete_queue_row run_id _) (Writes-delete_run_timers run_id _))

pub cancel_run-Logs :
    (child_run_id : Uuid → Text → Uuid) (notify : Bool) (run_id : Uuid) (actor reason : Text)
    → Logs same_db (cancel_run child_run_id notify run_id actor reason)
unfolding cancel_run
cancel_run-Logs child_run_id notify run_id actor reason db =
    cancel_on_session-closed Writes Writes-refl (λ a b c h k. followed h k) child_run_id notify
      mark_cancelled-Writes (settle_parent-Writes child_run_id notify) _ run_id actor reason db
