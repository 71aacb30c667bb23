-- ===== src/Engine/Settle.antt =====
-- `settle_parent_on_child_terminal` and `_fail_run` of workflows/engine.py.
pub mod Logs
use flow_speckit.Prelude.{
  ◌+◌, Bool, false, Option, none, some, List, ◌==◌, if◌then◌else◌, exists_where, first_where,
  count_where, Text, text_eq,
}
use flow_speckit.Base.{Uuid, StepKind, RunStatus, is_terminal}
use flow_speckit.Errors.{Exception}
use flow_speckit.Events.{WorkflowEvent, step_started, step_completed, step_failed, run_failed}
use flow_speckit.Storage.{
  RunRow, Db, find_run, set_status, delete_queue_row, upsert_task_queue, notify_run,
}
use flow_speckit.Storage.Log.{append, list}
use flow_speckit.Storage.Recording.{record_event}
use flow_speckit.Context.Children.{child_result, child_error, is_failure_of}

-- The step of the parent that dispatched the child.
abbrev dispatches : (Uuid → Text → Uuid) → Uuid → Uuid → WorkflowEvent → Bool
dispatches child_run_id parent child (step_started e) = elim e.step_kind [
  | StepKind.child ↦ child_run_id parent e.step_key == child
  | _ ↦ false
]
dispatches child_run_id parent child _ = false

abbrev started_key : Option WorkflowEvent → Option Text
started_key (some (step_started e)) = some e.step_key
started_key _ = none

unfoldable pub dispatched_step :
    (Uuid → Text → Uuid) → Uuid → Uuid → List WorkflowEvent → Option Text
dispatched_step child_run_id parent child events =
    started_key (first_where (dispatches child_run_id parent child) events)

-- `isinstance(e, (StepCompleted, StepFailed)) and e.step_key == step_key`.
abbrev pub settles : Text → WorkflowEvent → Bool
settles key (step_completed e) = text_eq e.step_key key
settles key (step_failed e) = text_eq e.step_key key
settles key _ = false

-- What a terminal child appends to its parent's log.
unfoldable pub settle_event : RunRow → Text → List WorkflowEvent → WorkflowEvent
settle_event child key events = elim child.status [
  | RunStatus.completed ↦ step_completed (record {
    step_key = key;
    result = child_result child.run_id child.output_ref;
    cost = none;
    duration_ms = 0;
  })
  | _ ↦ step_failed (record {
    step_key = key;
    error = child_error child.run_id child.error;
    attempt = count_where (is_failure_of key) events + 1;
    will_retry = false;
  })
]

-- The append, and the wake: `pending`, a queue row, a notification.
unfoldable pub settle_step : Bool → RunRow → Uuid → Text → Db → Db
unfolding settle_event
settle_step notify child parent key db =
    let settled = (append parent (settle_event child key (list parent db)) db).0 in
    notify_run notify parent
      (upsert_task_queue parent (set_status parent RunStatus.pending settled))

-- The parent is live: find the step, unless it is settled already.
unfoldable pub settle_live_parent : (Uuid → Text → Uuid) → Bool → RunRow → Uuid → Db → Db
unfolding dispatched_step settle_step
settle_live_parent child_run_id notify child parent db =
    elim (dispatched_step child_run_id parent child.run_id (list parent db)) [
      | none ↦ db
      | some key ↦
          if exists_where (settles key) (list parent db)
          then db
          else settle_step notify child parent key db
    ]

unfoldable pub settle_parent_row :
    (Uuid → Text → Uuid) → Bool → RunRow → Uuid → Option RunRow → Db → Db
unfolding settle_live_parent
settle_parent_row child_run_id notify child parent none db = db
settle_parent_row child_run_id notify child parent (some p) db =
    if is_terminal p.status then db else settle_live_parent child_run_id notify child parent db

unfoldable pub settle_child_row : (Uuid → Text → Uuid) → Bool → RunRow → Option Uuid → Db → Db
unfolding settle_parent_row
settle_child_row child_run_id notify child none db = db
settle_child_row child_run_id notify child (some parent) db =
    if is_terminal child.status
    then settle_parent_row child_run_id notify child parent (find_run parent db) db
    else db

-- `settle_parent_on_child_terminal`.
unfoldable pub settle_parent : (Uuid → Text → Uuid) → Bool → Uuid → Db → Db
unfolding settle_child_row
settle_parent child_run_id notify child_id db = elim (find_run child_id db) [
  | none ↦ db
  | some child ↦ settle_child_row child_run_id notify child child.parent_run_id db
]

-- `_fail_run`.
unfoldable pub fail_run : (Uuid → Text → Uuid) → Bool → Uuid → Exception → Text → Db → Db
fail_run child_run_id notify run_id error failed_step db =
    settle_parent child_run_id notify run_id (
      delete_queue_row run_id
        (record_event run_id (run_failed (record { error = error; failed_step = failed_step })) db))
