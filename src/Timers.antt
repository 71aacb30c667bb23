-- ===== src/Timers.antt =====
-- workflows/timers.py: firing the timers that are due.
pub mod Sleeping
pub mod Draining
use flow_speckit.Prelude.{
  ℕ, Bool, true, none, List, [], ◌∷◌, leb, if◌then◌else◌, length, select, exists_where, Text, codes,
  order_by,
}
use flow_speckit.Base.{Uuid, TimerKind}
use flow_speckit.Json.{Json, boolean, object, field, end}
use flow_speckit.Storage.{Db, TimerRow, notify_run, delete_timer, upsert_task_queue}
use flow_speckit.Storage.Log.{list}
use flow_speckit.Storage.Recording.{record_event}
use flow_speckit.Action.{Action, pure, modify, ◌>>=◌, ◌>>◌}
use flow_speckit.Engine.Execute.{completes}
use flow_speckit.Gates.{handle_gate_timeout}
use flow_speckit.Events.{step_completed, StepCompleted}

-- The `step_completed` of a slept step.
abbrev pub slept : Text → StepCompleted
slept step_key = record {
  step_key = step_key;
  result = object (field (codes "slept") (boolean true) end);
  cost = none;
  duration_ms = 0;
}

-- The event of `_fire_sleep`, unless the log has it.
unfoldable pub complete_sleep : Uuid → Text → Db → Db
complete_sleep run_id step_key db =
    if exists_where (completes step_key) (list run_id db)
    then db
    else record_event run_id (step_completed (slept step_key)) db

-- `_fire_sleep`.
unfoldable pub fire_sleep : Bool → TimerRow → Db → Db
unfolding complete_sleep
fire_sleep notify row db = notify_run notify row.run_id (
    delete_timer row.timer_id
      (upsert_task_queue row.run_id (complete_sleep row.run_id row.step_key db)))

unfoldable pub fire_retry : Bool → TimerRow → Db → Db
fire_retry notify row db =
    notify_run notify row.run_id (delete_timer row.timer_id (upsert_task_queue row.run_id db))

-- The body of the loop of `fire_due_timers`.
unfoldable pub fire_timer : (Uuid → Text → Uuid) → Bool → TimerRow → Action Db (Unit {0})
unfolding fire_sleep fire_retry handle_gate_timeout
fire_timer child_run_id notify row = elim row.kind [
  | TimerKind.sleep ↦ modify (fire_sleep notify row)
  | TimerKind.retry ↦ modify (fire_retry notify row)
  | TimerKind.gate_timeout ↦ (do
    handle_gate_timeout child_run_id notify row.run_id row.step_key
    modify (delete_timer row.timer_id))
]

unfoldable pub fire_each : (Uuid → Text → Uuid) → Bool → List TimerRow → Action Db (Unit {0})
unfolding fire_timer
fire_each child_run_id notify [] = pure tt
fire_each child_run_id notify (row ∷ rows) = do
  fire_timer child_run_id notify row
  fire_each child_run_id notify rows

-- `WHERE fire_at <= now() ORDER BY fire_at`.
unfoldable pub due_timers : Db → List TimerRow
due_timers db = order_by (λ t. t.fire_at) (select (λ t. leb t.fire_at db.clock) db.timers)

-- `fire_due_timers`: the number of timers that were due.
unfoldable pub fire_due_timers : (Uuid → Text → Uuid) → Bool → Action Db ℕ
unfolding due_timers fire_each
fire_due_timers child_run_id notify db =
    (do fire_each child_run_id notify (due_timers db); pure (length (due_timers db))) db
