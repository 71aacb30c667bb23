-- ===== src/Storage/Recording.antt =====
-- The projection row: `apply_event_to_run_row` of workflows/context.py, and the pair of an event
-- append and this update that every writer of the log makes.
pub mod Sync
use flow_speckit.Prelude.{some}
use flow_speckit.Base.{
  Uuid, RunStatus, pending, running, waiting_gate, completed, failed, cancelled,
}
use flow_speckit.Events.{
  WorkflowEvent, run_started, step_started, step_completed, step_failed, gate_opened, gate_resolved,
  run_completed, run_failed, run_cancelled, started_status, failed_status,
}
use flow_speckit.Storage.{RunRow, Db, update_run}
use flow_speckit.Storage.Log.{append}

-- The `values` of the update.
unfoldable pub event_values : WorkflowEvent → RunRow → RunRow
event_values (run_started e) r = record r { status = pending }
event_values (step_started e) r = record r {
  status = started_status e.step_kind;
  current_step = some e.step_key;
}
event_values (step_completed e) r = record r { status = running }
event_values (step_failed e) r = record r { status = failed_status e.will_retry }
event_values (gate_opened e) r = record r { status = waiting_gate }
event_values (gate_resolved e) r = record r { status = pending }
event_values (run_completed e) r = record r { status = completed; output_ref = e.output_ref }
event_values (run_failed e) r = record r {
  status = failed;
  error = some e.error;
  current_step = some e.failed_step;
}
event_values (run_cancelled e) r = record r { status = cancelled }

unfoldable pub apply_event_to_run_row : Uuid → WorkflowEvent → Db → Db
unfolding event_values update_run
apply_event_to_run_row run_id event db = update_run run_id (event_values event) db

-- `log.append` and then `apply_event_to_run_row`, two transactions.
unfoldable pub record_event : Uuid → WorkflowEvent → Db → Db
unfolding append apply_event_to_run_row
record_event run_id event db = apply_event_to_run_row run_id event (append run_id event db).0
