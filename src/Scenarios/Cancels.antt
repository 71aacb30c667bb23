-- ===== src/Scenarios/Cancels.antt =====
-- The draft workflow's run, cancelled while a child of it is live.
use flow_speckit.Prelude.{
  ◌+◌, ◌≡◌, refl, true, none, some, [], ◌∷◌, ◌++◌, greatest, select, delete_where, update_where,
  exists_where, first_where, count_where, codes, text_eq, decimal, read_decimal, starts_with,
  order_by, dict_get, dict_put, dict_pop, contains,
}
use flow_speckit.Action.{◌>>=◌}
use flow_speckit.Events.{project_event, project_from, project_run}
use flow_speckit.Storage.{
  find_run, update_run, set_status, delete_queue_row, upsert_task_queue, delete_timer,
  delete_run_timers, insert_timer, timer_exists, notify_run, Db, RunRow,
}
use flow_speckit.Storage.Log.{rows_of, append, list}
use flow_speckit.Storage.Recording.{event_values, apply_event_to_run_row, record_event}
use flow_speckit.Workflow.Registry.{
  find, overwrite, register, get, text_lt, version_lt, highest, latest,
}
use flow_speckit.Engine.Start.{insert_run, choose_id, start_run, start_child}
use flow_speckit.Engine.Cancel.{
  live_children, mark_cancelled, cancel_each, cancel_with, cancel_on_session, cancel_run, live_runs,
}
use flow_speckit.Engine.Settle.{
  dispatched_step, settle_event, settle_step, settle_live_parent, settle_parent_row,
  settle_child_row, settle_parent, fail_run,
}
use flow_speckit.UuidText.{uuid_text}
use flow_speckit.Engine.Execute.{World, RunOutcome, execute_run}
use flow_speckit.Engine.Cancel.Counting.{IsUnique}
use flow_speckit.Engine.Cancel.Depth.{cancel_on_session-cancel_run}
use flow_speckit.Engine.Cancel.Final.{cancel_run-final}
use flow_speckit.Storage.Log.Gapless.{IsGapless}
use flow_speckit.Scenarios.{started, broken_engine, started-IsGapless}
use flow_speckit.Json.{number}
use flow_speckit.Errors.{ok}
use flow_speckit.Base.{RunStatus}

-- A child of run 0, as its row.
abbrev child_row : RunRow
child_row = record {
  run_id = 100;
  workflow_name = codes "draft";
  workflow_version = codes "1";
  status = RunStatus.running;
  current_step = none;
  input = number 4;
  output_ref = none;
  error = none;
  parent_run_id = some 0;
  created_at = 5;
  updated_at = 5;
}

abbrev family : Db
family = record started.db { workflow_runs = started.db.workflow_runs ++ child_row ∷ [] }

family-IsGapless : IsGapless family
family-IsGapless = record { at_run = started-IsGapless.at_run }

family-IsUnique : IsUnique family.workflow_runs
unfolding ◌>>=◌ project_event project_from project_run find_run update_run set_status
    delete_queue_row upsert_task_queue delete_timer delete_run_timers insert_timer timer_exists
    notify_run rows_of append list event_values apply_event_to_run_row record_event dict_get
    dict_put dict_pop contains greatest order_by select delete_where update_where exists_where
    first_where count_where text_eq decimal read_decimal starts_with find overwrite register get
    text_lt version_lt highest latest insert_run choose_id start_run start_child live_children
    mark_cancelled cancel_each cancel_with cancel_on_session cancel_run dispatched_step settle_event
    settle_step settle_live_parent settle_parent_row settle_child_row settle_parent fail_run
    uuid_text
family-IsUnique = (refl, (refl, tt))

abbrev cancelled_world : World
cancelled_world = record {
  db =
      (cancel_run broken_engine.child_run_id broken_engine.notify 0 (codes "ana") (codes "no")
        family).1;
  effects = 0;
}

-- The row of run 0 after it.
abbrev cancelled_row : RunRow
cancelled_row = record child_row {
  run_id = 0;
  status = RunStatus.cancelled;
  input = number 3;
  parent_run_id = none;
}

cancel_facts :
    (cancel_run broken_engine.child_run_id broken_engine.notify 0 (codes "ana") (codes "no") family
      ≡ (ok tt, cancelled_world.db))
    × (find_run 0 cancelled_world.db ≡ some cancelled_row)
    × (live_runs cancelled_world.db ≡ 0)
unfolding ◌>>=◌ project_event project_from project_run find_run update_run set_status
    delete_queue_row upsert_task_queue delete_timer delete_run_timers insert_timer timer_exists
    notify_run rows_of append list event_values apply_event_to_run_row record_event dict_get
    dict_put dict_pop contains greatest order_by select delete_where update_where exists_where
    first_where count_where text_eq decimal read_decimal starts_with find overwrite register get
    text_lt version_lt highest latest insert_run choose_id start_run start_child live_children
    mark_cancelled cancel_each cancel_with cancel_on_session cancel_run dispatched_step settle_event
    settle_step settle_live_parent settle_parent_row settle_child_row settle_parent fail_run
    uuid_text
cancel_facts = (refl, refl, refl)

cancel_on_session-cancel_run_example :
    cancel_on_session
      (live_runs family + 1 + 9)
      broken_engine.child_run_id
      true
      0
      (codes "ana")
      (codes "no")
      family
    ≡ cancel_run broken_engine.child_run_id true 0 (codes "ana") (codes "no") family
cancel_on_session-cancel_run_example =
    cancel_on_session-cancel_run broken_engine.child_run_id true 9 0 (codes "ana") (codes "no")
      family family-IsUnique

cancel_run-final_example :
    (o : RunOutcome) × (execute_run broken_engine 0 cancelled_world ≡ (ok o, cancelled_world))
    × (o.status ≡ RunStatus.cancelled)
cancel_run-final_example =
    cancel_run-final broken_engine 0 (codes "ana") (codes "no") family cancelled_world cancelled_row
      family-IsGapless cancel_facts.0 cancel_facts.1
