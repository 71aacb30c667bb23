-- ===== src/Scenarios/Runs.antt =====
-- The run of the draft workflow, completed and executed again.
use flow_speckit.Prelude.{
  ◌≡◌, refl, false, none, some, greatest, select, delete_where, update_where, exists_where,
  first_where, count_where, codes, text_eq, decimal, read_decimal, starts_with, order_by, dict_get,
  dict_put, dict_pop, contains,
}
use flow_speckit.Action.{◌>>=◌}
use flow_speckit.Context.{memo_event, failed_event, opened_event, resolved_event, fill, new_context}
use flow_speckit.Events.{project_event, project_from, project_run}
use flow_speckit.Storage.{
  find_run, update_run, set_status, delete_queue_row, upsert_task_queue, delete_timer,
  delete_run_timers, insert_timer, timer_exists, notify_run, RunRow,
}
use flow_speckit.Storage.Log.{rows_of, append, list}
use flow_speckit.Storage.Recording.{event_values, apply_event_to_run_row, record_event}
use flow_speckit.Context.Keys.{
  step_key_of, allocate, require_live, leftover, text_before, least_text, assert_replay_consistent,
}
use flow_speckit.Context.Run.{allocate_key, perform_at, perform, run_body}
use flow_speckit.Context.Steps.{
  append_event, has_cancelled, raise_if_cancelled, add_timer, memoize, fault_at, run_effect,
  complete_step, park_for_retry, retry_or_raise, after_reply, begin_attempt, attempt_loop,
  checkpointed, dispatch, memo_or, run_handler_step, run_intrinsic, is_run_cancelled,
}
use flow_speckit.Workflow.Registry.{
  find, overwrite, register, get, text_lt, version_lt, highest, latest,
}
use flow_speckit.Engine.Execute.{
  last_where, is_woken, requeue, reconcile_wake, reconcile_suspend, park, end_raised, complete_run,
  end_pass, replay_body, execute_definition, execute_row, execute_run, RunOutcome, World,
  is_completed,
}
use flow_speckit.Engine.Settle.{
  dispatched_step, settle_event, settle_step, settle_live_parent, settle_parent, fail_run,
}
use flow_speckit.Engine.Start.{insert_run, choose_id, start_run, start_child}
use flow_speckit.UuidText.{uuid_text}
use flow_speckit.Replay.Completed.{completed_outcome}
use flow_speckit.Scenarios.{
  draft-Propagates, started-IsGapless, started, working_engine, broken_engine, draft_workflow,
}
use flow_speckit.Workflow.{plain}
use flow_speckit.Workflow.Registry
use flow_speckit.Base.{RunStatus}
use flow_speckit.Json.{number}
use flow_speckit.Errors.{ok}
use flow_speckit.Queue.{claim_one}
use flow_speckit.Replay.Again.{execute_run-again}

abbrev finished : World
finished = (execute_run working_engine 0 started).1

-- The row of run 0 before its pass.
abbrev row : RunRow
row = record {
  run_id = 0;
  workflow_name = codes "draft";
  workflow_version = codes "1";
  status = RunStatus.pending;
  current_step = none;
  input = number 3;
  output_ref = none;
  error = none;
  parent_run_id = none;
  created_at = 5;
  updated_at = 5;
}

-- The same row after it.
abbrev row_after : RunRow
row_after = record row { status = RunStatus.completed; current_step = some (codes "draft") }

abbrev outcome : RunOutcome
outcome = completed_outcome 0 (plain (number 7))

-- The process that executes the run again has started other side effects, at a later time.
abbrev later : World
later = record finished { effects = 99; db = record finished.db { clock = 60 } }

run_facts :
    (is_completed (project_run 0 (list 0 started.db)).status ≡ false)
    × (find_run 0 started.db ≡ some row)
    × (Registry.get (codes "draft") (codes "1") working_engine.workflows ≡ ok draft_workflow)
    × (execute_run working_engine 0 started ≡ (ok outcome, finished))
    × (find_run 0 later.db ≡ some row_after)
    × (list 0 later.db ≡ list 0 finished.db)
    × (exists_where is_run_cancelled (list 0 later.db) ≡ false)
unfolding ◌>>=◌ memo_event failed_event opened_event resolved_event fill new_context project_event
    project_from project_run find_run update_run set_status delete_queue_row upsert_task_queue
    delete_timer delete_run_timers insert_timer timer_exists notify_run rows_of append list
    event_values apply_event_to_run_row record_event step_key_of allocate require_live leftover
    text_before least_text assert_replay_consistent allocate_key perform_at perform run_body
    append_event has_cancelled raise_if_cancelled add_timer memoize fault_at run_effect
    complete_step park_for_retry retry_or_raise after_reply begin_attempt attempt_loop checkpointed
    dispatch memo_or run_handler_step run_intrinsic find overwrite register get text_lt version_lt
    highest latest dict_get dict_put dict_pop contains greatest order_by select delete_where
    update_where exists_where first_where count_where text_eq decimal read_decimal starts_with
    last_where is_woken requeue reconcile_wake reconcile_suspend park end_raised complete_run
    end_pass replay_body execute_definition execute_row execute_run dispatched_step settle_event
    settle_step settle_live_parent settle_parent fail_run insert_run choose_id start_run start_child
    uuid_text
run_facts = (refl, refl, refl, refl, refl, refl, refl)

execute_run-again_example : execute_run broken_engine 0 later ≡ (ok outcome, later)
execute_run-again_example =
    execute_run-again working_engine broken_engine 0 draft_workflow row row_after (plain (number 7))
      started finished later started-IsGapless run_facts.0 run_facts.1 run_facts.2 draft-Propagates
      run_facts.3 run_facts.4 refl run_facts.2 run_facts.5 run_facts.6

-- The started run, claimed by a worker.
abbrev claimed : World
claimed = record started { db = (claim_one (codes "ana") started.db).1 }
