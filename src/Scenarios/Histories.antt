-- ===== src/Scenarios/Histories.antt =====
-- A run that sleeps, from the empty database on, and what lasts of it.
use flow_speckit.Queue.{reap_stale}
use flow_speckit.Storage.Writes.Growing.{Extends, Writes-IsGapless}
use flow_speckit.Prelude.{
  ◌+◌, ◌≡◌, refl, true, false, none, some, [], ◌∷◌, greatest, All, select, delete_where,
  update_where, exists_where, first_where, count_where, codes, text_eq, decimal, read_decimal,
  starts_with, order_by, dict_get, dict_put, dict_pop, contains,
}
use flow_speckit.Action.{◌>>=◌}
use flow_speckit.Context.{
  memo_event, failed_event, opened_event, resolved_event, fill, new_context, Env,
}
use flow_speckit.Context.Keys.{
  step_key_of, allocate, require_live, leftover, text_before, least_text, assert_replay_consistent,
}
use flow_speckit.Context.Steps.{
  append_event, has_cancelled, raise_if_cancelled, add_timer, memoize, fault_at, run_effect,
  complete_step, park_for_retry, retry_or_raise, after_reply, begin_attempt, attempt_loop,
  checkpointed, dispatch, memo_or, run_handler_step, run_intrinsic, is_run_cancelled,
}
use flow_speckit.Context.Waits.{
  artifact_id_of, remember_opened, remember_resolved, open_gate, await_gate, find_or_open, run_gate,
  start_sleep, run_sleep,
}
use flow_speckit.Context.Run.{allocate_key, perform_at, perform, run_body}
use flow_speckit.Events.{project_event, project_from, project_run}
use flow_speckit.Storage.{
  find_run, update_run, set_status, delete_queue_row, upsert_task_queue, delete_timer,
  delete_run_timers, insert_timer, timer_exists, notify_run, Db, empty_db, RunRow,
}
use flow_speckit.Storage.Log.{rows_of, append, list}
use flow_speckit.Storage.Recording.{event_values, apply_event_to_run_row, record_event}
use flow_speckit.Workflow.Registry.{
  find, overwrite, register, get, text_lt, version_lt, highest, latest,
}
use flow_speckit.Engine.Start.{insert_run, choose_id, start_run, start_child}
use flow_speckit.Engine.Execute.{
  last_where, is_woken, requeue, reconcile_wake, reconcile_suspend, park, end_raised, complete_run,
  end_pass, replay_body, execute_definition, execute_row, execute_run, World, RunOutcome,
  fresh_pass, completes,
}
use flow_speckit.Engine.Settle.{
  dispatched_step, settle_event, settle_step, settle_live_parent, settle_parent_row,
  settle_child_row, settle_parent, fail_run,
}
use flow_speckit.Timers.{
  complete_sleep, fire_sleep, fire_retry, fire_timer, fire_each, due_timers, fire_due_timers,
}
use flow_speckit.UuidText.{uuid_text}
use flow_speckit.Workflow.{
  delay, decision_from_event, WorkflowDefinition, Body, await, returns, plain, Reply,
}
use flow_speckit.Storage.Writes.Arming.{has_timer}
use flow_speckit.Json.{Json, number, null}
use flow_speckit.Gates.{
  open_event, mirror_artifact_status, wake_resolved, resolve_gate, timed_out, fail_timed_out,
  handle_gate_timeout,
}
use flow_speckit.History.Steps.{Reach, next, here, waited, started, executed, ticked}
use flow_speckit.Storage.Log.Gapless.{IsGapless}
use flow_speckit.Scenarios.{working_engine, draft_workflow, sleep, broken_engine}
use flow_speckit.History.Lasting.{
  Reach-IsGapless, cancelled_for_good, settled_for_good, Reach-Extends,
}
use flow_speckit.Timers.Draining.{fire_due_timers-gone}
use flow_speckit.Engine.Cancel.{cancel_run}
use flow_speckit.Worker.{tick}
use flow_speckit.Base.{RunStatus}
use flow_speckit.Errors.{ok}
use flow_speckit.History.Waking.{fire_due_timers-Logs}
use flow_speckit.History.Executing.{cancel_run-Logs, execute_run-Writes}

abbrev nap_body : Json → Body
nap_body input = await (sleep (codes "nap") 3) (λ _. returns (plain null))

abbrev nap_workflow : WorkflowDefinition
nap_workflow = record draft_workflow { name = codes "nap"; fn = nap_body }

abbrev nap_engine : Env
nap_engine = record working_engine { workflows = nap_workflow ∷ [] }

abbrev nap_started : Db
nap_started =
    (start_run (nap_workflow ∷ []) true (codes "nap") (codes "1") (number 3) (codes "ana") none none
      (record empty_db { clock = 5 })).1

-- The run is parked until its timer is due.
abbrev napping : World
napping = (execute_run nap_engine 0 (record { db = nap_started; effects = 0 })).1

abbrev due : Db
due = record napping.db { clock = napping.db.clock + 10 }

due-Reach : Reach empty_db due
due-Reach =
    next
      (next
        (next (next here (waited 5 refl)) (
          started (nap_workflow ∷ []) true (codes "nap") (codes "1") (number 3) (codes "ana") none
            none refl))
        (executed nap_engine 0 0 refl))
      (waited 10 refl)

Reach-IsGapless_example : IsGapless due
Reach-IsGapless_example = Reach-IsGapless due-Reach

abbrev fired : Db
fired = (fire_due_timers nap_engine.child_run_id true due).1

due_fires : fire_due_timers nap_engine.child_run_id true due ≡ (ok 1, fired)
unfolding ◌>>=◌ memo_event failed_event opened_event resolved_event fill new_context step_key_of
    allocate require_live leftover text_before least_text assert_replay_consistent append_event
    has_cancelled raise_if_cancelled add_timer memoize fault_at run_effect complete_step
    park_for_retry retry_or_raise after_reply begin_attempt attempt_loop checkpointed dispatch
    memo_or run_handler_step run_intrinsic artifact_id_of remember_opened remember_resolved
    open_gate await_gate find_or_open run_gate start_sleep run_sleep allocate_key perform_at perform
    run_body project_event project_from project_run find_run update_run set_status delete_queue_row
    upsert_task_queue delete_timer delete_run_timers insert_timer timer_exists notify_run rows_of
    append list event_values apply_event_to_run_row record_event dict_get dict_put dict_pop contains
    greatest order_by select delete_where update_where exists_where first_where count_where text_eq
    decimal read_decimal starts_with find overwrite register get text_lt version_lt highest latest
    insert_run choose_id start_run start_child last_where is_woken requeue reconcile_wake
    reconcile_suspend park end_raised complete_run end_pass replay_body execute_definition
    execute_row execute_run dispatched_step settle_event settle_step settle_live_parent
    settle_parent_row settle_child_row settle_parent fail_run open_event mirror_artifact_status
    wake_resolved resolve_gate timed_out fail_timed_out handle_gate_timeout complete_sleep
    fire_sleep fire_retry fire_timer fire_each due_timers fire_due_timers uuid_text delay
    decision_from_event
due_fires = refl

fire_due_timers-gone_example : All (λ t. has_timer t.timer_id fired ≡ false) (due_timers due)
fire_due_timers-gone_example =
    fire_due_timers-gone nap_engine.child_run_id true due fired due-Reach due_fires

nap_started-IsGapless : IsGapless nap_started
nap_started-IsGapless = Reach-IsGapless (
    next (next here (waited 5 refl)) (
      started (nap_workflow ∷ []) true (codes "nap") (codes "1") (number 3) (codes "ana") none none
        refl))

fired-IsGapless : IsGapless fired
fired-IsGapless =
    Writes-IsGapless (fire_due_timers-Logs nap_engine.child_run_id true due)
      (Reach-IsGapless due-Reach)

Reach-Extends_example : Extends (list 0 nap_started) (list 0 napping.db)
Reach-Extends_example =
    Reach-Extends 0 nap_started-IsGapless (next here (executed nap_engine 0 0 refl))

-- A process with other handlers, at a later time.
abbrev rested : World
rested = record { db = record fired { clock = fired.clock + 89 }; effects = 7 }

abbrev stopped : Db
stopped = (cancel_run nap_engine.child_run_id true 0 (codes "ana") (codes "no") napping.db).1

stopped-IsGapless : IsGapless stopped
stopped-IsGapless =
    Writes-IsGapless
      (cancel_run-Logs nap_engine.child_run_id true 0 (codes "ana") (codes "no") napping.db)
      (Writes-IsGapless (execute_run-Writes nap_engine 0 (record { db = nap_started; effects = 0 }))
        nap_started-IsGapless)

abbrev stopped_later : World
stopped_later = record {
  db =
      (tick nap_engine.child_run_id true 60 true (record stopped { clock = stopped.clock + 94 })).1;
  effects = 7;
}

abbrev stopped_row : RunRow
stopped_row = record {
  run_id = 0;
  workflow_name = codes "nap";
  workflow_version = codes "1";
  status = RunStatus.cancelled;
  current_step = some (codes "nap");
  input = number 3;
  output_ref = none;
  error = none;
  parent_run_id = none;
  created_at = 5;
  updated_at = 5;
}

later_facts :
    (exists_where (completes (codes "nap")) (list 0 fired) ≡ true)
    × (exists_where is_run_cancelled (list 0 stopped) ≡ true)
    × (find_run 0 stopped_later.db ≡ some stopped_row)
unfolding ◌>>=◌ memo_event failed_event opened_event resolved_event fill new_context step_key_of
    allocate require_live leftover text_before least_text assert_replay_consistent append_event
    has_cancelled raise_if_cancelled add_timer memoize fault_at run_effect complete_step
    park_for_retry retry_or_raise after_reply begin_attempt attempt_loop checkpointed dispatch
    memo_or run_handler_step run_intrinsic artifact_id_of remember_opened remember_resolved
    open_gate await_gate find_or_open run_gate start_sleep run_sleep allocate_key perform_at perform
    run_body project_event project_from project_run find_run update_run set_status delete_queue_row
    upsert_task_queue delete_timer delete_run_timers insert_timer timer_exists notify_run rows_of
    append list event_values apply_event_to_run_row record_event dict_get dict_put dict_pop contains
    greatest order_by select delete_where update_where exists_where first_where count_where text_eq
    decimal read_decimal starts_with find overwrite register get text_lt version_lt highest latest
    insert_run choose_id start_run start_child last_where is_woken requeue reconcile_wake
    reconcile_suspend park end_raised complete_run end_pass replay_body execute_definition
    execute_row execute_run dispatched_step settle_event settle_step settle_live_parent
    settle_parent_row settle_child_row settle_parent fail_run open_event mirror_artifact_status
    wake_resolved resolve_gate timed_out fail_timed_out handle_gate_timeout complete_sleep
    fire_sleep fire_retry fire_timer fire_each due_timers fire_due_timers uuid_text delay
    decision_from_event cancel_run tick reap_stale
later_facts = (refl, refl, refl)

settled_for_good_example :
    (r : Reply) × (perform_at broken_engine
        (codes "nap")
        (sleep (codes "nap") 3)
        (fresh_pass 0 rested)
      ≡ (ok r, fresh_pass 0 rested))
settled_for_good_example =
    settled_for_good broken_engine 0 (codes "nap") (sleep (codes "nap") 3) rested fired-IsGapless
      later_facts.0 (next here (waited 89 refl))

cancelled_for_good_example :
    (o : RunOutcome) × (execute_run broken_engine 0 stopped_later ≡ (ok o, stopped_later))
    × (o.status ≡ RunStatus.cancelled)
cancelled_for_good_example =
    cancelled_for_good broken_engine 0 stopped_later stopped_row stopped-IsGapless later_facts.1
      (next (next here (waited 94 refl)) (ticked nap_engine.child_run_id true 60 true refl))
      later_facts.2
