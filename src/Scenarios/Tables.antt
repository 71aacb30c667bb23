-- ===== src/Scenarios/Tables.antt =====
-- The log, the projection row and the queue of the draft workflow's run.
use flow_speckit.Prelude.{
  ◌+◌, ◌≡◌, refl, ◌≢◌, false, none, some, [], ◌∷◌, arith, greatest, length, select, delete_where,
  update_where, exists_where, first_where, count_where, Text, codes, text_eq, decimal, read_decimal,
  starts_with, order_by, dict_get, dict_put, dict_pop, contains,
}
use flow_speckit.Storage.{
  find_run, update_run, set_status, delete_queue_row, upsert_task_queue, delete_timer,
  delete_run_timers, insert_timer, timer_exists, notify_run, Db, RunRow,
}
use flow_speckit.Storage.Log.{rows_of, append, list}
use flow_speckit.Storage.Recording.{event_values, apply_event_to_run_row, record_event}
use flow_speckit.Events.{project_event, project_from, project_run, WorkflowEvent, step_started}
use flow_speckit.Queue.{
  is_claimable, next_claimable, claim_one, heartbeat, releases, release, is_stale, reap_stale,
}
use flow_speckit.Engine.Start.{insert_run, choose_id, start_run, start_child}
use flow_speckit.Action.{◌>>=◌}
use flow_speckit.Workflow.Registry.{
  find, overwrite, register, get, text_lt, version_lt, highest, latest,
}
use flow_speckit.Context.Keys.{
  step_key_of, allocate, require_live, leftover, text_before, least_text, assert_replay_consistent,
}
use flow_speckit.Storage.Log.Gapless.{append_seq}
use flow_speckit.Storage.Recording.Sync.{Shows, record_event-Shows}
use flow_speckit.Queue.Claims.{
  Claimed, claim_one-Claimed, claim_all-IsDistinct, IsDistinct, claim_all,
}
use flow_speckit.Queue.Releases.{release-upsert}
use flow_speckit.Queue.Reaping.{claim-reap_stale}
use flow_speckit.Scenarios.{started, started-IsGapless}
use flow_speckit.Json.{number}
use flow_speckit.Base.{RunStatus, StepKind}

abbrev draft_started : WorkflowEvent
draft_started = step_started (record { step_key = codes "draft"; step_kind = StepKind.skill })

append_seq_example :
    (append 0 draft_started started.db).1 ≡ length (rows_of 0 started.db.workflow_events) + 1
append_seq_example = append_seq 0 draft_started started.db started-IsGapless

abbrev row : RunRow
row = record {
  run_id = 0;
  workflow_name = codes "draft";
  workflow_version = codes "1";
  status = RunStatus.pending;
  current_step = none;
  input = number 3;
  output_ref = none;
  error = none;
  parent_run_id = none;
  created_at = 5;
  updated_at = 5;
}

row_found : find_run 0 started.db ≡ some row
unfolding find_run update_run set_status delete_queue_row upsert_task_queue delete_timer
    delete_run_timers insert_timer timer_exists notify_run rows_of append list event_values
    apply_event_to_run_row record_event project_event project_from project_run dict_get dict_put
    dict_pop contains greatest order_by select delete_where update_where exists_where first_where
    count_where text_eq decimal read_decimal starts_with is_claimable next_claimable claim_one
    heartbeat releases release is_stale reap_stale insert_run choose_id start_run start_child ◌>>=◌
    find overwrite register get text_lt version_lt highest latest step_key_of allocate require_live
    leftover text_before least_text assert_replay_consistent
row_found = refl

row-Shows : Shows row (project_run 0 (list 0 started.db))
unfolding find_run update_run set_status delete_queue_row upsert_task_queue delete_timer
    delete_run_timers insert_timer timer_exists notify_run rows_of append list event_values
    apply_event_to_run_row record_event project_event project_from project_run dict_get dict_put
    dict_pop contains greatest order_by select delete_where update_where exists_where first_where
    count_where text_eq decimal read_decimal starts_with is_claimable next_claimable claim_one
    heartbeat releases release is_stale reap_stale insert_run choose_id start_run start_child ◌>>=◌
    find overwrite register get text_lt version_lt highest latest step_key_of allocate require_live
    leftover text_before least_text assert_replay_consistent
row-Shows = record { status = refl; current_step = refl; output_ref = refl; error = refl }

record_event-Shows_example :
    (r : RunRow) × (find_run 0 (record_event 0 draft_started started.db) ≡ some r)
    × Shows r (project_run 0 (list 0 (record_event 0 draft_started started.db)))
record_event-Shows_example =
    record_event-Shows 0 draft_started started.db row started-IsGapless row_found row-Shows

abbrev ana : Text
ana = codes "ana"

-- The queue after a claim by `ana`.
abbrev claimed_db : Db
claimed_db = (claim_one ana started.db).1

first_claim : (claim_one ana started.db).0 ≡ some 0
unfolding find_run update_run set_status delete_queue_row upsert_task_queue delete_timer
    delete_run_timers insert_timer timer_exists notify_run rows_of append list event_values
    apply_event_to_run_row record_event project_event project_from project_run dict_get dict_put
    dict_pop contains greatest order_by select delete_where update_where exists_where first_where
    count_where text_eq decimal read_decimal starts_with is_claimable next_claimable claim_one
    heartbeat releases release is_stale reap_stale insert_run choose_id start_run start_child ◌>>=◌
    find overwrite register get text_lt version_lt highest latest step_key_of allocate require_live
    leftover text_before least_text assert_replay_consistent
first_claim = refl

claim_one-Claimed_example : Claimed ana started.db 0 claimed_db
claim_one-Claimed_example = claim_one-Claimed ana started.db 0 first_claim

claim_all-IsDistinct_example : IsDistinct (claim_all (ana ∷ codes "ben" ∷ []) started.db)
claim_all-IsDistinct_example = claim_all-IsDistinct (ana ∷ codes "ben" ∷ []) started.db

release-upsert_example :
    release 0 (some ana) (upsert_task_queue 0 claimed_db) ≡ (false, upsert_task_queue 0 claimed_db)
release-upsert_example = release-upsert 0 ana claimed_db

-- Much later, with no heartbeat since the claim.
abbrev silent_db : Db
silent_db = record claimed_db { clock = 500 }

one_reaped : (reap_stale 60 silent_db).0 ≢ 0
unfolding find_run update_run set_status delete_queue_row upsert_task_queue delete_timer
    delete_run_timers insert_timer timer_exists notify_run rows_of append list event_values
    apply_event_to_run_row record_event project_event project_from project_run dict_get dict_put
    dict_pop contains greatest order_by select delete_where update_where exists_where first_where
    count_where text_eq decimal read_decimal starts_with is_claimable next_claimable claim_one
    heartbeat releases release is_stale reap_stale insert_run choose_id start_run start_child ◌>>=◌
    find overwrite register get text_lt version_lt highest latest step_key_of allocate require_live
    leftover text_before least_text assert_replay_consistent
one_reaped e = omega (arith, e)

claim-reap_stale_example : (claim_one (codes "ben") (reap_stale 60 silent_db).1).0 ≢ none
claim-reap_stale_example = claim-reap_stale 60 (codes "ben") silent_db one_reaped
