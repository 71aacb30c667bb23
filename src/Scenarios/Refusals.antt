-- ===== src/Scenarios/Refusals.antt =====
-- A gate on an artifact that is a draft still.
use flow_speckit.Prelude.{
  ◌≡◌, refl, true, none, [], ◌∷◌, greatest, select, delete_where, update_where, exists_where,
  first_where, count_where, codes, text_eq, decimal, read_decimal, starts_with, order_by, dict_get,
  dict_put, dict_pop, contains,
}
use flow_speckit.Action.{◌>>=◌}
use flow_speckit.Context.{memo_event, failed_event, opened_event, resolved_event, fill, new_context}
use flow_speckit.Events.{project_event, project_from, project_run}
use flow_speckit.Storage.{
  find_run, update_run, set_status, delete_queue_row, upsert_task_queue, delete_timer,
  delete_run_timers, insert_timer, timer_exists, notify_run, Db,
}
use flow_speckit.Storage.Log.{rows_of, append, list}
use flow_speckit.Storage.Recording.{event_values, apply_event_to_run_row, record_event}
use flow_speckit.Workflow.{delay, decision_from_event}
use flow_speckit.Engine.Start.{insert_run, choose_id, start_run, start_child}
use flow_speckit.Gates.{
  open_event, open_gate, mirror_artifact_status, wake_resolved, resolve_gate, timed_out,
  fail_timed_out, handle_gate_timeout,
}
use flow_speckit.Artifacts.Store.{
  is_allowed, newest, latest_row, next_version, find_artifact, get_row, resolve, versions, add_edge,
  set_status_raw, insert_artifact, supersede, add_parents, are_artifacts, mint, duplicate, create,
  write_status, set_artifact_status,
}
use flow_speckit.Artifacts.Refs.{row_to_ref, address, rpartition_at, parse_ref}
use flow_speckit.Workflow.Registry.{
  find, overwrite, register, get, text_lt, version_lt, highest, latest,
}
use flow_speckit.Gates.Refusal.{resolve_gate-refused}
use flow_speckit.Scenarios.Wakes.{spec, gated}
use flow_speckit.Errors.{raised, invalid_status_transition}
use flow_speckit.Base.{Status, DecisionLiteral}

abbrev drafted : Db
drafted = record gated { artifacts = record spec { status = Status.draft } ∷ [] }

abbrev after : Db
after = (resolve_gate true 0 (codes "review") DecisionLiteral.approved (codes "ana") none drafted).1

draft_refused :
    resolve_gate true 0 (codes "review") DecisionLiteral.approved (codes "ana") none drafted
    ≡ (raised (invalid_status_transition Status.draft Status.approved), after)
unfolding ◌>>=◌ memo_event failed_event opened_event resolved_event fill new_context project_event
    project_from project_run find_run update_run set_status delete_queue_row upsert_task_queue
    delete_timer delete_run_timers insert_timer timer_exists notify_run rows_of append list
    event_values apply_event_to_run_row record_event delay decision_from_event dict_get dict_put
    dict_pop contains greatest order_by select delete_where update_where exists_where first_where
    count_where text_eq decimal read_decimal starts_with insert_run choose_id start_run start_child
    open_event open_gate mirror_artifact_status wake_resolved resolve_gate timed_out fail_timed_out
    handle_gate_timeout is_allowed newest latest_row next_version find_artifact get_row resolve
    versions add_edge set_status_raw insert_artifact supersede add_parents are_artifacts mint
    duplicate create write_status set_artifact_status row_to_ref address rpartition_at parse_ref
    find overwrite register get text_lt version_lt highest latest
draft_refused = refl

resolve_gate-refused_example : list 0 after ≡ list 0 drafted
resolve_gate-refused_example =
    resolve_gate-refused true 0 0 (codes "review") DecisionLiteral.approved (codes "ana") none
      drafted after (invalid_status_transition Status.draft Status.approved) draft_refused
