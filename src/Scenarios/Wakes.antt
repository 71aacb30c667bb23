-- ===== src/Scenarios/Wakes.antt =====
-- A gate that is resolved and a sleep whose timer fires.
use flow_speckit.Prelude.{
  ◌+◌, ◌≡◌, refl, true, none, some, [], ◌∷◌, greatest, select, delete_where, update_where,
  exists_where, first_where, count_where, codes, text_eq, decimal, read_decimal, starts_with,
  order_by, dict_get, dict_put, dict_pop, contains,
}
use flow_speckit.Action.{◌>>=◌}
use flow_speckit.Context.{memo_event, failed_event, opened_event, resolved_event, fill, new_context}
use flow_speckit.Events.{project_event, project_from, project_run, GateOpened, gate_opened}
use flow_speckit.Storage.{
  find_run, update_run, set_status, delete_queue_row, upsert_task_queue, delete_timer,
  delete_run_timers, insert_timer, timer_exists, notify_run, Db, ArtifactRow, TimerRow,
}
use flow_speckit.Storage.Log.{rows_of, append, list}
use flow_speckit.Storage.Recording.{event_values, apply_event_to_run_row, record_event}
use flow_speckit.Workflow.{delay, decision_from_event, GateDecision, gate, sleep, value, decided}
use flow_speckit.Engine.Start.{insert_run, choose_id, start_run, start_child}
use flow_speckit.History.Deciding.{handle_gate_timeout-late}
use flow_speckit.History.Steps.{here, next, waited}
use flow_speckit.Gates.{
  open_event, open_gate, mirror_artifact_status, wake_resolved, resolve_gate, timed_out,
  fail_timed_out, handle_gate_timeout,
}
use flow_speckit.Timers.{
  complete_sleep, fire_sleep, fire_retry, fire_timer, fire_each, due_timers, fire_due_timers,
}
use flow_speckit.Artifacts.Store.{
  is_allowed, newest, latest_row, next_version, find_artifact, get_row, resolve, versions, add_edge,
  set_status_raw, insert_artifact, supersede, add_parents, are_artifacts, mint, duplicate, create,
  write_status, set_artifact_status,
}
use flow_speckit.Artifacts.Refs.{row_to_ref, address, rpartition_at, parse_ref}
use flow_speckit.Workflow.Registry.{
  find, overwrite, register, get, text_lt, version_lt, highest, latest,
}
use flow_speckit.Errors.{SuspendKind, SuspendRun, ok}
use flow_speckit.Engine.Execute.{World, fresh_pass}
use flow_speckit.Context.Run.{perform_at}
use flow_speckit.Gates.Resolution.{resolve_gate-answers}
use flow_speckit.Timers.Sleeping.{fire_sleep-once, fire_sleep-answers}
use flow_speckit.Storage.Recording.Sync.{record_event-IsGapless}
use flow_speckit.Scenarios.{started, broken_engine, started-IsGapless, working_engine}
use flow_speckit.Json.{number, null}
use flow_speckit.Base.{DecisionLiteral, Status, TimerKind, OnTimeout, RunStatus}
use flow_speckit.Storage.Log.Gapless.{IsGapless}

-- The specification that the gate asks about.
abbrev pub spec : ArtifactRow
spec = record {
  id = 50;
  type_name = codes "generic";
  key = codes "spec";
  version = 1;
  content = number 1;
  content_hash = codes "h1";
  body_md = none;
  status = Status.proposed;
  schema_version = 1;
  created_by_run = none;
  created_by_step = none;
  created_at = 4;
}

abbrev pub review : GateOpened
review = record {
  step_key = codes "review";
  gate_key = codes "review";
  artifact_id = 50;
  approvers = codes "ana" ∷ [];
  timeout_at = none;
  timeout_s = none;
  on_timeout = OnTimeout.fail;
  escalate_to = none;
}

abbrev pub gated : Db
gated = record (record_event 0 (gate_opened review) started.db) { artifacts = spec ∷ [] }

gated-IsGapless : IsGapless gated
gated-IsGapless = record {
  at_run = (record_event-IsGapless 0 (gate_opened review) started-IsGapless).at_run;
}

abbrev approved_world : World
approved_world = record {
  db = (resolve_gate true 0 (codes "review") DecisionLiteral.approved (codes "ana") none gated).1;
  effects = 3;
}

abbrev approval : GateDecision
approval = record {
  decision = DecisionLiteral.approved;
  actor = codes "ana";
  comment = none;
  resolved_at = some 5;
}

review_resolves :
    resolve_gate true 0 (codes "review") DecisionLiteral.approved (codes "ana") none gated
    ≡ (ok approval, approved_world.db)
unfolding ◌>>=◌ memo_event failed_event opened_event resolved_event fill new_context project_event
    project_from project_run find_run update_run set_status delete_queue_row upsert_task_queue
    delete_timer delete_run_timers insert_timer timer_exists notify_run rows_of append list
    event_values apply_event_to_run_row record_event delay decision_from_event dict_get dict_put
    dict_pop contains greatest order_by select delete_where update_where exists_where first_where
    count_where text_eq decimal read_decimal starts_with insert_run choose_id start_run start_child
    open_event open_gate mirror_artifact_status wake_resolved resolve_gate timed_out fail_timed_out
    handle_gate_timeout complete_sleep fire_sleep fire_retry fire_timer fire_each due_timers
    fire_due_timers is_allowed newest latest_row next_version find_artifact get_row resolve versions
    add_edge set_status_raw insert_artifact supersede add_parents are_artifacts mint duplicate
    create write_status set_artifact_status row_to_ref address rpartition_at parse_ref find
    overwrite register get text_lt version_lt highest latest
review_resolves = refl

resolve_gate-answers_example :
    (opened : GateOpened) × (open_gate (list 0 gated) (codes "review") ≡ some opened)
    × (perform_at broken_engine opened.step_key
          (gate (codes "review") (some 50) [] none OnTimeout.fail none)
          (fresh_pass 0 approved_world)
        ≡ (ok (decided approval), fresh_pass 0 approved_world))
resolve_gate-answers_example =
    resolve_gate-answers broken_engine true 0 (codes "review") DecisionLiteral.approved
      (codes "ana") none gated approved_world approval (codes "review") (some 50) [] none
      OnTimeout.fail none gated-IsGapless review_resolves

abbrev nap : TimerRow
nap = record {
  timer_id = 8;
  run_id = 0;
  step_key = codes "nap";
  fire_at = 5;
  kind = TimerKind.sleep;
}

fire_sleep-once_example :
    list 0 (fire_sleep true nap (fire_sleep true nap started.db))
    ≡ list 0 (fire_sleep true nap started.db)
fire_sleep-once_example = fire_sleep-once true nap started.db started-IsGapless

abbrev rested : World
rested = record { db = fire_sleep true nap started.db; effects = 0 }

fire_sleep-answers_example :
    perform_at broken_engine (codes "nap") (sleep (codes "nap") 60) (fresh_pass 0 rested)
    ≡ (ok (value null), fresh_pass 0 rested)
fire_sleep-answers_example =
    fire_sleep-answers broken_engine true nap started.db rested (codes "nap") 60 started-IsGapless
      refl

-- The signal of a gate that parks run 0.
abbrev on_review : SuspendRun
on_review = record {
  step_key = codes "review";
  run_status = RunStatus.waiting_gate;
  kind = SuspendKind.on_gate;
}

-- The decided gate's timeout, a hundred ticks later.
abbrev afterwards : Db
afterwards = record approved_world.db { clock = approved_world.db.clock + 100 }

handle_gate_timeout-late_example :
    (opened : GateOpened) × (open_gate (list 0 gated) (codes "review") ≡ some opened)
    × (handle_gate_timeout working_engine.child_run_id true 0 opened.step_key afterwards
        ≡ (ok tt, afterwards))
handle_gate_timeout-late_example =
    handle_gate_timeout-late working_engine.child_run_id true true 0 (codes "review")
      DecisionLiteral.approved (codes "ana") none gated approved_world.db afterwards approval
      gated-IsGapless review_resolves (next here (waited 100 refl))
