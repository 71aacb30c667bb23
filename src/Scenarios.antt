-- ===== src/Scenarios.antt =====
-- A workflow of one skill step and a sleep, an engine that runs it and one that cannot.
pub mod Runs
pub mod Replays
pub mod Cancels
pub mod Tables
pub mod Registries
pub mod Wakes
pub mod Refusals
pub mod Histories
pub mod Prompts
pub mod Handling
pub mod Commanding
use flow_speckit.Prelude.{
  ℕ, ◌+◌, refl, inl, inr, true, false, none, some, [], ◌∷◌, ◌==◌, Bool-cases, greatest, select,
  delete_where, update_where, exists_where, first_where, count_where, codes, text_eq, decimal,
  read_decimal, starts_with, order_by, dict_get, dict_put, dict_pop, contains,
}
use flow_speckit.Json.{Json, null, number}
use flow_speckit.Base.{Uuid, HandlerKind}
use flow_speckit.Workflow.{
  Body, Call, Reply, run_skill, sleep, returns, raises, await, value, failure, decided, plain,
  WorkflowDefinition,
}
use flow_speckit.Context.{Env, StepInvocation, HandlerReply, returned}
use flow_speckit.Storage.{
  empty_db, find_run, update_run, set_status, delete_queue_row, upsert_task_queue, delete_timer,
  delete_run_timers, insert_timer, timer_exists, notify_run,
}
use flow_speckit.Engine.Execute.{World}
use flow_speckit.Action.{◌>>=◌}
use flow_speckit.Events.{project_event, project_from, project_run}
use flow_speckit.Storage.Log.{rows_of, append, list}
use flow_speckit.Storage.Recording.{event_values, apply_event_to_run_row, record_event}
use flow_speckit.Workflow.Registry.{
  find, overwrite, register, get, text_lt, version_lt, highest, latest,
}
use flow_speckit.Engine.Start.{insert_run, choose_id, start_run, start_child}
use flow_speckit.Replay.Bodies.{Propagates}
use flow_speckit.Storage.Log.Gapless.{IsGapless}

abbrev pub after_draft : Reply → Body
after_draft (value v) = returns (plain v)
after_draft (decided d) = returns (plain null)
after_draft (failure e) = raises e

abbrev pub draft_body : Json → Body
draft_body input = await (run_skill (codes "draft") input none none) after_draft

abbrev pub draft_workflow : WorkflowDefinition
draft_workflow = record {
  name = codes "draft";
  version = codes "1";
  source_package = codes "local";
  fn_id = 1;
  fn = draft_body;
}

-- The skill's result is the number of the side effect, so that a second dispatch would show.
abbrev pub number_handler : ℕ → StepInvocation → HandlerReply
number_handler n i = returned (record { result = number n; cost = none })

abbrev pub working_engine : Env
working_engine = record {
  handlers = λ k. elim k [ HandlerKind.skill ↦ some number_handler | _ ↦ none ];
  produce = λ n i. null;
  duration_ms = λ n. n;
  fault = λ n c k. false;
  child_run_id = λ parent key. parent + 100;
  durable_backoff = true;
  auto_approve = false;
  notify = true;
  workflows = draft_workflow ∷ [];
}

-- Its handlers are gone, and every checkpoint is a fault.
abbrev pub broken_engine : Env
broken_engine = record working_engine {
  handlers = λ k. none;
  fault = λ n c k. true;
  notify = false;
}

-- The run 0 of the workflow, started on an empty database at the instant 5.
abbrev pub started : World
started = record {
  db =
      (start_run (draft_workflow ∷ []) true (codes "draft") (codes "1") (number 3) (codes "ana")
        none none (record empty_db { clock = 5 })).1;
  effects = 7;
}

after_draft-Propagates : (r : Reply) → Propagates (after_draft r)
after_draft-Propagates (value v) = tt
after_draft-Propagates (decided d) = tt
after_draft-Propagates (failure e) = tt

pub draft-Propagates : Propagates (draft_body (number 3))
draft-Propagates = (λ e. refl, after_draft-Propagates)

pub started-IsGapless : IsGapless started.db
unfolding ◌>>=◌ project_event project_from project_run find_run update_run set_status
    delete_queue_row upsert_task_queue delete_timer delete_run_timers insert_timer timer_exists
    notify_run rows_of append list event_values apply_event_to_run_row record_event dict_get
    dict_put dict_pop contains greatest order_by select delete_where update_where exists_where
    first_where count_where text_eq decimal read_decimal starts_with find overwrite register get
    text_lt version_lt highest latest insert_run choose_id start_run start_child
started-IsGapless = record {
  at_run = λ run_id. elim (Bool-cases (0 == run_id)) [
    | inl same ↦ rw same (refl, tt)
    | inr differs ↦ rw differs tt
  ];
}
