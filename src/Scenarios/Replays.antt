-- ===== src/Scenarios/Replays.antt =====
-- The draft step's call, performed once and answered from memory.
use flow_speckit.Prelude.{
  ℕ, ◌+◌, ◌≡◌, refl, none, some, greatest, select, delete_where, update_where, exists_where,
  first_where, count_where, codes, text_eq, decimal, read_decimal, starts_with, order_by, dict_get,
  dict_put, dict_pop, contains,
}
use flow_speckit.Action.{◌>>=◌}
use flow_speckit.Context.{
  memo_event, failed_event, opened_event, resolved_event, fill, new_context, Pass, count_of, threw,
  HandlerReply,
}
use flow_speckit.Events.{project_event, project_from, project_run}
use flow_speckit.Storage.{
  find_run, update_run, set_status, delete_queue_row, upsert_task_queue, delete_timer,
  delete_run_timers, insert_timer, timer_exists, notify_run,
}
use flow_speckit.Storage.Log.{rows_of, append, list}
use flow_speckit.Storage.Recording.{event_values, apply_event_to_run_row, record_event}
use flow_speckit.Context.Keys.{
  step_key_of, allocate, require_live, leftover, text_before, least_text, assert_replay_consistent,
}
use flow_speckit.Context.Run.{allocate_key, perform_at, perform, run_body}
use flow_speckit.Context.Steps.{
  append_event, has_cancelled, raise_if_cancelled, add_timer, memoize, fault_at, run_effect,
  complete_step, park_for_retry, retry_or_raise, after_reply, begin_attempt, attempt_loop,
  checkpointed, dispatch, memo_or, run_handler_step, run_intrinsic,
}
use flow_speckit.Workflow.Registry.{
  find, overwrite, register, get, text_lt, version_lt, highest, latest,
}
use flow_speckit.Engine.Start.{insert_run, choose_id, start_run, start_child}
use flow_speckit.Engine.Execute.{fresh_pass}
use flow_speckit.Replay.Passes.{Replayed, run-replays}
use flow_speckit.Replay.Calls.{Answer, Answer-perform_at}
use flow_speckit.Replay.Completed.{Tracks-fresh_pass}
use flow_speckit.Scenarios.{
  started, working_engine, broken_engine, draft_body, draft-Propagates, started-IsGapless,
}
use flow_speckit.Context.Steps.Rounds.{attempt_loop-checkpointed}
use flow_speckit.Errors.{other, ok}
use flow_speckit.Workflow.{RetryPolicy, default_policy, Call, run_skill, plain, value}
use flow_speckit.Json.{number}
use flow_speckit.Replay.Tracking.{PassTracks}
use flow_speckit.Base.{StepKind}

abbrev draft_call : Call
draft_call = run_skill (codes "draft") (number 3) none none

abbrev first_pass : Pass
first_pass = fresh_pass 0 started

abbrev performed : Pass
performed = (perform_at working_engine (codes "draft") draft_call first_pass).1

abbrev ran : Pass
ran = (run_body working_engine (draft_body (number 3)) first_pass).1

-- The next pass, which the process begins with other side effects behind it.
abbrev next_pass : Pass
next_pass = fresh_pass 0 (record { db = performed.db; effects = 20 })

facts :
    (perform_at working_engine (codes "draft") draft_call first_pass
      ≡ (ok (value (number 7)), performed))
    × (run_body working_engine (draft_body (number 3)) first_pass ≡ (ok (plain (number 7)), ran))
    × (dict_get (codes "draft") next_pass.ctx.memoized ≡ some (number 7))
    × (ran.ctx.memoized ≡ next_pass.ctx.memoized)
    × (ran.ctx.gates_resolved ≡ next_pass.ctx.gates_resolved)
    × (next_pass.ctx.ordinals ≡ first_pass.ctx.ordinals)
    × (next_pass.ctx.requested ≡ first_pass.ctx.requested)
unfolding ◌>>=◌ memo_event failed_event opened_event resolved_event fill new_context project_event
    project_from project_run find_run update_run set_status delete_queue_row upsert_task_queue
    delete_timer delete_run_timers insert_timer timer_exists notify_run rows_of append list
    event_values apply_event_to_run_row record_event step_key_of allocate require_live leftover
    text_before least_text assert_replay_consistent allocate_key perform_at perform run_body
    append_event has_cancelled raise_if_cancelled add_timer memoize fault_at run_effect
    complete_step park_for_retry retry_or_raise after_reply begin_attempt attempt_loop checkpointed
    dispatch memo_or run_handler_step run_intrinsic find overwrite register get text_lt version_lt
    highest latest dict_get dict_put dict_pop contains greatest order_by select delete_where
    update_where exists_where first_where count_where text_eq decimal read_decimal starts_with
    insert_run choose_id start_run start_child
facts = (refl, refl, refl, refl, refl, refl, refl)

first_pass-tracks : PassTracks first_pass
first_pass-tracks = Tracks-fresh_pass 0 started started-IsGapless

Answer-perform_at_example :
    Answer (codes "draft") draft_call (value (number 7)) first_pass performed
Answer-perform_at_example =
    Answer-perform_at working_engine (codes "draft") draft_call first_pass performed
      (value (number 7)) first_pass-tracks facts.0

run-replays_example :
    Replayed
      (plain (number 7))
      ran
      next_pass
      (run_body broken_engine (draft_body (number 3)) next_pass)
run-replays_example =
    run-replays working_engine broken_engine (draft_body (number 3)) first_pass ran next_pass
      (plain (number 7)) draft-Propagates first_pass-tracks facts.1
      (record { ordinals = facts.5; requested = facts.6 })
      (record { memo = λ k v e. rw (← facts.3) e; gates = λ k v e. rw (← facts.4) e })

abbrev twice : RetryPolicy
twice = record default_policy { max_attempts = 2 }

abbrev failing : ℕ → ℕ → HandlerReply
failing n attempt = threw (other (codes "ValueError") (codes "no draft"))

attempt_loop-checkpointed_example :
    attempt_loop working_engine
      (2 + 5)
      (codes "draft")
      StepKind.skill
      failing
      twice
      (count_of (codes "draft") first_pass.ctx.failed_counts + 1)
      first_pass
    ≡ checkpointed working_engine (codes "draft") StepKind.skill failing twice first_pass
attempt_loop-checkpointed_example =
    attempt_loop-checkpointed working_engine 5 (codes "draft") StepKind.skill failing twice
      first_pass
