-- ===== src/Context/Steps.antt =====
-- The checkpoint protocol and the handler-dispatched steps of workflows/context.py.
pub mod Rounds
use flow_speckit.Prelude.{
  ℕ, zero, suc, ◌+◌, Bool, true, false, ◌&&◌, Option, none, some, ltb, ◌==◌, if◌then◌else◌,
  exists_where, Text, dict_get, dict_put,
}
use flow_speckit.Json.{Json}
use flow_speckit.Base.{Uuid, Instant, HandlerKind, StepKind, RunStatus, TimerKind}
use flow_speckit.Errors.{Exception, on_retry, ok, cancelled_run, crashed, step_kind_unavailable}
use flow_speckit.Events.{WorkflowEvent, step_started, step_completed, step_failed, run_cancelled}
use flow_speckit.Storage.{Db, insert_timer}
use flow_speckit.Storage.Recording.{record_event}
use flow_speckit.Workflow.{RetryPolicy, default_policy, no_retry, delay, Intrinsic}
use flow_speckit.Action.{Action, pure, raise, suspend, crash, ◌>>=◌, ◌>>◌}
use flow_speckit.Context.{
  StepInvocation, StepResult, HandlerReply, returned, threw, died, Checkpoint, after_side_effect,
  before_checkpoint_commit, after_checkpoint, Env, Pass, count_of,
}
use flow_speckit.Context.Keys.{require_live}

-- `_append`: the event and the projection row.
unfoldable pub append_event : WorkflowEvent → Action Pass (Unit {0})
append_event event s = (ok tt, record s { db = record_event s.ctx.run_id event s.db })

abbrev pub is_run_cancelled : WorkflowEvent → Bool
is_run_cancelled (run_cancelled _) = true
is_run_cancelled _ = false

-- The log has a `run_cancelled` of this run.
unfoldable pub has_cancelled : Uuid → Db → Bool
has_cancelled run_id db =
    exists_where (λ r. (r.run_id == run_id) && is_run_cancelled r.event) db.workflow_events

unfoldable pub raise_if_cancelled : Text → Action Pass (Unit {0})
raise_if_cancelled key s =
    if has_cancelled s.ctx.run_id s.db then (cancelled_run key, s) else (ok tt, s)

-- `_insert_timer`.
unfoldable pub add_timer : TimerKind → Text → Instant → Action Pass (Unit {0})
add_timer kind key fire_at s =
    (ok tt, record s { db = insert_timer s.ctx.run_id kind key fire_at s.db })

-- `self._memoized[step_key] = result`.
unfoldable pub memoize : Text → Json → Action Pass (Unit {0})
memoize key result s =
    (ok tt, record s { ctx = record s.ctx { memoized = dict_put key result s.ctx.memoized } })

module _ (env : Env) where
  -- `_fault`: the hook may kill the process at a checkpoint.
  unfoldable pub fault_at : Checkpoint → Text → Action Pass (Unit {0})
  fault_at point key s = if env.fault s.effects point key then (crashed, s) else (ok tt, s)

  -- One side effect: the process counts it and goes on with its reply.
  unfoldable pub run_effect : (ℕ → HandlerReply) → Action Pass HandlerReply
  run_effect effect s = (ok (effect s.effects), record s { effects = s.effects + 1 })

  -- The end of an attempt that returned: `step_completed` and the memo.
  unfoldable pub complete_step : Text → StepResult → Action Pass Json
  complete_step key r s =
      (do
        fault_at after_side_effect key
        fault_at before_checkpoint_commit key
        append_event (
            step_completed (record {
              step_key = key;
              result = r.result;
              cost = r.cost;
              duration_ms = env.duration_ms s.effects;
            }))
        fault_at after_checkpoint key
        memoize key r.result
        pure r.result)
        s

  -- The durable backoff: the retry's timer, and the signal that parks the run.
  unfoldable pub park_for_retry : Text → RetryPolicy → ℕ → Action Pass Json
  park_for_retry key policy attempt s =
      (do
        add_timer TimerKind.retry key (s.db.clock + delay policy attempt)
        suspend (record { step_key = key; run_status = RunStatus.waiting_timer; kind = on_retry }))
        s

  unfoldable pub retry_or_raise :
      Text → RetryPolicy → ℕ → Exception → Bool → Action Pass Json → Action Pass Json
  retry_or_raise key policy attempt e will_retry again =
      if will_retry
      then (if env.durable_backoff then park_for_retry key policy attempt else again)
      else raise e

  -- What follows the side effect; `again` is the next round of the loop.
  unfoldable pub after_reply :
      Text → RetryPolicy → ℕ → HandlerReply → Action Pass Json → Action Pass Json
  unfolding complete_step retry_or_raise
  after_reply key policy attempt (returned r) again = complete_step key r
  after_reply key policy attempt (threw e) again = do
    let will_retry = ltb attempt policy.max_attempts && policy.retry_on e
    append_event (
        step_failed
          (record { step_key = key; error = e; attempt = attempt; will_retry = will_retry }))
    retry_or_raise key policy attempt e will_retry again
  after_reply key policy attempt died again = crash

  -- The beginning of a round of the loop, up to the side effect's reply.
  unfoldable pub begin_attempt : Text → StepKind → (ℕ → HandlerReply) → Action Pass HandlerReply
  begin_attempt key kind effect = do
    raise_if_cancelled key
    append_event (step_started (record { step_key = key; step_kind = kind }))
    run_effect effect

  -- The loop of `_checkpointed`, for at most `rounds` more rounds after this one.
  unfoldable pub attempt_loop :
      ℕ → Text → StepKind → (ℕ → ℕ → HandlerReply) → RetryPolicy → ℕ → Action Pass Json
  unfolding begin_attempt after_reply
  attempt_loop zero key kind effect policy attempt = do
    reply ← begin_attempt key kind (λ n. effect n attempt)
    after_reply key policy attempt reply crash
  attempt_loop (suc rounds) key kind effect policy attempt = do
    reply ← begin_attempt key kind (λ n. effect n attempt)
    after_reply key policy attempt reply (attempt_loop rounds key kind effect policy (attempt + 1))

  -- `_checkpointed`. A retry needs `attempt < max_attempts`, so `max_attempts` rounds are enough.
  unfoldable pub checkpointed :
      Text → StepKind → (ℕ → ℕ → HandlerReply) → RetryPolicy → Action Pass Json
  checkpointed key kind effect policy s =
      attempt_loop policy.max_attempts key kind effect policy (count_of key s.ctx.failed_counts + 1)
        s

  abbrev pub policy_of : Option RetryPolicy → RetryPolicy
  policy_of none = default_policy
  policy_of (some policy) = policy

  -- The end of `_run_handler_step` once the memo missed.
  unfoldable pub dispatch :
      Option (ℕ → StepInvocation → HandlerReply)
      → Text
      → Text
      → HandlerKind
      → StepKind
      → Json
      → Option RetryPolicy
      → Action Pass Json
  unfolding checkpointed
  dispatch none key label kind event_kind payload retry s = raise (step_kind_unavailable kind) s
  dispatch (some handler) key label kind event_kind payload retry s =
      checkpointed key event_kind
        (λ n attempt. handler n (record {
          run_id = s.ctx.run_id;
          step_key = key;
          step_kind = kind;
          label = label;
          attempt = attempt;
          payload = payload;
        }))
        (policy_of retry) s

  -- `hit = self._memoized.get(step_key, _MISS)`, and the live path.
  unfoldable pub memo_or : Text → Action Pass Json → Action Pass Json
  memo_or key live s = elim (dict_get key s.ctx.memoized) [
    | some hit ↦ (ok hit, s)
    | none ↦ (do require_live key; live) s
  ]

  -- `_run_handler_step`.
  unfoldable pub run_handler_step :
      Text → Text → HandlerKind → StepKind → Json → Option RetryPolicy → Action Pass Json
  unfolding memo_or dispatch
  run_handler_step key label kind event_kind payload retry =
      memo_or key (dispatch (env.handlers kind) key label kind event_kind payload retry)

  -- `_run_intrinsic`.
  unfoldable pub run_intrinsic : Text → Intrinsic → Action Pass Json
  unfolding memo_or checkpointed
  run_intrinsic key which = memo_or key (
      checkpointed key StepKind.intrinsic
        (λ n _. returned (record { result = env.produce n which; cost = none })) no_retry)
