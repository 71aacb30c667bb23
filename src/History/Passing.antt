-- ===== src/History/Passing.antt =====
-- The steps of a pass (workflows/context.py), as writers of the event table.
use flow_speckit.Prelude.{
  ℕ, zero, suc, ◌+◌, inl, inr, Bool, true, false, Option, none, some, Bool-cases, Option-cases,
  Text, dict_get,
}
use flow_speckit.Storage.{Db}
use flow_speckit.Context.Steps.{
  add_timer, memoize, raise_if_cancelled, append_event, retry_or_raise, run_effect, dispatch,
  run_intrinsic, attempt_loop, after_reply, memo_or, begin_attempt, fault_at, run_handler_step,
  complete_step, has_cancelled, park_for_retry, checkpointed,
}
use flow_speckit.Context.Run.{allocate_key}
use flow_speckit.Context.{
  died, Pass, Env, HandlerReply, Checkpoint, StepResult, StepInvocation, returned, threw,
  after_side_effect, before_checkpoint_commit, after_checkpoint,
}
use flow_speckit.Context.Keys.{require_live}
use flow_speckit.Events.{WorkflowEvent}
use flow_speckit.Storage.Writes.{Logs, Writes-refl, >>=-Logs}
use flow_speckit.Json.{Json}
use flow_speckit.Base.{TimerKind, HandlerKind, StepKind, Instant}
use flow_speckit.Action.{Action}
use flow_speckit.Storage.Writes.Statements.{Writes-record_event, Writes-insert_timer}
use flow_speckit.Workflow.{RetryPolicy, Intrinsic, no_retry}
use flow_speckit.Errors.{Exception}

abbrev pub pass_db : Pass → Db
pass_db s = s.db

pub append_event-Logs : (e : WorkflowEvent) → Logs pass_db (append_event e)
unfolding append_event
append_event-Logs e s = Writes-record_event s.ctx.run_id e s.db

pub raise_if_cancelled-Logs : (key : Text) → Logs pass_db (raise_if_cancelled key)
unfolding raise_if_cancelled
raise_if_cancelled-Logs key s = elim (Bool-cases (has_cancelled s.ctx.run_id s.db)) [
  | inl over ↦ rw over (Writes-refl s.db)
  | inr live ↦ rw live (Writes-refl s.db)
]

pub require_live-Logs : (key : Text) → Logs pass_db (require_live key)
unfolding require_live
require_live-Logs key s = elim (Bool-cases s.ctx.sealed) [
  | inl over ↦ rw over (Writes-refl s.db)
  | inr live ↦ rw live (Writes-refl s.db)
]

pub add_timer-Logs :
    (kind : TimerKind) (key : Text) (fire_at : Instant) → Logs pass_db (add_timer kind key fire_at)
unfolding add_timer
add_timer-Logs kind key fire_at s = Writes-insert_timer s.ctx.run_id kind key fire_at s.db

pub memoize-Logs : (key : Text) (result : Json) → Logs pass_db (memoize key result)
unfolding memoize
memoize-Logs key result s = Writes-refl s.db

pub allocate_key-Logs : (label : Text) → Logs pass_db (allocate_key label)
unfolding allocate_key
allocate_key-Logs label s = Writes-refl s.db

module _ (env : Env) where
  fault_at-Logs : (point : Checkpoint) (key : Text) → Logs pass_db (fault_at env point key)
  unfolding fault_at
  fault_at-Logs point key s = elim (Bool-cases (env.fault s.effects point key)) [
    | inl dead ↦ rw dead (Writes-refl s.db)
    | inr alive ↦ rw alive (Writes-refl s.db)
  ]

  run_effect-Logs : (effect : ℕ → HandlerReply) → Logs pass_db (run_effect env effect)
  unfolding run_effect
  run_effect-Logs effect s = Writes-refl s.db

  complete_step-Logs : (key : Text) (r : StepResult) → Logs pass_db (complete_step env key r)
  unfolding complete_step
  complete_step-Logs key r s =
      >>=-Logs pass_db _ _ (fault_at-Logs after_side_effect key)
        (λ _. >>=-Logs pass_db _ _ (fault_at-Logs before_checkpoint_commit key) (λ _.
          >>=-Logs pass_db _ _ (append_event-Logs _) (λ _.
            >>=-Logs pass_db _ _ (fault_at-Logs after_checkpoint key)
              (λ _. >>=-Logs pass_db _ _ (memoize-Logs key r.result) (λ _ s. Writes-refl s.db)))))
        s

  retry_or_raise-Logs :
      (key : Text) (policy : RetryPolicy) (attempt : ℕ) (e : Exception) (will_retry : Bool)
      (again : Action Pass Json)
      → Logs pass_db again
      → Logs pass_db (retry_or_raise env key policy attempt e will_retry again)
  unfolding retry_or_raise park_for_retry
  retry_or_raise-Logs key policy attempt e false again h s = Writes-refl s.db
  retry_or_raise-Logs key policy attempt e true again h s = elim (Bool-cases env.durable_backoff) [
    | inl durable ↦
        rw durable
          (>>=-Logs pass_db _ _ (add_timer-Logs TimerKind.retry key _) (λ _ s. Writes-refl s.db) s)
    | inr at_once ↦ rw at_once (h s)
  ]

  after_reply-Logs :
      (key : Text) (policy : RetryPolicy) (attempt : ℕ) (reply : HandlerReply)
      (again : Action Pass Json)
      → Logs pass_db again
      → Logs pass_db (after_reply env key policy attempt reply again)
  unfolding after_reply
  after_reply-Logs key policy attempt (returned r) again h s = complete_step-Logs key r s
  after_reply-Logs key policy attempt (threw e) again h s =
      >>=-Logs pass_db _ _ (append_event-Logs _)
        (λ _. retry_or_raise-Logs key policy attempt e _ again h) s
  after_reply-Logs key policy attempt died again h s = Writes-refl s.db

  begin_attempt-Logs :
      (key : Text) (kind : StepKind) (effect : ℕ → HandlerReply)
      → Logs pass_db (begin_attempt env key kind effect)
  unfolding begin_attempt
  begin_attempt-Logs key kind effect =
      >>=-Logs pass_db _ _ (raise_if_cancelled-Logs key)
        (λ _. >>=-Logs pass_db _ _ (append_event-Logs _) (λ _. run_effect-Logs effect))

  attempt_loop-Logs :
      (rounds : ℕ) (key : Text) (kind : StepKind) (effect : ℕ → ℕ → HandlerReply)
      (policy : RetryPolicy) (attempt : ℕ)
      → Logs pass_db (attempt_loop env rounds key kind effect policy attempt)
  unfolding attempt_loop
  attempt_loop-Logs zero key kind effect policy attempt =
      >>=-Logs pass_db _ _ (begin_attempt-Logs key kind _)
        (λ reply. after_reply-Logs key policy attempt reply _ (λ s. Writes-refl s.db))
  attempt_loop-Logs (suc rounds) key kind effect policy attempt =
      >>=-Logs pass_db _ _ (begin_attempt-Logs key kind _) (λ reply.
        after_reply-Logs key policy attempt reply _
          (attempt_loop-Logs rounds key kind effect policy (attempt + 1)))

  pub memo_or-Logs :
      (key : Text) (live : Action Pass Json)
      → Logs pass_db live
      → Logs pass_db (memo_or env key live)
  unfolding memo_or
  memo_or-Logs key live h s = elim (Option-cases (dict_get key s.ctx.memoized)) [
    | inl miss ↦ rw (miss, memo_or) (>>=-Logs pass_db _ _ (require_live-Logs key) (λ _. h) s)
    | inr (hit, found) ↦ rw (found, memo_or) (Writes-refl s.db)
  ]

  dispatch-Logs :
      (handler : Option (ℕ → StepInvocation → HandlerReply)) (key label : Text) (kind : HandlerKind)
      (event_kind : StepKind) (payload : Json) (retry : Option RetryPolicy)
      → Logs pass_db (dispatch env handler key label kind event_kind payload retry)
  unfolding dispatch checkpointed
  dispatch-Logs none key label kind event_kind payload retry s = Writes-refl s.db
  dispatch-Logs (some handler) key label kind event_kind payload retry s =
      attempt_loop-Logs _ key event_kind _ _ _ s

  pub run_handler_step-Logs :
      (key label : Text) (kind : HandlerKind) (event_kind : StepKind) (payload : Json)
      (retry : Option RetryPolicy)
      → Logs pass_db (run_handler_step env key label kind event_kind payload retry)
  unfolding run_handler_step
  run_handler_step-Logs key label kind event_kind payload retry =
      memo_or-Logs key _ (dispatch-Logs (env.handlers kind) key label kind event_kind payload retry)

  pub run_intrinsic-Logs :
      (key : Text) (which : Intrinsic) → Logs pass_db (run_intrinsic env key which)
  unfolding run_intrinsic checkpointed
  run_intrinsic-Logs key which =
      memo_or-Logs key _ (λ s. attempt_loop-Logs _ key StepKind.intrinsic _ no_retry _ s)
