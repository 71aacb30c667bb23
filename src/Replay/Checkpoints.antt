-- ===== src/Replay/Checkpoints.antt =====
-- The steps of the checkpoint protocol: which leave the memo alone, and which commit the step.
use flow_speckit.Prelude.{
  ℕ, zero, suc, ◌+◌, ◌≡◌, refl, ap, subst, Bool, true, false, arith, Text, dict_put,
}
use flow_speckit.Json.{Json}
use flow_speckit.Base.{Instant, TimerKind, StepKind}
use flow_speckit.Errors.{Exception, Outcome, ok}
use flow_speckit.Events.{WorkflowEvent, step_completed}
use flow_speckit.Storage.{insert_timer}
use flow_speckit.Storage.Log.{list}
use flow_speckit.Storage.Recording.{record_event}
use flow_speckit.Workflow.{RetryPolicy, delay}
use flow_speckit.Action.{Action, crash, ◌>>=◌}
use flow_speckit.Context.{StepResult, HandlerReply, returned, threw, died, Env, Pass, count_of}
use flow_speckit.Context.Keys.{require_live}
use flow_speckit.Context.Steps.{
  append_event, raise_if_cancelled, add_timer, memoize, fault_at, run_effect, complete_step,
  park_for_retry, retry_or_raise, after_reply, begin_attempt, attempt_loop, checkpointed,
}
use flow_speckit.Replay.Tracking.{is_plain, Tracks-plain, Tracks-completed}
use flow_speckit.Replay.Steady.{
  Never, Quiet, Committed, SameKeys-refl, Quiet-refl, Steady, Commits, Steady-bind, Commits-bind,
  Never-bind, Never-raise, Never-suspend, Never-crash, Commits-of_Never, Commits-if,
}

-- An action that ends in the state that it began in.
Quiet-same : {s t : Pass} → s ≡ t → Quiet s t
Quiet-same {s} e = subst (Quiet s) e (Quiet-refl s)

pub Steady-require_live : (key : Text) → Steady (require_live key)
unfolding require_live
Steady-require_live key = record { at = λ s t a h. Quiet-same (ground arith) }

pub Steady-raise_if_cancelled : (key : Text) → Steady (raise_if_cancelled key)
unfolding raise_if_cancelled
Steady-raise_if_cancelled key = record { at = λ s t a h. Quiet-same (ground arith) }

pub Steady-append_event : (e : WorkflowEvent) → is_plain e ≡ true → Steady (append_event e)
unfolding append_event
Steady-append_event e plain = record {
  at = λ s t a h. subst (Quiet s) (ap (λ (p : Outcome Unit × Pass). p.1) h) (record {
    keys = SameKeys-refl s.ctx;
    memoized = refl;
    resolved = refl;
    tracks = λ t. Tracks-plain s.ctx.run_id s.db t e plain;
  });
}

pub Steady-add_timer :
    (kind : TimerKind) (key : Text) (at : Instant) → Steady (add_timer kind key at)
unfolding add_timer insert_timer list
Steady-add_timer kind key at = record {
  at = λ s t a h. subst (Quiet s) (ap (λ (p : Outcome Unit × Pass). p.1) h) (record {
    keys = SameKeys-refl s.ctx;
    memoized = refl;
    resolved = refl;
    tracks = λ t. record {
      gapless = record { at_run = t.gapless.at_run };
      memoized = t.memoized;
      resolved = t.resolved;
    };
  });
}

module _ (env : Env) where
  Steady-run_effect : (effect : ℕ → HandlerReply) → Steady (run_effect env effect)
  unfolding run_effect
  Steady-run_effect effect = record {
    at = λ s t a h.
        subst (Quiet s) (ap (λ (p : Outcome HandlerReply × Pass). p.1) h) (record {
          keys = SameKeys-refl s.ctx;
          memoized = refl;
          resolved = refl;
          tracks = λ t. t;
        });
  }

  -- A completed step stands in the log and in the memo.
  complete_step_state :
      (key : Text) (r : StepResult) (s t : Pass) (a : Json)
      → complete_step env key r s ≡ (ok a, t)
      → (r.result ≡ a)
        × (record s {
          db =
              record_event s.ctx.run_id
                (step_completed (record {
                  step_key = key;
                  result = r.result;
                  cost = r.cost;
                  duration_ms = env.duration_ms s.effects;
                }))
                s.db;
          ctx = record s.ctx { memoized = dict_put key r.result s.ctx.memoized };
        }
            ≡ t)
  unfolding complete_step ◌>>=◌ fault_at append_event memoize
  complete_step_state key r s t a h = (ground arith, ground arith)

  Commits-complete_step : (key : Text) (r : StepResult) → Commits key (complete_step env key r)
  Commits-complete_step key r = record {
    at = λ s t a _ _ h.
        let (same, state) = complete_step_state key r s t a h in
        subst (λ v. Committed key v s t) same
          (subst (Committed key r.result s) state (record {
            keys = record { run_id = refl; ordinals = refl; requested = refl; sealed = refl };
            memoized = refl;
            resolved = refl;
            tracks = λ t. Tracks-completed s.ctx.run_id s.db t (record {
              step_key = key;
              result = r.result;
              cost = r.cost;
              duration_ms = env.duration_ms s.effects;
            });
          }));
  }

  Steady-begin_attempt :
      (key : Text) (kind : StepKind) (effect : ℕ → HandlerReply)
      → Steady (begin_attempt env key kind effect)
  unfolding begin_attempt
  Steady-begin_attempt key kind effect =
      search (Steady-bind, Steady-raise_if_cancelled, Steady-append_event, Steady-run_effect)

  Never-park_for_retry :
      (key : Text) (policy : RetryPolicy) (attempt : ℕ)
      → Never (park_for_retry env key policy attempt)
  unfolding park_for_retry
  Never-park_for_retry key policy attempt = record {
    at = λ s.
        (Never-bind (add_timer TimerKind.retry key (s.db.clock + delay policy attempt)) _
            (λ _. Never-suspend _)).at
          s;
  }

  Commits-retry_or_raise :
      (key : Text) (policy : RetryPolicy) (attempt : ℕ) (e : Exception) (will_retry : Bool)
      (again : Action Pass Json)
      → Commits key again
      → Commits key (retry_or_raise env key policy attempt e will_retry again)
  unfolding retry_or_raise
  Commits-retry_or_raise key policy attempt e false again h = Commits-of_Never key (Never-raise e)
  Commits-retry_or_raise key policy attempt e true again h =
      Commits-if key env.durable_backoff _ again
        (Commits-of_Never key (Never-park_for_retry key policy attempt)) h

  Commits-after_reply :
      (key : Text) (policy : RetryPolicy) (attempt : ℕ) (reply : HandlerReply)
      (again : Action Pass Json)
      → Commits key again
      → Commits key (after_reply env key policy attempt reply again)
  unfolding after_reply
  Commits-after_reply key policy attempt (returned r) again h = Commits-complete_step key r
  Commits-after_reply key policy attempt (threw e) again h =
      Commits-bind key _ _ (Steady-append_event _ refl)
        (λ _. Commits-retry_or_raise key policy attempt e _ again h)
  Commits-after_reply key policy attempt died again h = Commits-of_Never key Never-crash

  Commits-attempt_loop :
      (rounds : ℕ) (key : Text) (kind : StepKind) (effect : ℕ → ℕ → HandlerReply)
      (policy : RetryPolicy) (attempt : ℕ)
      → Commits key (attempt_loop env rounds key kind effect policy attempt)
  unfolding attempt_loop
  Commits-attempt_loop zero key kind effect policy attempt =
      Commits-bind key _ _ (Steady-begin_attempt key kind _) (λ reply.
        Commits-after_reply key policy attempt reply crash (Commits-of_Never key Never-crash))
  Commits-attempt_loop (suc rounds) key kind effect policy attempt =
      Commits-bind key _ _ (Steady-begin_attempt key kind _) (λ reply.
        Commits-after_reply key policy attempt reply _
          (Commits-attempt_loop rounds key kind effect policy (attempt + 1)))

  -- A checkpointed step that returns a value has committed it.
  pub Commits-checkpointed :
      (key : Text) (kind : StepKind) (effect : ℕ → ℕ → HandlerReply) (policy : RetryPolicy)
      → Commits key (checkpointed env key kind effect policy)
  unfolding checkpointed
  Commits-checkpointed key kind effect policy = record {
    at = λ s.
        (Commits-attempt_loop policy.max_attempts key kind effect policy
            (count_of key s.ctx.failed_counts + 1)).at
          s;
  }
