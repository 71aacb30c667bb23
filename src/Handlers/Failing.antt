-- ===== src/Handlers/Failing.antt =====
-- What a skill that raises leaves in the run.
use flow_speckit.Prelude.{
  ℕ, zero, ◌+◌, ◌≡◌, refl, sym, ap, ◌∙◌, subst, false, Option, none, some, List, Text, dict_get,
  dict_put,
}
use flow_speckit.Base.{StepKind, HandlerKind}
use flow_speckit.Errors.{ok, Exception, refused}
use flow_speckit.Workflow.{RetryPolicy}
use flow_speckit.Context.{HandlerReply, Env, Pass, Checkpoint, StepResult, returned, StepInvocation}
use flow_speckit.Context.Steps.{
  append_event, raise_if_cancelled, has_cancelled, run_effect, begin_attempt, attempt_loop,
  after_reply, complete_step, fault_at, memoize, run_handler_step, memo_or, dispatch, checkpointed,
  policy_of,
}
use flow_speckit.Action.{◌>>=◌, Action}
use flow_speckit.Storage.Recording.{record_event}
use flow_speckit.Events.{step_completed, step_started}
use flow_speckit.Handlers.Building.{build_handler_map, Handler}
use flow_speckit.Context.Keys.{require_live}
use flow_speckit.Handlers.{Library}
use flow_speckit.Skills.Registry.{SkillRegistry, get}
use flow_speckit.Skills.{SkillDefinition, SkillContext}
use flow_speckit.Handlers.SkillStep.{skill_handler, invoke_skill, failed_result}
use flow_speckit.Handlers.ExecuteStep.{ExecuteSetup}
use flow_speckit.Handlers.OpenPrStep.{GitProvider}
use flow_speckit.Json.{Json}
use flow_speckit.Handlers.Retrying.{attempt_loop-same, IsNotRaised}

-- The step is asked for the first time, of a run that is not complete and not cancelled, by a
-- process that lives on.
abbrev pub IsLive : Env → Text → Pass → Type 0
IsLive env key s =
    (dict_get key s.ctx.memoized ≡ none)
    × (s.ctx.sealed ≡ false)
    × (has_cancelled s.ctx.run_id s.db ≡ false)
    × ((n : ℕ) (point : Checkpoint) → env.fault n point key ≡ false)

-- The pass after one attempt that returned.
abbrev pub completed_pass : Env → Text → StepKind → StepResult → Pass → Pass
completed_pass env key kind r s = record {
  db =
      record_event s.ctx.run_id
        (step_completed (record {
          step_key = key;
          result = r.result;
          cost = r.cost;
          duration_ms = env.duration_ms (s.effects + 1);
        }))
        (record_event s.ctx.run_id (step_started (record { step_key = key; step_kind = kind }))
          s.db);
  ctx = record s.ctx { memoized = dict_put key r.result s.ctx.memoized };
  effects = s.effects + 1;
}

complete_step-live :
    (env : Env) (key : Text) (r : StepResult) (s : Pass)
    → ((n : ℕ) (point : Checkpoint) → env.fault n point key ≡ false)
    → complete_step env key r s ≡ (
      ok r.result,
      record s {
        db =
            record_event s.ctx.run_id
              (step_completed (record {
                step_key = key;
                result = r.result;
                cost = r.cost;
                duration_ms = env.duration_ms s.effects;
              }))
              s.db;
        ctx = record s.ctx { memoized = dict_put key r.result s.ctx.memoized };
      },
    )
unfolding complete_step fault_at append_event memoize ◌>>=◌
complete_step-live env key r s lives = rw (lives s.effects Checkpoint.after_side_effect) (
    rw (lives s.effects Checkpoint.before_checkpoint_commit)
      (rw (lives s.effects Checkpoint.after_checkpoint) refl))

attempt_loop-live :
    (env : Env) (key : Text) (kind : StepKind) (effect : ℕ → ℕ → HandlerReply) (r : StepResult)
    (p : RetryPolicy) (attempt : ℕ) (s : Pass)
    → IsLive env key s
    → effect s.effects attempt ≡ returned r
    → attempt_loop env zero key kind effect p attempt s
      ≡ (ok r.result, completed_pass env key kind r s)
unfolding attempt_loop begin_attempt append_event raise_if_cancelled run_effect ◌>>=◌ after_reply
attempt_loop-live env key kind effect r p attempt s (_, _, live, lives) h =
    rw live (rw h (complete_step-live env key r _ lives))

skill_handler-failed :
    (lib : Library) (skills : SkillRegistry) (config : Json) (n : ℕ) (step : StepInvocation)
    (d : SkillDefinition) (e : Exception)
    → get step.label none skills ≡ ok d
    → ((args : List Json) (context : SkillContext) → d.fn n args context ≡ refused e)
    → skill_handler lib skills config n step ≡ returned (failed_result lib step.label e)
unfolding skill_handler invoke_skill
skill_handler-failed lib skills config n step d e found raises = rw found (rw (raises _ _) refl)

dispatch-live :
    (env : Env) (handler : Handler) (key label : Text) (payload : Json)
    (policy : Option RetryPolicy) (r : StepResult) (s : Pass)
    → IsLive env key s
    → ((step : StepInvocation) → step.label ≡ label → handler s.effects step ≡ returned r)
    → dispatch env (some handler) key label HandlerKind.skill StepKind.skill payload policy s
      ≡ (ok r.result, completed_pass env key StepKind.skill r s)
unfolding dispatch checkpointed
dispatch-live env handler key label payload policy r s live h =
    attempt_loop-same env _ zero key StepKind.skill _ (policy_of env policy) (policy_of env policy)
      _ s (subst IsNotRaised (sym (h _ refl)) tt)
    ∙ attempt_loop-live env key StepKind.skill _ r _ _ s live (h _ refl)

memo_or-live :
    (env : Env) (key : Text) (act : Action Pass Json) (s : Pass)
    → IsLive env key s
    → memo_or env key act s ≡ act s
unfolding memo_or require_live ◌>>=◌
memo_or-live env key act s (missed, unsealed, live, lives) = rw (missed, memo_or) (rw unsealed refl)

-- In any state of a pass, where the step is asked for the first time and the run is neither
-- complete nor cancelled nor killed: a skill step whose skill raises an exception answers, under
-- any retry policy and after one attempt, with the handler's failure as its result, which is in
-- the log as the step's completion and in the memo.
pub run_handler_step-failed_skill :
    (env : Env) (lib : Library) (skills : SkillRegistry) (config : Json)
    (setup : Option ExecuteSetup) (provider : Option GitProvider) (key label : Text)
    (payload : Json) (policy : Option RetryPolicy) (s : Pass) (d : SkillDefinition) (e : Exception)
    → ((kind : HandlerKind)
        → env.handlers kind ≡ build_handler_map lib (some skills) config setup provider kind)
    → IsLive env key s
    → get label none skills ≡ ok d
    → ((args : List Json) (context : SkillContext) → d.fn s.effects args context ≡ refused e)
    → run_handler_step env key label HandlerKind.skill StepKind.skill payload policy s ≡ (
      ok (failed_result lib label e).result,
      completed_pass env key StepKind.skill (failed_result lib label e) s,
    )
unfolding run_handler_step build_handler_map
run_handler_step-failed_skill env lib skills config setup provider key label payload policy s d e
      built live found raises =
    memo_or-live env key _ s live
    ∙ rw (built HandlerKind.skill) (
        dispatch-live env (skill_handler lib skills config) key label payload policy
          (failed_result lib label e) s live
          (λ step named.
            skill_handler-failed lib skills config s.effects step d e
              (ap (λ l. get l none skills) named ∙ found) raises
            ∙ ap (λ l. returned (failed_result lib l e)) named))
