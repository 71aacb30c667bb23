-- ===== src/Workflow.antt =====
-- What a workflow body is made of: the calls that `WorkflowContext` (workflows/context.py) offers
-- it, and the definition that `@workflow` registers (workflows/dsl.py).
pub mod Registry
use flow_speckit.Prelude.{ℕ, ◌-◌, ◌*◌, ◌^◌, Bool, true, Option, none, some, List, Text}
use flow_speckit.Json.{Json, null, text, number, object, end, field}
use flow_speckit.Base.{Uuid, Instant, DecisionLiteral, OnTimeout}
use flow_speckit.Errors.{Exception}
use flow_speckit.Events.{GateResolved}

-- The factor is a whole number here; the source's default is 2.0.
pub record RetryPolicy : Type 0 where
  pub max_attempts : ℕ
  pub backoff_base : ℕ
  pub backoff_factor : ℕ
  pub retry_on : Exception → Bool

-- Ten seconds, in ticks of a second.
abbrev pub default_policy : RetryPolicy
default_policy = record {
  max_attempts = 3;
  backoff_base = 10;
  backoff_factor = 2;
  retry_on = λ _. true;
}

abbrev pub no_retry : RetryPolicy
no_retry = record default_policy { max_attempts = 1 }

-- `RetryPolicy.delay`; attempts count from 1.
unfoldable pub delay : RetryPolicy → ℕ → ℕ
delay policy attempt = policy.backoff_base * policy.backoff_factor ^ (attempt - 1)

-- `GateDecision` of workflows/gates.py.
pub record GateDecision : Type 0 where
  pub decision : DecisionLiteral
  pub actor : Text
  pub comment : Option Text
  pub resolved_at : Option Instant

unfoldable pub decision_from_event : GateResolved → GateDecision
decision_from_event e = record {
  decision = e.decision;
  actor = e.actor;
  comment = e.comment;
  resolved_at = e.resolved_at;
}

-- The intrinsics `ctx.now`, `ctx.random` and `ctx.uuid`.
pub data Intrinsic : Type 0 where
  now random uuid : Intrinsic

-- One awaited call of a `ctx` step method, with its arguments. Of a gate's `artifact` the model
-- keeps what `_artifact_id` finds in it: a UUID, or nothing.
pub data Call : Type 0 where
  run_skill : (label : Text) (input : Json) (retry : Option RetryPolicy) (timeout : Option ℕ) → Call
  execute :
      (label : Text) (plan : Json) (backend : Text) (constraints : Json)
      (retry : Option RetryPolicy)
      → Call
  open_pr : (label : Text) (change review : Json) (retry : Option RetryPolicy) → Call
  gate :
      (label : Text) (artifact : Option Uuid) (approvers : List Text) (timeout : Option ℕ)
      (on_timeout : OnTimeout) (escalate_to : Option (List Text))
      → Call
  sleep : (label : Text) (duration : ℕ) → Call
  child_workflow : (label name : Text) (input : Json) (version : Option Text) → Call
  intrinsic : Intrinsic → Call

-- What an awaited call gives to the body: the step's result, a gate's decision, or an exception
-- that the body may catch.
pub data Reply : Type 0 where
  value : Json → Reply
  decided : GateDecision → Reply
  failure : Exception → Reply

-- The value that a body returns: an artifact's id, or anything else.
pub data Output : Type 0 where
  artifact_id : Uuid → Output
  plain : Json → Output

-- `output if isinstance(output, UUID) else None`.
abbrev pub output_ref : Output → Option Uuid
output_ref (artifact_id u) = some u
output_ref (plain _) = none

-- A workflow body: it awaits a call and goes on with the reply, returns, or raises. Between two
-- calls it is a function of the replies, which is what the engine asks of it.
pub data Body : Type 0 where
  returns : Output → Body
  raises : Exception → Body
  await : Call → (Reply → Body) → Body

-- `fn_id` stands for the identity of the function object.
pub record WorkflowDefinition : Type 0 where
  pub name : Text
  pub version : Text
  pub source_package : Text
  pub fn_id : ℕ
  pub fn : Json → Body
