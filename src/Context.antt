-- ===== src/Context.antt =====
-- The state of one replay pass: `WorkflowContext` of workflows/context.py, and what it is given.
pub mod Keys
pub mod Steps
pub mod Waits
pub mod Children
pub mod Run
pub mod Memory
use flow_speckit.Prelude.{
  ℕ, ◌+◌, Bool, Option, none, some, List, [], ◌∷◌, Text, Dict, dict_get, dict_put,
}
use flow_speckit.Json.{Json}
use flow_speckit.Base.{Uuid, Instant, HandlerKind}
use flow_speckit.Errors.{Exception}
use flow_speckit.Events.{
  StepCost, GateOpened, GateResolved, WorkflowEvent, step_completed, step_failed, gate_opened,
  gate_resolved,
}
use flow_speckit.Storage.{Db}
use flow_speckit.Workflow.{Intrinsic}
use flow_speckit.Workflow.Registry.{WorkflowRegistry}

pub record StepInvocation : Type 0 where
  pub run_id : Uuid
  pub step_key : Text
  pub step_kind : HandlerKind
  pub label : Text
  pub attempt : ℕ
  pub payload : Json

pub record StepResult : Type 0 where
  pub result : Json
  pub cost : Option StepCost

-- How a side effect ends: it returns, raises an ordinary exception, or dies with its process.
pub data HandlerReply : Type 0 where
  returned : StepResult → HandlerReply
  threw : Exception → HandlerReply
  died : HandlerReply

-- The checkpoint names of `FaultHook`.
pub data Checkpoint : Type 0 where
  after_side_effect before_checkpoint_commit after_checkpoint : Checkpoint

-- What the engine hands to a pass and the program does not decide. Handlers, intrinsics, durations
-- and the fault hook may answer differently at each side effect: they are given its number.
pub record Env : Type 0 where
  pub handlers : HandlerKind → Option (ℕ → StepInvocation → HandlerReply)
  pub produce : ℕ → Intrinsic → Json
  pub duration_ms : ℕ → ℕ
  pub fault : ℕ → Checkpoint → Text → Bool
  -- `uuid5(_CHILD_RUN_NAMESPACE, f"{parent}:{step_key}")`
  pub child_run_id : Uuid → Text → Uuid
  -- `self._backoff is None`; any other backoff retries at once
  pub durable_backoff : Bool
  pub auto_approve : Bool
  -- whether the engine was given a notifier
  pub notify : Bool
  pub workflows : WorkflowRegistry

pub record Context : Type 0 where
  pub run_id : Uuid
  pub memoized : Dict Json
  pub sealed : Bool
  pub ordinals : Dict ℕ
  pub requested : List Text
  pub last_step_key : Option Text
  pub failed_counts : Dict ℕ
  pub gates_opened : Dict GateOpened
  pub gates_resolved : Dict GateResolved

-- `effects` counts the side effects that the process has started.
pub record Pass : Type 0 where
  pub db : Db
  pub ctx : Context
  pub effects : ℕ

-- `{e.step_key: e.result for e in events if isinstance(e, StepCompleted)}`.
unfoldable pub memo_event : Dict Json → WorkflowEvent → Dict Json
memo_event d (step_completed e) = dict_put e.step_key e.result d
memo_event d _ = d

abbrev pub count_of : Text → Dict ℕ → ℕ
count_of k d = elim (dict_get k d) [ none ↦ 0 | some n ↦ n ]

unfoldable pub failed_event : Dict ℕ → WorkflowEvent → Dict ℕ
failed_event d (step_failed e) = dict_put e.step_key (count_of e.step_key d + 1) d
failed_event d _ = d

unfoldable pub opened_event : Dict GateOpened → WorkflowEvent → Dict GateOpened
opened_event d (gate_opened e) = dict_put e.step_key e d
opened_event d _ = d

unfoldable pub resolved_event : Dict GateResolved → WorkflowEvent → Dict GateResolved
resolved_event d (gate_resolved e) = dict_put e.step_key e d
resolved_event d _ = d

-- The loop over the events that fills one dict.
unfoldable pub fill {ℓ} : {D : Type ℓ} → (D → WorkflowEvent → D) → D → List WorkflowEvent → D
fill step d [] = d
fill step d (e ∷ es) = fill step (step d e) es

-- `WorkflowContext.__init__`, as `execute_run` calls it.
unfoldable pub new_context : Uuid → Bool → List WorkflowEvent → Context
unfolding fill memo_event failed_event opened_event resolved_event
new_context run_id sealed events = record {
  run_id = run_id;
  memoized = fill memo_event [] events;
  sealed = sealed;
  ordinals = [];
  requested = [];
  last_step_key = none;
  failed_counts = fill failed_event [] events;
  gates_opened = fill opened_event [] events;
  gates_resolved = fill resolved_event [] events;
}
