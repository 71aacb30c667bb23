-- ===== src/Events.antt =====
-- workflows/events.py: the closed set of event payloads, the run statuses and the projection
-- `project_run` folded from an event list.
pub mod Projection
use flow_speckit.Prelude.{ℕ, Bool, true, false, Option, none, some, List, [], ◌∷◌, Text}
use flow_speckit.Json.{Json}
use flow_speckit.Base.{
  Uuid, Instant, RunStatus, pending, running, waiting_gate, waiting_timer, completed, failed,
  cancelled, StepKind, DecisionLiteral, OnTimeout,
}
use flow_speckit.Errors.{Exception}

-- `usd` is carried from the handler to the log and never computed with: millionths of a dollar.
pub record StepCost : Type 0 where
  pub tokens_in : ℕ
  pub tokens_out : ℕ
  pub usd : ℕ

pub record RunStarted : Type 0 where
  pub workflow_name : Text
  pub workflow_version : Text
  pub input : Json
  pub actor : Text

pub record StepStarted : Type 0 where
  pub step_key : Text
  pub step_kind : StepKind

pub record StepCompleted : Type 0 where
  pub step_key : Text
  pub result : Json
  pub cost : Option StepCost
  pub duration_ms : ℕ

pub record StepFailed : Type 0 where
  pub step_key : Text
  pub error : Exception
  pub attempt : ℕ
  pub will_retry : Bool

pub record GateOpened : Type 0 where
  pub step_key : Text
  pub gate_key : Text
  pub artifact_id : Uuid
  pub approvers : List Text
  pub timeout_at : Option Instant
  pub timeout_s : Option ℕ
  pub on_timeout : OnTimeout
  pub escalate_to : Option (List Text)

pub record GateResolved : Type 0 where
  pub step_key : Text
  pub gate_key : Text
  pub decision : DecisionLiteral
  pub actor : Text
  pub comment : Option Text
  pub resolved_at : Option Instant

pub record RunCompleted : Type 0 where
  pub output_ref : Option Uuid

pub record RunFailed : Type 0 where
  pub error : Exception
  pub failed_step : Text

pub record RunCancelled : Type 0 where
  pub actor : Text
  pub reason : Text

pub data WorkflowEvent : Type 0 where
  run_started : RunStarted → WorkflowEvent
  step_started : StepStarted → WorkflowEvent
  step_completed : StepCompleted → WorkflowEvent
  step_failed : StepFailed → WorkflowEvent
  gate_opened : GateOpened → WorkflowEvent
  gate_resolved : GateResolved → WorkflowEvent
  run_completed : RunCompleted → WorkflowEvent
  run_failed : RunFailed → WorkflowEvent
  run_cancelled : RunCancelled → WorkflowEvent

-- The local variables of `project_run`; with the run's id they are the `RunProjection`.
pub record RunProjection : Type 0 where
  pub run_id : Uuid
  pub workflow_name : Option Text
  pub workflow_version : Option Text
  pub status : RunStatus
  pub current_step : Option Text
  pub input : Option Json
  pub output_ref : Option Uuid
  pub error : Option Exception

abbrev pub started_status : StepKind → RunStatus
started_status StepKind.sleep = waiting_timer
started_status _ = running

abbrev pub failed_status : Bool → RunStatus
failed_status true = waiting_timer
failed_status false = running

-- The body of the loop of `project_run`.
unfoldable pub project_event : RunProjection → WorkflowEvent → RunProjection
project_event p (run_started e) = record p {
  workflow_name = some e.workflow_name;
  workflow_version = some e.workflow_version;
  input = some e.input;
  status = pending;
}
project_event p (step_started e) = record p {
  current_step = some e.step_key;
  status = started_status e.step_kind;
}
project_event p (step_completed e) = record p { status = running }
project_event p (step_failed e) = record p { status = failed_status e.will_retry }
project_event p (gate_opened e) = record p { status = waiting_gate }
project_event p (gate_resolved e) = record p { status = pending }
project_event p (run_completed e) = record p { output_ref = e.output_ref; status = completed }
project_event p (run_failed e) = record p {
  error = some e.error;
  current_step = some e.failed_step;
  status = failed;
}
project_event p (run_cancelled e) = record p { status = cancelled }

abbrev pub empty_projection : Uuid → RunProjection
empty_projection run_id = record {
  run_id = run_id;
  workflow_name = none;
  workflow_version = none;
  status = pending;
  current_step = none;
  input = none;
  output_ref = none;
  error = none;
}

unfoldable pub project_from : RunProjection → List WorkflowEvent → RunProjection
project_from p [] = p
project_from p (e ∷ es) = project_from (project_event p e) es

unfoldable pub project_run : Uuid → List WorkflowEvent → RunProjection
unfolding project_from
project_run run_id events = project_from (empty_projection run_id) events
