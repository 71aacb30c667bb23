-- ===== src/Errors.antt =====
-- workflows/errors.py, and the exceptions of workflows/gates.py, artifacts/store.py and the
-- registries. An exception is its class and its arguments: the `{"type", "message"}` dict that
-- `error_payload` stores is a fixed text of these, so the model stores the exception itself.
use flow_speckit.Prelude.{ℕ, Option, List, Text}
use flow_speckit.Base.{Uuid, Instant, RunStatus, Status, HandlerKind}

-- Which of the checks of `WorkflowContext` raised `NonDeterminismError`.
pub data Detail : Type 0 where
  requested_twice : Detail
  log_complete : Detail
  never_requested : List Text → Detail

pub data Exception : Type 0 where
  -- what a handler or a workflow body raises: the type's name and the message
  other : Text → Text → Exception
  non_determinism : Text → Detail → Exception
  step_kind_unavailable : HandlerKind → Exception
  child_workflow_failed : Uuid → RunStatus → Exception → Exception
  child_run_cancelled : Uuid → Exception
  unknown_workflow : Text → Text → Exception
  gate_timed_out : Text → Text → Option Instant → Exception
  unknown_run : Uuid → Exception
  invalid_cancellation : Uuid → RunStatus → Exception
  gate_not_open : Uuid → Text → Exception
  artifact_not_found : Exception
  invalid_status_transition : Status → Status → Exception
  -- two installed packages register one key: the key, the registered and the new package
  workflow_collision : Text → Text → Text → Text → Exception
  registry_collision : Text → Text → Text → Exception
  skill_collision : Text → Text → Text → Text → Exception
  unknown_artifact_type : Text → Exception
  -- a primary key that is already there
  integrity_error : Exception
  -- the three `ValueError`s of `ArtifactStore.get`
  as_of_conflict : Exception
  unknown_skill : Text → Option Text → Exception
  -- the `KeyError`s of `resolve_tier` and of `BackendRegistry.get`
  no_model_for_tier : Text → Exception
  no_backend : Text → List Text → Exception
  -- llm/client.py: the spent and the allowed amount, of the run or of the named skill
  budget_exceeded : Option Text → ℕ → ℕ → Exception
  llm_call_failed : Exception → Exception
  output_invalid : Exception → Exception
  lite_llm_missing : Exception

-- `_SuspendRun`'s payload: why the run parks. A gate's payload has no `kind`.
pub data SuspendKind : Type 0 where
  on_child on_sleep on_retry on_gate : SuspendKind

pub record SuspendRun : Type 0 where
  pub step_key : Text
  pub run_status : RunStatus
  pub kind : SuspendKind

-- How a call of code that is not the program's own ends: with a value, an exception, or the death
-- of the process.
pub data Called (A : Type 0) : Type 0 where
  gave : A → Called A
  refused : Exception → Called A
  killed : Called A

-- How an awaited call ends: with a value, an ordinary exception, or one of the `BaseException`
-- signals that no workflow body can catch. `crashed` is a `BaseException` of the fault hook.
pub data Outcome {ℓ} (A : Type ℓ) : Type ℓ where
  ok : A → Outcome A
  raised : Exception → Outcome A
  suspended : SuspendRun → Outcome A
  cancelled_run : Text → Outcome A
  crashed : Outcome A
