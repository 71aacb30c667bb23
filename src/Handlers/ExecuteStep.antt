-- ===== src/Handlers/ExecuteStep.antt =====
-- `ExecuteStepHandler` of workflows/handlers.py. Directories, the workspace manager and the
-- validation of constraints are parameters.
use flow_speckit.Prelude.{
  ℕ, String, Option, none, some, List, [], ◌∷◌, ◌++◌, map, if◌then◌else◌, Text, codes,
}
use flow_speckit.Json.{Json, null, number, object, array, text, Items, nil, cons, Fields}
use flow_speckit.Base.{Uuid}
use flow_speckit.Errors.{Exception, Outcome, ok, raised, Called, gave, refused, other, no_backend}
use flow_speckit.Context.{StepInvocation, HandlerReply, threw, died}
use flow_speckit.Execution.{
  ExecutionBackend, ExecutionConstraints, default_constraints, ExecutionTask, Workspace, CommitInfo,
  CostReport, ExecutionResult, ExecutionStatus, completed, failed, partial, BackendHealth,
}
use flow_speckit.Execution.Backends.{BackendRegistry, get_backend, discovered}
use flow_speckit.Handlers.{
  Library, fields_of, result_of, status_entry, get_field, payload_get, or_default, after_call,
  try_call,
}

-- What the handler is built with, and what it calls: `uuid_text` is `str` of a UUID, `make_directory`
-- is `tempfile.mkdtemp`.
pub record ExecuteSetup : Type 0 where
  pub local : ExecutionBackend
  pub entry_points : List (Option ExecutionBackend)
  pub backends : BackendRegistry
  pub create_workspace : Option (ℕ → Text → Text → Called Workspace)
  pub validate_constraints : Fields → Called ExecutionConstraints
  pub make_directory : ℕ → Text
  pub uuid_text : Uuid → Text

-- `self._registries.get(backend_name)`: a list or a dict is no key.
abbrev resolve_backend : Library → ExecuteSetup → Json → Outcome ExecutionBackend
resolve_backend lib setup (text name) =
    (get_backend setup.local setup.entry_points name setup.backends).0
resolve_backend lib setup (array items) =
    raised (other (codes "TypeError") (codes "unhashable type: 'list'"))
resolve_backend lib setup (object fields) =
    raised (other (codes "TypeError") (codes "unhashable type: 'dict'"))
resolve_backend lib setup name = raised (
    no_backend (lib.repr name)
      (map (λ entry. entry.0) (discovered setup.local setup.entry_points setup.backends)))

abbrev constraints_of : ExecuteSetup → Json → Called ExecutionConstraints
constraints_of setup (object fields) = setup.validate_constraints fields
constraints_of setup _ = gave default_constraints

-- `instructions`, from the plan.
abbrev instructions_of : Library → Json → Json
instructions_of lib (object fields) =
    or_default (or_default (text (lib.show (object fields))) (get_field (codes "prompt") fields))
      (get_field (codes "instructions") fields)
instructions_of lib (text plan) = text plan
instructions_of lib _ = text []

-- `ExecutionTask(...)`: pydantic asks for a text.
abbrev make_task : ExecutionConstraints → Json → Called ExecutionTask
make_task constraints (text instructions) =
    gave (record { instructions = instructions; task_plan_ref = []; constraints = constraints })
make_task constraints _ =
    refused (other (codes "ValidationError") (codes "instructions: Input should be a valid string"))

abbrev target_branch : ExecuteSetup → StepInvocation → Text
target_branch setup step = codes "flow-speckit/" ++ setup.uuid_text step.run_id

abbrev temporary_workspace : ExecuteSetup → ℕ → StepInvocation → Workspace
temporary_workspace setup n step = record {
  path = setup.make_directory n;
  repo = [];
  base_branch = codes "main";
  target_branch = target_branch setup step;
}

-- The manager's workspace; the temporary one where there is no manager or it fails.
abbrev workspace_of : ExecuteSetup → ℕ → StepInvocation → (Workspace → HandlerReply) → HandlerReply
workspace_of setup n step go_on = elim setup.create_workspace [
  | none ↦ go_on (temporary_workspace setup n step)
  | some create ↦
      try_call (create n (codes "main") (target_branch setup step))
        (λ e. go_on (temporary_workspace setup n step)) go_on
]

abbrev commit_json : CommitInfo → Json
commit_json c = object (
    fields_of (
      (codes "sha", text c.sha)
      ∷ (codes "message", text c.message)
      ∷ (codes "author", text c.author)
      ∷ []))

abbrev items_of : List Json → Items
items_of [] = nil
items_of (value ∷ values) = cons value (items_of values)

abbrev status_text : ExecutionStatus → String
status_text completed = "completed"
status_text failed = "failed"
status_text partial = "partial"

abbrev cost_json : CostReport → Json
cost_json c = object (
    fields_of (
      (codes "tokens_in", number c.tokens_in)
      ∷ (codes "tokens_out", number c.tokens_out)
      ∷ (codes "usd", number c.usd)
      ∷ []))

abbrev execution_result : ExecutionResult → HandlerReply
execution_result r = result_of (
    status_entry (status_text r.status)
    ∷ (codes "summary", text r.summary)
    ∷ (codes "commits", array (items_of (map commit_json r.commits)))
    ∷ (codes "diff_ref", text r.diff_ref)
    ∷ (codes "cost", cost_json r.cost)
    ∷ [])

abbrev backend_failure : Text → Json → HandlerReply
backend_failure error name =
    result_of ((codes "error", text error) ∷ status_entry "failed" ∷ (codes "backend", name) ∷ [])

abbrev unavailable : Library → Json → BackendHealth → HandlerReply
unavailable lib name health = result_of (
    (
      codes "error",
      text (codes "Backend " ++ lib.repr name ++ codes " is not available: " ++ health.message),
    )
    ∷ status_entry "failed"
    ∷ [])

-- `backend.execute` in the workspace, and its result.
unfoldable pub run_backend :
    Library → Json → ℕ → ExecutionBackend → ExecutionTask → Workspace → HandlerReply
run_backend lib name n backend task workspace = after_call (backend.check_available n) (λ health.
    if health.available
    then try_call (backend.execute n task workspace)
        (λ e. backend_failure (codes "Execution failed: " ++ lib.message e) name) execution_result
    else unavailable lib name health)

-- What follows once the backend is there.
unfoldable pub execute_on :
    Library → ExecuteSetup → ℕ → StepInvocation → Json → ExecutionBackend → HandlerReply
unfolding run_backend
execute_on lib setup n step name backend =
    let plan = or_default (object (fields_of [])) (payload_get (codes "plan") step.payload) in
    after_call
      (constraints_of setup (or_default null (payload_get (codes "constraints") step.payload)))
      (λ constraints.
        after_call (make_task constraints (instructions_of lib plan))
          (λ task. workspace_of setup n step (run_backend lib name n backend task)))

-- `except KeyError`: any other exception leaves the handler.
abbrev unresolved : Library → Json → Exception → HandlerReply
unresolved lib name (no_backend k known) = backend_failure (lib.message (no_backend k known)) name
unresolved lib name e = threw e

-- `ExecuteStepHandler.__call__`.
unfoldable pub execute_handler : Library → ExecuteSetup → ℕ → StepInvocation → HandlerReply
unfolding get_backend execute_on
execute_handler lib setup n step =
    let name =
      or_default (text (codes "local_shell")) (payload_get (codes "backend") step.payload) in
    elim (resolve_backend lib setup name) [
      | ok backend ↦ execute_on lib setup n step name backend
      | raised e ↦ unresolved lib name e
      | _ ↦ died
    ]
