-- ===== src/Context/Run.antt =====
-- Awaiting one `ctx` call, and running a workflow body to its end.
use flow_speckit.Prelude.{ℕ, Option, none, some, Text, codes}
use flow_speckit.Json.{Json, null, text, number, object, end, field}
use flow_speckit.Base.{StepKind, HandlerKind}
use flow_speckit.Errors.{Outcome, ok, raised}
use flow_speckit.Workflow.{
  Intrinsic, now, random, uuid, Call, run_skill, execute, open_pr, gate, sleep, child_workflow,
  intrinsic, Reply, value, decided, failure, Output, Body, returns, raises, await,
}
use flow_speckit.Action.{Action, pure, continue, ◌>>=◌}
use flow_speckit.Context.{Env, Pass}
use flow_speckit.Context.Keys.{allocate}
use flow_speckit.Context.Steps.{run_handler_step, run_intrinsic}
use flow_speckit.Context.Waits.{run_gate, run_sleep}
use flow_speckit.Context.Children.{run_child}

abbrev seconds : Option ℕ → Json
seconds none = null
seconds (some t) = number t

-- The payloads of the handler-dispatched steps.
abbrev skill_payload : Json → Option ℕ → Json
skill_payload input timeout =
    object (field (codes "input") input (field (codes "timeout_s") (seconds timeout) end))

abbrev execute_payload : Json → Text → Json → Json
execute_payload plan backend constraints = object (
    field (codes "plan") plan
      (field (codes "backend") (text backend) (field (codes "constraints") constraints end)))

abbrev open_pr_payload : Json → Json → Json
open_pr_payload change review =
    object (field (codes "change") change (field (codes "review") review end))

abbrev intrinsic_label : Intrinsic → Text
intrinsic_label now = codes "now"
intrinsic_label random = codes "random"
intrinsic_label uuid = codes "uuid"

abbrev pub label_of : Call → Text
label_of (run_skill label _ _ _) = label
label_of (execute label _ _ _ _) = label
label_of (open_pr label _ _ _) = label
label_of (gate label _ _ _ _ _) = label
label_of (sleep label _) = label
label_of (child_workflow label _ _ _) = label
label_of (intrinsic which) = intrinsic_label which

abbrev valued : Action Pass Json → Action Pass Reply
valued m = m >>= λ v. pure (value v)

-- The allocation of a pass's context.
unfoldable pub allocate_key : Text → Action Pass Text
unfolding allocate
allocate_key label s = let (o, c) = allocate label s.ctx in (o, record s { ctx = c })

module _ (env : Env) where
  -- What the call does under its step key.
  unfoldable pub perform_at : Text → Call → Action Pass Reply
  unfolding run_handler_step run_intrinsic run_gate run_sleep run_child
  perform_at key (run_skill label input retry timeout) = valued (
      run_handler_step env key label HandlerKind.skill StepKind.skill (skill_payload input timeout)
        retry)
  perform_at key (execute label plan backend constraints retry) = valued (
      run_handler_step env key label HandlerKind.execute StepKind.execute
        (execute_payload plan backend constraints) retry)
  perform_at key (open_pr label change review retry) = valued (
      run_handler_step env key label HandlerKind.open_pr StepKind.intrinsic
        (open_pr_payload change review) retry)
  perform_at key (gate label artifact approvers timeout on_timeout escalate_to) = do
    decision ← run_gate env.auto_approve key label (record {
      artifact = artifact;
      approvers = approvers;
      timeout = timeout;
      on_timeout = on_timeout;
      escalate_to = escalate_to;
    })
    pure (decided decision)
  perform_at key (sleep label duration) = valued (run_sleep key duration)
  perform_at key (child_workflow label name input version) =
      valued (run_child env key name version input)
  perform_at key (intrinsic which) = valued (run_intrinsic env key which)

  -- The factory allocates the step key, and awaiting its coroutine performs the step.
  unfoldable pub perform : Call → Action Pass Reply
  unfolding perform_at allocate_key
  perform call = do key ← allocate_key (label_of call); perform_at key call

  -- An exception reaches the body, which may catch it; a signal does not.
  abbrev pub to_body : Outcome Reply → (Reply → Action Pass Output) → Action Pass Output
  to_body (raised e) k s = k (failure e) s
  to_body o k s = continue o k s

  unfoldable pub run_body : Body → Action Pass Output
  unfolding perform
  run_body (returns out) s = (ok out, s)
  run_body (raises e) s = (raised e, s)
  run_body (await call k) s = let (o, s') = perform call s in to_body o (λ r. run_body (k r)) s'
