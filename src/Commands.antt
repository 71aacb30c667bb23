-- ===== src/Commands.antt =====
-- cli/run_cmd.py and cli/gates_cmd.py, without their printing: the inbox of open gates, and the
-- commands that drive a run without a worker. A command ends in its exit code.
pub mod Inbox
use flow_speckit.Prelude.{
  ℕ, zero, suc, Bool, Option, none, some, List, [], map, ◌==◌, if◌then◌else◌, exists_where,
  first_where, Text, text_eq, Dict, dict_put, dict_pop,
}
use flow_speckit.Json.{Json}
use flow_speckit.Base.{Uuid, RunStatus, is_terminal, DecisionLiteral}
use flow_speckit.Errors.{
  Exception, Outcome, ok, raised, suspended, cancelled_run, crashed, non_determinism,
  step_kind_unavailable, gate_not_open, invalid_status_transition,
}
use flow_speckit.Events.{GateOpened, WorkflowEvent, gate_opened, gate_resolved}
use flow_speckit.Storage.{Db, RunRow, find_run, upsert_task_queue, notify_run}
use flow_speckit.Storage.Log.{list}
use flow_speckit.Workflow.{GateDecision, WorkflowDefinition}
use flow_speckit.Workflow.Registry
use flow_speckit.Timers.{fire_due_timers}
use flow_speckit.Gates.{resolve_gate}
use flow_speckit.Context.{Env, fill}
use flow_speckit.Engine.Start.{start_run}
use flow_speckit.Engine.Execute.{World, RunOutcome, execute_run}

-- The loop of `fold_open_gates` over `open_by_step`.
unfoldable pub fold_event : Dict GateOpened → WorkflowEvent → Dict GateOpened
fold_event d (gate_opened e) = dict_put e.step_key e d
fold_event d (gate_resolved e) = dict_pop e.step_key d
fold_event d _ = d

unfoldable pub fold_open_gates : List WorkflowEvent → List GateOpened
unfolding fold_event fill
fold_open_gates events = map (λ entry. entry.1) (fill fold_event [] events)

-- `_resolve` of gates_cmd.py: the gate it reports on, and the exit code.
unfoldable pub reported_gate : List WorkflowEvent → Text → Option GateOpened
unfolding fold_open_gates
reported_gate events gate_key =
    first_where (λ g. text_eq g.gate_key gate_key) (fold_open_gates events)

abbrev resolve_code : Outcome GateDecision → Outcome ℕ
resolve_code (ok _) = ok 0
resolve_code (raised (gate_not_open run_id gate_key)) = ok 1
resolve_code (raised (invalid_status_transition from to)) = ok 1
resolve_code (raised e) = raised e
resolve_code (suspended r) = suspended r
resolve_code (cancelled_run k) = cancelled_run k
resolve_code crashed = crashed

unfoldable pub resolve_command :
    Bool → Uuid → Text → DecisionLiteral → Text → Option Text → Db → Outcome ℕ × Db
unfolding resolve_gate
resolve_command notify run_id gate_key decision actor comment db =
    let (o, db1) = resolve_gate notify run_id gate_key decision actor comment db in
    (resolve_code o, db1)

unfoldable pub has_queue_row : Uuid → Db → Bool
has_queue_row run_id db = exists_where (λ q. q.run_id == run_id) db.task_queue

-- How a command ends: `none` is a loop that has not ended within the rounds it was given.
abbrev pub Driven : Type 0
Driven = Outcome (Option ℕ) × World

-- The end of a round of `drive_detached`, once the timers were fired: it goes on only where the run
-- is queued.
abbrev pub look : (World → Driven) → Uuid → Outcome ℕ → World → Driven
look again run_id (ok n) w = if has_queue_row run_id w.db then again w else (ok (some 3), w)
look again run_id (raised e) w = (raised e, w)
look again run_id (suspended r) w = (suspended r, w)
look again run_id (cancelled_run k) w = (cancelled_run k, w)
look again run_id crashed w = (crashed, w)

unfoldable pub fire_and_look : (World → Driven) → Env → Uuid → World → Driven
unfolding fire_due_timers has_queue_row
fire_and_look again env run_id w =
    let (o, db) = fire_due_timers env.child_run_id env.notify w.db in
    look again run_id o (record w { db = db })

abbrev pub after_status : (World → Driven) → Env → Uuid → RunStatus → World → Driven
after_status again env run_id RunStatus.completed w = (ok (some 0), w)
after_status again env run_id RunStatus.failed w = (ok (some 4), w)
after_status again env run_id RunStatus.cancelled w = (ok (some 5), w)
after_status again env run_id RunStatus.waiting_gate w = (ok (some 3), w)
after_status again env run_id status w = fire_and_look again env run_id w

-- `except (NonDeterminismError, StepKindUnavailableError)`.
abbrev pub failure_code : Exception → Outcome (Option ℕ)
failure_code (non_determinism key detail) = ok (some 4)
failure_code (step_kind_unavailable kind) = ok (some 4)
failure_code e = raised e

abbrev pub after_pass : (World → Driven) → Env → Uuid → Outcome RunOutcome → World → Driven
after_pass again env run_id (ok o) w = after_status again env run_id o.status w
after_pass again env run_id (raised e) w = (failure_code e, w)
after_pass again env run_id (suspended r) w = (suspended r, w)
after_pass again env run_id (cancelled_run k) w = (cancelled_run k, w)
after_pass again env run_id crashed w = (crashed, w)

-- `drive_detached`, for at most `rounds` passes.
unfoldable pub drive_detached : ℕ → Env → Uuid → World → Driven
unfolding execute_run fire_and_look
drive_detached zero env run_id w = (ok none, w)
drive_detached (suc rounds) env run_id w =
    let (o, w1) = execute_run env run_id w in
    after_pass (drive_detached rounds env run_id) env run_id o w1

-- The write of `_resume`, once the row is there and not terminal.
unfoldable pub reenqueue : Bool → Uuid → Db → Db
reenqueue notify run_id db = notify_run notify run_id (upsert_task_queue run_id db)

-- `_resume` with `--detach`.
unfoldable pub resume_detached : ℕ → Env → Uuid → World → Driven
unfolding reenqueue drive_detached
resume_detached rounds env run_id w = elim (find_run run_id w.db) [
  | none ↦ (ok (some 1), w)
  | some row ↦
      if is_terminal row.status
      then (ok (some 1), w)
      else drive_detached rounds env run_id (record w { db = reenqueue env.notify run_id w.db })
]

abbrev pub definition_of : Text → Option Text → Env → Outcome WorkflowDefinition
definition_of name (some version) env = Registry.get name version env.workflows
definition_of name none env = Registry.latest name env.workflows

abbrev pub drive_started : ℕ → Env → Outcome Uuid → World → Driven
drive_started rounds env (ok run_id) w = drive_detached rounds env run_id w
drive_started rounds env (raised e) w = (raised e, w)
drive_started rounds env (suspended r) w = (suspended r, w)
drive_started rounds env (cancelled_run k) w = (cancelled_run k, w)
drive_started rounds env crashed w = (crashed, w)

-- The run of a definition that was found; an unknown workflow is reported, with the code 1.
abbrev pub run_definition : ℕ → Env → Outcome WorkflowDefinition → Json → Text → World → Driven
run_definition rounds env (ok d) input actor w =
    let (o, db) = start_run env.workflows env.notify d.name d.version input actor none none w.db in
    drive_started rounds env o (record w { db = db })
run_definition rounds env _ input actor w = (ok (some 1), w)

-- `_run` with `--detach`.
unfoldable pub run_detached : ℕ → Env → Text → Option Text → Json → Text → World → Driven
unfolding start_run drive_detached
run_detached rounds env name version input actor w =
    run_definition rounds env (definition_of name version env) input actor w
