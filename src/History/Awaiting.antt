-- ===== src/History/Awaiting.antt =====
-- Gates, sleeps and child steps of a pass, one awaited call and a whole body (workflows/context.py),
-- as writers of the event table.
use flow_speckit.Prelude.{
  ℕ, inl, inr, Bool, true, false, Option, none, some, List, Bool-cases, Option-cases, Text,
  dict_get,
}
use flow_speckit.History.Passing.{
  pass_db, append_event-Logs, add_timer-Logs, require_live-Logs, memoize-Logs,
  raise_if_cancelled-Logs, memo_or-Logs, allocate_key-Logs, run_handler_step-Logs,
  run_intrinsic-Logs,
}
use flow_speckit.Context.Waits.{
  run_gate, start_sleep, artifact_id_of, run_sleep, find_or_open, await_gate, open_gate,
  arm_timeout, GateRequest,
}
use flow_speckit.Errors.{
  ok, raised, suspended, cancelled_run, crashed, Exception, Outcome, ok, raised,
}
use flow_speckit.Storage.Writes.{Logs, Writes-refl, >>=-Logs, Writes, followed}
use flow_speckit.Context.Children.{
  settle_terminal, record_failure, completion_of, run_child, join_child, settle_child,
}
use flow_speckit.Events.{GateOpened, WorkflowEvent}
use flow_speckit.Storage.{timer_exists, RunRow, find_run}
use flow_speckit.Base.{Uuid, TimerKind, RunStatus, is_terminal, HandlerKind, execute, open_pr}
use flow_speckit.Action.{Action}
use flow_speckit.Context.{Env, Pass}
use flow_speckit.Context.Run.{perform_at, run_body, perform, label_of, to_body}
use flow_speckit.Json.{Json}
use flow_speckit.Workflow.{
  run_skill, execute, open_pr, gate, sleep, child_workflow, intrinsic, Reply, Body, Call, Output,
  returns, run_skill, raises, await, failure,
}
use flow_speckit.History.Starting.{start_child-Logs}
use flow_speckit.Storage.Log.{list}

artifact_id_of-Logs : (artifact : Option Uuid) → Logs pass_db (artifact_id_of artifact)
unfolding artifact_id_of
artifact_id_of-Logs none s = Writes-refl s.db
artifact_id_of-Logs (some u) s = Writes-refl s.db

arm_timeout-Logs :
    (auto : Bool) (key : Text) (timeout : Option ℕ) → Logs pass_db (arm_timeout auto key timeout)
arm_timeout-Logs auto key none s = Writes-refl s.db
arm_timeout-Logs true key (some t) s = Writes-refl s.db
arm_timeout-Logs false key (some t) s = add_timer-Logs TimerKind.gate_timeout key _ s

open_gate-Logs :
    (auto : Bool) (key label : Text) (g : GateRequest) → Logs pass_db (open_gate auto key label g)
unfolding open_gate
open_gate-Logs auto key label g s =
    >>=-Logs pass_db _ _ (artifact_id_of-Logs g.artifact)
      (λ artifact. >>=-Logs pass_db _ _ (append_event-Logs _) (λ _.
        >>=-Logs pass_db _ _ (append_event-Logs _) (λ _.
          >>=-Logs pass_db _ _ (λ s. Writes-refl s.db)
            (λ _.
              >>=-Logs pass_db _ _ (arm_timeout-Logs auto key g.timeout)
                (λ _ s. Writes-refl s.db)))))
      s

await_gate-Logs :
    (auto : Bool) (key : Text) (opened : GateOpened) → Logs pass_db (await_gate auto key opened)
unfolding await_gate
await_gate-Logs true key opened s =
    >>=-Logs pass_db _ _ (append_event-Logs _)
      (λ _. >>=-Logs pass_db _ _ (λ s. Writes-refl s.db) (λ _ s. Writes-refl s.db)) s
await_gate-Logs false key opened s = Writes-refl s.db

find_or_open-Logs :
    (auto : Bool) (key label : Text) (g : GateRequest)
    → Logs pass_db (find_or_open auto key label g)
unfolding find_or_open
find_or_open-Logs auto key label g s = elim (Option-cases (dict_get key s.ctx.gates_opened)) [
  | inl new ↦ rw (new, find_or_open) (open_gate-Logs auto key label g s)
  | inr (opened, found) ↦ rw (found, find_or_open) (Writes-refl s.db)
]

run_gate-Logs :
    (auto : Bool) (key label : Text) (g : GateRequest) → Logs pass_db (run_gate auto key label g)
unfolding run_gate
run_gate-Logs auto key label g s = elim (Option-cases (dict_get key s.ctx.gates_resolved)) [
  | inr (resolved, found) ↦ rw (found, run_gate) (Writes-refl s.db)
  | inl waiting ↦
      rw (waiting, run_gate)
        (>>=-Logs pass_db _ _ (require_live-Logs key)
          (λ _. >>=-Logs pass_db _ _ (raise_if_cancelled-Logs key) (λ _.
            >>=-Logs pass_db _ _ (find_or_open-Logs auto key label g)
              (λ opened. await_gate-Logs auto key opened)))
          s)
]

start_sleep-Logs : (key : Text) (duration : ℕ) → Logs pass_db (start_sleep key duration)
unfolding start_sleep
start_sleep-Logs key duration s =
    elim (Bool-cases (timer_exists s.ctx.run_id key TimerKind.sleep s.db)) [
      | inl armed ↦ rw armed (Writes-refl s.db)
      | inr new ↦ rw new (
          >>=-Logs pass_db _ _ (append_event-Logs _)
            (λ _.
              >>=-Logs pass_db _ _ (add_timer-Logs TimerKind.sleep key _) (λ _ s. Writes-refl s.db))
            s)
    ]

run_sleep-Logs : (key : Text) (duration : ℕ) → Logs pass_db (run_sleep key duration)
unfolding run_sleep
run_sleep-Logs key duration s = elim (Option-cases (dict_get key s.ctx.memoized)) [
  | inr (hit, found) ↦ rw (found, run_sleep) (Writes-refl s.db)
  | inl miss ↦
      rw (miss, run_sleep)
        (>>=-Logs pass_db _ _ (require_live-Logs key)
          (λ _.
            >>=-Logs pass_db _ _ (raise_if_cancelled-Logs key) (λ _. start_sleep-Logs key duration))
          s)
]

record_failure-Logs :
    (key : Text) (e : Exception) (already : Bool) → Logs pass_db (record_failure key e already)
unfolding record_failure
record_failure-Logs key e true s = Writes-refl s.db
record_failure-Logs key e false s = append_event-Logs _ s

by_status-Logs :
    (status : RunStatus) (completing failing : Action Pass Json)
    → Logs pass_db completing
    → Logs pass_db failing
    → Logs pass_db (elim status [ RunStatus.completed ↦ completing | _ ↦ failing ])
by_status-Logs RunStatus.completed completing failing h k = h
by_status-Logs RunStatus.pending completing failing h k = k
by_status-Logs RunStatus.running completing failing h k = k
by_status-Logs RunStatus.waiting_gate completing failing h k = k
by_status-Logs RunStatus.waiting_timer completing failing h k = k
by_status-Logs RunStatus.failed completing failing h k = k
by_status-Logs RunStatus.cancelled completing failing h k = k

settle_terminal-Logs :
    (events : List WorkflowEvent) (key : Text) (child : RunRow)
    → Logs pass_db (settle_terminal events key child)
unfolding settle_terminal
settle_terminal-Logs events key child s = elim (Option-cases (completion_of key events)) [
  | inr (done, found) ↦
      rw (found, settle_terminal)
        (>>=-Logs pass_db _ _ (memoize-Logs key done.result) (λ _ s. Writes-refl s.db) s)
  | inl missing ↦
      rw (missing, settle_terminal)
        (by_status-Logs child.status _ _
          (>>=-Logs pass_db _ _ (append_event-Logs _)
            (λ _. >>=-Logs pass_db _ _ (memoize-Logs key _) (λ _ s. Writes-refl s.db)))
          (>>=-Logs pass_db _ _ (record_failure-Logs key _ _) (λ _ s. Writes-refl s.db)) s)
]

module _ (env : Env) where
  join_child-Logs :
      (child : Option RunRow) (key name : Text) (version : Option Text) (input : Json)
      → Logs pass_db (join_child env child key name version input)
  unfolding join_child settle_child
  join_child-Logs none key name version input s =
      >>=-Logs pass_db _ _ (append_event-Logs _)
        (λ _.
          >>=-Logs pass_db _ _
            (λ t.
              start_child-Logs env.workflows env.notify name version input s.ctx.run_id
                (env.child_run_id s.ctx.run_id key) t.db)
            (λ _ s. Writes-refl s.db))
        s
  join_child-Logs (some child) key name version input s =
      elim (Bool-cases (is_terminal child.status)) [
        | inl ended ↦ rw ended (settle_terminal-Logs (list s.ctx.run_id s.db) key child s)
        | inr live ↦ rw live (Writes-refl s.db)
      ]

  run_child-Logs :
      (key name : Text) (version : Option Text) (input : Json)
      → Logs pass_db (run_child env key name version input)
  unfolding run_child
  run_child-Logs key name version input = memo_or-Logs env key _ (
      >>=-Logs pass_db _ _ (raise_if_cancelled-Logs key) (λ _ s.
        join_child-Logs (find_run (env.child_run_id s.ctx.run_id key) s.db) key name version input
          s))

  perform_at-Logs : (key : Text) (call : Call) → Logs pass_db (perform_at env key call)
  unfolding perform_at
  perform_at-Logs key (run_skill label input retry timeout) =
      >>=-Logs pass_db _ _ (run_handler_step-Logs env key label HandlerKind.skill _ _ retry)
        (λ _ s. Writes-refl s.db)
  perform_at-Logs key (execute label plan backend constraints retry) =
      >>=-Logs pass_db _ _ (run_handler_step-Logs env key label HandlerKind.execute _ _ retry)
        (λ _ s. Writes-refl s.db)
  perform_at-Logs key (open_pr label change review retry) =
      >>=-Logs pass_db _ _ (run_handler_step-Logs env key label HandlerKind.open_pr _ _ retry)
        (λ _ s. Writes-refl s.db)
  perform_at-Logs key (gate label artifact approvers timeout on_timeout escalate_to) =
      >>=-Logs pass_db _ _ (run_gate-Logs env.auto_approve key label _) (λ _ s. Writes-refl s.db)
  perform_at-Logs key (sleep label duration) =
      >>=-Logs pass_db _ _ (run_sleep-Logs key duration) (λ _ s. Writes-refl s.db)
  perform_at-Logs key (child_workflow label name input version) =
      >>=-Logs pass_db _ _ (run_child-Logs key name version input) (λ _ s. Writes-refl s.db)
  perform_at-Logs key (intrinsic which) =
      >>=-Logs pass_db _ _ (run_intrinsic-Logs env key which) (λ _ s. Writes-refl s.db)

  perform-Logs : (call : Call) → Logs pass_db (perform env call)
  unfolding perform
  perform-Logs call =
      >>=-Logs pass_db _ _ (allocate_key-Logs (label_of call)) (λ key. perform_at-Logs key call)

  to_body-Logs :
      (o : Outcome Reply) (k : Reply → Action Pass Output) (s : Pass)
      → ((r : Reply) → Logs pass_db (k r))
      → Writes s.db (to_body env o k s).1.db
  to_body-Logs (ok r) k s h = h r s
  to_body-Logs (raised e) k s h = h (failure e) s
  to_body-Logs (suspended r) k s h = Writes-refl s.db
  to_body-Logs (cancelled_run r) k s h = Writes-refl s.db
  to_body-Logs crashed k s h = Writes-refl s.db

  pub run_body-Logs : (body : Body) → Logs pass_db (run_body env body)
  unfolding run_body
  run_body-Logs (returns out) s = Writes-refl s.db
  run_body-Logs (raises e) s = Writes-refl s.db
  run_body-Logs (await call k) s =
      followed (perform-Logs call s)
        (to_body-Logs (perform env call s).0 _ (perform env call s).1 (λ r. run_body-Logs (k r)))
