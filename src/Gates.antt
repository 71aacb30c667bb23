-- ===== src/Gates.antt =====
-- workflows/gates.py: resolving a gate from outside the run, and a gate's timeout.
pub mod Resolution
pub mod Refusal
use flow_speckit.Prelude.{
  ℕ, ◌+◌, Bool, false, Option, none, some, List, [], ◌∷◌, ◌++◌, if◌then◌else◌, exists_where,
  first_where, Text, codes, text_eq, Dict, dict_put, dict_pop,
}
use flow_speckit.Base.{Uuid, DecisionLiteral, Status, Instant, OnTimeout, TimerKind}
use flow_speckit.Storage.{Db, notify_run, delete_queue_row, upsert_task_queue, insert_timer}
use flow_speckit.Storage.Log.{list}
use flow_speckit.Storage.Recording.{record_event}
use flow_speckit.Workflow.{GateDecision, decision_from_event}
use flow_speckit.Errors.{
  crashed, Outcome, gate_not_open, invalid_status_transition, ok, raised, gate_timed_out, suspended,
  cancelled_run,
}
use flow_speckit.Action.{Action, pure, modify, ◌>>=◌, ◌>>◌}
use flow_speckit.Artifacts.Refs.{ArtifactRef, by_id}
use flow_speckit.Artifacts.Store.{set_artifact_status, same_status}
use flow_speckit.Context.{fill}
use flow_speckit.Engine.Settle.{settle_parent}
use flow_speckit.Events.{
  GateOpened, GateResolved, WorkflowEvent, run_failed, gate_resolved, gate_opened,
}

-- The loop of `_open_gate` over `open_by_step`.
unfoldable pub open_event : Text → Dict GateOpened → WorkflowEvent → Dict GateOpened
open_event gate_key d (gate_opened e) =
    if text_eq e.gate_key gate_key then dict_put e.step_key e d else d
open_event gate_key d (gate_resolved e) = dict_pop e.step_key d
open_event gate_key d _ = d

-- `list(d.values())[-1]`, or `None`.
abbrev pub last_value : Dict GateOpened → Option GateOpened
last_value [] = none
last_value ((k, v) ∷ []) = some v
last_value ((k, v) ∷ x ∷ d) = last_value (x ∷ d)

-- `_open_gate`.
unfoldable pub open_gate : List WorkflowEvent → Text → Option GateOpened
unfolding open_event
open_gate events gate_key = last_value (fill (open_event gate_key) [] events)

abbrev pub decided_status : DecisionLiteral → Status
decided_status DecisionLiteral.approved = Status.approved
decided_status DecisionLiteral.rejected = Status.rejected

-- `except InvalidStatusTransition`: an artifact that has the status already is left alone.
abbrev pub already_set : Status → Outcome ArtifactRef → Outcome (Unit {0})
already_set target (ok _) = ok tt
already_set target (raised (invalid_status_transition from to)) =
    if same_status from target then ok tt else raised (invalid_status_transition from to)
already_set target (raised e) = raised e
already_set target (suspended r) = suspended r
already_set target (cancelled_run k) = cancelled_run k
already_set target crashed = crashed

-- `_mirror_artifact_status`.
unfoldable pub mirror_artifact_status : Uuid → DecisionLiteral → Action Db (Unit {0})
unfolding set_artifact_status
mirror_artifact_status artifact_id decision db =
    let (o, db1) = set_artifact_status (by_id artifact_id) (decided_status decision) db in
    (already_set (decided_status decision) o, db1)

abbrev pub resolution :
    GateOpened → Text → DecisionLiteral → Text → Option Text → Instant → GateResolved
resolution opened gate_key decision actor comment now = record {
  step_key = opened.step_key;
  gate_key = gate_key;
  decision = decision;
  actor = actor;
  comment = comment;
  resolved_at = some now;
}

-- The event, the projection row, the queue row and the notification.
unfoldable pub wake_resolved : Bool → Uuid → GateResolved → Db → Db
wake_resolved notify run_id resolved db =
    notify_run notify run_id
      (upsert_task_queue run_id (record_event run_id (gate_resolved resolved) db))

-- `_resolve_on_session`, with the artifact's status mirrored first.
unfoldable pub resolve_gate :
    Bool → Uuid → Text → DecisionLiteral → Text → Option Text → Action Db GateDecision
unfolding open_gate mirror_artifact_status wake_resolved decision_from_event
resolve_gate notify run_id gate_key decision actor comment db =
    elim (open_gate (list run_id db) gate_key) [
      | none ↦ (raised (gate_not_open run_id gate_key), db)
      | some opened ↦
          let resolved = resolution opened gate_key decision actor comment db.clock in
          (do
            mirror_artifact_status opened.artifact_id decision
            modify (wake_resolved notify run_id resolved)
            pure (decision_from_event resolved))
            db
    ]

abbrev opens_step : Text → WorkflowEvent → Bool
opens_step step_key (gate_opened e) = text_eq e.step_key step_key
opens_step step_key _ = false

abbrev pub resolves_step : Text → WorkflowEvent → Bool
resolves_step step_key (gate_resolved e) = text_eq e.step_key step_key
resolves_step step_key _ = false

abbrev opened_by : Option WorkflowEvent → Option GateOpened
opened_by (some (gate_opened e)) = some e
opened_by _ = none

-- The gate of a timer that is not stale.
unfoldable pub timed_out : Text → List WorkflowEvent → Option GateOpened
timed_out step_key events =
    if exists_where (resolves_step step_key) events
    then none
    else opened_by (first_where (opens_step step_key) events)

abbrev pub or_zero : Option ℕ → ℕ
or_zero none = 0
or_zero (some t) = t

-- The end of a run whose gate timed out under `fail`.
unfoldable pub fail_timed_out : (Uuid → Text → Uuid) → Bool → Uuid → Text → GateOpened → Db → Db
unfolding settle_parent
fail_timed_out child_run_id notify run_id step_key opened db =
    settle_parent child_run_id notify run_id (
      delete_queue_row run_id (
        record_event run_id
          (run_failed (record {
            error = gate_timed_out opened.gate_key step_key opened.timeout_at;
            failed_step = step_key;
          }))
          db))

-- The comment of an approval by timeout; a key that holds quotes is printed otherwise by `!r`.
abbrev pub timeout_comment : Text → Text
timeout_comment gate_key =
    codes "gate '" ++ (gate_key ++ codes "' timed out with on_timeout='approve'")

-- What each policy does with a gate that timed out.
abbrev pub apply_timeout :
    (Uuid → Text → Uuid) → Bool → Uuid → Text → GateOpened → OnTimeout → Action Db (Unit {0})
apply_timeout child_run_id notify run_id step_key opened OnTimeout.approve = do
  resolve_gate notify run_id opened.gate_key DecisionLiteral.approved (codes "timeout")
      (some (timeout_comment opened.gate_key))
  pure tt
apply_timeout child_run_id notify run_id step_key opened OnTimeout.escalate = modify (λ db.
    notify_run notify run_id (
      insert_timer run_id TimerKind.gate_timeout step_key (db.clock + or_zero opened.timeout_s) db))
apply_timeout child_run_id notify run_id step_key opened OnTimeout.fail =
    modify (fail_timed_out child_run_id notify run_id step_key opened)

-- `handle_gate_timeout`.
unfoldable pub handle_gate_timeout :
    (Uuid → Text → Uuid) → Bool → Uuid → Text → Action Db (Unit {0})
unfolding timed_out resolve_gate fail_timed_out
handle_gate_timeout child_run_id notify run_id step_key db =
    elim (timed_out step_key (list run_id db)) [
      | none ↦ (ok tt, db)
      | some opened ↦ apply_timeout child_run_id notify run_id step_key opened opened.on_timeout db
    ]
