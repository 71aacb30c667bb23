-- ===== src/Context/Waits.antt =====
-- `gate` and `sleep` of workflows/context.py: steps that park the run until a wake.
use flow_speckit.Prelude.{
  ℕ, ◌+◌, Bool, Option, none, some, List, if◌then◌else◌, Text, codes, dict_get, dict_put,
}
use flow_speckit.Json.{Json, null}
use flow_speckit.Base.{Uuid, StepKind, RunStatus, TimerKind, DecisionLiteral, OnTimeout}
use flow_speckit.Errors.{other, on_sleep, on_gate, ok}
use flow_speckit.Events.{GateOpened, GateResolved, step_started, gate_opened, gate_resolved}
use flow_speckit.Storage.{timer_exists}
use flow_speckit.Workflow.{GateDecision, decision_from_event}
use flow_speckit.Action.{Action, pure, raise, suspend, ◌>>=◌, ◌>>◌}
use flow_speckit.Context.{Pass}
use flow_speckit.Context.Keys.{require_live}
use flow_speckit.Context.Steps.{append_event, raise_if_cancelled, add_timer}

-- The arguments of one `ctx.gate` call.
pub record GateRequest : Type 0 where
  pub artifact : Option Uuid
  pub approvers : List Text
  pub timeout : Option ℕ
  pub on_timeout : OnTimeout
  pub escalate_to : Option (List Text)

-- `_artifact_id`: a `TypeError` where there is no UUID.
unfoldable pub artifact_id_of : Option Uuid → Action Pass Uuid
artifact_id_of none =
    raise (other (codes "TypeError") (codes "ctx.gate(artifact=...) requires a UUID"))
artifact_id_of (some u) = pure u

-- `self._gates_opened[step_key] = opened`.
unfoldable pub remember_opened : GateOpened → Action Pass (Unit {0})
remember_opened e s = (
  ok tt,
  record s { ctx = record s.ctx { gates_opened = dict_put e.step_key e s.ctx.gates_opened } },
)

-- `self._gates_resolved[step_key] = auto`.
unfoldable pub remember_resolved : GateResolved → Action Pass (Unit {0})
remember_resolved e s = (
  ok tt,
  record s { ctx = record s.ctx { gates_resolved = dict_put e.step_key e s.ctx.gates_resolved } },
)

abbrev pub arm_timeout : Bool → Text → Option ℕ → Action Pass (Unit {0})
arm_timeout auto key none s = (ok tt, s)
arm_timeout auto key (some t) s =
    if auto then (ok tt, s) else add_timer TimerKind.gate_timeout key (s.db.clock + t) s

-- The live path of a gate that the log has not opened.
unfoldable pub open_gate : Bool → Text → Text → GateRequest → Action Pass GateOpened
unfolding artifact_id_of remember_opened
open_gate auto key label g s =
    (do
      artifact ← artifact_id_of g.artifact
      append_event (step_started (record { step_key = key; step_kind = StepKind.gate }))
      let opened : GateOpened = record {
        step_key = key;
        gate_key = label;
        artifact_id = artifact;
        approvers = g.approvers;
        timeout_at = elim g.timeout [ none ↦ none | some t ↦ some (s.db.clock + t) ];
        timeout_s = g.timeout;
        on_timeout = g.on_timeout;
        escalate_to = g.escalate_to;
      }
      append_event (gate_opened opened)
      remember_opened opened
      arm_timeout auto key g.timeout
      pure opened)
      s

abbrev pub auto_resolution : GateOpened → Text → ℕ → GateResolved
auto_resolution opened key now = record {
  step_key = key;
  gate_key = opened.gate_key;
  decision = DecisionLiteral.approved;
  actor = codes "auto";
  comment = some (codes "auto-approved");
  resolved_at = some now;
}

-- An open gate is resolved at once under `auto_approve`, and parks the run otherwise.
unfoldable pub await_gate : Bool → Text → GateOpened → Action Pass GateDecision
unfolding remember_resolved decision_from_event
await_gate auto key opened s =
    if auto
    then (do
      append_event (gate_resolved (auto_resolution opened key s.db.clock))
      remember_resolved (auto_resolution opened key s.db.clock)
      pure (decision_from_event (auto_resolution opened key s.db.clock)))
        s
    else suspend (record { step_key = key; run_status = RunStatus.waiting_gate; kind = on_gate }) s

-- `opened = self._gates_opened.get(step_key)`, opened now if the log has not opened it.
unfoldable pub find_or_open : Bool → Text → Text → GateRequest → Action Pass GateOpened
unfolding open_gate
find_or_open auto key label g s = elim (dict_get key s.ctx.gates_opened) [
  | some opened ↦ (ok opened, s)
  | none ↦ open_gate auto key label g s
]

-- `_run_gate`.
unfoldable pub run_gate : Bool → Text → Text → GateRequest → Action Pass GateDecision
unfolding find_or_open await_gate decision_from_event
run_gate auto key label g s = elim (dict_get key s.ctx.gates_resolved) [
  | some resolved ↦ (ok (decision_from_event resolved), s)
  | none ↦
      (do
        require_live key
        raise_if_cancelled key
        opened ← find_or_open auto key label g
        await_gate auto key opened)
        s
]

-- The live path of `_run_sleep`: the timer, unless it is there, and the signal.
unfoldable pub start_sleep : Text → ℕ → Action Pass Json
start_sleep key duration s =
    if timer_exists s.ctx.run_id key TimerKind.sleep s.db
    then suspend (record { step_key = key; run_status = RunStatus.waiting_timer; kind = on_sleep })
        s
    else (do
      append_event (step_started (record { step_key = key; step_kind = StepKind.sleep }))
      add_timer TimerKind.sleep key (s.db.clock + duration)
      suspend (record { step_key = key; run_status = RunStatus.waiting_timer; kind = on_sleep }))
        s

-- `_run_sleep`; a slept step returns `None`.
unfoldable pub run_sleep : Text → ℕ → Action Pass Json
unfolding start_sleep
run_sleep key duration s = elim (dict_get key s.ctx.memoized) [
  | some _ ↦ (ok null, s)
  | none ↦ (do require_live key; raise_if_cancelled key; start_sleep key duration) s
]
