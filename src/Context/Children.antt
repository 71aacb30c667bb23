-- ===== src/Context/Children.antt =====
-- `child_workflow` of workflows/context.py.
use flow_speckit.Prelude.{
  ◌+◌, Bool, false, Option, none, some, List, [], ◌∷◌, if◌then◌else◌, exists_where, Text, codes,
  text_eq,
}
use flow_speckit.Json.{Json, null, text, object, end, field}
use flow_speckit.Base.{Uuid, StepKind, RunStatus, is_terminal}
use flow_speckit.UuidText.{uuid_text}
use flow_speckit.Errors.{Exception, child_run_cancelled, child_workflow_failed, on_child, ok}
use flow_speckit.Events.{WorkflowEvent, StepCompleted, step_started, step_completed, step_failed}
use flow_speckit.Storage.{RunRow, Db, find_run}
use flow_speckit.Storage.Log.{list}
use flow_speckit.Action.{Action, pure, raise, suspend, ◌>>◌}
use flow_speckit.Engine.Start.{start_child}
use flow_speckit.Context.{Env, Pass, count_of}
use flow_speckit.Context.Steps.{append_event, raise_if_cancelled, memoize, memo_or}

-- `{"child_run_id": …, "output_ref": …}`.
abbrev pub child_result : Uuid → Option Uuid → Json
child_result child_id output_ref = object (
    field (codes "child_run_id") (text (uuid_text child_id)) (
      field (codes "output_ref") (elim output_ref [ none ↦ null | some u ↦ text (uuid_text u) ])
        end))

-- `e.result` of the first `step_completed` of the step.
unfoldable pub completion_of : Text → List WorkflowEvent → Option StepCompleted
completion_of key [] = none
completion_of key (step_completed e ∷ es) =
    if text_eq e.step_key key then some e else completion_of key es
completion_of key (_ ∷ es) = completion_of key es

abbrev pub is_failure_of : Text → WorkflowEvent → Bool
is_failure_of key (step_failed e) = text_eq e.step_key key
is_failure_of key _ = false

-- `child.error or {"type": "ChildRunCancelled", …}`.
abbrev pub child_error : Uuid → Option Exception → Exception
child_error child_id none = child_run_cancelled child_id
child_error child_id (some e) = e

unfoldable pub record_failure : Text → Exception → Bool → Action Pass (Unit {0})
record_failure key e already s =
    if already
    then (ok tt, s)
    else append_event
        (step_failed (record {
          step_key = key;
          error = e;
          attempt = count_of key s.ctx.failed_counts + 1;
          will_retry = false;
        }))
        s

-- `_settle_child`, over the run's history.
unfoldable pub settle_terminal : List WorkflowEvent → Text → RunRow → Action Pass Json
unfolding record_failure
settle_terminal events key child = elim (completion_of key events) [
  | some done ↦ (do memoize key done.result; pure done.result)
  | none ↦
      let failing : Action Pass Json = (do
        record_failure key (child_error child.run_id child.error)
            (exists_where (is_failure_of key) events)
        raise (
            child_workflow_failed child.run_id child.status
              (child_error child.run_id child.error))) in
      elim child.status [
        | RunStatus.completed ↦ (do
          append_event (
              step_completed (record {
                step_key = key;
                result = child_result child.run_id child.output_ref;
                cost = none;
                duration_ms = 0;
              }))
          memoize key (child_result child.run_id child.output_ref)
          pure (child_result child.run_id child.output_ref))
        | _ ↦ failing
      ]
]

unfoldable pub settle_child : Text → RunRow → Action Pass Json
unfolding settle_terminal completion_of
settle_child key child s = settle_terminal (list s.ctx.run_id s.db) key child s

abbrev pub on_db : {A : Type 0} → Action Db A → Action Pass A
on_db m s = let (o, db) = m s.db in (o, record s { db = db })

module _ (env : Env) where
  abbrev pub park_on_child : Text → Action Pass Json
  park_on_child key =
      suspend (record { step_key = key; run_status = RunStatus.running; kind = on_child })

  -- What a child step does with the child's row.
  unfoldable pub join_child : Option RunRow → Text → Text → Option Text → Json → Action Pass Json
  unfolding settle_child
  join_child none key name version input s =
      (do
        append_event (step_started (record { step_key = key; step_kind = StepKind.child }))
        on_db (
            start_child env.workflows env.notify name version input s.ctx.run_id
              (env.child_run_id s.ctx.run_id key))
        park_on_child key)
        s
  join_child (some child) key name version input s =
      (if is_terminal child.status then settle_child key child else park_on_child key) s

  -- `_run_child`.
  unfoldable pub run_child : Text → Text → Option Text → Json → Action Pass Json
  unfolding memo_or join_child
  run_child key name version input = memo_or env key (do
    raise_if_cancelled key
    λ s. join_child (find_run (env.child_run_id s.ctx.run_id key) s.db) key name version input s)
