-- ===== src/History/Waking.antt =====
-- Gates, timers, the queue and the worker (workflows/gates.py, timers.py, queue.py, worker.py), as
-- writers of the event table.
use flow_speckit.Prelude.{
  ℕ, refl, inl, inr, Bool, true, false, ◌&&◌, Option, List, [], ◌∷◌, arith, ◌==◌, Bool-cases,
  Option-cases, exists_where, Text,
}
use flow_speckit.Timers.{
  fire_timer, fire_sleep, fire_each, fire_retry, fire_due_timers, complete_sleep, due_timers,
}
use flow_speckit.Worker.{tick}
use flow_speckit.Queue.{reap_stale}
use flow_speckit.Gates.{
  handle_gate_timeout, resolve_gate, mirror_artifact_status, fail_timed_out, wake_resolved,
  apply_timeout, open_gate, timed_out, decided_status,
}
use flow_speckit.Base.{Uuid, TimerKind, DecisionLiteral, Status, OnTimeout}
use flow_speckit.Artifacts.Store.{
  set_artifact_status, write_status, get_row, same_status, is_allowed,
}
use flow_speckit.Action.{Action}
use flow_speckit.Events.{GateOpened}
use flow_speckit.Storage.{TimerRow, Db, ArtifactRow}
use flow_speckit.Storage.Writes.{Logs, Writes, >>=-Logs, followed, Writes-refl, untouched}
use flow_speckit.Artifacts.Refs.{ParsedRef, by_id}
use flow_speckit.Engine.Execute.{completes}
use flow_speckit.History.Starting.{same_db, settle_parent-Writes}
use flow_speckit.Storage.Writes.Statements.{
  Writes-insert_timer, Writes-delete_timer, Writes-upsert_task_queue, Writes-record_event,
  Writes-delete_queue_row, Writes-notify_run,
}
use flow_speckit.Storage.Log.{list}
use flow_speckit.Artifacts.Store.Versions.{resolve-keeps}

-- The artifact tables and the queue hold no events.
write_status-Logs : (row : ArtifactRow) (status : Status) → Logs same_db (write_status row status)
unfolding write_status
write_status-Logs row status db =
    elim (Bool-cases
      (exists_where (λ r. (r.id == row.id) && same_status r.status row.status) db.artifacts)) [
        | inr changed ↦ rw changed (Writes-refl db)
        | inl kept ↦ rw kept (
            rw (resolve-keeps (by_id row.id) _)
              (untouched (record { events = refl; timers = refl; fresh = omega arith })))
      ]

pub set_artifact_status-Logs :
    (ref : ParsedRef) (status : Status) → Logs same_db (set_artifact_status ref status)
unfolding set_artifact_status
set_artifact_status-Logs ref status db = elim (Option-cases (get_row ref db)) [
  | inl missing ↦ rw (missing, set_artifact_status) (Writes-refl db)
  | inr (row, found) ↦
      rw (found, set_artifact_status)
        (elim (Bool-cases (is_allowed row.status status)) [
          | inl allowed ↦ rw allowed (write_status-Logs row status db)
          | inr forbidden ↦ rw forbidden (Writes-refl db)
        ])
]

mirror_artifact_status-Logs :
    (artifact_id : Uuid) (decision : DecisionLiteral)
    → Logs same_db (mirror_artifact_status artifact_id decision)
unfolding mirror_artifact_status
mirror_artifact_status-Logs artifact_id decision db =
    set_artifact_status-Logs (by_id artifact_id) (decided_status decision) db

pub resolve_gate-Logs :
    (notify : Bool) (run_id : Uuid) (gate_key : Text) (decision : DecisionLiteral) (actor : Text)
    (comment : Option Text)
    → Logs same_db (resolve_gate notify run_id gate_key decision actor comment)
unfolding resolve_gate wake_resolved
resolve_gate-Logs notify run_id gate_key decision actor comment db =
    elim (Option-cases (open_gate (list run_id db) gate_key)) [
      | inl shut ↦ rw (shut, resolve_gate) (Writes-refl db)
      | inr (opened, found) ↦
          rw (found, resolve_gate)
            (>>=-Logs same_db _ _ (mirror_artifact_status-Logs opened.artifact_id decision)
              (λ _.
                >>=-Logs same_db _ _
                  (λ db1. followed (Writes-record_event run_id _ db1) (
                    followed (Writes-upsert_task_queue run_id _)
                      (Writes-notify_run notify run_id _)))
                  (λ _ db1. Writes-refl db1))
              db)
    ]

fail_timed_out-Writes :
    (child_run_id : Uuid → Text → Uuid) (notify : Bool) (run_id : Uuid) (step_key : Text)
    (opened : GateOpened) (db : Db)
    → Writes db (fail_timed_out child_run_id notify run_id step_key opened db)
unfolding fail_timed_out
fail_timed_out-Writes child_run_id notify run_id step_key opened db =
    followed (Writes-record_event run_id _ db) (
      followed (Writes-delete_queue_row run_id _)
        (settle_parent-Writes child_run_id notify run_id _))

apply_timeout-Logs :
    (child_run_id : Uuid → Text → Uuid) (notify : Bool) (run_id : Uuid) (step_key : Text)
    (opened : GateOpened) (policy : OnTimeout)
    → Logs same_db (apply_timeout child_run_id notify run_id step_key opened policy)
apply_timeout-Logs child_run_id notify run_id step_key opened OnTimeout.approve =
    >>=-Logs same_db _ _
      (resolve_gate-Logs notify run_id opened.gate_key DecisionLiteral.approved _ _)
      (λ _ db. Writes-refl db)
apply_timeout-Logs child_run_id notify run_id step_key opened OnTimeout.escalate =
    λ db. followed (Writes-insert_timer run_id _ step_key _ db) (Writes-notify_run notify run_id _)
apply_timeout-Logs child_run_id notify run_id step_key opened OnTimeout.fail =
    fail_timed_out-Writes child_run_id notify run_id step_key opened

handle_gate_timeout-Logs :
    (child_run_id : Uuid → Text → Uuid) (notify : Bool) (run_id : Uuid) (step_key : Text)
    → Logs same_db (handle_gate_timeout child_run_id notify run_id step_key)
unfolding handle_gate_timeout
handle_gate_timeout-Logs child_run_id notify run_id step_key db =
    elim (Option-cases (timed_out step_key (list run_id db))) [
      | inl stale ↦ rw (stale, handle_gate_timeout) (Writes-refl db)
      | inr (opened, found) ↦
          rw (found, handle_gate_timeout)
            (apply_timeout-Logs child_run_id notify run_id step_key opened opened.on_timeout db)
    ]

complete_sleep-Writes :
    (run_id : Uuid) (step_key : Text) (db : Db) → Writes db (complete_sleep run_id step_key db)
unfolding complete_sleep
complete_sleep-Writes run_id step_key db =
    elim (Bool-cases (exists_where (completes step_key) (list run_id db))) [
      | inl slept ↦ rw slept (Writes-refl db)
      | inr asleep ↦ rw asleep (Writes-record_event run_id _ db)
    ]

wake-Writes : (notify : Bool) (row : TimerRow) (db : Db) → Writes db (fire_retry notify row db)
unfolding fire_retry
wake-Writes notify row db =
    followed (Writes-upsert_task_queue row.run_id db)
      (followed (Writes-delete_timer row.timer_id _) (Writes-notify_run notify row.run_id _))

fire_sleep-Writes :
    (notify : Bool) (row : TimerRow) (db : Db) → Writes db (fire_sleep notify row db)
unfolding fire_sleep fire_retry
fire_sleep-Writes notify row db =
    followed (complete_sleep-Writes row.run_id row.step_key db) (wake-Writes notify row _)

fire_kind-Logs :
    (kind : TimerKind) (sleeping retrying timing_out : Action Db (Unit {0}))
    → Logs same_db sleeping
    → Logs same_db retrying
    → Logs same_db timing_out
    → Logs same_db (elim kind [
      | TimerKind.sleep ↦ sleeping
      | TimerKind.retry ↦ retrying
      | TimerKind.gate_timeout ↦ timing_out
    ])
fire_kind-Logs TimerKind.sleep sleeping retrying timing_out h k l = h
fire_kind-Logs TimerKind.retry sleeping retrying timing_out h k l = k
fire_kind-Logs TimerKind.gate_timeout sleeping retrying timing_out h k l = l

pub fire_timer-Logs :
    (child_run_id : Uuid → Text → Uuid) (notify : Bool) (row : TimerRow)
    → Logs same_db (fire_timer child_run_id notify row)
unfolding fire_timer
fire_timer-Logs child_run_id notify row =
    fire_kind-Logs row.kind _ _ _ (fire_sleep-Writes notify row) (wake-Writes notify row) (
      >>=-Logs same_db _ _ (handle_gate_timeout-Logs child_run_id notify row.run_id row.step_key)
        (λ _. Writes-delete_timer row.timer_id))

pub fire_each-Logs :
    (child_run_id : Uuid → Text → Uuid) (notify : Bool) (rows : List TimerRow)
    → Logs same_db (fire_each child_run_id notify rows)
unfolding fire_each
fire_each-Logs child_run_id notify [] db = Writes-refl db
fire_each-Logs child_run_id notify (row ∷ rows) db =
    >>=-Logs same_db _ _ (fire_timer-Logs child_run_id notify row)
      (λ _. fire_each-Logs child_run_id notify rows) db

pub fire_due_timers-Logs :
    (child_run_id : Uuid → Text → Uuid) (notify : Bool)
    → Logs same_db (fire_due_timers child_run_id notify)
unfolding fire_due_timers
fire_due_timers-Logs child_run_id notify db =
    >>=-Logs same_db _ _ (fire_each-Logs child_run_id notify (due_timers db))
      (λ _ db1. Writes-refl db1) db

pub tick-Logs :
    (child_run_id : Uuid → Text → Uuid) (notify : Bool) (reap_after : ℕ) (locked : Bool)
    → Logs same_db (tick child_run_id notify reap_after locked)
unfolding tick reap_stale
tick-Logs child_run_id notify reap_after false db = Writes-refl db
tick-Logs child_run_id notify reap_after true db =
    >>=-Logs same_db _ _ (fire_due_timers-Logs child_run_id notify)
      (λ fired.
        >>=-Logs same_db _ _
          (λ d. untouched (record { events = refl; timers = refl; fresh = omega arith }))
          (λ reaped d. Writes-refl d))
      db
