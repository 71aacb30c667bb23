-- ===== src/Engine/Cancel.antt =====
-- `cancel_run` and `_cancel_on_session` of workflows/engine.py.
pub mod Counting
pub mod Shrinking
pub mod Closing
pub mod Final
pub mod Depth
use flow_speckit.Prelude.{
  ℕ, zero, suc, ◌+◌, Bool, false, ◌&&◌, not, none, some, List, [], ◌∷◌, ◌++◌, map, ◌==◌,
  if◌then◌else◌, select, count_where, Text, codes,
}
use flow_speckit.Base.{Uuid, is_terminal}
use flow_speckit.UuidText.{uuid_text}
use flow_speckit.Errors.{unknown_run, invalid_cancellation, Outcome, ok, raised}
use flow_speckit.Events.{run_cancelled}
use flow_speckit.Storage.{Db, find_run, delete_queue_row, delete_run_timers}
use flow_speckit.Storage.Recording.{record_event}
use flow_speckit.Action.{Action, pure, crash, modify, ◌>>=◌, ◌>>◌}
use flow_speckit.Engine.Settle.{settle_parent}

-- The live children of a run.
unfoldable pub live_children : Uuid → Db → List Uuid
live_children run_id db =
    map (λ r. r.run_id)
      (select
        (λ r.
          elim r.parent_run_id [ none ↦ false | some p ↦ p == run_id ]
          && not (is_terminal r.status))
        db.workflow_runs)

-- The event, the row, and the run's queue row and timers.
unfoldable pub mark_cancelled : Uuid → Text → Text → Db → Db
mark_cancelled run_id actor reason db = delete_run_timers run_id (
    delete_queue_row run_id
      (record_event run_id (run_cancelled (record { actor = actor; reason = reason })) db))

abbrev child_reason : Uuid → Text → Text
child_reason run_id reason =
    codes "parent run " ++ (uuid_text run_id ++ (codes " cancelled: " ++ reason))

-- `except InvalidCancellation: continue`.
abbrev ignore_invalid : Outcome (Unit {0}) → Outcome (Unit {0})
ignore_invalid (raised (invalid_cancellation _ _)) = ok tt
ignore_invalid o = o

unfoldable pub cancel_each : (Uuid → Action Db (Unit {0})) → List Uuid → Action Db (Unit {0})
cancel_each cancel [] = pure tt
cancel_each cancel (child ∷ children) = do
  λ db. let (o, db') = cancel child db in (ignore_invalid o, db')
  cancel_each cancel children

-- `_cancel_on_session` with its recursive call passed in.
unfoldable pub cancel_with :
    (Uuid → Text → Uuid)
    → Bool
    → (Uuid → Text → Action Db (Unit {0}))
    → Uuid
    → Text
    → Text
    → Action Db (Unit {0})
unfolding cancel_each mark_cancelled live_children
cancel_with child_run_id notify cancel run_id actor reason db = elim (find_run run_id db) [
  | none ↦ (raised (unknown_run run_id), db)
  | some row ↦
      if is_terminal row.status
      then (raised (invalid_cancellation run_id row.status), db)
      else (do
        modify (mark_cancelled run_id actor reason)
        children ← (λ db1. (ok (live_children run_id db1), db1))
        cancel_each (λ child. cancel child (child_reason run_id reason)) children
        modify (settle_parent child_run_id notify run_id))
          db
]

-- The cascade, for runs nested less than `fuel` deep.
unfoldable pub cancel_on_session :
    ℕ → (Uuid → Text → Uuid) → Bool → Uuid → Text → Text → Action Db (Unit {0})
unfolding cancel_with
cancel_on_session zero child_run_id notify run_id actor reason = crash
cancel_on_session (suc fuel) child_run_id notify run_id actor reason =
    cancel_with child_run_id notify
      (λ child why. cancel_on_session fuel child_run_id notify child actor why) run_id actor reason

-- A cancelled run is live no longer, so the cascade is no deeper than there are live runs.
abbrev pub live_runs : Db → ℕ
live_runs db = count_where (λ r. not (is_terminal r.status)) db.workflow_runs

unfoldable pub cancel_run : (Uuid → Text → Uuid) → Bool → Uuid → Text → Text → Action Db (Unit {0})
unfolding cancel_on_session
cancel_run child_run_id notify run_id actor reason db =
    cancel_on_session (live_runs db + 1) child_run_id notify run_id actor reason db
