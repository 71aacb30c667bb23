-- ===== src/Timers/Sleeping.antt =====
-- A sleep's timer completes its step once, and the replayed call is answered.
use flow_speckit.Prelude.{
  ℕ, ◌≡◌, refl, ◌∙◌, inl, inr, Bool, true, [], ==_refl, Bool-cases, exists_where,
  exists_where-append, Text, text_eq_refl,
}
use flow_speckit.Base.{Uuid}
use flow_speckit.Json.{null}
use flow_speckit.Storage.{Db, TimerRow, upsert_task_queue, delete_timer}
use flow_speckit.Storage.Log.{list}
use flow_speckit.Storage.Log.Elsewhere.{
  SameEvents, list-SameEvents, SameEvents-trans, SameEvents-upsert_task_queue,
  SameEvents-delete_timer, SameEvents-notify_run,
}
use flow_speckit.Storage.Log.Gapless.{IsGapless}
use flow_speckit.Context.{Env, new_context}
use flow_speckit.Context.Run.{perform_at}
use flow_speckit.Engine.Execute.{World, fresh_pass, completes}
use flow_speckit.Timers.{fire_sleep, complete_sleep, slept}
use flow_speckit.Replay.Calls.{perform_at-Recalls}
use flow_speckit.Workflow.{sleep, value}
use flow_speckit.Errors.{ok}
use flow_speckit.Events.{step_completed}
use flow_speckit.Storage.Recording.Sync.{list-record_event}
use flow_speckit.Context.Memory.{fill-completes}

list-complete_sleep :
    (run_id : Uuid) (step_key : Text) (db : Db)
    → IsGapless db
    → exists_where (completes step_key) (list run_id (complete_sleep run_id step_key db)) ≡ true
unfolding complete_sleep
list-complete_sleep run_id step_key db g =
    elim (Bool-cases (exists_where (completes step_key) (list run_id db))) [
      | inl done ↦ rw (done, complete_sleep) done
      | inr new ↦
          rw
            (
              new,
              complete_sleep,
              list-record_event run_id run_id (step_completed (slept step_key)) db g,
            )
            (rw (==_refl run_id, exists_where-append)
              (unfold exists_where in rw (text_eq_refl step_key) (rw new refl)))
    ]

SameEvents-fire_sleep :
    (notify : Bool) (row : TimerRow) (db : Db)
    → SameEvents (complete_sleep row.run_id row.step_key db) (fire_sleep notify row db)
unfolding fire_sleep
SameEvents-fire_sleep notify row db =
    let db1 = complete_sleep row.run_id row.step_key db in
    let db2 = upsert_task_queue row.run_id db1 in
    SameEvents-trans (SameEvents-upsert_task_queue row.run_id db1) (
      SameEvents-trans (SameEvents-delete_timer row.timer_id db2)
        (SameEvents-notify_run notify row.run_id (delete_timer row.timer_id db2)))

fire_sleep-completes :
    (notify : Bool) (row : TimerRow) (db : Db)
    → IsGapless db
    → exists_where (completes row.step_key) (list row.run_id (fire_sleep notify row db)) ≡ true
fire_sleep-completes notify row db g =
    rw (list-SameEvents row.run_id (SameEvents-fire_sleep notify row db))
      (list-complete_sleep row.run_id row.step_key db g)

-- Over a gapless log, firing a sleep timer a second time leaves the history of its run as the
-- first firing left it.
pub fire_sleep-once :
    (notify : Bool) (row : TimerRow) (db : Db)
    → IsGapless db
    → list row.run_id (fire_sleep notify row (fire_sleep notify row db))
      ≡ list row.run_id (fire_sleep notify row db)
unfolding complete_sleep
fire_sleep-once notify row db g =
    list-SameEvents row.run_id (SameEvents-fire_sleep notify row (fire_sleep notify row db))
    ∙ rw (fire_sleep-completes notify row db g, complete_sleep) refl

-- After the timer of a sleep has fired over a gapless log, the sleep is answered in the next
-- pass on any engine while nothing is written.
pub fire_sleep-answers :
    (env : Env) (notify : Bool) (row : TimerRow) (db : Db) (w : World) (label : Text) (duration : ℕ)
    → IsGapless db
    → w.db ≡ fire_sleep notify row db
    → perform_at env row.step_key (sleep label duration) (fresh_pass row.run_id w)
      ≡ (ok (value null), fresh_pass row.run_id w)
unfolding new_context
fire_sleep-answers env notify row db w label duration g fired =
    let done : exists_where (completes row.step_key) (list row.run_id w.db) ≡ true =
      (rw fired (fire_sleep-completes notify row db g)) in
    let (v, found) = fill-completes row.step_key (list row.run_id w.db) [] done in
    perform_at-Recalls env row.step_key (sleep label duration) (fresh_pass row.run_id w)
      (value null) (v, found, refl)
