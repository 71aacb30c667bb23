-- ===== src/Storage/Writes/Statements.antt =====
-- The statements of the storage layer, as writers of the tables of events and timers.
use flow_speckit.Prelude.{refl, Bool, true, false, arith, ◌==◌, Text}
use flow_speckit.Storage.{
  upsert_task_queue, set_status, notify_run, delete_queue_row, delete_timer, delete_run_timers, Db,
  update_run, insert_timer,
}
use flow_speckit.Base.{Uuid, TimerKind, Instant, RunStatus}
use flow_speckit.Storage.Recording.{record_event, apply_event_to_run_row}
use flow_speckit.Storage.Log.{append}
use flow_speckit.Storage.Writes.{
  Writes, disarmed, untouched, Untouched-refl, armed, Writes-refl, appended,
}
use flow_speckit.Events.{WorkflowEvent}

pub Writes-record_event :
    (run_id : Uuid) (e : WorkflowEvent) (db : Db) → Writes db (record_event run_id e db)
unfolding record_event apply_event_to_run_row update_run append
Writes-record_event run_id e db =
    appended run_id e (record { events = refl; timers = refl; fresh = omega arith })

pub Writes-set_status :
    (run_id : Uuid) (status : RunStatus) (db : Db) → Writes db (set_status run_id status db)
unfolding set_status update_run
Writes-set_status run_id status db =
    untouched (record { events = refl; timers = refl; fresh = omega arith })

pub Writes-upsert_task_queue : (run_id : Uuid) (db : Db) → Writes db (upsert_task_queue run_id db)
unfolding upsert_task_queue
Writes-upsert_task_queue run_id db =
    untouched (record { events = refl; timers = refl; fresh = omega arith })

pub Writes-notify_run :
    (notify : Bool) (run_id : Uuid) (db : Db) → Writes db (notify_run notify run_id db)
unfolding notify_run
Writes-notify_run true run_id db =
    untouched (record { events = refl; timers = refl; fresh = omega arith })
Writes-notify_run false run_id db = Writes-refl db

pub Writes-delete_timer : (timer_id : Uuid) (db : Db) → Writes db (delete_timer timer_id db)
unfolding delete_timer
Writes-delete_timer timer_id db = disarmed (λ t. t.timer_id == timer_id) (Untouched-refl _)

pub Writes-delete_run_timers : (run_id : Uuid) (db : Db) → Writes db (delete_run_timers run_id db)
unfolding delete_run_timers
Writes-delete_run_timers run_id db = disarmed (λ t. t.run_id == run_id) (Untouched-refl _)

pub Writes-delete_queue_row : (run_id : Uuid) (db : Db) → Writes db (delete_queue_row run_id db)
unfolding delete_queue_row
Writes-delete_queue_row run_id db =
    untouched (record { events = refl; timers = refl; fresh = omega arith })

pub Writes-insert_timer :
    (run_id : Uuid) (kind : TimerKind) (key : Text) (fire_at : Instant) (db : Db)
    → Writes db (insert_timer run_id kind key fire_at db)
Writes-insert_timer run_id kind key fire_at db = armed run_id kind key fire_at (Untouched-refl _)
