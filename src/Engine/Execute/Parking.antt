-- ===== src/Engine/Execute/Parking.antt =====
-- A run that a pass parks is queued exactly where its wake came first.
use flow_speckit.Prelude.{
  ◌≡◌, refl, ◌∙◌, inl, inr, Bool, true, false, none, ◌==◌, ==_refl, Bool-cases, exists_where,
  exists_where-append, delete_where-gone,
}
use flow_speckit.Base.{Uuid, RunStatus}
use flow_speckit.Errors.{SuspendRun}
use flow_speckit.Storage.{
  Db, upsert_task_queue, set_status, update_run, delete_queue_row, notify_run, timer_exists,
}
use flow_speckit.Storage.Log.{list}
use flow_speckit.Engine.Execute.{
  reconcile_suspend, reconcile_wake, park, is_woken, requeue, last_where, is_ending,
}

abbrev pub is_queued : Uuid → Db → Bool
is_queued run_id db = exists_where (λ q. q.run_id == run_id) db.task_queue

is_queued-park :
    (run_id : Uuid) (suspend : SuspendRun) (db : Db)
    → is_queued run_id (park run_id suspend db) ≡ false
unfolding park delete_queue_row set_status update_run
is_queued-park run_id suspend db = delete_where-gone (λ q. q.run_id == run_id) db.task_queue

is_woken-park :
    (run_id : Uuid) (suspend : SuspendRun) (db : Db)
    → is_woken run_id suspend (park run_id suspend db) ≡ is_woken run_id suspend db
unfolding park delete_queue_row set_status update_run is_woken list timer_exists
is_woken-park run_id suspend db = refl

list-park :
    (run_id : Uuid) (suspend : SuspendRun) (db : Db)
    → list run_id (park run_id suspend db) ≡ list run_id db
unfolding park delete_queue_row set_status update_run list
list-park run_id suspend db = refl

is_queued-notify_run :
    (notify : Bool) (run_id other : Uuid) (db : Db)
    → is_queued run_id (notify_run notify other db) ≡ is_queued run_id db
unfolding notify_run
is_queued-notify_run true run_id other db = refl
is_queued-notify_run false run_id other db = refl

is_queued-upsert_task_queue :
    (run_id : Uuid) (db : Db)
    → is_queued run_id db ≡ false
    → is_queued run_id (upsert_task_queue run_id db) ≡ true
unfolding upsert_task_queue exists_where
is_queued-upsert_task_queue run_id db h = rw h (
    rw (exists_where-append (λ q. q.run_id == run_id) db.task_queue _)
      (rw (h, ==_refl run_id) refl))

is_queued-requeue :
    (notify : Bool) (run_id : Uuid) (db : Db)
    → is_queued run_id db ≡ false
    → is_queued run_id (requeue notify run_id db) ≡ true
unfolding requeue set_status update_run
is_queued-requeue notify run_id db h =
    is_queued-notify_run notify run_id run_id
      (upsert_task_queue run_id (set_status run_id RunStatus.pending db))
    ∙ is_queued-upsert_task_queue run_id (set_status run_id RunStatus.pending db) h

-- After a pass has parked its run and reconciled with no session between, where the log holds no
-- cancellation or failure, the run is queued exactly if the suspended step was woken before.
is_queued-reconcile_suspend :
    (notify : Bool) (run_id : Uuid) (suspend : SuspendRun) (db : Db)
    → last_where is_ending (list run_id db) ≡ none
    → is_queued run_id (reconcile_suspend notify run_id suspend (park run_id suspend db)).1
      ≡ is_woken run_id suspend db
unfolding reconcile_suspend reconcile_wake
is_queued-reconcile_suspend notify run_id suspend db live =
    let parked = park run_id suspend db in
    let live' : last_where is_ending (list run_id parked) ≡ none =
      (rw (list-park run_id suspend db) live) in
    elim (Bool-cases (is_woken run_id suspend db)) [
      | inl woken ↦
          rw (live', reconcile_suspend)
            (rw (is_woken-park run_id suspend db, reconcile_wake)
              (rw (woken)
                (is_queued-requeue notify run_id parked (is_queued-park run_id suspend db))))
      | inr asleep ↦
          rw (live', reconcile_suspend)
            (rw (is_woken-park run_id suspend db, reconcile_wake)
              (rw (asleep) (is_queued-park run_id suspend db)))
    ]
