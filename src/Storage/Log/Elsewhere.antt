-- ===== src/Storage/Log/Elsewhere.antt =====
-- Statements on the other tables leave every run's history alone.
use flow_speckit.Prelude.{◌≡◌, refl, ◌∙◌, Bool, true, false}
use flow_speckit.Base.{Uuid, RunStatus}
use flow_speckit.Storage.{
  Db, upsert_task_queue, notify_run, set_status, delete_queue_row, delete_timer, update_run,
}
use flow_speckit.Storage.Log.{list}
use flow_speckit.Storage.Log.Gapless.{IsGapless}

-- The table of events is the same.
pub record SameEvents (db db' : Db) : Type 0 where
  pub events : db'.workflow_events ≡ db.workflow_events

pub list-SameEvents :
    (run_id : Uuid) {db db' : Db} → SameEvents db db' → list run_id db' ≡ list run_id db
unfolding list
list-SameEvents run_id h = rw h.events refl

pub IsGapless-SameEvents : {db db' : Db} → SameEvents db db' → IsGapless db → IsGapless db'
IsGapless-SameEvents h g = record { at_run = λ run_id. rw h.events (g.at_run run_id) }

pub SameEvents-refl : (db : Db) → SameEvents db db
SameEvents-refl db = record { events = refl }

pub SameEvents-trans : {a b c : Db} → SameEvents a b → SameEvents b c → SameEvents a c
SameEvents-trans h k = record { events = k.events ∙ h.events }

pub SameEvents-upsert_task_queue :
    (run_id : Uuid) (db : Db) → SameEvents db (upsert_task_queue run_id db)
unfolding upsert_task_queue
SameEvents-upsert_task_queue run_id db = record { events = refl }

pub SameEvents-notify_run :
    (notify : Bool) (run_id : Uuid) (db : Db) → SameEvents db (notify_run notify run_id db)
unfolding notify_run
SameEvents-notify_run true run_id db = record { events = refl }
SameEvents-notify_run false run_id db = record { events = refl }

pub SameEvents-delete_timer : (timer_id : Uuid) (db : Db) → SameEvents db (delete_timer timer_id db)
unfolding delete_timer
SameEvents-delete_timer timer_id db = record { events = refl }

pub SameEvents-delete_queue_row :
    (run_id : Uuid) (db : Db) → SameEvents db (delete_queue_row run_id db)
unfolding delete_queue_row
SameEvents-delete_queue_row run_id db = record { events = refl }

pub SameEvents-set_status :
    (run_id : Uuid) (status : RunStatus) (db : Db) → SameEvents db (set_status run_id status db)
unfolding set_status update_run
SameEvents-set_status run_id status db = record { events = refl }
