-- ===== src/Storage/Recording/Sync.antt =====
-- The projection row stays what folding the log would compute.
use flow_speckit.Prelude.{
  ◌≡◌, refl, ap, ◌∙◌, some, [], ◌∷◌, ◌++◌, arith, ◌==◌, if◌then◌else◌, ==_refl, first_where-matches,
  first_where-update_where,
}
use flow_speckit.Base.{Uuid}
use flow_speckit.Events.{WorkflowEvent, RunProjection, project_event, project_run}
use flow_speckit.Storage.{RunRow, Db, find_run, update_run}
use flow_speckit.Storage.Log.{append, list}
use flow_speckit.Storage.Log.Gapless.{IsGapless, append-IsGapless, list-append}
use flow_speckit.Storage.Recording.{event_values, apply_event_to_run_row, record_event}
use flow_speckit.Events.Projection.{project_run-append}

-- The row shows the projection, in the columns that events write.
pub record Shows (r : RunRow) (p : RunProjection) : Type 0 where
  pub status : r.status ≡ p.status
  pub current_step : r.current_step ≡ p.current_step
  pub output_ref : r.output_ref ≡ p.output_ref
  pub error : r.error ≡ p.error

-- One event changes the row as it changes the projection.
event_values-Shows :
    (e : WorkflowEvent) {r : RunRow} {p : RunProjection}
    → Shows r p
    → Shows (event_values e r) (project_event p e)
unfolding event_values project_event
event_values-Shows e h = ground arith

event_values-run_id : (e : WorkflowEvent) (r : RunRow) → (event_values e r).run_id ≡ r.run_id
unfolding event_values
event_values-run_id e r = ground arith

-- The row that `update_run` leaves under its own run.
pub find_run-update_run :
    (run_id : Uuid) (f : RunRow → RunRow) (db : Db) {r : RunRow}
    → ((x : RunRow) → (f x).run_id ≡ x.run_id)
    → find_run run_id db ≡ some r
    → find_run run_id (update_run run_id f db) ≡ some (record (f r) { updated_at = db.clock })
unfolding find_run update_run
find_run-update_run run_id f db {r} keep found =
    rw
      (first_where-update_where (λ (x : RunRow). x.run_id == run_id) (λ x. x.run_id == run_id)
        (λ x. record (f x) { updated_at = db.clock }) db.workflow_runs
        (λ x. ap (λ k. k == run_id) (keep x)))
      (rw found
        (rw (first_where-matches (λ (x : RunRow). x.run_id == run_id) db.workflow_runs found) refl))

find_run-append :
    (run_id other : Uuid) (e : WorkflowEvent) (db : Db)
    → find_run other (append run_id e db).0 ≡ find_run other db
unfolding append find_run
find_run-append run_id other e db = refl

IsGapless-apply_event_to_run_row :
    (run_id : Uuid) (e : WorkflowEvent) {db : Db}
    → IsGapless db
    → IsGapless (apply_event_to_run_row run_id e db)
unfolding apply_event_to_run_row
IsGapless-apply_event_to_run_row run_id e g = record { at_run = g.at_run }

list-apply_event_to_run_row :
    (run_id other : Uuid) (e : WorkflowEvent) (db : Db)
    → list other (apply_event_to_run_row run_id e db) ≡ list other db
unfolding apply_event_to_run_row list
list-apply_event_to_run_row run_id other e db = refl

pub record_event-IsGapless :
    (run_id : Uuid) (e : WorkflowEvent) {db : Db}
    → IsGapless db
    → IsGapless (record_event run_id e db)
unfolding record_event
record_event-IsGapless run_id e {db} g =
    IsGapless-apply_event_to_run_row run_id e (append-IsGapless run_id e db g)

pub list-record_event :
    (run_id other : Uuid) (e : WorkflowEvent) (db : Db)
    → IsGapless db
    → list other (record_event run_id e db)
      ≡ (if run_id == other then list other db ++ e ∷ [] else list other db)
unfolding record_event
list-record_event run_id other e db g =
    list-apply_event_to_run_row run_id other e (append run_id e db).0
    ∙ list-append run_id other e db g

-- Where the row of a run shows the projection of its gapless log, it shows it again after any
-- event is recorded.
pub record_event-Shows :
    (run_id : Uuid) (e : WorkflowEvent) (db : Db) (r : RunRow)
    → IsGapless db
    → find_run run_id db ≡ some r
    → Shows r (project_run run_id (list run_id db))
    → (r' : RunRow) × (find_run run_id (record_event run_id e db) ≡ some r')
      × Shows r' (project_run run_id (list run_id (record_event run_id e db)))
unfolding record_event apply_event_to_run_row
record_event-Shows run_id e db r g found shows = (
  record (event_values e r) { updated_at = db.clock },
  find_run-update_run run_id (event_values e) (append run_id e db).0 (event_values-run_id e)
      (find_run-append run_id run_id e db ∙ found),
  rw (list-record_event run_id run_id e db g) (
      rw (==_refl run_id) (
        rw (project_run-append run_id (list run_id db) e) (
          let s = event_values-Shows e shows in
          record {
            status = s.status;
            current_step = s.current_step;
            output_ref = s.output_ref;
            error = s.error;
          }))),
)
