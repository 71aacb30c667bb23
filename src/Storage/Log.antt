-- ===== src/Storage/Log.antt =====
-- `EventLog` of workflows/events.py over the `workflow_events` table.
pub mod Gapless
pub mod Elsewhere
use flow_speckit.Prelude.{ℕ, ◌+◌, List, [], ◌∷◌, ◌++◌, map, ◌==◌, greatest, select, order_by}
use flow_speckit.Base.{Uuid}
use flow_speckit.Events.{WorkflowEvent}
use flow_speckit.Storage.{EventRow, Db}

unfoldable pub rows_of : Uuid → List EventRow → List EventRow
rows_of run_id rows = select (λ r. r.run_id == run_id) rows

-- `EventLog.append`: the new database and the allocated `seq`.
unfoldable pub append : Uuid → WorkflowEvent → Db → Db × ℕ
append run_id event db =
    let seq = greatest (λ r. r.seq) (rows_of run_id db.workflow_events) + 1 in
    (
      record db {
        workflow_events =
            db.workflow_events ++ record { run_id = run_id; seq = seq; event = event } ∷ [];
      },
      seq,
    )

-- `EventLog.list`: the run's events `ORDER BY seq`.
unfoldable pub list : Uuid → Db → List WorkflowEvent
list run_id db = map (λ r. r.event) (order_by (λ r. r.seq) (rows_of run_id db.workflow_events))
