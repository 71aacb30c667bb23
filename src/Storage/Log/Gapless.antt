-- ===== src/Storage/Log/Gapless.antt =====
-- The sequence numbers of a run are 1, 2, …, and `list` gives the events as they were appended.
use flow_speckit.Prelude.{
  ℕ, ◌+◌, ◌≡◌, ap, ◌∙◌, inl, inr, [], ◌∷◌, ◌++◌, map, append-nil, map-append, arith, ◌==◌,
  if◌then◌else◌, ==_iff, Bool-cases, IsNumberedFrom, IsNumberedFrom-append, greatest-IsNumberedFrom,
  IsAscending-IsNumberedFrom, length, select, select-append, order_by-eq_self,
}
use flow_speckit.Base.{Uuid}
use flow_speckit.Events.{WorkflowEvent}
use flow_speckit.Storage.{EventRow, Db}
use flow_speckit.Storage.Log.{rows_of, append, list}

abbrev pub seq_of : EventRow → ℕ
seq_of r = r.seq

-- Every run's numbers are 1, 2, … in the order of the table.
pub record IsGapless (db : Db) : Type 0 where
  pub at_run : (run_id : Uuid) → IsNumberedFrom seq_of 1 (rows_of run_id db.workflow_events)

-- In a gapless log `ORDER BY seq` keeps the order of the table.
pub list-eq-rows :
    {db : Db} (run_id : Uuid)
    → IsGapless db
    → list run_id db ≡ map (λ r. r.event) (rows_of run_id db.workflow_events)
unfolding list
list-eq-rows {db} run_id g = ap (map (λ (r : EventRow). r.event)) (
    order_by-eq_self seq_of (rows_of run_id db.workflow_events)
      (IsAscending-IsNumberedFrom seq_of 1 (rows_of run_id db.workflow_events) (g.at_run run_id)))

rows_of-append :
    (run_id other : Uuid) (e : WorkflowEvent) (db : Db)
    → rows_of other (append run_id e db).0.workflow_events
      ≡ rows_of other db.workflow_events
        ++ (if run_id == other
            then record { run_id = run_id; seq = (append run_id e db).1; event = e } ∷ []
            else [])
unfolding append rows_of select
rows_of-append run_id other e db =
    select-append (λ r. r.run_id == other) db.workflow_events
      (record { run_id = run_id; seq = (append run_id e db).1; event = e } ∷ [])

-- The number that `append` allocates is one more than the run has events.
pub append_seq :
    (run_id : Uuid) (e : WorkflowEvent) (db : Db)
    → IsGapless db
    → (append run_id e db).1 ≡ length (rows_of run_id db.workflow_events) + 1
unfolding append
append_seq run_id e db g =
    omega (
      arith,
      greatest-IsNumberedFrom seq_of 0 (rows_of run_id db.workflow_events) (g.at_run run_id),
    )

-- Appending an event keeps the sequence numbers of every run at 1, 2, and so on in the order of
-- the table.
pub append-IsGapless :
    (run_id : Uuid) (e : WorkflowEvent) (db : Db) → IsGapless db → IsGapless (append run_id e db).0
append-IsGapless run_id e db g = record {
  at_run = λ other. rw (rows_of-append run_id other e db) (elim (Bool-cases (run_id == other)) [
    | inl same ↦ rw same (
        let same' : run_id ≡ other = (==_iff run_id other).0 same in
        IsNumberedFrom-append seq_of 1 (rows_of other db.workflow_events) _ (g.at_run other)
          (rw (← same') (append_seq run_id e db g ∙ omega arith)))
    | inr differs ↦ rw (differs, append-nil) (g.at_run other)
  ]);
}

-- In a gapless log, the history of the run that an event was appended to ends with that event
-- after all earlier ones, and the history of every other run is the same.
pub list-append :
    (run_id other : Uuid) (e : WorkflowEvent) (db : Db)
    → IsGapless db
    → list other (append run_id e db).0
      ≡ (if run_id == other then list other db ++ e ∷ [] else list other db)
list-append run_id other e db g =
    rw
      (
        list-eq-rows other (append-IsGapless run_id e db g),
        list-eq-rows other g,
        rows_of-append run_id other e db,
      )
      (elim (Bool-cases (run_id == other)) [
        | inl same ↦ rw (same, map-append)
        | inr differs ↦ rw (differs, append-nil)
      ])
