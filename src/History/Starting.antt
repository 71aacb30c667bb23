-- ===== src/History/Starting.antt =====
-- Starting, settling and failing runs (workflows/engine.py), as writers of the event table.
use flow_speckit.Prelude.{
  refl, inl, inr, Bool, ◌||◌, Option, none, some, ◌++◌, arith, ◌==◌, Bool-cases, Option-cases,
  exists_where, Text, codes,
}
use flow_speckit.Engine.Start.{insert_run, start_run, choose_id, pinned_version, start_child}
use flow_speckit.Storage.{Db, RunRow, find_run}
use flow_speckit.Base.{Uuid, is_terminal, RunStatus}
use flow_speckit.Workflow.Registry.{WorkflowRegistry}
use flow_speckit.Json.{Json}
use flow_speckit.Storage.Writes.{
  Logs, Writes-refl, untouched, >>=-Logs, Writes-append, Writes, followed,
}
use flow_speckit.Engine.Settle.{
  settle_parent, settle_parent_row, fail_run, settle_child_row, settle_live_parent, settle_step,
  dispatched_step, settle_event, settles,
}
use flow_speckit.UuidText.{uuid_text}
use flow_speckit.Errors.{Exception}
use flow_speckit.Storage.Writes.Statements.{
  Writes-notify_run, Writes-record_event, Writes-delete_queue_row, Writes-set_status,
  Writes-upsert_task_queue,
}
use flow_speckit.Storage.Log.{list}

abbrev pub same_db : Db → Db
same_db db = db

insert_run-Logs : (row : RunRow) → Logs same_db (insert_run row)
unfolding insert_run
insert_run-Logs row db =
    elim (Bool-cases (
      exists_where (λ r. r.run_id == row.run_id) db.workflow_runs
      || exists_where (λ q. q.run_id == row.run_id) db.task_queue)) [
        | inl taken ↦ rw taken (Writes-refl db)
        | inr free ↦
            rw free (untouched (record { events = refl; timers = refl; fresh = omega arith }))
      ]

choose_id-Logs : (given : Option Uuid) → Logs same_db (choose_id given)
unfolding choose_id
choose_id-Logs none db = untouched (record { events = refl; timers = refl; fresh = omega arith })
choose_id-Logs (some run_id) db = Writes-refl db

pub start_run-Logs :
    (workflows : WorkflowRegistry) (notify : Bool) (name version : Text) (input : Json)
    (actor : Text) (parent given : Option Uuid)
    → Logs same_db (start_run workflows notify name version input actor parent given)
unfolding start_run
start_run-Logs workflows notify name version input actor parent given =
    >>=-Logs same_db _ _ (λ db. Writes-refl db)
      (λ _. >>=-Logs same_db _ _ (choose_id-Logs given) (λ run_id.
        >>=-Logs same_db _ _ (λ db. Writes-append run_id _ db)
          (λ _.
            >>=-Logs same_db _ _ (λ db. Writes-refl db)
              (λ now. >>=-Logs same_db _ _ (insert_run-Logs _) (λ _.
                >>=-Logs same_db _ _ (λ db. Writes-notify_run notify run_id db)
                  (λ _ db. Writes-refl db))))))

pinned_version-Logs :
    (workflows : WorkflowRegistry) (name : Text) (version : Option Text)
    → Logs same_db (pinned_version workflows name version)
pinned_version-Logs workflows name (some version) db = Writes-refl db
pinned_version-Logs workflows name none db =
    >>=-Logs same_db _ _ (λ db. Writes-refl db) (λ d db. Writes-refl db) db

pub start_child-Logs :
    (workflows : WorkflowRegistry) (notify : Bool) (name : Text) (version : Option Text)
    (input : Json) (parent run_id : Uuid)
    → Logs same_db (start_child workflows notify name version input parent run_id)
unfolding start_child
start_child-Logs workflows notify name version input parent run_id =
    >>=-Logs same_db _ _ (pinned_version-Logs workflows name version) (λ pinned.
      >>=-Logs same_db _ _
        (start_run-Logs workflows notify name pinned input (codes "run:" ++ uuid_text parent)
          (some parent) (some run_id))
        (λ _ db. Writes-refl db))

settle_step-Writes :
    (notify : Bool) (child : RunRow) (parent : Uuid) (key : Text) (db : Db)
    → Writes db (settle_step notify child parent key db)
unfolding settle_step
settle_step-Writes notify child parent key db =
    followed (Writes-append parent (settle_event child key (list parent db)) db) (
      followed (Writes-set_status parent RunStatus.pending _)
        (followed (Writes-upsert_task_queue parent _) (Writes-notify_run notify parent _)))

settle_live_parent-Writes :
    (child_run_id : Uuid → Text → Uuid) (notify : Bool) (child : RunRow) (parent : Uuid) (db : Db)
    → Writes db (settle_live_parent child_run_id notify child parent db)
unfolding settle_live_parent
settle_live_parent-Writes child_run_id notify child parent db =
    elim (Option-cases (dispatched_step child_run_id parent child.run_id (list parent db))) [
      | inl missing ↦ rw (missing, settle_live_parent) (Writes-refl db)
      | inr (key, found) ↦
          rw (found, settle_live_parent)
            (elim (Bool-cases (exists_where (settles key) (list parent db))) [
              | inl settled ↦ rw settled (Writes-refl db)
              | inr live ↦ rw live (settle_step-Writes notify child parent key db)
            ])
    ]

settle_parent_row-Writes :
    (child_run_id : Uuid → Text → Uuid) (notify : Bool) (child : RunRow) (parent : Uuid)
    (row : Option RunRow) (db : Db)
    → Writes db (settle_parent_row child_run_id notify child parent row db)
unfolding settle_parent_row
settle_parent_row-Writes child_run_id notify child parent none db = Writes-refl db
settle_parent_row-Writes child_run_id notify child parent (some p) db =
    elim (Bool-cases (is_terminal p.status)) [
      | inl over ↦ rw over (Writes-refl db)
      | inr live ↦ rw live (settle_live_parent-Writes child_run_id notify child parent db)
    ]

settle_child_row-Writes :
    (child_run_id : Uuid → Text → Uuid) (notify : Bool) (child : RunRow) (parent : Option Uuid)
    (db : Db)
    → Writes db (settle_child_row child_run_id notify child parent db)
unfolding settle_child_row
settle_child_row-Writes child_run_id notify child none db = Writes-refl db
settle_child_row-Writes child_run_id notify child (some parent) db =
    elim (Bool-cases (is_terminal child.status)) [
      | inl over ↦
          rw over
            (settle_parent_row-Writes child_run_id notify child parent (find_run parent db) db)
      | inr live ↦ rw live (Writes-refl db)
    ]

pub settle_parent-Writes :
    (child_run_id : Uuid → Text → Uuid) (notify : Bool) (child : Uuid) (db : Db)
    → Writes db (settle_parent child_run_id notify child db)
unfolding settle_parent
settle_parent-Writes child_run_id notify child db = elim (Option-cases (find_run child db)) [
  | inl missing ↦ rw (missing, settle_parent) (Writes-refl db)
  | inr (row, found) ↦
      rw (found, settle_parent)
        (settle_child_row-Writes child_run_id notify row row.parent_run_id db)
]

pub fail_run-Writes :
    (child_run_id : Uuid → Text → Uuid) (notify : Bool) (run_id : Uuid) (e : Exception)
    (failed_step : Text) (db : Db)
    → Writes db (fail_run child_run_id notify run_id e failed_step db)
unfolding fail_run
fail_run-Writes child_run_id notify run_id e failed_step db =
    followed (Writes-record_event run_id _ db) (
      followed (Writes-delete_queue_row run_id _)
        (settle_parent-Writes child_run_id notify run_id _))
