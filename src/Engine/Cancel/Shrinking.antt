-- ===== src/Engine/Cancel/Shrinking.antt =====
-- Nothing in the cancellation of a run makes a run live.
use flow_speckit.Prelude.{
  ◌≤◌, ◌≡◌, refl, inl, inr, Bool, true, false, Option, none, some, arith, ◌==◌, Bool-cases,
  Option-cases, exists_where, count_where, Text,
}
use flow_speckit.Base.{Uuid, is_terminal, RunStatus}
use flow_speckit.Storage.{
  RunRow, Db, find_run, set_status, update_run, upsert_task_queue, notify_run,
}
use flow_speckit.Storage.Log.{append, list}
use flow_speckit.Engine.Settle.{
  settle_step, settle_event, settle_parent, settle_live_parent, settle_child_row, settle_parent_row,
  dispatched_step, settles,
}
use flow_speckit.Engine.Cancel.Counting.{
  IsUnique, is_live, IsUnique-update_where, count_where-of_live,
}

-- The run ids stay unique, and no more runs are live than before.
pub record Shrinks (a b : Db) : Type 0 where
  pub at :
      IsUnique a.workflow_runs
      → IsUnique b.workflow_runs
        × (count_where is_live b.workflow_runs ≤ count_where is_live a.workflow_runs)

pub Shrinks-runs : {a b : Db} → b.workflow_runs ≡ a.workflow_runs → Shrinks a b
Shrinks-runs same = record { at = λ u. rw same (u, omega arith) }

pub Shrinks-trans : {a b c : Db} → Shrinks a b → Shrinks b c → Shrinks a c
Shrinks-trans {a} {b} {c} h k = record {
  at = λ u. let (v, less) = h.at u in let (w, less') = k.at v in (w, omega (arith, less, less'));
}

-- A run that is live may be given any status.
Shrinks-set_status :
    (run_id : Uuid) (status : RunStatus) (db : Db) (r : RunRow)
    → find_run run_id db ≡ some r
    → is_terminal r.status ≡ false
    → Shrinks db (set_status run_id status db)
unfolding set_status update_run find_run
Shrinks-set_status run_id status db r found live = record {
  at = λ u. (
    IsUnique-update_where (λ x. x.run_id == run_id) _ db.workflow_runs (λ x. refl) u,
    count_where-of_live run_id _ db.workflow_runs r u found (ground (arith, live)),
  );
}

Shrinks-notify_run :
    (notify : Bool) (run_id : Uuid) (db before : Db)
    → db.workflow_runs ≡ before.workflow_runs
    → Shrinks before (notify_run notify run_id db)
unfolding notify_run
Shrinks-notify_run true run_id db before same = Shrinks-runs same
Shrinks-notify_run false run_id db before same = Shrinks-runs same

Shrinks-settle_step :
    (notify : Bool) (child : RunRow) (parent : Uuid) (key : Text) (db : Db) (p : RunRow)
    → find_run parent db ≡ some p
    → is_terminal p.status ≡ false
    → Shrinks db (settle_step notify child parent key db)
unfolding settle_step append upsert_task_queue find_run
Shrinks-settle_step notify child parent key db p found live =
    let db1 = (append parent (settle_event child key (list parent db)) db).0 in
    let db2 = set_status parent RunStatus.pending db1 in
    Shrinks-trans {b = db2}
      (Shrinks-trans {b = db1} (Shrinks-runs refl)
        (Shrinks-set_status parent RunStatus.pending db1 p found live))
      (Shrinks-notify_run notify parent (upsert_task_queue parent db2) db2 refl)

Shrinks-settle_live_parent :
    (child_run_id : Uuid → Text → Uuid) (notify : Bool) (child : RunRow) (parent : Uuid) (db : Db)
    (p : RunRow)
    → find_run parent db ≡ some p
    → is_terminal p.status ≡ false
    → Shrinks db (settle_live_parent child_run_id notify child parent db)
unfolding settle_live_parent
Shrinks-settle_live_parent child_run_id notify child parent db p found live =
    elim (Option-cases (dispatched_step child_run_id parent child.run_id (list parent db))) [
      | inl missing ↦ rw (missing, settle_live_parent) (Shrinks-runs refl)
      | inr (key, there) ↦
          rw (there, settle_live_parent)
            (elim (Bool-cases (exists_where (settles key) (list parent db))) [
              | inl settled ↦ rw settled (Shrinks-runs refl)
              | inr fresh ↦ rw fresh (Shrinks-settle_step notify child parent key db p found live)
            ])
    ]

Shrinks-settle_parent_row :
    (child_run_id : Uuid → Text → Uuid) (notify : Bool) (child : RunRow) (parent : Uuid) (db : Db)
    → Shrinks db (settle_parent_row child_run_id notify child parent (find_run parent db) db)
unfolding settle_parent_row
Shrinks-settle_parent_row child_run_id notify child parent db =
    elim (Option-cases (find_run parent db)) [
      | inl missing ↦ rw missing (Shrinks-runs refl)
      | inr (p, found) ↦ rw found (elim (Bool-cases (is_terminal p.status)) [
        | inl over ↦ rw over (Shrinks-runs refl)
        | inr live ↦
            rw live (Shrinks-settle_live_parent child_run_id notify child parent db p found live)
      ])
    ]

Shrinks-settle_child_row :
    (child_run_id : Uuid → Text → Uuid) (notify : Bool) (child : RunRow) (parent : Option Uuid)
    (db : Db)
    → Shrinks db (settle_child_row child_run_id notify child parent db)
unfolding settle_child_row
Shrinks-settle_child_row child_run_id notify child none db = Shrinks-runs refl
Shrinks-settle_child_row child_run_id notify child (some parent) db =
    elim (Bool-cases (is_terminal child.status)) [
      | inl ended ↦ rw ended (Shrinks-settle_parent_row child_run_id notify child parent db)
      | inr live ↦ rw live (Shrinks-runs refl)
    ]

pub Shrinks-settle_parent :
    (child_run_id : Uuid → Text → Uuid) (notify : Bool) (child : Uuid) (db : Db)
    → Shrinks db (settle_parent child_run_id notify child db)
unfolding settle_parent
Shrinks-settle_parent child_run_id notify child db = elim (Option-cases (find_run child db)) [
  | inl missing ↦ rw (missing, settle_parent) (Shrinks-runs refl)
  | inr (row, found) ↦
      rw (found, settle_parent)
        (Shrinks-settle_child_row child_run_id notify row row.parent_run_id db)
]
