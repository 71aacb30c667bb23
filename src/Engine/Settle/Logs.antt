-- ===== src/Engine/Settle/Logs.antt =====
-- Settling the parent of a run leaves the run's own history alone.
use flow_speckit.Prelude.{
  ◌≡◌, refl, ◌∙◌, inl, inr, Bool, true, false, some, ◌==◌, ==_iff, Bool-cases, Option-cases,
  exists_where, Text,
}
use flow_speckit.Storage.{RunRow, Db, find_run, set_status, upsert_task_queue}
use flow_speckit.Storage.Log.Elsewhere.{list-SameEvents, SameEvents-notify_run}
use flow_speckit.Storage.Log.{list}
use flow_speckit.Storage.Log.Gapless.{IsGapless, list-append}
use flow_speckit.Engine.Settle.{
  settle_event, settle_step, settle_live_parent, settle_parent_row, settle_child_row, settle_parent,
  settles, dispatched_step, Uuid, is_terminal,
}

list-settle_step :
    (notify : Bool) (child : RunRow) (parent other : Uuid) (key : Text) (db : Db)
    → IsGapless db
    → (parent == other) ≡ false
    → list other (settle_step notify child parent key db) ≡ list other db
unfolding settle_step list set_status upsert_task_queue
list-settle_step notify child parent other key db g differs =
    list-SameEvents other (SameEvents-notify_run notify parent _)
    ∙ (list-append parent other (settle_event child key (list parent db)) db g ∙ rw differs refl)

list-settle_live_parent :
    (child_run_id : Uuid → Text → Uuid) (notify : Bool) (child : RunRow) (parent other : Uuid)
    (db : Db)
    → IsGapless db
    → (parent == other) ≡ false
    → list other (settle_live_parent child_run_id notify child parent db) ≡ list other db
unfolding settle_live_parent
list-settle_live_parent child_run_id notify child parent other db g differs =
    elim (Option-cases (dispatched_step child_run_id parent child.run_id (list parent db))) [
      | inl missing ↦ rw (missing, settle_live_parent) refl
      | inr (key, found) ↦
          rw (found, settle_live_parent)
            (elim (Bool-cases (exists_where (settles key) (list parent db))) [
              | inl settled ↦ rw settled refl
              | inr live ↦ rw live (list-settle_step notify child parent other key db g differs)
            ])
    ]

list-settle_parent_row :
    (child_run_id : Uuid → Text → Uuid) (notify : Bool) (child parent : Uuid) (row : RunRow)
    (db : Db)
    → IsGapless db
    → find_run child db ≡ some row
    → is_terminal row.status ≡ true
    → list child (settle_parent_row child_run_id notify row parent (find_run parent db) db)
      ≡ list child db
unfolding settle_parent_row
list-settle_parent_row child_run_id notify child parent row db g found ended =
    elim (Bool-cases (parent == child)) [
      | inl same ↦ rw ((==_iff parent child).0 same, found, ended) refl
      | inr differs ↦ elim (Option-cases (find_run parent db)) [
        | inl missing ↦ rw missing refl
        | inr (p, there) ↦ rw there (elim (Bool-cases (is_terminal p.status)) [
          | inl over ↦ rw over refl
          | inr live ↦
              rw live (list-settle_live_parent child_run_id notify row parent child db g differs)
        ])
      ]
    ]

pub list-settle_parent :
    (child_run_id : Uuid → Text → Uuid) (notify : Bool) (child : Uuid) (db : Db)
    → IsGapless db
    → list child (settle_parent child_run_id notify child db) ≡ list child db
unfolding settle_parent settle_child_row settle_parent_row
list-settle_parent child_run_id notify child db g = elim (Option-cases (find_run child db)) [
  | inl missing ↦ rw (missing, settle_parent) refl
  | inr (row, found) ↦
      rw (found, settle_parent)
        (elim (Option-cases row.parent_run_id) [
          | inl orphan ↦ rw (orphan, settle_child_row) refl
          | inr (parent, has) ↦
              rw (has, settle_child_row)
                (elim (Bool-cases (is_terminal row.status)) [
                  | inr live ↦ rw live refl
                  | inl ended ↦
                      rw ended (
                        list-settle_parent_row child_run_id notify child parent row db g found
                          ended)
                ])
        ])
]
