-- ===== src/Engine/Cancel/Final.antt =====
-- A cancellation is final: the log keeps it, and the run is executed no more.
use flow_speckit.Prelude.{
  ℕ, zero, suc, ◌+◌, ◌≡◌, refl, ap, subst, inl, inr, Bool, true, Option, none, some, arith, ◌==◌,
  ==_refl, Bool-cases, Option-cases, exists_where, exists_where-append, Text,
}
use flow_speckit.Base.{Uuid, is_terminal, RunStatus}
use flow_speckit.Storage.{
  Db, RunRow, find_run, set_status, upsert_task_queue, update_run, delete_run_timers,
  delete_queue_row,
}
use flow_speckit.Storage.Log.{append, list}
use flow_speckit.Storage.Log.Gapless.{IsGapless, list-append, append-IsGapless}
use flow_speckit.Storage.Log.Elsewhere.{
  SameEvents, list-SameEvents, SameEvents-trans, IsGapless-SameEvents, SameEvents-set_status,
  SameEvents-upsert_task_queue, SameEvents-notify_run,
}
use flow_speckit.Context.Steps.{is_run_cancelled}
use flow_speckit.Engine.Settle.{
  settle_parent, settle_step, settle_live_parent, settle_child_row, settle_parent_row,
  dispatched_step, settles, settle_event,
}
use flow_speckit.Events.{WorkflowEvent, run_cancelled, project_run}
use flow_speckit.Engine.Cancel.{
  cancel_run, mark_cancelled, cancel_on_session, live_runs, cancel_with,
}
use flow_speckit.Engine.Execute.{execute_run, execute_row, World, RunOutcome}
use flow_speckit.Errors.{ok, Outcome}
use flow_speckit.Storage.Recording.{record_event, apply_event_to_run_row}
use flow_speckit.Context.{Env}
use flow_speckit.Engine.Cancel.Closing.{cancel_with-marked, cancel_on_session-closed}

module _ (run_id : Uuid) where
  -- The log of the run is gapless and holds a cancellation.
  abbrev pub IsCancelled : Db → Type 0
  IsCancelled db = IsGapless db × (exists_where is_run_cancelled (list run_id db) ≡ true)

  -- What holds of a gapless log, and of a cancellation in it, still holds.
  record Keeps (a b : Db) : Type 0 where
    gapless : IsGapless a → IsGapless b
    at : IsCancelled a → IsCancelled b

  Keeps-refl : (a : Db) → Keeps a a
  Keeps-refl a = record { gapless = λ g. g; at = λ h. h }

  Keeps-trans : (a b c : Db) → Keeps a b → Keeps b c → Keeps a c
  Keeps-trans a b c h k = record { gapless = λ g. k.gapless (h.gapless g); at = λ x. k.at (h.at x) }

  Keeps-SameEvents : (a b : Db) → SameEvents a b → Keeps a b
  Keeps-SameEvents a b h = record {
    gapless = λ g. IsGapless-SameEvents h g;
    at = λ x. (IsGapless-SameEvents h x.0, rw (list-SameEvents run_id h) x.1);
  }

  Keeps-append : (other : Uuid) (e : WorkflowEvent) (db : Db) → Keeps db (append other e db).0
  Keeps-append other e db = record {
    gapless = λ g. append-IsGapless other e db g;
    at = λ x. (
      append-IsGapless other e db x.0,
      rw (list-append other run_id e db x.0) (elim (Bool-cases (other == run_id)) [
        | inl same ↦ rw (same, exists_where-append) (rw x.1 refl)
        | inr differs ↦ rw differs x.1
      ]),
    );
  }

  Keeps-settle_step :
      (notify : Bool) (child : RunRow) (parent : Uuid) (key : Text) (db : Db)
      → Keeps db (settle_step notify child parent key db)
  unfolding settle_step
  Keeps-settle_step notify child parent key db =
      let db1 = (append parent (settle_event child key (list parent db)) db).0 in
      let db2 = set_status parent RunStatus.pending db1 in
      Keeps-trans db db1 _ (Keeps-append parent (settle_event child key (list parent db)) db) (
        Keeps-SameEvents db1 _ (
          SameEvents-trans (SameEvents-set_status parent RunStatus.pending db1) (
            SameEvents-trans (SameEvents-upsert_task_queue parent db2)
              (SameEvents-notify_run notify parent (upsert_task_queue parent db2)))))

  module _ (child_run_id : Uuid → Text → Uuid) (notify : Bool) where
    Keeps-settle_live_parent :
        (child : RunRow) (parent : Uuid) (db : Db)
        → Keeps db (settle_live_parent child_run_id notify child parent db)
    unfolding settle_live_parent
    Keeps-settle_live_parent child parent db =
        elim (Option-cases (dispatched_step child_run_id parent child.run_id (list parent db))) [
          | inl missing ↦ rw (missing, settle_live_parent) (Keeps-refl db)
          | inr (key, there) ↦
              rw (there, settle_live_parent)
                (elim (Bool-cases (exists_where (settles key) (list parent db))) [
                  | inl settled ↦ rw settled (Keeps-refl db)
                  | inr fresh ↦ rw fresh (Keeps-settle_step notify child parent key db)
                ])
        ]

    Keeps-settle_parent_row :
        (child : RunRow) (parent : Uuid) (p : Option RunRow) (db : Db)
        → Keeps db (settle_parent_row child_run_id notify child parent p db)
    unfolding settle_parent_row
    Keeps-settle_parent_row child parent none db = Keeps-refl db
    Keeps-settle_parent_row child parent (some p) db = elim (Bool-cases (is_terminal p.status)) [
      | inl over ↦ rw over (Keeps-refl db)
      | inr live ↦ rw live (Keeps-settle_live_parent child parent db)
    ]

    Keeps-settle_parent :
        (child : Uuid) (db : Db) → Keeps db (settle_parent child_run_id notify child db)
    unfolding settle_parent settle_child_row
    Keeps-settle_parent child db = elim (Option-cases (find_run child db)) [
      | inl missing ↦ rw (missing, settle_parent) (Keeps-refl db)
      | inr (row, found) ↦
          rw (found, settle_parent)
            (elim (Option-cases row.parent_run_id) [
              | inl orphan ↦ rw (orphan, settle_child_row) (Keeps-refl db)
              | inr (parent, has) ↦
                  rw (has, settle_child_row)
                    (elim (Bool-cases (is_terminal row.status)) [
                      | inl ended ↦
                          rw ended (Keeps-settle_parent_row row parent (find_run parent db) db)
                      | inr live ↦ rw live (Keeps-refl db)
                    ])
            ])
    ]

  SameEvents-mark_cancelled :
      (other : Uuid) (actor reason : Text) (db : Db)
      → SameEvents
          (append other (run_cancelled (record { actor = actor; reason = reason })) db).0
          (mark_cancelled other actor reason db)
  unfolding mark_cancelled record_event apply_event_to_run_row update_run delete_run_timers
      delete_queue_row
  SameEvents-mark_cancelled other actor reason db = record { events = refl }

  Keeps-mark_cancelled :
      (other : Uuid) (actor reason : Text) (db : Db)
      → Keeps db (mark_cancelled other actor reason db)
  Keeps-mark_cancelled other actor reason db =
      let e : WorkflowEvent = run_cancelled (record { actor = actor; reason = reason }) in
      Keeps-trans db (append other e db).0 _ (Keeps-append other e db) (
        Keeps-SameEvents (append other e db).0 (mark_cancelled other actor reason db)
          (SameEvents-mark_cancelled other actor reason db))

  IsCancelled-mark_cancelled :
      (actor reason : Text) (db : Db)
      → IsGapless db
      → IsCancelled (mark_cancelled run_id actor reason db)
  unfolding exists_where
  IsCancelled-mark_cancelled actor reason db g =
      let e : WorkflowEvent = run_cancelled (record { actor = actor; reason = reason }) in
      (
        (Keeps-mark_cancelled run_id actor reason db).gapless g,
        rw
            (
              list-SameEvents run_id (SameEvents-mark_cancelled run_id actor reason db),
              list-append run_id run_id e db g,
            )
            (rw (==_refl run_id, exists_where-append) (ground arith)),
      )

  cancel_on_session-IsCancelled :
      (child_run_id : Uuid → Text → Uuid) (notify : Bool) (fuel : ℕ) (actor reason : Text)
      (db db1 : Db)
      → IsGapless db
      → cancel_on_session fuel child_run_id notify run_id actor reason db ≡ (ok tt, db1)
      → IsCancelled db1
  unfolding cancel_on_session cancel_with
  cancel_on_session-IsCancelled child_run_id notify zero actor reason db db1 g h =
      absurd (cc (ap (λ (p : Outcome (Unit {0}) × Db). p.0) h))
  cancel_on_session-IsCancelled child_run_id notify (suc fuel) actor reason db db1 g h =
      elim (Option-cases (find_run run_id db)) [
        | inl missing ↦
            absurd (cc (ap (λ (p : Outcome (Unit {0}) × Db). p.0) (rw (missing, cancel_with) at h)))
        | inr (row, found) ↦ elim (Bool-cases (is_terminal row.status)) [
          | inl over ↦ absurd (
              cc (
                ap (λ (p : Outcome (Unit {0}) × Db). p.0)
                  (rw over at (rw (found, cancel_with) at h))))
          | inr live ↦
              let cascade = λ (child : Uuid) (why : Text).
                cancel_on_session fuel child_run_id notify child actor why in
              let keeps =
                cancel_with-marked Keeps Keeps-refl Keeps-trans child_run_id notify
                  Keeps-mark_cancelled (Keeps-settle_parent child_run_id notify) cascade run_id
                  actor reason db row
                  (λ child why d.
                    cancel_on_session-closed Keeps Keeps-refl Keeps-trans child_run_id notify
                      Keeps-mark_cancelled (Keeps-settle_parent child_run_id notify) fuel child
                      actor why d)
                  found live in
              subst IsCancelled (ap (λ (p : Outcome (Unit {0}) × Db). p.1) h)
                (keeps.at (IsCancelled-mark_cancelled actor reason db g))
        ]
      ]

  -- A cancellation that succeeded is in the log.
  cancel_run-IsCancelled :
      (child_run_id : Uuid → Text → Uuid) (notify : Bool) (actor reason : Text) (db db1 : Db)
      → IsGapless db
      → cancel_run child_run_id notify run_id actor reason db ≡ (ok tt, db1)
      → IsCancelled db1
  unfolding cancel_run
  cancel_run-IsCancelled child_run_id notify actor reason db db1 g h =
      cancel_on_session-IsCancelled child_run_id notify (live_runs db + 1) actor reason db db1 g h

-- After a cancellation that succeeded over a gapless log, where the run has a row, executing the
-- run reports that it is cancelled and writes nothing.
pub cancel_run-final :
    (env : Env) (run_id : Uuid) (actor reason : Text) (db : Db) (w : World) (row : RunRow)
    → IsGapless db
    → cancel_run env.child_run_id env.notify run_id actor reason db ≡ (ok tt, w.db)
    → find_run run_id w.db ≡ some row
    → (o : RunOutcome) × (execute_run env run_id w ≡ (ok o, w)) × (o.status ≡ RunStatus.cancelled)
unfolding execute_run execute_row
cancel_run-final env run_id actor reason db w row g h found =
    let (_, stopped) =
      cancel_run-IsCancelled run_id env.child_run_id env.notify actor reason db w.db g h in
    (
      record {
        run_id = run_id;
        status = RunStatus.cancelled;
        output = none;
        error = (project_run run_id (list run_id w.db)).error;
      },
      rw (found, execute_run) (rw stopped refl),
      refl,
    )
