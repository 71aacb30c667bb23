-- ===== src/Gates/Resolution.antt =====
-- What resolving a gate writes, and that the replayed call is answered with the decision.
use flow_speckit.Prelude.{
  ℕ, ◌≡◌, refl, sym, ap, ◌∙◌, subst, inl, inr, Bool, Option, some, List, [], ◌∷◌, ◌++◌, arith,
  ==_refl, Bool-cases, Option-cases, Text,
}
use flow_speckit.Base.{Uuid, DecisionLiteral, Status, OnTimeout}
use flow_speckit.Storage.{Db, ArtifactRow}
use flow_speckit.Storage.Log.{list}
use flow_speckit.Storage.Log.Elsewhere.{
  SameEvents, SameEvents-refl, list-SameEvents, SameEvents-trans, SameEvents-upsert_task_queue,
  SameEvents-notify_run, IsGapless-SameEvents,
}
use flow_speckit.Storage.Log.Gapless.{IsGapless}
use flow_speckit.Workflow.{GateDecision, decision_from_event, gate, decided}
use flow_speckit.Errors.{Outcome, ok}
use flow_speckit.Action.{pure, modify, ◌>>◌}
use flow_speckit.Action.Post.{>>=-eq-ok}
use flow_speckit.Context.{Env, fill, resolved_event, new_context}
use flow_speckit.Context.Run.{perform_at}
use flow_speckit.Engine.Execute.{World, fresh_pass}
use flow_speckit.Gates.{
  resolve_gate, resolution, open_gate, mirror_artifact_status, wake_resolved, GateOpened,
  GateResolved, gate_resolved, decided_status, record_event, upsert_task_queue,
}
use flow_speckit.Artifacts.Refs.{by_id, ParsedRef}
use flow_speckit.Artifacts.Store.{set_artifact_status, write_status, resolve, get_row, is_allowed}
use flow_speckit.Replay.Calls.{perform_at-Recalls}
use flow_speckit.Replay.Tracking.{fill-append}
use flow_speckit.Replay.Answers.{put-finds}
use flow_speckit.Storage.Recording.Sync.{list-record_event}

SameEvents-write_status :
    (row : ArtifactRow) (status : Status) (db : Db) → SameEvents db (write_status row status db).1
unfolding write_status resolve
SameEvents-write_status row status db = record { events = ground arith }

SameEvents-set_artifact_status :
    (ref : ParsedRef) (status : Status) (db : Db)
    → SameEvents db (set_artifact_status ref status db).1
unfolding set_artifact_status
SameEvents-set_artifact_status ref status db = elim (Option-cases (get_row ref db)) [
  | inl missing ↦ rw (missing, set_artifact_status) (SameEvents-refl db)
  | inr (row, found) ↦
      rw (found, set_artifact_status)
        (elim (Bool-cases (is_allowed row.status status)) [
          | inl allowed ↦ rw allowed (SameEvents-write_status row status db)
          | inr refused ↦ rw refused (SameEvents-refl db)
        ])
]

pub SameEvents-mirror_artifact_status :
    (id : Uuid) (decision : DecisionLiteral) (db : Db)
    → SameEvents db (mirror_artifact_status id decision db).1
unfolding mirror_artifact_status
SameEvents-mirror_artifact_status id decision db =
    SameEvents-set_artifact_status (by_id id) (decided_status decision) db

-- The event that a resolution writes.
pub record Resolved (run_id : Uuid) (gate_key : Text) (decision : GateDecision) (db db1 : Db)
    : Type 0 where
  pub opened : GateOpened
  pub resolved : GateResolved
  pub was_open : open_gate (list run_id db) gate_key ≡ some opened
  pub step : resolved.step_key ≡ opened.step_key
  pub decides : decision ≡ decision_from_event resolved
  pub logged : list run_id db1 ≡ list run_id db ++ gate_resolved resolved ∷ []

list-wake_resolved :
    (notify : Bool) (run_id : Uuid) (e : GateResolved) (db : Db)
    → IsGapless db
    → list run_id (wake_resolved notify run_id e db) ≡ list run_id db ++ gate_resolved e ∷ []
unfolding wake_resolved
list-wake_resolved notify run_id e db g =
    let db1 = record_event run_id (gate_resolved e) db in
    list-SameEvents run_id (
      SameEvents-trans (SameEvents-upsert_task_queue run_id db1)
        (SameEvents-notify_run notify run_id (upsert_task_queue run_id db1)))
    ∙ (list-record_event run_id run_id (gate_resolved e) db g ∙ rw (==_refl run_id) refl)

-- A resolution that succeeded found the gate open, and appended its decision to the log.
pub resolve_gate-Resolved :
    (notify : Bool) (run_id : Uuid) (gate_key : Text) (decision : DecisionLiteral) (actor : Text)
    (comment : Option Text) (db db1 : Db) (d : GateDecision)
    → IsGapless db
    → resolve_gate notify run_id gate_key decision actor comment db ≡ (ok d, db1)
    → Resolved run_id gate_key d db db1
unfolding resolve_gate
resolve_gate-Resolved notify run_id gate_key decision actor comment db db1 d g h =
    elim (Option-cases (open_gate (list run_id db) gate_key)) [
      | inl closed ↦
          absurd (cc (ap (λ (p : Outcome GateDecision × Db). p.0) (rw (closed, resolve_gate) at h)))
      | inr (opened, found) ↦
          let resolved = resolution opened gate_key decision actor comment db.clock in
          let (t, db2, mirrored, rest) =
            >>=-eq-ok (mirror_artifact_status opened.artifact_id decision)
              (λ _.
                modify (wake_resolved notify run_id resolved)
                >> pure (decision_from_event resolved))
              db (rw (found, resolve_gate) at h) in
          let same =
            subst (SameEvents db) (ap (λ (p : Outcome (Unit {0}) × Db). p.1) mirrored)
              (SameEvents-mirror_artifact_status opened.artifact_id decision db) in
          let (t3, db3, woken, last) =
            >>=-eq-ok (modify (wake_resolved notify run_id resolved))
              (λ _. pure (decision_from_event resolved)) db2 rest in
          let left : wake_resolved notify run_id resolved db2 ≡ db1 =
            ap (λ (p : Outcome (Unit {0}) × Db). p.1) woken
            ∙ ap (λ (p : Outcome GateDecision × Db). p.1) last in
          record {
            opened = opened;
            resolved = resolved;
            was_open = found;
            step = refl;
            decides = ground (arith, ap (λ (p : Outcome GateDecision × Db). p.0) last);
            logged =
                ap (list run_id) (sym left)
                ∙ (list-wake_resolved notify run_id resolved db2 (IsGapless-SameEvents same g)
                    ∙ ap (λ es. es ++ gate_resolved resolved ∷ []) (list-SameEvents run_id same));
          }
    ]

-- The next pass answers that gate's call with the decision, and writes nothing.
gate-answered :
    (env : Env) (notify : Bool) (run_id : Uuid) (gate_key : Text) (decision : DecisionLiteral)
    (actor : Text) (comment : Option Text) (db : Db) (w : World) (d : GateDecision)
    (r : Resolved run_id gate_key d db w.db) (label : Text) (artifact : Option Uuid)
    (approvers : List Text) (timeout : Option ℕ) (on_timeout : OnTimeout)
    (escalate_to : Option (List Text))
    → perform_at env r.opened.step_key
        (gate label artifact approvers timeout on_timeout escalate_to)
        (fresh_pass run_id w)
      ≡ (ok (decided d), fresh_pass run_id w)
unfolding new_context resolved_event
gate-answered env notify run_id gate_key decision actor comment db w d r label artifact approvers
      timeout on_timeout escalate_to =
    perform_at-Recalls env r.opened.step_key _ (fresh_pass run_id w) (decided d) (
      r.resolved,
      rw (r.logged, fill-append resolved_event [] (list run_id db) (gate_resolved r.resolved))
          (rw (← r.step)
            (put-finds r.resolved.step_key r.resolved (fill resolved_event [] (list run_id db)))),
      ap decided r.decides,
    )

-- Over a gapless log, a resolution of a gate that succeeds found the gate open, and in the next
-- pass on any engine the call of that step is answered with the decision while nothing is
-- written.
pub resolve_gate-answers :
    (env : Env) (notify : Bool) (run_id : Uuid) (gate_key : Text) (decision : DecisionLiteral)
    (actor : Text) (comment : Option Text) (db : Db) (w : World) (d : GateDecision) (label : Text)
    (artifact : Option Uuid) (approvers : List Text) (timeout : Option ℕ) (on_timeout : OnTimeout)
    (escalate_to : Option (List Text))
    → IsGapless db
    → resolve_gate notify run_id gate_key decision actor comment db ≡ (ok d, w.db)
    → (opened : GateOpened) × (open_gate (list run_id db) gate_key ≡ some opened)
      × (perform_at env opened.step_key
            (gate label artifact approvers timeout on_timeout escalate_to)
            (fresh_pass run_id w)
          ≡ (ok (decided d), fresh_pass run_id w))
resolve_gate-answers env notify run_id gate_key decision actor comment db w d label artifact
      approvers timeout on_timeout escalate_to g h =
    let r = resolve_gate-Resolved notify run_id gate_key decision actor comment db w.db d g h in
    (
      r.opened,
      r.was_open,
      gate-answered env notify run_id gate_key decision actor comment db w d r label artifact
          approvers timeout on_timeout escalate_to,
    )
