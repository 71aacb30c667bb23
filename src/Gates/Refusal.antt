-- ===== src/Gates/Refusal.antt =====
-- A resolution that is refused writes nothing to the log.
use flow_speckit.Prelude.{◌≡◌, sym, ap, ◌∙◌, inl, inr, Bool, Option, Option-cases, Text}
use flow_speckit.Base.{Uuid, DecisionLiteral}
use flow_speckit.Errors.{Outcome, Exception, ok, raised, suspended, cancelled_run, crashed}
use flow_speckit.Events.{GateResolved}
use flow_speckit.Storage.{Db}
use flow_speckit.Storage.Log.{list}
use flow_speckit.Storage.Log.Elsewhere.{list-SameEvents}
use flow_speckit.Workflow.{GateDecision, decision_from_event}
use flow_speckit.Action.{continue, modify, pure, ◌>>=◌, ◌>>◌}
use flow_speckit.Gates.{resolve_gate, open_gate, mirror_artifact_status, wake_resolved, resolution}
use flow_speckit.Gates.Resolution.{SameEvents-mirror_artifact_status}

refused :
    (notify : Bool) (run_id : Uuid) (resolved : GateResolved) (o : Outcome (Unit {0})) (db db1 : Db)
    (e : Exception)
    → continue o
        (λ _. modify (wake_resolved notify run_id resolved) >> pure (decision_from_event resolved))
        db
      ≡ (raised e, db1)
    → db ≡ db1
unfolding ◌>>=◌
refused notify run_id resolved (ok t) db db1 e h =
    absurd (cc (ap (λ (p : Outcome GateDecision × Db). p.0) h))
refused notify run_id resolved (raised e') db db1 e h =
    ap (λ (p : Outcome GateDecision × Db). p.1) h
refused notify run_id resolved (suspended r) db db1 e h =
    absurd (cc (ap (λ (p : Outcome GateDecision × Db). p.0) h))
refused notify run_id resolved (cancelled_run k) db db1 e h =
    absurd (cc (ap (λ (p : Outcome GateDecision × Db). p.0) h))
refused notify run_id resolved crashed db db1 e h =
    absurd (cc (ap (λ (p : Outcome GateDecision × Db). p.0) h))

-- A resolution that raises an exception, because the gate is not open or the status of its
-- artifact cannot change so, leaves the history of every run as it was.
pub resolve_gate-refused :
    (notify : Bool) (run_id other : Uuid) (gate_key : Text) (decision : DecisionLiteral)
    (actor : Text) (comment : Option Text) (db db1 : Db) (e : Exception)
    → resolve_gate notify run_id gate_key decision actor comment db ≡ (raised e, db1)
    → list other db1 ≡ list other db
unfolding resolve_gate ◌>>=◌
resolve_gate-refused notify run_id other gate_key decision actor comment db db1 e h =
    elim (Option-cases (open_gate (list run_id db) gate_key)) [
      | inl closed ↦
          ap (list other)
            (sym (ap (λ (p : Outcome GateDecision × Db). p.1) (rw (closed, resolve_gate) at h)))
      | inr (opened, found) ↦
          let resolved = resolution opened gate_key decision actor comment db.clock in
          let m = mirror_artifact_status opened.artifact_id decision db in
          let left : m.1 ≡ db1 =
            refused notify run_id resolved m.0 m.1 db1 e (rw (found, resolve_gate) at h) in
          ap (list other) (sym left)
          ∙ list-SameEvents other (SameEvents-mirror_artifact_status opened.artifact_id decision db)
    ]
