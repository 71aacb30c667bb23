-- ===== src/History/Deciding.antt =====
-- A gate that was decided, and its timeout.
use flow_speckit.Prelude.{
  ◌≡◌, refl, sym, ap, ◌∙◌, Bool, true, Option, some, List, [], ◌∷◌, ◌++◌, arith, exists_where,
  exists_where-append, Text, text_eq_iff,
}
use flow_speckit.Base.{Uuid, DecisionLiteral}
use flow_speckit.Storage.{Db}
use flow_speckit.Storage.Log.{list}
use flow_speckit.Storage.Log.Gapless.{IsGapless}
use flow_speckit.Storage.Writes.Growing.{Writes-IsGapless}
use flow_speckit.Workflow.{GateDecision}
use flow_speckit.Errors.{Outcome, ok}
use flow_speckit.Gates.{resolve_gate, open_gate, handle_gate_timeout, timed_out, resolves_step}
use flow_speckit.Events.{GateOpened, GateResolved, WorkflowEvent, gate_resolved}
use flow_speckit.Gates.Resolution.{resolve_gate-Resolved}
use flow_speckit.History.Steps.{Reach, Reach-Writes, here, next, resolved}
use flow_speckit.History.Lasting.{Reach-Extends}

exists-resolution :
    (events : List WorkflowEvent) (e : GateResolved) (step_key : Text)
    → e.step_key ≡ step_key
    → exists_where (resolves_step step_key) (events ++ gate_resolved e ∷ []) ≡ true
unfolding exists_where
exists-resolution [] e step_key same = ground (arith, same, text_eq_iff e.step_key step_key)
exists-resolution (x ∷ events) e step_key same =
    ground (arith, exists-resolution events e step_key same)

handle_gate_timeout-decided :
    (child_run_id : Uuid → Text → Uuid) (notify : Bool) (run_id : Uuid) (step_key : Text) (db : Db)
    → exists_where (resolves_step step_key) (list run_id db) ≡ true
    → handle_gate_timeout child_run_id notify run_id step_key db ≡ (ok tt, db)
unfolding handle_gate_timeout timed_out
handle_gate_timeout-decided child_run_id notify run_id step_key db decided =
    rw (decided, handle_gate_timeout, timed_out) refl

-- Over a gapless log, once a resolution of a gate has succeeded, then after whatever operations
-- the timeout of the gate that it resolved changes nothing when it fires.
pub handle_gate_timeout-late :
    (child_run_id : Uuid → Text → Uuid) (notify later : Bool) (run_id : Uuid) (gate_key : Text)
    (decision : DecisionLiteral) (actor : Text) (comment : Option Text) (db db1 db2 : Db)
    (d : GateDecision)
    → IsGapless db
    → resolve_gate notify run_id gate_key decision actor comment db ≡ (ok d, db1)
    → Reach db1 db2
    → (opened : GateOpened) × (open_gate (list run_id db) gate_key ≡ some opened)
      × (handle_gate_timeout child_run_id later run_id opened.step_key db2 ≡ (ok tt, db2))
handle_gate_timeout-late child_run_id notify later run_id gate_key decision actor comment db db1 db2
      d g h r =
    let made = resolve_gate-Resolved notify run_id gate_key decision actor comment db db1 d g h in
    let one : Reach db db1 = next here (
      resolved notify run_id gate_key decision actor comment
        (ap (λ (p : Outcome GateDecision × Db). p.1) (sym h))) in
    let (new, e) = Reach-Extends run_id (Writes-IsGapless (Reach-Writes one) g) r in
    let mine = resolves_step made.opened.step_key in
    let said : exists_where mine (list run_id db1) ≡ true =
      rw made.logged
        (exists-resolution (list run_id db) made.resolved made.opened.step_key made.step) in
    (
      made.opened,
      made.was_open,
      handle_gate_timeout-decided child_run_id later run_id made.opened.step_key db2
          (rw e (exists_where-append mine (list run_id db1) new ∙ rw said refl)),
    )
