-- ===== src/History/Lasting.antt =====
-- What every sequence of operations keeps: numbering, the past of each run, and a cancellation.
use flow_speckit.Workflow.{
  run_skill, execute, open_pr, gate, sleep, child_workflow, intrinsic, value, decided, Call, Reply,
  decision_from_event,
}
use flow_speckit.Prelude.{
  ◌≡◌, refl, ◌∙◌, Bool, true, none, some, [], select, exists_where, exists_where-append, Text,
}
use flow_speckit.Storage.{Db, empty_db, RunRow, find_run}
use flow_speckit.Base.{Uuid, RunStatus}
use flow_speckit.History.Steps.{Reach, Reach-Writes}
use flow_speckit.Engine.Execute.{
  execute_run, execute_row, World, RunOutcome, fresh_pass, resolves, completes,
}
use flow_speckit.Storage.Log.Gapless.{IsGapless}
use flow_speckit.Storage.Writes.Growing.{Writes-IsGapless, Extends, Writes-Extends}
use flow_speckit.Context.{Env, new_context}
use flow_speckit.Storage.Log.{list, rows_of}
use flow_speckit.Context.Steps.{is_run_cancelled}
use flow_speckit.Errors.{ok}
use flow_speckit.Events.{project_run, WorkflowEvent}
use flow_speckit.Context.Run.{perform_at}
use flow_speckit.Replay.Calls.{Recalls, perform_at-Recalls}
use flow_speckit.Context.Memory.{fill-resolves, fill-completes}
use flow_speckit.Json.{null}

empty-IsGapless : IsGapless empty_db
unfolding rows_of select
empty-IsGapless = record { at_run = λ _. tt }

-- In every database that the operations of the program lead to from the empty one, by clients,
-- workers, the scheduler and reviewers in any order and with crashes, the sequence numbers of
-- every run are 1, 2, and so on.
pub Reach-IsGapless : {db : Db} → Reach empty_db db → IsGapless db
Reach-IsGapless r = Writes-IsGapless (Reach-Writes r) empty-IsGapless

-- From a database with a gapless log, whatever operations follow, the history of every run is
-- the one before with new events after it: no event is changed, moved or removed.
pub Reach-Extends :
    {a b : Db} (run_id : Uuid) → IsGapless a → Reach a b → Extends (list run_id a) (list run_id b)
Reach-Extends run_id g r = Writes-Extends run_id (Reach-Writes r) g

-- Once the gapless log of a run has its cancellation, then after whatever operations, where the
-- run has a row, executing it on any engine reports that it is cancelled and writes nothing.
pub cancelled_for_good :
    (env : Env) (run_id : Uuid) {a : Db} (w : World) (row : RunRow)
    → IsGapless a
    → exists_where is_run_cancelled (list run_id a) ≡ true
    → Reach a w.db
    → find_run run_id w.db ≡ some row
    → (o : RunOutcome) × (execute_run env run_id w ≡ (ok o, w)) × (o.status ≡ RunStatus.cancelled)
unfolding execute_run execute_row
cancelled_for_good env run_id {a} w row g said r found =
    let (new, e) = Reach-Extends run_id g r in
    let stopped : exists_where is_run_cancelled (list run_id w.db) ≡ true =
      rw e (exists_where-append is_run_cancelled (list run_id a) new ∙ rw said refl) in
    (
      record {
        run_id = run_id;
        status = RunStatus.cancelled;
        output = none;
        error = (project_run run_id (list run_id w.db)).error;
      },
      rw (found, execute_run) (rw stopped refl),
      refl,
    )

-- The event that settles a call: a gate's is its resolution, any other's its completion.
abbrev pub settles_call : Call → Text → WorkflowEvent → Bool
settles_call (gate _ _ _ _ _ _) key = resolves key
settles_call _ key = completes key

Recalls-fresh_pass :
    (run_id : Uuid) (key : Text) (call : Call) (w : World)
    → exists_where (settles_call call key) (list run_id w.db) ≡ true
    → (r : Reply) × Recalls key call r
        (fresh_pass run_id w).ctx.memoized
        (fresh_pass run_id w).ctx.gates_resolved
unfolding new_context
Recalls-fresh_pass run_id key (gate label artifact approvers timeout on_timeout escalate_to) w h =
    let (e, found) = fill-resolves key (list run_id w.db) [] h in
    (decided (decision_from_event e), (e, found, refl))
Recalls-fresh_pass run_id key (sleep label duration) w h =
    let (v, found) = fill-completes key (list run_id w.db) [] h in (value null, (v, found, refl))
Recalls-fresh_pass run_id key (run_skill label input retry timeout) w h =
    let (v, found) = fill-completes key (list run_id w.db) [] h in (value v, (v, found, refl))
Recalls-fresh_pass run_id key (execute label plan backend constraints retry) w h =
    let (v, found) = fill-completes key (list run_id w.db) [] h in (value v, (v, found, refl))
Recalls-fresh_pass run_id key (open_pr label change review retry) w h =
    let (v, found) = fill-completes key (list run_id w.db) [] h in (value v, (v, found, refl))
Recalls-fresh_pass run_id key (child_workflow label name input version) w h =
    let (v, found) = fill-completes key (list run_id w.db) [] h in (value v, (v, found, refl))
Recalls-fresh_pass run_id key (intrinsic which) w h =
    let (v, found) = fill-completes key (list run_id w.db) [] h in (value v, (v, found, refl))

-- Once the gapless log has the completion of a step, or the resolution of a gate step, then
-- after whatever operations the call of that step is answered in the next pass on any engine,
-- while nothing is written and no side effect is started.
pub settled_for_good :
    (env : Env) (run_id : Uuid) (key : Text) (call : Call) {a : Db} (w : World)
    → IsGapless a
    → exists_where (settles_call call key) (list run_id a) ≡ true
    → Reach a w.db
    → (r : Reply) × (perform_at env key call (fresh_pass run_id w) ≡ (ok r, fresh_pass run_id w))
settled_for_good env run_id key call {a} w g said r =
    let (new, e) = Reach-Extends run_id g r in
    let still : exists_where (settles_call call key) (list run_id w.db) ≡ true =
      rw e (exists_where-append (settles_call call key) (list run_id a) new ∙ rw said refl) in
    let (reply, recalls) = Recalls-fresh_pass run_id key call w still in
    (reply, perform_at-Recalls env key call (fresh_pass run_id w) reply recalls)
