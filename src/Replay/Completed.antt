-- ===== src/Replay/Completed.antt =====
-- `execute_run` of a run whose log says that it completed.
use flow_speckit.Prelude.{
  ◌≡◌, refl, sym, ap, ◌∙◌, subst, ◌≢◌, Bool, true, false, Option, none, some, List, [], ◌∷◌, ◌++◌,
  arith, ==_refl,
}
use flow_speckit.Engine.Execute.{
  reconcile_wake, World, RunOutcome, end_raised, reconcile_suspend, end_pass, complete_run, park,
  fresh_pass,
}
use flow_speckit.Context.{Env, Pass, new_context, memo_event, resolved_event}
use flow_speckit.Base.{Uuid, RunStatus}
use flow_speckit.Storage.Recording.Sync.{record_event-IsGapless, list-record_event}
use flow_speckit.Errors.{
  raised, suspended, cancelled_run, crashed, SuspendRun, Exception, Outcome, ok,
}
use flow_speckit.Workflow.{Output, output_ref}
use flow_speckit.Storage.{Db, delete_queue_row}
use flow_speckit.Storage.Log.Gapless.{IsGapless}
use flow_speckit.Storage.Log.Elsewhere.{
  list-SameEvents, IsGapless-SameEvents, SameEvents-delete_queue_row,
}
use flow_speckit.Storage.Log.{list}
use flow_speckit.Events.{run_completed, WorkflowEvent, project_event, project_run}
use flow_speckit.Storage.Recording.{record_event}
use flow_speckit.Engine.Settle.Logs.{list-settle_parent}
use flow_speckit.Replay.Tracking.{PassTracks, fill-append}
use flow_speckit.Events.Projection.{project_run-append}
use flow_speckit.Replay.Runs.{SameMemory}

abbrev pub completed_outcome : Uuid → Output → RunOutcome
completed_outcome run_id out = record {
  run_id = run_id;
  status = RunStatus.completed;
  output = some out;
  error = none;
}

-- How `execute_run` ends when the body returned.
abbrev pub CompletesWith : Uuid → Output → World → Outcome RunOutcome × World → Type 0
CompletesWith run_id out w1 p = p ≡ (ok (completed_outcome run_id out), w1)

end_raised-fails :
    (env : Env) (run_id : Uuid) (e : Exception) (s : Pass) (out : Output)
    → (end_raised env run_id e s).0 ≢ ok (completed_outcome run_id out)
unfolding end_raised
end_raised-fails env run_id e s out h = ground arith

reconcile_suspend-output :
    (notify : Bool) (run_id : Uuid) (suspend : SuspendRun) (db : Db)
    → (reconcile_suspend notify run_id suspend db).0.output ≡ none
unfolding reconcile_suspend reconcile_wake
reconcile_suspend-output notify run_id suspend db = ground arith

-- Only a body that returned completes its run.
pub end_pass-completed :
    (env : Env) (run_id : Uuid) (o : Outcome Output) (s : Pass) (out : Output) (w1 : World)
    → CompletesWith run_id out w1 (end_pass env run_id o s)
    → (o ≡ ok out) × (record { db = complete_run env run_id out s; effects = s.effects } ≡ w1)
unfolding end_pass
end_pass-completed env run_id (ok out') s out w1 h =
    let same : out' ≡ out = ground (arith, ap (λ (p : Outcome RunOutcome × World). p.0) h) in
    (
      ap ok same,
      subst (λ o. record { db = complete_run env run_id o s; effects = s.effects } ≡ w1) same
          (ap (λ (p : Outcome RunOutcome × World). p.1) h),
    )
end_pass-completed env run_id (raised e) s out w1 h =
    absurd (end_raised-fails env run_id e s out (ap (λ (p : Outcome RunOutcome × World). p.0) h))
end_pass-completed env run_id (suspended r) s out w1 h = absurd (
    ground (
      arith,
      ap (λ (p : Outcome RunOutcome × World). p.0) h,
      reconcile_suspend-output env.notify run_id r (park run_id r s.db),
    ))
end_pass-completed env run_id (cancelled_run k) s out w1 h =
    absurd (ground (arith, ap (λ (p : Outcome RunOutcome × World). p.0) h))
end_pass-completed env run_id crashed s out w1 h =
    absurd (cc (ap (λ (p : Outcome RunOutcome × World). p.0) h))

-- The log of a run that has just completed.
pub list-complete_run :
    (env : Env) (run_id : Uuid) (out : Output) (s : Pass)
    → IsGapless s.db
    → s.ctx.sealed ≡ false
    → list run_id (complete_run env run_id out s)
      ≡ list run_id s.db ++ run_completed (record { output_ref = output_ref out }) ∷ []
unfolding complete_run
list-complete_run env run_id out s g live =
    let e : WorkflowEvent = run_completed (record { output_ref = output_ref out }) in
    let db1 = delete_queue_row run_id (record_event run_id e s.db) in
    rw live (
      list-settle_parent env.child_run_id env.notify run_id db1 (
        IsGapless-SameEvents (SameEvents-delete_queue_row run_id (record_event run_id e s.db))
          (record_event-IsGapless run_id e g))
      ∙ (list-SameEvents run_id (SameEvents-delete_queue_row run_id (record_event run_id e s.db))
          ∙ (list-record_event run_id run_id e s.db g ∙ rw (==_refl run_id) refl)))

pub SameMemory-completed :
    (run_id : Uuid) (sealed : Bool) (out : Option Uuid) (s : Pass) (events : List WorkflowEvent)
    → PassTracks s
    → s.ctx.run_id ≡ run_id
    → events ≡ list run_id s.db ++ run_completed (record { output_ref = out }) ∷ []
    → SameMemory s.ctx (new_context run_id sealed events)
unfolding new_context memo_event resolved_event
SameMemory-completed run_id sealed out s events tr own said =
    let e : WorkflowEvent = run_completed (record { output_ref = out }) in
    record {
      memo = λ k.
          rw (said, fill-append memo_event [] (list run_id s.db) e)
            (rw (← own) (sym (tr.memoized k)));
      gates = λ k.
          rw (said, fill-append resolved_event [] (list run_id s.db) e)
            (rw (← own) (sym (tr.resolved k)));
    }

pub status-completed :
    (run_id : Uuid) (out : Option Uuid) (events before : List WorkflowEvent)
    → events ≡ before ++ run_completed (record { output_ref = out }) ∷ []
    → (project_run run_id events).status ≡ RunStatus.completed
unfolding project_event
status-completed run_id out events before said =
    rw (said, project_run-append run_id before (run_completed (record { output_ref = out }))) refl

pub Tracks-fresh_pass :
    (run_id : Uuid) (w : World) → IsGapless w.db → PassTracks (fresh_pass run_id w)
unfolding new_context
Tracks-fresh_pass run_id w g = record { gapless = g; memoized = λ k. refl; resolved = λ k. refl }

-- A world that the end of the replayed pass leaves as it is.
pub end_pass-sealed :
    (env : Env) (run_id : Uuid) (out : Output) (w : World) (s : Pass)
    → s.ctx.sealed ≡ true
    → s.db ≡ w.db
    → s.effects ≡ w.effects
    → CompletesWith run_id out w (end_pass env run_id (ok out) s)
unfolding end_pass complete_run
end_pass-sealed env run_id out w s sealed db effects = rw (sealed, db, effects) refl
