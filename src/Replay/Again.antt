-- ===== src/Replay/Again.antt =====
-- Executing a completed run again, on any engine.
use flow_speckit.Prelude.{
  ◌≡◌, refl, sym, ap, ◌∙◌, subst, inl, inr, false, none, some, arith, Bool-cases, exists_where,
}
use flow_speckit.Workflow.Registry
use flow_speckit.Workflow.{Output, WorkflowDefinition, Body, output_ref}
use flow_speckit.Engine.Execute.{
  execute_row, execute_run, execute_definition, fresh_pass, World, is_completed, replay_body,
  RunOutcome, end_pass,
}
use flow_speckit.Replay.Completed.{
  end_pass-completed, completed_outcome, CompletesWith, Tracks-fresh_pass, list-complete_run,
  SameMemory-completed, status-completed, end_pass-sealed,
}
use flow_speckit.Replay.Runs.{replay_body-eq-ok, replay_body-replays}
use flow_speckit.Replay.Bodies.{Propagates}
use flow_speckit.Storage.Log.{list}
use flow_speckit.Context.{Env, new_context, Pass}
use flow_speckit.Base.{Uuid, RunStatus}
use flow_speckit.Storage.{RunRow, find_run}
use flow_speckit.Context.Steps.{is_run_cancelled}
use flow_speckit.Errors.{ok, Outcome}
use flow_speckit.Storage.Log.Gapless.{IsGapless}
use flow_speckit.Events.{project_run}
use flow_speckit.Replay.Passes.{run-Extends}

module _ (env env' : Env) (run_id : Uuid) (body : Body) (out : Output) (w w1 w2 : World) where
  -- The pass of a completed run, replayed.
  end_pass-again :
      IsGapless w.db
      → is_completed (project_run run_id (list run_id w.db)).status ≡ false
      → Propagates body
      → (p : Outcome Output × Pass) → replay_body env body (fresh_pass run_id w) ≡ p
      → CompletesWith run_id out w1 (end_pass env run_id p.0 p.1)
      → list run_id w2.db ≡ list run_id w1.db
      → (q : Outcome Output × Pass) → replay_body env' body (fresh_pass run_id w2) ≡ q
      → CompletesWith run_id out w2 (end_pass env' run_id q.0 q.1)
  unfolding new_context
  end_pass-again g live through p ran ended log q again =
      let (returned, left) = end_pass-completed env run_id p.0 p.1 out w1 ended in
      let start = Tracks-fresh_pass run_id w g in
      let first : replay_body env body (fresh_pass run_id w) ≡ (ok out, p.1) =
        (ran ∙ (λ i. (returned i, p.1))) in
      let x =
        run-Extends env body (fresh_pass run_id w) p.1 out through start
          (replay_body-eq-ok env body (fresh_pass run_id w) p.1 out first).0 in
      let said =
        log
        ∙ (ap (λ (x : World). list run_id x.db) (sym left)
            ∙ list-complete_run env run_id out p.1 x.tracks.gapless (x.sealed ∙ live)) in
      let r =
        replay_body-replays env env' body (fresh_pass run_id w) p.1 (fresh_pass run_id w2) out
          through start first (record { ordinals = refl; requested = refl })
          (SameMemory-completed run_id _ (output_ref out) p.1 (list run_id w2.db) x.tracks x.run_id
            said) in
      let done =
        status-completed run_id (output_ref out) (list run_id w2.db) (list run_id p.1.db) said in
      subst
        (λ (q : Outcome Output × Pass). CompletesWith run_id out w2 (end_pass env' run_id q.0 q.1))
        (sym r.same ∙ again)
        (end_pass-sealed env' run_id out w2 (record (fresh_pass run_id w2) { ctx = r.ctx })
          (r.sealed ∙ ap is_completed done) refl refl)

module _ (env : Env) (run_id : Uuid) (d : WorkflowDefinition) (row : RunRow) (w : World) where
  -- A run whose row and definition are there, and whose log holds no cancellation.
  execute_run-definition :
      find_run run_id w.db ≡ some row
      → Registry.get row.workflow_name row.workflow_version env.workflows ≡ ok d
      → exists_where is_run_cancelled (list run_id w.db) ≡ false
      → execute_run env run_id w ≡ execute_definition env run_id row d w
  unfolding execute_run execute_row
  execute_run-definition found registered live =
      rw (found, execute_run) (rw (live, registered) refl)

  -- Only a run that is not cancelled completes.
  execute_run-live :
      (out : Output) (w1 : World)
      → find_run run_id w.db ≡ some row
      → CompletesWith run_id out w1 (execute_run env run_id w)
      → exists_where is_run_cancelled (list run_id w.db) ≡ false
  unfolding execute_run execute_row
  execute_run-live out w1 found h =
      elim (Bool-cases (exists_where is_run_cancelled (list run_id w.db))) [
        | inl stopped ↦
            let e = project_run run_id (list run_id w.db) in
            let h' : execute_run env run_id w ≡ (
              ok (record {
                run_id = run_id;
                status = RunStatus.cancelled;
                output = none;
                error = e.error;
              }),
              w,
            ) =
              (rw (found, execute_run) (rw stopped refl)) in
            absurd (ground (arith, ap (λ (p : Outcome RunOutcome × World). p.0) (sym h' ∙ h)))
        | inr live ↦ live
      ]

-- A run whose row and definition were found, whose gapless log did not say that it had
-- completed, and that `execute_run` completed, executed again by any engine that has its
-- definition while its log is the same and holds no cancellation, gives the same outcome and
-- writes nothing; the body is one that catches no exception of a step.
pub execute_run-again :
    (env env' : Env) (run_id : Uuid) (d : WorkflowDefinition) (row row' : RunRow) (out : Output)
    (w w1 w2 : World)
    → IsGapless w.db
    → is_completed (project_run run_id (list run_id w.db)).status ≡ false
    → find_run run_id w.db ≡ some row
    → Registry.get row.workflow_name row.workflow_version env.workflows ≡ ok d
    → Propagates (d.fn row.input)
    → execute_run env run_id w ≡ (ok (completed_outcome run_id out), w1)
    → find_run run_id w2.db ≡ some row'
    → row'.input ≡ row.input
    → Registry.get row'.workflow_name row'.workflow_version env'.workflows ≡ ok d
    → list run_id w2.db ≡ list run_id w1.db
    → exists_where is_run_cancelled (list run_id w2.db) ≡ false
    → execute_run env' run_id w2 ≡ (ok (completed_outcome run_id out), w2)
unfolding execute_definition
execute_run-again env env' run_id d row row' out w w1 w2 g fresh found registered through ended
      found' input registered' log live' =
    let live = execute_run-live env run_id d row w out w1 found ended in
    let ended' = sym (execute_run-definition env run_id d row w found registered live) ∙ ended in
    let body = d.fn row.input in
    execute_run-definition env' run_id d row' w2 found' registered' live'
    ∙ rw input (
        end_pass-again env env' run_id body out w w1 w2 g fresh through
          (replay_body env body (fresh_pass run_id w)) refl ended' log
          (replay_body env' body (fresh_pass run_id w2)) refl)
