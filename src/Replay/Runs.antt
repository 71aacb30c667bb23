-- ===== src/Replay/Runs.antt =====
-- Executing a completed run again: `execute_run` on a sealed log.
use flow_speckit.Prelude.{◌≡◌, refl, sym, ap, ◌∙◌, subst, List, [], ◌∷◌, Text, dict_get}
use flow_speckit.Context.{Env, Pass, Context}
use flow_speckit.Context.Keys.{leftover, check_leftover, assert_replay_consistent}
use flow_speckit.Context.Keys.Leftover.{AllRequested, leftover_iff}
use flow_speckit.Context.Run.{run_body}
use flow_speckit.Engine.Execute.{replay_body}
use flow_speckit.Action.{pure, continue, ◌>>◌, ◌>>=◌}
use flow_speckit.Action.Post.{>>=-eq-ok, >>=_ok}
use flow_speckit.Workflow.{Body, Output}
use flow_speckit.Errors.{ok, Outcome}
use flow_speckit.Replay.Bodies.{Propagates, SameTaken}
use flow_speckit.Replay.Tracking.{PassTracks}
use flow_speckit.Replay.Passes.{Replayed, run-replays}

checked_return :
    (ks : List Text) (out out' : Output) (s s' : Pass)
    → continue (check_leftover ks) (λ _. pure out) s ≡ (ok out', s')
    → (ks ≡ []) × (◌≡◌ {A = Outcome Output × Pass} (ok out, s) (ok out', s'))
checked_return [] out out' s s' h = (refl, h)
checked_return (k ∷ ks) out out' s s' h = absurd (cc (ap (λ (p : Outcome Output × Pass). p.0) h))

-- A pass that returned, its check included.
pub replay_body-eq-ok :
    (env : Env) (body : Body) (s s' : Pass) (out : Output)
    → replay_body env body s ≡ (ok out, s')
    → (run_body env body s ≡ (ok out, s')) × AllRequested s'.ctx.memoized s'.ctx.requested
unfolding replay_body assert_replay_consistent ◌>>=◌
replay_body-eq-ok env body s s' out h =
    let (out1, s1, ran, rest) =
      >>=-eq-ok (run_body env body) (λ out. assert_replay_consistent >> pure out) s h in
    let (none_left, same) =
      checked_return (leftover s1.ctx.memoized s1.ctx.requested) out1 out s1 s' rest in
    (
      ran ∙ same,
      subst (λ (x : Pass). AllRequested x.ctx.memoized x.ctx.requested)
          (ap (λ (p : Outcome Output × Pass). p.1) same)
          ((leftover_iff s1.ctx.memoized s1.ctx.requested).0 none_left),
    )

replay_body_ok :
    (env : Env) (body : Body) (s s' : Pass) (out : Output)
    → run_body env body s ≡ (ok out, s')
    → AllRequested s'.ctx.memoized s'.ctx.requested
    → replay_body env body s ≡ (ok out, s')
unfolding replay_body assert_replay_consistent ◌>>=◌
replay_body_ok env body s s' out ran all =
    >>=_ok (run_body env body) (λ out. assert_replay_consistent >> pure out) s ran
    ∙ ap (λ ks. continue (check_leftover ks) (λ _. pure out) s')
        ((leftover_iff s'.ctx.memoized s'.ctx.requested).1 all)

-- The dicts of `u` answer as those of `s` do.
pub record SameMemory (s u : Context) : Type 0 where
  pub memo : (k : Text) → dict_get k u.memoized ≡ dict_get k s.memoized
  pub gates : (k : Text) → dict_get k u.gates_resolved ≡ dict_get k s.gates_resolved

-- A pass that returned is replayed by any engine from a context that remembers as much.
pub replay_body-replays :
    (env env' : Env) (body : Body) (s s' u : Pass) (out : Output)
    → Propagates body
    → PassTracks s
    → replay_body env body s ≡ (ok out, s')
    → SameTaken s.ctx u.ctx
    → SameMemory s'.ctx u.ctx
    → Replayed out s' u (replay_body env' body u)
replay_body-replays env env' body s s' u out through tr h taken same =
    let (ran, all) = replay_body-eq-ok env body s s' out h in
    let again =
      run-replays env env' body s s' u out through tr ran taken
        (record { memo = λ k v e. same.memo k ∙ e; gates = λ k e' e. same.gates k ∙ e }) in
    let u' : Pass = record u { ctx = again.ctx } in
    record {
      ctx = again.ctx;
      same = replay_body_ok env' body u u' out again.same (λ k v e.
          rw again.keys.requested (all k v (sym (same.memo k) ∙ rw (← again.memoized) e)));
      keys = again.keys;
      memoized = again.memoized;
      gates_resolved = again.gates_resolved;
      sealed = again.sealed;
    }
