-- ===== src/Replay/Passes.antt =====
-- A pass that returned loses nothing, and its replay takes the same way on any engine.
use flow_speckit.Prelude.{◌≡◌, refl, sym, ap, ◌∙◌, subst, arith, Text}
use flow_speckit.Errors.{Outcome, ok}
use flow_speckit.Workflow.{Body, returns, raises, await, Output, Call, Reply}
use flow_speckit.Context.{Context, Env, Pass}
use flow_speckit.Context.Keys.{allocate}
use flow_speckit.Context.Run.{label_of, allocate_key, perform_at, perform, to_body, run_body}
use flow_speckit.Replay.Bodies.{
  Propagates, SameTaken, Remembers-refl, Remembers, first_call, PassTracks-begun,
  allocate-Allocated, Remembers-trans, allocate-SameTaken, Recalls-Remembers, begun_context,
}
use flow_speckit.Replay.Tracking.{PassTracks}
use flow_speckit.Replay.Calls.{Answer-perform_at, Recalls, perform_at-Recalls}
use flow_speckit.Action.Post.{>>=_ok}
use flow_speckit.Replay.Steady.{SameKeys}

-- What a pass that returned leaves behind.
pub record Extends (s t : Pass) : Type 0 where
  pub run_id : t.ctx.run_id ≡ s.ctx.run_id
  pub sealed : t.ctx.sealed ≡ s.ctx.sealed
  pub remembers : Remembers s.ctx t.ctx
  pub tracks : PassTracks t

returned_pass :
    (env : Env) (out out' : Output) (s s' : Pass)
    → run_body env (returns out) s ≡ (ok out', s')
    → (out ≡ out') × (s ≡ s')
unfolding run_body
returned_pass env out out' s s' h = (ground arith, ap (λ (p : Outcome Output × Pass). p.1) h)

pub run-Extends :
    (env : Env) (body : Body) (s s' : Pass) (out : Output)
    → Propagates body
    → PassTracks s
    → run_body env body s ≡ (ok out, s')
    → Extends s s'
unfolding run_body
run-Extends env (returns out') s s' out through tr h =
    subst (Extends s) (returned_pass env out' out s s' h).1
      (record { run_id = refl; sealed = refl; remembers = Remembers-refl s.ctx; tracks = tr })
run-Extends env (raises e) s s' out through tr h =
    absurd (cc (ap (λ (p : Outcome Output × Pass). p.0) h))
run-Extends env (await call k) s s' out (through, rest) tr h =
    let f = first_call env call k s s' out through h in
    let (tracks, kept, own, seal) =
      PassTracks-begun (label_of call) f.key s f.begun f.allocated tr in
    let a = Answer-perform_at env f.key call f.begun f.after f.reply tracks f.performed in
    let e =
      run-Extends env (k f.reply) f.after s' out (rest f.reply) (a.grows.tracks tracks) f.rest in
    record {
      run_id = e.run_id ∙ (a.grows.keys.run_id ∙ own);
      sealed = e.sealed ∙ (a.grows.keys.sealed ∙ seal);
      remembers =
          Remembers-trans kept
            (Remembers-trans (record { memo = a.grows.memo; gates = a.grows.gates }) e.remembers);
      tracks = e.tracks;
    }

SameTaken-after : {c d b a : Context} → SameTaken c d → c ≡ b → SameKeys b a → SameTaken a d
SameTaken-after {d} same started keys =
    let same' = subst (λ x. SameTaken x d) started same in
    record {
      ordinals = same'.ordinals ∙ sym keys.ordinals;
      requested = same'.requested ∙ sym keys.requested;
    }

-- The replay of a pass that went from `s` to `s'`, started at `u`.
pub record Replayed (out : Output) (s' u : Pass) (run : Outcome Output × Pass) : Type 0 where
  pub ctx : Context
  pub same : run ≡ (ok out, record u { ctx = ctx })
  pub keys : SameTaken s'.ctx ctx
  pub memoized : ctx.memoized ≡ u.ctx.memoized
  pub gates_resolved : ctx.gates_resolved ≡ u.ctx.gates_resolved
  pub sealed : ctx.sealed ≡ u.ctx.sealed

perform-Recalls :
    (env : Env) (call : Call) (key : Text) (r : Reply) (u : Pass)
    → (allocate (label_of call) u.ctx).0 ≡ ok key
    → Recalls key call r u.ctx.memoized u.ctx.gates_resolved
    → perform env call u ≡ (ok r, record u { ctx = (allocate (label_of call) u.ctx).1 })
unfolding perform allocate_key
perform-Recalls env call key r u taken h =
    let a = allocate-Allocated (label_of call) key u.ctx in
    let u1 : Pass = record u { ctx = (allocate (label_of call) u.ctx).1 } in
    >>=_ok (allocate_key (label_of call)) (λ key. perform_at env key call) u (λ i. (taken i, u1))
    ∙ perform_at-Recalls env key call u1 r (rw (a.memoized, a.gates_resolved) h)

-- A pass that began with a memo that agrees with its gapless log and returned, over a body that
-- catches no exception of a step, is replayed by any engine from any context that has handed out
-- the same keys and remembers at least as much: the same value, the same keys in the same order,
-- and neither the database nor the number of side effects changes.
pub run-replays :
    (env env' : Env) (body : Body) (s s' u : Pass) (out : Output)
    → Propagates body
    → PassTracks s
    → run_body env body s ≡ (ok out, s')
    → SameTaken s.ctx u.ctx
    → Remembers s'.ctx u.ctx
    → Replayed out s' u (run_body env' body u)
unfolding run_body
run-replays env env' (returns out') s s' u out through tr h same kept =
    let (o, p) = returned_pass env out' out s s' h in
    record {
      ctx = u.ctx;
      same = λ i. (ok (o i), u);
      keys = subst (λ (x : Pass). SameTaken x.ctx u.ctx) p same;
      memoized = refl;
      gates_resolved = refl;
      sealed = refl;
    }
run-replays env env' (raises e) s s' u out through tr h same kept =
    absurd (cc (ap (λ (p : Outcome Output × Pass). p.0) h))
run-replays env env' (await call k) s s' u out (through, rest) tr h same kept =
    let f = first_call env call k s s' out through h in
    let (tracks, _, _, _) = PassTracks-begun (label_of call) f.key s f.begun f.allocated tr in
    let a = Answer-perform_at env f.key call f.begun f.after f.reply tracks f.performed in
    let tracked = a.grows.tracks tracks in
    let e = run-Extends env (k f.reply) f.after s' out (rest f.reply) tracked f.rest in
    let c = (allocate (label_of call) u.ctx).1 in
    let u1 : Pass = record u { ctx = c } in
    let al = allocate-Allocated (label_of call) f.key u.ctx in
    let (key_same, taken) = allocate-SameTaken (label_of call) s.ctx u.ctx same in
    let step =
      perform-Recalls env' call f.key f.reply u
        (key_same ∙ ap (λ (p : Outcome Text × Pass). p.0) f.allocated)
        (Recalls-Remembers f.key call f.reply f.after.ctx u.ctx (Remembers-trans e.remembers kept)
          a.recalls) in
    let next =
      run-replays env env' (k f.reply) f.after s' u1 out (rest f.reply) tracked f.rest
        (SameTaken-after taken
          (ap (λ (p : Pass). p.ctx) (begun_context (label_of call) f.key s f.begun f.allocated))
          a.grows.keys)
        (record {
          memo = λ k v e. rw al.memoized (kept.memo k v e);
          gates = λ k v e. rw al.gates_resolved (kept.gates k v e);
        }) in
    record {
      ctx = next.ctx;
      same =
          ap (λ (p : Outcome Reply × Pass). to_body env' p.0 (λ r. run_body env' (k r)) p.1) step
          ∙ next.same;
      keys = next.keys;
      memoized = next.memoized ∙ al.memoized;
      gates_resolved = next.gates_resolved ∙ al.gates_resolved;
      sealed = next.sealed ∙ al.sealed;
    }
