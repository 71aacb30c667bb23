-- ===== src/Replay/Bodies.antt =====
-- A pass that returned, and its replay.
use flow_speckit.Prelude.{◌≡◌, refl, ap, subst, some, arith, Text, dict_get}
use flow_speckit.Json.{Json}
use flow_speckit.Errors.{Exception, Outcome, ok, raised, suspended, cancelled_run, crashed}
use flow_speckit.Events.{GateResolved}
use flow_speckit.Workflow.{Call, gate, sleep, Reply, failure, Body, returns, raises, await, Output}
use flow_speckit.Action.Post.{>>=-eq-ok}
use flow_speckit.Context.{Context, Env, Pass}
use flow_speckit.Context.Keys.{allocate}
use flow_speckit.Context.Run.{label_of, allocate_key, perform_at, perform, to_body, run_body}
use flow_speckit.Replay.Calls.{Recalls}
use flow_speckit.Replay.Tracking.{PassTracks}

-- The body catches no exception of a step: it lets each one through.
abbrev pub Propagates : Body → Type 0
Propagates (returns out) = Unit
Propagates (raises e) = Unit
Propagates (await call k) =
    ((e : Exception) → k (failure e) ≡ raises e) × ((r : Reply) → Propagates (k r))

-- The same step keys were handed out so far.
pub record SameTaken (c d : Context) : Type 0 where
  pub ordinals : d.ordinals ≡ c.ordinals
  pub requested : d.requested ≡ c.requested

-- Nothing that `s` remembers is lost in `t`.
pub record Remembers (s t : Context) : Type 0 where
  pub memo : (k : Text) (v : Json) → dict_get k s.memoized ≡ some v → dict_get k t.memoized ≡ some v
  pub gates :
      (k : Text) (e : GateResolved)
      → dict_get k s.gates_resolved ≡ some e
      → dict_get k t.gates_resolved ≡ some e

-- An allocation leaves all but the key bookkeeping as it was.
pub record Allocated (u : Context) (key : Text) (c : Context) : Type 0 where
  pub run_id : c.run_id ≡ u.run_id
  pub memoized : c.memoized ≡ u.memoized
  pub gates_resolved : c.gates_resolved ≡ u.gates_resolved
  pub sealed : c.sealed ≡ u.sealed

pub allocate-Allocated : (label key : Text) (c : Context) → Allocated c key (allocate label c).1
unfolding allocate
allocate-Allocated label key c = ground arith

-- The key, and the keys handed out after it, depend only on those handed out before.
pub allocate-SameTaken :
    (label : Text) (c d : Context)
    → SameTaken c d
    → ((allocate label d).0 ≡ (allocate label c).0)
      × SameTaken (allocate label c).1 (allocate label d).1
unfolding allocate
allocate-SameTaken label c d h = ground arith

pub Remembers-trans : {a b c : Context} → Remembers a b → Remembers b c → Remembers a c
Remembers-trans h k = record {
  memo = λ j v e. k.memo j v (h.memo j v e);
  gates = λ j v e. k.gates j v (h.gates j v e);
}

pub Remembers-refl : (a : Context) → Remembers a a
Remembers-refl a = record { memo = λ k v e. e; gates = λ k v e. e }

pub Recalls-Remembers :
    (key : Text) (call : Call) (r : Reply) (s t : Context)
    → Remembers s t
    → Recalls key call r s.memoized s.gates_resolved
    → Recalls key call r t.memoized t.gates_resolved
Recalls-Remembers key (gate _ _ _ _ _ _) r s t h (e, found, same) = (e, h.gates key e found, same)
Recalls-Remembers key (sleep _ _) r s t h (v, found, same) = (v, h.memo key v found, same)
Recalls-Remembers key _ r s t h (v, found, same) = (v, h.memo key v found, same)

-- The first call of a body that returned, and the rest.
pub record FirstCall (env : Env) (call : Call) (k : Reply → Body) (s s' : Pass) (out : Output)
    : Type 0 where
  pub key : Text
  pub begun : Pass
  pub reply : Reply
  pub after : Pass
  pub allocated : allocate_key (label_of call) s ≡ (ok key, begun)
  pub performed : perform_at env key call begun ≡ (ok reply, after)
  pub rest : run_body env (k reply) after ≡ (ok out, s')

module _ (env : Env) where
  to_body-eq-ok :
      (o : Outcome Reply) (k : Reply → Body) (s1 s' : Pass) (out : Output)
      → ((e : Exception) → k (failure e) ≡ raises e)
      → to_body env o (λ r. run_body env (k r)) s1 ≡ (ok out, s')
      → (r : Reply) × (o ≡ ok r) × (run_body env (k r) s1 ≡ (ok out, s'))
  unfolding run_body
  to_body-eq-ok (ok r) k s1 s' out through h = (r, refl, h)
  to_body-eq-ok (raised e) k s1 s' out through h =
      let h' : run_body env (raises e) s1 ≡ (ok out, s') =
        (subst (λ b. run_body env b s1 ≡ (ok out, s')) (through e) h) in
      absurd (cc (ap (λ (p : Outcome Output × Pass). p.0) h'))
  to_body-eq-ok (suspended r) k s1 s' out through h =
      absurd (cc (ap (λ (p : Outcome Output × Pass). p.0) h))
  to_body-eq-ok (cancelled_run r) k s1 s' out through h =
      absurd (cc (ap (λ (p : Outcome Output × Pass). p.0) h))
  to_body-eq-ok crashed k s1 s' out through h =
      absurd (cc (ap (λ (p : Outcome Output × Pass). p.0) h))

  pub first_call :
      (call : Call) (k : Reply → Body) (s s' : Pass) (out : Output)
      → ((e : Exception) → k (failure e) ≡ raises e)
      → run_body env (await call k) s ≡ (ok out, s')
      → FirstCall env call k s s' out
  unfolding run_body perform
  first_call call k s s' out through h =
      let (r, returned, rest) =
        to_body-eq-ok (perform env call s).0 k (perform env call s).1 s' out through h in
      let (key, begun, allocated, performed) =
        >>=-eq-ok (allocate_key (label_of call)) (λ key. perform_at env key call) s {b = r}
          {s' = (perform env call s).1} (λ i. (returned i, (perform env call s).1)) in
      record {
        key = key;
        begun = begun;
        reply = r;
        after = (perform env call s).1;
        allocated = allocated;
        performed = performed;
        rest = rest;
      }

pub begun_context :
    (label key : Text) (s begun : Pass)
    → allocate_key label s ≡ (ok key, begun)
    → record s { ctx = (allocate label s.ctx).1 } ≡ begun
unfolding allocate_key
begun_context label key s begun h = ap (λ (p : Outcome Text × Pass). p.1) h

-- What an allocation keeps, of the pass.
pub PassTracks-begun :
    (label key : Text) (s begun : Pass)
    → allocate_key label s ≡ (ok key, begun)
    → PassTracks s
    → PassTracks begun
      × Remembers s.ctx begun.ctx
      × (begun.ctx.run_id ≡ s.ctx.run_id)
      × (begun.ctx.sealed ≡ s.ctx.sealed)
PassTracks-begun label key s begun h tr =
    let a = allocate-Allocated label key s.ctx in
    subst
      (λ (b : Pass).
        PassTracks b
        × Remembers s.ctx b.ctx
        × (b.ctx.run_id ≡ s.ctx.run_id)
        × (b.ctx.sealed ≡ s.ctx.sealed))
      (begun_context label key s begun h)
      (
        record {
          gapless = tr.gapless;
          memoized = λ k. rw (a.memoized, a.run_id) (tr.memoized k);
          resolved = λ k. rw (a.gates_resolved, a.run_id) (tr.resolved k);
        },
        record { memo = λ k v e. rw a.memoized e; gates = λ k v e. rw a.gates_resolved e },
        a.run_id,
        a.sealed,
      )
