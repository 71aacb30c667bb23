-- ===== src/Replay/Answers.antt =====
-- A step that returned a value is remembered, and a remembered step is answered at once.
use flow_speckit.Prelude.{
  ℕ, ◌≡◌, sym, ap, ◌∙◌, subst, inl, inr, Option, none, some, arith, Option-cases, Text,
  text_eq_refl, text_eq_iff, Dict, dict_get, dict_put, get-put,
}
use flow_speckit.Json.{Json}
use flow_speckit.Base.{StepKind, HandlerKind}
use flow_speckit.Errors.{Outcome, ok}
use flow_speckit.Events.{GateResolved}
use flow_speckit.Workflow.{RetryPolicy, Intrinsic, no_retry}
use flow_speckit.Action.{Action, ◌>>=◌}
use flow_speckit.Context.{StepInvocation, HandlerReply, Env, Pass}
use flow_speckit.Context.Keys.{require_live}
use flow_speckit.Context.Steps.{dispatch, memo_or, run_handler_step, run_intrinsic}
use flow_speckit.Replay.Tracking.{PassTracks}
use flow_speckit.Replay.Steady.{
  SameKeys, SameKeys-refl, Committed, Commits, Commits-bind, Commits-of_Never, Never-raise, Quiet,
  SameKeys-trans,
}
use flow_speckit.Replay.Checkpoints.{Steady-require_live, Commits-checkpointed}

-- From `s` to `t` nothing that was remembered is lost, and the memo still agrees with the log.
pub record Grows (s t : Pass) : Type 0 where
  pub keys : SameKeys s.ctx t.ctx
  pub memo :
      (k : Text) (v : Json)
      → dict_get k s.ctx.memoized ≡ some v
      → dict_get k t.ctx.memoized ≡ some v
  pub gates :
      (k : Text) (e : GateResolved)
      → dict_get k s.ctx.gates_resolved ≡ some e
      → dict_get k t.ctx.gates_resolved ≡ some e
  pub tracks : PassTracks s → PassTracks t

pub Grows-refl : (s : Pass) → Grows s s
Grows-refl s = record {
  keys = SameKeys-refl s.ctx;
  memo = λ k v h. h;
  gates = λ k e h. h;
  tracks = λ t. t;
}

pub Quiet-Grows : {s t u : Pass} → Quiet s t → Grows t u → Grows s u
Quiet-Grows q g = record {
  keys = SameKeys-trans q.keys g.keys;
  memo = λ k v h. g.memo k v (rw q.memoized h);
  gates = λ k e h. g.gates k e (rw q.resolved h);
  tracks = λ t. g.tracks (q.tracks t);
}

-- A put at a key that was missing loses nothing.
pub put-keeps {ℓ} :
    {V : Type ℓ} (key k : Text) (v w : V) (d : Dict V)
    → dict_get key d ≡ none
    → dict_get k d ≡ some w
    → dict_get k (dict_put key v d) ≡ some w
put-keeps key k v w d miss h = rw get-put (ground (arith, text_eq_iff key k))

pub put-finds {ℓ} :
    {V : Type ℓ} (key : Text) (v : V) (d : Dict V) → dict_get key (dict_put key v d) ≡ some v
put-finds key v d = rw get-put (rw text_eq_refl)

pub Committed-Grows :
    (key : Text) (v : Json) {s t : Pass}
    → dict_get key s.ctx.memoized ≡ none
    → Committed key v s t
    → Grows s t
Committed-Grows key v {s} miss c = record {
  keys = c.keys;
  memo = λ k w h. rw c.memoized (put-keeps key k v w s.ctx.memoized miss h);
  gates = λ k e h. rw c.resolved h;
  tracks = c.tracks;
}

-- What a step that looks in the memo first leaves behind.
pub record MemoAnswer (key : Text) (v : Json) (s t : Pass) : Type 0 where
  pub grows : Grows s t
  pub found : dict_get key t.ctx.memoized ≡ some v

module _ (env : Env) where
  pub memo_or_hit :
      (key : Text) (live : Action Pass Json) (s : Pass) (v : Json)
      → dict_get key s.ctx.memoized ≡ some v
      → memo_or env key live s ≡ (ok v, s)
  unfolding memo_or
  memo_or_hit key live s v hit = rw (hit, memo_or)

  memo_or_miss :
      (key : Text) (live : Action Pass Json) (s : Pass)
      → dict_get key s.ctx.memoized ≡ none
      → memo_or env key live s ≡ (require_live key >>= λ _. live) s
  unfolding memo_or
  memo_or_miss key live s miss = rw (miss, memo_or)

  pub MemoAnswer-memo_or :
      (key : Text) (live : Action Pass Json) (s t : Pass) (v : Json)
      → Commits key live
      → PassTracks s
      → memo_or env key live s ≡ (ok v, t)
      → MemoAnswer key v s t
  MemoAnswer-memo_or key live s t v commits tr h =
      elim (Option-cases (dict_get key s.ctx.memoized)) [
        | inl miss ↦
            let c =
              (Commits-bind key (require_live key) (λ _. live) (Steady-require_live key)
                  (λ _. commits)).at
                s t v miss tr (sym (memo_or_miss key live s miss) ∙ h) in
            record {
              grows = Committed-Grows key v miss c;
              found = rw c.memoized (put-finds key v s.ctx.memoized);
            }
        | inr (w, hit) ↦
            let e = sym (memo_or_hit key live s w hit) ∙ h in
            let same : s ≡ t = ap (λ (p : Outcome Json × Pass). p.1) e in
            let value_same : w ≡ v = ground arith in
            subst (MemoAnswer key v s) same
              (record { grows = Grows-refl s; found = hit ∙ ap some value_same })
      ]

  Commits-dispatch :
      (handler : Option (ℕ → StepInvocation → HandlerReply)) (key label : Text) (kind : HandlerKind)
      (event_kind : StepKind) (payload : Json) (retry : Option RetryPolicy)
      → Commits key (dispatch env handler key label kind event_kind payload retry)
  unfolding dispatch
  Commits-dispatch none key label kind event_kind payload retry =
      Commits-of_Never key (Never-raise _)
  Commits-dispatch (some handler) key label kind event_kind payload retry = record {
    at = λ s. (Commits-checkpointed env key event_kind _ _).at s;
  }

  pub MemoAnswer-run_handler_step :
      (key label : Text) (kind : HandlerKind) (event_kind : StepKind) (payload : Json)
      (retry : Option RetryPolicy) (s t : Pass) (v : Json)
      → PassTracks s
      → run_handler_step env key label kind event_kind payload retry s ≡ (ok v, t)
      → MemoAnswer key v s t
  unfolding run_handler_step
  MemoAnswer-run_handler_step key label kind event_kind payload retry s t v tr h =
      MemoAnswer-memo_or key _ s t v
        (Commits-dispatch (env.handlers kind) key label kind event_kind payload retry) tr h

  pub MemoAnswer-run_intrinsic :
      (key : Text) (which : Intrinsic) (s t : Pass) (v : Json)
      → PassTracks s
      → run_intrinsic env key which s ≡ (ok v, t)
      → MemoAnswer key v s t
  unfolding run_intrinsic
  MemoAnswer-run_intrinsic key which s t v tr h =
      MemoAnswer-memo_or key _ s t v (Commits-checkpointed env key StepKind.intrinsic _ no_retry) tr
        h
