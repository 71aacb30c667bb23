-- ===== src/Replay/Calls.antt =====
-- One awaited call: what it leaves behind, and how it is answered when the log holds it.
use flow_speckit.Prelude.{◌≡◌, sym, ap, ◌∙◌, subst, some, arith, Text, Dict, dict_get}
use flow_speckit.Json.{Json, null}
use flow_speckit.Errors.{Outcome, ok}
use flow_speckit.Events.{GateResolved}
use flow_speckit.Workflow.{
  decision_from_event, Call, run_skill, execute, open_pr, gate, sleep, child_workflow, intrinsic,
  Reply, value, decided,
}
use flow_speckit.Action.{Action, pure, ◌>>=◌}
use flow_speckit.Action.Post.{>>=-eq-ok, >>=_ok}
use flow_speckit.Context.{Env, Pass}
use flow_speckit.Context.Steps.{memo_or, run_handler_step, run_intrinsic}
use flow_speckit.Context.Waits.{run_gate, run_sleep}
use flow_speckit.Context.Children.{run_child}
use flow_speckit.Context.Run.{perform_at}
use flow_speckit.Replay.Tracking.{PassTracks}
use flow_speckit.Replay.Answers.{
  Grows, Grows-refl, MemoAnswer, memo_or_hit, MemoAnswer-run_handler_step, MemoAnswer-run_intrinsic,
}
use flow_speckit.Replay.Waiting.{GateAnswer-run_gate, run_gate_hit}
use flow_speckit.Replay.Joining.{SleepAnswer-run_sleep, MemoAnswer-run_child}

-- The dicts of a context answer the call under `key` with `r`.
abbrev pub Recalls : Text → Call → Reply → Dict Json → Dict GateResolved → Type 0
Recalls key (gate _ _ _ _ _ _) r memo gates =
    (e : GateResolved) × (dict_get key gates ≡ some e) × (r ≡ decided (decision_from_event e))
Recalls key (sleep _ _) r memo gates = (v : Json) × (dict_get key memo ≡ some v) × (r ≡ value null)
Recalls key _ r memo gates = (v : Json) × (dict_get key memo ≡ some v) × (r ≡ value v)

-- What a call that gave a reply leaves behind.
pub record Answer (key : Text) (call : Call) (r : Reply) (s t : Pass) : Type 0 where
  pub grows : Grows s t
  pub recalls : Recalls key call r t.ctx.memoized t.ctx.gates_resolved

module _ {A : Type 0} where
  -- The last call of a block that only wraps its value.
  wrapped :
      (m : Action Pass A) (f : A → Reply) (s t : Pass) (r : Reply)
      → (m >>= λ v. pure (f v)) s ≡ (ok r, t)
      → (v : A) × (m s ≡ (ok v, t)) × (r ≡ f v)
  wrapped m f s t r h =
      let (v, t1, first, rest) = >>=-eq-ok m (λ v. pure (f v)) s h in
      (
        v,
        first ∙ ap (λ (x : Pass). (ok v, x)) (ap (λ (p : Outcome Reply × Pass). p.1) rest),
        ground arith,
      )

Answer-handled :
    (key : Text) (call : Call) (r : Reply) (s t : Pass) (v : Json)
    → ((w : Json)
        → dict_get key t.ctx.memoized ≡ some w
        → r ≡ value w
        → Recalls key call r t.ctx.memoized t.ctx.gates_resolved)
    → r ≡ value v
    → MemoAnswer key v s t
    → Answer key call r s t
Answer-handled key call r s t v recall same a = record {
  grows = a.grows;
  recalls = recall v a.found same;
}

module _ (env : Env) where
  -- In a pass whose memo agrees with its gapless log, after an awaited call that answered the
  -- body, the answer is remembered under its step key, nothing that was remembered is lost, and
  -- the memo still agrees with the log.
  pub Answer-perform_at :
      (key : Text) (call : Call) (s t : Pass) (r : Reply)
      → PassTracks s
      → perform_at env key call s ≡ (ok r, t)
      → Answer key call r s t
  unfolding perform_at
  Answer-perform_at key (run_skill label input retry timeout) s t r tr h =
      let (v, e, same) = wrapped _ value s t r h in
      Answer-handled key _ r s t v (λ w f g. (w, f, g)) same
        (MemoAnswer-run_handler_step env key label _ _ _ retry s t v tr e)
  Answer-perform_at key (execute label plan backend constraints retry) s t r tr h =
      let (v, e, same) = wrapped _ value s t r h in
      Answer-handled key _ r s t v (λ w f g. (w, f, g)) same
        (MemoAnswer-run_handler_step env key label _ _ _ retry s t v tr e)
  Answer-perform_at key (open_pr label change review retry) s t r tr h =
      let (v, e, same) = wrapped _ value s t r h in
      Answer-handled key _ r s t v (λ w f g. (w, f, g)) same
        (MemoAnswer-run_handler_step env key label _ _ _ retry s t v tr e)
  Answer-perform_at key (gate label artifact approvers timeout on_timeout escalate_to) s t r tr h =
      let (d, e, same) = wrapped _ decided s t r h in
      let a = GateAnswer-run_gate env.auto_approve key label _ s t d e in
      record { grows = a.grows; recalls = (a.resolution, a.found, same ∙ ap decided a.decides) }
  Answer-perform_at key (sleep label duration) s t r tr h =
      let (v, e, same) = wrapped _ value s t r h in
      let a = SleepAnswer-run_sleep key duration s t v e in
      subst (Answer key (sleep label duration) r s) a.same
        (record { grows = Grows-refl s; recalls = (a.result, a.found, same ∙ ap value a.nothing) })
  Answer-perform_at key (child_workflow label name input version) s t r tr h =
      let (v, e, same) = wrapped _ value s t r h in
      Answer-handled key _ r s t v (λ w f g. (w, f, g)) same
        (MemoAnswer-run_child env key name version input s t v tr e)
  Answer-perform_at key (intrinsic which) s t r tr h =
      let (v, e, same) = wrapped _ value s t r h in
      Answer-handled key _ r s t v (λ w f g. (w, f, g)) same
        (MemoAnswer-run_intrinsic env key which s t v tr e)

  valued_hit :
      (key : Text) (live : Action Pass Json) (r : Reply) (u : Pass)
      → (v : Json) × (dict_get key u.ctx.memoized ≡ some v) × (r ≡ value v)
      → (memo_or env key live >>= λ v. pure (value v)) u ≡ (ok r, u)
  valued_hit key live r u (v, found, same) =
      >>=_ok (memo_or env key live) (λ v. pure (value v)) u (memo_or_hit env key live u v found)
      ∙ ap (λ (x : Reply). (ok x, u)) (sym same)

  pub perform_at-Recalls :
      (key : Text) (call : Call) (u : Pass) (r : Reply)
      → Recalls key call r u.ctx.memoized u.ctx.gates_resolved
      → perform_at env key call u ≡ (ok r, u)
  unfolding perform_at run_handler_step run_child run_intrinsic
  perform_at-Recalls key (gate label artifact approvers timeout on_timeout escalate_to) u r
        (e, found, same) =
      >>=_ok (run_gate env.auto_approve key label _) (λ d. pure (decided d)) u
        (run_gate_hit env.auto_approve key label _ u e found)
      ∙ ap (λ (x : Reply). (ok x, u)) (sym same)
  perform_at-Recalls key (sleep label duration) u r (v, found, same) =
      >>=_ok (run_sleep key duration) (λ v. pure (value v)) u
        (unfold run_sleep in rw (found, run_sleep))
      ∙ ap (λ (x : Reply). (ok x, u)) (sym same)
  perform_at-Recalls key (run_skill label input retry timeout) u r h = valued_hit key _ r u h
  perform_at-Recalls key (execute label plan backend constraints retry) u r h =
      valued_hit key _ r u h
  perform_at-Recalls key (open_pr label change review retry) u r h = valued_hit key _ r u h
  perform_at-Recalls key (child_workflow label name input version) u r h = valued_hit key _ r u h
  perform_at-Recalls key (intrinsic which) u r h = valued_hit key _ r u h
