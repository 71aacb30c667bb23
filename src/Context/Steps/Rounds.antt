-- ===== src/Context/Steps/Rounds.antt =====
-- The rounds that `checkpointed` gives to its loop are enough.
use flow_speckit.Prelude.{
  ℕ, zero, suc, ◌+◌, ◌≤◌, ◌<◌, ◌≡◌, refl, ap, ◌∙◌, fun_ext, inl, inr, Bool, true, false, ◌&&◌,
  arith, ltb, Bool-cases, Text,
}
use flow_speckit.Json.{Json}
use flow_speckit.Base.{StepKind}
use flow_speckit.Errors.{Exception}
use flow_speckit.Workflow.{RetryPolicy}
use flow_speckit.Action.{Action, ◌>>=◌}
use flow_speckit.Context.{HandlerReply, returned, threw, died, Env, Pass, count_of}
use flow_speckit.Context.Steps.{
  append_event, attempt_loop, after_reply, retry_or_raise, checkpointed,
}

module _ (env : Env) where
  retry_or_raise-again :
      (key : Text) (policy : RetryPolicy) (attempt : ℕ) (e : Exception) (will_retry : Bool)
      (again again' : Action Pass Json) (s : Pass)
      → (will_retry ≡ true → (t : Pass) → again t ≡ again' t)
      → retry_or_raise env key policy attempt e will_retry again s
        ≡ retry_or_raise env key policy attempt e will_retry again' s
  unfolding retry_or_raise
  retry_or_raise-again key policy attempt e false again again' s same = refl
  retry_or_raise-again key policy attempt e true again again' s same =
      elim (Bool-cases env.durable_backoff) [
        | inl durable ↦ rw durable refl
        | inr in_process ↦ rw in_process (same refl s)
      ]

  -- What is done again matters only where the failure is retried.
  after_reply-again :
      (key : Text) (policy : RetryPolicy) (attempt : ℕ) (reply : HandlerReply)
      (again again' : Action Pass Json) (s : Pass)
      → (attempt < policy.max_attempts → (t : Pass) → again t ≡ again' t)
      → after_reply env key policy attempt reply again s
        ≡ after_reply env key policy attempt reply again' s
  unfolding after_reply ◌>>=◌ append_event
  after_reply-again key policy attempt (returned r) again again' s same = refl
  after_reply-again key policy attempt (threw e) again again' s same =
      let will_retry = ltb attempt policy.max_attempts && policy.retry_on e in
      retry_or_raise-again key policy attempt e will_retry again again' _
        (λ retried t. same (ground (arith, retried)) t)
  after_reply-again key policy attempt died again again' s same = refl

  >>=-again :
      (m : Action Pass HandlerReply) (f g : HandlerReply → Action Pass Json) (s : Pass)
      → ((r : HandlerReply) (t : Pass) → f r t ≡ g r t)
      → (m >>= f) s ≡ (m >>= g) s
  >>=-again m f g s same =
      ap (λ (k : HandlerReply → Action Pass Json). (m >>= k) s)
        (fun_ext (λ r. fun_ext (λ t. same r t)))

-- Where the attempts left are no more than the rounds, a further round changes nothing.
attempt_loop-suc :
    (env : Env) (rounds : ℕ) (key : Text) (kind : StepKind) (effect : ℕ → ℕ → HandlerReply)
    (policy : RetryPolicy) (attempt : ℕ) (s : Pass)
    → policy.max_attempts ≤ attempt + rounds
    → attempt_loop env (suc rounds) key kind effect policy attempt s
      ≡ attempt_loop env rounds key kind effect policy attempt s
unfolding attempt_loop
attempt_loop-suc env zero key kind effect policy attempt s le = >>=-again env _ _ _ s (λ reply t.
    after_reply-again env key policy attempt reply _ _ t (λ more. absurd (omega (arith, le, more))))
attempt_loop-suc env (suc rounds) key kind effect policy attempt s le =
    >>=-again env _ _ _ s (λ reply t.
      after_reply-again env key policy attempt reply _ _ t (λ more u.
        attempt_loop-suc env rounds key kind effect policy (attempt + 1) u (omega (arith, le))))

-- Any number of rounds from the policy's attempts on gives what `checkpointed` gives: its loop
-- never ends for want of rounds.
pub attempt_loop-checkpointed :
    (env : Env) (more : ℕ) (key : Text) (kind : StepKind) (effect : ℕ → ℕ → HandlerReply)
    (policy : RetryPolicy) (s : Pass)
    → attempt_loop env
        (policy.max_attempts + more)
        key
        kind
        effect
        policy
        (count_of key s.ctx.failed_counts + 1)
        s
      ≡ checkpointed env key kind effect policy s
unfolding checkpointed
attempt_loop-checkpointed env zero key kind effect policy s =
    ap (λ n. attempt_loop env n key kind effect policy (count_of key s.ctx.failed_counts + 1) s)
      (omega arith)
attempt_loop-checkpointed env (suc more) key kind effect policy s =
    let one_more : policy.max_attempts + suc more ≡ suc (policy.max_attempts + more) =
      (omega arith) in
    ap (λ n. attempt_loop env n key kind effect policy (count_of key s.ctx.failed_counts + 1) s)
      one_more
    ∙ (attempt_loop-suc env (policy.max_attempts + more) key kind effect policy
          (count_of key s.ctx.failed_counts + 1) s (omega arith)
        ∙ attempt_loop-checkpointed env more key kind effect policy s)
