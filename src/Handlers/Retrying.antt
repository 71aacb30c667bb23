-- ===== src/Handlers/Retrying.antt =====
-- What the retry policy of a step does where its handler never raises.
use flow_speckit.Prelude.{ℕ, zero, suc, ◌≡◌, refl, inl, inr, none, List, Bool-cases, Text}
use flow_speckit.Json.{Json}
use flow_speckit.Base.{StepKind}
use flow_speckit.Errors.{Called, gave, refused, killed, ok}
use flow_speckit.Workflow.{RetryPolicy}
use flow_speckit.Action.{Action, ◌>>=◌}
use flow_speckit.Context.{HandlerReply, returned, threw, died, Env, Pass}
use flow_speckit.Context.Steps.{
  append_event, raise_if_cancelled, has_cancelled, run_effect, begin_attempt, attempt_loop,
  after_reply,
}
use flow_speckit.Skills.{SkillDefinition, SkillContext, SkillOutput}
use flow_speckit.Skills.Registry.{SkillRegistry, get}

abbrev pub IsNotRaised : HandlerReply → Type 0
IsNotRaised (returned r) = Unit {0}
IsNotRaised (threw e) = ⊥
IsNotRaised died = Unit {0}

abbrev pub IsNotRefused : {A : Type 0} → Called A → Type 0
IsNotRefused (gave a) = Unit {0}
IsNotRefused (refused e) = ⊥
IsNotRefused killed = Unit {0}

-- Whatever the skill of this name gives back, `to_jsonable_python` does not raise on it.
abbrev pub Renders : Text → SkillRegistry → Type 0
Renders name skills =
    (d : SkillDefinition) (n : ℕ) (args : List Json) (context : SkillContext) (out : SkillOutput)
    → get name none skills ≡ ok d
    → d.fn n args context ≡ gave out
    → IsNotRefused out.jsonable

module _ (env : Env) where
  -- A round of the loop depends on what follows it at the replies of its side effect only.
  begin_attempt-same :
      (key : Text) (kind : StepKind) (effect : ℕ → HandlerReply)
      (f g : HandlerReply → Action Pass Json) (s : Pass)
      → ((t : Pass) → f (effect s.effects) t ≡ g (effect s.effects) t)
      → (begin_attempt env key kind effect >>= f) s ≡ (begin_attempt env key kind effect >>= g) s
  unfolding begin_attempt raise_if_cancelled append_event run_effect ◌>>=◌
  begin_attempt-same key kind effect f g s same =
      elim (Bool-cases (has_cancelled s.ctx.run_id s.db)) [
        | inl cancelled ↦ rw cancelled refl
        | inr live ↦ rw live (same _)
      ]

  after_reply-same :
      (key : Text) (p q : RetryPolicy) (attempt : ℕ) (reply : HandlerReply)
      (again again' : Action Pass Json) (s : Pass)
      → IsNotRaised reply
      → after_reply env key p attempt reply again s ≡ after_reply env key q attempt reply again' s
  unfolding after_reply
  after_reply-same key p q attempt (returned r) again again' s h = refl
  after_reply-same key p q attempt (threw e) again again' s h = absurd h
  after_reply-same key p q attempt died again again' s h = refl

  pub attempt_loop-same :
      (rounds rounds' : ℕ) (key : Text) (kind : StepKind) (effect : ℕ → ℕ → HandlerReply)
      (p q : RetryPolicy) (attempt : ℕ) (s : Pass)
      → IsNotRaised (effect s.effects attempt)
      → attempt_loop env rounds key kind effect p attempt s
        ≡ attempt_loop env rounds' key kind effect q attempt s
  unfolding attempt_loop
  attempt_loop-same zero zero key kind effect p q attempt s h =
      begin_attempt-same key kind _ _ _ s (λ t. after_reply-same key p q attempt _ _ _ t h)
  attempt_loop-same zero (suc r) key kind effect p q attempt s h =
      begin_attempt-same key kind _ _ _ s (λ t. after_reply-same key p q attempt _ _ _ t h)
  attempt_loop-same (suc r) zero key kind effect p q attempt s h =
      begin_attempt-same key kind _ _ _ s (λ t. after_reply-same key p q attempt _ _ _ t h)
  attempt_loop-same (suc r) (suc r') key kind effect p q attempt s h =
      begin_attempt-same key kind _ _ _ s (λ t. after_reply-same key p q attempt _ _ _ t h)
