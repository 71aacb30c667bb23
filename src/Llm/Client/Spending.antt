-- ===== src/Llm/Client/Spending.antt =====
-- A completion overshoots its budgets by at most the cost of one call.
use flow_speckit.Prelude.{
  ℕ, ◌+◌, ◌≤◌, max, ◌≡◌, refl, ap, ◌∙◌, inr, Option, none, some, List, arith, Text, text_eq_refl,
  dict_get, get-put,
}
use flow_speckit.Llm.Client.{
  CompleteOptions, complete, record_cost, LlmClient, LiteLlm, cost_for_skill, Completion, Message,
  cost_of, round, with_model,
}
use flow_speckit.Errors.{
  Outcome, Exception, ok, raised, suspended, cancelled_run, crashed, output_invalid,
}
use flow_speckit.Llm.Client.Budget.{charged, round-keeps, HasBudget, called, HasAllowance}
use flow_speckit.Action.{Action, raise}
use flow_speckit.Llm.Tiers.{resolve_tier}
use flow_speckit.Json.{Json}

with_model-keeps :
    (Q : LlmClient → Type 0) (model : Outcome Text) (f : Text → Action LlmClient Json)
    (c : LlmClient)
    → Q c
    → ((m : Text) → Q (f m c).1)
    → Q (with_model model f c).1
with_model-keeps Q (ok m) f c q h = h m
with_model-keeps Q (raised e) f c q h = q
with_model-keeps Q (suspended r) f c q h = q
with_model-keeps Q (cancelled_run k) f c q h = q
with_model-keeps Q crashed f c q h = q

-- The calls of one round, where the next makes at most `k`.
round-calls :
    (llm : LiteLlm) (model : Text) (o : CompleteOptions) (messages : List Message)
    (again : Completion → Exception → Action LlmClient Json) (k : ℕ) (c : LlmClient)
    → ((raw : Completion) (e : Exception) (s : LlmClient) → (again raw e s).1.calls ≤ s.calls + k)
    → (round llm model o messages again c).1.calls ≤ c.calls + (1 + k)
unfolding record_cost
round-calls llm model o messages again k c h =
    round-keeps (λ s. s.calls ≤ c.calls + (1 + k)) llm model o messages again c (omega arith)
      (λ _ _. omega arith) (λ _ _ _ _. omega arith)
      (λ raw e _ _ _. omega (arith, h raw e (charged raw o.skill_name c)))

last-calls :
    (llm : LiteLlm) (model : Text) (o : CompleteOptions) (messages : List Message) (c : LlmClient)
    → (round llm model o messages (λ _ e. raise (output_invalid e)) c).1.calls ≤ c.calls + 1
last-calls llm model o messages c = omega (
  arith,
  round-calls llm model o messages (λ _ e. raise (output_invalid e)) 0 c (λ _ _ s. omega arith),
)

complete-calls :
    (llm : LiteLlm) (str_of : Exception → Text) (o : CompleteOptions) (c : LlmClient)
    → (complete (some llm) str_of o c).1.calls ≤ c.calls + 2
unfolding complete
complete-calls llm str_of o c =
    with_model-keeps (λ s. s.calls ≤ c.calls + 2)
      (resolve_tier o.tier c.tier_map o.skill_name c.overrides) _ c (omega arith)
      (λ model. round-calls llm model o _ _ 1 c (λ raw e s. last-calls llm model o _ s))

abbrev pub spent_by : Option Text → LlmClient → ℕ
spent_by none c = 0
spent_by (some skill_name) c = cost_for_skill skill_name c

-- The budgets that a completion began with, and what it may have spent since.
record IsWithin (o : CompleteOptions) (cap : ℕ) (c0 c : LlmClient) : Type 0 where
  pub budget : c.max_usd_per_run ≡ c0.max_usd_per_run
  pub total : c.total_cost ≤ max c0.total_cost (c0.max_usd_per_run + cap)
  pub skill : spent_by o.skill_name c ≤ max (spent_by o.skill_name c0) (o.max_cost_usd + cap)

cost_for_skill-found :
    (skill_name : Text) (c : LlmClient) {n : ℕ}
    → dict_get skill_name c.cost_by_skill ≡ some n
    → cost_for_skill skill_name c ≡ n
cost_for_skill-found skill_name c h =
    ap (λ (x : Option ℕ). elim x as (λ _. ℕ) [ none ↦ 0 | some n ↦ n ]) h

spent_by-charged :
    (raw : Completion) (skill_name : Option Text) (c : LlmClient)
    → spent_by skill_name (charged raw skill_name c) ≤ spent_by skill_name c + cost_of raw
unfolding record_cost
spent_by-charged raw none c = omega arith
spent_by-charged raw (some skill_name) c =
    let new = cost_for_skill skill_name c + cost_of raw in
    omega (
      arith,
      cost_for_skill-found skill_name (charged raw (some skill_name) c) {n = new}
          (get-put skill_name skill_name new c.cost_by_skill ∙ rw (text_eq_refl skill_name) refl),
    )

spent_by-called :
    (skill_name : Option Text) (c : LlmClient)
    → spent_by skill_name (called c) ≡ spent_by skill_name c
spent_by-called none c = refl
spent_by-called (some skill_name) c = refl

HasAllowance-spent_by :
    (skill_name : Option Text) (max_cost : ℕ) (c : LlmClient)
    → HasAllowance skill_name max_cost c
    → spent_by skill_name c ≤ max_cost
HasAllowance-spent_by none max_cost c h = omega arith
HasAllowance-spent_by (some skill_name) max_cost c h = omega (arith, h)

module _ (llm : LiteLlm) (o : CompleteOptions) (cap : ℕ)
    (capped : (n : ℕ) (model : Text) (messages : List Message) (raw : Completion)
      → llm.acompletion n model messages ≡ inr raw
      → cost_of raw ≤ cap) where
  charged-IsWithin :
      (c0 c : LlmClient) (raw : Completion)
      → HasBudget c
      → HasAllowance o.skill_name o.max_cost_usd c
      → cost_of raw ≤ cap
      → IsWithin o cap c0 c
      → IsWithin o cap c0 (charged raw o.skill_name c)
  unfolding record_cost
  charged-IsWithin c0 c raw budget allowance small w = record {
    budget = w.budget;
    total = omega (arith, w.budget, budget, small);
    skill = omega (
      arith,
      spent_by-charged raw o.skill_name c,
      HasAllowance-spent_by o.skill_name o.max_cost_usd c allowance,
      small,
    );
  }

  called-IsWithin : (c0 c : LlmClient) → IsWithin o cap c0 c → IsWithin o cap c0 (called c)
  called-IsWithin c0 c w = record {
    budget = w.budget;
    total = w.total;
    skill = omega (arith, w.skill, spent_by-called o.skill_name c);
  }

  round-IsWithin :
      (model : Text) (messages : List Message)
      (again : Completion → Exception → Action LlmClient Json) (c0 c : LlmClient)
      → IsWithin o cap c0 c
      → ((raw : Completion) (e : Exception) (s : LlmClient)
          → IsWithin o cap c0 s
          → IsWithin o cap c0 (again raw e s).1)
      → IsWithin o cap c0 (round llm model o messages again c).1
  round-IsWithin model messages again c0 c w h =
      round-keeps (IsWithin o cap c0) llm model o messages again c w (λ _ _. called-IsWithin c0 c w)
        (λ raw budget allowance answered.
          charged-IsWithin c0 c raw budget allowance (capped _ model messages raw answered) w)
        (λ raw e budget allowance answered.
          h raw e (charged raw o.skill_name c)
            (charged-IsWithin c0 c raw budget allowance (capped _ model messages raw answered) w))

-- One completion makes at most two calls of the model, and where no call costs more than a cap,
-- it leaves the total spent at no more than the larger of what was spent before and the budget
-- of the run plus the cap, and likewise what the skill spent against its allowance.
pub complete_bounds :
    (llm : LiteLlm) (str_of : Exception → Text) (o : CompleteOptions) (cap : ℕ) (c c' : LlmClient)
    → ((n : ℕ) (model : Text) (messages : List Message) (raw : Completion)
        → llm.acompletion n model messages ≡ inr raw
        → cost_of raw ≤ cap)
    → c' ≡ (complete (some llm) str_of o c).1
    → (c'.calls ≤ c.calls + 2)
      × (c'.total_cost ≤ max c.total_cost (c.max_usd_per_run + cap))
      × (spent_by o.skill_name c' ≤ max (spent_by o.skill_name c) (o.max_cost_usd + cap))
unfolding complete
complete_bounds llm str_of o cap c c' capped e =
    let start : IsWithin o cap c c = record {
      budget = refl;
      total = omega arith;
      skill = omega arith;
    } in
    let w : IsWithin o cap c (complete (some llm) str_of o c).1 =
      with_model-keeps (IsWithin o cap c) (resolve_tier o.tier c.tier_map o.skill_name c.overrides)
        _ c start
        (λ model.
          round-IsWithin llm o cap capped model _ _ c c start
            (λ raw e s v. round-IsWithin llm o cap capped model _ _ c s v (λ _ _ _ u. u))) in
    rw e (complete-calls llm str_of o c, w.total, w.skill)
