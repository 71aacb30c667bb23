-- ===== src/Llm/Client/Budget.antt =====
-- What a completion may spend.
use flow_speckit.Prelude.{
  ℕ, ◌+◌, ◌<◌, ◌≡◌, refl, ◌⊎◌, inl, inr, Option, none, some, List, arith, leb, Bool-cases,
  Sum-cases, Text,
}
use flow_speckit.Llm.Client.{
  Completion, LlmClient, record_cost, LiteLlm, CompleteOptions, Message, after_call, ResponseModel,
  validate, call_model, round, cost_for_skill, check_budget, check_skill,
}
use flow_speckit.Errors.{Exception, raised, ok, budget_exceeded, llm_call_failed}
use flow_speckit.Action.{Action, ◌>>=◌, ◌>>◌}
use flow_speckit.Json.{Json}
use flow_speckit.Action.Post.{>>=_raised, >>=_ok}

-- A client whose budget for the run is not exhausted.
abbrev pub HasBudget : LlmClient → Type 0
HasBudget c = c.total_cost < c.max_usd_per_run

abbrev pub called : LlmClient → LlmClient
called c = record c { calls = c.calls + 1 }

abbrev pub charged : Completion → Option Text → LlmClient → LlmClient
charged raw skill_name c = (record_cost raw skill_name (called c)).1

-- The skill has spent less than its allowance.
abbrev pub HasAllowance : Option Text → ℕ → LlmClient → Type 0
HasAllowance none max_cost c = Unit {0}
HasAllowance (some skill_name) max_cost c = cost_for_skill skill_name c < max_cost

check_skill-cases :
    (skill_name : Option Text) (max_cost : ℕ) (c : LlmClient)
    → ((e : Exception) × (check_skill skill_name (some max_cost) c ≡ (raised e, c)))
      ⊎ ((check_skill skill_name (some max_cost) c ≡ (ok tt, c))
          × HasAllowance skill_name max_cost c)
unfolding check_skill
check_skill-cases none max_cost c = inr (refl, tt)
check_skill-cases (some skill_name) max_cost c =
    elim (Bool-cases (leb max_cost (cost_for_skill skill_name c))) [
      | inl spent ↦
          inl (
            budget_exceeded (some skill_name) (cost_for_skill skill_name c) max_cost,
            rw spent refl,
          )
      | inr left ↦ inr (rw left refl, ground (arith, left))
    ]

-- A budget check changes nothing; it refuses, or there is something left of both budgets.
check_budget-cases :
    (skill_name : Option Text) (max_cost : ℕ) (c : LlmClient)
    → ((e : Exception) × (check_budget skill_name (some max_cost) c ≡ (raised e, c)))
      ⊎ ((check_budget skill_name (some max_cost) c ≡ (ok tt, c))
          × HasBudget c
          × HasAllowance skill_name max_cost c)
unfolding check_budget
check_budget-cases skill_name max_cost c = elim (Bool-cases (leb c.max_usd_per_run c.total_cost)) [
  | inl spent ↦ inl (budget_exceeded none c.total_cost c.max_usd_per_run, rw spent refl)
  | inr left ↦ rw left (elim (check_skill-cases skill_name max_cost c) [
    | inl refused ↦ inl refused
    | inr (passed, allowance) ↦ inr (passed, ground (arith, left), allowance)
  ])
]

module _ (llm : LiteLlm) (model : Text) (messages : List Message) (c : LlmClient) where
  call_model-failed :
      (e : Exception)
      → llm.acompletion c.calls model messages ≡ inl e
      → call_model llm model messages c ≡ (raised (llm_call_failed e), called c)
  unfolding call_model
  call_model-failed e failed = rw (failed, call_model) refl

  call_model-answered :
      (raw : Completion)
      → llm.acompletion c.calls model messages ≡ inr raw
      → call_model llm model messages c ≡ (ok raw, called c)
  unfolding call_model
  call_model-answered raw answered = rw (answered, call_model) refl

record_cost-charged :
    (raw : Completion) (skill_name : Option Text) (c : LlmClient)
    → record_cost raw skill_name (called c) ≡ (ok tt, charged raw skill_name c)
unfolding record_cost
record_cost-charged raw skill_name c = refl

-- Whatever holds before a round, after a call that failed and after a call that was charged, holds
-- at the end of the round.
module _ (Q : LlmClient → Type 0) (llm : LiteLlm) (model : Text) (o : CompleteOptions)
    (messages : List Message) (again : Completion → Exception → Action LlmClient Json) where
  after_call-keeps :
      (m : Option ResponseModel) (raw : Completion) (c : LlmClient)
      → Q c
      → ((e : Exception) → Q (again raw e c).1)
      → Q (after_call m raw (again raw) c).1
  unfolding after_call
  after_call-keeps none raw c q h = q
  after_call-keeps (some m) raw c q h = elim (Sum-cases (validate m raw)) [
    | inl (e, wrong) ↦ rw (wrong, after_call) (h e)
    | inr (value, right) ↦ rw (right, after_call) q
  ]

  call_model-keeps :
      (c : LlmClient)
      → Q (called c)
      → ((raw : Completion)
          → llm.acompletion c.calls model messages ≡ inr raw
          → Q (charged raw o.skill_name c))
      → ((raw : Completion) (e : Exception)
          → llm.acompletion c.calls model messages ≡ inr raw
          → Q (again raw e (charged raw o.skill_name c)).1)
      → Q
          ((do
            raw ← call_model llm model messages
            record_cost raw o.skill_name
            after_call o.response_model raw (again raw))
            c).1
  call_model-keeps c failing charging h =
      elim (Sum-cases (llm.acompletion c.calls model messages)) [
        | inl (e, failed) ↦
            rw
              (>>=_raised (call_model llm model messages) _ c
                (call_model-failed llm model messages c e failed))
              failing
        | inr (raw, answered) ↦
            rw
              (>>=_ok (call_model llm model messages) _ c
                (call_model-answered llm model messages c raw answered))
              (rw
                (>>=_ok (record_cost raw o.skill_name)
                  (λ _. after_call o.response_model raw (again raw)) (called c)
                  (record_cost-charged raw o.skill_name c))
                (after_call-keeps o.response_model raw _ (charging raw answered)
                  (λ e. h raw e answered)))
      ]

  pub round-keeps :
      (c : LlmClient)
      → Q c
      → (HasBudget c → HasAllowance o.skill_name o.max_cost_usd c → Q (called c))
      → ((raw : Completion)
          → HasBudget c
          → HasAllowance o.skill_name o.max_cost_usd c
          → llm.acompletion c.calls model messages ≡ inr raw
          → Q (charged raw o.skill_name c))
      → ((raw : Completion) (e : Exception)
          → HasBudget c
          → HasAllowance o.skill_name o.max_cost_usd c
          → llm.acompletion c.calls model messages ≡ inr raw
          → Q (again raw e (charged raw o.skill_name c)).1)
      → Q (round llm model o messages again c).1
  unfolding round
  round-keeps c q failing charging h = elim (check_budget-cases o.skill_name o.max_cost_usd c) [
    | inl (e, refused) ↦
        rw (>>=_raised (check_budget o.skill_name (some o.max_cost_usd)) _ c refused) q
    | inr (passed, budget, allowance) ↦
        rw (>>=_ok (check_budget o.skill_name (some o.max_cost_usd)) _ c passed) (
          call_model-keeps c (failing budget allowance) (λ raw. charging raw budget allowance)
            (λ raw e. h raw e budget allowance))
  ]
