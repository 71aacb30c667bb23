-- ===== src/Llm/Client.antt =====
-- `LLMClient` of llm/client.py: the calls of one completion, their costs and the budgets. Amounts
-- are millionths of a dollar. LiteLLM is a parameter that may answer differently at each call.
pub mod Budget
pub mod Spending
use flow_speckit.Prelude.{
  ℕ, ◌+◌, ◌⊎◌, inl, inr, not, Option, none, some, List, [], ◌∷◌, ◌++◌, leb, ◌==◌, if◌then◌else◌,
  Text, codes, Dict, dict_get, dict_put,
}
use flow_speckit.Llm.Tiers.{Tier, resolve_tier}
use flow_speckit.Action.{Action, raise, ◌>>◌, ◌>>=◌}
use flow_speckit.Errors.{
  Exception, Outcome, ok, raised, lite_llm_missing, budget_exceeded, suspended, llm_call_failed,
  cancelled_run, output_invalid, crashed,
}
use flow_speckit.Json.{Json, text}

pub data Role : Type 0 where
  system user assistant : Role

pub record Message : Type 0 where
  pub role : Role
  pub content : Text

-- What `acompletion` returns: the cost in its hidden parameters, what `completion_cost` says of it,
-- the message's content and what the provider parsed of it, where that is not empty.
pub record Completion : Type 0 where
  pub response_cost : Option ℕ
  pub completion_cost : Option ℕ
  pub content : Option Text
  pub parsed : Option Json

-- `none` is the exception that the call raises.
pub record LiteLlm : Type 0 where
  pub acompletion : ℕ → Text → List Message → Exception ⊎ Completion

-- The client's state; `calls` counts the calls that were made.
pub record LlmClient : Type 0 where
  pub tier_map : Dict Text
  pub overrides : Dict Text
  pub max_usd_per_run : ℕ
  pub total_cost : ℕ
  pub cost_by_skill : Dict ℕ
  pub calls : ℕ

-- `cost_for_skill`.
abbrev pub cost_for_skill : Text → LlmClient → ℕ
cost_for_skill skill_name c = elim (dict_get skill_name c.cost_by_skill) [ none ↦ 0 | some n ↦ n ]

-- The response model, as pydantic's two validations against it.
pub record ResponseModel : Type 0 where
  pub model_validate : Json → Exception ⊎ Json
  pub model_validate_json : Text → Exception ⊎ Json

-- The arguments of `complete`; the context is already rendered.
pub record CompleteOptions : Type 0 where
  pub prompt : Text
  pub context : Option Text
  pub response_model : Option ResponseModel
  pub tier : Tier
  pub skill_name : Option Text
  pub max_cost_usd : ℕ

-- `_build_messages`.
abbrev pub build_messages : Text → Option Text → List Message
build_messages prompt none = record { role = user; content = prompt } ∷ []
build_messages prompt (some context) =
    record { role = system; content = context } ∷ record { role = user; content = prompt } ∷ []

-- The skill's part of `_check_budget`; `none` is an infinite allowance.
unfoldable pub check_skill : Option Text → Option ℕ → Action LlmClient (Unit {0})
check_skill (some skill_name) (some max_cost_usd) c =
    if leb max_cost_usd (cost_for_skill skill_name c)
    then (raised (budget_exceeded (some skill_name) (cost_for_skill skill_name c) max_cost_usd), c)
    else (ok tt, c)
check_skill _ _ c = (ok tt, c)

-- `_check_budget`.
unfoldable pub check_budget : Option Text → Option ℕ → Action LlmClient (Unit {0})
unfolding check_skill
check_budget skill_name max_cost_usd c =
    if leb c.max_usd_per_run c.total_cost
    then (raised (budget_exceeded none c.total_cost c.max_usd_per_run), c)
    else check_skill skill_name max_cost_usd c

abbrev or_zero : Option ℕ → ℕ
or_zero none = 0
or_zero (some n) = n

-- The cost of the response: the hidden parameter, or else what LiteLLM computes, or else nothing.
abbrev pub cost_of : Completion → ℕ
cost_of raw =
    if or_zero raw.response_cost == 0
    then or_zero raw.completion_cost
    else or_zero raw.response_cost

abbrev charge_skill : Option Text → ℕ → LlmClient → Dict ℕ
charge_skill none cost c = c.cost_by_skill
charge_skill (some skill_name) cost c =
    dict_put skill_name (cost_for_skill skill_name c + cost) c.cost_by_skill

-- `_record_cost`.
unfoldable pub record_cost : Completion → Option Text → Action LlmClient (Unit {0})
record_cost raw skill_name c = (
  ok tt,
  record c {
    total_cost = c.total_cost + cost_of raw;
    cost_by_skill = charge_skill skill_name (cost_of raw) c;
  },
)

-- `try: raw = await litellm.acompletion(**kwargs)`.
unfoldable pub call_model : LiteLlm → Text → List Message → Action LlmClient Completion
call_model llm model messages c = elim (llm.acompletion c.calls model messages) [
  | inl e ↦ (raised (llm_call_failed e), record c { calls = c.calls + 1 })
  | inr raw ↦ (ok raw, record c { calls = c.calls + 1 })
]

abbrev or_empty : Option Text → Text
or_empty none = []
or_empty (some t) = t

-- `str(content)` of an absent content.
abbrev content_text : Option Text → Text
content_text none = codes "None"
content_text (some t) = t

-- The messages of the repair round; `str_of` is how an exception is printed.
abbrev repair : (Exception → Text) → Option Text → Exception → List Message → List Message
repair str_of content e messages =
    messages
    ++ (record { role = assistant; content = or_empty content }
        ∷ record {
          role = user;
          content =
              codes "Previous output did not match the expected schema. Error: "
              ++ (str_of e ++ codes ". Please retry with valid JSON.");
        }
        ∷ [])

abbrev pub validate : ResponseModel → Completion → Exception ⊎ Json
validate m raw = elim raw.parsed [
  | some parsed ↦ m.model_validate parsed
  | none ↦ m.model_validate_json (or_empty raw.content)
]

-- The end of a round, where `again` is the repair round or, in the second one, the error.
unfoldable pub after_call :
    Option ResponseModel → Completion → (Exception → Action LlmClient Json) → Action LlmClient Json
after_call none raw again c = (ok (text (content_text raw.content)), c)
after_call (some m) raw again c = elim (validate m raw) [
  | inr value ↦ (ok value, c)
  | inl e ↦ again e c
]

-- One round: the budgets, the call, its cost and the validation.
unfoldable pub round :
    LiteLlm
    → Text
    → CompleteOptions
    → List Message
    → (Completion → Exception → Action LlmClient Json)
    → Action LlmClient Json
unfolding check_budget call_model record_cost after_call
round llm model o messages again = do
  check_budget o.skill_name (some o.max_cost_usd)
  raw ← call_model llm model messages
  record_cost raw o.skill_name
  after_call o.response_model raw (again raw)

abbrev with_model : {A : Type 0} → Outcome Text → (Text → Action LlmClient A) → Action LlmClient A
with_model (ok model) f c = f model c
with_model (raised e) f c = (raised e, c)
with_model (suspended r) f c = (suspended r, c)
with_model (cancelled_run k) f c = (cancelled_run k, c)
with_model crashed f c = (crashed, c)

-- `complete`: at most two rounds. `none` in place of LiteLLM is the null client.
unfoldable pub complete :
    Option LiteLlm → (Exception → Text) → CompleteOptions → Action LlmClient Json
unfolding resolve_tier round
complete none str_of o c = (raised lite_llm_missing, c)
complete (some llm) str_of o c =
    let messages = build_messages o.prompt o.context in
    with_model (resolve_tier o.tier c.tier_map o.skill_name c.overrides)
      (λ model. round llm model o messages (λ raw e.
        round llm model o (repair str_of raw.content e messages)
          (λ _ e2. raise (output_invalid e2))))
      c

-- `complete_streaming`: the run's budget is checked, and what the stream costs is not metered.
unfoldable pub complete_streaming :
    Option LiteLlm → Text → Option Text → Tier → Option Text → Action LlmClient Completion
unfolding resolve_tier check_budget
complete_streaming none prompt context tier skill_name c = (raised lite_llm_missing, c)
complete_streaming (some llm) prompt context tier skill_name c =
    (do
      check_budget skill_name none
      λ c1.
          with_model (resolve_tier tier c1.tier_map skill_name c1.overrides)
            (λ model c2. elim (llm.acompletion c2.calls model (build_messages prompt context)) [
              | inl e ↦ (raised e, record c2 { calls = c2.calls + 1 })
              | inr raw ↦ (ok raw, record c2 { calls = c2.calls + 1 })
            ])
            c1)
      c
