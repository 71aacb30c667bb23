-- ===== src/Scenarios/Handling.antt =====
-- Steps of an engine with the handlers of the program: a skill that raises.
use flow_speckit.Prelude.{
  ◌≡◌, refl, false, none, some, [], ◌∷◌, arith, first_where, codes, text_eq, dict_get,
}
use flow_speckit.Json.{null}
use flow_speckit.Base.{HandlerKind, StepKind}
use flow_speckit.Errors.{other, refused, ok}
use flow_speckit.Workflow.{RetryPolicy}
use flow_speckit.Context.{Env, Pass, new_context}
use flow_speckit.Context.Steps.{run_handler_step}
use flow_speckit.Skills.{SkillDefinition, SkillOutput}
use flow_speckit.Skills.Registry.{
  SkillRegistry, get, register, greatest_version, find_version, entries_of, remove_version,
}
use flow_speckit.Skills.Registry.Versions.{get-register, Registers, IsUnique}
use flow_speckit.Handlers.{Library}
use flow_speckit.Handlers.SkillStep.{failed_result}
use flow_speckit.Handlers.Building.{build_handler_map}
use flow_speckit.Handlers.Failing.{run_handler_step-failed_skill, completed_pass}
use flow_speckit.Scenarios.{working_engine, started}

abbrev python : Library
python = record {
  show = λ value. codes "?";
  repr = λ value. codes "?";
  message = λ e. codes "no draft";
  strip = λ t. t;
}

abbrev packaged_draft : SkillDefinition
packaged_draft = record {
  name = codes "draft";
  version = codes "1";
  fn = λ n args context. refused (other (codes "ValueError") (codes "no draft"));
  input_types = codes "spec" ∷ [];
  output_type = none;
  provenance = codes "package:drafts";
}

abbrev project_draft : SkillDefinition
project_draft = record packaged_draft { provenance = codes "local:skills" }

abbrev installed : SkillRegistry
installed = (codes "draft", packaged_draft ∷ []) ∷ []

installed-IsUnique : IsUnique installed
unfolding find_version remove_version entries_of dict_get first_where
installed-IsUnique name version = ground arith

get-register_example :
    Registers project_draft project_draft installed ((codes "draft", project_draft ∷ []) ∷ [])
unfolding register flow_speckit.Skills.Registry.find_version flow_speckit.Prelude.first_where
    flow_speckit.Skills.Registry.entries_of flow_speckit.Prelude.dict_get
    flow_speckit.Prelude.text_eq flow_speckit.Shared.resolve_collision flow_speckit.Shared.is_local
    flow_speckit.Prelude.starts_with flow_speckit.Skills.Registry.add_entry
    flow_speckit.Prelude.dict_put flow_speckit.Skills.Registry.remove_version
get-register_example =
    get-register packaged_draft project_draft (codes "local:skills") installed
      ((codes "draft", project_draft ∷ []) ∷ []) installed-IsUnique refl

abbrev skilled_engine : Env
skilled_engine = record working_engine {
  handlers = build_handler_map python (some installed) null none none;
}

abbrev first_round : Pass
first_round = record { db = started.db; ctx = new_context 0 false []; effects = 7 }

run_handler_step-failed_skill_example :
    run_handler_step skilled_engine
      (codes "draft")
      (codes "draft")
      HandlerKind.skill
      StepKind.skill
      null
      none
      first_round
    ≡ (
      ok
          (failed_result python
            (codes "draft")
            (other (codes "ValueError") (codes "no draft"))).result,
      completed_pass skilled_engine
          (codes "draft")
          StepKind.skill
          (failed_result python (codes "draft") (other (codes "ValueError") (codes "no draft")))
          first_round,
    )
unfolding flow_speckit.Prelude.dict_get new_context flow_speckit.Context.Steps.has_cancelled
    flow_speckit.Prelude.exists_where flow_speckit.Engine.Start.start_run flow_speckit.Action.◌>>=◌
    flow_speckit.Workflow.Registry.get flow_speckit.Workflow.Registry.find
    flow_speckit.Prelude.first_where flow_speckit.Prelude.text_eq flow_speckit.Storage.Log.append
    flow_speckit.Storage.notify_run get flow_speckit.Skills.Registry.greatest_version
run_handler_step-failed_skill_example =
    run_handler_step-failed_skill skilled_engine python installed null none none (codes "draft")
      (codes "draft") null none first_round packaged_draft
      (other (codes "ValueError") (codes "no draft")) (λ kind. refl)
      (refl, refl, refl, λ n point. refl) refl (λ args context. refl)
