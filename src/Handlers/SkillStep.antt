-- ===== src/Handlers/SkillStep.antt =====
-- `SkillStepHandler` of workflows/handlers.py. The store that it is given has neither the `save`
-- nor, on refs, the `from_address` that it calls: both attribute errors are swallowed, so that an
-- output gets no ref, and an input is handed on as it is.
use flow_speckit.Prelude.{ℕ, Option, none, some, List, [], ◌∷◌, ◌++◌, Text, codes}
use flow_speckit.Json.{Json, null, object, text}
use flow_speckit.Errors.{Exception, ok, raised, Outcome}
use flow_speckit.Context.{StepInvocation, StepResult, HandlerReply}
use flow_speckit.Skills.{SkillDefinition, SkillContext, SkillOutput}
use flow_speckit.Skills.Registry.{SkillRegistry, get}
use flow_speckit.Handlers.{
  Library, fields_of, result_of, status_entry, payload_get, or_default, after_call, try_call,
}

-- `_resolve_input_refs`.
abbrev resolve_input_refs : Json → Json
resolve_input_refs value = value

-- `fn_args`.
abbrev pub skill_args : List Text → Json → List Json
skill_args [] input = []
skill_args (t ∷ types) input = resolve_input_refs input ∷ []

abbrev pub skill_context : Json → Text → StepInvocation → SkillContext
skill_context config name step = record {
  skill_name = name;
  run_id = step.run_id;
  step_key = step.step_key;
  config = config;
}

-- `output_ref` after the attempt to save the output.
abbrev saved_ref : SkillOutput → Option Text
saved_ref out = none

abbrev ref_json : Option Text → Json
ref_json none = null
ref_json (some ref) = text ref

abbrev skill_data : Option Text → Json → Json
skill_data none value = value
skill_data (some ref) value =
    object (fields_of ((codes "artifact_ref", text ref) ∷ (codes "data", value) ∷ []))

abbrev pub skill_result : Text → SkillOutput → Json → HandlerReply
skill_result name out value = result_of (
    status_entry "completed"
    ∷ (codes "skill_name", text name)
    ∷ (codes "output", skill_data (saved_ref out) value)
    ∷ (codes "artifact_ref", ref_json (saved_ref out))
    ∷ [])

abbrev pub failed_result : Library → Text → Exception → StepResult
failed_result lib name e = record {
  result = object (
      fields_of (
        (codes "error", text (lib.message e))
        ∷ status_entry "failed"
        ∷ (codes "skill_name", text name)
        ∷ []));
  cost = none;
}

abbrev pub skill_failure : Library → Text → Exception → HandlerReply
skill_failure lib name e = HandlerReply.returned (failed_result lib name e)

abbrev pub unknown_failure : Library → Text → Exception → HandlerReply
unknown_failure lib name e = result_of (
    (
      codes "error",
      text (codes "Unknown skill " ++ lib.repr (text name) ++ codes ": " ++ lib.message e),
    )
    ∷ status_entry "failed"
    ∷ [])

-- The call of the skill's function and what follows it.
unfoldable pub invoke_skill : Library → Json → ℕ → StepInvocation → SkillDefinition → HandlerReply
invoke_skill lib config n step d =
    try_call
      (d.fn n
        (skill_args d.input_types (or_default null (payload_get (codes "input") step.payload)))
        (skill_context config step.label step))
      (skill_failure lib step.label) (λ out. after_call out.jsonable (skill_result step.label out))

-- What the lookup of the definition gives, and the call.
abbrev pub skill_reply :
    Library → Json → ℕ → StepInvocation → Outcome SkillDefinition → HandlerReply
skill_reply lib config n step (ok d) = invoke_skill lib config n step d
skill_reply lib config n step (raised e) = unknown_failure lib step.label e
skill_reply lib config n step _ = HandlerReply.died

-- `SkillStepHandler.__call__`.
unfoldable pub skill_handler : Library → SkillRegistry → Json → ℕ → StepInvocation → HandlerReply
unfolding invoke_skill
skill_handler lib skills config n step = skill_reply lib config n step (get step.label none skills)
