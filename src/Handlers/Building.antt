-- ===== src/Handlers/Building.antt =====
-- `build_handler_map` of workflows/handlers.py.
use flow_speckit.Prelude.{ℕ, Option, none, some}
use flow_speckit.Json.{Json}
use flow_speckit.Base.{HandlerKind}
use flow_speckit.Context.{StepInvocation, HandlerReply}
use flow_speckit.Skills.Registry.{SkillRegistry}
use flow_speckit.Handlers.{Library}
use flow_speckit.Handlers.SkillStep.{skill_handler}
use flow_speckit.Handlers.ExecuteStep.{ExecuteSetup, execute_handler}
use flow_speckit.Handlers.OpenPrStep.{GitProvider, open_pr_handler}

abbrev pub Handler : Type 0
Handler = ℕ → StepInvocation → HandlerReply

abbrev skill_entry : Library → Option SkillRegistry → Json → Option Handler
skill_entry lib none config = none
skill_entry lib (some skills) config = some (skill_handler lib skills config)

abbrev execute_entry : Library → Option ExecuteSetup → Option Handler
execute_entry lib none = none
execute_entry lib (some setup) = some (execute_handler lib setup)

-- The two registries may be absent; without a provider the step answers that there is none.
unfoldable pub build_handler_map :
    Library
    → Option SkillRegistry
    → Json
    → Option ExecuteSetup
    → Option GitProvider
    → HandlerKind
    → Option Handler
unfolding skill_handler execute_handler open_pr_handler
build_handler_map lib skills config setup provider HandlerKind.skill = skill_entry lib skills config
build_handler_map lib skills config setup provider HandlerKind.execute = execute_entry lib setup
build_handler_map lib skills config setup provider HandlerKind.open_pr =
    some (open_pr_handler lib provider)
