-- ===== src/Skills.antt =====
-- skills/base.py: what the `@skill` decorator records of a skill.
pub mod Registry
use flow_speckit.Prelude.{ℕ, Bool, Option, List, Text}
use flow_speckit.Json.{Json}
use flow_speckit.Base.{Uuid}
use flow_speckit.Errors.{Called}

-- What a skill sees of its `SkillContext` besides the client and the store, whose answers are part
-- of the number that the side effect has.
pub record SkillContext : Type 0 where
  pub skill_name : Text
  pub run_id : Uuid
  pub step_key : Text
  pub config : Json

-- What a skill gives back: its rendering by `to_jsonable_python`, which may fail, and whether it
-- has an `artifact_type`.
pub record SkillOutput : Type 0 where
  pub jsonable : Called Json
  pub is_artifact : Bool

-- `fn` may answer differently at each side effect.
pub record SkillDefinition : Type 0 where
  pub name : Text
  pub version : Text
  pub fn : ℕ → List Json → SkillContext → Called SkillOutput
  pub input_types : List Text
  pub output_type : Option Text
  pub provenance : Text
