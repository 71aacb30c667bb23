-- ===== src/Llm/Tiers.antt =====
-- llm/tiers.py: skills declare tiers, and the configuration maps tiers to models.
use flow_speckit.Prelude.{Option, none, some, Text, codes, Dict, dict_get}
use flow_speckit.Errors.{Outcome, ok, raised, no_model_for_tier}

pub data Tier : Type 0 where
  fast standard reasoning : Tier

abbrev pub tier_name : Tier → Text
tier_name fast = codes "fast"
tier_name standard = codes "standard"
tier_name reasoning = codes "reasoning"

-- `if spec.tier in tier_map: return tier_map[spec.tier]`.
unfoldable pub tier_model : Tier → Dict Text → Outcome Text
tier_model tier tier_map = elim (dict_get (tier_name tier) tier_map) [
  | some model ↦ ok model
  | none ↦ raised (no_model_for_tier (tier_name tier))
]

abbrev override_of : Option Text → Dict Text → Option Text
override_of none overrides = none
override_of (some skill_name) overrides = dict_get skill_name overrides

-- `resolve_tier`: the skill's override, or else the tier's model.
unfoldable pub resolve_tier : Tier → Dict Text → Option Text → Dict Text → Outcome Text
unfolding tier_model
resolve_tier tier tier_map skill_name overrides = elim (override_of skill_name overrides) [
  | some model ↦ ok model
  | none ↦ tier_model tier tier_map
]
