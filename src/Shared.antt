-- ===== src/Shared.antt =====
-- shared.py: the collision policy of the three registries.
use flow_speckit.Prelude.{Bool, ◌||◌, if◌then◌else◌, Text, codes, text_eq, starts_with}

pub data CollisionDecision : Type 0 where
  replace keep_existing collision : CollisionDecision

-- "local" exactly, or a "local:<path>" provenance.
unfoldable pub is_local : Text → Bool
is_local provenance = text_eq provenance (codes "local") || starts_with provenance (codes "local:")

unfoldable pub resolve_collision : Text → Text → CollisionDecision
resolve_collision new_provenance existing_provenance =
    if is_local new_provenance
    then replace
    else if is_local existing_provenance
    then keep_existing
    else collision
