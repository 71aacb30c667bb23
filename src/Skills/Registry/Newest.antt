-- ===== src/Skills/Registry/Newest.antt =====
-- The version that a lookup without one finds.
use flow_speckit.Prelude.{
  ◌≡◌, subst, false, none, List, [], ◌∷◌, arith, max_by-All, All, Text, IsOrder,
}
use flow_speckit.Workflow.Registry.{text_lt}
use flow_speckit.Workflow.Registry.Latest.{text_lt_irrefl, text_lt_asymm, text_le_trans}
use flow_speckit.Errors.{ok}
use flow_speckit.Skills.{SkillDefinition}
use flow_speckit.Skills.Registry.{SkillRegistry, entries_of, greatest_version, get, pick}

IsOrder-text_lt : IsOrder (λ (a b : SkillDefinition). text_lt a.version b.version)
IsOrder-text_lt = record {
  irrefl = λ a. text_lt_irrefl a.version;
  asymm = λ a b. text_lt_asymm a.version b.version;
  trans = λ a b c. text_le_trans a.version b.version c.version;
}

-- `best` is not below `d`, by code points.
abbrev IsNotBefore : SkillDefinition → SkillDefinition → Type 0
IsNotBefore best d = text_lt best.version d.version ≡ false

pick-All :
    (name : Text) (entries : List SkillDefinition) (d : SkillDefinition)
    → pick name none entries ≡ ok d
    → All (IsNotBefore d) entries
unfolding pick greatest_version
pick-All name [] d h = tt
pick-All name (x ∷ ds) d h =
    let e : greatest_version x ds ≡ d = ground arith in
    subst (λ t. All (IsNotBefore t) (x ∷ ds)) e (max_by-All IsOrder-text_lt x ds)

-- The skill that a lookup without a version finds is below no registered version of the name, in
-- the order of their code points.
get-IsNotBefore :
    (name : Text) (skills : SkillRegistry) (d : SkillDefinition)
    → get name none skills ≡ ok d
    → All (λ x. text_lt d.version x.version ≡ false) (entries_of name skills)
unfolding get
get-IsNotBefore name skills d h = pick-All name (entries_of name skills) d h
