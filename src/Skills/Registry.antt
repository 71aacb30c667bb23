-- ===== src/Skills/Registry.antt =====
-- `SkillRegistry` of skills/registry.py: the definitions of each name, in the order of their
-- registration. What a decorated function carries is an option: `none` where it is undecorated.
pub mod Entries
pub mod Versions
pub mod Newest
use flow_speckit.Prelude.{
  Bool, ◌&&◌, ◌||◌, not, Option, none, some, List, [], ◌∷◌, ◌++◌, if◌then◌else◌, max_by,
  first_where, Text, codes, text_eq, Dict, dict_get, dict_put,
}
use flow_speckit.Shared.{CollisionDecision, replace, keep_existing, collision, resolve_collision}
use flow_speckit.Errors.{Outcome, ok, raised, unknown_skill, skill_collision, other}
use flow_speckit.Action.{Action}
use flow_speckit.Workflow.Registry.{text_lt}
use flow_speckit.Skills.{SkillDefinition}

abbrev pub SkillRegistry : Type 0
SkillRegistry = Dict (List SkillDefinition)

-- `self._by_name.get(name)`, and nothing for a name that is not there.
unfoldable pub entries_of : Text → SkillRegistry → List SkillDefinition
entries_of name skills = elim (dict_get name skills) [ none ↦ [] | some entries ↦ entries ]

unfoldable pub find_version : Text → List SkillDefinition → Option SkillDefinition
find_version version entries = first_where (λ d. text_eq d.version version) entries

-- `entries.remove(existing)`, where `existing` is the first of its version.
unfoldable pub remove_version : Text → List SkillDefinition → List SkillDefinition
remove_version version [] = []
remove_version version (d ∷ ds) =
    let rest = remove_version version ds in if text_eq d.version version then ds else d ∷ rest

-- The entries of a name after a registration: `replaced` has none left of the version.
unfoldable pub add_entry : SkillDefinition → List SkillDefinition → SkillRegistry → SkillRegistry
add_entry d replaced skills = dict_put d.name (replaced ++ d ∷ []) skills

-- What follows a lookup of the entry that has the version already.
decide_collision :
    CollisionDecision → SkillDefinition → SkillDefinition → Action SkillRegistry SkillDefinition
decide_collision keep_existing existing d skills = (ok existing, skills)
decide_collision replace existing d skills =
    (ok d, add_entry d (remove_version d.version (entries_of d.name skills)) skills)
decide_collision collision existing d skills =
    (raised (skill_collision d.name d.version existing.provenance d.provenance), skills)

register_at : Option SkillDefinition → SkillDefinition → Action SkillRegistry SkillDefinition
unfolding decide_collision
register_at none d skills = (ok d, add_entry d (entries_of d.name skills) skills)
register_at (some existing) d skills =
    decide_collision (resolve_collision d.provenance existing.provenance) existing d skills

unfoldable pub register : Option SkillDefinition → Text → Action SkillRegistry SkillDefinition
unfolding register_at
register none provenance skills =
    (raised (other (codes "TypeError") (codes "is not a @skill-decorated function")), skills)
register (some raw) provenance skills =
    let d : SkillDefinition = record raw { provenance = provenance } in
    register_at (find_version d.version (entries_of d.name skills)) d skills

-- `max(entries, key=lambda d: d.version)`: the first of the greatest, by code points.
unfoldable pub greatest_version : SkillDefinition → List SkillDefinition → SkillDefinition
unfolding max_by text_lt
greatest_version best ds = max_by (λ a b. text_lt a.version b.version) best ds

pick : Text → Option Text → List SkillDefinition → Outcome SkillDefinition
pick name version [] = raised (unknown_skill name version)
pick name none (d ∷ ds) = ok (greatest_version d ds)
pick name (some version) (d ∷ ds) = elim (find_version version (d ∷ ds)) [
  | none ↦ raised (unknown_skill name (some version))
  | some entry ↦ ok entry
]

-- `get`; `latest` is `get` with no version.
unfoldable pub get : Text → Option Text → SkillRegistry → Outcome SkillDefinition
unfolding pick entries_of
get name version skills = pick name version (entries_of name skills)

-- `result.sort(key=lambda d: (d.name, d.version))`, a stable sort.
abbrev skill_lt : SkillDefinition → SkillDefinition → Bool
skill_lt a b = text_lt a.name b.name || (text_eq a.name b.name && text_lt a.version b.version)

insert_skill : SkillDefinition → List SkillDefinition → List SkillDefinition
insert_skill d [] = d ∷ []
insert_skill d (x ∷ xs) = if skill_lt x d then x ∷ insert_skill d xs else d ∷ x ∷ xs

sort_skills : List SkillDefinition → List SkillDefinition
sort_skills [] = []
sort_skills (d ∷ ds) = insert_skill d (sort_skills ds)

all_entries : SkillRegistry → List SkillDefinition
all_entries [] = []
all_entries ((name, entries) ∷ skills) = entries ++ all_entries skills

unfoldable pub list_all : SkillRegistry → List SkillDefinition
unfolding insert_skill sort_skills all_entries
list_all skills = sort_skills (all_entries skills)
