-- ===== src/Skills/Registry/Entries.antt =====
-- The entries of one name, with one version replaced.
use flow_speckit.Prelude.{
  ◌≡◌, refl, ◌∙◌, inl, inr, false, none, some, List, [], ◌∷◌, ◌++◌, arith, if◌then◌else◌,
  Bool-cases, first_where, Text, text_eq, text_eq_iff,
}
use flow_speckit.Skills.{SkillDefinition}
use flow_speckit.Skills.Registry.{find_version, remove_version}

find_version-append :
    (d : SkillDefinition) (version : Text) (entries : List SkillDefinition)
    → find_version version (entries ++ d ∷ []) ≡ elim (find_version version entries) [
      | none ↦ if text_eq d.version version then some d else none
      | some x ↦ some x
    ]
unfolding find_version first_where
find_version-append d version [] = ground arith
find_version-append d version (x ∷ entries) = ground (arith, find_version-append d version entries)

find_version-remove_version :
    (u v : Text) (entries : List SkillDefinition)
    → text_eq u v ≡ false
    → find_version v (remove_version u entries) ≡ find_version v entries
unfolding find_version first_where remove_version
find_version-remove_version u v [] other = refl
find_version-remove_version u v (x ∷ entries) other = ground (
  arith,
  find_version-remove_version u v entries other,
  text_eq_iff x.version u,
  text_eq_iff x.version v,
  text_eq_iff u v,
)

remove_version-append :
    (d : SkillDefinition) (entries : List SkillDefinition)
    → find_version d.version entries ≡ none
    → remove_version d.version (entries ++ d ∷ []) ≡ entries
unfolding find_version first_where remove_version
remove_version-append d [] absent = ground (arith, text_eq_iff d.version d.version)
remove_version-append d (x ∷ entries) absent = ground (arith, remove_version-append d entries)

-- The entries but for a version, with another version appended or replaced.
remove_version-other :
    (d : SkillDefinition) (v : Text) (entries : List SkillDefinition)
    → text_eq d.version v ≡ false
    → find_version v (remove_version v (entries ++ d ∷ []))
      ≡ find_version v (remove_version v entries)
unfolding find_version first_where remove_version
remove_version-other d v [] other = ground (arith, other)
remove_version-other d v (x ∷ entries) other =
    ground (arith, remove_version-other d v entries other, find_version-append d v entries)

pub found_after :
    (d : SkillDefinition) (v : Text) (entries : List SkillDefinition)
    → find_version d.version (remove_version d.version entries) ≡ none
    → find_version v (remove_version d.version entries ++ d ∷ [])
      ≡ (if text_eq d.version v then some d else find_version v entries)
found_after d v entries once = elim (Bool-cases (text_eq d.version v)) [
  | inl same ↦
      let e : d.version ≡ v = ground (arith, text_eq_iff d.version v) in
      ground (arith, find_version-append d v (remove_version d.version entries))
  | inr other ↦ ground (
    arith,
    find_version-append d v (remove_version d.version entries),
    find_version-remove_version d.version v entries other,
  )
]

pub remove_version-absent :
    (v : Text) (entries : List SkillDefinition)
    → find_version v entries ≡ none
    → remove_version v entries ≡ entries
unfolding find_version first_where remove_version
remove_version-absent v [] absent = refl
remove_version-absent v (x ∷ entries) absent = ground (arith, remove_version-absent v entries)

remove_version-both :
    (u v : Text) (entries : List SkillDefinition)
    → text_eq u v ≡ false
    → find_version v (remove_version v (remove_version u entries))
      ≡ find_version v (remove_version v entries)
unfolding find_version first_where remove_version
remove_version-both u v [] other = refl
remove_version-both u v (x ∷ entries) other = ground (
  arith,
  remove_version-both u v entries other,
  find_version-remove_version u v entries other,
  text_eq_iff x.version u,
  text_eq_iff x.version v,
  text_eq_iff u v,
)

pub once_after :
    (d : SkillDefinition) (v : Text) (entries : List SkillDefinition)
    → ((w : Text) → find_version w (remove_version w entries) ≡ none)
    → find_version v (remove_version v (remove_version d.version entries ++ d ∷ [])) ≡ none
once_after d v entries once = elim (Bool-cases (text_eq d.version v)) [
  | inl same ↦
      let e : v ≡ d.version = ground (arith, text_eq_iff d.version v) in
      rw e (
        rw (remove_version-append d (remove_version d.version entries) (once d.version))
          (once d.version))
  | inr other ↦
      remove_version-other d v (remove_version d.version entries) other
      ∙ remove_version-both d.version v entries other
      ∙ once v
]
