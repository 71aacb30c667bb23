-- ===== src/Skills/Registry/Versions.antt =====
-- Registration of skills by name and version.
use flow_speckit.Prelude.{
  ◌≡◌, refl, sym, ap, ◌∙◌, subst, inl, inr, false, ◌&&◌, Option, none, some, List, [], ◌∷◌, ◌++◌,
  arith, if◌then◌else◌, Bool-cases, Option-cases, first_where, Text, text_eq, text_eq_iff, get-put,
}
use flow_speckit.Skills.{SkillDefinition}
use flow_speckit.Skills.Registry.{
  SkillRegistry, entries_of, find_version, remove_version, add_entry, register, get,
}
use flow_speckit.Shared.{is_local, resolve_collision}
use flow_speckit.Errors.{raised, ok, unknown_skill, Outcome}
use flow_speckit.Skills.Registry.Entries.{found_after, once_after, remove_version-absent}

-- Each version of a name is registered once: no other entry is left when one is removed.
abbrev pub IsUnique : SkillRegistry → Type 0
IsUnique skills =
    (name version : Text)
    → find_version version (remove_version version (entries_of name skills)) ≡ none

entries_of-add_entry :
    (d : SkillDefinition) (replaced : List SkillDefinition) (skills : SkillRegistry) (name : Text)
    → entries_of name (add_entry d replaced skills)
      ≡ (if text_eq d.name name then replaced ++ d ∷ [] else entries_of name skills)
unfolding entries_of add_entry
entries_of-add_entry d replaced skills name =
    ground (arith, get-put d.name name (replaced ++ d ∷ []) skills)

IsUnique-add_entry :
    (d : SkillDefinition) (skills : SkillRegistry)
    → IsUnique skills
    → IsUnique (add_entry d (remove_version d.version (entries_of d.name skills)) skills)
IsUnique-add_entry d skills u name v =
    let replaced = remove_version d.version (entries_of d.name skills) in
    elim (Bool-cases (text_eq d.name name)) [
      | inl same ↦ ground (
        arith,
        entries_of-add_entry d replaced skills name,
        once_after d v (entries_of d.name skills) (u d.name),
      )
      | inr other ↦ ground (arith, entries_of-add_entry d replaced skills name, u name v)
    ]

-- What a lookup of the version gives before, and the policy's choice at a registration.
abbrev pub chosen : SkillDefinition → Option SkillDefinition → SkillDefinition
chosen d none = d
chosen d (some existing) = if is_local d.provenance then d else existing

get-find_version :
    (name version : Text) (skills : SkillRegistry)
    → get name (some version) skills ≡ elim (find_version version (entries_of name skills)) [
      | none ↦ raised (unknown_skill name (some version))
      | some d ↦ ok d
    ]
unfolding get find_version first_where
get-find_version name version skills = ground arith

abbrev pub Registers : SkillDefinition → SkillDefinition → SkillRegistry → SkillRegistry → Type 0
Registers d e skills after =
    (e ≡ chosen d (find_version d.version (entries_of d.name skills)))
    × IsUnique after
    × ((name version : Text)
        → get name (some version) after ≡ (
            if text_eq d.name name && text_eq d.version version
            then ok e
            else get name (some version) skills))

add_entry-Registers :
    (d : SkillDefinition) (skills : SkillRegistry)
    → IsUnique skills
    → d ≡ chosen d (find_version d.version (entries_of d.name skills))
    → Registers d d skills
        (add_entry d (remove_version d.version (entries_of d.name skills)) skills)
add_entry-Registers d skills u choice = (
  choice,
  IsUnique-add_entry d skills u,
  λ name version. ground (
    arith,
    get-find_version name version skills,
    get-find_version name version
        (add_entry d (remove_version d.version (entries_of d.name skills)) skills),
    entries_of-add_entry d (remove_version d.version (entries_of d.name skills)) skills name,
    found_after d version (entries_of d.name skills) (u d.name d.version),
    text_eq_iff d.name name,
  ),
)

kept-Registers :
    (d e : SkillDefinition) (skills : SkillRegistry)
    → IsUnique skills
    → find_version d.version (entries_of d.name skills) ≡ some e
    → is_local d.provenance ≡ false
    → Registers d e skills skills
kept-Registers d e skills u found installed = (
  ground arith,
  u,
  λ name version. ground (
    arith,
    get-find_version name version skills,
    text_eq_iff d.name name,
    text_eq_iff d.version version,
  ),
)

abbrev answered : SkillDefinition → SkillRegistry → Outcome SkillDefinition × SkillRegistry
answered e skills = (ok e, skills)

answer-Registers :
    (d given e : SkillDefinition) (skills left after : SkillRegistry)
    → Registers d given skills left
    → answered given left ≡ (ok e, after)
    → Registers d e skills after
answer-Registers d given e skills left after r h =
    let first : ok given ≡ ok e = ap (λ (p : Outcome SkillDefinition × SkillRegistry). p.0) h in
    let same : given ≡ e = ground arith in
    subst (λ x. Registers d x skills after) same
      (subst (λ t. Registers d given skills t)
        (ap (λ (p : Outcome SkillDefinition × SkillRegistry). p.1) h) r)

-- In a registry that has each version of a name once, after a registration that succeeded it has
-- so again, the definition that the registration answers is the one that takes precedence, and a
-- lookup of any name and version finds that one under its own and what it found before
-- elsewhere.
pub get-register :
    (raw e : SkillDefinition) (provenance : Text) (skills after : SkillRegistry)
    → IsUnique skills
    → register (some raw) provenance skills ≡ (ok e, after)
    → Registers (record raw { provenance = provenance }) e skills after
unfolding register resolve_collision
get-register raw e provenance skills after u h =
    let d : SkillDefinition = record raw { provenance = provenance } in
    let entries = entries_of d.name skills in
    let added = add_entry d (remove_version d.version entries) skills in
    elim (Option-cases (find_version d.version entries)) [
      | inl absent ↦
          let left : register (some raw) provenance skills ≡ (ok d, added) =
            rw (absent, register)
              (ap (λ es. answered d (add_entry d es skills))
                (sym (remove_version-absent d.version entries absent))) in
          answer-Registers d d e skills added after
            (add_entry-Registers d skills u (ground (arith, absent))) (sym left ∙ h)
      | inr (existing, found) ↦ elim (Bool-cases (is_local provenance)) [
        | inl mine ↦
            let left : register (some raw) provenance skills ≡ (ok d, added) =
              rw (found, register) (rw mine refl) in
            answer-Registers d d e skills added after
              (add_entry-Registers d skills u (ground (arith, found))) (sym left ∙ h)
        | inr installed ↦ elim (Bool-cases (is_local existing.provenance)) [
          | inl theirs ↦
              let left : register (some raw) provenance skills ≡ (ok existing, skills) =
                rw (found, register) (rw installed (rw theirs refl)) in
              answer-Registers d existing e skills skills after
                (kept-Registers d existing skills u found installed) (sym left ∙ h)
          | inr both ↦ absurd (ground (arith, found, installed, both, h))
        ]
      ]
    ]
