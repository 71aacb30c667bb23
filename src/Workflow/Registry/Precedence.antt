-- ===== src/Workflow/Registry/Precedence.antt =====
-- Registration by key and provenance.
use flow_speckit.Prelude.{
  ◌≡◌, ◌⊎◌, inl, inr, false, Option, none, some, [], ◌∷◌, ◌++◌, arith, ◌==◌, if◌then◌else◌,
  Bool-cases, Option-cases, update_where, first_where, first_where-append, Text, text_eq_iff,
}
use flow_speckit.Shared.{is_local, resolve_collision}
use flow_speckit.Errors.{ok, raised, workflow_collision}
use flow_speckit.Workflow.{WorkflowDefinition}
use flow_speckit.Workflow.Registry.{WorkflowRegistry, has_key, find, overwrite, register}

-- What a lookup finds after a registration: the definition that the policy chooses.
abbrev pub chosen : WorkflowDefinition → Option WorkflowDefinition → WorkflowDefinition
chosen d none = d
chosen d (some existing) =
    if existing.fn_id == d.fn_id
    then existing
    else if is_local d.source_package
    then d
    else existing

find-overwrite :
    (d : WorkflowDefinition) (name version : Text) (workflows : WorkflowRegistry)
    → find name version (overwrite d workflows) ≡ (
        if has_key name version d
        then elim (find name version workflows) [ none ↦ none | some _ ↦ some d ]
        else find name version workflows)
unfolding find overwrite first_where update_where
find-overwrite d name version [] = ground arith
find-overwrite d name version (x ∷ workflows) = ground (
  arith,
  find-overwrite d name version workflows,
  text_eq_iff x.name name,
  text_eq_iff x.version version,
  text_eq_iff x.name d.name,
  text_eq_iff x.version d.version,
  text_eq_iff d.name name,
  text_eq_iff d.version version,
)

find-append :
    (d : WorkflowDefinition) (name version : Text) (workflows : WorkflowRegistry)
    → find name version (workflows ++ d ∷ []) ≡ elim (find name version workflows) [
      | none ↦ if has_key name version d then some d else none
      | some x ↦ some x
    ]
unfolding find first_where
find-append d name version workflows = first_where-append (has_key name version) workflows (d ∷ [])

-- After a registration that succeeded, a lookup under its key finds the new definition or the
-- one that takes precedence over it, and a lookup under any other key finds what it found
-- before.
pub find-register :
    (d : WorkflowDefinition) (name version : Text) (workflows after : WorkflowRegistry)
    → register d none workflows ≡ ok after
    → find name version after ≡ (
        if has_key name version d
        then some (chosen d (find d.name d.version workflows))
        else find name version workflows)
unfolding register resolve_collision
find-register d name version workflows after h = ground (
  arith,
  find-overwrite d name version workflows,
  find-append d name version workflows,
  text_eq_iff d.name name,
  text_eq_iff d.version version,
)

abbrev pub Clashes : WorkflowDefinition → WorkflowRegistry → WorkflowDefinition → Type 0
Clashes d workflows existing =
    (find d.name d.version workflows ≡ some existing)
    × ((existing.fn_id == d.fn_id) ≡ false)
    × (is_local d.source_package ≡ false)
    × (is_local existing.source_package ≡ false)
    × (register d none workflows
        ≡ raised (workflow_collision d.name d.version existing.source_package d.source_package))

-- A registration succeeds, or fails with the collision error where an installed definition meets
-- another installed one with another function under its key.
register-collides :
    (d : WorkflowDefinition) (workflows : WorkflowRegistry)
    → ((after : WorkflowRegistry) × (register d none workflows ≡ ok after))
      ⊎ ((existing : WorkflowDefinition) × Clashes d workflows existing)
unfolding register resolve_collision
register-collides d workflows = elim (Option-cases (find d.name d.version workflows)) [
  | inl absent ↦ inl (workflows ++ d ∷ [], ground arith)
  | inr (existing, found) ↦ elim (Bool-cases (existing.fn_id == d.fn_id)) [
    | inl same ↦ inl (workflows, ground arith)
    | inr other ↦ elim (Bool-cases (is_local d.source_package)) [
      | inl mine ↦ inl (overwrite d workflows, ground arith)
      | inr installed ↦ elim (Bool-cases (is_local existing.source_package)) [
        | inl theirs ↦ inl (workflows, ground arith)
        | inr both ↦ inr (existing, (found, other, installed, both, ground arith))
      ]
    ]
  ]
]
