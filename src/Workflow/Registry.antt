-- ===== src/Workflow/Registry.antt =====
-- `WorkflowRegistry` of workflows/registry.py: definitions by `(name, version)`, in the order in
-- which their keys were registered. Discovery imports modules and is not modelled.
pub mod Precedence
pub mod Latest
use flow_speckit.Prelude.{
  Bool, true, false, ◌&&◌, ◌||◌, Option, none, some, List, [], ◌∷◌, ◌++◌, ltb, ◌==◌, if◌then◌else◌,
  max_by, select, update_where, first_where, Text, text_eq, is_digits, read_decimal,
}
use flow_speckit.Shared.{CollisionDecision, replace, keep_existing, collision, resolve_collision}
use flow_speckit.Errors.{Exception, Outcome, ok, raised, workflow_collision, unknown_workflow}
use flow_speckit.Workflow.{WorkflowDefinition}

abbrev pub WorkflowRegistry : Type 0
WorkflowRegistry = List WorkflowDefinition

abbrev pub has_key : Text → Text → WorkflowDefinition → Bool
has_key name version d = text_eq d.name name && text_eq d.version version

-- `self._workflows.get((name, version))`.
unfoldable pub find : Text → Text → WorkflowRegistry → Option WorkflowDefinition
find name version workflows = first_where (has_key name version) workflows

-- `self._workflows[key] = definition`, at a key that is there.
unfoldable pub overwrite : WorkflowDefinition → WorkflowRegistry → WorkflowRegistry
overwrite d workflows = update_where (has_key d.name d.version) (λ _. d) workflows

abbrev pub with_source : Option Text → WorkflowDefinition → WorkflowDefinition
with_source none d = d
with_source (some source) d = record d { source_package = source }

decide_collision :
    CollisionDecision
    → WorkflowDefinition
    → WorkflowDefinition
    → WorkflowRegistry
    → Outcome WorkflowRegistry
decide_collision replace existing d workflows = ok (overwrite d workflows)
decide_collision keep_existing existing d workflows = ok workflows
decide_collision collision existing d workflows =
    raised (workflow_collision d.name d.version existing.source_package d.source_package)

register_at :
    Option WorkflowDefinition → WorkflowDefinition → WorkflowRegistry → Outcome WorkflowRegistry
unfolding decide_collision
register_at none d workflows = ok (workflows ++ d ∷ [])
register_at (some existing) d workflows =
    if existing.fn_id == d.fn_id
    then ok workflows
    else decide_collision (resolve_collision d.source_package existing.source_package) existing d
        workflows

unfoldable pub register :
    WorkflowDefinition → Option Text → WorkflowRegistry → Outcome WorkflowRegistry
unfolding register_at overwrite
register definition source_package workflows =
    let d = with_source source_package definition in
    register_at (find d.name d.version workflows) d workflows

unfoldable pub get : Text → Text → WorkflowRegistry → Outcome WorkflowDefinition
get name version workflows = elim (find name version workflows) [
  | none ↦ raised (unknown_workflow name version)
  | some d ↦ ok d
]

-- Python's order of texts, by code point.
unfoldable pub text_lt : Text → Text → Bool
text_lt [] [] = false
text_lt [] (y ∷ ys) = true
text_lt (x ∷ xs) [] = false
text_lt (x ∷ xs) (y ∷ ys) = ltb x y || ((x == y) && text_lt xs ys)

-- `sort_key`, as the order of the tuples `(1, int(v), "")` and `(0, 0, v)`.
unfoldable pub version_lt : Text → Text → Bool
unfolding text_lt
version_lt v w =
    if is_digits v
    then is_digits w && ltb (read_decimal 0 v) (read_decimal 0 w)
    else is_digits w || text_lt v w

-- `max(candidates, key=sort_key)`: the first of the greatest.
unfoldable pub highest : WorkflowDefinition → List WorkflowDefinition → WorkflowDefinition
unfolding max_by version_lt
highest best ds = max_by (λ a b. version_lt a.version b.version) best ds

abbrev latest_of : Text → List WorkflowDefinition → Outcome WorkflowDefinition
latest_of name [] = raised (unknown_workflow name [])
latest_of name (d ∷ ds) = ok (highest d ds)

unfoldable pub latest : Text → WorkflowRegistry → Outcome WorkflowDefinition
latest name workflows = latest_of name (select (λ d. text_eq d.name name) workflows)
