-- ===== src/Scenarios/Registries.antt =====
-- Registered workflows, and two versions of an artifact.
use flow_speckit.Prelude.{
  ◌≡◌, refl, true, none, some, [], ◌∷◌, if◌then◌else◌, greatest, select, delete_where, update_where,
  exists_where, first_where, count_where, Text, codes, text_eq, decimal, read_decimal, starts_with,
  order_by, dict_get, dict_put, dict_pop, contains,
}
use flow_speckit.Artifacts.Refs.{row_to_ref, address, rpartition_at, parse_ref, by_key, ArtifactRef}
use flow_speckit.Artifacts.Store.{
  is_allowed, newest, latest_row, next_version, find_artifact, get_row, resolve, versions, add_edge,
  set_status_raw, insert_artifact, supersede, add_parents, are_artifacts, mint, duplicate, create,
  write_status, set_artifact_status, ArtifactModel, CreateOptions,
}
use flow_speckit.Action.{◌>>=◌}
use flow_speckit.Workflow.Registry.{
  find, overwrite, register, get, text_lt, version_lt, highest, latest, has_key, WorkflowRegistry,
}
use flow_speckit.Shared.{is_local, resolve_collision}
use flow_speckit.Storage.{
  find_run, update_run, set_status, delete_queue_row, upsert_task_queue, delete_timer,
  delete_run_timers, insert_timer, timer_exists, notify_run, Db, empty_db,
}
use flow_speckit.Json.{Json, number}
use flow_speckit.Errors.{ok}
use flow_speckit.Workflow.Registry.Precedence.{find-register, chosen}
use flow_speckit.Artifacts.Refs.Address.{parse_ref-address}
use flow_speckit.Artifacts.Store.Versions.{IsVersioned, create-IsVersioned}
use flow_speckit.Artifacts.Store.Again.{create-again}
use flow_speckit.Scenarios.{draft_workflow}
use flow_speckit.Workflow.{WorkflowDefinition}
use flow_speckit.Base.{Status}

abbrev tenth : WorkflowDefinition
tenth = record draft_workflow { version = codes "10"; source_package = codes "pack"; fn_id = 2 }

abbrev other_tenth : WorkflowDefinition
other_tenth = record tenth { source_package = codes "rival"; fn_id = 3 }

abbrev two : WorkflowRegistry
two = draft_workflow ∷ tenth ∷ []

registry_facts :
    (register tenth none (draft_workflow ∷ []) ≡ ok two) × (latest (codes "draft") two ≡ ok tenth)
unfolding row_to_ref address rpartition_at parse_ref is_allowed newest latest_row next_version
    find_artifact get_row resolve versions add_edge set_status_raw insert_artifact supersede
    add_parents are_artifacts mint duplicate create write_status set_artifact_status dict_get
    dict_put dict_pop contains greatest order_by select delete_where update_where exists_where
    first_where count_where text_eq decimal read_decimal starts_with ◌>>=◌ find overwrite register
    get text_lt version_lt highest latest is_local resolve_collision find_run update_run set_status
    delete_queue_row upsert_task_queue delete_timer delete_run_timers insert_timer timer_exists
    notify_run
registry_facts = (refl, refl)

find-register_example : find (codes "draft") (codes "10") two ≡ (
    if has_key (codes "draft") (codes "10") tenth
    then some (chosen tenth (find (codes "draft") (codes "10") (draft_workflow ∷ [])))
    else find (codes "draft") (codes "10") (draft_workflow ∷ []))
find-register_example =
    find-register tenth (codes "draft") (codes "10") (draft_workflow ∷ []) two registry_facts.0

parse_ref-address_example :
    parse_ref (λ _. none) (address (codes "spec@home") 120) ≡ by_key (codes "spec@home") (some 120)
parse_ref-address_example = parse_ref-address (λ _. none) (codes "spec@home") 120 refl

-- A stand-in for the hash of the content.
abbrev hash : Json → Text
hash (number n) = decimal n
hash _ = codes "?"

abbrev generic : ArtifactModel
generic = record {
  artifact_type = codes "generic";
  content = number 12;
  body_md = codes "# spec";
  schema_version = 1;
}

abbrev options : CreateOptions
options = record {
  key = codes "spec";
  run_id = none;
  step_key = none;
  derived_from = [];
  status = Status.proposed;
}

abbrev store : Db
store = (create (λ _. true) hash generic options empty_db).1

abbrev spec_ref : ArtifactRef
spec_ref = record {
  id = 0;
  type_name = codes "generic";
  key = codes "spec";
  version = 1;
  status = Status.proposed;
  content_hash = hash (number 12);
  created_at = 0;
}

created : create (λ _. true) hash generic options empty_db ≡ (ok spec_ref, store)
unfolding row_to_ref address rpartition_at parse_ref is_allowed newest latest_row next_version
    find_artifact get_row resolve versions add_edge set_status_raw insert_artifact supersede
    add_parents are_artifacts mint duplicate create write_status set_artifact_status dict_get
    dict_put dict_pop contains greatest order_by select delete_where update_where exists_where
    first_where count_where text_eq decimal read_decimal starts_with ◌>>=◌ find overwrite register
    get text_lt version_lt highest latest is_local resolve_collision find_run update_run set_status
    delete_queue_row upsert_task_queue delete_timer delete_run_timers insert_timer timer_exists
    notify_run
created = refl

create-again_example : create (λ _. true) hash generic options store ≡ (ok spec_ref, store)
unfolding exists_where
create-again_example =
    create-again (λ _. true) hash generic options empty_db store spec_ref refl refl created

empty-IsVersioned : IsVersioned empty_db.artifacts
unfolding select
empty-IsVersioned = record { at_key = λ key. tt }

create-IsVersioned_example : IsVersioned store.artifacts
create-IsVersioned_example =
    create-IsVersioned (λ _. true) hash generic options empty_db empty-IsVersioned
