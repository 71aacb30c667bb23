-- ===== src/Scenarios/Prompts.antt =====
-- A prompt over an artifact that was derived from another.
use flow_speckit.Prelude.{
  ℕ, ◌+◌, ◌≤◌, max, ◌≡◌, refl, ◌↔◌, inl, inr, true, Option, none, some, List, [], ◌∷◌, Memᴰ, arith,
  greatest, length, All, select, delete_where, update_where, exists_where, first_where, count_where,
  Text, codes, text_eq, decimal, read_decimal, starts_with, order_by, dict_get, dict_put, dict_pop,
  contains,
}
use flow_speckit.Storage.{
  find_run, update_run, set_status, delete_queue_row, upsert_task_queue, delete_timer,
  delete_run_timers, insert_timer, timer_exists, notify_run, Db, ArtifactRow, empty_db, EdgeRow,
}
use flow_speckit.Artifacts.Graph.{
  join_edges, lineage_rows, distinct_edges, has_node, query_lineage, lineage, up,
}
use flow_speckit.Artifacts.Store.{
  is_allowed, newest, latest_row, next_version, find_artifact, get_row, resolve, versions, add_edge,
  set_status_raw, insert_artifact, supersede, add_parents, are_artifacts, mint, duplicate, create,
  write_status, set_artifact_status,
}
use flow_speckit.Artifacts.Refs.{row_to_ref, address, rpartition_at, parse_ref}
use flow_speckit.Llm.Client.{
  check_skill, check_budget, record_cost, call_model, after_call, round, complete,
  complete_streaming, LlmClient, Completion, CompleteOptions, LiteLlm, Message, ResponseModel,
  cost_of,
}
use flow_speckit.Llm.Tiers.{tier_model, resolve_tier, fast}
use flow_speckit.Llm.Assemble.{
  render, estimate_chars, estimate_tokens, degrade, pack, sort_ancestors, add_nodes,
  collect_ancestors, title_slug, primary_chunks, assemble, Primary, title_line, max_depth,
}
use flow_speckit.Llm.Depths.{neighbors, depth_of, visit, search_depths, depths_from_root}
use flow_speckit.Action.{◌>>=◌}
use flow_speckit.Base.{Uuid, Relation, Status}
use flow_speckit.Artifacts.Graph.Lineage.{IsDistinctEdges, query_lineage-walks}
use flow_speckit.Llm.Assemble.Packing.{assemble_bounds}
use flow_speckit.Llm.Client.Spending.{spent_by, complete_bounds}
use flow_speckit.Errors.{other}
use flow_speckit.Json.{null}
use flow_speckit.Artifacts.Graph.Walks.{Walk}

abbrev spec_row : ArtifactRow
spec_row = record {
  id = 1;
  type_name = codes "generic";
  key = codes "spec";
  version = 1;
  content = null;
  content_hash = codes "a";
  body_md = some (codes "# Spec");
  status = Status.approved;
  schema_version = 1;
  created_by_run = none;
  created_by_step = none;
  created_at = 5;
}

abbrev plan_row : ArtifactRow
plan_row = record spec_row { id = 2; key = codes "plan"; content_hash = codes "b" }

-- The plan was derived from the spec.
abbrev stored : Db
stored = record empty_db {
  artifacts = spec_row ∷ plan_row ∷ [];
  artifact_edges = record { from_id = 2; to_id = 1; relation = Relation.derived_from } ∷ [];
}

query_lineage-walks_example :
    IsDistinctEdges (query_lineage up 8 2 stored).edges
    × ((e : EdgeRow)
        → Memᴰ e (query_lineage up 8 2 stored).edges
          ↔ ((n : ℕ) × (n ≤ max 8 1) × Walk up stored.artifact_edges 2 n e))
query_lineage-walks_example = query_lineage-walks up 8 2 stored

abbrev no_uuid : Text → Option Uuid
no_uuid t = none

abbrev plan_primary : Primary
plan_primary = record {
  artifact_type = codes "generic";
  model_title = some (codes "The Plan");
  body_md = codes "Do it.";
}

found_ancestors :
    All
      (λ a. estimate_chars (length (title_line a)) ≤ 20)
      (sort_ancestors (collect_ancestors no_uuid (codes "plan" ∷ []) max_depth [] stored))
unfolding dict_get dict_put dict_pop contains greatest order_by select delete_where update_where
    exists_where first_where count_where text_eq decimal read_decimal starts_with find_run
    update_run set_status delete_queue_row upsert_task_queue delete_timer delete_run_timers
    insert_timer timer_exists notify_run join_edges lineage_rows distinct_edges has_node
    query_lineage lineage is_allowed newest latest_row next_version find_artifact get_row resolve
    versions add_edge set_status_raw insert_artifact supersede add_parents are_artifacts mint
    duplicate create write_status set_artifact_status row_to_ref address rpartition_at parse_ref
    check_skill check_budget record_cost call_model after_call round complete complete_streaming
    tier_model resolve_tier render estimate_chars estimate_tokens degrade pack sort_ancestors
    neighbors depth_of visit search_depths depths_from_root add_nodes collect_ancestors title_slug
    primary_chunks assemble ◌>>=◌
found_ancestors = omega arith

assemble_bounds_example :
    (assemble no_uuid (λ t. t) (plan_primary ∷ []) (codes "plan" ∷ []) 100 true stored).total_tokens
    ≤ max (estimate_tokens (primary_chunks (λ t. t) (plan_primary ∷ []) (codes "plan" ∷ []))) 100
      + 20
assemble_bounds_example =
    assemble_bounds no_uuid (λ t. t) (plan_primary ∷ []) (codes "plan" ∷ []) 100 20 true stored
      (omega arith) found_ancestors

-- Every call costs three, and its answer is never valid.
abbrev answer : Completion
answer = record {
  response_cost = some 3;
  completion_cost = none;
  content = some (codes "{}");
  parsed = none;
}

abbrev steady_llm : LiteLlm
steady_llm = record { acompletion = λ n model messages. inr answer }

abbrev strict_model : ResponseModel
strict_model = record {
  model_validate = λ j. inr j;
  model_validate_json = λ t. inl (other (codes "ValidationError") t);
}

abbrev request : CompleteOptions
request = record {
  prompt = codes "Plan it";
  context = none;
  response_model = some strict_model;
  tier = fast;
  skill_name = some (codes "plan");
  max_cost_usd = 10;
}

abbrev client : LlmClient
client = record {
  tier_map = (codes "fast", codes "m") ∷ [];
  overrides = [];
  max_usd_per_run = 5;
  total_cost = 4;
  cost_by_skill = [];
  calls = 0;
}

abbrev client_after : LlmClient
client_after = (complete (some steady_llm) (λ e. []) request client).1

steady_costs :
    (n : ℕ) (model : Text) (messages : List Message) (raw : Completion)
    → steady_llm.acompletion n model messages ≡ inr raw
    → cost_of raw ≤ 3
steady_costs n model messages raw h = ground (arith, h)

complete_bounds_example :
    (client_after.calls ≤ 0 + 2)
    × (client_after.total_cost ≤ max 4 (5 + 3))
    × (spent_by (some (codes "plan")) client_after
        ≤ max (spent_by (some (codes "plan")) client) (10 + 3))
complete_bounds_example =
    complete_bounds steady_llm (λ e. []) request 3 client client_after steady_costs refl
