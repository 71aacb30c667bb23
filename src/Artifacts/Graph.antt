-- ===== src/Artifacts/Graph.antt =====
-- artifacts/graph.py: the lineage of an artifact, by a recursive query over the edges. The order
-- of the rows within one level of the query is the database's; here it is that of the table.
pub mod Walks
pub mod Lineage
use flow_speckit.Prelude.{
  ℕ, zero, suc, ◌-◌, Bool, ◌&&◌, ◌||◌, none, some, List, [], ◌∷◌, ◌++◌, map, ◌==◌, if◌then◌else◌,
  select, exists_where,
}
use flow_speckit.Storage.{EdgeRow, Db}
use flow_speckit.Artifacts.Refs.{row_to_ref, ParsedRef, ArtifactRef}
use flow_speckit.Artifacts.Store.{get_row, same_relation}
use flow_speckit.Base.{Uuid}
use flow_speckit.Action.{Action, raise}
use flow_speckit.Errors.{raised, artifact_not_found, ok}

pub data Direction : Type 0 where
  up down : Direction

-- "up" follows an edge from its `from_id` to its `to_id`, "down" the other way.
abbrev pub near : Direction → EdgeRow → Uuid
near up e = e.from_id
near down e = e.to_id

abbrev pub far : Direction → EdgeRow → Uuid
far up e = e.to_id
far down e = e.from_id

-- The rows of the query at depth 1: `WHERE e.from_id = :root`.
abbrev pub edges_at : Direction → Uuid → List EdgeRow → List EdgeRow
edges_at direction id edges = select (λ e. near direction e == id) edges

-- `FROM artifact_edges e JOIN lineage l ON e.from_id = l.to_id`: the rows one deeper.
unfoldable pub join_edges : Direction → List EdgeRow → List EdgeRow → List EdgeRow
join_edges direction edges [] = []
join_edges direction edges (l ∷ level) =
    edges_at direction (far direction l) edges ++ join_edges direction edges level

-- The rows at a depth and those of the `rounds` next depths.
unfoldable pub lineage_rows : ℕ → Direction → List EdgeRow → List EdgeRow → List EdgeRow
unfolding join_edges
lineage_rows zero direction edges level = level
lineage_rows (suc rounds) direction edges level =
    level ++ lineage_rows rounds direction edges (join_edges direction edges level)

abbrev pub same_edge : EdgeRow → EdgeRow → Bool
same_edge e f =
    (e.from_id == f.from_id) && ((e.to_id == f.to_id) && same_relation e.relation f.relation)

-- The loop over the rows: an edge that was seen is skipped.
unfoldable pub distinct_edges : List EdgeRow → List EdgeRow → List EdgeRow
distinct_edges seen [] = []
distinct_edges seen (e ∷ rows) =
    let rest = distinct_edges (e ∷ seen) rows in
    if exists_where (same_edge e) seen then distinct_edges seen rows else e ∷ rest

-- `node_ids`.
unfoldable pub has_node : Uuid → List EdgeRow → Uuid → Bool
has_node root edges id =
    (id == root) || exists_where (λ e. (e.from_id == id) || (e.to_id == id)) edges

pub record LineageGraph : Type 0 where
  pub root : Uuid
  pub nodes : List ArtifactRef
  pub edges : List EdgeRow

-- `query_lineage`; the query has the rows of depth 1 whatever `max_depth` says.
unfoldable pub query_lineage : Direction → ℕ → Uuid → Db → LineageGraph
unfolding lineage_rows distinct_edges has_node row_to_ref
query_lineage direction max_depth root db =
    let edges = distinct_edges [] (
      lineage_rows (max_depth - 1) direction db.artifact_edges
        (edges_at direction root db.artifact_edges)) in
    record {
      root = root;
      nodes = map row_to_ref (select (λ r. has_node root edges r.id) db.artifacts);
      edges = edges;
    }

-- `ArtifactStore.lineage`.
unfoldable pub lineage : Direction → ℕ → ParsedRef → Action Db LineageGraph
unfolding query_lineage get_row
lineage direction max_depth ref db = elim (get_row ref db) [
  | none ↦ (raised artifact_not_found, db)
  | some row ↦ (ok (query_lineage direction max_depth row.id db), db)
]
