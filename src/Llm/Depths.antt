-- ===== src/Llm/Depths.antt =====
-- `_depths_from_root` of llm/assemble.py: the distance of each node of a lineage graph from its
-- root, by a breadth-first search.
use flow_speckit.Prelude.{
  ℕ, zero, suc, ◌+◌, Option, none, some, List, [], ◌∷◌, ◌++◌, ◌==◌, if◌then◌else◌, length,
}
use flow_speckit.Storage.{EdgeRow}
use flow_speckit.Base.{Uuid}
use flow_speckit.Artifacts.Graph.{LineageGraph}

-- `adjacency.get(current, ())`, of edges in both directions.
abbrev pub at_from : Uuid → EdgeRow → List Uuid
at_from id e = if e.from_id == id then e.to_id ∷ [] else []

abbrev pub at_to : Uuid → EdgeRow → List Uuid
at_to id e = if e.to_id == id then e.from_id ∷ [] else []

unfoldable pub neighbors : List EdgeRow → Uuid → List Uuid
neighbors [] id = []
neighbors (e ∷ edges) id = at_from id e ++ (at_to id e ++ neighbors edges id)

-- `depths.get(id)`.
unfoldable pub depth_of : Uuid → List (Uuid × ℕ) → Option ℕ
depth_of id [] = none
depth_of id ((other, d) ∷ depths) = if other == id then some d else depth_of id depths

-- The state of the search: `depths`, the latest first, and the `queue`.
pub record Search : Type 0 where
  pub depths : List (Uuid × ℕ)
  pub queue : List Uuid

abbrev pub or_default : ℕ → Option ℕ → ℕ
or_default n none = n
or_default n (some d) = d

-- The inner loop, at the neighbors of a node of the given depth.
unfoldable pub visit : ℕ → List Uuid → Search → Search
unfolding depth_of
visit depth [] s = s
visit depth (id ∷ ids) s = visit depth ids (elim (depth_of id s.depths) [
  | some _ ↦ s
  | none ↦ record { depths = (id, depth + 1) ∷ s.depths; queue = s.queue ++ id ∷ [] }
])

-- The outer loop, for at most `fuel` nodes of the queue.
unfoldable pub search_depths : ℕ → List EdgeRow → Search → List (Uuid × ℕ)
unfolding visit neighbors
search_depths zero edges s = s.depths
search_depths (suc fuel) edges s = elim s.queue [
  | [] ↦ s.depths
  | current ∷ queue ↦ search_depths fuel edges (
      visit (or_default 0 (depth_of current s.depths)) (neighbors edges current)
        (record s { queue = queue }))
]

-- Each end of an edge enters the queue once.
abbrev pub ends : List EdgeRow → List Uuid
ends [] = []
ends (e ∷ edges) = e.from_id ∷ e.to_id ∷ ends edges

-- `_depths_from_root`.
unfoldable pub depths_from_root : LineageGraph → List (Uuid × ℕ)
unfolding search_depths
depths_from_root graph =
    search_depths (suc (length (ends graph.edges))) graph.edges
      (record { depths = (graph.root, 0) ∷ []; queue = graph.root ∷ [] })
