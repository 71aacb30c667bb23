-- ===== src/Artifacts/Graph/Lineage.antt =====
-- `query_lineage` finds each edge within its depth once, and nothing else.
use flow_speckit.Artifacts.Graph.Walks.{
  first, Walk, lineage_rows_sound, edges_at_sound, lineage_rows_complete, Walk-first,
  edges_at_complete, Walk-positive,
}
use mathlib.Core.List.Memᴰ
use flow_speckit.Prelude.{
  ℕ, ◌-◌, ◌≤◌, max, ◌≡◌, refl, ◌↔◌, inl, inr, true, false, List, [], ◌∷◌, Memᴰ, arith, ==_refl,
  ==_iff, Bool-cases, Bool-disjoint, exists-Memᴰ, exists_where,
}
use flow_speckit.Storage.{EdgeRow, Db}
use flow_speckit.Base.{Relation, Uuid}
use flow_speckit.Artifacts.Graph.{
  distinct_edges, same_edge, query_lineage, Direction, edges_at, lineage_rows,
}
use flow_speckit.Artifacts.Store.{same_relation}

same_relation_sound : (r s : Relation) → same_relation r s ≡ true → r ≡ s
same_relation_sound Relation.derived_from s h = ground (arith, h)
same_relation_sound r s h = ground (arith, h)

same_edge_sound : (e f : EdgeRow) → same_edge e f ≡ true → e ≡ f
same_edge_sound e f h = ground (
  arith,
  ==_iff e.from_id f.from_id,
  ==_iff e.to_id f.to_id,
  same_relation_sound e.relation f.relation,
)

same_relation_refl : (r : Relation) → same_relation r r ≡ true
same_relation_refl Relation.derived_from = refl
same_relation_refl Relation.supersedes = refl
same_relation_refl Relation.informs = refl
same_relation_refl Relation.implements = refl
same_relation_refl Relation.reviews = refl

same_edge_refl : (e : EdgeRow) → same_edge e e ≡ true
same_edge_refl e = ground (arith, ==_refl e.from_id, ==_refl e.to_id, same_relation_refl e.relation)

unseen :
    (e x : EdgeRow) (seen : List EdgeRow)
    → exists_where (same_edge e) (x ∷ seen) ≡ false
    → exists_where (same_edge e) seen ≡ false
unfolding exists_where
unseen e x seen h = ground arith

-- No edge stands twice.
abbrev pub IsDistinctEdges : List EdgeRow → Type 0
IsDistinctEdges [] = Unit
IsDistinctEdges (e ∷ es) = (exists_where (same_edge e) es ≡ false) × IsDistinctEdges es

distinct_edges_sound :
    {e : EdgeRow} (seen rows : List EdgeRow)
    → Memᴰ e (distinct_edges seen rows)
    → Memᴰ e rows × (exists_where (same_edge e) seen ≡ false)
unfolding distinct_edges
distinct_edges_sound seen [] m = absurd (Memᴰ.not-nil m)
distinct_edges_sound {e} seen (x ∷ rows) m = elim (Bool-cases (exists_where (same_edge x) seen)) [
  | inl old ↦
      let m' : Memᴰ e (distinct_edges seen rows) = (rw old at m) in
      let (there, new) = distinct_edges_sound seen rows m' in (Memᴰ.tail there, new)
  | inr fresh ↦
      let m' : Memᴰ e (x ∷ distinct_edges (x ∷ seen) rows) = (rw fresh at m) in
      elim (Memᴰ.cases_cons m') [
        | inl same ↦ (Memᴰ.head same, rw same fresh)
        | inr later ↦
            let (there, new) = distinct_edges_sound (x ∷ seen) rows later in
            (Memᴰ.tail there, unseen e x seen new)
      ]
]

distinct_edges_complete :
    {e : EdgeRow} (seen : List EdgeRow) {rows : List EdgeRow}
    → Memᴰ e rows
    → exists_where (same_edge e) seen ≡ false
    → Memᴰ e (distinct_edges seen rows)
unfolding distinct_edges
distinct_edges_complete {e} seen (Memᴰ.head {x} same) new = rw (rw same at new) (Memᴰ.head same)
distinct_edges_complete {e} seen (Memᴰ.tail {x} {xs} m) new =
    elim (Bool-cases (exists_where (same_edge x) seen)) [
      | inl old ↦ rw old (distinct_edges_complete seen m new)
      | inr fresh ↦ rw fresh (elim (Bool-cases (same_edge e x)) [
        | inl same ↦ Memᴰ.head (same_edge_sound e x same)
        | inr differs ↦
            Memᴰ.tail (distinct_edges_complete (x ∷ seen) m (unfold exists_where in rw differs new))
      ])
    ]

distinct_edges-absent :
    (x : EdgeRow) (seen rows : List EdgeRow)
    → exists_where (same_edge x) seen ≡ true
    → exists_where (same_edge x) (distinct_edges seen rows) ≡ false
distinct_edges-absent x seen rows h =
    elim (Bool-cases (exists_where (same_edge x) (distinct_edges seen rows))) [
      | inr absent ↦ absent
      | inl there ↦
          let (y, m, same) = exists-Memᴰ (same_edge x) (distinct_edges seen rows) there in
          let (_, new) = distinct_edges_sound seen rows m in
          Bool-disjoint h (rw (← same_edge_sound x y same) at new)
    ]

distinct_edges-IsDistinctEdges :
    (seen rows : List EdgeRow) → IsDistinctEdges (distinct_edges seen rows)
unfolding distinct_edges
distinct_edges-IsDistinctEdges seen [] = tt
distinct_edges-IsDistinctEdges seen (x ∷ rows) =
    elim (Bool-cases (exists_where (same_edge x) seen)) [
      | inl old ↦ rw old (distinct_edges-IsDistinctEdges seen rows)
      | inr fresh ↦ rw fresh (
        distinct_edges-absent x (x ∷ seen) rows (unfold exists_where in rw (same_edge_refl x) refl),
        distinct_edges-IsDistinctEdges (x ∷ seen) rows,
      )
    ]

-- The lineage query answers with each edge at most once, and an edge is in its answer exactly if
-- it ends a walk over the edges, in the direction asked for, from the root, that is no longer
-- than the depth asked for, or than one where that is zero.
pub query_lineage-walks :
    (direction : Direction) (max_depth : ℕ) (root : Uuid) (db : Db)
    → IsDistinctEdges (query_lineage direction max_depth root db).edges
      × ((e : EdgeRow)
          → Memᴰ e (query_lineage direction max_depth root db).edges
            ↔ ((n : ℕ) × (n ≤ max max_depth 1) × Walk direction db.artifact_edges root n e))
unfolding query_lineage exists_where
query_lineage-walks direction max_depth root db =
    let edges = db.artifact_edges in
    let level = edges_at direction root edges in
    let rows = lineage_rows (max_depth - 1) direction edges level in
    (
      distinct_edges-IsDistinctEdges [] rows,
      λ e. (
        λ m.
            let (there, _) = distinct_edges_sound [] rows m in
            let (n, bound, walk) =
              lineage_rows_sound direction edges root (max_depth - 1) 1 level
                (λ l here.
                  let (t, at) = edges_at_sound direction edges root here in first refl t at)
                there in
            (n, omega (arith, bound), walk),
        λ (n, bound, walk).
            distinct_edges_complete []
              (lineage_rows_complete direction edges root (max_depth - 1) 0 level
                (λ l w.
                  let (t, at) = Walk-first direction edges root refl w in
                  edges_at_complete direction edges root t at)
                (Walk-positive direction edges root walk) (omega (arith, bound)) walk)
              refl,
      ),
    )
