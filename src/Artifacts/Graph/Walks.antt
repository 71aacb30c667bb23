-- ===== src/Artifacts/Graph/Walks.antt =====
-- The lineage query against the walks over the edges.
use flow_speckit.Prelude.{
  ℕ, zero, suc, ◌+◌, ◌≤◌, ◌≡◌, refl, ap, ◌∙◌, subst, inl, inr, List, [], ◌∷◌, Memᴰ, arith, ◌==◌,
  ==_iff, Bool-cases, Memᴰ-of_select, Memᴰ-select,
}
use mathlib.Core.List.Memᴰ
use flow_speckit.Storage.{EdgeRow}
use flow_speckit.Artifacts.Graph.{Direction, join_edges, edges_at, lineage_rows, near, far}
use flow_speckit.Base.{Uuid}

-- The last edge of a walk of `n` edges that starts at the root.
pub data Walk (direction : Direction) (edges : List EdgeRow) (root : Uuid)
    : ℕ → EdgeRow → Type 0 where
  first :
      {n : ℕ} {e : EdgeRow}
      → n ≡ 1
      → Memᴰ e edges
      → near direction e ≡ root
      → Walk direction edges root n e
  onward :
      {n m : ℕ} {l e : EdgeRow}
      → n ≡ suc m
      → Walk direction edges root m l
      → Memᴰ e edges
      → near direction e ≡ far direction l
      → Walk direction edges root n e

module _ (direction : Direction) (edges : List EdgeRow) where
  pub edges_at_sound :
      {e : EdgeRow} (id : Uuid)
      → Memᴰ e (edges_at direction id edges)
      → Memᴰ e edges × (near direction e ≡ id)
  edges_at_sound {e} id m =
      let (there, hit) = Memᴰ-of_select (λ (x : EdgeRow). near direction x == id) edges m in
      (there, (==_iff (near direction e) id).0 hit)

  pub edges_at_complete :
      {e : EdgeRow} (id : Uuid)
      → Memᴰ e edges
      → near direction e ≡ id
      → Memᴰ e (edges_at direction id edges)
  edges_at_complete {e} id there h =
      Memᴰ-select (λ (x : EdgeRow). near direction x == id) there
        ((==_iff (near direction e) id).1 h)

  join_edges_sound :
      {e : EdgeRow} (level : List EdgeRow)
      → Memᴰ e (join_edges direction edges level)
      → (l : EdgeRow) × Memᴰ l level × Memᴰ e edges × (near direction e ≡ far direction l)
  unfolding join_edges
  join_edges_sound [] m = absurd (Memᴰ.not-nil m)
  join_edges_sound (l ∷ level) m =
      elim (Memᴰ.append_cases (edges_at direction (far direction l) edges) m) [
        | inl here ↦
            let (there, h) = edges_at_sound (far direction l) here in (l, Memᴰ.head refl, there, h)
        | inr later ↦
            let (k, m', there, h) = join_edges_sound level later in (k, Memᴰ.tail m', there, h)
      ]

  join_edges_complete :
      {e l : EdgeRow} {level : List EdgeRow}
      → Memᴰ l level
      → Memᴰ e edges
      → near direction e ≡ far direction l
      → Memᴰ e (join_edges direction edges level)
  unfolding join_edges
  join_edges_complete (Memᴰ.head {x} same) there h =
      Memᴰ.append_left _ (edges_at_complete (far direction x) there (h ∙ ap (far direction) same))
  join_edges_complete (Memᴰ.tail {x} m) there h =
      Memᴰ.append_right (edges_at direction (far direction x) edges) (join_edges_complete m there h)

  module _ (root : Uuid) where
    pub lineage_rows_sound :
        {e : EdgeRow} (rounds depth : ℕ) (level : List EdgeRow)
        → ((l : EdgeRow) → Memᴰ l level → Walk direction edges root depth l)
        → Memᴰ e (lineage_rows rounds direction edges level)
        → (n : ℕ) × (n ≤ depth + rounds) × Walk direction edges root n e
    unfolding lineage_rows
    lineage_rows_sound {e} zero depth level walks m = (depth, omega arith, walks e m)
    lineage_rows_sound {e} (suc rounds) depth level walks m = elim (Memᴰ.append_cases level m) [
      | inl here ↦ (depth, omega arith, walks e here)
      | inr later ↦
          let (n, bound, walk) =
            lineage_rows_sound rounds (suc depth) (join_edges direction edges level)
              (λ k there.
                let (l, m', t, h) = join_edges_sound level there in onward refl (walks l m') t h)
              later in
          (n, omega (arith, bound), walk)
    ]

    pub Walk-positive : {n : ℕ} {e : EdgeRow} → Walk direction edges root n e → 1 ≤ n
    Walk-positive (first h there at) = omega (arith, h)
    Walk-positive (onward h w there at) = omega (arith, h)

    Walk-last :
        {n : ℕ} {e : EdgeRow} (m : ℕ)
        → n ≡ suc (suc m)
        → Walk direction edges root n e
        → (l : EdgeRow) × Walk direction edges root (suc m) l
          × Memᴰ e edges
          × (near direction e ≡ far direction l)
    Walk-last m h (first one there at) = absurd (omega (arith, h, one))
    Walk-last m h (onward {m = k} {l} more w there at) =
        let same : k ≡ suc m = omega (arith, h, more) in
        (l, subst (λ j. Walk direction edges root j l) same w, there, at)

    pub lineage_rows_complete :
        {e : EdgeRow} {n : ℕ} (rounds depth : ℕ) (level : List EdgeRow)
        → ((l : EdgeRow) → Walk direction edges root (suc depth) l → Memᴰ l level)
        → suc depth ≤ n
        → n ≤ suc depth + rounds
        → Walk direction edges root n e
        → Memᴰ e (lineage_rows rounds direction edges level)
    unfolding lineage_rows
    lineage_rows_complete {e} {n} zero depth level walks low high w =
        walks e (subst (λ j. Walk direction edges root j e) (omega (arith, low, high)) w)
    lineage_rows_complete {e} {n} (suc rounds) depth level walks low high w =
        elim (Bool-cases (n == suc depth)) [
          | inl same ↦ Memᴰ.append_left _ (
              walks e
                (subst (λ j. Walk direction edges root j e) ((==_iff n (suc depth)).0 same) w))
          | inr deeper ↦ Memᴰ.append_right level (
              lineage_rows_complete rounds (suc depth) (join_edges direction edges level)
                (λ k v.
                  let (l, u, there, at) = Walk-last depth refl v in
                  join_edges_complete (walks l u) there at)
                (ground (arith, low, deeper)) (omega (arith, high)) w)
        ]

    pub Walk-first :
        {n : ℕ} {e : EdgeRow}
        → n ≡ 1
        → Walk direction edges root n e
        → Memᴰ e edges × (near direction e ≡ root)
    Walk-first h (first one there at) = (there, at)
    Walk-first h (onward more w there at) = absurd (omega (arith, h, more, Walk-positive w))
