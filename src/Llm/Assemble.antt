-- ===== src/Llm/Assemble.antt =====
-- llm/assemble.py: packing the context of a prompt from artifacts and their lineage. The budget
-- that is left is cut off at 0, where the source goes below: it only asks whether more is left.
pub mod Ending
pub mod Packing
use flow_speckit.Prelude.{
  ℕ, ◌+◌, ◌-◌, ◌/◌, max, Bool, true, false, ◌&&◌, ◌||◌, Option, none, some, List, [], ◌∷◌, ◌++◌,
  map, ltb, leb, ◌==◌, if◌then◌else◌, length, take, exists_where, Text, codes,
}
use flow_speckit.Llm.Depths.{
  depths_from_root, search_depths, visit, neighbors, depth_of, or_default, at_from, at_to, ends,
  Search,
}
use flow_speckit.Storage.{Db, EdgeRow}
use flow_speckit.Artifacts.Store.{get_row, find_artifact}
use flow_speckit.Artifacts.Refs.{address, ArtifactRef, parse_ref}
use flow_speckit.Base.{Uuid}
use flow_speckit.Artifacts.Graph.{LineageGraph, query_lineage, up}

pub data Fidelity : Type 0 where
  full summary title : Fidelity

pub record ContextChunk : Type 0 where
  pub ref_address : Text
  pub fidelity : Fidelity
  pub content : Text

pub record AssembledContext : Type 0 where
  pub primary_refs : List Text
  pub chunks : List ContextChunk
  pub total_tokens : ℕ

abbrev fidelity_text : Fidelity → Text
fidelity_text full = codes "full"
fidelity_text summary = codes "summary"
fidelity_text title = codes "title"

-- The lines of `render`, each ended by the newline that `join` puts between it and the next.
abbrev chunk_lines : ContextChunk → List Text
chunk_lines chunk =
    (codes "## Artifact: "
      ++ (chunk.ref_address
          ++ (codes " (fidelity=" ++ (fidelity_text chunk.fidelity ++ codes ")"))))
    ∷ []
    ∷ chunk.content
    ∷ []
    ∷ []

abbrev all_lines : List ContextChunk → List Text
all_lines [] = []
all_lines (chunk ∷ chunks) = chunk_lines chunk ++ all_lines chunks

-- `"\n".join(lines)`.
abbrev join_lines : List Text → Text
join_lines [] = []
join_lines (l ∷ []) = l
join_lines (l ∷ m ∷ ls) = l ++ 10 ∷ join_lines (m ∷ ls)

unfoldable pub render : AssembledContext → Text
render c = join_lines (all_lines c.chunks)

-- A lineage ancestor: its stored ref, its distance from the primary and its stored body.
pub record Ancestor : Type 0 where
  pub ref : ArtifactRef
  pub depth : ℕ
  pub body : Text

-- `_estimate_chars`: four characters to a token.
unfoldable pub estimate_chars : ℕ → ℕ
estimate_chars chars = max 1 (chars / 4)

abbrev pub total_chars : List ContextChunk → ℕ
total_chars [] = 0
total_chars (chunk ∷ chunks) = length chunk.content + total_chars chunks

-- `_estimate_tokens`.
unfoldable pub estimate_tokens : List ContextChunk → ℕ
unfolding estimate_chars
estimate_tokens chunks = estimate_chars (total_chars chunks)

-- `_SUMMARY_MAX_CHARS`.
abbrev pub summary_max_chars : ℕ
summary_max_chars = 2000

abbrev pub ancestor_address : Ancestor → Text
ancestor_address a = address a.ref.key a.ref.version

abbrev pub truncation_mark : Text
truncation_mark = codes "\n... (truncated)"

abbrev pub title_line : Ancestor → Text
title_line a = codes "# " ++ (a.ref.key ++ (codes " (ref: " ++ (ancestor_address a ++ codes ")")))

-- `_degrade`.
unfoldable pub degrade : Ancestor → ℕ → ContextChunk
unfolding estimate_chars address
degrade a remaining =
    if leb (estimate_chars (length a.body)) remaining
    then record { ref_address = ancestor_address a; fidelity = full; content = a.body }
    else if leb (estimate_chars (length (take summary_max_chars a.body))) remaining
    then record {
      ref_address = ancestor_address a;
      fidelity = summary;
      content = take summary_max_chars a.body ++ truncation_mark;
    }
    else record { ref_address = ancestor_address a; fidelity = title; content = title_line a }

-- The loop over the ancestors: the chunks, and their tokens.
unfoldable pub pack : List Ancestor → ℕ → List ContextChunk × ℕ
unfolding degrade estimate_chars
pack [] remaining = ([], 0)
pack (a ∷ ancestors) remaining =
    let chunk = degrade a remaining in
    let tokens = estimate_chars (length chunk.content) in
    let (chunks, more) = pack ancestors (remaining - tokens) in
    if remaining == 0 then ([], 0) else (chunk ∷ chunks, tokens + more)

-- `ancestors.sort(key=lambda a: (-a.depth, a.ref.created_at))`, a stable sort.
abbrev before : Ancestor → Ancestor → Bool
before a b = ltb b.depth a.depth || ((a.depth == b.depth) && leb a.ref.created_at b.ref.created_at)

insert_ancestor : Ancestor → List Ancestor → List Ancestor
insert_ancestor a [] = a ∷ []
insert_ancestor a (b ∷ bs) = if before a b then a ∷ b ∷ bs else b ∷ insert_ancestor a bs

unfoldable pub sort_ancestors : List Ancestor → List Ancestor
unfolding insert_ancestor
sort_ancestors [] = []
sort_ancestors (a ∷ ancestors) = insert_ancestor a (sort_ancestors ancestors)

-- `await self._store.get_body_md(node.id) or ""`.
abbrev body_of : Db → Uuid → Text
body_of db id = elim (find_artifact id db) [
  | none ↦ []
  | some row ↦ elim row.body_md [ none ↦ [] | some body ↦ body ]
]

abbrev is_seen : Uuid → List Uuid → Bool
is_seen id seen = exists_where (λ x. x == id) seen

-- The loop over the nodes of one graph.
unfoldable pub add_nodes :
    Db → List (Uuid × ℕ) → List ArtifactRef → List Uuid → List Ancestor × List Uuid
unfolding depth_of find_artifact
add_nodes db depths [] seen = ([], seen)
add_nodes db depths (node ∷ nodes) seen =
    let skipped = add_nodes db depths nodes seen in
    let (more, seen1) = add_nodes db depths nodes (node.id ∷ seen) in
    if is_seen node.id seen then skipped else (
      record {
        ref = node;
        depth = or_default 1 (depth_of node.id depths);
        body = body_of db node.id;
      }
          ∷ more,
      seen1,
    )

-- `_collect_ancestors`: a primary that has no row yet is skipped.
unfoldable pub collect_ancestors :
    (Text → Option Uuid) → List Text → ℕ → List Uuid → Db → List Ancestor
unfolding add_nodes depths_from_root get_row parse_ref query_lineage
collect_ancestors uuid_of [] max_depth seen db = []
collect_ancestors uuid_of (ref ∷ refs) max_depth seen db =
    let skipped = collect_ancestors uuid_of refs max_depth seen db in
    elim (get_row (parse_ref uuid_of ref) db) [
      | none ↦ skipped
      | some row ↦
          let graph = query_lineage up max_depth row.id db in
          let (found, seen1) =
            add_nodes db (depths_from_root graph) graph.nodes (graph.root ∷ seen) in
          found ++ collect_ancestors uuid_of refs max_depth seen1 db
    ]

-- A primary artifact, with the title of its model and its rendered body.
pub record Primary : Type 0 where
  pub artifact_type : Text
  pub model_title : Option Text
  pub body_md : Text

-- `title.lower().replace(" ", "-")[:60]`; `lower` is the case table of Unicode.
abbrev dashed : Text → Text
dashed [] = []
dashed (c ∷ cs) = (if c == b' ' then b'-' else c) ∷ dashed cs

unfoldable pub title_slug : (Text → Text) → Option Text → Text
title_slug lower none = codes "unnamed"
title_slug lower (some []) = codes "unnamed"
title_slug lower (some (c ∷ cs)) = take 60 (dashed (lower (c ∷ cs)))

abbrev chunk_of : Text → Primary → ContextChunk
chunk_of ref_key model = record { ref_address = ref_key; fidelity = full; content = model.body_md }

-- The loop over the primaries, which are aligned with the refs by position.
unfoldable pub primary_chunks : (Text → Text) → List Primary → List Text → List ContextChunk
unfolding title_slug
primary_chunks lower [] refs = []
primary_chunks lower (model ∷ models) (ref ∷ refs) =
    chunk_of ref model ∷ primary_chunks lower models refs
primary_chunks lower (model ∷ models) [] =
    chunk_of (model.artifact_type ++ b'/' ∷ title_slug lower model.model_title) model
    ∷ primary_chunks lower models []

-- `_MAX_DEPTH`.
abbrev pub max_depth : ℕ
max_depth = 8

abbrev pub has_refs : List Text → Bool
has_refs [] = false
has_refs (ref ∷ refs) = true

-- `assemble`, of an assembler that has a store; `lineage` is `include == "lineage"`.
unfoldable pub assemble :
    (Text → Option Uuid)
    → (Text → Text)
    → List Primary
    → List Text
    → ℕ
    → Bool
    → Db
    → AssembledContext
unfolding primary_chunks pack sort_ancestors collect_ancestors estimate_tokens
assemble uuid_of lower primary refs budget_tokens lineage db =
    let first = primary_chunks lower primary refs in
    let tokens = estimate_tokens first in
    let (chunks, more) =
      if lineage && has_refs refs
      then pack (sort_ancestors (collect_ancestors uuid_of refs max_depth [] db))
          (budget_tokens - tokens)
      else ([], 0) in
    record {
      primary_refs = map (λ (c : ContextChunk). c.ref_address) first;
      chunks = first ++ chunks;
      total_tokens = tokens + more;
    }
