-- ===== src/Llm/Assemble/Packing.antt =====
-- The packed context against its budget.
use flow_speckit.Prelude.{
  ℕ, ◌+◌, ◌-◌, ◌≤◌, max, ◌≡◌, refl, inl, inr, Bool, true, ◌&&◌, Option, List, [], ◌∷◌, ◌++◌, arith,
  leb, ◌==◌, leb→le, leb→gt, Bool-cases, length, take, length-append, All, Text,
}
use flow_speckit.Llm.Assemble.{
  pack, degrade, Ancestor, estimate_chars, title_line, summary_max_chars, truncation_mark, assemble,
  Primary, sort_ancestors, collect_ancestors, max_depth, estimate_tokens, primary_chunks, has_refs,
}
use flow_speckit.Base.{Uuid}
use flow_speckit.Storage.{Db}

-- The mark of a truncation is sixteen characters, or four tokens.
summary_bounds :
    (over remaining : ℕ) (s : Text)
    → 4 ≤ over
    → leb (estimate_chars (length s)) remaining ≡ true
    → estimate_chars (length (s ++ truncation_mark)) ≤ remaining + over
unfolding estimate_chars
summary_bounds over remaining s h fits = rw (length-append s truncation_mark) (ground (arith, fits))

-- No chunk takes more than what is left and `over`, which a title line and the mark of a truncation
-- stay within.
degrade_bounds :
    (over remaining : ℕ) (a : Ancestor)
    → 4 ≤ over
    → estimate_chars (length (title_line a)) ≤ over
    → estimate_chars (length (degrade a remaining).content) ≤ remaining + over
unfolding degrade
degrade_bounds over remaining a h t =
    elim (Bool-cases (leb (estimate_chars (length a.body)) remaining)) [
      | inl fits ↦ rw fits (omega (arith, leb→le _ _ fits))
      | inr long ↦
          rw long
            (elim (Bool-cases
              (leb (estimate_chars (length (take summary_max_chars a.body))) remaining)) [
                | inl fits ↦
                    rw fits (summary_bounds over remaining (take summary_max_chars a.body) h fits)
                | inr longer ↦ rw longer (omega (arith, t))
              ])
    ]

pack_spent : (ancestors : List Ancestor) → (pack ancestors 0).1 ≡ 0
unfolding pack
pack_spent [] = refl
pack_spent (a ∷ ancestors) = refl

pack_bounds :
    (over remaining : ℕ) (ancestors : List Ancestor)
    → 4 ≤ over
    → All (λ a. estimate_chars (length (title_line a)) ≤ over) ancestors
    → (pack ancestors remaining).1 ≤ remaining + over
unfolding pack
pack_bounds over remaining [] h t = omega arith
pack_bounds over remaining (a ∷ ancestors) h t =
    let tokens = estimate_chars (length (degrade a remaining).content) in
    elim (Bool-cases (remaining == 0)) [
      | inl spent ↦ rw spent (omega arith)
      | inr more ↦ rw more (elim (Bool-cases (leb tokens remaining)) [
        | inl fits ↦ omega (
          arith,
          leb→le tokens remaining fits,
          pack_bounds over (remaining - tokens) ancestors h t.1,
        )
        | inr exceeds ↦
            let empty : remaining - tokens ≡ 0 = omega (arith, leb→gt tokens remaining exceeds) in
            let last : (pack ancestors (remaining - tokens)).1 ≡ 0 =
              rw empty (pack_spent ancestors) in
            omega (arith, last, degrade_bounds over remaining a h t.0)
      ])
    ]

-- Where the title lines of the ancestors stay within an allowance of at least four tokens, the
-- assembled context counts no more tokens than the larger of its primary artifacts and the
-- budget, plus that allowance.
pub assemble_bounds :
    (uuid_of : Text → Option Uuid) (lower : Text → Text) (primary : List Primary) (refs : List Text)
    (budget_tokens over : ℕ) (lineage : Bool) (db : Db)
    → 4 ≤ over
    → All
        (λ a. estimate_chars (length (title_line a)) ≤ over)
        (sort_ancestors (collect_ancestors uuid_of refs max_depth [] db))
    → (assemble uuid_of lower primary refs budget_tokens lineage db).total_tokens
      ≤ max (estimate_tokens (primary_chunks lower primary refs)) budget_tokens + over
unfolding assemble
assemble_bounds uuid_of lower primary refs budget_tokens over lineage db h t =
    let tokens = estimate_tokens (primary_chunks lower primary refs) in
    let ancestors = sort_ancestors (collect_ancestors uuid_of refs max_depth [] db) in
    elim (Bool-cases (lineage && has_refs refs)) [
      | inl walked ↦
          rw walked (omega (arith, pack_bounds over (budget_tokens - tokens) ancestors h t))
      | inr alone ↦ rw alone (omega arith)
    ]
