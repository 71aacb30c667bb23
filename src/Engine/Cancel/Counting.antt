-- ===== src/Engine/Cancel/Counting.antt =====
-- The live runs of a table whose run ids are unique.
use flow_speckit.Prelude.{
  ◌≤◌, ◌<◌, ◌≡◌, refl, sym, subst, inl, inr, Bool, true, false, not, some, some-injective, List, [],
  ◌∷◌, arith, ◌==◌, if◌then◌else◌, ==_iff, Bool-cases, update_where, exists_where, first_where,
  count_where,
}
use flow_speckit.Base.{Uuid, is_terminal}
use flow_speckit.Storage.{RunRow}

abbrev pub is_live : RunRow → Bool
is_live r = not (is_terminal r.status)

-- The primary key: no two rows have one run id.
abbrev pub IsUnique : List RunRow → Type 0
IsUnique [] = Unit
IsUnique (r ∷ rs) = (exists_where (λ x. x.run_id == r.run_id) rs ≡ false) × IsUnique rs

exists_where-update_where_id :
    (k : Uuid) (p : RunRow → Bool) (f : RunRow → RunRow) (rows : List RunRow)
    → ((x : RunRow) → (f x).run_id ≡ x.run_id)
    → exists_where (λ x. x.run_id == k) (update_where p f rows)
      ≡ exists_where (λ x. x.run_id == k) rows
unfolding exists_where update_where
exists_where-update_where_id k p f [] keep = refl
exists_where-update_where_id k p f (r ∷ rs) keep = elim (Bool-cases (p r)) [
  | inl hit ↦ rw (hit, keep r, exists_where-update_where_id k p f rs keep) refl
  | inr miss ↦ rw (miss, exists_where-update_where_id k p f rs keep) refl
]

update_run_id :
    (p : RunRow → Bool) (f : RunRow → RunRow) (r : RunRow)
    → (f r).run_id ≡ r.run_id
    → (if p r then f r else r).run_id ≡ r.run_id
update_run_id p f r keep = elim (Bool-cases (p r)) [
  | inl hit ↦ rw hit keep
  | inr miss ↦ rw miss refl
]

pub IsUnique-update_where :
    (p : RunRow → Bool) (f : RunRow → RunRow) (rows : List RunRow)
    → ((x : RunRow) → (f x).run_id ≡ x.run_id)
    → IsUnique rows
    → IsUnique (update_where p f rows)
unfolding update_where
IsUnique-update_where p f [] keep h = tt
IsUnique-update_where p f (r ∷ rs) keep h = (
  rw (update_run_id p f r (keep r), exists_where-update_where_id r.run_id p f rs keep) h.0,
  IsUnique-update_where p f rs keep h.1,
)

-- Rows that an update ends are live no longer.
pub count_where-ended :
    (p : RunRow → Bool) (f : RunRow → RunRow) (rows : List RunRow)
    → ((x : RunRow) → is_live (f x) ≡ false)
    → count_where is_live (update_where p f rows) ≤ count_where is_live rows
unfolding count_where update_where
count_where-ended p f [] ends = omega arith
count_where-ended p f (r ∷ rs) ends = elim (Bool-cases (p r)) [
  | inl hit ↦ rw (hit, ends r) (ground (arith, count_where-ended p f rs ends))
  | inr miss ↦ rw miss (ground (arith, count_where-ended p f rs ends))
]

pub count_where-ended_one :
    (p : RunRow → Bool) (f : RunRow → RunRow) (rows : List RunRow) (r : RunRow)
    → ((x : RunRow) → is_live (f x) ≡ false)
    → first_where p rows ≡ some r
    → is_live r ≡ true
    → count_where is_live (update_where p f rows) < count_where is_live rows
unfolding count_where update_where first_where
count_where-ended_one p f [] r ends found live = absurd (ground (arith, found))
count_where-ended_one p f (x ∷ rs) r ends found live = elim (Bool-cases (p x)) [
  | inl hit ↦
      let same : x ≡ r = some-injective _ _ (rw hit at found) in
      let x_live : is_live x ≡ true = subst (λ y. is_live y ≡ true) (sym same) live in
      rw (hit, ends x, x_live) (omega (arith, count_where-ended p f rs ends))
  | inr miss ↦
      let rest = count_where-ended_one p f rs r ends (rw miss at found) live in
      rw miss (ground (arith, rest))
]

update_where-none :
    (p : RunRow → Bool) (f : RunRow → RunRow) (rows : List RunRow)
    → exists_where p rows ≡ false
    → update_where p f rows ≡ rows
unfolding update_where exists_where
update_where-none p f [] h = refl
update_where-none p f (r ∷ rs) h = elim (Bool-cases (p r)) [
  | inl hit ↦ absurd (ground (arith, hit, h))
  | inr miss ↦ rw (miss, update_where-none p f rs (rw miss at h)) refl
]

-- The update of a run whose row is live makes no further run live.
pub count_where-of_live :
    (k : Uuid) (f : RunRow → RunRow) (rows : List RunRow) (r : RunRow)
    → IsUnique rows
    → first_where (λ x. x.run_id == k) rows ≡ some r
    → is_live r ≡ true
    → count_where is_live (update_where (λ x. x.run_id == k) f rows) ≤ count_where is_live rows
unfolding count_where update_where first_where
count_where-of_live k f [] r unique found live = absurd (ground (arith, found))
count_where-of_live k f (x ∷ rs) r unique found live = elim (Bool-cases (x.run_id == k)) [
  | inl hit ↦
      let same : x ≡ r = some-injective _ _ (rw hit at found) in
      let x_live : is_live x ≡ true = subst (λ y. is_live y ≡ true) (sym same) live in
      let alone : exists_where (λ y. y.run_id == k) rs ≡ false =
        subst (λ j. exists_where (λ y. y.run_id == j) rs ≡ false) ((==_iff x.run_id k).0 hit)
          unique.0 in
      rw (hit, x_live, update_where-none (λ y. y.run_id == k) f rs alone) (ground arith)
  | inr miss ↦
      let rest = count_where-of_live k f rs r unique.1 (rw miss at found) live in
      rw miss (ground (arith, rest))
]
