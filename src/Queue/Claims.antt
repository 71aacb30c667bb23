-- ===== src/Queue/Claims.antt =====
-- What a claim takes, and that no two claims take the same run.
use flow_speckit.Prelude.{
  ◌≤◌, ◌≡◌, refl, sym, ap, ◌∙◌, subst, ◌≢◌, ◌⊎◌, inl, inr, true, Option, none, some, some-injective,
  List, [], ◌∷◌, arith, ◌==◌, ==_iff, Option-cases, Bool-disjoint, All, All-map, select,
  delete_where, update_where, All-select, All-of_select, All-update_where, All-anything,
  delete_where-update_where, All-select_of, Text, order_by, order_by-least, All-order_by, All-head,
}
use flow_speckit.Base.{Uuid, Instant}
use flow_speckit.Storage.{QueueRow, Db}
use flow_speckit.Queue.{is_claimable, next_claimable, claim_row, claim_one}

abbrev available : QueueRow → Instant
available q = q.available_at

-- The row that a claim takes can be claimed, and no other one that can is due before it.
next_claimable-least :
    (db : Db) (q : QueueRow)
    → next_claimable db ≡ some q
    → (is_claimable db.clock q ≡ true)
      × All (λ x. is_claimable db.clock x ≡ true → q.available_at ≤ x.available_at) db.task_queue
unfolding next_claimable
next_claimable-least db q h = (
  All-head (λ x. is_claimable db.clock x ≡ true)
      (order_by available (select (is_claimable db.clock) db.task_queue))
      (All-order_by available (λ x. is_claimable db.clock x ≡ true)
        (select (is_claimable db.clock) db.task_queue)
        (All-select (is_claimable db.clock) db.task_queue))
      h,
  All-of_select (λ x. q.available_at ≤ x.available_at) (is_claimable db.clock) db.task_queue
      (order_by-least available (select (is_claimable db.clock) db.task_queue) q h),
)

-- What holds of every row holds of the row that a claim takes.
next_claimable-All :
    (P : QueueRow → Type 0) (db : Db) (q : QueueRow)
    → next_claimable db ≡ some q
    → All P db.task_queue
    → P q
unfolding next_claimable
next_claimable-All P db q h all =
    All-head P (order_by available (select (is_claimable db.clock) db.task_queue))
      (All-order_by available P (select (is_claimable db.clock) db.task_queue)
        (All-select_of P (is_claimable db.clock) db.task_queue all))
      h

-- Every row of the run is claimed.
abbrev pub IsHeld : Uuid → Db → Type 0
IsHeld r db = All (λ x. (x.run_id == r) ≡ true → x.claimed_by ≢ none) db.task_queue

-- `r` was claimed by `w` in the step from `db` to `after`.
pub record Claimed (w : Text) (db : Db) (r : Uuid) (after : Db) : Type 0 where
  pub row : QueueRow
  pub of_run : row.run_id ≡ r
  pub unclaimed : row.claimed_by ≡ none
  pub due : row.available_at ≤ db.clock
  pub least :
      All (λ x. is_claimable db.clock x ≡ true → row.available_at ≤ x.available_at) db.task_queue
  pub taken : All (λ x. (x.run_id == r) ≡ true → x.claimed_by ≡ some w) after.task_queue
  pub others :
      delete_where (λ x. x.run_id == r) after.task_queue
      ≡ delete_where (λ x. x.run_id == r) db.task_queue

unclaimed_of_claimable :
    (now : Instant) (q : QueueRow)
    → is_claimable now q ≡ true
    → (q.claimed_by ≡ none) × (q.available_at ≤ now)
unfolding is_claimable
unclaimed_of_claimable now q h = ground arith

-- The queue after the row `q` was claimed.
abbrev claim_after : Text → Db → QueueRow → Db
claim_after w db q = record db {
  task_queue = update_where (λ x. x.run_id == q.run_id) (claim_row w db.clock) db.task_queue;
}

claim_after-Claimed :
    (w : Text) (db : Db) (q : QueueRow)
    → next_claimable db ≡ some q
    → Claimed w db q.run_id (claim_after w db q)
claim_after-Claimed w db q found =
    let (claimable, least) = next_claimable-least db q found in
    record {
      row = q;
      of_run = refl;
      unclaimed = (unclaimed_of_claimable db.clock q claimable).0;
      due = (unclaimed_of_claimable db.clock q claimable).1;
      least = least;
      taken =
          All-update_where (λ _. Unit {0})
            (λ (x : QueueRow). (x.run_id == q.run_id) ≡ true → x.claimed_by ≡ some w)
            (λ x. x.run_id == q.run_id) (claim_row w db.clock) db.task_queue (λ x hit _ _. refl)
            (λ x miss _ hit. Bool-disjoint hit miss) (All-anything db.task_queue);
      others =
          delete_where-update_where (λ (x : QueueRow). x.run_id == q.run_id) (claim_row w db.clock)
            db.task_queue (λ x. refl);
    }

-- The two ways in which a claim ends.
claim_one-cases :
    (w : Text) (db : Db)
    → ((next_claimable db ≡ none) × (claim_one w db ≡ (none, db)))
      ⊎ ((q : QueueRow) × (next_claimable db ≡ some q)
          × (claim_one w db ≡ (some q.run_id, claim_after w db q)))
unfolding claim_one
claim_one-cases w db = elim (Option-cases (next_claimable db)) [
  | inl nothing ↦ inl (nothing, rw (nothing, claim_one))
  | inr (q, found) ↦ inr (q, found, rw (found, claim_one))
]

-- A claim takes a run whose row was unclaimed, due and of the earliest instant among the
-- claimable ones, marks every row of that run as held by the worker, and leaves the other rows
-- alone.
pub claim_one-Claimed :
    (w : Text) (db : Db) (r : Uuid)
    → (claim_one w db).0 ≡ some r
    → Claimed w db r (claim_one w db).1
claim_one-Claimed w db r h = elim (claim_one-cases w db) [
  | inl (nothing, e) ↦ absurd (cc (h, ap (λ (t : Option Uuid × Db). t.0) e))
  | inr (q, found, e) ↦
      let same : q.run_id ≡ r =
        some-injective _ _ (sym (ap (λ (t : Option Uuid × Db). t.0) e) ∙ h) in
      subst (λ k. Claimed w db k (claim_one w db).1) same (rw e (claim_after-Claimed w db q found))
]

IsHeld-claim_one : (w : Text) (db : Db) (r : Uuid) → IsHeld r db → IsHeld r (claim_one w db).1
IsHeld-claim_one w db r held = elim (claim_one-cases w db) [
  | inl (nothing, e) ↦ rw e held
  | inr (q, found, e) ↦ rw e (
      All-update_where (λ (x : QueueRow). (x.run_id == r) ≡ true → x.claimed_by ≢ none)
        (λ x. (x.run_id == r) ≡ true → x.claimed_by ≢ none) (λ x. x.run_id == q.run_id)
        (claim_row w db.clock) db.task_queue (λ x hit h _ c. cc c) (λ x miss h. h) held)
]

-- A run whose rows are all claimed is not claimed again.
not-claim-IsHeld : (w : Text) (db : Db) (r : Uuid) → IsHeld r db → (claim_one w db).0 ≢ some r
not-claim-IsHeld w db r held h = elim (claim_one-cases w db) [
  | inl (nothing, e) ↦ cc (h, ap (λ (t : Option Uuid × Db). t.0) e)
  | inr (q, found, e) ↦
      let same : q.run_id ≡ r =
        some-injective _ _ (sym (ap (λ (t : Option Uuid × Db). t.0) e) ∙ h) in
      next_claimable-All (λ (x : QueueRow). (x.run_id == r) ≡ true → x.claimed_by ≢ none) db q found
        held ((==_iff q.run_id r).1 same)
        (unclaimed_of_claimable db.clock q (next_claimable-least db q found).0).0
]

-- The runs that the workers of a list claim, one claim each, in turn.
abbrev pub claim_all : List Text → Db → List (Option Uuid)
claim_all [] db = []
claim_all (w ∷ ws) db = (claim_one w db).0 ∷ claim_all ws (claim_one w db).1

-- A claimed run occurs once in the list.
abbrev pub IsDistinct : List (Option Uuid) → Type 0
IsDistinct [] = Unit
IsDistinct (o ∷ os) = ((r : Uuid) → o ≡ some r → All (λ p. p ≢ some r) os) × IsDistinct os

claim_all-avoids :
    (ws : List Text) (db : Db) (r : Uuid) → IsHeld r db → All (λ p. p ≢ some r) (claim_all ws db)
claim_all-avoids [] db r held = tt
claim_all-avoids (w ∷ ws) db r held = (
  not-claim-IsHeld w db r held,
  claim_all-avoids ws (claim_one w db).1 r (IsHeld-claim_one w db r held),
)

IsHeld-claimed :
    (w : Text) (db : Db) (r : Uuid) → (claim_one w db).0 ≡ some r → IsHeld r (claim_one w db).1
IsHeld-claimed w db r h =
    All-map (claim_one w db).1.task_queue (λ x taken hit c. cc (taken hit, c))
      (claim_one-Claimed w db r h).taken

-- Of workers that claim one after the other, without a release or a wake between, no two get the
-- same run.
pub claim_all-IsDistinct : (ws : List Text) (db : Db) → IsDistinct (claim_all ws db)
claim_all-IsDistinct [] db = tt
claim_all-IsDistinct (w ∷ ws) db = (
  λ r h. claim_all-avoids ws (claim_one w db).1 r (IsHeld-claimed w db r h),
  claim_all-IsDistinct ws (claim_one w db).1,
)
