-- ===== src/Queue/Reaping.antt =====
-- The reaper takes the claims of dead workers back, and only those.
use flow_speckit.Prelude.{
  ℕ, ◌+◌, ◌≤◌, ◌≡◌, refl, ◌≢◌, inl, inr, Bool, true, ◌&&◌, none, some, List, [], ◌∷◌, arith, ◌==◌,
  Option-cases, select, update_where, exists_where, exists_where-update_where, select-exists, Text,
  empty-order_by,
}
use flow_speckit.Base.{Uuid, Instant}
use flow_speckit.Storage.{QueueRow, Db}
use flow_speckit.Queue.{
  is_claimable, next_claimable, claim_one, heartbeat, is_stale, reap_row, reap_stale, is_claimed_by,
}

stale_claimable :
    (now : Instant) (n : ℕ) (q : QueueRow)
    → is_stale now n q ≡ true
    → is_claimable now (reap_row now q) ≡ true
unfolding is_claimable
stale_claimable now n q h = ground arith

next_claimable-exists :
    (db : Db) → exists_where (is_claimable db.clock) db.task_queue ≡ true → next_claimable db ≢ none
unfolding next_claimable
next_claimable-exists db there nothing = select-exists (is_claimable db.clock) db.task_queue there (
    empty-order_by (λ (q : QueueRow). q.available_at) (select (is_claimable db.clock) db.task_queue)
      nothing)

claim_one-some : (w : Text) (db : Db) → next_claimable db ≢ none → (claim_one w db).0 ≢ none
unfolding claim_one
claim_one-some w db h = elim (Option-cases (next_claimable db)) [
  | inl nothing ↦ absurd (h nothing)
  | inr (q, found) ↦ rw (found, claim_one) (λ e. cc e)
]

-- After a reaping that cleared a claim, the next worker that claims gets a run.
pub claim-reap_stale :
    (n : ℕ) (w : Text) (db : Db)
    → (reap_stale n db).0 ≢ 0
    → (claim_one w (reap_stale n db).1).0 ≢ none
unfolding reap_stale
claim-reap_stale n w db some_reaped = claim_one-some w (reap_stale n db).1 (
    next_claimable-exists (reap_stale n db).1 (
      exists_where-update_where (is_stale db.clock n) (is_claimable db.clock) (reap_row db.clock)
        db.task_queue (stale_claimable db.clock n) some_reaped))

abbrev pub is_claim_of : Uuid → Text → QueueRow → Bool
is_claim_of r w q = (q.run_id == r) && is_claimed_by w q

reap-keeps :
    (r : Uuid) (w : Text) (beat now : Instant) (n : ℕ) (rows : List QueueRow)
    → now ≤ beat + n
    → select (is_claim_of r w) (
        update_where
          (is_stale now n)
          (reap_row now)
          (update_where (is_claim_of r w) (λ q. record q { heartbeat_at = some beat }) rows))
      ≡ select
          (is_claim_of r w)
          (update_where (is_claim_of r w) (λ q. record q { heartbeat_at = some beat }) rows)
unfolding select update_where is_stale
reap-keeps r w beat now n [] le = refl
reap-keeps r w beat now n (q ∷ rows) le = ground (arith, reap-keeps r w beat now n rows le)

-- A claim with a heartbeat is not reaped while no more than the allowed time has passed since
-- then.
heartbeat_protects :
    (r : Uuid) (w : Text) (n : ℕ) (now : Instant) (db : Db)
    → now ≤ db.clock + n
    → let beaten = (heartbeat r w db).1 in
      select (is_claim_of r w) (reap_stale n (record beaten { clock = now })).1.task_queue
      ≡ select (is_claim_of r w) beaten.task_queue
unfolding heartbeat reap_stale
heartbeat_protects r w n now db le = reap-keeps r w db.clock now n db.task_queue le
