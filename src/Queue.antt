-- ===== src/Queue.antt =====
-- workflows/queue.py: the dispatch queue over `task_queue`. Each function is one transaction; the
-- `FOR UPDATE SKIP LOCKED` of the claim is that a claim sees no half-done claim of another worker.
pub mod Claims
pub mod Releases
pub mod Reaping
use flow_speckit.Prelude.{
  ℕ, ◌+◌, Bool, true, false, ◌&&◌, Option, none, some, ltb, leb, ◌==◌, select, delete_where,
  update_where, exists_where, count_where, head?, Text, text_eq, order_by,
}
use flow_speckit.Base.{Uuid, Instant}
use flow_speckit.Storage.{QueueRow, Db}

-- `claimed_by IS NULL AND available_at <= now()`.
unfoldable pub is_claimable : Instant → QueueRow → Bool
is_claimable now q = elim q.claimed_by [ none ↦ leb q.available_at now | some _ ↦ false ]

-- The inner `SELECT … ORDER BY available_at LIMIT 1`.
unfoldable pub next_claimable : Db → Option QueueRow
unfolding is_claimable
next_claimable db =
    head? (order_by (λ q. q.available_at) (select (is_claimable db.clock) db.task_queue))

abbrev pub claim_row : Text → Instant → QueueRow → QueueRow
claim_row worker_id now q = record q {
  claimed_by = some worker_id;
  heartbeat_at = some now;
  attempts = q.attempts + 1;
}

unfoldable pub claim_one : Text → Db → Option Uuid × Db
unfolding next_claimable
claim_one worker_id db = elim (next_claimable db) [
  | none ↦ (none, db)
  | some q ↦ (
    some q.run_id,
    record db {
      task_queue =
          update_where (λ x. x.run_id == q.run_id) (claim_row worker_id db.clock) db.task_queue;
    },
  )
]

-- `claimed_by = :worker_id`.
abbrev pub is_claimed_by : Text → QueueRow → Bool
is_claimed_by worker_id q = elim q.claimed_by [ none ↦ false | some w ↦ text_eq w worker_id ]

-- Whether the claim was still this worker's, and the row with a new heartbeat.
unfoldable pub heartbeat : Uuid → Text → Db → Bool × Db
heartbeat run_id worker_id db = (
  exists_where (λ q. (q.run_id == run_id) && is_claimed_by worker_id q) db.task_queue,
  record db {
    task_queue =
        update_where (λ q. (q.run_id == run_id) && is_claimed_by worker_id q)
          (λ q. record q { heartbeat_at = some db.clock }) db.task_queue;
  },
)

-- The `WHERE` of `release`: with a worker's id only a row that it still holds.
unfoldable pub releases : Uuid → Option Text → QueueRow → Bool
releases run_id none q = q.run_id == run_id
releases run_id (some w) q = (q.run_id == run_id) && is_claimed_by w q

unfoldable pub release : Uuid → Option Text → Db → Bool × Db
unfolding releases
release run_id worker_id db = (
  exists_where (releases run_id worker_id) db.task_queue,
  record db { task_queue = delete_where (releases run_id worker_id) db.task_queue },
)

-- `claimed_by IS NOT NULL AND (heartbeat_at IS NULL OR heartbeat_at < now() - older_than)`; the
-- subtraction of the interval stands on the other side, where nothing is cut off at 0.
unfoldable pub is_stale : Instant → ℕ → QueueRow → Bool
is_stale now older_than q = elim q.claimed_by [
  | none ↦ false
  | some _ ↦ elim q.heartbeat_at [ none ↦ true | some h ↦ ltb (h + older_than) now ]
]

abbrev pub reap_row : Instant → QueueRow → QueueRow
reap_row now q = record q { claimed_by = none; heartbeat_at = none; available_at = now }

-- The number of claims that were cleared.
unfoldable pub reap_stale : ℕ → Db → ℕ × Db
unfolding is_stale
reap_stale older_than db = (
  count_where (is_stale db.clock older_than) db.task_queue,
  record db {
    task_queue = update_where (is_stale db.clock older_than) (reap_row db.clock) db.task_queue;
  },
)
