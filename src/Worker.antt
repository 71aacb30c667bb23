-- ===== src/Worker.antt =====
-- workflows/worker.py: one turn of a worker's claim loop, and one tick of the scheduler. The tasks
-- and their waiting are asyncio's.
pub mod Releasing
use flow_speckit.Prelude.{ℕ, zero, suc, Bool, true, false, Option, none, some, if◌then◌else◌, Text}
use flow_speckit.Base.{Uuid, is_terminal}
use flow_speckit.Errors.{Outcome, ok, raised, suspended, cancelled_run, crashed}
use flow_speckit.Storage.{Db}
use flow_speckit.Queue.{claim_one, release, reap_stale}
use flow_speckit.Timers.{fire_due_timers}
use flow_speckit.Action.{Action, pure, ◌>>=◌}
use flow_speckit.Context.{Env}
use flow_speckit.Engine.Execute.{World, RunOutcome, execute_run}

-- `release_row`: a terminal outcome, or an exception.
abbrev pub releases_row : Outcome RunOutcome → Bool
releases_row (ok o) = is_terminal o.status
releases_row (raised e) = true
releases_row _ = false

-- An ordinary exception is logged and the loop goes on; a crash takes the worker with it.
abbrev pub survives : Outcome RunOutcome → Bool
survives (ok o) = true
survives (raised e) = true
survives _ = false

-- The claim-scoped release after the pass.
unfoldable pub release_claim : Text → Uuid → Outcome RunOutcome → World → World
release_claim worker_id run_id o w =
    if releases_row o then record w { db = (release run_id (some worker_id) w.db).1 } else w

-- `_execute_claimed`: whether the worker lives, and the world it leaves. The heartbeats that it
-- sends meanwhile are transactions of their own.
unfoldable pub execute_claimed : Env → Text → Uuid → World → Bool × World
unfolding release_claim execute_run
execute_claimed env worker_id run_id w =
    let (o, w1) = execute_run env run_id w in (survives o, release_claim worker_id run_id o w1)

-- What one turn of `_drain` comes to.
pub data Turn : Type 0 where
  nothing_due went_on worker_died : Turn

-- The rest of a turn, after the claim.
unfoldable pub after_claim : Env → Text → Option Uuid → World → Turn × World
unfolding execute_claimed
after_claim env worker_id none w = (nothing_due, w)
after_claim env worker_id (some run_id) w =
    let (lives, w1) = execute_claimed env worker_id run_id w in
    (if lives then went_on else worker_died, w1)

-- One turn of the loop of `_drain`.
unfoldable pub drain_turn : Env → Text → World → Turn × World
unfolding after_claim
drain_turn env worker_id w =
    let (claimed, db) = claim_one worker_id w.db in
    after_claim env worker_id claimed (record w { db = db })

abbrev pub stops : Turn → Bool
stops went_on = false
stops _ = true

-- `_drain`, for at most `rounds` turns: the queue may be refilled for ever by other sessions.
unfoldable pub drain : ℕ → Env → Text → World → Turn × World
unfolding drain_turn
drain zero env worker_id w = (went_on, w)
drain (suc rounds) env worker_id w =
    let (turn, w1) = drain_turn env worker_id w in
    let rest = drain rounds env worker_id w1 in if stops turn then (turn, w1) else rest

-- `Scheduler._tick`: how many timers fired and claims were reaped, where the lock was free.
unfoldable pub tick : (Uuid → Text → Uuid) → Bool → ℕ → Bool → Action Db (Option (ℕ × ℕ))
tick child_run_id notify reap_after false = pure none
tick child_run_id notify reap_after true = do
  fired ← fire_due_timers child_run_id notify
  reaped ← (λ db. let (n, db1) = reap_stale reap_after db in (ok n, db1))
  pure (some (fired, reaped))
