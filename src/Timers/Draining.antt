-- ===== src/Timers/Draining.antt =====
-- A tick that succeeds leaves none of the timers that were due.
use flow_speckit.Prelude.{
  ℕ, ◌<◌, ◌≡◌, refl, ap, ◌∙◌, subst, Bool, true, false, List, [], ◌∷◌, arith, leb, ◌==◌, All,
  All-map, delete_where-gone, All-select_of, Text, All-order_by,
}
use flow_speckit.Storage.{Db, TimerRow, notify_run, delete_timer, empty_db}
use flow_speckit.Errors.{Outcome, ok}
use flow_speckit.Timers.{fire_timer, fire_sleep, fire_each, fire_due_timers, due_timers, fire_retry}
use flow_speckit.Base.{Uuid, TimerKind}
use flow_speckit.Storage.Writes.Arming.{
  has_timer, IsFresh, Writes-IsFresh, Writes-gone, Writes-fresh,
}
use flow_speckit.Storage.Writes.{Writes}
use flow_speckit.History.Steps.{Reach, Reach-Writes}
use flow_speckit.Action.{Action, modify, ◌>>◌}
use flow_speckit.Action.Post.{>>=-eq-ok}
use flow_speckit.History.Waking.{fire_timer-Logs, fire_each-Logs}
use flow_speckit.Gates.{handle_gate_timeout}

Writes-of :
    {A : Type 0} {a b : Db} {o : Outcome A} {p : Outcome A × Db}
    → p ≡ (o, b)
    → Writes a p.1
    → Writes a b
Writes-of {A} {a} h w = subst (λ (p : Outcome A × Db). Writes a p.1) h w

has_timer-delete_timer :
    (timer_id : Uuid) (db : Db) → has_timer timer_id (delete_timer timer_id db) ≡ false
unfolding has_timer delete_timer
has_timer-delete_timer timer_id db = delete_where-gone (λ t. t.timer_id == timer_id) db.timers

has_timer-notify_run :
    (notify : Bool) (run_id timer_id : Uuid) (db : Db)
    → has_timer timer_id (notify_run notify run_id db) ≡ has_timer timer_id db
unfolding has_timer notify_run
has_timer-notify_run true run_id timer_id db = refl
has_timer-notify_run false run_id timer_id db = refl

fire_retry-gone :
    (notify : Bool) (row : TimerRow) (db : Db)
    → has_timer row.timer_id (fire_retry notify row db) ≡ false
unfolding fire_retry
fire_retry-gone notify row db =
    has_timer-notify_run notify row.run_id row.timer_id _ ∙ has_timer-delete_timer row.timer_id _

fire_sleep-gone :
    (notify : Bool) (row : TimerRow) (db : Db)
    → has_timer row.timer_id (fire_sleep notify row db) ≡ false
unfolding fire_sleep
fire_sleep-gone notify row db =
    has_timer-notify_run notify row.run_id row.timer_id _ ∙ has_timer-delete_timer row.timer_id _

-- After a kind of firing that ended, the timer is gone.
fire_kind-gone :
    (child_run_id : Uuid → Text → Uuid) (notify : Bool) (row : TimerRow) (kind : TimerKind)
    (db db1 : Db)
    → (elim kind as (λ _. Action Db (Unit {0})) [
      | TimerKind.sleep ↦ modify (fire_sleep notify row)
      | TimerKind.retry ↦ modify (fire_retry notify row)
      | TimerKind.gate_timeout ↦
          handle_gate_timeout child_run_id notify row.run_id row.step_key
          >> modify (delete_timer row.timer_id)
    ])
        db
      ≡ (ok tt, db1)
    → has_timer row.timer_id db1 ≡ false
fire_kind-gone child_run_id notify row TimerKind.sleep db db1 h =
    rw (← ap (λ (p : Outcome (Unit {0}) × Db). p.1) h) (fire_sleep-gone notify row db)
fire_kind-gone child_run_id notify row TimerKind.retry db db1 h =
    rw (← ap (λ (p : Outcome (Unit {0}) × Db). p.1) h) (fire_retry-gone notify row db)
fire_kind-gone child_run_id notify row TimerKind.gate_timeout db db1 h =
    let (_, db2, _, rest) =
      >>=-eq-ok (handle_gate_timeout child_run_id notify row.run_id row.step_key)
        (λ _. modify (delete_timer row.timer_id)) db h in
    rw (← ap (λ (p : Outcome (Unit {0}) × Db). p.1) rest) (has_timer-delete_timer row.timer_id db2)

fire_timer-gone :
    (child_run_id : Uuid → Text → Uuid) (notify : Bool) (row : TimerRow) (db db1 : Db)
    → fire_timer child_run_id notify row db ≡ (ok tt, db1)
    → has_timer row.timer_id db1 ≡ false
unfolding fire_timer
fire_timer-gone child_run_id notify row db db1 h =
    fire_kind-gone child_run_id notify row row.kind db db1 h

fire_each-gone :
    (child_run_id : Uuid → Text → Uuid) (notify : Bool) (rows : List TimerRow) (db db1 : Db)
    → All (λ t. t.timer_id < db.fresh) rows
    → fire_each child_run_id notify rows db ≡ (ok tt, db1)
    → All (λ t. has_timer t.timer_id db1 ≡ false) rows
unfolding fire_each
fire_each-gone child_run_id notify [] db db1 lt h = tt
fire_each-gone child_run_id notify (row ∷ rows) db db1 lt h =
    let (_, db2, first, rest) =
      >>=-eq-ok (fire_timer child_run_id notify row) (λ _. fire_each child_run_id notify rows) db
        h in
    let wrote : Writes db db2 = Writes-of first (fire_timer-Logs child_run_id notify row db) in
    let wrote' : Writes db2 db1 = Writes-of rest (fire_each-Logs child_run_id notify rows db2) in
    (
      Writes-gone row.timer_id wrote' (omega (arith, lt.0, Writes-fresh wrote))
          (fire_timer-gone child_run_id notify row db db2 first),
      fire_each-gone child_run_id notify rows db2 db1
          (All-map rows (λ t below. omega (arith, below, Writes-fresh wrote)) lt.1) rest,
    )

due_timers-IsFresh : (db : Db) → IsFresh db → All (λ t. t.timer_id < db.fresh) (due_timers db)
unfolding due_timers
due_timers-IsFresh db f =
    All-order_by (λ (t : TimerRow). t.fire_at) (λ t. t.timer_id < db.fresh) _
      (All-select_of (λ t. t.timer_id < db.fresh) (λ t. leb t.fire_at db.clock) db.timers f.below)

-- In a database that the operations of the program lead to from the empty one, after a firing of
-- the due timers that succeeded none of the timers that were due is there any longer.
pub fire_due_timers-gone :
    (child_run_id : Uuid → Text → Uuid) (notify : Bool) {n : ℕ} (db db1 : Db)
    → Reach empty_db db
    → fire_due_timers child_run_id notify db ≡ (ok n, db1)
    → All (λ t. has_timer t.timer_id db1 ≡ false) (due_timers db)
unfolding fire_due_timers
fire_due_timers-gone child_run_id notify db db1 r h =
    let f : IsFresh db = Writes-IsFresh (Reach-Writes r) (record { below = tt }) in
    let (_, db2, fired, rest) = >>=-eq-ok (fire_each child_run_id notify (due_timers db)) _ db h in
    rw (← ap (λ (p : Outcome ℕ × Db). p.1) rest)
      (fire_each-gone child_run_id notify (due_timers db) db db2 (due_timers-IsFresh db f) fired)
