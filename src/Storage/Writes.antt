-- ===== src/Storage/Writes.antt =====
-- What the program may do to the tables of events and of timers: append an event by
-- `EventLog.append`, insert a timer under a new id, delete timers, or a sequence of such and of
-- statements on other tables. An update or a deletion of an event is none of them.
pub mod Statements
pub mod Growing
pub mod Arming
use flow_speckit.Prelude.{◌≤◌, ◌≡◌, refl, Bool, arith, delete_where, Text}
use flow_speckit.Base.{Uuid, TimerKind, Instant}
use flow_speckit.Events.{WorkflowEvent}
use flow_speckit.Errors.{Outcome, ok, raised, suspended, cancelled_run, crashed}
use flow_speckit.Action.{Action, continue, ◌>>=◌}
use flow_speckit.Storage.{Db, insert_timer, TimerRow}
use flow_speckit.Storage.Log.{append}

-- The events and the timers are the same; new ids may have been taken.
pub record Untouched (a b : Db) : Type 0 where
  pub events : b.workflow_events ≡ a.workflow_events
  pub timers : b.timers ≡ a.timers
  pub fresh : a.fresh ≤ b.fresh

pub data Writes : Db → Db → Type 0 where
  untouched : {a b : Db} → Untouched a b → Writes a b
  appended :
      {a b : Db} (run_id : Uuid) (e : WorkflowEvent)
      → Untouched (append run_id e a).0 b
      → Writes a b
  armed :
      {a b : Db} (run_id : Uuid) (kind : TimerKind) (key : Text) (fire_at : Instant)
      → Untouched (insert_timer run_id kind key fire_at a) b
      → Writes a b
  disarmed :
      {a b : Db} (p : TimerRow → Bool)
      → Untouched (record a { timers = delete_where p a.timers }) b
      → Writes a b
  followed : {a b c : Db} → Writes a b → Writes b c → Writes a c

pub Untouched-refl : (db : Db) → Untouched db db
Untouched-refl db = record { events = refl; timers = refl; fresh = omega arith }

pub Writes-refl : (db : Db) → Writes db db
Writes-refl db = untouched (Untouched-refl db)

pub Writes-append : (run_id : Uuid) (e : WorkflowEvent) (db : Db) → Writes db (append run_id e db).0
Writes-append run_id e db = appended run_id e (Untouched-refl _)

-- An action that does no more to the event table than that, however it ends.
abbrev pub Logs : {S A : Type 0} → (S → Db) → Action S A → Type 0
Logs {S} db_of m = (s : S) → Writes (db_of s) (db_of (m s).1)

module _ {S A B : Type 0} (db_of : S → Db) where
  continue-Logs :
      (o : Outcome A) (f : A → Action S B) (s : S)
      → ((a : A) → Logs db_of (f a))
      → Writes (db_of s) (db_of (continue o f s).1)
  continue-Logs (ok a) f s h = h a s
  continue-Logs (raised e) f s h = Writes-refl _
  continue-Logs (suspended r) f s h = Writes-refl _
  continue-Logs (cancelled_run k) f s h = Writes-refl _
  continue-Logs crashed f s h = Writes-refl _

  pub >>=-Logs :
      (m : Action S A) (f : A → Action S B)
      → Logs db_of m
      → ((a : A) → Logs db_of (f a))
      → Logs db_of (m >>= f)
  unfolding ◌>>=◌
  >>=-Logs m f h k s = followed (h s) (continue-Logs (m s).0 f (m s).1 k)
