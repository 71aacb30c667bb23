-- ===== src/Storage.antt =====
-- storage/schema.py: the tables of the one database, and the statements that more than one part
-- of the program issues. Each function is one committed transaction, or one read.
pub mod Log
pub mod Recording
pub mod Writes
use flow_speckit.Prelude.{
  ℕ, ◌+◌, Bool, true, false, ◌&&◌, Option, none, List, [], ◌∷◌, ◌++◌, ◌==◌, if◌then◌else◌,
  delete_where, update_where, exists_where, first_where, Text, text_eq,
}
use flow_speckit.Json.{Json}
use flow_speckit.Base.{
  Uuid, Instant, RunStatus, pending, running, waiting_gate, waiting_timer, completed, failed,
  cancelled, TimerKind, Status, Relation,
}
use flow_speckit.Errors.{Exception}
use flow_speckit.Events.{WorkflowEvent}

pub record EventRow : Type 0 where
  pub run_id : Uuid
  pub seq : ℕ
  pub event : WorkflowEvent

pub record RunRow : Type 0 where
  pub run_id : Uuid
  pub workflow_name : Text
  pub workflow_version : Text
  pub status : RunStatus
  pub current_step : Option Text
  pub input : Json
  pub output_ref : Option Uuid
  pub error : Option Exception
  pub parent_run_id : Option Uuid
  pub created_at : Instant
  pub updated_at : Instant

pub record QueueRow : Type 0 where
  pub run_id : Uuid
  pub available_at : Instant
  pub claimed_by : Option Text
  pub heartbeat_at : Option Instant
  pub attempts : ℕ

pub record TimerRow : Type 0 where
  pub timer_id : Uuid
  pub run_id : Uuid
  pub step_key : Text
  pub fire_at : Instant
  pub kind : TimerKind

pub record ArtifactRow : Type 0 where
  pub id : Uuid
  pub type_name : Text
  pub key : Text
  pub version : ℕ
  pub content : Json
  pub content_hash : Text
  pub body_md : Option Text
  pub status : Status
  pub schema_version : ℕ
  pub created_by_run : Option Uuid
  pub created_by_step : Option Text
  pub created_at : Instant

pub record EdgeRow : Type 0 where
  pub from_id : Uuid
  pub to_id : Uuid
  pub relation : Relation

-- `clock` is the database's `now()`, `fresh` the next value of `uuid4`, `woken` what `notify` was
-- awaited with, the latest last.
pub record Db : Type 0 where
  pub workflow_events : List EventRow
  pub workflow_runs : List RunRow
  pub task_queue : List QueueRow
  pub timers : List TimerRow
  pub artifacts : List ArtifactRow
  pub artifact_edges : List EdgeRow
  pub clock : Instant
  pub fresh : Uuid
  pub woken : List Uuid

abbrev pub empty_db : Db
empty_db = record {
  workflow_events = [];
  workflow_runs = [];
  task_queue = [];
  timers = [];
  artifacts = [];
  artifact_edges = [];
  clock = 0;
  fresh = 0;
  woken = [];
}

-- `SELECT … FROM workflow_runs WHERE run_id = …`.
unfoldable pub find_run : Uuid → Db → Option RunRow
find_run run_id db = first_where (λ r. r.run_id == run_id) db.workflow_runs

-- `UPDATE workflow_runs SET …, updated_at = now() WHERE run_id = …`.
unfoldable pub update_run : Uuid → (RunRow → RunRow) → Db → Db
update_run run_id f db = record db {
  workflow_runs =
      update_where (λ r. r.run_id == run_id) (λ r. record (f r) { updated_at = db.clock })
        db.workflow_runs;
}

-- `WorkflowEngine._set_status`.
unfoldable pub set_status : Uuid → RunStatus → Db → Db
unfolding update_run
set_status run_id status db = update_run run_id (λ r. record r { status = status }) db

-- `WorkflowEngine._delete_queue_row`.
unfoldable pub delete_queue_row : Uuid → Db → Db
delete_queue_row run_id db = record db {
  task_queue = delete_where (λ q. q.run_id == run_id) db.task_queue;
}

-- The claimable row of `upsert_task_queue`; a row that is there keeps its `attempts`.
abbrev pub fresh_queue_row : Uuid → Instant → QueueRow
fresh_queue_row run_id now = record {
  run_id = run_id;
  available_at = now;
  claimed_by = none;
  heartbeat_at = none;
  attempts = 0;
}

-- `timers.upsert_task_queue`: `INSERT … ON CONFLICT (run_id) DO UPDATE`.
unfoldable pub upsert_task_queue : Uuid → Db → Db
upsert_task_queue run_id db = record db {
  task_queue =
      if exists_where (λ q. q.run_id == run_id) db.task_queue
      then update_where (λ q. q.run_id == run_id)
          (λ q. record q { available_at = db.clock; claimed_by = none; heartbeat_at = none })
          db.task_queue
      else db.task_queue ++ fresh_queue_row run_id db.clock ∷ [];
}

-- `timers._delete_timer`.
unfoldable pub delete_timer : Uuid → Db → Db
delete_timer timer_id db = record db {
  timers = delete_where (λ t. t.timer_id == timer_id) db.timers;
}

-- `DELETE FROM timers WHERE run_id = …` of `_cancel_on_session`.
unfoldable pub delete_run_timers : Uuid → Db → Db
delete_run_timers run_id db = record db {
  timers = delete_where (λ t. t.run_id == run_id) db.timers;
}

-- `schema.timers.insert()`: the primary key is a new `uuid4`.
unfoldable pub insert_timer : Uuid → TimerKind → Text → Instant → Db → Db
insert_timer run_id kind step_key fire_at db = record db {
  timers =
      db.timers
      ++ record {
        timer_id = db.fresh;
        run_id = run_id;
        step_key = step_key;
        fire_at = fire_at;
        kind = kind;
      }
        ∷ [];
  fresh = db.fresh + 1;
}

abbrev pub same_kind : TimerKind → TimerKind → Bool
same_kind TimerKind.gate_timeout TimerKind.gate_timeout = true
same_kind TimerKind.sleep TimerKind.sleep = true
same_kind TimerKind.retry TimerKind.retry = true
same_kind _ _ = false

-- `_timer_exists` of the engine and of the context.
unfoldable pub timer_exists : Uuid → Text → TimerKind → Db → Bool
timer_exists run_id step_key kind db =
    exists_where
      (λ t. (t.run_id == run_id) && (text_eq t.step_key step_key && same_kind t.kind kind))
      db.timers

-- `if notify is not None: await notify(run_id)`.
unfoldable pub notify_run : Bool → Uuid → Db → Db
notify_run notify run_id db = if notify then record db { woken = db.woken ++ run_id ∷ [] } else db
