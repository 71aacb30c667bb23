-- ===== src/History/Steps.antt =====
-- The operations of the program as steps of its database: what a client, a worker, the scheduler
-- or a reviewer does, in any order, and the time that passes between.
use flow_speckit.Prelude.{ℕ, ◌+◌, ◌≡◌, refl, Bool, Option, arith, Text}
use flow_speckit.Storage.{Db}
use flow_speckit.Workflow.Registry.{WorkflowRegistry}
use flow_speckit.Storage.Writes.{Writes, Writes-refl, followed, untouched}
use flow_speckit.Queue.{heartbeat, release, claim_one}
use flow_speckit.Base.{Uuid, DecisionLiteral, Status}
use flow_speckit.History.Starting.{start_run-Logs}
use flow_speckit.Json.{Json}
use flow_speckit.Engine.Start.{start_run}
use flow_speckit.History.Executing.{execute_run-Writes, cancel_run-Logs}
use flow_speckit.History.Working.{drain_turn-Writes, claim_one-Writes, create-Logs}
use flow_speckit.Context.{Env}
use flow_speckit.Engine.Execute.{execute_run}
use flow_speckit.History.Waking.{
  resolve_gate-Logs, tick-Logs, fire_due_timers-Logs, set_artifact_status-Logs,
}
use flow_speckit.Worker.{drain_turn, tick}
use flow_speckit.Engine.Cancel.{cancel_run}
use flow_speckit.Gates.{resolve_gate}
use flow_speckit.Timers.{fire_due_timers}
use flow_speckit.Commands.{reenqueue}
use flow_speckit.Storage.Writes.Statements.{Writes-upsert_task_queue, Writes-notify_run}
use flow_speckit.Artifacts.Store.{ArtifactModel, CreateOptions, create, set_artifact_status}
use flow_speckit.Artifacts.Refs.{ParsedRef}

pub data Step (a b : Db) : Type 0 where
  started :
      (workflows : WorkflowRegistry) (notify : Bool) (name version : Text) (input : Json)
      (actor : Text) (parent given : Option Uuid)
      → b ≡ (start_run workflows notify name version input actor parent given a).1
      → Step a b
  -- a pass of a process that has started any number of side effects, crashes included
  executed :
      (env : Env) (run_id : Uuid) (effects : ℕ)
      → b ≡ (execute_run env run_id (record { db = a; effects = effects })).1.db
      → Step a b
  turned :
      (env : Env) (worker_id : Text) (effects : ℕ)
      → b ≡ (drain_turn env worker_id (record { db = a; effects = effects })).1.db
      → Step a b
  cancelled_by :
      (child_run_id : Uuid → Text → Uuid) (notify : Bool) (run_id : Uuid) (actor reason : Text)
      → b ≡ (cancel_run child_run_id notify run_id actor reason a).1
      → Step a b
  resolved :
      (notify : Bool) (run_id : Uuid) (gate_key : Text) (decision : DecisionLiteral) (actor : Text)
      (comment : Option Text)
      → b ≡ (resolve_gate notify run_id gate_key decision actor comment a).1
      → Step a b
  ticked :
      (child_run_id : Uuid → Text → Uuid) (notify : Bool) (reap_after : ℕ) (locked : Bool)
      → b ≡ (tick child_run_id notify reap_after locked a).1
      → Step a b
  -- what the commands that drive a run without a worker do besides
  fired :
      (child_run_id : Uuid → Text → Uuid) (notify : Bool)
      → b ≡ (fire_due_timers child_run_id notify a).1
      → Step a b
  reenqueued : (notify : Bool) (run_id : Uuid) → b ≡ reenqueue notify run_id a → Step a b
  claimed : (worker_id : Text) → b ≡ (claim_one worker_id a).1 → Step a b
  beat : (run_id : Uuid) (worker_id : Text) → b ≡ (heartbeat run_id worker_id a).1 → Step a b
  released :
      (run_id : Uuid) (worker_id : Option Text) → b ≡ (release run_id worker_id a).1 → Step a b
  created :
      (registered : Text → Bool) (canonical_hash : Json → Text) (model : ArtifactModel)
      (o : CreateOptions)
      → b ≡ (create registered canonical_hash model o a).1
      → Step a b
  restated :
      (ref : ParsedRef) (status : Status) → b ≡ (set_artifact_status ref status a).1 → Step a b
  waited : (ticks : ℕ) → b ≡ record a { clock = a.clock + ticks } → Step a b

-- Any number of steps.
pub data Reach (a : Db) : Db → Type 0 where
  here : Reach a a
  next : {b c : Db} → Reach a b → Step b c → Reach a c

Writes-eq : {a b c : Db} → b ≡ c → Writes a c → Writes a b
Writes-eq {a} e h = rw e h

heartbeat-Writes :
    (run_id : Uuid) (worker_id : Text) (db : Db) → Writes db (heartbeat run_id worker_id db).1
unfolding heartbeat
heartbeat-Writes run_id worker_id db =
    untouched (record { events = refl; timers = refl; fresh = omega arith })

release-Writes :
    (run_id : Uuid) (worker_id : Option Text) (db : Db) → Writes db (release run_id worker_id db).1
unfolding release
release-Writes run_id worker_id db =
    untouched (record { events = refl; timers = refl; fresh = omega arith })

reenqueue-Writes :
    (notify : Bool) (run_id : Uuid) (db : Db) → Writes db (reenqueue notify run_id db)
unfolding reenqueue
reenqueue-Writes notify run_id db =
    followed (Writes-upsert_task_queue run_id db) (Writes-notify_run notify run_id _)

pub Step-Writes : {a b : Db} → Step a b → Writes a b
Step-Writes {a} (started workflows notify name version input actor parent given e) =
    Writes-eq e (start_run-Logs workflows notify name version input actor parent given a)
Step-Writes (executed env run_id effects e) = Writes-eq e (execute_run-Writes env run_id _)
Step-Writes (turned env worker_id effects e) = Writes-eq e (drain_turn-Writes env worker_id _)
Step-Writes {a} (cancelled_by child_run_id notify run_id actor reason e) =
    Writes-eq e (cancel_run-Logs child_run_id notify run_id actor reason a)
Step-Writes {a} (resolved notify run_id gate_key decision actor comment e) =
    Writes-eq e (resolve_gate-Logs notify run_id gate_key decision actor comment a)
Step-Writes {a} (ticked child_run_id notify reap_after locked e) =
    Writes-eq e (tick-Logs child_run_id notify reap_after locked a)
Step-Writes {a} (fired child_run_id notify e) =
    Writes-eq e (fire_due_timers-Logs child_run_id notify a)
Step-Writes {a} (reenqueued notify run_id e) = Writes-eq e (reenqueue-Writes notify run_id a)
Step-Writes {a} (claimed worker_id e) = Writes-eq e (claim_one-Writes worker_id a)
Step-Writes {a} (beat run_id worker_id e) = Writes-eq e (heartbeat-Writes run_id worker_id a)
Step-Writes {a} (released run_id worker_id e) = Writes-eq e (release-Writes run_id worker_id a)
Step-Writes {a} (created registered canonical_hash model o e) =
    Writes-eq e (create-Logs registered canonical_hash model o a)
Step-Writes {a} (restated ref status e) = Writes-eq e (set_artifact_status-Logs ref status a)
Step-Writes (waited ticks e) =
    Writes-eq e (untouched (record { events = refl; timers = refl; fresh = omega arith }))

pub Reach-trans : {a b c : Db} → Reach a b → Reach b c → Reach a c
Reach-trans r here = r
Reach-trans r (next q s) = next (Reach-trans r q) s

pub Reach-Writes : {a b : Db} → Reach a b → Writes a b
Reach-Writes {a} here = Writes-refl a
Reach-Writes (next r s) = followed (Reach-Writes r) (Step-Writes s)
