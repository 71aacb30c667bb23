-- ===== src/Lib.antt =====
-- A verification library for flow-speckit, the durable workflow engine with an artifact store
-- under packages/flow-speckit/src/flow_speckit (named without that prefix below).
--
-- A workflow is an async function over a `ctx`. Each awaited call of `ctx` is a step with a
-- key; what a step did is an event of the run's log, and a run is executed by calling the
-- function again from its start, with the steps of the log answered from memory. A queue hands
-- runs to workers; gates, sleeps, retries and child runs park a run until something re-enqueues
-- it.
--
-- Files and code:
-- - Base, Errors, Events: statuses, exceptions and signals, the event union and `project_run`
--   (workflows/events.py, workflows/errors.py). A UUID is a number, an instant a number of ticks.
-- - Storage: the tables of storage/schema.py as lists of rows in one record `Db`, with `now()`,
--   the supply of new UUIDs and the notifications that were sent. Storage.Log is `EventLog`,
--   Storage.Recording is `apply_event_to_run_row` and its pairing with an append. Storage.Writes
--   says what a part may write to the tables of events and timers.
-- - Queue: workflows/queue.py. Timers: workflows/timers.py. Gates: workflows/gates.py.
-- - Worker: the claim loop and one tick of the scheduler of workflows/worker.py.
-- - Workflow, Workflow.Registry, Shared: retry policies, what a body can await, the registry of
--   workflows/registry.py and the collision policy of shared.py.
-- - Context: `WorkflowContext` of workflows/context.py. Context.Keys allocates step keys,
--   Context.Steps is the checkpoint protocol, Context.Waits gates and sleeps, Context.Children
--   child workflows, Context.Run one awaited call and a whole body.
-- - Engine: workflows/engine.py. Engine.Start starts runs, Engine.Execute is `execute_run`,
--   Engine.Settle settles parents and fails runs, Engine.Cancel is the cancellation.
-- - Artifacts: artifacts/refs.py, artifacts/registry.py, artifacts/store.py (Artifacts.Store the
--   writes, Artifacts.Reads the reads) and artifacts/graph.py.
-- - Skills: skills/base.py and skills/registry.py. Execution: execution/base.py and
--   execution/backend_registry.py. Handlers: workflows/handlers.py, the handlers that the engine is
--   given for the steps that run skills and backends and open pull requests.
-- - Commands: the inbox of open gates and the detached drivers of cli/run_cmd.py and
--   cli/gates_cmd.py, with their exit codes.
-- - Llm: llm/tiers.py, llm/client.py and llm/assemble.py.
-- - History: `Step` is one operation of a client, a worker, the scheduler or a reviewer, ended as it
--   may, and `Reach` a sequence of them.
-- - Replay: what replay promises, over Context and Engine. Scenarios: concrete runs.
--
-- A body is a tree: it awaits a call and goes on with the reply, returns, or raises. State is
-- passed on explicitly: an `Action` gives an outcome and the next state, and an outcome is a
-- value, an exception, one of the two signals that a body cannot catch, or the crash of a fault
-- hook. Handlers, the clock's durations, intrinsics and faults are parameters (`Env`) that may
-- answer differently at each side effect, so a repeated side effect would show.
--
-- Bounds: numbers are unbounded. `attempt_loop` runs on fuel, the policy's number of attempts,
-- and a retry needs an attempt below it. The cascade of `cancel_run` runs on fuel, one more
-- than there are live runs. A number's digits and a UUID's are written on fuel as well. The
-- claim loop takes a number of turns, since other sessions may refill the queue for ever, and a
-- detached driver takes a number of passes; the breadth-first search of the assembled context
-- has a round for each end of an edge and one more.
--
-- Not modelled: `ctx.parallel`, whose branches interleave; the asyncio tasks around the loops
-- of the worker and the scheduler; the text search of artifacts, and what deepdiff, difflib,
-- hashlib, pydantic and LiteLLM compute, which are parameters; the local shell, workspaces and
-- git, which run processes; the rest of the command line, the configuration and the discovery
-- of plugins, which are input and output. Transactions are atomic: the advisory locks and row
-- locks of the database stand behind that. The factor of a backoff is a whole number, and a
-- backoff other than the durable one retries at once. Amounts of money are millionths of a
-- dollar.
mod Prelude
pub mod Json
pub mod Base
pub mod Errors
pub mod Events
pub mod Skills
pub mod Execution
pub mod Handlers
pub mod Commands
pub mod Storage
pub mod Queue
pub mod Shared
pub mod Workflow
pub mod Action
pub mod UuidText
pub mod Artifacts
pub mod Engine
pub mod Llm
pub mod Context
pub mod Gates
pub mod Timers
pub mod Worker
pub mod Replay
pub mod History
pub mod Scenarios
