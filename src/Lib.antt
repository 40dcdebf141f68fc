-- ===== src/Lib.antt =====
-- AutoWeave: the orchestration of workflow runs.
--
-- The program runs workflows of tasks. `autoweave/models.py` holds the records and the tables of
-- allowed transitions; `autoweave/orchestration/graph.py` derives from a workflow's edges who must
-- finish first and an order of all tasks; `autoweave/orchestration/state.py` keeps the state of one
-- run (tasks, attempts, human requests, approvals) and the operations on it;
-- `autoweave/orchestration/scheduler.py` promotes and evaluates tasks;
-- `autoweave/orchestration/service.py` joins attempts and tasks. Around it stand the compiler of
-- workflow definitions, the repository that stores runs, the registry of artifacts, the memory
-- store, the event log, the router that chooses a model for an attempt, the leases that keep two
-- workers off one attempt, and the loop that dispatches ready tasks to threads.
--
-- Which file models which part:
-- - Models (States, Records, Transitions): autoweave/models.py.
-- - Orchestration/Graph: autoweave/orchestration/graph.py; its children prove what the order is and
--   that the loop ends.
-- - Orchestration/State, Tasks, Attempts, Requests: the methods of `WorkflowRunState`, under the
--   names of the source (`state.task` is `find_task`, `state.attempt` is `find_attempt`).
-- - Orchestration/Scheduler, Service: the classes of those files.
-- - Orchestration/Steps and its children: every operation as a sequence of legal task moves;
--   Orchestration/Safety and its children: what holds in all states of a run.
-- - Coordination: the in-memory lease manager (Leases) and idempotency store (Idempotency) of
--   autoweave/storage/coordination.py, and what every history of calls on them keeps.
-- - Events: the event log of autoweave/events/stream.py with the cursors of
--   autoweave/events/schema.py, and what a reader that resumes gets.
-- - Events/Redaction, Publish: the redaction of payloads of autoweave/events/redaction.py and the
--   event service of autoweave/events/service.py.
-- - Storage: the in-memory repository of autoweave/storage/repositories.py; a walk along hard
--   edges has as many rounds as the graph has edges and one more, since a task enters its stack
--   along an edge and only once.
-- - Routing: the model router of autoweave/routing/policy.py.
-- - Workflows: autoweave/workflows/spec.py with the definitions of autoweave/config_models.py; the
--   depth-first search has one more level than there are keys, since its open calls are on
--   different keys.
-- - Artifacts: the registry of autoweave/artifacts/registry.py over the repository in memory; what
--   a payload store answers is an argument.
-- - Memory: the memory store of autoweave/memory/store.py; `str.lower` and `str` on metadata are
--   arguments.
-- - Graph: the projections of events into a graph, autoweave/graph/projection.py; the SQLite
--   database is an interface with laws, and its JSON texts are written and read by arguments.
-- - Runtime: the dispatching loop of `_advance_current_workflow` of autoweave/local_runtime.py; its
--   rounds are bounded by the steps given, since a round that goes on completes a future. What
--   the scheduler and the threads answer or raise is an argument, and an exception ends the loop.
-- - Celery: the queueing and the recovery of runs of autoweave/celery_queue.py; the broker is the
--   list of the messages that it was sent.
-- - Common: dictionaries, lists, Boolean tests, and the monad of state and exceptions;
--   Text has Python's operations on texts, on single characters.
--
-- How the code is read. A method is a function from the state to a result and the state that it
-- leaves, also where it raises: writes before a raise stay. Pydantic records are copied before they
-- are changed, so values stand for objects. A dictionary is an association list in insertion order.
-- The JSON documents of events and artifacts are data, others are carried as texts; a time is a
-- number; `utc_now()` and `generate_id()`
-- are arguments (`now`, `new_id`). The texts of exceptions are left out. The loop of
-- `_topological_order` has as many rounds as there are tasks, since each task is queued only once.
--
-- Not modelled: SQL databases behind the durable repositories, payload files and event files, the
-- rest of the local runtime, the workers that drive agent servers, the context service, settings,
-- the dashboards and the command line. They are I/O around this core, or parts of their own that
-- stand on it.
pub mod Common
pub mod Models
pub mod Orchestration
pub mod Coordination
pub mod Events
pub mod Storage
pub mod Routing
pub mod Workflows
pub mod Artifacts
pub mod Memory
pub mod Graph
pub mod Runtime
pub mod Celery
