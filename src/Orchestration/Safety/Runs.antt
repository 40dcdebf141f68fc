-- ===== src/Orchestration/Safety/Runs.antt =====
-- The theorems on whole runs: from a new workflow graph, over any sequence of operations.
use autoweave_library.Common.{
  ◌≡◌, refl, none, List, [], ◌∷◌, lookup, All, append-nil, string_eq, arith,
}
use autoweave_library.Models.{TaskRecord, WorkflowGraph}
use autoweave_library.Orchestration.Graph.Counts.{task_ids}
use autoweave_library.Orchestration.State.{WorkflowRunState, from_graph}
use autoweave_library.Orchestration.State.Valid.{IsValid}
use autoweave_library.Orchestration.Tasks.{append_tasks}
use autoweave_library.Orchestration.Safety.{IsSafe}
use autoweave_library.Orchestration.Safety.Dynamic.{IsDistinct, task_keys}
use autoweave_library.Orchestration.Safety.Append.{
  IsFresh, NoneStarted, append_tasks-IsValid, append_tasks-IsSafe,
}
use autoweave_library.Orchestration.Safety.Reach.{Reach, IsSound, Reach-IsSound}

-- A graph as the workflow compiler builds it: distinct ids and keys, and no task started.
pub record IsNewGraph (graph : WorkflowGraph) : Type 0 where
  pub distinct_ids : IsDistinct (task_ids graph.tasks)
  pub distinct_keys : IsDistinct (task_keys graph.tasks)
  pub idle : NoneStarted graph.tasks

-- The state before any task is stored.
abbrev blank : WorkflowGraph → WorkflowRunState
blank graph = record {
  graph = record graph { tasks = [] };
  tasks_by_id = [];
  tasks_by_key = [];
  attempts_by_id = [];
  attempts_by_task_id = [];
  human_requests = [];
  approval_requests = [];
  graph_revision = 0;
}

All-unknown :
    (graph : WorkflowGraph) (ts : List TaskRecord)
    → All (λ (t : TaskRecord). lookup t.id (blank graph).tasks_by_id ≡ none) ts
All-unknown graph [] = tt
All-unknown graph (t ∷ ts) = (refl, All-unknown graph ts)

All-unused :
    (graph : WorkflowGraph) (ts : List TaskRecord)
    → All (λ (t : TaskRecord). lookup t.task_key (blank graph).tasks_by_key ≡ none) ts
All-unused graph [] = tt
All-unused graph (t ∷ ts) = (refl, All-unused graph ts)

blank-IsFresh : (graph : WorkflowGraph) → IsNewGraph graph → IsFresh graph.tasks (blank graph)
blank-IsFresh graph g = record {
  distinct_ids = g.distinct_ids;
  distinct_keys = g.distinct_keys;
  unknown_ids = All-unknown graph graph.tasks;
  unknown_keys = All-unused graph graph.tasks;
}

pub from_graph-IsSound : (graph : WorkflowGraph) → IsNewGraph graph → IsSound (from_graph graph)
unfolding from_graph append_tasks
from_graph-IsSound graph g =
    let fresh = blank-IsFresh graph g in
    let v = append_tasks-IsValid graph.tasks (blank graph) fresh [] (record {
      ids_match = λ k. tt;
      keys_match = λ k. tt;
      keyed = λ i t h. absurd (ground arith);
      mirrors = tt;
    }) in
    (
      record {
        ids_match = v.ids_match;
        keys_match = v.keys_match;
        keyed = v.keyed;
        mirrors = v.mirrors;
      },
      λ k x known started. rw append-nil at (
          append_tasks-IsSafe graph.tasks (blank graph) fresh [] g.idle (λ j y e. cc) (λ j y e. cc)
            k x known started),
    )

-- In every state that a run can reach from a new graph, by any operations with any arguments,
-- returning or raising, and by adding tasks that have not started, with distinct ids and keys and
-- with no hard edge into a task stored before: a task that is in progress or completed has all of
-- its hard predecessors completed.
pub run-IsSafe :
    (graph : WorkflowGraph) {s : WorkflowRunState}
    → IsNewGraph graph
    → Reach (from_graph graph) s
    → IsSafe s
run-IsSafe graph g r = (Reach-IsSound (from_graph-IsSound graph g) r).1

pub run-IsValid :
    (graph : WorkflowGraph) {s : WorkflowRunState}
    → IsNewGraph graph
    → Reach (from_graph graph) s
    → IsValid s
run-IsValid graph g r = (Reach-IsSound (from_graph-IsSound graph g) r).0
