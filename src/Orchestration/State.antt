-- ===== src/Orchestration/State.antt =====
-- autoweave/orchestration/state.py: the state of a run, its lookups, its graph and its status.
-- Every record is copied before it is changed, so a value stands for an object. `now` is what
-- `utc_now()` returns during the call.
pub mod Valid
pub mod Dependencies
use autoweave_library.Common.{
  ℕ, Bool, false, Option, none, some, List, [], ◌∷◌, String, Dict, lookup, insert, get_or, values,
  Action, pure, gets, lift, or_raise, ◌>>=◌, ◌>>◌, modify, key_error, all, any, member,
  if◌then◌else◌, ◌==◌, string_eq,
}
use autoweave_library.Models.{
  TaskState, WorkflowRunStatus, WorkflowRunRecord, TaskRecord, TaskAttemptRecord,
  HumanRequestRecord, ApprovalRequestRecord, WorkflowGraph, task_state_eq, workflow_run_status_eq,
  transition,
}
use autoweave_library.Orchestration.Graph.{DependencyView, build_dependency_view}

pub record WorkflowRunState : Type 0 where
  pub graph : WorkflowGraph
  pub tasks_by_id : Dict String TaskRecord
  pub tasks_by_key : Dict String String
  pub attempts_by_id : Dict String TaskAttemptRecord
  pub attempts_by_task_id : Dict String (List String)
  pub human_requests : Dict String HumanRequestRecord
  pub approval_requests : Dict String ApprovalRequestRecord
  pub graph_revision : ℕ

abbrev pub Run : Type 0 → Type 0
Run A = Action WorkflowRunState A

-- `{task.id: task for task in tasks}` and `{task.task_key: task.id for task in tasks}`, also as
-- the loop that adds tasks to the two indices.
unfoldable pub index_ids : List TaskRecord → Dict String TaskRecord → Dict String TaskRecord
index_ids [] d = d
index_ids (task ∷ tasks) d = index_ids tasks (insert task.id task d)

unfoldable pub index_keys : List TaskRecord → Dict String String → Dict String String
index_keys [] d = d
index_keys (task ∷ tasks) d = index_keys tasks (insert task.task_key task.id d)

unfoldable pub from_graph : WorkflowGraph → WorkflowRunState
unfolding index_ids index_keys
from_graph graph = record {
  graph = graph;
  tasks_by_id = index_ids graph.tasks [];
  tasks_by_key = index_keys graph.tasks [];
  attempts_by_id = [];
  attempts_by_task_id = [];
  human_requests = [];
  approval_requests = [];
  graph_revision = graph.workflow_run.graph_revision;
}

unfoldable pub dependency_view : Run DependencyView
unfolding build_dependency_view
dependency_view s = (build_dependency_view s.graph, s)

-- `state.task(...)`
unfoldable pub find_task : String → Run TaskRecord
find_task task_id_or_key s =
    or_raise (lookup (get_or task_id_or_key task_id_or_key s.tasks_by_key) s.tasks_by_id) key_error
      s

-- `self.tasks_by_id[task_id]`
unfoldable pub lookup_or_raise : String → Run TaskRecord
lookup_or_raise task_id s = or_raise (lookup task_id s.tasks_by_id) key_error s

-- `[tasks_by_id[t.id] for t in tasks]`
unfoldable pub refresh : Dict String TaskRecord → List TaskRecord → Option (List TaskRecord)
refresh d [] = some []
refresh d (t ∷ ts) = elim (lookup t.id d) [
  | none ↦ none
  | some task ↦ elim (refresh d ts) [ none ↦ none | some rest ↦ some (task ∷ rest) ]
]

abbrev with_tasks : List TaskRecord → WorkflowGraph → WorkflowGraph
with_tasks tasks graph = record graph { tasks = tasks }

unfoldable pub update_task : TaskRecord → Run TaskRecord
unfolding refresh
update_task task = do
  modify (λ s. record s {
    tasks_by_id = insert task.id task s.tasks_by_id;
    tasks_by_key = insert task.task_key task.id s.tasks_by_key;
  })
  tasks ← gets (λ s. refresh s.tasks_by_id s.graph.tasks)
  tasks' ← or_raise tasks key_error
  modify (λ s. record s { graph = with_tasks tasks' s.graph })
  pure task

-- `task.transition(target)` and `update_task`, where the task is not in that state yet.
unfoldable pub move_to : TaskState → Option String → ℕ → TaskRecord → Run TaskRecord
move_to target reason now task = do
  task' ← lift (transition target reason now task)
  update_task task'

unfoldable pub all_tasks_completed : WorkflowRunState → Bool
all_tasks_completed s =
    all (λ (t : TaskRecord). t.state == TaskState.completed) (values s.tasks_by_id)

unfoldable pub any_task_in_progress : WorkflowRunState → Bool
any_task_in_progress s =
    any (λ (t : TaskRecord). t.state == TaskState.in_progress) (values s.tasks_by_id)

abbrev with_run : WorkflowRunRecord → WorkflowRunState → WorkflowRunState
with_run run s = record s { graph = record (s.graph) { workflow_run = run } }

-- `value or utc_now()`
abbrev or_now : Option ℕ → ℕ → Option ℕ
or_now none now = some now
or_now (some t) now = some t

unfoldable pub mark_workflow_running : ℕ → WorkflowRunState → WorkflowRunState
mark_workflow_running now s =
    let run = s.graph.workflow_run in
    if run.status == WorkflowRunStatus.running
    then s
    else with_run
        (record run { status = WorkflowRunStatus.running; started_at = or_now run.started_at now })
        s

unfoldable pub mark_workflow_completed : ℕ → WorkflowRunState → WorkflowRunState
mark_workflow_completed now s =
    let run = s.graph.workflow_run in
    with_run
      (record run { status = WorkflowRunStatus.completed; ended_at = or_now run.ended_at now }) s

unfoldable pub mark_workflow_failed : ℕ → WorkflowRunState → WorkflowRunState
mark_workflow_failed now s =
    let run = s.graph.workflow_run in
    with_run (record run { status = WorkflowRunStatus.failed; ended_at = or_now run.ended_at now })
      s

-- `[tasks_by_id[parent_id] for parent_id in ...]`
unfoldable pub lookup_all : Dict String TaskRecord → List String → Option (List TaskRecord)
lookup_all d [] = some []
lookup_all d (k ∷ ks) = elim (lookup k d) [
  | none ↦ none
  | some task ↦ elim (lookup_all d ks) [ none ↦ none | some rest ↦ some (task ∷ rest) ]
]

unfoldable pub hard_predecessors : String → Run (List TaskRecord)
unfolding dependency_view lookup_all
hard_predecessors task_id = do
  view ← dependency_view
  parents ← gets (λ s. lookup_all s.tasks_by_id (get_or [] task_id view.hard_predecessors))
  or_raise parents key_error

unfoldable pub is_completed : TaskRecord → Bool
is_completed task = task.state == TaskState.completed

unfoldable pub hard_dependencies_satisfied : String → Run Bool
unfolding hard_predecessors is_completed
hard_dependencies_satisfied task_id = do
  parents ← hard_predecessors task_id
  pure (all is_completed parents)

unfoldable pub can_run : String → Run Bool
can_run task_id = do
  task ← find_task task_id
  if member task.state (TaskState.created ∷ TaskState.waiting_for_dependency ∷ TaskState.ready ∷ [])
      then hard_dependencies_satisfied task.id
      else pure false
