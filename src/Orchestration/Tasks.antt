-- ===== src/Orchestration/Tasks.antt =====
-- autoweave/orchestration/state.py: the operations on the tasks of a run.
use autoweave_library.Common.{
  ℕ, suc, max, Bool, not, ◌&&◌, ◌||◌, none, some, List, [], ◌∷◌, ◌++◌, map, String, has_key, pure,
  gets, lift, ◌>>=◌, ◌>>◌, modify, guard, state_transition_error, all, any, keep, member,
  if◌then◌else◌, ◌==◌, string_eq,
}
use autoweave_library.Models.{
  TaskState, WorkflowRunStatus, TaskRecord, TaskEdgeRecord, task_state_eq, transition,
}
use autoweave_library.Orchestration.State.{
  WorkflowRunState, Run, find_task, update_task, move_to, hard_dependencies_satisfied,
  dependency_view, mark_workflow_running, mark_workflow_failed, mark_workflow_completed,
  all_tasks_completed, index_ids, index_keys, lookup_or_raise,
}

unfoldable pub start_task : String → ℕ → Run TaskRecord
start_task task_id now = do
  task ← find_task task_id
  guard (task.state == TaskState.ready) state_transition_error
  satisfied ← hard_dependencies_satisfied task.id
  guard satisfied state_transition_error
  task' ← lift (transition TaskState.in_progress none now task)
  modify (mark_workflow_running now)
  update_task task'

-- The states from which `fail_task` lets a task through.
unfoldable pub may_fail : TaskState → Bool
may_fail state = member state (
    TaskState.ready ∷ TaskState.in_progress ∷ TaskState.waiting_for_dependency
    ∷ TaskState.waiting_for_human ∷ TaskState.waiting_for_approval ∷ TaskState.blocked ∷ [])

unfoldable pub fail_task : String → String → ℕ → Run TaskRecord
fail_task task_id reason now = do
  task ← find_task task_id
  guard (may_fail task.state) state_transition_error
  updated ← move_to TaskState.failed (some reason) now task
  modify (mark_workflow_failed now)
  pure updated

unfoldable pub unblock_task : String → ℕ → Run TaskRecord
unblock_task task_id now = do
  task ← find_task task_id
  guard (task.state == TaskState.blocked) state_transition_error
  move_to TaskState.ready none now task

-- The states from which `block_task` lets a task through.
unfoldable pub may_block : TaskState → Bool
may_block state = member state (
    TaskState.ready ∷ TaskState.in_progress ∷ TaskState.waiting_for_dependency
    ∷ TaskState.waiting_for_human ∷ TaskState.waiting_for_approval ∷ [])

unfoldable pub block_task : String → String → ℕ → Run TaskRecord
block_task task_id reason now = do
  task ← find_task task_id
  guard (may_block task.state) state_transition_error
  move_to TaskState.blocked (some reason) now task

-- The end of `complete_task`, for a task that must be running by now.
unfoldable pub finish_task : ℕ → TaskRecord → Run TaskRecord
finish_task now running = do
  guard (running.state == TaskState.in_progress) state_transition_error
  updated ← move_to TaskState.completed none now running
  modify (λ s. if all_tasks_completed s then mark_workflow_completed now s else s)
  pure updated

-- A ready task is moved to `in_progress` on its way, and stays there if a later step raises.
unfoldable pub complete_task : String → ℕ → Run TaskRecord
complete_task task_id now = do
  task ← find_task task_id
  satisfied ← hard_dependencies_satisfied task.id
  guard satisfied state_transition_error
  running ←
      if task.state == TaskState.ready
      then move_to TaskState.in_progress none now task
      else pure task
  finish_task now running

-- One round of the loop of `promote_ready_tasks`: the tasks that it adds to `ready`.
unfoldable pub promote_task : ℕ → String → Run (List TaskRecord)
promote_task now task_id = do
  task ← lookup_or_raise task_id
  if member task.state (TaskState.created ∷ TaskState.waiting_for_dependency ∷ [])
      then (do
        satisfied ← hard_dependencies_satisfied task.id
        if satisfied
            then (move_to TaskState.ready none now task >>= λ task'. pure (task' ∷ []))
            else if not (task.state == TaskState.waiting_for_dependency)
            then (move_to TaskState.waiting_for_dependency none now task >> pure [])
            else pure [])
      else if task.state == TaskState.ready
      then (do
        satisfied ← hard_dependencies_satisfied task.id
        if satisfied
            then pure (task ∷ [])
            else (move_to TaskState.waiting_for_dependency none now task >> pure []))
      else pure []

unfoldable pub promote_tasks : ℕ → List String → Run (List TaskRecord)
promote_tasks now [] = pure []
promote_tasks now (task_id ∷ task_ids) = do
  promoted ← promote_task now task_id
  rest ← promote_tasks now task_ids
  pure (promoted ++ rest)

unfoldable pub promote_ready_tasks : ℕ → Run (List TaskRecord)
promote_ready_tasks now = do view ← dependency_view; promote_tasks now view.topological_order

unfoldable pub resume_ready_tasks : ℕ → Run (List TaskRecord)
resume_ready_tasks now = do
  ready ← promote_ready_tasks now
  pure (keep (λ task. task.state == TaskState.ready) ready)

-- The checks of `add_dynamic_tasks`: a known id or key, or an edge to an unknown task, is refused.
unfoldable pub dynamic_tasks_fit : List TaskRecord → List TaskEdgeRecord → WorkflowRunState → Bool
dynamic_tasks_fit tasks edges s =
    let task_ids =
      map (λ (t : TaskRecord). t.id) s.graph.tasks ++ map (λ (t : TaskRecord). t.id) tasks in
    not (
      any (λ (t : TaskRecord). has_key t.id s.tasks_by_id || has_key t.task_key s.tasks_by_key)
        tasks)
    && all (λ (e : TaskEdgeRecord). member e.from_task_id task_ids && member e.to_task_id task_ids)
        edges

-- What `add_dynamic_tasks` writes once the checks have passed. The run is open again.
unfoldable pub append_tasks :
    List TaskRecord → List TaskEdgeRecord → WorkflowRunState → WorkflowRunState
unfolding index_ids index_keys
append_tasks tasks edges s =
    let revision = suc (max s.graph_revision s.graph.workflow_run.graph_revision) in
    record s {
      tasks_by_id = index_ids tasks s.tasks_by_id;
      tasks_by_key = index_keys tasks s.tasks_by_key;
      graph_revision = revision;
      graph = record {
        workflow_run = record (s.graph.workflow_run) {
          graph_revision = revision;
          status = WorkflowRunStatus.running;
          ended_at = none;
        };
        tasks = s.graph.tasks ++ tasks;
        edges = s.graph.edges ++ edges;
      };
    }

unfoldable pub add_dynamic_tasks : List TaskRecord → List TaskEdgeRecord → Run (List TaskRecord)
add_dynamic_tasks [] edges = pure []
add_dynamic_tasks (task ∷ tasks) edges = do
  fit ← gets (dynamic_tasks_fit (task ∷ tasks) edges)
  guard fit state_transition_error
  modify (append_tasks (task ∷ tasks) edges)
  pure (task ∷ tasks)
