-- ===== src/Orchestration/Scheduler.antt =====
-- autoweave/orchestration/scheduler.py, and the readiness reasons of
-- autoweave/orchestration/state.py.
use Prim.Native.String.{◌++◌ as join_text}
use autoweave_library.Common.{
  ℕ, Bool, true, false, not, ◌&&◌, Option, none, some, List, [], ◌∷◌, ◌++◌, map, String, pure,
  ◌>>=◌, keep, member, sorted, if◌then◌else◌, ◌==◌, string_eq,
}
use autoweave_library.Models.{TaskState, TaskRecord, TaskReadiness, task_state_eq}
use autoweave_library.Orchestration.State.{
  Run, find_task, lookup_or_raise, dependency_view, hard_predecessors, hard_dependencies_satisfied,
  is_completed,
}
use autoweave_library.Orchestration.Tasks.{promote_ready_tasks}

pub record ScheduleResult : Type 0 where
  pub promoted_tasks : List String
  pub ready_tasks : List String
  pub blocked_tasks : List String

-- `",".join(texts)`
unfoldable pub join_commas : List String → String
join_commas [] = ""
join_commas (s ∷ []) = s
join_commas (s ∷ t ∷ rest) = join_text s (join_text "," (join_commas (t ∷ rest)))

-- `block_reason or 'unspecified'`: an empty text counts as none.
unfoldable pub reason_text : Option String → String
reason_text none = "unspecified"
reason_text (some s) = if s == "" then "unspecified" else s

-- The reason that lies in the task's own state.
unfoldable pub state_reasons : TaskRecord → List String
unfolding reason_text
state_reasons task =
    if task.state == TaskState.blocked
    then join_text "blocked:" (reason_text task.block_reason) ∷ []
    else if task.state == TaskState.waiting_for_human
    then "waiting_for_human" ∷ []
    else if task.state == TaskState.waiting_for_approval
    then "waiting_for_approval" ∷ []
    else if task.state == TaskState.in_progress
    then "already_running" ∷ []
    else []

unfoldable pub task_readiness_reasons : String → Run (List String)
task_readiness_reasons task_id = do
  task ← find_task task_id
  satisfied ← hard_dependencies_satisfied task.id
  if satisfied then pure (state_reasons task) else (do
    parents ← hard_predecessors task.id
    let pending : List TaskRecord = keep (λ parent. not (is_completed parent)) parents
    let waiting : List String = sorted (map (λ parent. parent.task_key) pending)
    pure (state_reasons task ++ (join_text "waiting_on_dependencies:" (join_commas waiting) ∷ [])))

abbrev is_empty : List String → Bool
is_empty [] = true
is_empty (x ∷ xs) = false

-- One round of the loop of `evaluate`.
unfoldable pub evaluate_task : String → Run TaskReadiness
evaluate_task task_id = do
  task ← lookup_or_raise task_id
  reasons ← task_readiness_reasons task.id
  pure (record {
    task_id = task.id;
    ready =
        member task.state
          (TaskState.created ∷ TaskState.waiting_for_dependency ∷ TaskState.ready ∷ [])
        && is_empty reasons;
    reasons = reasons;
    missing_artifacts = [];
  })

unfoldable pub evaluate_tasks : List String → Run (List TaskReadiness)
evaluate_tasks [] = pure []
evaluate_tasks (task_id ∷ task_ids) = do
  item ← evaluate_task task_id
  rest ← evaluate_tasks task_ids
  pure (item ∷ rest)

unfoldable pub evaluate : Run (List TaskReadiness)
evaluate = do view ← dependency_view; evaluate_tasks view.topological_order

abbrev ready_ids : List TaskReadiness → List String
ready_ids items = map (λ (item : TaskReadiness). item.task_id) (keep (λ item. item.ready) items)

abbrev blocked_ids : List TaskReadiness → List String
blocked_ids items =
    map (λ (item : TaskReadiness). item.task_id) (keep (λ item. not item.ready) items)

unfoldable pub promote : ℕ → Run ScheduleResult
promote now = do
  promoted ← promote_ready_tasks now
  readiness ← evaluate
  pure (record {
    promoted_tasks = map (λ (task : TaskRecord). task.id) promoted;
    ready_tasks = ready_ids readiness;
    blocked_tasks = blocked_ids readiness;
  })

unfoldable pub runnable_tasks : Run (List String)
runnable_tasks = do readiness ← evaluate; pure (ready_ids readiness)
