-- ===== src/Orchestration/Samples.antt =====
-- Small runs: a plan, an implementation that needs it, and a review that needs both.
use autoweave_library.Common.{
  ◌≡◌, refl, true, none, List, [], ◌∷◌, map, String, ok, err, Result, value_error, ◌>>=◌, pure,
  same_text, text_leb, sorted, set_add,
}
use autoweave_library.Models.{
  TaskState, WorkflowRunStatus, TaskRecord, TaskEdgeRecord, WorkflowGraph, TaskPayload, transition,
  attempt_transition,
}
use autoweave_library.Orchestration.Graph.{topological_order, build_dependency_view}
use autoweave_library.Orchestration.State.{
  index_ids, index_keys, from_graph, dependency_view, find_task, lookup_or_raise, refresh,
  update_task, move_to, all_tasks_completed, any_task_in_progress, mark_workflow_running,
  mark_workflow_completed, mark_workflow_failed, lookup_all, hard_predecessors, is_completed,
  hard_dependencies_satisfied, can_run, WorkflowRunState, Run,
}
use autoweave_library.Orchestration.Tasks.{
  start_task, fail_task, may_fail, may_block, unblock_task, block_task, complete_task, finish_task,
  promote_task, promote_tasks, promote_ready_tasks, resume_ready_tasks, dynamic_tasks_fit,
  append_tasks, add_dynamic_tasks,
}
use autoweave_library.Orchestration.Attempts.{
  is_active, active_among, first_active, attempt_ids_of, latest_active_attempt_id, active_attempts,
  record_attempt, open_attempt, find_attempt, store_attempt, move_attempt, dispatch_attempt,
  start_attempt, resume_attempt, pause_attempt, needs_input_attempt, complete_attempt, fail_attempt,
  abort_attempt,
}
use autoweave_library.Orchestration.Requests.{
  first_open_request, open_human_request_for_task, first_open_approval,
  open_approval_request_for_task, store_human_request, store_approval_request, park,
  clarification_request, request_clarification, answer_human_request, approval_request,
  request_approval, resolve_approval,
}
use autoweave_library.Orchestration.Scheduler.{
  join_commas, reason_text, state_reasons, task_readiness_reasons, evaluate_task, evaluate_tasks,
  evaluate, promote, runnable_tasks,
}
use autoweave_library.Orchestration.Service.{
  finalize_attempt_success, finalize_attempt_failure, recover_attempt,
}

abbrev pub payload : TaskPayload
payload = record {
  title = "";
  description = "";
  assigned_role = "backend";
  priority = 100;
  input_json = "{}";
  output_json = "{}";
  required_artifact_types_json = [];
  produced_artifact_types_json = [];
  created_at = 0;
}

abbrev pub new_task : (id key : String) → TaskRecord
new_task id key = record {
  id = id;
  workflow_run_id = "run";
  task_key = key;
  state = TaskState.created;
  block_reason = none;
  updated_at = 0;
  payload = payload;
}

abbrev pub hard_edge : (source target : String) → TaskEdgeRecord
hard_edge source target = record {
  id = "edge";
  workflow_run_id = "run";
  from_task_id = source;
  to_task_id = target;
  is_hard_dependency = true;
}

abbrev pub graph_of : List TaskRecord → List TaskEdgeRecord → WorkflowGraph
graph_of tasks edges = record {
  workflow_run = record {
    id = "run";
    project_id = "project";
    team_id = "team";
    workflow_definition_id = "definition";
    graph_revision = 1;
    root_input_json = "{}";
    status = WorkflowRunStatus.created;
    started_at = none;
    ended_at = none;
  };
  tasks = tasks;
  edges = edges;
}

abbrev pub three_tasks : List TaskRecord
three_tasks = new_task "t3" "review" ∷ new_task "t2" "code" ∷ new_task "t1" "plan" ∷ []

abbrev pub chain : List TaskEdgeRecord
chain = hard_edge "t1" "t2" ∷ hard_edge "t2" "t3" ∷ hard_edge "t1" "t3" ∷ []

abbrev pub start : WorkflowRunState
unfolding from_graph
start = from_graph (graph_of three_tasks chain)

unfoldable pub program : Unit {0}
unfolding build_dependency_view topological_order transition attempt_transition same_text text_leb
    set_add sorted index_ids index_keys from_graph dependency_view find_task lookup_or_raise refresh
    update_task move_to all_tasks_completed any_task_in_progress mark_workflow_running
    mark_workflow_completed mark_workflow_failed lookup_all hard_predecessors is_completed
    hard_dependencies_satisfied can_run start_task fail_task may_fail may_block unblock_task
    block_task complete_task finish_task promote_task promote_tasks promote_ready_tasks
    resume_ready_tasks dynamic_tasks_fit append_tasks add_dynamic_tasks is_active active_among
    first_active attempt_ids_of latest_active_attempt_id active_attempts record_attempt open_attempt
    find_attempt store_attempt move_attempt dispatch_attempt start_attempt resume_attempt
    pause_attempt needs_input_attempt complete_attempt fail_attempt abort_attempt first_open_request
    open_human_request_for_task first_open_approval open_approval_request_for_task
    store_human_request store_approval_request park clarification_request request_clarification
    answer_human_request approval_request request_approval resolve_approval join_commas reason_text
    state_reasons task_readiness_reasons evaluate_task evaluate_tasks evaluate promote
    runnable_tasks finalize_attempt_success finalize_attempt_failure recover_attempt
program = tt

pub order_three : topological_order three_tasks chain ≡ ok ("t1" ∷ "t2" ∷ "t3" ∷ [])
unfolding program
order_three = refl

abbrev states_of : {A : Type 0} → Run A → Result A × List TaskState
states_of m = let (r, s) = m start in (r, map (λ (t : TaskRecord). t.state) s.graph.tasks)

-- The plan is promoted, started and completed; then the implementation is ready.
abbrev one_step : Run (Unit {0})
one_step = do
  _ ← promote 1
  _ ← start_task "plan" 2
  _ ← open_attempt "t1" "agent" none "{}" none none "a1"
  _ ← start_attempt "a1" 3
  _ ← finalize_attempt_success "t1" "a1" 4
  _ ← promote 5
  pure tt

one_step-states :
    states_of one_step
    ≡ (ok tt, TaskState.waiting_for_dependency ∷ TaskState.ready ∷ TaskState.completed ∷ [])
unfolding program
one_step-states = refl

-- Two hard edges between the same two tasks read as a cycle.
repeated_edge :
    topological_order
      (new_task "a" "a" ∷ new_task "b" "b" ∷ [])
      (hard_edge "a" "b" ∷ hard_edge "a" "b" ∷ [])
    ≡ err value_error
unfolding program
repeated_edge = refl
