-- ===== src/Models/Records.antt =====
-- autoweave/models.py: the records, and the transitions of a task and of an attempt. A JSON
-- document and a time are kept as a text and a number: the code here only carries them along.
-- `now` is what `utc_now()` returns, `new_id` what `generate_id(...)` returns.
use autoweave_library.Common.{
  ℕ, Bool, Option, none, List, [], ◌∷◌, String, ◌==◌, member, Result, ok, err,
  state_transition_error, value_error, if◌then◌else◌, map, ◌&&◌, all, string_eq,
}
use autoweave_library.Models.States.{
  TaskState, AttemptState, WorkflowRunStatus, ApprovalStatus, HumanRequestStatus, HumanRequestType,
  task_state_eq, attempt_state_eq,
}

pub record WorkflowRunRecord : Type 0 where
  pub id : String
  pub project_id : String
  pub team_id : String
  pub workflow_definition_id : String
  pub graph_revision : ℕ
  pub root_input_json : String
  pub status : WorkflowRunStatus
  pub started_at : Option ℕ
  pub ended_at : Option ℕ

-- The fields of a task that the orchestration stores and never reads.
pub record TaskPayload : Type 0 where
  pub title : String
  pub description : String
  pub assigned_role : String
  pub priority : ℕ
  pub input_json : String
  pub output_json : String
  pub required_artifact_types_json : List String
  pub produced_artifact_types_json : List String
  pub created_at : ℕ

pub record TaskRecord : Type 0 where
  pub id : String
  pub workflow_run_id : String
  pub task_key : String
  pub state : TaskState
  pub block_reason : Option String
  pub updated_at : ℕ
  pub payload : TaskPayload

pub record TaskEdgeRecord : Type 0 where
  pub id : String
  pub workflow_run_id : String
  pub from_task_id : String
  pub to_task_id : String
  pub is_hard_dependency : Bool

pub record TaskAttemptRecord : Type 0 where
  pub id : String
  pub task_id : String
  pub attempt_number : ℕ
  pub state : AttemptState
  pub worker_mode : String
  pub agent_definition_id : String
  pub workspace_id : Option String
  pub compiled_worker_config_json : String
  pub model_route_id : Option String
  pub lease_key : Option String
  pub started_at : Option ℕ
  pub ended_at : Option ℕ

pub record HumanRequestRecord : Type 0 where
  pub id : String
  pub workflow_run_id : String
  pub task_id : String
  pub task_attempt_id : String
  pub request_type : HumanRequestType
  pub question : String
  pub context_summary : String
  pub status : HumanRequestStatus
  pub answer_text : Option String
  pub answered_by : Option String
  pub answered_at : Option ℕ
  pub created_at : ℕ

pub record ApprovalRequestRecord : Type 0 where
  pub id : String
  pub workflow_run_id : String
  pub task_id : String
  pub task_attempt_id : String
  pub approval_type : String
  pub reason : String
  pub status : ApprovalStatus
  pub resolved_by : Option String
  pub resolved_at : Option ℕ
  pub created_at : ℕ

pub record WorkflowGraph : Type 0 where
  pub workflow_run : WorkflowRunRecord
  pub tasks : List TaskRecord
  pub edges : List TaskEdgeRecord

pub record TaskReadiness : Type 0 where
  pub task_id : String
  pub ready : Bool
  pub reasons : List String
  pub missing_artifacts : List String

-- The table `allowed` of `TaskRecord.transition`.
unfoldable pub task_allowed : TaskState → List TaskState
task_allowed TaskState.created =
    TaskState.ready ∷ TaskState.cancelled ∷ TaskState.waiting_for_dependency ∷ []
task_allowed TaskState.ready =
    TaskState.in_progress ∷ TaskState.waiting_for_human ∷ TaskState.waiting_for_approval
    ∷ TaskState.blocked ∷ TaskState.failed ∷ TaskState.cancelled ∷ []
task_allowed TaskState.in_progress =
    TaskState.waiting_for_human ∷ TaskState.waiting_for_approval ∷ TaskState.blocked
    ∷ TaskState.completed ∷ TaskState.failed ∷ TaskState.cancelled ∷ []
task_allowed TaskState.waiting_for_dependency = TaskState.ready ∷ TaskState.cancelled ∷ []
task_allowed TaskState.waiting_for_human =
    TaskState.ready ∷ TaskState.blocked ∷ TaskState.cancelled ∷ []
task_allowed TaskState.waiting_for_approval =
    TaskState.ready ∷ TaskState.blocked ∷ TaskState.cancelled ∷ []
task_allowed TaskState.blocked = TaskState.ready ∷ TaskState.failed ∷ TaskState.cancelled ∷ []
task_allowed TaskState.completed = []
task_allowed TaskState.failed = []
task_allowed TaskState.cancelled = []

-- `TaskRecord.transition(new_state, reason=reason)`
unfoldable pub transition : TaskState → Option String → ℕ → TaskRecord → Result TaskRecord
unfolding task_allowed
transition new_state reason now task =
    if member new_state (task_allowed task.state)
    then ok (record task {
      state = new_state;
      block_reason = if new_state == TaskState.blocked then reason else none;
      updated_at = now;
    })
    else err state_transition_error

-- The table `allowed` of `TaskAttemptRecord.transition`.
unfoldable pub attempt_allowed : AttemptState → List AttemptState
attempt_allowed AttemptState.queued = AttemptState.dispatching ∷ AttemptState.aborted ∷ []
attempt_allowed AttemptState.dispatching =
    AttemptState.running ∷ AttemptState.errored ∷ AttemptState.orphaned ∷ []
attempt_allowed AttemptState.running =
    AttemptState.paused ∷ AttemptState.needs_input ∷ AttemptState.succeeded ∷ AttemptState.errored
    ∷ AttemptState.orphaned ∷ AttemptState.aborted ∷ []
attempt_allowed AttemptState.paused =
    AttemptState.running ∷ AttemptState.aborted ∷ AttemptState.orphaned ∷ []
attempt_allowed AttemptState.needs_input =
    AttemptState.paused ∷ AttemptState.running ∷ AttemptState.aborted ∷ []
attempt_allowed AttemptState.succeeded = []
attempt_allowed AttemptState.errored = []
attempt_allowed AttemptState.aborted = []
attempt_allowed AttemptState.orphaned = []

-- `TaskAttemptRecord.transition(new_state)`
unfoldable pub attempt_transition : AttemptState → TaskAttemptRecord → Result TaskAttemptRecord
unfolding attempt_allowed
attempt_transition new_state attempt =
    if member new_state (attempt_allowed attempt.state)
    then ok (record attempt { state = new_state })
    else err state_transition_error

-- `WorkflowGraph.validate_edges`: a graph whose edges name unknown tasks is refused.
unfoldable pub validate_edges : WorkflowGraph → Result WorkflowGraph
validate_edges graph =
    let task_ids = map (λ (t : TaskRecord). t.id) graph.tasks in
    if all (λ edge. member edge.from_task_id task_ids && member edge.to_task_id task_ids)
      graph.edges
    then ok graph
    else err value_error
