-- ===== src/Orchestration/Requests.antt =====
-- autoweave/orchestration/state.py: clarifications and approvals. `new_id` is what
-- `generate_id(...)` returns for a new request.
use autoweave_library.Common.{
  ℕ, Bool, true, ◌&&◌, Option, none, some, List, [], ◌∷◌, String, lookup, insert, values, pure,
  gets, or_raise, ◌>>=◌, ◌>>◌, modify, key_error, if◌then◌else◌, ◌==◌, string_eq,
}
use autoweave_library.Models.{
  TaskState, ApprovalStatus, HumanRequestStatus, HumanRequestType, TaskRecord, HumanRequestRecord,
  ApprovalRequestRecord, task_state_eq, approval_status_eq, human_request_status_eq,
  human_request_type_eq,
}
use autoweave_library.Orchestration.State.{WorkflowRunState, Run, find_task, move_to}
use autoweave_library.Orchestration.Attempts.{latest_active_attempt_id}

unfoldable pub first_open_request :
    String → HumanRequestType → List HumanRequestRecord → Option HumanRequestRecord
first_open_request task_id request_type [] = none
first_open_request task_id request_type (request ∷ requests) =
    let rest = first_open_request task_id request_type requests in
    if request.task_id == task_id
      && request.request_type == request_type
      && request.status == HumanRequestStatus.opened
    then some request
    else rest

unfoldable pub open_human_request_for_task :
    String → HumanRequestType → WorkflowRunState → Option HumanRequestRecord
unfolding first_open_request
open_human_request_for_task task_id request_type s =
    first_open_request task_id request_type (values s.human_requests)

unfoldable pub first_open_approval :
    String → String → List ApprovalRequestRecord → Option ApprovalRequestRecord
first_open_approval task_id approval_type [] = none
first_open_approval task_id approval_type (request ∷ requests) =
    let rest = first_open_approval task_id approval_type requests in
    if request.task_id == task_id
      && request.approval_type == approval_type
      && request.status == ApprovalStatus.requested
    then some request
    else rest

unfoldable pub open_approval_request_for_task :
    String → String → WorkflowRunState → Option ApprovalRequestRecord
unfolding first_open_approval
open_approval_request_for_task task_id approval_type s =
    first_open_approval task_id approval_type (values s.approval_requests)

unfoldable pub store_human_request : HumanRequestRecord → WorkflowRunState → WorkflowRunState
store_human_request request s = record s {
  human_requests = insert request.id request s.human_requests;
}

unfoldable pub store_approval_request : ApprovalRequestRecord → WorkflowRunState → WorkflowRunState
store_approval_request request s = record s {
  approval_requests = insert request.id request s.approval_requests;
}

-- `if task.state != target: update_task(task.transition(target))`
unfoldable pub park : TaskState → ℕ → TaskRecord → Run (Unit {0})
park target now task =
    if task.state == target then pure tt else (move_to target none now task >> pure tt)

-- The open request of the task with the new question, or a new request.
unfoldable pub clarification_request :
    (task task_attempt_id question context_summary new_id : String) (now : ℕ)
    → WorkflowRunState
    → HumanRequestRecord
clarification_request task_id task_attempt_id question context_summary new_id now s =
    elim (open_human_request_for_task task_id HumanRequestType.clarification s) [
      | some request ↦ record request { question = question; context_summary = context_summary }
      | none ↦ record {
        id = new_id;
        workflow_run_id = s.graph.workflow_run.id;
        task_id = task_id;
        task_attempt_id = task_attempt_id;
        request_type = HumanRequestType.clarification;
        question = question;
        context_summary = context_summary;
        status = HumanRequestStatus.opened;
        answer_text = none;
        answered_by = none;
        answered_at = none;
        created_at = now;
      }
    ]

-- The request is stored before the task moves, and stays stored if the move is refused.
unfoldable pub request_clarification :
    (task_id task_attempt_id question context_summary new_id : String) (now : ℕ)
    → Run HumanRequestRecord
request_clarification task_id task_attempt_id question context_summary new_id now = do
  task ← find_task task_id
  request ← gets (clarification_request task.id task_attempt_id question context_summary new_id now)
  modify (store_human_request request)
  park TaskState.waiting_for_human now task
  pure request

-- `latest is None or latest == task_attempt_id`
abbrev pub is_latest : Option String → String → Bool
is_latest none task_attempt_id = true
is_latest (some latest) task_attempt_id = latest == task_attempt_id

unfoldable pub answer_human_request :
    (request_id answer_text answered_by : String) (now : ℕ) → Run HumanRequestRecord
answer_human_request request_id answer_text answered_by now = do
  found ← gets (λ s. lookup request_id s.human_requests)
  request ← or_raise found key_error
  task ← find_task request.task_id
  let answered : HumanRequestRecord = record request {
    status = HumanRequestStatus.answered;
    answer_text = some answer_text;
    answered_by = some answered_by;
  }
  modify (store_human_request answered)
  latest ← gets (latest_active_attempt_id task.id)
  if task.state == TaskState.waiting_for_human && is_latest latest request.task_attempt_id
      then (move_to TaskState.ready none now task >> pure answered)
      else pure answered

unfoldable pub approval_request :
    (task task_attempt_id approval_type reason new_id : String) (now : ℕ)
    → WorkflowRunState
    → ApprovalRequestRecord
approval_request task_id task_attempt_id approval_type reason new_id now s =
    elim (open_approval_request_for_task task_id approval_type s) [
      | some request ↦ record request { reason = reason }
      | none ↦ record {
        id = new_id;
        workflow_run_id = s.graph.workflow_run.id;
        task_id = task_id;
        task_attempt_id = task_attempt_id;
        approval_type = approval_type;
        reason = reason;
        status = ApprovalStatus.requested;
        resolved_by = none;
        resolved_at = none;
        created_at = now;
      }
    ]

unfoldable pub request_approval :
    (task_id task_attempt_id approval_type reason new_id : String) (now : ℕ)
    → Run ApprovalRequestRecord
request_approval task_id task_attempt_id approval_type reason new_id now = do
  task ← find_task task_id
  request ← gets (approval_request task.id task_attempt_id approval_type reason new_id now)
  modify (store_approval_request request)
  park TaskState.waiting_for_approval now task
  pure request

unfoldable pub resolve_approval :
    (request_id : String) (approved : Bool) (resolved_by : String) (now : ℕ)
    → Run ApprovalRequestRecord
resolve_approval request_id approved resolved_by now = do
  found ← gets (λ s. lookup request_id s.approval_requests)
  request ← or_raise found key_error
  task ← find_task request.task_id
  let resolved : ApprovalRequestRecord = record request {
    status = if approved then ApprovalStatus.approved else ApprovalStatus.rejected;
    resolved_by = some resolved_by;
  }
  modify (store_approval_request resolved)
  latest ← gets (latest_active_attempt_id task.id)
  if task.state == TaskState.waiting_for_approval && is_latest latest request.task_attempt_id
      then ((if approved
            then move_to TaskState.ready none now task
            else move_to TaskState.blocked (some "approval_rejected") now task)
          >> pure resolved)
      else pure resolved
