-- ===== src/Celery/Queue.antt =====
-- autoweave/celery_queue.py: the queueing of actions and the recovery of runs over the repository in
-- memory. The broker keeps the messages it was sent; the id it gives to the next one is the argument
-- `new_id`. `user_request` answers `str(root_input_json.get("user_request") or "")` of a run.
pub mod Recovery
use autoweave_library.Common.{
  ℕ, zero, suc, Bool, true, false, not, ◌&&◌, Option, none, some, List, [], ◌∷◌, ◌++◌, map, String,
  Dict, keep, any, member, length, max, is_some_text, strip, if◌then◌else◌, ◌==◌, string_eq,
}
use autoweave_library.Models.{
  WorkflowRunRecord, WorkflowRunStatus, HumanRequestRecord, HumanRequestStatus,
  ApprovalRequestRecord, ApprovalStatus, workflow_run_status_eq, human_request_status_eq,
  approval_status_eq,
}
use autoweave_library.Storage.Repository.{Repository, list_workflow_runs}
use autoweave_library.Storage.Repository.Rows.{
  list_human_requests_for_run, list_approval_requests_for_run,
}

-- The payload of a workflow action.
pub record WorkflowAction : Type 0 where
  pub action : String
  pub root : String
  pub environ : Dict String String
  pub workflow_run_id : String
  pub request : String
  pub dispatch : Bool
  pub max_steps : ℕ
  pub human_request_id : Option String
  pub approval_request_id : Option String
  pub approved : Option Bool

pub record CeleryWorkflowDispatchReceipt : Type 0 where
  pub workflow_run_id : String
  pub celery_task_id : String
  pub action : String
  pub queue : String
  pub dispatch : Bool
  pub max_steps : ℕ

pub record CeleryWorkflowDispatcher : Type 0 where
  pub root : String
  pub environ : Dict String String
  pub runtime_queue_names : List String

-- What the broker was sent: payloads with their queues.
abbrev pub Broker : Type 0
Broker = List (WorkflowAction × String)

unfoldable pub celery_queue_name : List String → String
celery_queue_name [] = "dispatch"
celery_queue_name (name ∷ names) = name

-- `_queue_names(runtime_config)[0]`
unfoldable pub first_queue : List String → String
unfolding celery_queue_name is_some_text strip
first_queue names = celery_queue_name (keep is_some_text (map strip names))

-- `max(1, int(max_steps))`, where a negative number counts as 0.
unfoldable pub workflow_payload :
    CeleryWorkflowDispatcher
    → (action workflow_run_id request : String) → Bool
    → ℕ
    → (human_request_id approval_request_id : Option String) → Option Bool
    → WorkflowAction
workflow_payload dispatcher action run request dispatch steps human approval approved = record {
  action = action;
  root = dispatcher.root;
  environ = dispatcher.environ;
  workflow_run_id = run;
  request = request;
  dispatch = dispatch;
  max_steps = max 1 steps;
  human_request_id = human;
  approval_request_id = approval;
  approved = approved;
}

unfoldable pub receipt_of :
    (celery_task_id queue : String) → WorkflowAction → CeleryWorkflowDispatchReceipt
receipt_of celery_task_id queue payload = record {
  workflow_run_id = payload.workflow_run_id;
  celery_task_id = celery_task_id;
  action = payload.action;
  queue = queue;
  dispatch = payload.dispatch;
  max_steps = payload.max_steps;
}

-- `enqueue_workflow_action`, on the payload of its arguments.
unfoldable pub enqueue_workflow_action :
    CeleryWorkflowDispatcher
    → (new_id : ℕ → String) → WorkflowAction
    → Broker
    → CeleryWorkflowDispatchReceipt × Broker
unfolding first_queue receipt_of
enqueue_workflow_action dispatcher new_id payload broker =
    let queue_name = first_queue dispatcher.runtime_queue_names in
    (receipt_of (new_id (length broker)) queue_name payload, broker ++ ((payload, queue_name) ∷ []))

-- The checks of a run in `recover_workflows`; `request_text` is its stripped request.
unfoldable pub is_recoverable :
    (project_id request_text : String) → Repository → WorkflowRunRecord → Bool
unfolding is_some_text list_human_requests_for_run list_approval_requests_for_run
is_recoverable project_id request_text repository run =
    run.project_id == project_id
    && not (
        member run.status (
          WorkflowRunStatus.completed ∷ WorkflowRunStatus.failed ∷ WorkflowRunStatus.cancelled
          ∷ []))
    && not (
        any (λ (r : HumanRequestRecord). r.status == HumanRequestStatus.opened)
          (list_human_requests_for_run run.id repository))
    && not (
        any (λ (r : ApprovalRequestRecord). r.status == ApprovalStatus.requested)
          (list_approval_requests_for_run run.id repository))
    && is_some_text request_text

unfoldable pub continue_payload :
    CeleryWorkflowDispatcher → Bool → ℕ → String → WorkflowRunRecord → WorkflowAction
unfolding workflow_payload
continue_payload dispatcher dispatch steps request_text run =
    workflow_payload dispatcher "continue_workflow" run.id request_text dispatch steps none none
      none

module _ (dispatcher : CeleryWorkflowDispatcher) (new_id : ℕ → String)
    (user_request : WorkflowRunRecord → String) (dispatch : Bool) (steps : ℕ) where
  -- The loop of `recover_workflows` over the runs.
  unfoldable pub recover_runs :
      (project_id : String)
      → Repository
      → List WorkflowRunRecord
      → Broker
      → List CeleryWorkflowDispatchReceipt × Broker
  unfolding is_recoverable continue_payload enqueue_workflow_action strip
  recover_runs project_id repository [] broker = ([], broker)
  recover_runs project_id repository (run ∷ runs) broker =
      let request_text = strip (user_request run) in
      let payload = continue_payload dispatcher dispatch steps request_text run in
      if is_recoverable project_id request_text repository run
      then (let (receipt, sent) = enqueue_workflow_action dispatcher new_id payload broker in
          let (receipts, broker') = recover_runs project_id repository runs sent in
          (receipt ∷ receipts, broker'))
      else recover_runs project_id repository runs broker

  -- `recover_workflows` once the project is known; `wanted` is the project id as it was found.
  unfoldable pub recover_workflows :
      (wanted : String) → Repository → Broker → List CeleryWorkflowDispatchReceipt × Broker
  unfolding recover_runs is_some_text strip
  recover_workflows wanted repository broker =
      let project_id = strip wanted in
      if is_some_text project_id
      then recover_runs project_id repository (list_workflow_runs repository) broker
      else ([], broker)
