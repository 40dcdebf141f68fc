-- ===== src/Orchestration/Steps/RequestOps.antt =====
-- The operations of Orchestration/Attempts, Orchestration/Requests and Orchestration/Service take
-- legal steps only, also where they raise on the way.
use autoweave_library.Common.{
  ℕ, ◌≡◌, refl, Bool, ◌&&◌, Option, none, some, String, lookup, pure, arith, ◌>>◌, ◌==◌, string_eq,
  if◌then◌else◌, key_error,
}
use autoweave_library.Models.{
  TaskState, TaskRecord, task_state_eq, attempt_state_eq, HumanRequestRecord, ApprovalRequestRecord,
  HumanRequestStatus, ApprovalStatus,
}
use autoweave_library.Orchestration.State.{WorkflowRunState, move_to}
use autoweave_library.Orchestration.State.Valid.{IsValid}
use autoweave_library.Orchestration.Requests.{
  park, request_clarification, request_approval, answer_human_request, resolve_approval,
  store_human_request, store_approval_request, clarification_request, approval_request, is_latest,
}
use autoweave_library.Orchestration.Attempts.{latest_active_attempt_id}
use autoweave_library.Orchestration.Steps.{
  IsStarted, SameTasks, quiet, move, Steps, here, next, quiet-IsValid,
}
use autoweave_library.Orchestration.Steps.Rules.{
  if-end, then_pure, option-ends, find_task-ends, move_to-end,
}

store_human_request-SameTasks :
    (request : HumanRequestRecord) (s : WorkflowRunState)
    → SameTasks s (store_human_request request s)
unfolding store_human_request
store_human_request-SameTasks request s = record {
  same_ids = refl;
  same_keys = refl;
  same_tasks = refl;
  same_edges = refl;
}

store_approval_request-SameTasks :
    (request : ApprovalRequestRecord) (s : WorkflowRunState)
    → SameTasks s (store_approval_request request s)
unfolding store_approval_request
store_approval_request-SameTasks request s = record {
  same_ids = refl;
  same_keys = refl;
  same_tasks = refl;
  same_edges = refl;
}

-- A plain move of a stored task after a quiet change.
quiet_move-Steps :
    (target : TaskState) (reason : Option String) (now : ℕ) (t : TaskRecord)
    (s u : WorkflowRunState)
    → ¬ IsStarted target
    → IsValid s
    → SameTasks s u
    → lookup t.id s.tasks_by_id ≡ some t
    → Steps s (move_to target reason now t u).1
quiet_move-Steps target reason now t s u plain v q found =
    move_to-end (Steps s) u target reason now t (quiet-IsValid s u q v) (next here (quiet q))
      λ t' e.
        next (next here (quiet q))
          (move target reason now t t' (rw q.same_ids found) e (λ h. absurd (plain h)) refl)

park-Steps :
    (target : TaskState) (now : ℕ) (t : TaskRecord) (s u : WorkflowRunState)
    → ¬ IsStarted target
    → IsValid s
    → SameTasks s u
    → lookup t.id s.tasks_by_id ≡ some t
    → Steps s (park target now t u).1
unfolding park
park-Steps target now t s u plain v q found =
    if-end (Steps s) u (t.state == target) (pure tt) (move_to target none now t >> pure tt)
      (λ _. next here (quiet q))
      (λ _.
        then_pure (Steps s) u (move_to target none now t) (λ _. tt)
          (quiet_move-Steps target none now t s u plain v q found))

pub request_clarification-Steps :
    (task_id task_attempt_id question context_summary new_id : String) (now : ℕ)
    (s : WorkflowRunState)
    → IsValid s
    → Steps s
        (request_clarification task_id task_attempt_id question context_summary new_id now s).1
unfolding request_clarification
request_clarification-Steps task_id task_attempt_id question context_summary new_id now s v =
    find_task-ends (Steps s) s task_id _ v here λ t found.
      let request =
        clarification_request t.id task_attempt_id question context_summary new_id now s in
      let u = store_human_request request s in
      then_pure (Steps s) u (park TaskState.waiting_for_human now t) (λ _. request)
        (park-Steps TaskState.waiting_for_human now t s u (λ h. ground arith) v
          (store_human_request-SameTasks request s) found)

pub request_approval-Steps :
    (task_id task_attempt_id approval_type reason new_id : String) (now : ℕ) (s : WorkflowRunState)
    → IsValid s
    → Steps s (request_approval task_id task_attempt_id approval_type reason new_id now s).1
unfolding request_approval
request_approval-Steps task_id task_attempt_id approval_type reason new_id now s v =
    find_task-ends (Steps s) s task_id _ v here λ t found.
      let request = approval_request t.id task_attempt_id approval_type reason new_id now s in
      let u = store_approval_request request s in
      then_pure (Steps s) u (park TaskState.waiting_for_approval now t) (λ _. request)
        (park-Steps TaskState.waiting_for_approval now t s u (λ h. ground arith) v
          (store_approval_request-SameTasks request s) found)

pub answer_human_request-Steps :
    (request_id answer_text answered_by : String) (now : ℕ) (s : WorkflowRunState)
    → IsValid s
    → Steps s (answer_human_request request_id answer_text answered_by now s).1
unfolding answer_human_request
answer_human_request-Steps request_id answer_text answered_by now s v =
    option-ends (Steps s) s (lookup request_id s.human_requests) key_error _ here λ request _.
      find_task-ends (Steps s) s request.task_id _ v here λ t found.
        let answered : HumanRequestRecord = record request {
          status = HumanRequestStatus.answered;
          answer_text = some answer_text;
          answered_by = some answered_by;
        } in
        let u = store_human_request answered s in
        let q = store_human_request-SameTasks answered s in
        if-end (Steps s) u
          (t.state == TaskState.waiting_for_human
            && is_latest (latest_active_attempt_id t.id u) request.task_attempt_id)
          (move_to TaskState.ready none now t >> pure answered) (pure answered)
          (λ _.
            then_pure (Steps s) u (move_to TaskState.ready none now t) (λ _. answered)
              (quiet_move-Steps TaskState.ready none now t s u (λ h. ground arith) v q found))
          (λ _. next here (quiet q))

pub resolve_approval-Steps :
    (request_id : String) (approved : Bool) (resolved_by : String) (now : ℕ) (s : WorkflowRunState)
    → IsValid s
    → Steps s (resolve_approval request_id approved resolved_by now s).1
unfolding resolve_approval
resolve_approval-Steps request_id approved resolved_by now s v =
    option-ends (Steps s) s (lookup request_id s.approval_requests) key_error _ here λ request _.
      find_task-ends (Steps s) s request.task_id _ v here λ t found.
        let resolved : ApprovalRequestRecord = record request {
          status = if approved then ApprovalStatus.approved else ApprovalStatus.rejected;
          resolved_by = some resolved_by;
        } in
        let u = store_approval_request resolved s in
        let q = store_approval_request-SameTasks resolved s in
        let unblock = move_to TaskState.ready none now t in
        let block = move_to TaskState.blocked (some "approval_rejected") now t in
        if-end (Steps s) u
          (t.state == TaskState.waiting_for_approval
            && is_latest (latest_active_attempt_id t.id u) request.task_attempt_id)
          ((if approved then unblock else block) >> pure resolved) (pure resolved)
          (λ _.
            then_pure (Steps s) u (if approved then unblock else block) (λ _. resolved)
              (if-end (Steps s) u approved unblock block
                (λ _. quiet_move-Steps TaskState.ready none now t s u (λ h. ground arith) v q found)
                (λ _.
                  quiet_move-Steps TaskState.blocked (some "approval_rejected") now t s u
                    (λ h. ground arith) v q found)))
          (λ _. next here (quiet q))
