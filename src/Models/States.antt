-- ===== src/Models/States.antt =====
-- autoweave/models.py: the enumerations that the orchestration compares, with Python's `==` and
-- `in` on their members.
use autoweave_library.Common.{ℕ, ◌≡◌, ◌↔◌, true, arith, HasEq, nat_beq}

pub data TaskState : Type 0 where
  created ready in_progress waiting_for_dependency waiting_for_human : TaskState
  waiting_for_approval blocked completed failed cancelled : TaskState

pub data AttemptState : Type 0 where
  queued dispatching running paused needs_input : AttemptState
  succeeded errored aborted orphaned : AttemptState

pub data WorkflowRunStatus : Type 0 where
  created running waiting completed failed cancelled : WorkflowRunStatus

pub data ApprovalStatus : Type 0 where
  requested approved rejected cancelled : ApprovalStatus

pub data HumanRequestStatus : Type 0 where
  opened answered cancelled : HumanRequestStatus

pub data HumanRequestType : Type 0 where
  clarification approval blocker state_transition : HumanRequestType

-- The place of a member in its enumeration.
abbrev pub task_state_place : TaskState → ℕ
task_state_place TaskState.created = 0
task_state_place TaskState.ready = 1
task_state_place TaskState.in_progress = 2
task_state_place TaskState.waiting_for_dependency = 3
task_state_place TaskState.waiting_for_human = 4
task_state_place TaskState.waiting_for_approval = 5
task_state_place TaskState.blocked = 6
task_state_place TaskState.completed = 7
task_state_place TaskState.failed = 8
task_state_place TaskState.cancelled = 9

pub task_state_eq_lem :
    (a b : TaskState) → (nat_beq (task_state_place a) (task_state_place b) ≡ true) ↔ (a ≡ b)
task_state_eq_lem a b = ground arith

instance abbrev pub task_state_eq : HasEq TaskState
task_state_eq = record {
  same = λ a b. nat_beq (task_state_place a) (task_state_place b);
  same_iff = task_state_eq_lem;
}

-- The place of a member in its enumeration.
abbrev pub attempt_state_place : AttemptState → ℕ
attempt_state_place AttemptState.queued = 0
attempt_state_place AttemptState.dispatching = 1
attempt_state_place AttemptState.running = 2
attempt_state_place AttemptState.paused = 3
attempt_state_place AttemptState.needs_input = 4
attempt_state_place AttemptState.succeeded = 5
attempt_state_place AttemptState.errored = 6
attempt_state_place AttemptState.aborted = 7
attempt_state_place AttemptState.orphaned = 8

pub attempt_state_eq_lem :
    (a b : AttemptState)
    → (nat_beq (attempt_state_place a) (attempt_state_place b) ≡ true) ↔ (a ≡ b)
attempt_state_eq_lem a b = ground arith

instance abbrev pub attempt_state_eq : HasEq AttemptState
attempt_state_eq = record {
  same = λ a b. nat_beq (attempt_state_place a) (attempt_state_place b);
  same_iff = attempt_state_eq_lem;
}

-- The place of a member in its enumeration.
abbrev pub workflow_run_status_place : WorkflowRunStatus → ℕ
workflow_run_status_place WorkflowRunStatus.created = 0
workflow_run_status_place WorkflowRunStatus.running = 1
workflow_run_status_place WorkflowRunStatus.waiting = 2
workflow_run_status_place WorkflowRunStatus.completed = 3
workflow_run_status_place WorkflowRunStatus.failed = 4
workflow_run_status_place WorkflowRunStatus.cancelled = 5

pub workflow_run_status_eq_lem :
    (a b : WorkflowRunStatus)
    → (nat_beq (workflow_run_status_place a) (workflow_run_status_place b) ≡ true) ↔ (a ≡ b)
workflow_run_status_eq_lem a b = ground arith

instance abbrev pub workflow_run_status_eq : HasEq WorkflowRunStatus
workflow_run_status_eq = record {
  same = λ a b. nat_beq (workflow_run_status_place a) (workflow_run_status_place b);
  same_iff = workflow_run_status_eq_lem;
}

-- The place of a member in its enumeration.
abbrev pub approval_status_place : ApprovalStatus → ℕ
approval_status_place ApprovalStatus.requested = 0
approval_status_place ApprovalStatus.approved = 1
approval_status_place ApprovalStatus.rejected = 2
approval_status_place ApprovalStatus.cancelled = 3

pub approval_status_eq_lem :
    (a b : ApprovalStatus)
    → (nat_beq (approval_status_place a) (approval_status_place b) ≡ true) ↔ (a ≡ b)
approval_status_eq_lem a b = ground arith

instance abbrev pub approval_status_eq : HasEq ApprovalStatus
approval_status_eq = record {
  same = λ a b. nat_beq (approval_status_place a) (approval_status_place b);
  same_iff = approval_status_eq_lem;
}

-- The place of a member in its enumeration.
abbrev pub human_request_status_place : HumanRequestStatus → ℕ
human_request_status_place HumanRequestStatus.opened = 0
human_request_status_place HumanRequestStatus.answered = 1
human_request_status_place HumanRequestStatus.cancelled = 2

pub human_request_status_eq_lem :
    (a b : HumanRequestStatus)
    → (nat_beq (human_request_status_place a) (human_request_status_place b) ≡ true) ↔ (a ≡ b)
human_request_status_eq_lem a b = ground arith

instance abbrev pub human_request_status_eq : HasEq HumanRequestStatus
human_request_status_eq = record {
  same = λ a b. nat_beq (human_request_status_place a) (human_request_status_place b);
  same_iff = human_request_status_eq_lem;
}

-- The place of a member in its enumeration.
abbrev pub human_request_type_place : HumanRequestType → ℕ
human_request_type_place HumanRequestType.clarification = 0
human_request_type_place HumanRequestType.approval = 1
human_request_type_place HumanRequestType.blocker = 2
human_request_type_place HumanRequestType.state_transition = 3

pub human_request_type_eq_lem :
    (a b : HumanRequestType)
    → (nat_beq (human_request_type_place a) (human_request_type_place b) ≡ true) ↔ (a ≡ b)
human_request_type_eq_lem a b = ground arith

instance abbrev pub human_request_type_eq : HasEq HumanRequestType
human_request_type_eq = record {
  same = λ a b. nat_beq (human_request_type_place a) (human_request_type_place b);
  same_iff = human_request_type_eq_lem;
}
