-- ===== src/Orchestration/Outcomes.antt =====
-- What the operations on a task answer, branch by branch, in a state whose indices are right.
use autoweave_library.Common.{
  insert, values, Option-cases, Bool-cases, inl, inr, ◌&&◌, ◌==◌, ==_iff, ℕ, ◌≡◌, refl, Bool, true,
  false, Option, none, some, List, [], ◌∷◌, String, lookup, Result, ok, err, lift, ◌>>=◌,
  state_transition_error, arith, string_eq, if◌then◌else◌,
}
use autoweave_library.Models.{
  WorkflowRunStatus, HumanRequestRecord, HumanRequestStatus, HumanRequestType,
  human_request_status_eq, human_request_type_eq, TaskState, TaskRecord, transition, task_state_eq,
}
use autoweave_library.Orchestration.State.{
  WorkflowRunState, find_task, lookup_or_raise, move_to, update_task,
}
use autoweave_library.Orchestration.State.Valid.{IsValid, put_task, update_task_lem}
use autoweave_library.Orchestration.State.Dependencies.{
  satisfied_result, hard_dependencies_satisfied_lem,
}
use autoweave_library.Orchestration.Tasks.{block_task, may_block, promote_task}
use autoweave_library.Orchestration.Requests.{
  request_clarification, clarification_request, store_human_request, park, first_open_request,
  open_human_request_for_task,
}

-- A task as a move leaves it.
abbrev pub moved_task : TaskState → Option String → ℕ → TaskRecord → TaskRecord
moved_task target reason now t = record t {
  state = target;
  block_reason = reason;
  updated_at = now;
}

move_to_lem :
    (target : TaskState) (reason : Option String) (now : ℕ) (t : TaskRecord) (s : WorkflowRunState)
    → IsValid s
    → move_to target reason now t s ≡ elim (transition target reason now t) [
      | ok t' ↦ (ok t', put_task t' s)
      | err e ↦ (err e, s)
    ]
unfolding move_to
move_to_lem target reason now t s v = split (transition target reason now t)
  where
    split :
        (r : Result TaskRecord)
        → (lift r >>= update_task) s
          ≡ elim r [ ok t' ↦ (ok t', put_task t' s) | err e ↦ (err e, s) ]
    split (ok t') = update_task_lem t' s v
    split (err e) = refl

-- The states from which the table lets a task fail, and from which it lets a task be blocked.
abbrev pub can_fail : TaskState → Bool
can_fail TaskState.ready = true
can_fail TaskState.in_progress = true
can_fail TaskState.blocked = true
can_fail _ = false

abbrev pub can_block : TaskState → Bool
can_block TaskState.ready = true
can_block TaskState.in_progress = true
can_block TaskState.waiting_for_human = true
can_block TaskState.waiting_for_approval = true
can_block _ = false

-- The time at which a run is over: as it stands, or `now`.
abbrev pub over_at : Option ℕ → ℕ → Option ℕ
over_at none now = some now
over_at (some ended) now = some ended

-- The state with its run in the status FAILED, and over.
abbrev pub with_failed_run : ℕ → WorkflowRunState → WorkflowRunState
with_failed_run now s = record s {
  graph = record (s.graph) {
    workflow_run = record (s.graph.workflow_run) {
      status = WorkflowRunStatus.failed;
      ended_at = over_at s.graph.workflow_run.ended_at now;
    };
  };
}

module _ (k reason : String) (now : ℕ) (s : WorkflowRunState) (t : TaskRecord) (v : IsValid s)
    (found : find_task k s ≡ (ok t, s)) where
  -- In a state whose indices are right, `block_task` moves a ready or running task, or one that
  -- waits for a human or an approval, to BLOCKED with the given reason; from every other state,
  -- WAITING_FOR_DEPENDENCY included, which its own check lets through, it raises and changes
  -- nothing.
  pub block_task_lem : block_task k reason now s ≡ (
      if can_block t.state
      then (
        ok (moved_task TaskState.blocked (some reason) now t),
        put_task (moved_task TaskState.blocked (some reason) now t) s,
      )
      else (err state_transition_error, s))
  unfolding block_task may_block transition
  block_task_lem = rw found (ground (arith, move_to_lem TaskState.blocked (some reason) now t s v))

-- What a round of `promote_ready_tasks` does to a task whose hard dependencies are known to be met
-- or not: the tasks it reports and the state it leaves.
abbrev pub promoted :
    TaskState
    → Bool
    → ℕ
    → TaskRecord
    → WorkflowRunState
    → Result (List TaskRecord) × WorkflowRunState
promoted TaskState.created true now t s =
    let t' = moved_task TaskState.ready none now t in (ok (t' ∷ []), put_task t' s)
promoted TaskState.created false now t s =
    (ok [], put_task (moved_task TaskState.waiting_for_dependency none now t) s)
promoted TaskState.waiting_for_dependency true now t s =
    let t' = moved_task TaskState.ready none now t in (ok (t' ∷ []), put_task t' s)
promoted TaskState.waiting_for_dependency false now t s = (ok [], s)
promoted TaskState.ready true now t s = (ok (t ∷ []), s)
promoted TaskState.ready false now t s = (err state_transition_error, s)
promoted _ _ now t s = (ok [], s)

-- In a state whose indices are right, and where the check of the hard dependencies of a stored
-- task returns, a round of `promote_ready_tasks` on that task makes a new or waiting task READY
-- if they are met, makes a new task wait if not, and leaves every other task alone; on a READY
-- task whose dependencies are not met it raises and changes nothing.
pub promote_task_lem :
    (k : String) (now : ℕ) (s : WorkflowRunState) (t : TaskRecord) (met : Bool)
    → IsValid s
    → lookup k s.tasks_by_id ≡ some t
    → satisfied_result t.id s ≡ ok met
    → promote_task now k s ≡ promoted t.state met now t s
unfolding promote_task lookup_or_raise transition
promote_task_lem k now s t met v found answer = rw found (
    ground (
      arith,
      hard_dependencies_satisfied_lem t.id s,
      answer,
      move_to_lem TaskState.ready none now t s v,
      move_to_lem TaskState.waiting_for_dependency none now t s v,
    ))

-- The states in which a task can be asked to wait for a human.
abbrev pub can_wait : TaskState → Bool
can_wait TaskState.ready = true
can_wait TaskState.in_progress = true
can_wait TaskState.waiting_for_human = true
can_wait _ = false

first_open_request-open :
    (task_id : String) (kind : HumanRequestType) (rs : List HumanRequestRecord)
    (r : HumanRequestRecord)
    → first_open_request task_id kind rs ≡ some r
    → (r.task_id ≡ task_id) × (r.status ≡ HumanRequestStatus.opened)
unfolding first_open_request
first_open_request-open task_id kind [] r h = absurd (ground arith)
first_open_request-open task_id kind (q ∷ rs) r h =
    elim (Bool-cases
      (q.task_id == task_id && q.request_type == kind && q.status == HumanRequestStatus.opened)) [
        | inl here ↦
            let e : some q ≡ some r = (rw (first_open_request, here) at h) in
            ground (arith, e, ==_iff q.task_id task_id, ==_iff q.status HumanRequestStatus.opened)
        | inr later ↦
            first_open_request-open task_id kind rs r (rw (first_open_request, later) at h)
      ]

-- An open request that puts the question for the task.
abbrev pub Asks : (task_id question summary : String) → HumanRequestRecord → Type 0
Asks task_id question summary r =
    (r.task_id ≡ task_id)
    × (r.status ≡ HumanRequestStatus.opened)
    × (r.question ≡ question)
    × (r.context_summary ≡ summary)

clarification_request-Asks :
    (task_id attempt_id question summary new_id : String) (now : ℕ) (s : WorkflowRunState)
    → Asks task_id question summary
        (clarification_request task_id attempt_id question summary new_id now s)
unfolding clarification_request open_human_request_for_task
clarification_request-Asks task_id attempt_id question summary new_id now s =
    elim (Option-cases (open_human_request_for_task task_id HumanRequestType.clarification s)) [
      | inl new ↦ rw (clarification_request, new) (refl, refl, refl, refl)
      | inr (r, found) ↦
          let (same, open_still) =
            first_open_request-open task_id HumanRequestType.clarification (values s.human_requests)
              r found in
          rw (clarification_request, found) (same, open_still, refl, refl)
    ]

-- In a state whose indices are right, `request_clarification` on a task that can neither wait for
-- a human nor does so already raises, and yet it leaves an open request with the question for the
-- task among the human requests, and nothing else changed.
pub request_clarification_refused :
    (k attempt_id question summary new_id : String) (now : ℕ) (s : WorkflowRunState)
    (t : TaskRecord)
    → IsValid s
    → find_task k s ≡ (ok t, s)
    → can_wait t.state ≡ false
    → (r : HumanRequestRecord) × (Asks t.id question summary r
        × (request_clarification k attempt_id question summary new_id now s ≡ (
          err state_transition_error,
          record s { human_requests = insert r.id r s.human_requests },
        )))
unfolding request_clarification park move_to transition store_human_request
request_clarification_refused k attempt_id question summary new_id now s t v found idle =
    let r = clarification_request t.id attempt_id question summary new_id now s in
    (
      r,
      (
        clarification_request-Asks t.id attempt_id question summary new_id now s,
        rw found (ground arith),
      ),
    )
