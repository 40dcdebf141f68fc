-- ===== src/Orchestration/Attempts.antt =====
-- autoweave/orchestration/state.py: the attempts at the tasks of a run. `new_id` is what
-- `generate_id("attempt")` returns.
use autoweave_library.Common.{
  ℕ, suc, Bool, true, false, Option, none, some, List, [], ◌∷◌, ◌++◌, reverse, String, Dict, lookup,
  insert, get_or, keys, pure, gets, lift, or_raise, ◌>>=◌, ◌>>◌, modify, guard, key_error,
  state_transition_error, length, member, if◌then◌else◌, ◌==◌, string_eq,
}
use autoweave_library.Models.{AttemptState, TaskAttemptRecord, attempt_state_eq, attempt_transition}
use autoweave_library.Orchestration.State.{WorkflowRunState, Run, find_task, mark_workflow_running}

unfoldable pub is_active : AttemptState → Bool
is_active state = member state (
    AttemptState.queued ∷ AttemptState.dispatching ∷ AttemptState.running ∷ AttemptState.paused
    ∷ AttemptState.needs_input ∷ [])

-- The attempts, in the given order of ids, that exist and are active.
unfoldable pub active_among : Dict String TaskAttemptRecord → List String → List TaskAttemptRecord
unfolding is_active
active_among d [] = []
active_among d (attempt_id ∷ attempt_ids) =
    let rest = active_among d attempt_ids in
    elim (lookup attempt_id d) [
      | none ↦ rest
      | some attempt ↦ if is_active attempt.state then attempt ∷ rest else rest
    ]

-- The first id of the list whose attempt exists and is active.
unfoldable pub first_active : Dict String TaskAttemptRecord → List String → Option String
unfolding is_active
first_active d [] = none
first_active d (attempt_id ∷ attempt_ids) =
    let rest = first_active d attempt_ids in
    elim (lookup attempt_id d) [
      | none ↦ rest
      | some attempt ↦ if is_active attempt.state then some attempt_id else rest
    ]

unfoldable pub attempt_ids_of : String → WorkflowRunState → List String
attempt_ids_of task_id s = get_or [] task_id s.attempts_by_task_id

unfoldable pub latest_active_attempt_id : String → WorkflowRunState → Option String
unfolding first_active attempt_ids_of
latest_active_attempt_id task_id s =
    first_active s.attempts_by_id (reverse (attempt_ids_of task_id s))

unfoldable pub active_attempts : Option String → WorkflowRunState → List TaskAttemptRecord
unfolding active_among attempt_ids_of
active_attempts none s = active_among s.attempts_by_id (keys s.attempts_by_id)
active_attempts (some task_id) s = active_among s.attempts_by_id (attempt_ids_of task_id s)

unfoldable pub record_attempt : TaskAttemptRecord → Run TaskAttemptRecord
record_attempt attempt = do
  modify (λ s. record s {
    attempts_by_id = insert attempt.id attempt s.attempts_by_id;
    attempts_by_task_id =
        insert attempt.task_id
          (if member attempt.id (attempt_ids_of attempt.task_id s)
            then attempt_ids_of attempt.task_id s
            else attempt_ids_of attempt.task_id s ++ (attempt.id ∷ []))
          s.attempts_by_task_id;
  })
  pure attempt

unfoldable pub open_attempt :
    (task_id agent_definition_id : String) (workspace_id : Option String) (config : String)
    (model_route_id lease_key : Option String) (new_id : String)
    → Run TaskAttemptRecord
open_attempt task_id agent_definition_id workspace_id config model_route_id lease_key new_id = do
  task ← find_task task_id
  latest ← gets (latest_active_attempt_id task.id)
  guard (elim latest [ none ↦ true | some _ ↦ false ]) state_transition_error
  attempt_ids ← gets (attempt_ids_of task.id)
  record_attempt (record {
    id = new_id;
    task_id = task.id;
    attempt_number = suc (length attempt_ids);
    state = AttemptState.queued;
    worker_mode = "remote";
    agent_definition_id = agent_definition_id;
    workspace_id = workspace_id;
    compiled_worker_config_json = config;
    model_route_id = model_route_id;
    lease_key = lease_key;
    started_at = none;
    ended_at = none;
  })

-- `state.attempt(attempt_id)`
unfoldable pub find_attempt : String → Run TaskAttemptRecord
find_attempt attempt_id s = or_raise (lookup attempt_id s.attempts_by_id) key_error s

unfoldable pub store_attempt : String → TaskAttemptRecord → WorkflowRunState → WorkflowRunState
store_attempt attempt_id attempt s = record s {
  attempts_by_id = insert attempt_id attempt s.attempts_by_id;
}

-- The body that the methods below share: look up, move, store.
unfoldable pub move_attempt : AttemptState → String → Run TaskAttemptRecord
move_attempt target attempt_id = do
  attempt ← find_attempt attempt_id
  updated ← lift (attempt_transition target attempt)
  modify (store_attempt attempt_id updated)
  pure updated

unfoldable pub dispatch_attempt : String → ℕ → Run TaskAttemptRecord
dispatch_attempt attempt_id now = do
  updated ← move_attempt AttemptState.dispatching attempt_id
  modify (mark_workflow_running now)
  pure updated

-- A queued attempt passes through `dispatching`.
unfoldable pub start_attempt : String → ℕ → Run TaskAttemptRecord
start_attempt attempt_id now = do
  attempt ← find_attempt attempt_id
  attempt' ←
      if attempt.state == AttemptState.queued
      then lift (attempt_transition AttemptState.dispatching attempt)
      else pure attempt
  updated ← lift (attempt_transition AttemptState.running attempt')
  modify (store_attempt attempt_id updated)
  modify (mark_workflow_running now)
  pure updated

-- The method's body is that of `start_attempt`, word for word.
unfoldable pub resume_attempt : String → ℕ → Run TaskAttemptRecord
resume_attempt attempt_id now = start_attempt attempt_id now

unfoldable pub pause_attempt : String → Run TaskAttemptRecord
pause_attempt attempt_id = move_attempt AttemptState.paused attempt_id

unfoldable pub needs_input_attempt : String → Run TaskAttemptRecord
needs_input_attempt attempt_id = move_attempt AttemptState.needs_input attempt_id

unfoldable pub complete_attempt : String → Run TaskAttemptRecord
complete_attempt attempt_id = move_attempt AttemptState.succeeded attempt_id

unfoldable pub fail_attempt : String → (recoverable : Bool) → Run TaskAttemptRecord
fail_attempt attempt_id recoverable =
    move_attempt (if recoverable then AttemptState.orphaned else AttemptState.errored) attempt_id

unfoldable pub abort_attempt : String → Run TaskAttemptRecord
abort_attempt attempt_id = move_attempt AttemptState.aborted attempt_id
