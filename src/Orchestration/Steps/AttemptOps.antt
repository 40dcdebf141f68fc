-- ===== src/Orchestration/Steps/AttemptOps.antt =====
-- The operations of Orchestration/Attempts leave the tasks and the edges alone, also where they
-- raise on the way.
use autoweave_library.Common.{
  ℕ, refl, true, false, Option, none, some, String, lookup, pure, modify, lift, arith, ◌>>=◌, ◌>>◌,
  ◌==◌, string_eq, key_error, state_transition_error,
}
use autoweave_library.Models.{AttemptState, TaskAttemptRecord, attempt_transition, attempt_state_eq}
use autoweave_library.Orchestration.State.{WorkflowRunState, mark_workflow_running}
use autoweave_library.Orchestration.State.Valid.{IsValid}
use autoweave_library.Orchestration.Attempts.{
  open_attempt, record_attempt, find_attempt, store_attempt, move_attempt, dispatch_attempt,
  start_attempt, latest_active_attempt_id,
}
use autoweave_library.Orchestration.Steps.{SameTasks, SameTasks-refl, SameTasks-trans}
use autoweave_library.Orchestration.Steps.Rules.{
  bind-ends, guard-ends, if-ends, option-ends, result-ends, find_task-ends,
}
use autoweave_library.Orchestration.Steps.TaskOps.{mark_workflow_running-SameTasks}

pub record_attempt-SameTasks :
    (attempt : TaskAttemptRecord) (s : WorkflowRunState) → SameTasks s (record_attempt attempt s).1
unfolding record_attempt
record_attempt-SameTasks attempt s = record {
  same_ids = refl;
  same_keys = refl;
  same_tasks = refl;
  same_edges = refl;
}

pub open_attempt-SameTasks :
    (task_id agent_definition_id : String) (workspace_id : Option String) (config : String)
    (model_route_id lease_key : Option String) (new_id : String) (s : WorkflowRunState)
    → IsValid s
    → SameTasks s
        (open_attempt task_id agent_definition_id workspace_id config model_route_id lease_key
          new_id s).1
unfolding open_attempt
open_attempt-SameTasks task_id agent_definition_id workspace_id config model_route_id lease_key
      new_id s v =
    let stay = SameTasks-refl s in
    find_task-ends (SameTasks s) s task_id _ v stay λ t found.
      guard-ends (SameTasks s) s
        (elim (latest_active_attempt_id t.id s) [ none ↦ true | some _ ↦ false ])
        state_transition_error _ stay λ _. record_attempt-SameTasks _ s

store_attempt-SameTasks :
    (attempt_id : String) (attempt : TaskAttemptRecord) (s : WorkflowRunState)
    → SameTasks s (store_attempt attempt_id attempt s)
unfolding store_attempt
store_attempt-SameTasks attempt_id attempt s = record {
  same_ids = refl;
  same_keys = refl;
  same_tasks = refl;
  same_edges = refl;
}

pub move_attempt-SameTasks :
    (target : AttemptState) (attempt_id : String) (s : WorkflowRunState)
    → SameTasks s (move_attempt target attempt_id s).1
unfolding move_attempt find_attempt
move_attempt-SameTasks target attempt_id s =
    let stay = SameTasks-refl s in
    option-ends (SameTasks s) s (lookup attempt_id s.attempts_by_id) key_error _ stay λ a _.
      result-ends (SameTasks s) s (attempt_transition target a) _ stay
        λ a' _. store_attempt-SameTasks attempt_id a' s

mark_stored-SameTasks :
    (attempt_id : String) (attempt : TaskAttemptRecord) (now : ℕ) (s : WorkflowRunState)
    → SameTasks s (mark_workflow_running now (store_attempt attempt_id attempt s))
unfolding mark_workflow_running store_attempt
mark_stored-SameTasks attempt_id attempt now s = ground arith

pub dispatch_attempt-SameTasks :
    (attempt_id : String) (now : ℕ) (s : WorkflowRunState)
    → SameTasks s (dispatch_attempt attempt_id now s).1
unfolding dispatch_attempt
dispatch_attempt-SameTasks attempt_id now s =
    let moved = move_attempt-SameTasks AttemptState.dispatching attempt_id s in
    bind-ends (SameTasks s) s (move_attempt AttemptState.dispatching attempt_id) _ moved
      λ a _. SameTasks-trans moved (mark_workflow_running-SameTasks now _)

pub start_attempt-SameTasks :
    (attempt_id : String) (now : ℕ) (s : WorkflowRunState)
    → SameTasks s (start_attempt attempt_id now s).1
unfolding start_attempt find_attempt
start_attempt-SameTasks attempt_id now s =
    let stay = SameTasks-refl s in
    option-ends (SameTasks s) s (lookup attempt_id s.attempts_by_id) key_error _ stay λ a _.
      if-ends (SameTasks s) s (a.state == AttemptState.queued)
        (lift (attempt_transition AttemptState.dispatching a)) (pure a) _
        (λ _.
          result-ends (SameTasks s) s (attempt_transition AttemptState.dispatching a) _ stay
            (λ b _. run_from b))
        (λ _. run_from a)
  where
    run_from :
        (b : TaskAttemptRecord)
        → SameTasks s
            ((lift (attempt_transition AttemptState.running b) >>= λ updated.
                modify (store_attempt attempt_id updated)
                >> (modify (mark_workflow_running now) >> pure updated))
              s).1
    run_from b =
        result-ends (SameTasks s) s (attempt_transition AttemptState.running b) _ (SameTasks-refl s)
          λ c _. mark_stored-SameTasks attempt_id c now s
