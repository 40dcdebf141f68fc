-- ===== src/Orchestration/Safety/Reach.antt =====
-- Runs: any sequence of operations on a run's state, whatever their arguments, and whether they
-- return or raise.
use autoweave_library.Common.{
  ℕ, ◌≡◌, refl, Bool, true, false, ◌||◌, Option, none, List, [], ◌∷◌, String, Dict, lookup, has_key,
  pure, state_transition_error, arith, All, any, ◌>>=◌, string_eq,
}
use autoweave_library.Models.{AttemptState, TaskRecord, TaskEdgeRecord, TaskAttemptRecord}
use autoweave_library.Orchestration.Graph.Counts.{task_ids}
use autoweave_library.Orchestration.State.{WorkflowRunState, Run}
use autoweave_library.Orchestration.State.Valid.{IsValid}
use autoweave_library.Orchestration.Tasks.{
  start_task, fail_task, unblock_task, block_task, complete_task, promote_ready_tasks,
  add_dynamic_tasks, dynamic_tasks_fit,
}
use autoweave_library.Orchestration.Attempts.{
  open_attempt, record_attempt, move_attempt, dispatch_attempt, start_attempt, resume_attempt,
  pause_attempt, needs_input_attempt, complete_attempt, fail_attempt, abort_attempt,
}
use autoweave_library.Orchestration.Requests.{
  request_clarification, answer_human_request, request_approval, resolve_approval,
}
use autoweave_library.Orchestration.Service.{
  finalize_attempt_success, finalize_attempt_failure, recover_attempt,
}
use autoweave_library.Orchestration.Steps.{quiet, Steps, here, next, Steps-IsValid, Steps-trans}
use autoweave_library.Orchestration.Steps.Rules.{bind-ends, then_pure, guard-ends}
use autoweave_library.Orchestration.Steps.TaskOps.{
  start_task-Steps, fail_task-Steps, unblock_task-Steps, block_task-Steps, complete_task-Steps,
}
use autoweave_library.Orchestration.Steps.PromoteOps.{promote_ready_tasks-Steps}
use autoweave_library.Orchestration.Steps.AttemptOps.{
  open_attempt-SameTasks, record_attempt-SameTasks, move_attempt-SameTasks,
  dispatch_attempt-SameTasks, start_attempt-SameTasks,
}
use autoweave_library.Orchestration.Steps.RequestOps.{
  request_clarification-Steps, answer_human_request-Steps, request_approval-Steps,
  resolve_approval-Steps,
}
use autoweave_library.Orchestration.Safety.{IsSafe, Steps-IsSafe}
use autoweave_library.Orchestration.Safety.Dynamic.{IsDistinct, task_keys}
use autoweave_library.Orchestration.Safety.Append.{
  IsFresh, LeadsToNew, NoneStarted, append_tasks-IsValid, append_tasks-IsSafe,
}

-- The operations that keep the set of tasks, with their arguments.
pub data Operation : Type 0 where
  start : (task_id : String) (now : ℕ) → Operation
  fail : (task_id reason : String) (now : ℕ) → Operation
  unblock : (task_id : String) (now : ℕ) → Operation
  block : (task_id reason : String) (now : ℕ) → Operation
  complete : (task_id : String) (now : ℕ) → Operation
  promote_ready : (now : ℕ) → Operation
  open_new :
      (task_id agent : String) (workspace : Option String) (config : String)
      (route lease : Option String) (new_id : String)
      → Operation
  record_given : TaskAttemptRecord → Operation
  dispatch start_one resume : (attempt_id : String) (now : ℕ) → Operation
  pause needs_input succeed abort : (attempt_id : String) → Operation
  fail_one : (attempt_id : String) (recoverable : Bool) → Operation
  clarify : (task_id attempt_id question summary new_id : String) (now : ℕ) → Operation
  answer : (request_id text by : String) (now : ℕ) → Operation
  ask_approval : (task_id attempt_id kind reason new_id : String) (now : ℕ) → Operation
  resolve : (request_id : String) (approved : Bool) (by : String) (now : ℕ) → Operation
  finalize_success : (task_id attempt_id : String) (now : ℕ) → Operation
  finalize_failure : (task_id attempt_id reason : String) (recoverable : Bool) (now : ℕ) → Operation
  recover : (task_id attempt_id reason : String) (now : ℕ) → Operation

-- The state that an operation leaves, on return and on a raise.
abbrev pub perform : Operation → WorkflowRunState → WorkflowRunState
perform (start task_id now) s = (start_task task_id now s).1
perform (fail task_id reason now) s = (fail_task task_id reason now s).1
perform (unblock task_id now) s = (unblock_task task_id now s).1
perform (block task_id reason now) s = (block_task task_id reason now s).1
perform (complete task_id now) s = (complete_task task_id now s).1
perform (promote_ready now) s = (promote_ready_tasks now s).1
perform (open_new task_id agent workspace config route lease new_id) s =
    (open_attempt task_id agent workspace config route lease new_id s).1
perform (record_given attempt) s = (record_attempt attempt s).1
perform (dispatch attempt_id now) s = (dispatch_attempt attempt_id now s).1
perform (start_one attempt_id now) s = (start_attempt attempt_id now s).1
perform (resume attempt_id now) s = (resume_attempt attempt_id now s).1
perform (pause attempt_id) s = (pause_attempt attempt_id s).1
perform (needs_input attempt_id) s = (needs_input_attempt attempt_id s).1
perform (succeed attempt_id) s = (complete_attempt attempt_id s).1
perform (abort attempt_id) s = (abort_attempt attempt_id s).1
perform (fail_one attempt_id recoverable) s = (fail_attempt attempt_id recoverable s).1
perform (clarify task_id attempt_id question summary new_id now) s =
    (request_clarification task_id attempt_id question summary new_id now s).1
perform (answer request_id text by now) s = (answer_human_request request_id text by now s).1
perform (ask_approval task_id attempt_id kind reason new_id now) s =
    (request_approval task_id attempt_id kind reason new_id now s).1
perform (resolve request_id approved by now) s = (resolve_approval request_id approved by now s).1
perform (finalize_success task_id attempt_id now) s =
    (finalize_attempt_success task_id attempt_id now s).1
perform (finalize_failure task_id attempt_id reason recoverable now) s =
    (finalize_attempt_failure task_id attempt_id reason recoverable now s).1
perform (recover task_id attempt_id reason now) s =
    (recover_attempt task_id attempt_id reason now s).1

-- An attempt that is moved and then its task.
abbrev both : {A B : Type 0} → Run A → Run B → Run (B × A)
both m k = do a ← m; b ← k; pure (b, a)

both-Steps :
    {A B : Type 0} (m : Run A) (k : Run B) (s : WorkflowRunState)
    → IsValid s
    → Steps s (m s).1
    → ((u : WorkflowRunState) → IsValid u → Steps u (k u).1)
    → Steps s (both m k s).1
both-Steps m k s v r go = bind-ends (Steps s) s m _ r λ a _.
    then_pure (Steps s) (m s).1 k (λ b. (b, a)) (Steps-trans r (go (m s).1 (Steps-IsValid r v)))

moved :
    (target : AttemptState) (attempt_id : String) (s : WorkflowRunState)
    → Steps s (move_attempt target attempt_id s).1
moved target attempt_id s = next here (quiet (move_attempt-SameTasks target attempt_id s))

perform-Steps : (op : Operation) (s : WorkflowRunState) → IsValid s → Steps s (perform op s)
unfolding resume_attempt pause_attempt needs_input_attempt complete_attempt abort_attempt
    fail_attempt finalize_attempt_success finalize_attempt_failure recover_attempt
perform-Steps (start task_id now) s v = start_task-Steps task_id now s v
perform-Steps (fail task_id reason now) s v = fail_task-Steps task_id reason now s v
perform-Steps (unblock task_id now) s v = unblock_task-Steps task_id now s v
perform-Steps (block task_id reason now) s v = block_task-Steps task_id reason now s v
perform-Steps (complete task_id now) s v = complete_task-Steps task_id now s v
perform-Steps (promote_ready now) s v = promote_ready_tasks-Steps now s v
perform-Steps (open_new task_id agent workspace config route lease new_id) s v =
    next here (quiet (open_attempt-SameTasks task_id agent workspace config route lease new_id s v))
perform-Steps (record_given attempt) s v = next here (quiet (record_attempt-SameTasks attempt s))
perform-Steps (dispatch attempt_id now) s v =
    next here (quiet (dispatch_attempt-SameTasks attempt_id now s))
perform-Steps (start_one attempt_id now) s v =
    next here (quiet (start_attempt-SameTasks attempt_id now s))
perform-Steps (resume attempt_id now) s v =
    next here (quiet (start_attempt-SameTasks attempt_id now s))
perform-Steps (pause attempt_id) s v = moved AttemptState.paused attempt_id s
perform-Steps (needs_input attempt_id) s v = moved AttemptState.needs_input attempt_id s
perform-Steps (succeed attempt_id) s v = moved AttemptState.succeeded attempt_id s
perform-Steps (abort attempt_id) s v = moved AttemptState.aborted attempt_id s
perform-Steps (fail_one attempt_id recoverable) s v = moved _ attempt_id s
perform-Steps (clarify task_id attempt_id question summary new_id now) s v =
    request_clarification-Steps task_id attempt_id question summary new_id now s v
perform-Steps (answer request_id text by now) s v =
    answer_human_request-Steps request_id text by now s v
perform-Steps (ask_approval task_id attempt_id kind reason new_id now) s v =
    request_approval-Steps task_id attempt_id kind reason new_id now s v
perform-Steps (resolve request_id approved by now) s v =
    resolve_approval-Steps request_id approved by now s v
perform-Steps (finalize_success task_id attempt_id now) s v =
    both-Steps (move_attempt AttemptState.succeeded attempt_id) (complete_task task_id now) s v
      (moved AttemptState.succeeded attempt_id s) (complete_task-Steps task_id now)
perform-Steps (finalize_failure task_id attempt_id reason true now) s v =
    both-Steps (move_attempt AttemptState.orphaned attempt_id) (block_task task_id reason now) s v
      (moved AttemptState.orphaned attempt_id s) (block_task-Steps task_id reason now)
perform-Steps (finalize_failure task_id attempt_id reason false now) s v =
    both-Steps (move_attempt AttemptState.errored attempt_id) (fail_task task_id reason now) s v
      (moved AttemptState.errored attempt_id s) (fail_task-Steps task_id reason now)
perform-Steps (recover task_id attempt_id reason now) s v =
    both-Steps (move_attempt AttemptState.orphaned attempt_id) (block_task task_id reason now) s v
      (moved AttemptState.orphaned attempt_id s) (block_task-Steps task_id reason now)

-- Adding tasks: the batch is fresh apart from its ids being unknown, which the call checks itself.
pub record IsGoodBatch (tasks : List TaskRecord) (edges : List TaskEdgeRecord)
    (s : WorkflowRunState) : Type 0 where
  pub distinct_ids : IsDistinct (task_ids tasks)
  pub distinct_keys : IsDistinct (task_keys tasks)
  pub idle : NoneStarted tasks
  pub forward : LeadsToNew edges s

-- The states that a run can reach from `s`.
pub data Reach (s : WorkflowRunState) : WorkflowRunState → Type 0 where
  begin : Reach s s
  after : {t : WorkflowRunState} → Reach s t → (op : Operation) → Reach s (perform op t)
  extend :
      {t : WorkflowRunState}
      → Reach s t
      → (tasks : List TaskRecord) (edges : List TaskEdgeRecord) → IsGoodBatch tasks edges t
      → Reach s (add_dynamic_tasks tasks edges t).1

unknown_of_has_key :
    {V : Type 0} (k : String) (d : Dict String V) → has_key k d ≡ false → lookup k d ≡ none
unknown_of_has_key k [] h = refl
unknown_of_has_key k ((j, x) ∷ d) h = ground (arith, unknown_of_has_key k d)

unknown_ids :
    (keys : Dict String String) (d : Dict String TaskRecord) (ts : List TaskRecord)
    → any (λ (t : TaskRecord). has_key t.id d || has_key t.task_key keys) ts ≡ false
    → All (λ (t : TaskRecord). lookup t.id d ≡ none) ts
unknown_ids keys d [] h = tt
unknown_ids keys d (t ∷ ts) h =
    (unknown_of_has_key t.id d (ground arith), unknown_ids keys d ts (ground arith))

unknown_keys :
    (keys : Dict String String) (d : Dict String TaskRecord) (ts : List TaskRecord)
    → any (λ (t : TaskRecord). has_key t.id d || has_key t.task_key keys) ts ≡ false
    → All (λ (t : TaskRecord). lookup t.task_key keys ≡ none) ts
unknown_keys keys d [] h = tt
unknown_keys keys d (t ∷ ts) h =
    (unknown_of_has_key t.task_key keys (ground arith), unknown_keys keys d ts (ground arith))

-- The fitting batch that the call then stores.
good_batch-IsFresh :
    (tasks : List TaskRecord) (edges : List TaskEdgeRecord) (s : WorkflowRunState)
    → IsGoodBatch tasks edges s
    → dynamic_tasks_fit tasks edges s ≡ true
    → IsFresh tasks s
unfolding dynamic_tasks_fit
good_batch-IsFresh tasks edges s g fit = record {
  distinct_ids = g.distinct_ids;
  distinct_keys = g.distinct_keys;
  unknown_ids = unknown_ids s.tasks_by_key s.tasks_by_id tasks (ground arith);
  unknown_keys = unknown_keys s.tasks_by_key s.tasks_by_id tasks (ground arith);
}

abbrev pub IsSound : WorkflowRunState → Type 0
IsSound s = IsValid s × IsSafe s

add_dynamic_tasks-IsSound :
    (tasks : List TaskRecord) (edges : List TaskEdgeRecord) (s : WorkflowRunState)
    → IsGoodBatch tasks edges s
    → IsSound s
    → IsSound (add_dynamic_tasks tasks edges s).1
unfolding add_dynamic_tasks
add_dynamic_tasks-IsSound [] edges s g h = h
add_dynamic_tasks-IsSound (t ∷ ts) edges s g h =
    guard-ends IsSound s (dynamic_tasks_fit (t ∷ ts) edges s) state_transition_error _ h λ fit.
      let fresh = good_batch-IsFresh (t ∷ ts) edges s g fit in
      (
        append_tasks-IsValid (t ∷ ts) s fresh edges h.0,
        append_tasks-IsSafe (t ∷ ts) s fresh edges g.idle g.forward h.1,
      )

pub Reach-IsSound : {s u : WorkflowRunState} → IsSound s → Reach s u → IsSound u
Reach-IsSound h begin = h
Reach-IsSound h (after {t} r op) =
    let (valid, safe) = Reach-IsSound h r in
    let steps = perform-Steps op t valid in (Steps-IsValid steps valid, Steps-IsSafe steps safe)
Reach-IsSound h (extend {t} r tasks edges g) =
    add_dynamic_tasks-IsSound tasks edges t g (Reach-IsSound h r)
