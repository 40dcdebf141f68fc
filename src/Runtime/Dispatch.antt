-- ===== src/Runtime/Dispatch.antt =====
-- autoweave/local_runtime.py: the loop of `_advance_current_workflow` that dispatches tasks to
-- threads. A future is named by its launch index; what the scheduler, the threads and
-- `wait(..., FIRST_COMPLETED)` answer in a round is the argument `World`. A report has the fields
-- that are kept of it, without the calls of the agent server and the event.
pub mod Launches
pub mod Bounds
pub mod Ends
use autoweave_library.Common.{
  ℕ, zero, suc, ◌+◌, ◌-◌, Bool, true, false, not, ◌||◌, ◌&&◌, Option, none, some, List, [], ◌∷◌,
  ◌++◌, map, String, keep, member, any, length, max, ltb, Result, ok, err, bind, if◌then◌else◌,
  ◌==◌, string_eq, nat_eq,
}

pub record LocalTaskRunReport : Type 0 where
  pub workflow_run_id : String
  pub task_key : String
  pub route_model_name : String
  pub task_state : String
  pub attempt_state : String
  pub workflow_status : String
  pub stream_event_types : List String
  pub artifact_ids : List String
  pub failure_reason : Option String

-- A future that runs, under its launch index.
pub record Launched : Type 0 where
  pub launch_index : ℕ
  pub task_id : String

pub record Dispatch : Type 0 where
  pub remaining_steps : ℕ
  pub running_futures : List Launched
  pub next_launch_index : ℕ
  pub stop_launching : Bool
  pub step_reports_by_index : List (ℕ × LocalTaskRunReport)

-- What the loop reads of the run in a round: the ready tasks, how many attempts are active, and
-- whether a task is READY when it is looked at again, where the look-up may raise.
pub record Schedule : Type 0 where
  pub ready_tasks : List String
  pub active_attempt_count : ℕ
  pub is_ready : String → Result Bool

-- The answers of a round: its schedule, the futures that are completed when the wait returns, and
-- what `result()` answers or raises for each.
pub record World : Type 0 where
  pub schedule : ℕ → Dispatch → Result Schedule
  pub is_done : ℕ → Dispatch → ℕ → Bool
  pub report : ℕ → Result LocalTaskRunReport

-- The tests after which no more tasks are launched.
unfoldable pub holds_back : LocalTaskRunReport → Bool
holds_back r =
    member r.attempt_state ("needs_input" ∷ "paused" ∷ [])
    || member r.task_state ("waiting_for_human" ∷ "waiting_for_approval" ∷ [])

abbrev pub running_ids : Dispatch → List String
running_ids d = map (λ (f : Launched). f.task_id) d.running_futures

-- A step is taken: a task runs in a future of its own.
unfoldable pub submit : ℕ → String → Dispatch → Dispatch
submit left task_id d = record d {
  remaining_steps = left;
  running_futures =
      d.running_futures ++ (record { launch_index = d.next_launch_index; task_id = task_id } ∷ []);
  next_launch_index = suc d.next_launch_index;
}

-- `for task_id in ready_task_ids[:available_capacity]: ...`, with the steps that are left.
unfoldable pub launch_tasks : ℕ → (String → Result Bool) → List String → Dispatch → Result Dispatch
unfolding submit
launch_tasks left is_ready [] d = ok d
launch_tasks zero is_ready (task_id ∷ task_ids) d = ok d
launch_tasks (suc left) is_ready (task_id ∷ task_ids) d = bind (is_ready task_id) λ ready.
    if ready
    then launch_tasks left is_ready task_ids (submit left task_id d)
    else launch_tasks (suc left) is_ready task_ids d

unfoldable pub first_ids : ℕ → List String → List String
first_ids zero ids = []
first_ids (suc n) [] = []
first_ids (suc n) (id ∷ ids) = id ∷ first_ids n ids

-- `max(0, limit - max(len(running_futures), active_attempt_count))`
unfoldable pub available_capacity : (limit : ℕ) → Schedule → Dispatch → ℕ
available_capacity limit schedule d =
    limit - max (length d.running_futures) schedule.active_attempt_count

unfoldable pub launch_scheduled : (limit : ℕ) → Dispatch → Schedule → Result Dispatch
unfolding launch_tasks first_ids available_capacity
launch_scheduled limit d schedule =
    let ready_task_ids =
      keep (λ (id : String). not (member id (running_ids d))) schedule.ready_tasks in
    launch_tasks d.remaining_steps schedule.is_ready
      (first_ids (available_capacity limit schedule d) ready_task_ids) d

unfoldable pub launch : (limit : ℕ) → Result Schedule → Dispatch → Result Dispatch
unfolding launch_scheduled
launch limit schedule d =
    if not d.stop_launching && ltb 0 d.remaining_steps
    then bind schedule (launch_scheduled limit d)
    else ok d

-- The reports of the completed futures; the first one that raises ends the loop.
unfoldable pub results_of :
    (ℕ → Result LocalTaskRunReport) → List Launched → Result (List (ℕ × LocalTaskRunReport))
results_of report [] = ok []
results_of report (f ∷ fs) =
    bind (report f.launch_index)
      λ step_report. bind (results_of report fs) λ rs. ok ((f.launch_index, step_report) ∷ rs)

-- `for future in completed: ...`
unfoldable pub collect : (ℕ → Bool) → (ℕ → Result LocalTaskRunReport) → Dispatch → Result Dispatch
unfolding holds_back results_of
collect is_done report d =
    let completed = keep (λ (f : Launched). is_done f.launch_index) d.running_futures in
    bind (results_of report completed) λ rs. ok (record d {
      running_futures = keep (λ (f : Launched). not (is_done f.launch_index)) d.running_futures;
      stop_launching = d.stop_launching || any (λ (r : ℕ × LocalTaskRunReport). holds_back r.1) rs;
      step_reports_by_index = d.step_reports_by_index ++ rs;
    })

-- `bool(running_futures)`
abbrev pub is_running : Dispatch → Bool
is_running d = ltb 0 (length d.running_futures)

-- The loop, from a round on; none where the fuel does not cover it. An exception ends it, and what
-- it had collected is lost with its variables.
unfoldable pub dispatch_rounds :
    (limit : ℕ) → World → (fuel round : ℕ) → Dispatch → Option (Result Dispatch)
unfolding launch collect
dispatch_rounds limit world zero round d = none
dispatch_rounds limit world (suc fuel) round d =
    if ltb 0 d.remaining_steps || is_running d
    then elim (launch limit (world.schedule round d) d) [
      | err e ↦ some (err e)
      | ok d' ↦
          if is_running d'
          then elim (collect (world.is_done round d') world.report d') [
            | err e ↦ some (err e)
            | ok next ↦ dispatch_rounds limit world fuel (suc round) next
          ]
          else some (ok d')
    ]
    else some (ok d)

unfoldable pub new_dispatch : (max_steps : ℕ) → Dispatch
new_dispatch max_steps = record {
  remaining_steps = max 1 max_steps;
  running_futures = [];
  next_launch_index = 0;
  stop_launching = false;
  step_reports_by_index = [];
}
