-- ===== src/Runtime/Examples.antt =====
-- The theorems of this folder for two ready tasks, of which one may run at a time.
use autoweave_library.Common.{
  ◌⊎◌, false, ap, subst, occurrences, Result, ok, err, Error, runtime_error, ℕ, ◌≤◌, ◌≡◌, ◌≢◌, refl,
  true, some, none, List, [], ◌∷◌, String, any, length, ltb, arith, ==_iff, string_eq, same_text,
}
use autoweave_library.Runtime.Dispatch.{
  Dispatch, Launched, LocalTaskRunReport, Schedule, World, dispatch_rounds, new_dispatch, launch,
  launch_scheduled, launch_tasks, submit, first_ids, available_capacity,
}
use autoweave_library.Runtime.Dispatch.Bounds.{
  IsBounded, ListsOnce, begin, launched, Reach-IsBounded,
}
use autoweave_library.Runtime.Dispatch.Ends.{WaitReturns, Raises, dispatch_rounds_stop}

abbrev step_report : LocalTaskRunReport
step_report = record {
  workflow_run_id = "run";
  task_key = "plan";
  route_model_name = "gemini";
  task_state = "completed";
  attempt_state = "succeeded";
  workflow_status = "running";
  stream_event_types = [];
  artifact_ids = [];
  failure_reason = none;
}

abbrev two_ready : Schedule
two_ready = record {
  ready_tasks = "t1" ∷ "t2" ∷ [];
  active_attempt_count = 0;
  is_ready = λ id. ok true;
}

-- Each future is completed in the round that it is launched in.
abbrev prompt_world : World
prompt_world = record {
  schedule = λ round d. ok two_ready;
  is_done = λ round d i. true;
  report = λ i. ok step_report;
}

t1_ne : ◌≢◌ {A = String} "t1" "t2"
unfolding same_text
t1_ne = ground (arith, ==_iff {A = String} "t1" "t2")

two_ready_once : (id : String) → occurrences id two_ready.ready_tasks ≤ 1
two_ready_once id = ground (arith, ==_iff id "t1", ==_iff id "t2", t1_ne)

listed_of : Result Schedule → Schedule
listed_of (ok schedule) = schedule
listed_of (err e) = two_ready

prompt_world-ListsOnce : ListsOnce prompt_world
unfolding listed_of
prompt_world-ListsOnce round d schedule same id =
    subst (λ (s : Schedule). occurrences id s.ready_tasks ≤ 1) (ap listed_of same)
      (two_ready_once id)

any_done : (fs : List Launched) → ltb 0 (length fs) ≡ true → any (λ (f : Launched). true) fs ≡ true
any_done [] h = absurd (ground arith)
any_done (f ∷ fs) h = refl

prompt_world-WaitReturns : WaitReturns prompt_world
prompt_world-WaitReturns round d runs = any_done d.running_futures runs

-- The states after the first launch, with its task t1, and after its report.
abbrev one_launched : Dispatch
one_launched = record {
  remaining_steps = 2;
  running_futures = record { launch_index = 0; task_id = "t1" } ∷ [];
  next_launch_index = 1;
  stop_launching = false;
  step_reports_by_index = [];
}

first_launch : launch 1 (ok two_ready) (new_dispatch 3) ≡ ok one_launched
unfolding launch launch_scheduled launch_tasks submit first_ids available_capacity new_dispatch
first_launch = refl

Reach-IsBounded_example : IsBounded 1 3 one_launched
Reach-IsBounded_example =
    Reach-IsBounded 1 3 prompt_world one_launched prompt_world-ListsOnce
      (launched 0 begin first_launch)

dispatch_rounds_stop_example :
    ((last : Dispatch) × ((dispatch_rounds 1 prompt_world 4 0 (new_dispatch 3) ≡ some (ok last))
        × (last.running_futures ≡ [])
        × (length last.step_reports_by_index ≡ last.next_launch_index)
        × (last.next_launch_index ≤ 3)))
    ⊎ ((e : Error) × ((dispatch_rounds 1 prompt_world 4 0 (new_dispatch 3) ≡ some (err e))
          × Raises 1 3 prompt_world e))
dispatch_rounds_stop_example =
    dispatch_rounds_stop 1 3 prompt_world prompt_world-WaitReturns prompt_world-ListsOnce

-- Three steps are given and three are taken, one after another.
three_launched :
    ◌≡◌ {A = ℕ}
      (elim (dispatch_rounds 1 prompt_world 4 0 (new_dispatch 3)) [
        | none ↦ 0
        | some r ↦ elim r [ err e ↦ 0 | ok d ↦ d.next_launch_index ]
      ])
      3
unfolding dispatch_rounds new_dispatch same_text
three_launched = refl

-- A future whose thread raises ends the loop with its error.
abbrev failing_world : World
failing_world = record prompt_world { report = λ i. err runtime_error }

failing_future : dispatch_rounds 1 failing_world 4 0 (new_dispatch 3) ≡ some (err runtime_error)
unfolding dispatch_rounds new_dispatch same_text
failing_future = refl
