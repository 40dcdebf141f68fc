-- ===== src/Orchestration/Examples.antt =====
-- The theorems of this folder at concrete runs.
use autoweave_library.Common.{
  all, true, insert, Result, List, map, ◌≡◌, ◌≢◌, refl, [], ◌∷◌, String, occurrences, same_text, ok,
  err, none, some, lookup, false, get_or, state_transition_error, fuel_exhausted, arith, string_eq,
}
use autoweave_library.Orchestration.Graph.{topological_order}
use autoweave_library.Orchestration.Graph.Counts.{task_ids}
use autoweave_library.Orchestration.Graph.Drain.{IsOrdered}
use autoweave_library.Orchestration.Graph.Order.{topological_order-IsOrdered}
use autoweave_library.Orchestration.Graph.Fuel.{topological_order-ne-fuel_exhausted}
use autoweave_library.Orchestration.State.{
  WorkflowRunState, from_graph, is_completed, hard_dependencies_satisfied,
}
use autoweave_library.Orchestration.State.Valid.{IsValid}
use autoweave_library.Orchestration.Safety.{IsSafe}
use autoweave_library.Orchestration.Safety.Reach.{Reach, perform, Operation, begin, after}
use autoweave_library.Orchestration.Safety.Runs.{IsNewGraph, run-IsSafe, run-IsValid}
use autoweave_library.Models.{TaskState, TaskRecord, HumanRequestRecord, TaskEdgeRecord}
use autoweave_library.Orchestration.State.Valid.{find_task-found}
use autoweave_library.Orchestration.State.Dependencies.{satisfied_result}
use autoweave_library.Orchestration.Tasks.{block_task, promote_task, add_dynamic_tasks}
use autoweave_library.Orchestration.Requests.{request_clarification}
use autoweave_library.Orchestration.Progress.{promote_task-goes_on}
use autoweave_library.Orchestration.Outcomes.{
  promoted, moved_task, Asks, block_task_lem, promote_task_lem, request_clarification_refused,
}
use autoweave_library.Orchestration.Samples.{
  three_tasks, chain, order_three, graph_of, new_task, program,
}

topological_order-IsOrdered_example :
    IsOrdered chain ("t1" ∷ "t2" ∷ "t3" ∷ [])
    × ((v : String)
        → occurrences v ("t1" ∷ "t2" ∷ "t3" ∷ []) ≡ occurrences v (task_ids three_tasks))
topological_order-IsOrdered_example = topological_order-IsOrdered three_tasks chain order_three

topological_order-ne-fuel_exhausted_example :
    topological_order three_tasks chain ≢ err fuel_exhausted
topological_order-ne-fuel_exhausted_example = topological_order-ne-fuel_exhausted three_tasks chain

three_tasks-IsNewGraph : IsNewGraph (graph_of three_tasks chain)
unfolding same_text
three_tasks-IsNewGraph = record {
  distinct_ids = (refl, (refl, (refl, tt)));
  distinct_keys = (refl, (refl, (refl, tt)));
  idle = (λ h. ground arith, (λ h. ground arith, (λ h. ground arith, tt)));
}

-- The plan is promoted and started.
abbrev started : WorkflowRunState
started =
    perform (Operation.start "plan" 2)
      (perform (Operation.promote_ready 1) (from_graph (graph_of three_tasks chain)))

started-Reach : Reach (from_graph (graph_of three_tasks chain)) started
started-Reach = after (after begin (Operation.promote_ready 1)) (Operation.start "plan" 2)

run-IsSafe_example : IsSafe started
run-IsSafe_example = run-IsSafe (graph_of three_tasks chain) three_tasks-IsNewGraph started-Reach

-- The plan may start, the other tasks wait.
abbrev waiting : WorkflowRunState
waiting = perform (Operation.promote_ready 1) (from_graph (graph_of three_tasks chain))

waiting-IsValid : IsValid waiting
waiting-IsValid =
    run-IsValid (graph_of three_tasks chain) three_tasks-IsNewGraph
      (after begin (Operation.promote_ready 1))

abbrev plan : TaskRecord
plan = moved_task TaskState.ready none 1 (new_task "t1" "plan")

abbrev code : TaskRecord
code = moved_task TaskState.waiting_for_dependency none 1 (new_task "t2" "code")

code_stored : lookup "t2" waiting.tasks_by_id ≡ some code
unfolding program
code_stored = refl

code_named : get_or "code" "code" waiting.tasks_by_key ≡ "t2"
unfolding program
code_named = refl

block_task_lem_example : block_task "code" "lost" 2 waiting ≡ (err state_transition_error, waiting)
block_task_lem_example =
    block_task_lem "code" "lost" 2 waiting code waiting-IsValid
      (find_task-found "code" "t2" waiting code code_named code_stored)

code_unmet : satisfied_result "t2" waiting ≡ ok false
unfolding program
code_unmet = refl

promote_task_lem_example : promote_task 2 "t2" waiting ≡ (ok [], waiting)
promote_task_lem_example =
    promote_task_lem "t2" 2 waiting code false waiting-IsValid code_stored code_unmet

request_clarification_refused_example :
    (r : HumanRequestRecord) × (Asks "t2" "which?" "" r
      × (request_clarification "code" "a1" "which?" "" "h1" 2 waiting ≡ (
        err state_transition_error,
        record waiting { human_requests = insert r.id r waiting.human_requests },
      )))
request_clarification_refused_example =
    request_clarification_refused "code" "a1" "which?" "" "h1" 2 waiting code waiting-IsValid
      (find_task-found "code" "t2" waiting code code_named code_stored) refl

waiting_order :
    topological_order waiting.graph.tasks waiting.graph.edges ≡ ok ("t1" ∷ "t2" ∷ "t3" ∷ [])
unfolding program
waiting_order = refl

waiting_left : all is_completed waiting.graph.tasks ≡ false
unfolding program
waiting_left = refl

promote_task-goes_on_example :
    (t : TaskRecord) × ((lookup t.id waiting.tasks_by_id ≡ some t)
      × (is_completed t ≡ false)
      × (hard_dependencies_satisfied t.id waiting ≡ (ok true, waiting))
      × (promote_task 2 t.id waiting ≡ promoted t.state true 2 t waiting))
promote_task-goes_on_example =
    promote_task-goes_on 2 waiting ("t1" ∷ "t2" ∷ "t3" ∷ []) waiting-IsValid waiting_order
      waiting_left

-- `add_dynamic_tasks` accepts a hard edge from a new task into one that is in progress, which stays
-- in progress.
abbrev late_edge : TaskEdgeRecord
late_edge = record {
  id = "e9";
  workflow_run_id = "run";
  from_task_id = "t9";
  to_task_id = "t1";
  is_hard_dependency = true;
}

abbrev extended : Result (List TaskRecord) × WorkflowRunState
extended = add_dynamic_tasks (new_task "t9" "probe" ∷ []) (late_edge ∷ []) started

late_edge_accepted :
    (extended.0 ≡ ok (new_task "t9" "probe" ∷ []))
    × ((hard_dependencies_satisfied "t1" extended.1).0 ≡ ok false)
    × (map (λ (t : TaskRecord). t.state) extended.1.graph.tasks
        ≡ TaskState.waiting_for_dependency ∷ TaskState.waiting_for_dependency
          ∷ TaskState.in_progress ∷ TaskState.created ∷ [])
unfolding program add_dynamic_tasks hard_dependencies_satisfied
late_edge_accepted = (refl, refl, refl)
