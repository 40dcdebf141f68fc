-- ===== src/Orchestration/State/Dependencies.antt =====
-- What `hard_dependencies_satisfied` reads: the hard edges into a task and the tasks they come from.
use autoweave_library.Common.{
  ◌≡◌, refl, Bool, true, ◌&&◌, Option, none, some, List, [], ◌∷◌, ◌++◌, append_assoc, append-nil,
  String, Dict, lookup, get_or, lookup-insert, Result, ok, bind, required, key_error, arith, All,
  all, ◌==◌, ==_iff, string_eq, if◌then◌else◌,
}
use autoweave_library.Models.{TaskState, TaskRecord, TaskEdgeRecord, task_state_eq}
use autoweave_library.Orchestration.Graph.{
  append_at, collect_predecessors, build_dependency_view, topological_order,
}
use autoweave_library.Orchestration.State.{
  WorkflowRunState, lookup_all, is_completed, hard_dependencies_satisfied,
}

-- The tasks that hard edges into `v` come from, an edge at a time.
abbrev pub parents : String → List TaskEdgeRecord → List String
parents v [] = []
parents v (e ∷ edges) =
    let rest = parents v edges in
    if e.is_hard_dependency && e.to_task_id == v then e.from_task_id ∷ rest else rest

pub collect_predecessors_lem :
    (v : String) (edges : List TaskEdgeRecord) (d : Dict String (List String))
    → get_or [] v (collect_predecessors edges d) ≡ get_or [] v d ++ parents v edges
unfolding collect_predecessors
collect_predecessors_lem v [] d = rw append-nil
collect_predecessors_lem v (e ∷ edges) d = ground (
  arith,
  collect_predecessors_lem v edges d,
  collect_predecessors_lem v edges (append_at e.to_task_id e.from_task_id d),
  lookup-insert v e.to_task_id (get_or [] e.to_task_id d ++ (e.from_task_id ∷ [])) d,
  ==_iff v e.to_task_id,
  ==_iff e.to_task_id v,
  append_assoc (get_or [] e.to_task_id d) (e.from_task_id ∷ []) (parents v edges),
)

-- A task that is there and completed.
abbrev pub IsDone : Option TaskRecord → Type 0
IsDone none = ⊥
IsDone (some t) = t.state ≡ TaskState.completed

abbrev pub AllDone : Dict String TaskRecord → List String → Type 0
AllDone d ks = All (λ k. IsDone (lookup k d)) ks

-- The answer of `hard_dependencies_satisfied`, which changes nothing.
abbrev pub satisfied_result : String → WorkflowRunState → Result Bool
satisfied_result task_id s = bind (topological_order s.graph.tasks s.graph.edges) λ _.
    bind (required (lookup_all s.tasks_by_id (parents task_id s.graph.edges)) key_error)
      λ ps. ok (all is_completed ps)

pub hard_dependencies_satisfied_lem :
    (task_id : String) (s : WorkflowRunState)
    → hard_dependencies_satisfied task_id s ≡ (satisfied_result task_id s, s)
unfolding hard_dependencies_satisfied build_dependency_view
hard_dependencies_satisfied_lem task_id s =
    ground (arith, collect_predecessors_lem task_id s.graph.edges [])

lookup_all-AllDone :
    (d : Dict String TaskRecord) (ks : List String)
    → bind (required (lookup_all d ks) key_error) (λ ps. ok (all is_completed ps)) ≡ ok true
    → AllDone d ks
unfolding lookup_all is_completed
lookup_all-AllDone d [] e = tt
lookup_all-AllDone d (k ∷ ks) e = ground (arith, lookup_all-AllDone d ks)

AllDone-lookup_all :
    (d : Dict String TaskRecord) (ks : List String)
    → AllDone d ks
    → bind (required (lookup_all d ks) key_error) (λ ps. ok (all is_completed ps)) ≡ ok true
unfolding lookup_all is_completed
AllDone-lookup_all d [] h = refl
AllDone-lookup_all d (k ∷ ks) h = ground (arith, AllDone-lookup_all d ks h.1)

-- A positive answer says that every hard predecessor is there and completed.
pub satisfied-AllDone :
    (task_id : String) (s : WorkflowRunState)
    → satisfied_result task_id s ≡ ok true
    → AllDone s.tasks_by_id (parents task_id s.graph.edges)
satisfied-AllDone task_id s e =
    ground (arith, lookup_all-AllDone s.tasks_by_id (parents task_id s.graph.edges))

-- Where the graph has an order, the answer is positive if every hard predecessor is completed.
pub AllDone-satisfied :
    (task_id : String) (s : WorkflowRunState) {order : List String}
    → topological_order s.graph.tasks s.graph.edges ≡ ok order
    → AllDone s.tasks_by_id (parents task_id s.graph.edges)
    → satisfied_result task_id s ≡ ok true
AllDone-satisfied task_id s e h =
    ground (arith, AllDone-lookup_all s.tasks_by_id (parents task_id s.graph.edges) h)
