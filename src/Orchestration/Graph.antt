-- ===== src/Orchestration/Graph.antt =====
-- autoweave/orchestration/graph.py: who must finish before whom, and an order that respects it.
-- A set of texts is a list without repetitions; the program only tests it and sorts it.
pub mod Edges
pub mod Kahn
pub mod Drain
pub mod Counts
pub mod Order
pub mod Fuel
use autoweave_library.Common.{
  ℕ, zero, suc, none, some, List, [], ◌∷◌, ◌++◌, String, Dict, lookup, insert, get_or, Result, ok,
  err, required, bind, key_error, value_error, fuel_exhausted, length, nat_beq, set_add, sorted,
  if◌then◌else◌, string_eq,
}
use autoweave_library.Common.Int.{ℤ, pos, plus_one, minus_one, is_zero}
use autoweave_library.Models.{TaskRecord, TaskEdgeRecord, WorkflowGraph}

pub record DependencyView : Type 0 where
  pub hard_predecessors : Dict String (List String)
  pub hard_successors : Dict String (List String)
  pub topological_order : List String

-- `d[key].append(value)` on a `defaultdict(list)`.
unfoldable pub append_at : String → String → Dict String (List String) → Dict String (List String)
append_at key value d = insert key (get_or [] key d ++ (value ∷ [])) d

-- The loop of `build_dependency_view` over the edges.
unfoldable pub collect_predecessors :
    List TaskEdgeRecord → Dict String (List String) → Dict String (List String)
unfolding append_at
collect_predecessors [] d = d
collect_predecessors (edge ∷ edges) d =
    collect_predecessors edges
      (if edge.is_hard_dependency then append_at edge.to_task_id edge.from_task_id d else d)

unfoldable pub collect_successors :
    List TaskEdgeRecord → Dict String (List String) → Dict String (List String)
unfolding append_at
collect_successors [] d = d
collect_successors (edge ∷ edges) d =
    collect_successors edges
      (if edge.is_hard_dependency then append_at edge.from_task_id edge.to_task_id d else d)

-- `{task.id: 0 for task in tasks}`
unfoldable pub zero_degrees : List TaskRecord → Dict String ℤ → Dict String ℤ
zero_degrees [] d = d
zero_degrees (task ∷ tasks) d = zero_degrees tasks (insert task.id (pos 0) d)

abbrev pub Counts : Type 0
Counts = Dict String ℤ × Dict String (List String)

-- One hard edge: `indegree[to] += 1; successors[from].add(to)`.
unfoldable pub count_edge : TaskEdgeRecord → Counts → Result Counts
unfolding plus_one
count_edge edge (indegree, successors) =
    bind (required (lookup edge.to_task_id indegree) key_error) λ degree. ok (
      insert edge.to_task_id (plus_one degree) indegree,
      insert edge.from_task_id (set_add edge.to_task_id (get_or [] edge.from_task_id successors))
          successors,
    )

unfoldable pub count_edges : List TaskEdgeRecord → Counts → Result Counts
unfolding count_edge
count_edges [] counts = ok counts
count_edges (edge ∷ edges) counts =
    bind (if edge.is_hard_dependency then count_edge edge counts else ok counts) (count_edges edges)

-- `[task_id for task_id, degree in indegree.items() if degree == 0]`
unfoldable pub sources : Dict String ℤ → List String
unfolding is_zero
sources [] = []
sources ((task_id, degree) ∷ d) =
    let rest = sources d in if is_zero degree then task_id ∷ rest else rest

-- The inner loop: each child loses one degree and joins the queue when it reaches zero.
unfoldable pub relax :
    List String → Dict String ℤ → List String → Result (Dict String ℤ × List String)
unfolding is_zero minus_one
relax [] indegree queue = ok (indegree, queue)
relax (child ∷ children) indegree queue =
    bind (required (lookup child indegree) key_error) λ degree.
      relax children (insert child (minus_one degree) indegree)
        (if is_zero (minus_one degree) then queue ++ (child ∷ []) else queue)

-- The `while queue` loop.
unfoldable pub drain :
    ℕ → Dict String (List String) → Dict String ℤ → List String → List String → Result (List String)
unfolding relax
drain fuel successors indegree [] ordered = ok ordered
drain zero successors indegree (task_id ∷ queue) ordered = err fuel_exhausted
drain (suc fuel) successors indegree (task_id ∷ queue) ordered =
    bind (relax (sorted (get_or [] task_id successors)) indegree queue)
      λ (indegree', queue'). drain fuel successors indegree' queue' (ordered ++ (task_id ∷ []))

-- `_topological_order`. As many rounds as there are tasks suffice.
unfoldable pub topological_order : List TaskRecord → List TaskEdgeRecord → Result (List String)
unfolding zero_degrees count_edges sources drain
topological_order tasks edges =
    bind (count_edges edges (zero_degrees tasks [], [])) λ (indegree, successors).
      bind (drain (length tasks) successors indegree (sources indegree) [])
        λ ordered. if nat_beq (length ordered) (length tasks) then ok ordered else err value_error

unfoldable pub build_dependency_view : WorkflowGraph → Result DependencyView
unfolding collect_predecessors collect_successors topological_order
build_dependency_view graph = bind (topological_order graph.tasks graph.edges) λ ordered.
    ok (record {
      hard_predecessors = collect_predecessors graph.edges [];
      hard_successors = collect_successors graph.edges [];
      topological_order = ordered;
    })
