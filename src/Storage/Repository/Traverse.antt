-- ===== src/Storage/Repository/Traverse.antt =====
-- The walks of the repository along hard edges: `upstream_task_ids` and `dependent_task_ids`.
pub mod Upstream
use autoweave_library.Common.{
  ℕ, zero, suc, ◌+◌, ◌≤◌, ◌<◌, ◌≡◌, ◌≢◌, refl, Bool, true, false, ◌||◌, List, [], ◌∷◌, String, Dict,
  get_or, Result, ok, err, bind, fuel_exhausted, length, member, set_add, if◌then◌else◌, arith,
  string_eq, All, ◌==◌,
}
use autoweave_library.Models.{WorkflowGraph}
use autoweave_library.Orchestration.Graph.{collect_predecessors, collect_successors}
use autoweave_library.Storage.Repository.{Repository, graph_for_task}

-- `for parent in ...: if parent not in upstream: upstream.add(parent); frontier.append(parent)`.
-- The top of the stack is the head of the list, a set is a list without repetitions.
unfoldable pub visit : List String → List String → List String → List String × List String
visit [] frontier seen = (frontier, seen)
visit (task_id ∷ task_ids) frontier seen =
    if member task_id seen
    then visit task_ids frontier seen
    else visit task_ids (task_id ∷ frontier) (task_id ∷ seen)

-- `while frontier`
unfoldable pub walk :
    ℕ → Dict String (List String) → List String → List String → Result (List String)
unfolding visit
walk fuel edge_map [] seen = ok seen
walk zero edge_map (current ∷ frontier) seen = err fuel_exhausted
walk (suc fuel) edge_map (current ∷ frontier) seen =
    let (frontier', seen') = visit (get_or [] current edge_map) frontier seen in
    walk fuel edge_map frontier' seen'

-- A task enters the stack along an edge and only once, so the edges and the start bound the rounds.
unfoldable pub upstream_task_ids : String → Repository → Result (List String)
unfolding graph_for_task collect_predecessors walk
upstream_task_ids task_id s = bind (graph_for_task task_id s) λ (graph : WorkflowGraph).
    walk (suc (length graph.edges)) (collect_predecessors graph.edges []) (task_id ∷ []) []

unfoldable pub dependent_task_ids : String → Repository → Result (List String)
unfolding graph_for_task collect_successors walk
dependent_task_ids task_id s = bind (graph_for_task task_id s) λ (graph : WorkflowGraph).
    walk (suc (length graph.edges)) (collect_successors graph.edges []) (task_id ∷ []) []
