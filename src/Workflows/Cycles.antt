-- ===== src/Workflows/Cycles.antt =====
-- autoweave/workflows/spec.py: `_validate_acyclic` and `_topological_order`. The list that the
-- first keeps for the text of its exception is left out.
pub mod Decides
use autoweave_library.Common.{
  ℕ, zero, suc, Bool, not, none, some, List, [], ◌∷◌, String, Dict, lookup, insert, get_or, keys,
  Result, ok, err, required, bind, key_error, value_error, fuel_exhausted, length, nat_beq, member,
  keep, set_add, if◌then◌else◌, ◌==◌, string_eq,
}
use autoweave_library.Common.Int.{ℤ, pos, plus_one}
use autoweave_library.Orchestration.Graph.{sources, drain}

pub record Marks : Type 0 where
  pub temp_mark : List String
  pub permanent_mark : List String

-- `for dependency in ...: visit_node(dependency)`
unfoldable pub visit_all : (String → Marks → Result Marks) → List String → Marks → Result Marks
visit_all visit_one [] marks = ok marks
visit_all visit_one (node ∷ nodes) marks = bind (visit_one node marks) (visit_all visit_one nodes)

-- The end of `visit`, once the dependencies are visited.
unfoldable pub leave : String → Marks → Marks
leave node marks = record {
  temp_mark = keep (λ n. not (n == node)) marks.temp_mark;
  permanent_mark = node ∷ marks.permanent_mark;
}

unfoldable pub enter : String → Marks → Marks
enter node marks = record marks { temp_mark = node ∷ marks.temp_mark }

-- The marks of the open calls are different keys, which bounds the depth.
unfoldable pub visit_node : ℕ → Dict String (List String) → String → Marks → Result Marks
unfolding visit_all enter leave
visit_node zero graph node marks = err fuel_exhausted
visit_node (suc fuel) graph node marks =
    if member node marks.permanent_mark
    then ok marks
    else if member node marks.temp_mark
    then err value_error
    else bind (required (lookup node graph) key_error) (λ deps.
      bind (visit_all (visit_node fuel graph) deps (enter node marks))
        (λ after. ok (leave node after)))

unfoldable pub validate_acyclic : Dict String (List String) → Result (Unit {0})
unfolding visit_node
validate_acyclic graph =
    bind
      (visit_all (visit_node (suc (length graph)) graph) (keys graph)
        (record { temp_mark = []; permanent_mark = [] }))
      λ _. ok tt

-- `indegree[node] += 1; downstream[dependency].add(node)` for each dependency.
unfoldable pub count_dependencies :
    String
    → List String
    → Dict String ℤ × Dict String (List String)
    → Result (Dict String ℤ × Dict String (List String))
unfolding plus_one
count_dependencies node [] counts = ok counts
count_dependencies node (dependency ∷ rest) (indegree, downstream) =
    bind (required (lookup node indegree) key_error) λ degree. count_dependencies node rest (
      insert node (plus_one degree) indegree,
      insert dependency (set_add node (get_or [] dependency downstream)) downstream,
    )

unfoldable pub count_graph :
    Dict String (List String)
    → Dict String ℤ × Dict String (List String)
    → Result (Dict String ℤ × Dict String (List String))
unfolding count_dependencies
count_graph [] counts = ok counts
count_graph ((node, deps) ∷ graph) counts =
    bind (count_dependencies node deps counts) (count_graph graph)

unfoldable pub zero_keys : Dict String (List String) → Dict String ℤ
zero_keys [] = []
zero_keys ((key, deps) ∷ graph) = (key, pos 0) ∷ zero_keys graph

-- The queue loop has the same text as the one of autoweave/orchestration/graph.py.
unfoldable pub template_order : Dict String (List String) → Result (List String)
unfolding zero_keys count_graph sources drain
template_order graph = bind (count_graph graph (zero_keys graph, [])) λ (indegree, downstream).
    bind (drain (length graph) downstream indegree (sources indegree) [])
      λ ordered. if nat_beq (length ordered) (length graph) then ok ordered else err value_error
