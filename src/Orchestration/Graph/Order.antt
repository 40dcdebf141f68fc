-- ===== src/Orchestration/Graph/Order.antt =====
-- What `_topological_order` returns is an order of all tasks in which no hard dependency points
-- backwards.
use autoweave_library.Common.{
  ◌≤◌, ◌≡◌, refl, Bool, true, false, List, [], ◌∷◌, String, ok, err, value_error, arith,
  occurrences, occurrences-eq_of_le, member-eq-ltb, length, nat_beq, string_eq, if◌then◌else◌, OnOk,
  OnOk-bind, OnOk-apply,
}
use autoweave_library.Common.Int.{is_zero}
use autoweave_library.Models.{TaskRecord, TaskEdgeRecord}
use autoweave_library.Orchestration.Graph.{
  Counts, zero_degrees, count_edges, sources, drain, topological_order,
}
use autoweave_library.Orchestration.Graph.Kahn.{Inv}
use autoweave_library.Orchestration.Graph.Drain.{IsOrdered, IsWithinEdges, Sound, drain-Sound}
use autoweave_library.Orchestration.Graph.Counts.{
  task_ids, Counted, count_edges-Counted, zero_degrees-Counted, occurrences-sources,
}

module _ (tasks : List TaskRecord) (edges : List TaskEdgeRecord) where
  start-Inv :
      (counts : Counts)
      → Counted (task_ids tasks) edges counts
      → Inv (task_ids tasks) edges [] [] (sources counts.0) counts.0
  unfolding is_zero
  start-Inv counts c = record {
    covered = λ v. ground (arith, c.degree v);
    settled = λ v h. ground (arith, occurrences-sources v counts.0 c.unique, c.degree v);
    once = λ v. ground (arith, occurrences-sources v counts.0 c.unique);
    within = λ v h. ground (arith, c.known v);
  }

  start-IsWithinEdges :
      (counts : Counts) → Counted (task_ids tasks) edges counts → IsWithinEdges edges counts.1
  start-IsWithinEdges counts c u v = omega (arith, c.child u v)

  length-task_ids : (ts : List TaskRecord) → length (task_ids ts) ≡ length ts
  length-task_ids [] = refl
  length-task_ids (t ∷ ts) = omega (arith, length-task_ids ts)

  abbrev IsOrderOfAll : List String → Type 0
  IsOrderOfAll order =
      IsOrdered edges order
      × ((v : String) → occurrences v order ≡ occurrences v (task_ids tasks))
      × ((v : String) → occurrences v order ≤ 1)

  all_placed :
      (order : List String)
      → Sound (task_ids tasks) edges order
      → nat_beq (length order) (length tasks) ≡ true
      → IsOrderOfAll order
  all_placed order s e = (
    s.is_ordered,
    occurrences-eq_of_le order (task_ids tasks)
        (λ v. ground (arith, s.once v, s.within v, member-eq-ltb v (task_ids tasks)))
        (ground (arith, length-task_ids tasks)),
    s.once,
  )

  checked_length :
      (order : List String)
      → Sound (task_ids tasks) edges order
      → OnOk IsOrderOfAll
          (if nat_beq (length order) (length tasks) then ok order else err value_error)
  checked_length order s = go (nat_beq (length order) (length tasks)) refl
    where
      go :
          (b : Bool)
          → nat_beq (length order) (length tasks) ≡ b
          → OnOk IsOrderOfAll (if b then ok order else err value_error)
      go true e = all_placed order s e
      go false e = tt

  topological_order-OnOk : OnOk IsOrderOfAll (topological_order tasks edges)
  unfolding topological_order
  topological_order-OnOk =
      OnOk-bind (Counted (task_ids tasks) edges) IsOrderOfAll
        (count_edges edges (zero_degrees tasks [], [])) _
        (count_edges-Counted (task_ids tasks) edges [] _ (zero_degrees-Counted tasks))
        λ (indegree, successors) c.
          OnOk-bind (Sound (task_ids tasks) edges) IsOrderOfAll
            (drain (length tasks) successors indegree (sources indegree) []) _
            (drain-Sound (task_ids tasks) edges successors
              (start-IsWithinEdges (indegree, successors) c) (length tasks) (sources indegree) []
              indegree (start-Inv (indegree, successors) c) (λ u v h m. absurd (ground arith)))
            checked_length

  -- What holds of an order that is returned.
  ordered_once :
      {order : List String} → topological_order tasks edges ≡ ok order → IsOrderOfAll order
  ordered_once = OnOk-apply IsOrderOfAll (topological_order tasks edges) topological_order-OnOk

  -- An order that is returned holds no task twice.
  pub topological_order-once :
      {order : List String}
      → topological_order tasks edges ≡ ok order
      → (v : String) → occurrences v order ≤ 1
  topological_order-once e = (ordered_once e).2

  -- If `_topological_order` returns an order, every hard edge points forward in it, and it holds
  -- exactly the ids of the tasks, each as often as among the tasks.
  pub topological_order-IsOrdered :
      {order : List String}
      → topological_order tasks edges ≡ ok order
      → IsOrdered edges order
        × ((v : String) → occurrences v order ≡ occurrences v (task_ids tasks))
  topological_order-IsOrdered e = let (forward, same, once) = ordered_once e in (forward, same)
