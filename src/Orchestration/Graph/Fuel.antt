-- ===== src/Orchestration/Graph/Fuel.antt =====
-- As many rounds as there are tasks are enough for the loop of `_topological_order`.
use autoweave_library.Common.{
  ℕ, zero, suc, ◌+◌, ◌≤◌, ◌≡◌, ◌≢◌, Bool, true, false, some, List, [], ◌∷◌, ◌++◌, String, Dict,
  lookup, insert, length-insert, get_or, Result, ok, err, bind, fuel_exhausted, arith, length,
  length-append, sorted, string_eq, if◌then◌else◌, Option-cases, inl, inr, value_error, nat_beq,
}
use autoweave_library.Common.Int.{ℤ, pos, negsuc, minus_one, plus_one, is_zero, is_positive}
use autoweave_library.Models.{TaskRecord, TaskEdgeRecord}
use autoweave_library.Orchestration.Graph.{
  Counts, zero_degrees, count_edge, count_edges, sources, relax, drain, topological_order,
}

abbrev one_if_positive : ℤ → ℕ
one_if_positive d = if is_positive d then 1 else 0

-- How many tasks still have a positive degree.
abbrev positives : Dict String ℤ → ℕ
positives [] = 0
positives ((k, d) ∷ table) = one_if_positive d + positives table

positives-insert :
    (k : String) (old new : ℤ) (table : Dict String ℤ)
    → lookup k table ≡ some old
    → positives (insert k new table) + one_if_positive old ≡ positives table + one_if_positive new
positives-insert k old new [] e = ground arith
positives-insert k old new ((j, d) ∷ table) e = ground (arith, positives-insert k old new table)

-- A round of `relax` lets no task in that it does not take off the positive ones.
relax_step :
    (child : String) (degree : ℤ) (indegree : Dict String ℤ) (queue : List String)
    → lookup child indegree ≡ some degree
    → length (if is_zero (minus_one degree) then queue ++ (child ∷ []) else queue)
        + positives (insert child (minus_one degree) indegree)
      ≤ length queue + positives indegree
unfolding minus_one is_zero is_positive
relax_step child (pos zero) indegree queue e =
    ground (arith, positives-insert child (pos zero) (negsuc zero) indegree e)
relax_step child (pos (suc zero)) indegree queue e = ground (
  arith,
  positives-insert child (pos (suc zero)) (pos zero) indegree e,
  length-append queue (child ∷ []),
)
relax_step child (pos (suc (suc n))) indegree queue e =
    ground (arith, positives-insert child (pos (suc (suc n))) (pos (suc n)) indegree e)
relax_step child (negsuc n) indegree queue e =
    ground (arith, positives-insert child (negsuc n) (negsuc (suc n)) indegree e)

-- A loop that ends within a bound on the tasks queued and still positive.
abbrev EndsWithin : ℕ → Result (Dict String ℤ × List String) → Type 0
EndsWithin bound (ok (indegree, queue)) = length queue + positives indegree ≤ bound
EndsWithin bound (err e) = e ≢ fuel_exhausted

relax-EndsWithin :
    (bound : ℕ) (children : List String) (indegree : Dict String ℤ) (queue : List String)
    → length queue + positives indegree ≤ bound
    → EndsWithin bound (relax children indegree queue)
unfolding relax
relax-EndsWithin bound [] indegree queue h = h
relax-EndsWithin bound (child ∷ children) indegree queue h =
    elim (Option-cases (lookup child indegree)) [
      | inl missing ↦ rw missing (λ e. cc)
      | inr (degree, found) ↦ rw found (
          relax-EndsWithin bound children (insert child (minus_one degree) indegree)
            (if is_zero (minus_one degree) then queue ++ (child ∷ []) else queue)
            (omega (arith, relax_step child degree indegree queue found)))
    ]

drain-ne-fuel_exhausted :
    (fuel : ℕ) (successors : Dict String (List String)) (indegree : Dict String ℤ)
    (queue ordered : List String)
    → length queue + positives indegree ≤ fuel
    → drain fuel successors indegree queue ordered ≢ err fuel_exhausted
unfolding drain
drain-ne-fuel_exhausted fuel successors indegree [] ordered h = λ e. cc
drain-ne-fuel_exhausted zero successors indegree (w ∷ queue) ordered h = absurd (omega arith)
drain-ne-fuel_exhausted (suc fuel) successors indegree (w ∷ queue) ordered h =
    next (relax children indegree queue)
      (relax-EndsWithin fuel children indegree queue (omega arith))
      (drain-ne-fuel_exhausted fuel successors)
  where
    children : List String
    children = sorted (get_or [] w successors)

    next :
        (r : Result (Dict String ℤ × List String))
        → EndsWithin fuel r
        → ((indegree : Dict String ℤ) (queue ordered : List String)
            → length queue + positives indegree ≤ fuel
            → drain fuel successors indegree queue ordered ≢ err fuel_exhausted)
        → bind r
            (λ (indegree', queue'). drain fuel successors indegree' queue' (ordered ++ (w ∷ [])))
          ≢ err fuel_exhausted
    next (ok (indegree', queue')) fits rest = rest indegree' queue' (ordered ++ (w ∷ [])) fits
    next (err e) other rest = λ p. other (ground arith)

queued_at_start :
    (indegree : Dict String ℤ) → length (sources indegree) + positives indegree ≤ length indegree
unfolding sources is_zero is_positive
queued_at_start [] = omega arith
queued_at_start ((k, pos zero) ∷ table) = ground (arith, queued_at_start table)
queued_at_start ((k, pos (suc n)) ∷ table) = ground (arith, queued_at_start table)
queued_at_start ((k, negsuc n) ∷ table) = ground (arith, queued_at_start table)

length-zero_degrees :
    (tasks : List TaskRecord) (table : Dict String ℤ)
    → length (zero_degrees tasks table) ≤ length tasks + length table
unfolding zero_degrees
length-zero_degrees [] table = omega arith
length-zero_degrees (t ∷ ts) table =
    ground
      (arith, length-zero_degrees ts (insert t.id (pos 0) table), length-insert t.id (pos 0) table)

-- A count that ends in a table of bounded length, or raises what the program raises.
abbrev Sized : ℕ → Result Counts → Type 0
Sized bound (ok (indegree, successors)) = length indegree ≤ bound
Sized bound (err e) = e ≢ fuel_exhausted

count_edge-Sized :
    (bound : ℕ) (edge : TaskEdgeRecord) (counts : Counts)
    → length counts.0 ≤ bound
    → Sized bound (count_edge edge counts)
unfolding count_edge
count_edge-Sized bound edge counts h = elim (Option-cases (lookup edge.to_task_id counts.0)) [
  | inl missing ↦ rw missing (λ e. cc)
  | inr (d, found) ↦ rw found (ground (arith, length-insert edge.to_task_id (plus_one d) counts.0))
]

count_edges-Sized :
    (bound : ℕ) (edges : List TaskEdgeRecord) (counts : Counts)
    → length counts.0 ≤ bound
    → Sized bound (count_edges edges counts)
unfolding count_edges
count_edges-Sized bound [] counts h = h
count_edges-Sized bound (edge ∷ edges) counts h =
    next (if edge.is_hard_dependency then count_edge edge counts else ok counts)
      (choose edge.is_hard_dependency) (count_edges-Sized bound edges)
  where
    choose : (hard : Bool) → Sized bound (if hard then count_edge edge counts else ok counts)
    choose true = count_edge-Sized bound edge counts h
    choose false = h

    next :
        (r : Result Counts)
        → Sized bound r
        → ((counts : Counts) → length counts.0 ≤ bound → Sized bound (count_edges edges counts))
        → Sized bound (bind r (count_edges edges))
    next (ok counts') fits rest = rest counts' fits
    next (err e) other rest = other

-- The loop of `_topological_order` always ends by itself: as many rounds as there are tasks are
-- enough, whatever the tasks and the edges.
pub topological_order-ne-fuel_exhausted :
    (tasks : List TaskRecord) (edges : List TaskEdgeRecord)
    → topological_order tasks edges ≢ err fuel_exhausted
unfolding topological_order
topological_order-ne-fuel_exhausted tasks edges =
    next (count_edges edges (zero_degrees tasks [], [])) (
      count_edges-Sized (length tasks) edges (zero_degrees tasks [], [])
        (omega (arith, length-zero_degrees tasks [])))
  where
    checked :
        (r : Result (List String))
        → r ≢ err fuel_exhausted
        → bind r (λ ordered.
          if nat_beq (length ordered) (length tasks) then ok ordered else err value_error)
          ≢ err fuel_exhausted
    checked (ok ordered) h p = ground arith
    checked (err e) h p = h p

    next :
        (r : Result Counts)
        → Sized (length tasks) r
        → bind r (λ (indegree, successors).
          bind (drain (length tasks) successors indegree (sources indegree) []) (λ ordered.
            if nat_beq (length ordered) (length tasks) then ok ordered else err value_error))
          ≢ err fuel_exhausted
    next (ok (indegree, successors)) fits =
        checked (drain (length tasks) successors indegree (sources indegree) []) (
          drain-ne-fuel_exhausted (length tasks) successors indegree (sources indegree) []
            (omega (arith, queued_at_start indegree)))
    next (err e) other = λ p. other (ground arith)
