-- ===== src/Storage/Repository/Traverse/Upstream.antt =====
-- autoweave/storage/repositories.py: the rounds and the answer of `upstream_task_ids`.
use autoweave_library.Common.{
  unseen, unseen-lt, ℕ, zero, suc, ◌+◌, ◌≤◌, ◌≡◌, ◌↔◌, ◌⊎◌, inl, inr, refl, subst, true, false, not,
  ◌||◌, ◌&&◌, List, [], ◌∷◌, map, String, Dict, get_or, Result, ok, length, member, arith,
  string_eq, ==_iff,
}
use autoweave_library.Models.{WorkflowGraph, TaskEdgeRecord}
use autoweave_library.Orchestration.Graph.{collect_predecessors}
use autoweave_library.Orchestration.State.Dependencies.{parents, collect_predecessors_lem}
use autoweave_library.Storage.Repository.{Repository, graph_for_task}
use autoweave_library.Storage.Repository.Traverse.{visit, walk, upstream_task_ids}

-- `x` lies on a way of hard edges into `start`.
pub data IsUpstream (edges : List TaskEdgeRecord) (start : String) : String → Type 0 where
  direct : (x : String) → member x (parents start edges) ≡ true → IsUpstream edges start x
  further :
      (w x : String)
      → IsUpstream edges start w
      → member x (parents w edges) ≡ true
      → IsUpstream edges start x

visit-seen :
    (x : String) (ps frontier seen : List String)
    → member x (visit ps frontier seen).1 ≡ (member x seen || member x ps)
unfolding visit
visit-seen x [] frontier seen = ground arith
visit-seen x (p ∷ ps) frontier seen =
    ground
      (arith, visit-seen x ps frontier seen, visit-seen x ps (p ∷ frontier) (p ∷ seen), ==_iff x p)

visit-frontier :
    (x : String) (ps frontier seen : List String)
    → member x (visit ps frontier seen).0
      ≡ (member x frontier || (member x ps && not (member x seen)))
unfolding visit
visit-frontier x [] frontier seen = ground arith
visit-frontier x (p ∷ ps) frontier seen = ground (
  arith,
  visit-frontier x ps frontier seen,
  visit-frontier x ps (p ∷ frontier) (p ∷ seen),
  ==_iff x p,
)

-- All elements of the first list are in the second.
abbrev IsIn : List String → List String → Type 0
IsIn [] pool = Unit
IsIn (p ∷ ps) pool = (member p pool ≡ true) × IsIn ps pool

visit-length :
    (ps frontier seen pool : List String)
    → IsIn ps pool
    → length (visit ps frontier seen).0 + unseen (visit ps frontier seen).1 pool
      ≤ length frontier + unseen seen pool
unfolding visit
visit-length [] frontier seen pool h = ground arith
visit-length (p ∷ ps) frontier seen pool h = ground (
  arith,
  visit-length ps frontier seen pool h.1,
  visit-length ps (p ∷ frontier) (p ∷ seen) pool h.1,
  unseen-lt p seen pool h.0,
)

IsIn-weaken : (q : String) (ps pool : List String) → IsIn ps pool → IsIn ps (q ∷ pool)
IsIn-weaken q [] pool h = tt
IsIn-weaken q (p ∷ ps) pool h = ground (arith, IsIn-weaken q ps pool h.1, ==_iff p q)

abbrev starts : List TaskEdgeRecord → List String
starts edges = map (λ (e : TaskEdgeRecord). e.from_task_id) edges

parents-IsIn : (v : String) (edges : List TaskEdgeRecord) → IsIn (parents v edges) (starts edges)
parents-IsIn v [] = tt
parents-IsIn v (e ∷ edges) = ground (
  arith,
  IsIn-weaken e.from_task_id (parents v edges) (starts edges) (parents-IsIn v edges),
  ==_iff e.from_task_id e.from_task_id,
)

length-starts : (edges : List TaskEdgeRecord) → unseen [] (starts edges) ≡ length edges
length-starts [] = refl
length-starts (e ∷ edges) = ground (arith, length-starts edges)

module _ (edges : List TaskEdgeRecord) (start : String) where
  -- Between two rounds: all that was found is upstream, and what is off the stack has its parents
  -- among the found.
  record IsWalk (frontier seen : List String) : Type 0 where
    seen_sound : (x : String) → member x seen ≡ true → IsUpstream edges start x
    frontier_sound :
        (x : String) → member x frontier ≡ true → (x ≡ start) ⊎ IsUpstream edges start x
    closed :
        (w x : String)
        → (w ≡ start) ⊎ (member w seen ≡ true)
        → member w frontier ≡ false
        → member x (parents w edges) ≡ true
        → member x seen ≡ true

  parent-IsUpstream :
      (w x : String)
      → (w ≡ start) ⊎ IsUpstream edges start w
      → member x (parents w edges) ≡ true
      → IsUpstream edges start x
  parent-IsUpstream w x (inl e) h = direct x (subst (λ v. member x (parents v edges) ≡ true) e h)
  parent-IsUpstream w x (inr u) h = further w x u h

  module _ (current : String) (frontier seen : List String)
      (inv : IsWalk (current ∷ frontier) seen) where
    current_sound : (current ≡ start) ⊎ IsUpstream edges start current
    current_sound = inv.frontier_sound current (ground (arith, ==_iff current current))

    next-IsWalk :
        IsWalk
          (visit (parents current edges) frontier seen).0
          (visit (parents current edges) frontier seen).1
    next-IsWalk = record {
      seen_sound = λ x h. ground (
        arith,
        visit-seen x (parents current edges) frontier seen,
        inv.seen_sound x,
        parent-IsUpstream current x current_sound,
      );
      frontier_sound = λ x h. ground (
        arith,
        visit-frontier x (parents current edges) frontier seen,
        inv.frontier_sound x,
        parent-IsUpstream current x current_sound,
      );
      closed = λ w x from out h. ground (
        arith,
        ==_iff w current,
        visit-frontier w (parents current edges) frontier seen,
        visit-seen w (parents current edges) frontier seen,
        visit-seen x (parents current edges) frontier seen,
        inv.closed w x,
      );
    }

  IsUpstream-seen :
      (seen : List String)
      → IsWalk [] seen
      → (x : String) → IsUpstream edges start x
      → member x seen ≡ true
  IsUpstream-seen seen inv x (direct _ h) = inv.closed start x (inl refl) refl h
  IsUpstream-seen seen inv x (further w _ u h) =
      inv.closed w x (inr (IsUpstream-seen seen inv w u)) refl h

  -- An answer that lists exactly what is upstream.
  abbrev pub Finds : Result (List String) → Type 0
  Finds r =
      (ids : List String) × ((r ≡ ok ids)
        × ((x : String) → (member x ids ≡ true) ↔ IsUpstream edges start x))

  walk-Finds :
      (d : Dict String (List String))
      → ((v : String) → get_or [] v d ≡ parents v edges)
      → (fuel : ℕ) (frontier seen : List String) → IsWalk frontier seen
      → length frontier + unseen seen (starts edges) ≤ fuel
      → Finds (walk fuel d frontier seen)
  unfolding walk
  walk-Finds d same fuel [] seen inv enough =
      (seen, (refl, λ x. (inv.seen_sound x, IsUpstream-seen seen inv x)))
  walk-Finds d same zero (current ∷ frontier) seen inv enough = ground arith
  walk-Finds d same (suc fuel) (current ∷ frontier) seen inv enough =
      rw (walk, same current)
        (walk-Finds d same fuel (visit (parents current edges) frontier seen).0
          (visit (parents current edges) frontier seen).1 (next-IsWalk current frontier seen inv)
          (ground (
            arith,
            visit-length (parents current edges) frontier seen (starts edges)
                (parents-IsIn current edges),
          )))

-- On a task of a stored run, `upstream_task_ids` always returns, and its answer holds a task exactly
-- when a way of one or more hard edges of the run's graph leads from it to the given task.
pub upstream_task_ids-IsUpstream :
    (task_id : String) (s : Repository) (graph : WorkflowGraph)
    → graph_for_task task_id s ≡ ok graph
    → Finds graph.edges task_id (upstream_task_ids task_id s)
unfolding upstream_task_ids
upstream_task_ids-IsUpstream task_id s graph found = rw found (
    walk-Finds graph.edges task_id (collect_predecessors graph.edges [])
      (λ v. collect_predecessors_lem v graph.edges []) (suc (length graph.edges)) (task_id ∷ []) []
      (record {
        seen_sound = λ x h. ground arith;
        frontier_sound = λ x h. ground (arith, ==_iff x task_id);
        closed = λ w x from out h. ground (arith, ==_iff w task_id);
      })
      (ground (arith, length-starts graph.edges)))
