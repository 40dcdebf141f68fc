-- ===== src/Orchestration/Graph/Drain.antt =====
-- The loop of `_topological_order` places a task only after all of its hard predecessors.
use autoweave_library.Common.{
  ℕ, zero, suc, ◌+◌, ◌≤◌, ◌<◌, ◌≡◌, true, false, List, [], ◌∷◌, ◌++◌, String, Dict, lookup, get_or,
  arith, occurrences, occurrences-append, occurrences-sorted, sorted, member, member-append,
  not-member, ==_iff, ==_refl, string_eq, OnOk, OnOk-bind,
}
use autoweave_library.Common.Int.{ℤ}
use autoweave_library.Models.{TaskEdgeRecord}
use autoweave_library.Orchestration.Graph.{relax, drain}
use autoweave_library.Orchestration.Graph.Edges.{
  hard_edges, remaining, remaining-snoc, remaining-zero, precedes, precedes-snoc,
}
use autoweave_library.Orchestration.Graph.Kahn.{Covers, Inv, Relaxed, relax-Inv}

-- The table lists a child of `u` no more often than hard edges lead there.
abbrev pub IsWithinEdges : List TaskEdgeRecord → Dict String (List String) → Type 0
IsWithinEdges edges successors =
    (u v : String) → occurrences v (get_or [] u successors) ≤ hard_edges u v edges

-- Both ends of a hard edge stand in the right order.
abbrev pub IsOrdered : List TaskEdgeRecord → List String → Type 0
IsOrdered edges ordered =
    (u v : String)
    → 0 < hard_edges u v edges
    → member v ordered ≡ true
    → precedes u v ordered ≡ true

module _ (ids : List String) (edges : List TaskEdgeRecord) where
  pub record Sound (ordered : List String) : Type 0 where
    pub is_ordered : IsOrdered edges ordered
    pub once : (v : String) → occurrences v ordered ≤ 1
    pub within : (v : String) → member v ids ≡ false → occurrences v ordered ≡ 0

  module _ (successors : Dict String (List String)) (fits : IsWithinEdges edges successors) where
    module _ (w : String) (ordered queue : List String) (indegree : Dict String ℤ)
        (inv : Inv ids edges [] ordered (w ∷ queue) indegree) where
      pop_fresh : member w ordered ≡ false
      pop_fresh = not-member w ordered (ground (arith, inv.once w, ==_refl w))

      pop_covered :
          (v : String)
          → Covers (lookup v indegree) (
              remaining v (ordered ++ (w ∷ [])) edges
              + occurrences v (sorted (get_or [] w successors)))
      pop_covered v = ground (
        arith,
        inv.covered v,
        remaining-snoc w v ordered edges pop_fresh,
        occurrences-sorted v (get_or [] w successors),
        fits w v,
      )

      pop-Inv : Inv ids edges (sorted (get_or [] w successors)) (ordered ++ (w ∷ [])) queue indegree
      pop-Inv = record {
        covered = pop_covered;
        settled = λ v h. inv.settled v (ground (arith, occurrences-append v ordered (w ∷ [])));
        once = λ v. ground (arith, inv.once v, occurrences-append v ordered (w ∷ []));
        within = inv.within;
      }

      -- The task's degree is zero, so nothing that it waits for is missing.
      pop_parents : (u : String) → 0 < hard_edges u w edges → member u ordered ≡ true
      pop_parents u h =
          remaining-zero u w ordered edges (ground (arith, inv.covered w, inv.settled w, ==_refl w))
            h

      pop-IsOrdered : IsOrdered edges ordered → IsOrdered edges (ordered ++ (w ∷ []))
      pop-IsOrdered back u v h m = ground (
        arith,
        precedes-snoc u v w ordered,
        member-append v ordered (w ∷ []),
        back u v h,
        pop_parents u,
        ==_iff v w,
      )

    pub drain-Sound :
        (fuel : ℕ) (queue ordered : List String) (indegree : Dict String ℤ)
        → Inv ids edges [] ordered queue indegree
        → IsOrdered edges ordered
        → OnOk Sound (drain fuel successors indegree queue ordered)
    unfolding drain
    drain-Sound fuel [] ordered indegree inv back = record {
      is_ordered = back;
      once = λ v. ground (arith, inv.once v);
      within = λ v h. ground (arith, inv.within v, inv.settled v);
    }
    drain-Sound zero (w ∷ queue) ordered indegree inv back = tt
    drain-Sound (suc fuel) (w ∷ queue) ordered indegree inv back =
        OnOk-bind (Relaxed ids edges (ordered ++ (w ∷ []))) Sound
          (relax (sorted (get_or [] w successors)) indegree queue) _
          (relax-Inv ids edges (sorted (get_or [] w successors)) (ordered ++ (w ∷ [])) queue
            indegree (pop-Inv w ordered queue indegree inv))
          (λ (indegree', queue') inv'.
            drain-Sound fuel queue' (ordered ++ (w ∷ [])) indegree' inv'
              (pop-IsOrdered w ordered queue indegree inv back))
