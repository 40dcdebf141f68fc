-- ===== src/Orchestration/Graph/Kahn.antt =====
-- The invariant of the loop of `_topological_order`: a degree covers the edges still to come, and
-- whatever is queued or placed has degree zero and stands there once.
use autoweave_library.Common.{
  ℕ, zero, suc, ◌+◌, ◌≤◌, ◌<◌, ◌≡◌, refl, ap, ◌∙◌, false, Option, none, some, List, [], ◌∷◌, ◌++◌,
  String, Dict, lookup, insert, arith, occurrences, occurrences-append, member, ==_iff, inl, inr,
  Option-cases, string_eq, if◌then◌else◌, lookup-insert, ==_refl, OnOk,
}
use autoweave_library.Common.Int.{ℤ, pos, negsuc, is_zero}
use autoweave_library.Models.{TaskEdgeRecord}
use autoweave_library.Orchestration.Graph.{relax}
use autoweave_library.Orchestration.Graph.Edges.{remaining}

-- The degree that a table holds, where it holds one, is a natural number no less than `need`.
abbrev pub Covers : Option ℤ → ℕ → Type 0
Covers none need = Unit
Covers (some (pos n)) need = need ≤ n
Covers (some (negsuc n)) need = ⊥

-- The queue after a child has come down to `n`.
abbrev queue_after : ℕ → String → List String → List String
queue_after zero child queue = queue ++ (child ∷ [])
queue_after (suc n) child queue = queue

module _ (ids : List String) (edges : List TaskEdgeRecord) where
  -- `coming` are the children of the task last placed that are still to be visited.
  pub record Inv (coming ordered queue : List String) (indegree : Dict String ℤ) : Type 0 where
    pub covered :
        (v : String) → Covers (lookup v indegree) (remaining v ordered edges + occurrences v coming)
    pub settled :
        (v : String)
        → 0 < occurrences v ordered + occurrences v queue
        → lookup v indegree ≡ some (pos 0)
    pub once : (v : String) → occurrences v ordered + occurrences v queue ≤ 1
    pub within : (v : String) → member v ids ≡ false → lookup v indegree ≡ none

  module _ (child : String) (coming ordered queue : List String) (indegree : Dict String ℤ) (n : ℕ)
      (inv : Inv (child ∷ coming) ordered queue indegree)
      (found : lookup child indegree ≡ some (pos (suc n))) where
    step_covered :
        (v : String)
        → Covers
            (lookup v (insert child (pos n) indegree))
            (remaining v ordered edges + occurrences v coming)
    step_covered v =
        ground (arith, lookup-insert v child (pos n) indegree, ==_iff v child, inv.covered v)

    step_absent : occurrences child ordered + occurrences child queue ≡ 0
    step_absent = ground (arith, inv.settled child)

    step_settled :
        (v : String)
        → 0 < occurrences v ordered + occurrences v (queue_after n child queue)
        → lookup v (insert child (pos n) indegree) ≡ some (pos 0)
    step_settled v h = ground (
      arith,
      lookup-insert v child (pos n) indegree,
      ==_iff v child,
      inv.settled v,
      step_absent,
      occurrences-append v queue (child ∷ []),
    )

    step_once : (v : String) → occurrences v ordered + occurrences v (queue_after n child queue) ≤ 1
    step_once v =
        ground
          (arith, ==_iff v child, inv.once v, step_absent, occurrences-append v queue (child ∷ []))

    step_within :
        (v : String) → member v ids ≡ false → lookup v (insert child (pos n) indegree) ≡ none
    step_within v h =
        ground (arith, lookup-insert v child (pos n) indegree, ==_iff v child, inv.within v)

    step-Inv : Inv coming ordered (queue_after n child queue) (insert child (pos n) indegree)
    step-Inv = record {
      covered = step_covered;
      settled = step_settled;
      once = step_once;
      within = step_within;
    }

  positive_degree :
      (child : String) (coming ordered queue : List String) (indegree : Dict String ℤ) (degree : ℤ)
      → Inv (child ∷ coming) ordered queue indegree
      → lookup child indegree ≡ some degree
      → (n : ℕ) × (degree ≡ pos (suc n))
  positive_degree child coming ordered queue indegree degree inv found = go degree found
    where
      go : (d : ℤ) → lookup child indegree ≡ some d → (n : ℕ) × (d ≡ pos (suc n))
      go (pos zero) e = absurd (ground (arith, inv.covered child, ==_refl child))
      go (pos (suc n)) e = (n, refl)
      go (negsuc n) e = absurd (ground (arith, inv.covered child))

  abbrev pub Relaxed : List String → Dict String ℤ × List String → Type 0
  Relaxed ordered (indegree, queue) = Inv [] ordered queue indegree

  pub relax-Inv :
      (coming ordered queue : List String) (indegree : Dict String ℤ)
      → Inv coming ordered queue indegree
      → OnOk (Relaxed ordered) (relax coming indegree queue)
  unfolding relax
  relax-Inv [] ordered queue indegree inv = inv
  relax-Inv (child ∷ coming) ordered queue indegree inv =
      elim (Option-cases (lookup child indegree)) [
        | inl missing ↦ rw missing tt
        | inr (degree, found) ↦
            let (n, e) = positive_degree child coming ordered queue indegree degree inv found in
            rw (found, e) (advance n (found ∙ ap some e) (relax-Inv coming ordered))
      ]
    where
      advance :
          (n : ℕ)
          → lookup child indegree ≡ some (pos (suc n))
          → ((queue : List String) (indegree : Dict String ℤ)
              → Inv coming ordered queue indegree
              → OnOk (Relaxed ordered) (relax coming indegree queue))
          → OnOk (Relaxed ordered) (
              relax coming
                (insert child (pos n) indegree)
                (if is_zero (pos n) then queue ++ (child ∷ []) else queue))
      advance zero e rest =
          rest (queue ++ (child ∷ [])) (insert child (pos 0) indegree)
            (step-Inv child coming ordered queue indegree zero inv e)
      advance (suc n) e rest =
          rest queue (insert child (pos (suc n)) indegree)
            (step-Inv child coming ordered queue indegree (suc n) inv e)
