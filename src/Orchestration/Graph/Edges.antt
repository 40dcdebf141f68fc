-- ===== src/Orchestration/Graph/Edges.antt =====
-- Counting the hard edges between two tasks, and those into a task from tasks not placed yet.
use autoweave_library.Common.{
  ℕ, ◌+◌, ◌<◌, ◌≡◌, refl, Bool, true, false, not, ◌&&◌, ◌||◌, List, [], ◌∷◌, ◌++◌, String, arith,
  tally, member, member-append, ◌==◌, ==_iff, string_eq,
}
use autoweave_library.Models.{TaskEdgeRecord}

abbrev pub links : String → String → TaskEdgeRecord → Bool
links u v e = e.is_hard_dependency && (e.from_task_id == u && e.to_task_id == v)

-- How many hard edges lead from `u` to `v`.
abbrev pub hard_edges : String → String → List TaskEdgeRecord → ℕ
hard_edges u v edges = tally (links u v) edges

abbrev pub waits : String → List String → TaskEdgeRecord → Bool
waits v ordered e =
    e.is_hard_dependency && (e.to_task_id == v && not (member e.from_task_id ordered))

-- How many hard edges lead into `v` from tasks that are not in `ordered`.
abbrev pub remaining : String → List String → List TaskEdgeRecord → ℕ
remaining v ordered edges = tally (waits v ordered) edges

pub remaining-snoc :
    (u v : String) (ordered : List String) (edges : List TaskEdgeRecord)
    → member u ordered ≡ false
    → remaining v ordered edges ≡ remaining v (ordered ++ (u ∷ [])) edges + hard_edges u v edges
remaining-snoc u v ordered [] h = refl
remaining-snoc u v ordered (e ∷ edges) h = ground (
  arith,
  remaining-snoc u v ordered edges h,
  member-append e.from_task_id ordered (u ∷ []),
  ==_iff e.from_task_id u,
)

pub remaining-zero :
    (u v : String) (ordered : List String) (edges : List TaskEdgeRecord)
    → remaining v ordered edges ≡ 0
    → 0 < hard_edges u v edges
    → member u ordered ≡ true
remaining-zero u v ordered [] h k = absurd (omega arith)
remaining-zero u v ordered (e ∷ edges) h k =
    ground (arith, remaining-zero u v ordered edges, ==_iff e.from_task_id u)

-- `u` stands before `v` in the list.
abbrev pub precedes : String → String → List String → Bool
precedes u v [] = false
precedes u v (x ∷ xs) = x == u && member v xs || precedes u v xs

pub precedes-snoc :
    (u v x : String) (xs : List String)
    → precedes u v (xs ++ (x ∷ [])) ≡ (precedes u v xs || member u xs && v == x)
precedes-snoc u v x [] = ground arith
precedes-snoc u v x (y ∷ ys) =
    ground (arith, precedes-snoc u v x ys, member-append v ys (x ∷ []), ==_iff y u, ==_iff u y)
