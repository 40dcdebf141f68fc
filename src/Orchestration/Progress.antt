-- ===== src/Orchestration/Progress.antt =====
-- autoweave/orchestration/state.py: a run whose tasks are not all completed can go on.
use autoweave_library.Common.{
  ℕ, ◌≤◌, ◌<◌, ◌≡◌, refl, sym, ◌∙◌, ap, subst, Bool, true, false, none, some, List, [], ◌∷◌, ◌++◌,
  String, Dict, lookup, ok, arith, All, all, member, member-append, occurrences, member-eq-ltb,
  ◌==◌, ==_iff, ==_refl, string_eq, Bool-cases, inl, inr,
}
use autoweave_library.Models.{TaskRecord, TaskEdgeRecord, task_state_eq}
use autoweave_library.Orchestration.Graph.{topological_order}
use autoweave_library.Orchestration.Graph.Edges.{hard_edges, precedes}
use autoweave_library.Orchestration.Graph.Counts.{task_ids}
use autoweave_library.Orchestration.Graph.Order.{
  topological_order-IsOrdered, topological_order-once,
}
use autoweave_library.Orchestration.State.{
  WorkflowRunState, is_completed, hard_dependencies_satisfied,
}
use autoweave_library.Orchestration.State.Valid.{IsValid}
use autoweave_library.Orchestration.State.Dependencies.{
  parents, IsDone, AllDone, AllDone-satisfied, hard_dependencies_satisfied_lem,
}
use autoweave_library.Orchestration.Tasks.{promote_task}
use autoweave_library.Orchestration.Outcomes.{promoted, promote_task_lem}

-- Whether the task under an id is there and completed.
abbrev finished : Dict String TaskRecord → String → Bool
finished d k = elim (lookup k d) [ none ↦ false | some t ↦ is_completed t ]

finished-IsDone :
    (d : Dict String TaskRecord) (k : String) → finished d k ≡ true → IsDone (lookup k d)
unfolding is_completed
finished-IsDone d k e = ground arith

all-member :
    (test : String → Bool) (k : String) (ks : List String)
    → all test ks ≡ true
    → member k ks ≡ true
    → test k ≡ true
all-member test k [] e h = absurd (ground arith)
all-member test k (j ∷ ks) e h = ground (arith, all-member test k ks, ==_iff k j)

All-members :
    (P : String → Type 0) (ks : List String) → ((k : String) → member k ks ≡ true → P k) → All P ks
All-members P [] f = tt
All-members P (k ∷ ks) f =
    (f k (ground (arith, ==_refl k)), All-members P ks (λ j h. f j (ground arith)))

-- The first id of a list whose task is not completed.
record FirstOpen (d : Dict String TaskRecord) (ks : List String) : Type 0 where
  pub front : List String
  pub id : String
  pub back : List String
  pub split : ks ≡ front ++ (id ∷ back)
  pub before : all (finished d) front ≡ true
  pub is_open : finished d id ≡ false

first_open :
    (d : Dict String TaskRecord) (k : String) (ks : List String)
    → member k ks ≡ true
    → finished d k ≡ false
    → FirstOpen d ks
first_open d k [] h left = absurd (ground arith)
first_open d k (j ∷ ks) h left = elim (Bool-cases (finished d j)) [
  | inr here ↦ record { front = []; id = j; back = ks; split = refl; before = refl; is_open = here }
  | inl done ↦
      let later : member k ks ≡ true = ground (arith, ==_iff k j) in
      let f = first_open d k ks later left in
      record {
        front = j ∷ f.front;
        id = f.id;
        back = f.back;
        split = ap (λ xs. j ∷ xs) f.split;
        before = rw done f.before;
        is_open = f.is_open;
      }
]

FirstOpen-member :
    {d : Dict String TaskRecord} {ks : List String} (f : FirstOpen d ks) → member f.id ks ≡ true
FirstOpen-member f =
    subst (λ xs. member f.id xs ≡ true) (sym f.split)
      (ground (arith, member-append f.id f.front (f.id ∷ f.back), ==_refl f.id))

precedes-member : (u v : String) (xs : List String) → precedes u v xs ≡ true → member v xs ≡ true
precedes-member u v [] h = absurd (ground arith)
precedes-member u v (x ∷ xs) h = ground (arith, precedes-member u v xs)

precedes-front :
    (u v : String) (front back : List String)
    → occurrences v (front ++ (v ∷ back)) ≤ 1
    → precedes u v (front ++ (v ∷ back)) ≡ true
    → member u front ≡ true
precedes-front u v [] back once h =
    absurd (ground (arith, precedes-member u v back, member-eq-ltb v back, ==_refl v))
precedes-front u v (x ∷ front) back once h =
    ground (arith, precedes-front u v front back, ==_iff x u, ==_iff u x)

parents-hard :
    (u v : String) (edges : List TaskEdgeRecord)
    → member u (parents v edges) ≡ true
    → 0 < hard_edges u v edges
parents-hard u v [] h = absurd (ground arith)
parents-hard u v (e ∷ edges) h =
    ground (arith, parents-hard u v edges, ==_iff e.from_task_id u, ==_iff u e.from_task_id)

-- A task of the list that is not completed, by its id.
open_id :
    (d : Dict String TaskRecord) (ts : List TaskRecord)
    → All (λ (t : TaskRecord). lookup t.id d ≡ some t) ts
    → all is_completed ts ≡ false
    → (k : String) × ((member k (task_ids ts) ≡ true) × (finished d k ≡ false))
open_id d [] stored left = absurd (ground arith)
open_id d (t ∷ ts) stored left = elim (Bool-cases (is_completed t)) [
  | inr here ↦ (t.id, (ground (arith, ==_refl t.id), rw (finished, stored.0) here))
  | inl done ↦ let (k, (h, e)) = open_id d ts stored.1 (ground arith) in (k, (ground arith, e))
]

stored_task :
    (d : Dict String TaskRecord) (k : String) (ts : List TaskRecord)
    → All (λ (t : TaskRecord). lookup t.id d ≡ some t) ts
    → member k (task_ids ts) ≡ true
    → (t : TaskRecord) × ((t.id ≡ k) × (lookup t.id d ≡ some t))
stored_task d k [] stored h = absurd (ground arith)
stored_task d k (t ∷ ts) stored h = elim (Bool-cases (k == t.id)) [
  | inl here ↦ (t, (sym ((==_iff k t.id).0 here), stored.0))
  | inr there ↦ stored_task d k ts stored.1 (ground arith)
]

module _ (s : WorkflowRunState) (order : List String) (v : IsValid s)
    (ordered : topological_order s.graph.tasks s.graph.edges ≡ ok order) where
  abbrev d : Dict String TaskRecord
  d = s.tasks_by_id

  member-order : (k : String) → member k order ≡ member k (task_ids s.graph.tasks)
  member-order k = ground (
    arith,
    (topological_order-IsOrdered s.graph.tasks s.graph.edges ordered).1 k,
    member-eq-ltb k order,
    member-eq-ltb k (task_ids s.graph.tasks),
  )

  FirstOpen-AllDone : (f : FirstOpen d order) → AllDone d (parents f.id s.graph.edges)
  FirstOpen-AllDone f =
      All-members (λ k. IsDone (lookup k d)) (parents f.id s.graph.edges)
        λ u h. finished-IsDone d u (
          all-member (finished d) u f.front f.before (
            precedes-front u f.id f.front f.back
              (subst (λ xs. occurrences f.id xs ≤ 1) f.split
                (topological_order-once s.graph.tasks s.graph.edges ordered f.id))
              (subst (λ xs. precedes u f.id xs ≡ true) f.split
                ((topological_order-IsOrdered s.graph.tasks s.graph.edges ordered).0 u f.id
                  (parents-hard u f.id s.graph.edges h) (FirstOpen-member f)))))

  -- A task that is not completed, with all its hard dependencies met.
  abbrev CanGoOn : ℕ → TaskRecord → Type 0
  CanGoOn now t =
      (lookup t.id d ≡ some t)
      × (is_completed t ≡ false)
      × (hard_dependencies_satisfied t.id s ≡ (ok true, s))
      × (promote_task now t.id s ≡ promoted t.state true now t s)

  goes_on :
      (now : ℕ) (f : FirstOpen d order) (t : TaskRecord)
      → t.id ≡ f.id
      → lookup t.id d ≡ some t
      → CanGoOn now t
  goes_on now f t same stored =
      let met =
        AllDone-satisfied t.id s ordered
          (subst (λ k. AllDone d (parents k s.graph.edges)) (sym same) (FirstOpen-AllDone f)) in
      (
        stored,
        (rw (finished, stored) at (subst (λ k. finished d k ≡ false) (sym same) f.is_open)),
        hard_dependencies_satisfied_lem t.id s ∙ ap (λ r. (r, s)) met,
        promote_task_lem t.id now s t true v stored met,
      )

-- In a state whose indices are right and whose graph has an order, if some task of the graph is
-- not completed, then there is a stored task that is not completed and whose hard dependencies are
-- all met; the round of `promote_ready_tasks` on it answers, and makes it READY if it is new or
-- waits for its dependencies.
pub promote_task-goes_on :
    (now : ℕ) (s : WorkflowRunState) (order : List String)
    → IsValid s
    → topological_order s.graph.tasks s.graph.edges ≡ ok order
    → all is_completed s.graph.tasks ≡ false
    → (t : TaskRecord) × ((lookup t.id s.tasks_by_id ≡ some t)
        × (is_completed t ≡ false)
        × (hard_dependencies_satisfied t.id s ≡ (ok true, s))
        × (promote_task now t.id s ≡ promoted t.state true now t s))
promote_task-goes_on now s order v ordered left =
    let (k, (known, waits)) = open_id s.tasks_by_id s.graph.tasks v.mirrors left in
    let f = first_open s.tasks_by_id k order (member-order s order v ordered k ∙ known) waits in
    let known' = sym (member-order s order v ordered f.id) ∙ FirstOpen-member f in
    let (t, (same, stored)) = stored_task s.tasks_by_id f.id s.graph.tasks v.mirrors known' in
    (t, goes_on s order v ordered now f t same stored)
