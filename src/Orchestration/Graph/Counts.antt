-- ===== src/Orchestration/Graph/Counts.antt =====
-- What `_topological_order` has counted before its loop starts: a degree is the number of hard
-- edges into the task, and a child stands once in the set of each task that has an edge to it.
use autoweave_library.Common.{
  ℕ, ◌≤◌, ◌≡◌, refl, min, Bool, true, false, Option, none, some, List, [], ◌∷◌, ◌++◌, map,
  append_assoc, append-nil, String, Dict, lookup, insert, get_or, lookup-insert, Unique,
  insert-Unique, ok, arith, occurrences, occurrences-append, set_add, member, member-eq-ltb,
  tally-append, ◌==◌, ==_iff, ==_refl, string_eq, if◌then◌else◌, OnOk, OnOk-bind, Option-cases, inl,
  inr,
}
use autoweave_library.Common.Int.{ℤ, pos, negsuc, plus_one, is_zero}
use autoweave_library.Models.{TaskRecord, TaskEdgeRecord}
use autoweave_library.Orchestration.Graph.{Counts, zero_degrees, count_edge, count_edges, sources}
use autoweave_library.Orchestration.Graph.Edges.{links, hard_edges, waits, remaining}

abbrev pub task_ids : List TaskRecord → List String
task_ids tasks = map (λ (t : TaskRecord). t.id) tasks

abbrev pub is_some {ℓ} : {A : Type ℓ} → Option A → Bool
is_some none = false
is_some (some a) = true

-- The degree that a table holds, where it holds one, is this natural number.
abbrev pub IsDegree : Option ℤ → ℕ → Type 0
IsDegree none n = Unit
IsDegree (some (pos m)) n = m ≡ n
IsDegree (some (negsuc m)) n = ⊥

occurrences-set_add :
    (v a : String) (s : List String)
    → occurrences a s ≤ 1
    → occurrences v (set_add a s) ≡ (if v == a then 1 else occurrences v s)
unfolding set_add
occurrences-set_add v a s h =
    ground (arith, ==_iff v a, ==_refl a, member-eq-ltb a s, occurrences-append v s (a ∷ []))

module _ (ids : List String) where
  pub record Counted (done : List TaskEdgeRecord) (counts : Counts) : Type 0 where
    pub degree : (v : String) → IsDegree (lookup v counts.0) (remaining v [] done)
    pub known : (v : String) → is_some (lookup v counts.0) ≡ member v ids
    pub unique : Unique counts.0
    pub child : (u v : String) → occurrences v (get_or [] u counts.1) ≡ min 1 (hard_edges u v done)

  count_edge-child :
      (edge : TaskEdgeRecord) (done : List TaskEdgeRecord) (counts : Counts)
      → edge.is_hard_dependency ≡ true
      → Counted done counts
      → (u v : String)
      → occurrences v (
          get_or [] u (
            insert edge.from_task_id
              (set_add edge.to_task_id (get_or [] edge.from_task_id counts.1))
              counts.1))
        ≡ min 1 (hard_edges u v (done ++ (edge ∷ [])))
  count_edge-child edge done counts hard c u v =
      let children = get_or [] edge.from_task_id counts.1 in
      ground (
        arith,
        c.child u v,
        c.child edge.from_task_id edge.to_task_id,
        lookup-insert u edge.from_task_id (set_add edge.to_task_id children) counts.1,
        ==_iff u edge.from_task_id,
        ==_iff edge.from_task_id u,
        ==_iff v edge.to_task_id,
        ==_iff edge.to_task_id v,
        occurrences-set_add v edge.to_task_id children,
        tally-append (links u v) done (edge ∷ []),
      )

  pub count_edge-Counted :
      (edge : TaskEdgeRecord) (done : List TaskEdgeRecord) (counts : Counts)
      → edge.is_hard_dependency ≡ true
      → Counted done counts
      → OnOk (Counted (done ++ (edge ∷ []))) (count_edge edge counts)
  unfolding count_edge plus_one
  count_edge-Counted edge done counts hard c =
      elim (Option-cases (lookup edge.to_task_id counts.0)) [
        | inl missing ↦ rw missing tt
        | inr (d, found) ↦ rw found (record {
          degree = λ v. ground (
            arith,
            c.degree v,
            lookup-insert v edge.to_task_id (plus_one d) counts.0,
            ==_iff v edge.to_task_id,
            ==_iff edge.to_task_id v,
            tally-append (waits v []) done (edge ∷ []),
          );
          known = λ v. ground (
            arith,
            c.known v,
            lookup-insert v edge.to_task_id (plus_one d) counts.0,
            ==_iff v edge.to_task_id,
          );
          unique = insert-Unique edge.to_task_id (plus_one d) counts.0 c.unique;
          child = count_edge-child edge done counts hard c;
        })
      ]

  skip-Counted :
      (edge : TaskEdgeRecord) (done : List TaskEdgeRecord) (counts : Counts)
      → edge.is_hard_dependency ≡ false
      → Counted done counts
      → Counted (done ++ (edge ∷ [])) counts
  skip-Counted edge done counts soft c = record {
    degree = λ v. ground (arith, c.degree v, tally-append (waits v []) done (edge ∷ []));
    known = c.known;
    unique = c.unique;
    child = λ u v. ground (arith, c.child u v, tally-append (links u v) done (edge ∷ []));
  }

  edge-Counted :
      (hard : Bool) (edge : TaskEdgeRecord) (done : List TaskEdgeRecord) (counts : Counts)
      → edge.is_hard_dependency ≡ hard
      → Counted done counts
      → OnOk (Counted (done ++ (edge ∷ []))) (if hard then count_edge edge counts else ok counts)
  edge-Counted true = count_edge-Counted
  edge-Counted false = skip-Counted

  pub count_edges-Counted :
      (edges done : List TaskEdgeRecord) (counts : Counts)
      → Counted done counts
      → OnOk (Counted (done ++ edges)) (count_edges edges counts)
  unfolding count_edges
  count_edges-Counted [] done counts c = rw append-nil c
  count_edges-Counted (edge ∷ edges) done counts c =
      OnOk-bind (Counted (done ++ (edge ∷ []))) (Counted (done ++ (edge ∷ edges)))
        (if edge.is_hard_dependency then count_edge edge counts else ok counts) (count_edges edges)
        (edge-Counted edge.is_hard_dependency edge done counts refl c)
        (λ counts' c'.
          rw append_assoc at (count_edges-Counted edges (done ++ (edge ∷ [])) counts' c'))

zero_degrees_lem :
    (v : String) (tasks : List TaskRecord) (d : Dict String ℤ)
    → lookup v (zero_degrees tasks d)
      ≡ (if member v (task_ids tasks) then some (pos 0) else lookup v d)
unfolding zero_degrees
zero_degrees_lem v [] d = refl
zero_degrees_lem v (t ∷ ts) d =
    ground (arith, zero_degrees_lem v ts (insert t.id (pos 0) d), lookup-insert v t.id (pos 0) d)

zero_degrees-Unique :
    (tasks : List TaskRecord) (d : Dict String ℤ) → Unique d → Unique (zero_degrees tasks d)
unfolding zero_degrees
zero_degrees-Unique [] d u = u
zero_degrees-Unique (t ∷ ts) d u =
    zero_degrees-Unique ts (insert t.id (pos 0) d) (insert-Unique t.id (pos 0) d u)

pub zero_degrees-Counted :
    (tasks : List TaskRecord) → Counted (task_ids tasks) [] (zero_degrees tasks [], [])
zero_degrees-Counted tasks = record {
  degree = λ v. ground (arith, zero_degrees_lem v tasks []);
  known = λ v. ground (arith, zero_degrees_lem v tasks []);
  unique = zero_degrees-Unique tasks [] tt;
  child = λ u v. refl;
}

-- How often a table's entry puts its key into the first queue.
abbrev pub zero_at : Option ℤ → ℕ
zero_at none = 0
zero_at (some d) = if is_zero d then 1 else 0

pub occurrences-sources :
    (v : String) (d : Dict String ℤ) → Unique d → occurrences v (sources d) ≡ zero_at (lookup v d)
unfolding sources
occurrences-sources v [] u = refl
occurrences-sources v ((k, x) ∷ d) u = ground (arith, occurrences-sources v d u.1, ==_iff v k)
