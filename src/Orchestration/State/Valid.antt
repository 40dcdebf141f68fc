-- ===== src/Orchestration/State/Valid.antt =====
-- When the state's indices and its graph agree, and what `update_task` does to such a state.
use autoweave_library.Common.{
  ◌≡◌, refl, sym, ◌∙◌, Bool-cases, Option, none, some, List, [], ◌∷◌, map, String, Dict, lookup,
  insert, get_or, lookup-insert, ok, arith, All, ◌==◌, ==_iff, ==_refl, string_eq, if◌then◌else◌,
  Option-cases, inl, inr,
}
use autoweave_library.Models.{TaskRecord}
use autoweave_library.Orchestration.State.{
  WorkflowRunState, refresh, update_task, with_tasks, find_task,
}

-- A stored task stands under its own id.
abbrev pub HasId : String → Option TaskRecord → Type 0
HasId k none = Unit
HasId k (some t) = t.id ≡ k

abbrev pub HasKey : String → Option TaskRecord → Type 0
HasKey k none = ⊥
HasKey k (some t) = t.task_key ≡ k

-- A key leads to a stored task with that key.
abbrev pub KeyFits : Dict String TaskRecord → String → Option String → Type 0
KeyFits d k none = Unit
KeyFits d k (some task_id) = HasKey k (lookup task_id d)

pub record IsValid (s : WorkflowRunState) : Type 0 where
  pub ids_match : (k : String) → HasId k (lookup k s.tasks_by_id)
  pub keys_match : (k : String) → KeyFits s.tasks_by_id k (lookup k s.tasks_by_key)
  pub keyed :
      (i : String) (t : TaskRecord)
      → lookup i s.tasks_by_id ≡ some t
      → lookup t.task_key s.tasks_by_key ≡ some i
  pub mirrors : All (λ (t : TaskRecord). lookup t.id s.tasks_by_id ≡ some t) s.graph.tasks

abbrev pub replace_task : TaskRecord → TaskRecord → TaskRecord
replace_task new t = if t.id == new.id then new else t

-- The state that `update_task` leaves.
abbrev pub put_task : TaskRecord → WorkflowRunState → WorkflowRunState
put_task new s = record s {
  tasks_by_id = insert new.id new s.tasks_by_id;
  tasks_by_key = insert new.task_key new.id s.tasks_by_key;
  graph = with_tasks (map (replace_task new) s.graph.tasks) s.graph;
}

refresh-insert :
    (new : TaskRecord) (d : Dict String TaskRecord) (tasks : List TaskRecord)
    → All (λ (t : TaskRecord). lookup t.id d ≡ some t) tasks
    → refresh (insert new.id new d) tasks ≡ some (map (replace_task new) tasks)
unfolding refresh
refresh-insert new d [] h = refl
refresh-insert new d (t ∷ ts) h =
    ground (arith, refresh-insert new d ts h.1, lookup-insert t.id new.id new d)

pub update_task_lem :
    (new : TaskRecord) (s : WorkflowRunState)
    → IsValid s
    → update_task new s ≡ (ok new, put_task new s)
unfolding update_task
update_task_lem new s v = rw (refresh-insert new s.tasks_by_id s.graph.tasks v.mirrors)

mirrors-put_task :
    (new : TaskRecord) (d : Dict String TaskRecord) (tasks : List TaskRecord)
    → All (λ (t : TaskRecord). lookup t.id d ≡ some t) tasks
    → All
        (λ (t : TaskRecord). lookup t.id (insert new.id new d) ≡ some t)
        (map (replace_task new) tasks)
mirrors-put_task new d [] h = tt
mirrors-put_task new d (t ∷ ts) h = ground (
  arith,
  mirrors-put_task new d ts h.1,
  lookup-insert t.id new.id new d,
  lookup-insert new.id new.id new d,
  ==_refl new.id,
)

keys_match-put_task :
    (old new : TaskRecord) (s : WorkflowRunState)
    → IsValid s
    → lookup new.id s.tasks_by_id ≡ some old
    → new.task_key ≡ old.task_key
    → (k : String)
    → KeyFits
        (insert new.id new s.tasks_by_id)
        k
        (lookup k (insert new.task_key new.id s.tasks_by_key))
keys_match-put_task old new s v found same_key k = elim (Option-cases (lookup k s.tasks_by_key)) [
  | inl missing ↦ ground (
    arith,
    lookup-insert k new.task_key new.id s.tasks_by_key,
    lookup-insert new.id new.id new s.tasks_by_id,
    ==_iff k new.task_key,
    ==_refl new.id,
  )
  | inr (i, known) ↦ ground (
    arith,
    lookup-insert k new.task_key new.id s.tasks_by_key,
    lookup-insert new.id new.id new s.tasks_by_id,
    lookup-insert i new.id new s.tasks_by_id,
    ==_iff k new.task_key,
    ==_iff i new.id,
    ==_refl new.id,
    v.keys_match k,
  )
]

keyed-put_task :
    (old new : TaskRecord) (s : WorkflowRunState)
    → IsValid s
    → lookup new.id s.tasks_by_id ≡ some old
    → new.task_key ≡ old.task_key
    → (i : String) (t : TaskRecord) → lookup i (insert new.id new s.tasks_by_id) ≡ some t
    → lookup t.task_key (insert new.task_key new.id s.tasks_by_key) ≡ some i
keyed-put_task old new s v found same_key i t h =
    let at_i = sym (lookup-insert i new.id new s.tasks_by_id) ∙ h in
    let at_key = lookup-insert t.task_key new.task_key new.id s.tasks_by_key in
    elim (Bool-cases (i == new.id)) [
      | inl here ↦
          let e : some new ≡ some t = sym (rw here refl) ∙ at_i in
          ground (arith, e, at_key, ==_iff i new.id, ==_iff t.task_key new.task_key)
      | inr there ↦
          let e : lookup i s.tasks_by_id ≡ some t = (rw there at at_i) in
          ground (
            arith,
            at_key,
            v.keyed i t e,
            v.keyed new.id old found,
            ==_iff i new.id,
            ==_iff t.task_key new.task_key,
          )
    ]

-- A change of a stored task that keeps its id and its key keeps the indices right.
pub put_task-IsValid :
    (old new : TaskRecord) (s : WorkflowRunState)
    → IsValid s
    → lookup new.id s.tasks_by_id ≡ some old
    → new.task_key ≡ old.task_key
    → IsValid (put_task new s)
put_task-IsValid old new s v found same_key = record {
  ids_match =
      λ k. ground (arith, v.ids_match k, lookup-insert k new.id new s.tasks_by_id, ==_iff k new.id);
  keys_match = keys_match-put_task old new s v found same_key;
  keyed = keyed-put_task old new s v found same_key;
  mirrors = mirrors-put_task new s.tasks_by_id s.graph.tasks v.mirrors;
}

-- A task that is found stands under its own id.
pub find_task-lookup :
    (k : String) (s : WorkflowRunState) {t : TaskRecord} {s' : WorkflowRunState}
    → IsValid s
    → find_task k s ≡ (ok t, s')
    → (lookup t.id s.tasks_by_id ≡ some t) × (s' ≡ s)
unfolding find_task
find_task-lookup k s v e =
    let i = get_or k k s.tasks_by_key in
    elim (Option-cases (lookup i s.tasks_by_id)) [
      | inl missing ↦ ground arith
      | inr (t', known) ↦ ground (arith, v.ids_match i)
    ]

pub find_task-found :
    (k id : String) (s : WorkflowRunState) (t : TaskRecord)
    → get_or k k s.tasks_by_key ≡ id
    → lookup id s.tasks_by_id ≡ some t
    → find_task k s ≡ (ok t, s)
unfolding find_task
find_task-found k id s t named stored = ground arith
