-- ===== src/Orchestration/Steps.antt =====
-- What any operation of a run may do to its tasks: move one stored task along its table, a start
-- only with all hard predecessors completed. Everything else leaves the tasks and edges alone.
pub mod Rules
pub mod TaskOps
pub mod RequestOps
pub mod AttemptOps
pub mod PromoteOps
use mathlib.Core.Path.{subst}
use autoweave_library.Common.{
  ℕ, ◌≡◌, refl, sym, ◌∙◌, ◌⊎◌, Option, none, some, String, lookup, ok, arith, string_eq,
}
use autoweave_library.Models.{TaskState, TaskRecord, transition}
use autoweave_library.Models.Transitions.{transition_sets}
use autoweave_library.Orchestration.State.{WorkflowRunState, Run}
use autoweave_library.Orchestration.State.Valid.{IsValid, put_task, put_task-IsValid}
use autoweave_library.Orchestration.State.Dependencies.{parents, AllDone}

abbrev pub IsStarted : TaskState → Type 0
IsStarted state = (state ≡ TaskState.in_progress) ⊎ (state ≡ TaskState.completed)

pub record SameTasks (s u : WorkflowRunState) : Type 0 where
  pub same_ids : u.tasks_by_id ≡ s.tasks_by_id
  pub same_keys : u.tasks_by_key ≡ s.tasks_by_key
  pub same_tasks : u.graph.tasks ≡ s.graph.tasks
  pub same_edges : u.graph.edges ≡ s.graph.edges

pub data Step (s u : WorkflowRunState) : Type 0 where
  quiet : SameTasks s u → Step s u
  move :
      (target : TaskState) (reason : Option String) (now : ℕ) (t t' : TaskRecord)
      → lookup t.id s.tasks_by_id ≡ some t
      → transition target reason now t ≡ ok t'
      → (IsStarted target → AllDone s.tasks_by_id (parents t.id s.graph.edges))
      → u ≡ put_task t' s
      → Step s u

pub data Steps (s : WorkflowRunState) : WorkflowRunState → Type 0 where
  here : Steps s s
  next : {t u : WorkflowRunState} → Steps s t → Step t u → Steps s u

quiet-IsValid : (s u : WorkflowRunState) → SameTasks s u → IsValid s → IsValid u
quiet-IsValid s u q v = record {
  ids_match = λ k. rw q.same_ids (v.ids_match k);
  keys_match = λ k. rw (q.same_keys, q.same_ids) (v.keys_match k);
  keyed = λ i t h. rw q.same_keys (v.keyed i t (rw q.same_ids at h));
  mirrors = rw (q.same_tasks, q.same_ids) v.mirrors;
}

pub Step-IsValid : {s u : WorkflowRunState} → Step s u → IsValid s → IsValid u
Step-IsValid {s} {u} (quiet q) v = quiet-IsValid s u q v
Step-IsValid {s} {u} (move target reason now t t' found moved ready e) v =
    let (same_id, same_key, _) = transition_sets target reason now t moved in
    subst IsValid (sym e) (put_task-IsValid t t' s v (rw same_id found) same_key)

pub Steps-IsValid : {s u : WorkflowRunState} → Steps s u → IsValid s → IsValid u
Steps-IsValid here v = v
Steps-IsValid (next r st) v = Step-IsValid st (Steps-IsValid r v)

-- Everything else that the state holds may change freely.
pub SameTasks-refl : (s : WorkflowRunState) → SameTasks s s
SameTasks-refl s = record {
  same_ids = refl;
  same_keys = refl;
  same_tasks = refl;
  same_edges = refl;
}

pub SameTasks-trans : {s t u : WorkflowRunState} → SameTasks s t → SameTasks t u → SameTasks s u
SameTasks-trans p q = record {
  same_ids = q.same_ids ∙ p.same_ids;
  same_keys = q.same_keys ∙ p.same_keys;
  same_tasks = q.same_tasks ∙ p.same_tasks;
  same_edges = q.same_edges ∙ p.same_edges;
}

pub Steps-trans : {s t u : WorkflowRunState} → Steps s t → Steps t u → Steps s u
Steps-trans r here = r
Steps-trans r (next q st) = next (Steps-trans r q) st
