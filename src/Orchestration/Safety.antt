-- ===== src/Orchestration/Safety.antt =====
-- No task of a run is started or completed before all of its hard predecessors are completed.
pub mod Dynamic
pub mod Append
pub mod Reach
pub mod Runs
use mathlib.Core.Path.{subst}
use autoweave_library.Common.{
  ℕ, ◌≡◌, refl, sym, ◌∙◌, Option, none, some, List, String, Dict, lookup, insert, lookup-insert,
  lookup-insert_self, lookup-insert_ne, ok, arith, ==_iff, eq-cases, inl, inr, string_eq,
}
use autoweave_library.Models.{TaskState, TaskRecord, transition}
use autoweave_library.Models.Transitions.{transition_sets}
use autoweave_library.Orchestration.State.{WorkflowRunState}
use autoweave_library.Orchestration.State.Valid.{put_task}
use autoweave_library.Orchestration.State.Dependencies.{parents, IsDone, AllDone}
use autoweave_library.Orchestration.Steps.{
  IsStarted, SameTasks, Step, quiet, move, Steps, here, next,
}
use autoweave_library.Orchestration.Steps.TaskOps.{AllDone-put_task}

-- Each stored task that is in progress or completed has all hard predecessors completed.
abbrev pub IsSafe : WorkflowRunState → Type 0
IsSafe s =
    (k : String) (t : TaskRecord)
    → lookup k s.tasks_by_id ≡ some t
    → IsStarted t.state
    → AllDone s.tasks_by_id (parents k s.graph.edges)

quiet-IsSafe : (s u : WorkflowRunState) → SameTasks s u → IsSafe s → IsSafe u
quiet-IsSafe s u q safe k t found started =
    rw (q.same_ids, q.same_edges) (safe k t (rw q.same_ids at found) started)

moved_task :
    (d : Dict String TaskRecord) (k : String) (t' x : TaskRecord)
    → k ≡ t'.id
    → lookup k (insert t'.id t' d) ≡ some x
    → t' ≡ x
moved_task d k t' x same known = ground (arith, lookup-insert k t'.id t' d, ==_iff k t'.id)

move-IsSafe :
    (target : TaskState) (reason : Option String) (now : ℕ) (t t' : TaskRecord)
    (s : WorkflowRunState)
    → lookup t.id s.tasks_by_id ≡ some t
    → transition target reason now t ≡ ok t'
    → (IsStarted target → AllDone s.tasks_by_id (parents t.id s.graph.edges))
    → IsSafe s
    → IsSafe (put_task t' s)
move-IsSafe target reason now t t' s found e ready safe k x known started =
    let (same_id, same_key, now_at) = transition_sets target reason now t e in
    AllDone-put_task target reason now t t' s.tasks_by_id (parents k s.graph.edges) found e
      (elim (eq-cases k t'.id) [
        | inl same ↦
            subst (λ i. AllDone s.tasks_by_id (parents i s.graph.edges)) (sym (same ∙ same_id))
              (ready (
                subst (λ (y : TaskRecord). IsStarted y.state → IsStarted target)
                  (moved_task s.tasks_by_id k t' x same known) (λ h. subst IsStarted now_at h)
                  started))
        | inr other ↦
            safe k x (rw (lookup-insert_ne k t'.id t' s.tasks_by_id other) at known) started
      ])

pub Step-IsSafe : {s u : WorkflowRunState} → Step s u → IsSafe s → IsSafe u
Step-IsSafe {s} {u} (quiet q) safe = quiet-IsSafe s u q safe
Step-IsSafe {s} {u} (move target reason now t t' found e ready moved) safe =
    subst IsSafe (sym moved) (move-IsSafe target reason now t t' s found e ready safe)

pub Steps-IsSafe : {s u : WorkflowRunState} → Steps s u → IsSafe s → IsSafe u
Steps-IsSafe here safe = safe
Steps-IsSafe (next r st) safe = Step-IsSafe st (Steps-IsSafe r safe)
