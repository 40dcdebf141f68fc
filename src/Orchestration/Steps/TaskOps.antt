-- ===== src/Orchestration/Steps/TaskOps.antt =====
-- The operations of Orchestration/Tasks take legal steps only, also where they raise on the way.
use mathlib.Core.Path.{subst}
use autoweave_library.Common.{
  ℕ, ◌≡◌, refl, sym, Option, none, some, List, [], ◌∷◌, String, Dict, insert, lookup-insert,
  lookup-insert_self, ==_iff, lookup, ok, pure, arith, ◌==◌, string_eq, inl, inr, if◌then◌else◌,
  state_transition_error, Bool-cases,
}
use autoweave_library.Models.{
  TaskState, TaskRecord, transition, task_state_eq, workflow_run_status_eq,
}
use autoweave_library.Models.Transitions.{transition_sets, transition-ne-completed}
use autoweave_library.Orchestration.State.{
  WorkflowRunState, move_to, mark_workflow_running, mark_workflow_failed, mark_workflow_completed,
  all_tasks_completed,
}
use autoweave_library.Orchestration.State.Valid.{IsValid, put_task}
use autoweave_library.Orchestration.State.Dependencies.{parents, AllDone, satisfied-AllDone}
use autoweave_library.Orchestration.Tasks.{
  start_task, may_fail, may_block, fail_task, unblock_task, block_task, finish_task, complete_task,
}
use autoweave_library.Orchestration.Steps.{
  IsStarted, SameTasks, SameTasks-refl, quiet, move, Steps, here, next, Step-IsValid, quiet-IsValid,
}
use autoweave_library.Orchestration.Steps.Rules.{
  guard-ends, if-ends, result-ends, find_task-ends, satisfied-ends, move_to-ends, move_to-end,
  update_task-end,
}

pub mark_workflow_running-SameTasks :
    (now : ℕ) (s : WorkflowRunState) → SameTasks s (mark_workflow_running now s)
unfolding mark_workflow_running
mark_workflow_running-SameTasks now s = ground arith

-- A move to a state that is no start wants nothing of the predecessors.
pub plain_step :
    (target : TaskState) (reason : Option String) (now : ℕ) (t t' : TaskRecord)
    (s : WorkflowRunState)
    → ¬ IsStarted target
    → lookup t.id s.tasks_by_id ≡ some t
    → transition target reason now t ≡ ok t'
    → Steps s (put_task t' s)
plain_step target reason now t t' s plain found e =
    next here (move target reason now t t' found e (λ started. absurd (plain started)) refl)

start_step :
    (target : TaskState) (reason : Option String) (now : ℕ) (t t' : TaskRecord)
    (s u : WorkflowRunState)
    → SameTasks s u
    → lookup t.id s.tasks_by_id ≡ some t
    → transition target reason now t ≡ ok t'
    → AllDone s.tasks_by_id (parents t.id s.graph.edges)
    → Steps s (put_task t' u)
start_step target reason now t t' s u q found e done = next (next here (quiet q)) (
    move target reason now t t' (rw q.same_ids found) e (λ _. rw (q.same_ids, q.same_edges) done)
      refl)

pub start_task-Steps :
    (task_id : String) (now : ℕ) (s : WorkflowRunState)
    → IsValid s
    → Steps s (start_task task_id now s).1
unfolding start_task
start_task-Steps task_id now s v =
    let u = mark_workflow_running now s in
    let q = mark_workflow_running-SameTasks now s in
    find_task-ends (Steps s) s task_id _ v here λ t found.
      guard-ends (Steps s) s (t.state == TaskState.ready) state_transition_error _ here λ _.
        satisfied-ends (Steps s) s t.id _ here λ b satisfied.
          guard-ends (Steps s) s b state_transition_error _ here λ met.
            result-ends (Steps s) s (transition TaskState.in_progress none now t) _ here λ t' e.
              update_task-end (Steps s) u t' (quiet-IsValid s u q v) (
                start_step TaskState.in_progress none now t t' s u q found e
                  (satisfied-AllDone t.id s (rw met at satisfied)))

pub unblock_task-Steps :
    (task_id : String) (now : ℕ) (s : WorkflowRunState)
    → IsValid s
    → Steps s (unblock_task task_id now s).1
unfolding unblock_task
unblock_task-Steps task_id now s v = find_task-ends (Steps s) s task_id _ v here λ t found.
    guard-ends (Steps s) s (t.state == TaskState.blocked) state_transition_error _ here λ _.
      move_to-end (Steps s) s TaskState.ready none now t v here
        λ t' e. plain_step TaskState.ready none now t t' s (λ h. ground arith) found e

pub block_task-Steps :
    (task_id reason : String) (now : ℕ) (s : WorkflowRunState)
    → IsValid s
    → Steps s (block_task task_id reason now s).1
unfolding block_task
block_task-Steps task_id reason now s v = find_task-ends (Steps s) s task_id _ v here λ t found.
    guard-ends (Steps s) s (may_block t.state) state_transition_error _ here λ _.
      move_to-end (Steps s) s TaskState.blocked (some reason) now t v here
        λ t' e. plain_step TaskState.blocked (some reason) now t t' s (λ h. ground arith) found e

mark_workflow_failed-SameTasks :
    (now : ℕ) (s : WorkflowRunState) → SameTasks s (mark_workflow_failed now s)
unfolding mark_workflow_failed
mark_workflow_failed-SameTasks now s = ground arith

pub fail_task-Steps :
    (task_id reason : String) (now : ℕ) (s : WorkflowRunState)
    → IsValid s
    → Steps s (fail_task task_id reason now s).1
unfolding fail_task
fail_task-Steps task_id reason now s v = find_task-ends (Steps s) s task_id _ v here λ t found.
    guard-ends (Steps s) s (may_fail t.state) state_transition_error _ here λ _.
      move_to-ends (Steps s) s TaskState.failed (some reason) now t _ v here λ t' e.
        next (plain_step TaskState.failed (some reason) now t t' s (λ h. ground arith) found e)
          (quiet (mark_workflow_failed-SameTasks now (put_task t' s)))

-- No transition leads out of `completed`, so a move undoes no predecessor.
pub AllDone-put_task :
    (target : TaskState) (reason : Option String) (now : ℕ) (t t' : TaskRecord)
    (d : Dict String TaskRecord) (ks : List String)
    → lookup t.id d ≡ some t
    → transition target reason now t ≡ ok t'
    → AllDone d ks
    → AllDone (insert t'.id t' d) ks
AllDone-put_task target reason now t t' d [] found e h = tt
AllDone-put_task target reason now t t' d (k ∷ ks) found e h =
    let (same_id, _, _) = transition_sets target reason now t e in
    (
      ground (
        arith,
        h.0,
        lookup-insert k t'.id t' d,
        ==_iff k t'.id,
        transition-ne-completed target reason now t e,
      ),
      AllDone-put_task target reason now t t' d ks found e h.1,
    )

mark_all-SameTasks :
    (now : ℕ) (s : WorkflowRunState)
    → SameTasks s (if all_tasks_completed s then mark_workflow_completed now s else s)
unfolding mark_workflow_completed
mark_all-SameTasks now s = elim (Bool-cases (all_tasks_completed s)) [
  | inl every ↦
      rw every (record { same_ids = refl; same_keys = refl; same_tasks = refl; same_edges = refl })
  | inr some_left ↦ rw some_left (SameTasks-refl s)
]

finish_task-Steps :
    (now : ℕ) (t : TaskRecord) (s u : WorkflowRunState)
    → IsValid u
    → Steps s u
    → lookup t.id u.tasks_by_id ≡ some t
    → AllDone u.tasks_by_id (parents t.id u.graph.edges)
    → Steps s (finish_task now t u).1
unfolding finish_task
finish_task-Steps now t s u v r found done =
    guard-ends (Steps s) u (t.state == TaskState.in_progress) state_transition_error _ r λ _.
      move_to-ends (Steps s) u TaskState.completed none now t _ v r λ t' e.
        next (next r (move TaskState.completed none now t t' found e (λ _. done) refl))
          (quiet (mark_all-SameTasks now (put_task t' u)))

pub complete_task-Steps :
    (task_id : String) (now : ℕ) (s : WorkflowRunState)
    → IsValid s
    → Steps s (complete_task task_id now s).1
unfolding complete_task
complete_task-Steps task_id now s v = find_task-ends (Steps s) s task_id _ v here λ t found.
    satisfied-ends (Steps s) s t.id _ here λ b satisfied.
      guard-ends (Steps s) s b state_transition_error _ here λ met.
        let done = satisfied-AllDone t.id s (rw met at satisfied) in
        if-ends (Steps s) s (t.state == TaskState.ready) (move_to TaskState.in_progress none now t)
          (pure t) (finish_task now)
          (λ _.
            move_to-ends (Steps s) s TaskState.in_progress none now t (finish_task now) v here
              (λ t' e.
                let (same_id, same_key, _) = transition_sets TaskState.in_progress none now t e in
                let first = move TaskState.in_progress none now t t' found e (λ _. done) refl in
                finish_task-Steps now t' s (put_task t' s) (Step-IsValid first v) (next here first)
                  (lookup-insert_self t'.id t' s.tasks_by_id)
                  (subst (λ k. AllDone (insert t'.id t' s.tasks_by_id) (parents k s.graph.edges))
                    (sym same_id)
                    (AllDone-put_task TaskState.in_progress none now t t' s.tasks_by_id
                      (parents t.id s.graph.edges) found e done))))
          (λ _. finish_task-Steps now t s s v here found done)
