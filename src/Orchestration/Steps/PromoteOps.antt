-- ===== src/Orchestration/Steps/PromoteOps.antt =====
-- `promote_ready_tasks` takes legal steps only, also where a task raises half-way through the loop.
use autoweave_library.Common.{
  ◌⊎◌, ℕ, ◌≡◌, not, none, some, List, [], ◌∷◌, ◌++◌, String, lookup, pure, arith, ◌>>=◌, ◌==◌,
  member, string_eq, key_error,
}
use autoweave_library.Models.{TaskState, TaskRecord, task_state_eq}
use autoweave_library.Orchestration.Graph.{build_dependency_view}
use autoweave_library.Orchestration.State.{
  WorkflowRunState, lookup_or_raise, move_to, dependency_view,
}
use autoweave_library.Orchestration.State.Valid.{IsValid}
use autoweave_library.Orchestration.Tasks.{promote_task, promote_tasks, promote_ready_tasks}
use autoweave_library.Orchestration.Steps.{Steps, here, Steps-IsValid, Steps-trans}
use autoweave_library.Orchestration.Steps.Rules.{
  bind-ends, then_pure, if-end, option-ends, result-ends, satisfied-ends, move_to-end,
}
use autoweave_library.Orchestration.Steps.TaskOps.{plain_step}

module _ (now : ℕ) (s : WorkflowRunState) (v : IsValid s) where
  move_out :
      {A : Type 0} (target : TaskState) (t : TaskRecord) (g : TaskRecord → A)
      → lookup t.id s.tasks_by_id ≡ some t
      → (plain : ¬ ((target ≡ TaskState.in_progress) ⊎ (target ≡ TaskState.completed)))
      → Steps s ((move_to target none now t >>= λ t'. pure (g t')) s).1
  move_out target t g found plain = then_pure (Steps s) s (move_to target none now t) g (
      move_to-end (Steps s) s target none now t v here
        λ t' e. plain_step target none now t t' s plain found e)

  promote_task-Steps : (task_id : String) → Steps s (promote_task now task_id s).1
  unfolding promote_task lookup_or_raise
  promote_task-Steps task_id =
      option-ends (Steps s) s (lookup task_id s.tasks_by_id) key_error _ here λ t known.
        let found : lookup t.id s.tasks_by_id ≡ some t = ground (arith, v.ids_match task_id) in
        if-end (Steps s) s
          (member t.state (TaskState.created ∷ TaskState.waiting_for_dependency ∷ [])) _ _
          (λ _. satisfied-ends (Steps s) s t.id _ here λ b _.
            if-end (Steps s) s b _ _
              (λ _. move_out TaskState.ready t (λ t'. t' ∷ []) found (λ h. ground arith))
              (λ _.
                if-end (Steps s) s (not (t.state == TaskState.waiting_for_dependency)) _ _
                  (λ _.
                    move_out TaskState.waiting_for_dependency t (λ _. []) found (λ h. ground arith))
                  (λ _. here)))
          (λ _.
            if-end (Steps s) s (t.state == TaskState.ready) _ _
              (λ _. satisfied-ends (Steps s) s t.id _ here λ b _.
                if-end (Steps s) s b _ _ (λ _. here)
                  (λ _.
                    move_out TaskState.waiting_for_dependency t (λ _. []) found
                      (λ h. ground arith)))
              (λ _. here))

promote_tasks-Steps :
    (now : ℕ) (task_ids : List String) (s : WorkflowRunState)
    → IsValid s
    → Steps s (promote_tasks now task_ids s).1
unfolding promote_tasks
promote_tasks-Steps now [] s v = here
promote_tasks-Steps now (task_id ∷ task_ids) s v =
    let first = promote_task-Steps now s v task_id in
    let u = (promote_task now task_id s).1 in
    bind-ends (Steps s) s (promote_task now task_id) _ first λ promoted _.
      then_pure (Steps s) u (promote_tasks now task_ids) (λ rest. promoted ++ rest)
        (Steps-trans first (promote_tasks-Steps now task_ids u (Steps-IsValid first v)))

pub promote_ready_tasks-Steps :
    (now : ℕ) (s : WorkflowRunState) → IsValid s → Steps s (promote_ready_tasks now s).1
unfolding promote_ready_tasks dependency_view
promote_ready_tasks-Steps now s v =
    result-ends (Steps s) s (build_dependency_view s.graph) _ here
      λ view _. promote_tasks-Steps now view.topological_order s v
