-- ===== src/Models/Transitions.antt =====
-- What the tables of `TaskRecord.transition` and `TaskAttemptRecord.transition` allow over a
-- whole life of a task and of an attempt.
use autoweave_library.Common.{
  ℕ, ◌≡◌, ◌≢◌, ◌⊎◌, Option, String, ok, err, arith, state_transition_error,
}
use autoweave_library.Models.States.{TaskState, task_state_eq, attempt_state_eq}
use autoweave_library.Models.Records.{TaskRecord, transition}

-- A finished task: no transition leads out of these states.
abbrev pub IsFinished : TaskState → Type 0
IsFinished s = (s ≡ TaskState.completed) ⊎ (s ≡ TaskState.failed) ⊎ (s ≡ TaskState.cancelled)

pub transition_finished :
    (target : TaskState) (reason : Option String) (now : ℕ) (task : TaskRecord)
    → IsFinished task.state
    → transition target reason now task ≡ err state_transition_error
unfolding transition
transition_finished target reason now task h = ground arith

pub transition-ne-completed :
    (target : TaskState) (reason : Option String) (now : ℕ) (task : TaskRecord) {t : TaskRecord}
    → transition target reason now task ≡ ok t
    → task.state ≢ TaskState.completed
unfolding transition
transition-ne-completed target reason now task h e = ground arith

pub transition_sets :
    (target : TaskState) (reason : Option String) (now : ℕ) (task : TaskRecord) {t : TaskRecord}
    → transition target reason now task ≡ ok t
    → (t.id ≡ task.id) × (t.task_key ≡ task.task_key) × (t.state ≡ target)
unfolding transition
transition_sets target reason now task h = ground arith
