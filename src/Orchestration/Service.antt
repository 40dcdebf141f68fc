-- ===== src/Orchestration/Service.antt =====
-- autoweave/orchestration/service.py: the operations that join an attempt and its task. The other
-- methods of the service hand their arguments to the state's operation of the same name.
use autoweave_library.Common.{ℕ, Bool, true, false, String, pure, ◌>>=◌, if◌then◌else◌}
use autoweave_library.Models.{TaskRecord, TaskAttemptRecord}
use autoweave_library.Orchestration.State.{Run}
use autoweave_library.Orchestration.Tasks.{complete_task, block_task, fail_task}
use autoweave_library.Orchestration.Attempts.{complete_attempt, fail_attempt}

unfoldable pub finalize_attempt_success :
    (task_id attempt_id : String) (now : ℕ) → Run (TaskRecord × TaskAttemptRecord)
finalize_attempt_success task_id attempt_id now = do
  attempt ← complete_attempt attempt_id
  task ← complete_task task_id now
  pure (task, attempt)

unfoldable pub finalize_attempt_failure :
    (task_id attempt_id reason : String) (recoverable : Bool) (now : ℕ)
    → Run (TaskRecord × TaskAttemptRecord)
finalize_attempt_failure task_id attempt_id reason recoverable now =
    if recoverable
    then (do
      attempt ← fail_attempt attempt_id true
      task ← block_task task_id reason now
      pure (task, attempt))
    else (do
      attempt ← fail_attempt attempt_id false
      task ← fail_task task_id reason now
      pure (task, attempt))

unfoldable pub recover_attempt :
    (task_id attempt_id reason : String) (now : ℕ) → Run (TaskRecord × TaskAttemptRecord)
recover_attempt task_id attempt_id reason now = do
  attempt ← fail_attempt attempt_id true
  task ← block_task task_id reason now
  pure (task, attempt)
