-- ===== src/Storage/Repository/Rows.antt =====
-- autoweave/storage/repositories.py: attempts, requests, artifacts and events of the runs.
use autoweave_library.Common.{
  none, some, List, [], String, lookup, insert, get_or, Result, ok, err, key_error, Action,
  string_eq,
}
use autoweave_library.Models.{
  AttemptState, TaskAttemptRecord, HumanRequestRecord, ApprovalRequestRecord, attempt_transition,
  WorkflowRunRecord, TaskRecord, TaskEdgeRecord,
}
use autoweave_library.Events.Store.{EventRecord}
use autoweave_library.Orchestration.Attempts.{active_among}
use autoweave_library.Storage.Artifact.{ArtifactRecord}
use autoweave_library.Storage.Repository.{
  Repository, save_row, list_rows, rows_of, add_at, get_graph,
}

-- An attempt of an unknown task is stored under no run.
unfoldable pub save_attempt : TaskAttemptRecord → Action Repository TaskAttemptRecord
unfolding save_row
save_attempt attempt s = (
  ok attempt,
  record s {
    attempts = elim (lookup attempt.task_id s.tasks) [
      | none ↦ record (s.attempts) { rows = insert attempt.id attempt s.attempts.rows }
      | some task ↦ save_row task.workflow_run_id attempt.id attempt s.attempts
    ];
  },
)

unfoldable pub list_attempts_for_run : String → Repository → List TaskAttemptRecord
unfolding list_rows
list_attempts_for_run run s = list_rows run s.attempts

unfoldable pub get_attempt : String → Repository → Result TaskAttemptRecord
get_attempt attempt_id s = elim (lookup attempt_id s.attempts.rows) [
  | none ↦ err key_error
  | some attempt ↦ ok attempt
]

-- The attempt after its transition, stored if there was one.
unfoldable pub store_updated :
    String → Result TaskAttemptRecord → Action Repository TaskAttemptRecord
store_updated attempt_id (err e) s = (err e, s)
store_updated attempt_id (ok updated) s = (
  ok updated,
  record s { attempts = record (s.attempts) { rows = insert attempt_id updated s.attempts.rows } },
)

unfoldable pub update_attempt_state : String → AttemptState → Action Repository TaskAttemptRecord
unfolding get_attempt store_updated
update_attempt_state attempt_id state s = elim (get_attempt attempt_id s) [
  | err e ↦ (err e, s)
  | ok attempt ↦ store_updated attempt_id (attempt_transition state attempt) s
]

unfoldable pub list_active_attempts : String → Repository → List TaskAttemptRecord
unfolding active_among
list_active_attempts run s = active_among s.attempts.rows (get_or [] run s.attempts.by_run)

unfoldable pub save_human_request : HumanRequestRecord → Action Repository HumanRequestRecord
unfolding save_row
save_human_request request s = (
  ok request,
  record s {
    human_requests = save_row request.workflow_run_id request.id request s.human_requests;
  },
)

unfoldable pub list_human_requests_for_run : String → Repository → List HumanRequestRecord
unfolding list_rows
list_human_requests_for_run run s = list_rows run s.human_requests

unfoldable pub save_approval_request :
    ApprovalRequestRecord → Action Repository ApprovalRequestRecord
unfolding save_row
save_approval_request request s = (
  ok request,
  record s {
    approval_requests = save_row request.workflow_run_id request.id request s.approval_requests;
  },
)

unfoldable pub list_approval_requests_for_run : String → Repository → List ApprovalRequestRecord
unfolding list_rows
list_approval_requests_for_run run s = list_rows run s.approval_requests

unfoldable pub save_artifact : ArtifactRecord → Action Repository ArtifactRecord
unfolding save_row add_at
save_artifact artifact s = (
  ok artifact,
  record s {
    artifacts = save_row artifact.workflow_run_id artifact.id artifact s.artifacts;
    artifacts_by_task = add_at artifact.task_id artifact.id s.artifacts_by_task;
  },
)

unfoldable pub list_artifacts_for_run : String → Repository → List ArtifactRecord
unfolding list_rows
list_artifacts_for_run run s = list_rows run s.artifacts

unfoldable pub list_artifacts_for_task : String → Repository → List ArtifactRecord
unfolding rows_of
list_artifacts_for_task task_id s = rows_of s.artifacts.rows (get_or [] task_id s.artifacts_by_task)

unfoldable pub save_event : EventRecord → Action Repository EventRecord
unfolding save_row
save_event event s =
    (ok event, record s { events = save_row event.workflow_run_id event.id event s.events })

unfoldable pub list_events_for_run : String → Repository → List EventRecord
unfolding list_rows
list_events_for_run run s = list_rows run s.events

pub record WorkflowSnapshot : Type 0 where
  pub workflow_run : WorkflowRunRecord
  pub tasks : List TaskRecord
  pub edges : List TaskEdgeRecord

unfoldable pub run_snapshot : String → Repository → Result WorkflowSnapshot
unfolding get_graph
run_snapshot run s = elim (get_graph run s) [
  | err e ↦ err e
  | ok graph ↦
      ok (record { workflow_run = graph.workflow_run; tasks = graph.tasks; edges = graph.edges })
]
