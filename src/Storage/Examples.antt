-- ===== src/Storage/Examples.antt =====
-- The theorems of this folder at concrete repositories.
use autoweave_library.Common.{
  none, ◌≡◌, refl, some, [], ok, err, key_error, lookup, true, same_text, string_eq,
}
use autoweave_library.Models.{TaskRecord, HumanRequestRecord, HumanRequestStatus, HumanRequestType}
use autoweave_library.Storage.Repository.{
  Repository, save_graph, graph_for_task, get_graph, get_task, get_task_by_key, save_task,
}
use autoweave_library.Storage.Repository.Traverse.{upstream_task_ids}
use autoweave_library.Storage.Repository.Traverse.Upstream.{Finds, upstream_task_ids-IsUpstream}
use autoweave_library.Storage.Repository.Reads.{save_task-get_task}
use autoweave_library.Storage.Repository.Rows.{
  list_attempts_for_run, list_human_requests_for_run, list_approval_requests_for_run,
  list_events_for_run, save_human_request,
}
use autoweave_library.Storage.Repository.Removal.{
  IsWithout, delete_workflow_run, delete_workflow_run_lem,
}
use autoweave_library.Orchestration.Samples.{three_tasks, chain, graph_of, new_task}

abbrev pub empty : Repository
empty = record {
  graphs = [];
  tasks = [];
  task_to_run = [];
  task_key_index = [];
  graphs_order = [];
  attempts = record { rows = []; by_run = [] };
  artifacts = record { rows = []; by_run = [] };
  artifacts_by_task = [];
  events = record { rows = []; by_run = [] };
  human_requests = record { rows = []; by_run = [] };
  approval_requests = record { rows = []; by_run = [] };
}

abbrev pub stored : Repository
stored = (save_graph (graph_of three_tasks chain) empty).1

pub review_found : graph_for_task "t3" stored ≡ ok (graph_of three_tasks chain)
unfolding save_graph graph_for_task same_text
review_found = refl

upstream_task_ids-IsUpstream_example : Finds chain "t3" (upstream_task_ids "t3" stored)
upstream_task_ids-IsUpstream_example =
    upstream_task_ids-IsUpstream "t3" stored (graph_of three_tasks chain) review_found

abbrev fourth : TaskRecord
fourth = new_task "t4" "ship"

save_task-get_task_example :
    (get_task_by_key "run" "ship" (save_task fourth stored).1 ≡ ok fourth)
    × (get_task "t3" (save_task fourth stored).1 ≡ get_task "t3" stored)
unfolding same_text
save_task-get_task_example = save_task-get_task fourth stored "t3"

run_stored : lookup "run" stored.graphs ≡ some (graph_of three_tasks chain)
unfolding save_graph same_text
run_stored = refl

abbrev question : HumanRequestRecord
question = record {
  id = "h1";
  workflow_run_id = "run";
  task_id = "t1";
  task_attempt_id = "a1";
  request_type = HumanRequestType.clarification;
  question = "which?";
  context_summary = "";
  status = HumanRequestStatus.opened;
  answer_text = none;
  answered_by = none;
  answered_at = none;
  created_at = 1;
}

-- A stored run with an open question.
abbrev asked : Repository
asked = (save_human_request question stored).1

run_asked : lookup "run" asked.graphs ≡ some (graph_of three_tasks chain)
unfolding save_graph save_human_request same_text
run_asked = refl

question_stored : lookup "h1" asked.human_requests.rows ≡ some question
unfolding save_graph save_human_request same_text
question_stored = refl

delete_workflow_run_lem_example :
    let s' = (delete_workflow_run "run" asked).1 in
    ((delete_workflow_run "run" asked).0 ≡ ok true)
    × (get_graph "run" s' ≡ err key_error)
    × (list_attempts_for_run "run" s' ≡ [])
    × (list_human_requests_for_run "run" s' ≡ [])
    × (list_approval_requests_for_run "run" s' ≡ [])
    × (list_events_for_run "run" s' ≡ [])
    × IsWithout "run" asked.attempts s'.attempts
    × IsWithout "run" asked.human_requests s'.human_requests
    × IsWithout "run" asked.approval_requests s'.approval_requests
    × IsWithout "run" asked.events s'.events
unfolding save_graph save_human_request same_text
delete_workflow_run_lem_example =
    delete_workflow_run_lem "run" "run" asked (graph_of three_tasks chain) run_asked (refl, tt)
      (tt, tt) ((refl, tt), (refl, tt)) (tt, tt) (tt, tt)
