-- ===== src/Celery/Examples.antt =====
-- The theorem of this folder on the repository of one open run.
use autoweave_library.Common.{
  ℕ, ◌≡◌, ◌↔◌, refl, true, [], ◌++◌, String, Has, set_add, is_some_text, strip, same_text, length,
}
use autoweave_library.Models.{WorkflowRunRecord}
use autoweave_library.Storage.Repository.{list_workflow_runs, save_graph}
use autoweave_library.Storage.Examples.{stored}
use autoweave_library.Celery.Queue.{
  CeleryWorkflowDispatcher, Broker, WorkflowAction, recover_workflows,
}
use autoweave_library.Celery.Queue.Recovery.{
  receipt_runs, message_runs, Continues, recover_workflows-Continues,
}

abbrev dispatcher : CeleryWorkflowDispatcher
dispatcher = record { root = "/srv"; environ = []; runtime_queue_names = [] }

abbrev task_name : ℕ → String
task_name n = "celery"

abbrev asked : WorkflowRunRecord → String
asked run = "ship it"

recover_workflows-Continues_example :
    let r = recover_workflows dispatcher task_name asked true 8 " project " stored [] in
    (sent : Broker) × ((r.1 ≡ [] ++ sent)
      × (receipt_runs dispatcher task_name asked true 8 r.0
          ≡ message_runs dispatcher task_name asked true 8 sent)
      × ((m : WorkflowAction × String)
          → Has m sent
            ↔ Continues dispatcher task_name asked true 8
                (strip " project ")
                stored
                (list_workflow_runs stored)
                m))
unfolding strip is_some_text
recover_workflows-Continues_example =
    recover_workflows-Continues dispatcher task_name asked true 8 " project " stored [] refl

one_run_queued :
    length (recover_workflows dispatcher task_name asked true 8 " project " stored []).1 ≡ 1
unfolding recover_workflows list_workflow_runs save_graph same_text set_add
one_run_queued = refl
