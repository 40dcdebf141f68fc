-- ===== src/Storage/Repository.antt =====
-- autoweave/storage/repositories.py: `InMemoryWorkflowRepository`. Records go in and out as deep
-- copies, so values stand for them.
pub mod Traverse
pub mod Reads
pub mod Rows
pub mod Removal
use autoweave_library.Common.{
  ℕ, Bool, true, false, not, ◌&&◌, Option, none, some, List, [], ◌∷◌, ◌++◌, map, String, Dict,
  lookup, insert, erase, get_or, Result, ok, err, pure, gets, raise, lift, or_raise, ◌>>=◌, ◌>>◌,
  modify, key_error, Action, set_add, keep, any, HasEq, ◌==◌, string_eq, if◌then◌else◌, arith,
  ==_iff,
}
use autoweave_library.Models.{
  WorkflowRunRecord, TaskRecord, TaskEdgeRecord, TaskAttemptRecord, HumanRequestRecord,
  ApprovalRequestRecord, WorkflowGraph,
}
use autoweave_library.Storage.Artifact.{ArtifactRecord}
use autoweave_library.Events.Store.{EventRecord}

-- The records of one kind with the ids of each run, in the order of their first writing.
pub record Table (V : Type 0) : Type 0 where
  pub rows : Dict String V
  pub by_run : Dict String (List String)

pub record Repository : Type 0 where
  pub graphs : Dict String WorkflowGraph
  pub tasks : Dict String TaskRecord
  pub task_to_run : Dict String String
  pub task_key_index : Dict String (Dict String String)
  pub graphs_order : List String
  pub attempts : Table TaskAttemptRecord
  pub artifacts : Table ArtifactRecord
  pub artifacts_by_task : Dict String (List String)
  pub events : Table EventRecord
  pub human_requests : Table HumanRequestRecord
  pub approval_requests : Table ApprovalRequestRecord

-- `if id not in d[key]: d[key].append(id)` on a `defaultdict(list)`.
unfoldable pub add_at : String → String → Dict String (List String) → Dict String (List String)
add_at key id d = insert key (set_add id (get_or [] key d)) d

unfoldable pub save_row : {V : Type 0} → (run id : String) → V → Table V → Table V
unfolding add_at
save_row run id row table = record {
  rows = insert id row table.rows;
  by_run = add_at run id table.by_run;
}

-- `[rows[id] for id in ids if id in rows]`
unfoldable pub rows_of : {V : Type 0} → Dict String V → List String → List V
rows_of d [] = []
rows_of d (id ∷ ids) =
    let rest = rows_of d ids in elim (lookup id d) [ none ↦ rest | some row ↦ row ∷ rest ]

unfoldable pub list_rows : {V : Type 0} → String → Table V → List V
unfolding rows_of
list_rows run table = rows_of table.rows (get_or [] run table.by_run)

-- `_task_key_index[(run, key)] = id`, with the entries of a run in a dictionary of their own.
unfoldable pub index_key :
    (run key id : String) → Dict String (Dict String String) → Dict String (Dict String String)
index_key run key id d = insert run (insert key id (get_or [] run d)) d

unfoldable pub index_task : String → TaskRecord → Repository → Repository
unfolding index_key
index_task run task s = record s {
  tasks = insert task.id task s.tasks;
  task_to_run = insert task.id run s.task_to_run;
  task_key_index = index_key run task.task_key task.id s.task_key_index;
}

unfoldable pub index_tasks : String → List TaskRecord → Repository → Repository
unfolding index_task
index_tasks run [] s = s
index_tasks run (task ∷ tasks) s = index_tasks run tasks (index_task run task s)

unfoldable pub save_graph : WorkflowGraph → Action Repository WorkflowGraph
unfolding index_tasks
save_graph graph s = (
  ok graph,
  index_tasks graph.workflow_run.id graph.tasks (record s {
    graphs = insert graph.workflow_run.id graph s.graphs;
    graphs_order = set_add graph.workflow_run.id s.graphs_order;
  }),
)

unfoldable pub list_workflow_runs : Repository → List WorkflowRunRecord
unfolding rows_of
list_workflow_runs s = map (λ (g : WorkflowGraph). g.workflow_run) (rows_of s.graphs s.graphs_order)

unfoldable pub get_graph : String → Repository → Result WorkflowGraph
get_graph run s = elim (lookup run s.graphs) [ none ↦ err key_error | some graph ↦ ok graph ]

unfoldable pub list_tasks_for_run : String → Repository → Result (List TaskRecord)
unfolding get_graph
list_tasks_for_run run s = elim (get_graph run s) [ err e ↦ err e | ok graph ↦ ok graph.tasks ]

-- The task in the place of the one with its id, or at the end.
unfoldable pub replace_task : TaskRecord → List TaskRecord → List TaskRecord
replace_task task tasks =
    let replaced = map (λ (t : TaskRecord). if t.id == task.id then task else t) tasks in
    if any (λ (t : TaskRecord). t.id == task.id) tasks then replaced else replaced ++ (task ∷ [])

unfoldable pub save_task : TaskRecord → Action Repository TaskRecord
unfolding index_task replace_task
save_task task s =
    let indexed = index_task task.workflow_run_id task s in
    (
      ok task,
      elim (lookup task.workflow_run_id s.graphs) [
        | none ↦ indexed
        | some graph ↦ record indexed {
          graphs =
              insert task.workflow_run_id (record graph { tasks = replace_task task graph.tasks })
                s.graphs;
        }
      ],
    )

unfoldable pub get_task : String → Repository → Result TaskRecord
get_task task_id s = elim (lookup task_id s.tasks) [ none ↦ err key_error | some task ↦ ok task ]

unfoldable pub get_task_by_key : (run task_key : String) → Repository → Result TaskRecord
unfolding get_task
get_task_by_key run task_key s = elim (lookup task_key (get_or [] run s.task_key_index)) [
  | none ↦ err key_error
  | some task_id ↦ get_task task_id s
]

unfoldable pub graph_for_task : String → Repository → Result WorkflowGraph
unfolding get_graph
graph_for_task task_id s = elim (lookup task_id s.task_to_run) [
  | none ↦ err key_error
  | some run ↦ get_graph run s
]
