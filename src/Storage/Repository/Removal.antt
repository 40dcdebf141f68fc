-- ===== src/Storage/Repository/Removal.antt =====
-- autoweave/storage/repositories.py: `delete_workflow_run`, and what it leaves.
use autoweave_library.Common.{
  ◌≡◌, refl, sym, ap, subst, Bool, true, false, not, none, some, List, [], ◌∷◌, String, Dict,
  lookup, insert, erase, get_or, Unique, erase-Unique, member, lookup-erase, ok, err, key_error,
  Action, keep, string_eq, ◌==◌, if◌then◌else◌, arith, ==_refl,
}
use autoweave_library.Models.{TaskRecord, WorkflowGraph}
use autoweave_library.Storage.Artifact.{ArtifactRecord}
use autoweave_library.Storage.Repository.{Repository, Table, get_graph, list_rows, rows_of}
use autoweave_library.Storage.Repository.Rows.{
  list_attempts_for_run, list_human_requests_for_run, list_approval_requests_for_run,
  list_events_for_run,
}

-- `for id in ids: rows.pop(id, None)`
unfoldable pub pop_rows : {V : Type 0} → List String → Dict String V → Dict String V
pop_rows [] d = d
pop_rows (id ∷ ids) d = pop_rows ids (erase id d)

-- `for id in by_run.pop(run, []): rows.pop(id, None)`
unfoldable pub pop_run : {V : Type 0} → String → Table V → Table V
unfolding pop_rows
pop_run run table = record {
  rows = pop_rows (get_or [] run table.by_run) table.rows;
  by_run = erase run table.by_run;
}

-- One artifact of a task that goes: out of the rows and out of the list of its own run.
unfoldable pub pop_artifact : String → Table ArtifactRecord → Table ArtifactRecord
pop_artifact artifact_id table = elim (lookup artifact_id table.rows) [
  | none ↦ table
  | some artifact ↦ record {
    rows = erase artifact_id table.rows;
    by_run =
        insert artifact.workflow_run_id
          (keep (λ existing. not (existing == artifact_id))
            (get_or [] artifact.workflow_run_id table.by_run))
          table.by_run;
  }
]

unfoldable pub pop_artifacts : List String → Table ArtifactRecord → Table ArtifactRecord
unfolding pop_artifact
pop_artifacts [] table = table
pop_artifacts (id ∷ ids) table = pop_artifacts ids (pop_artifact id table)

-- `_task_key_index.pop((run, key), None)`
unfoldable pub pop_key :
    (run key : String) → Dict String (Dict String String) → Dict String (Dict String String)
pop_key run key d = insert run (erase key (get_or [] run d)) d

unfoldable pub pop_keys :
    String → List TaskRecord → Dict String (Dict String String) → Dict String (Dict String String)
unfolding pop_key
pop_keys run [] d = d
pop_keys run (task ∷ tasks) d = pop_keys run tasks (pop_key run task.task_key d)

unfoldable pub pop_task : String → Repository → Repository
unfolding pop_artifacts
pop_task task_id s = record s {
  tasks = erase task_id s.tasks;
  task_to_run = erase task_id s.task_to_run;
  artifacts = pop_artifacts (get_or [] task_id s.artifacts_by_task) s.artifacts;
  artifacts_by_task = erase task_id s.artifacts_by_task;
}

unfoldable pub pop_tasks : List TaskRecord → Repository → Repository
unfolding pop_task
pop_tasks [] s = s
pop_tasks (task ∷ tasks) s = pop_tasks tasks (pop_task task.id s)

-- The removal of a stored graph and of all that belongs to its run.
unfoldable pub remove_run : String → WorkflowGraph → Repository → Repository
unfolding pop_keys pop_tasks pop_run
remove_run run graph s =
    let left = pop_tasks graph.tasks (record s {
      graphs = erase run s.graphs;
      graphs_order = keep (λ run_id. not (run_id == run)) s.graphs_order;
      task_key_index = pop_keys run graph.tasks s.task_key_index;
    }) in
    record left {
      attempts = pop_run run left.attempts;
      human_requests = pop_run run left.human_requests;
      approval_requests = pop_run run left.approval_requests;
      artifacts = pop_run run left.artifacts;
      events = pop_run run left.events;
    }

unfoldable pub delete_workflow_run : String → Action Repository Bool
unfolding remove_run
delete_workflow_run run s = elim (lookup run s.graphs) [
  | none ↦ (ok false, s)
  | some graph ↦ (ok true, remove_run run graph s)
]

-- The tables of `s` that the removal of tasks leaves alone.
abbrev IsSameBeside : Repository → Repository → Type 0
IsSameBeside s s' =
    (s'.graphs ≡ s.graphs)
    × (s'.attempts ≡ s.attempts)
    × (s'.human_requests ≡ s.human_requests)
    × (s'.approval_requests ≡ s.approval_requests)
    × (s'.events ≡ s.events)

pop_tasks-IsSameBeside :
    (tasks : List TaskRecord) (s : Repository) → IsSameBeside s (pop_tasks tasks s)
unfolding pop_tasks pop_task
pop_tasks-IsSameBeside [] s = (refl, refl, refl, refl, refl)
pop_tasks-IsSameBeside (task ∷ tasks) s = pop_tasks-IsSameBeside tasks (pop_task task.id s)

erased :
    (run : String) (d : Dict String (List String)) → Unique d → get_or [] run (erase run d) ≡ []
erased run d u = ground (arith, lookup-erase run run d u, ==_refl run)

list_rows-pop_run :
    {V : Type 0} (run : String) (table : Table V)
    → Unique table.by_run
    → list_rows run (pop_run run table) ≡ []
unfolding list_rows pop_run rows_of
list_rows-pop_run run table u =
    ap (rows_of (pop_rows (get_or [] run table.by_run) table.rows)) (erased run table.by_run u)

pop_rows-lookup :
    {V : Type 0} (id : String) (ids : List String) (d : Dict String V)
    → Unique d
    → lookup id (pop_rows ids d) ≡ (if member id ids then none else lookup id d)
unfolding pop_rows
pop_rows-lookup id [] d u = refl
pop_rows-lookup id (j ∷ ids) d u =
    ground (arith, pop_rows-lookup id ids (erase j d) (erase-Unique j d u), lookup-erase id j d u)

-- A dictionary of rows and its index by run hold each key once.
abbrev pub HasUniqueKeys : {V : Type 0} → Table V → Type 0
HasUniqueKeys table = Unique table.rows × Unique table.by_run

-- No row of the run is listed, the rows that were listed for it are gone, and every other row and
-- the list of every other run are as before.
abbrev pub IsWithout : {V : Type 0} → String → Table V → Table V → Type 0
IsWithout run before after =
    ((id : String)
      → lookup id after.rows
        ≡ (if member id (get_or [] run before.by_run) then none else lookup id before.rows))
    × ((other : String)
        → get_or [] other after.by_run
          ≡ (if other == run then [] else get_or [] other before.by_run))

pop_run-IsWithout :
    {V : Type 0} (run : String) (table : Table V)
    → HasUniqueKeys table
    → IsWithout run table (pop_run run table)
unfolding pop_run
pop_run-IsWithout run table u = (
  λ id. pop_rows-lookup id (get_or [] run table.by_run) table.rows u.0,
  λ other. ground (arith, lookup-erase other run table.by_run u.1),
)

get_graph-erase :
    (run other : String) (s s' : Repository)
    → Unique s.graphs
    → s'.graphs ≡ erase run s.graphs
    → get_graph other s' ≡ (if other == run then err key_error else get_graph other s)
unfolding get_graph
get_graph-erase run other s s' u same =
    ground (arith, lookup-erase other run s.graphs u, ap (lookup other) same)

removed :
    (run : String) (s : Repository) (graph : WorkflowGraph)
    → lookup run s.graphs ≡ some graph
    → delete_workflow_run run s ≡ (ok true, remove_run run graph s)
unfolding delete_workflow_run
removed run s graph found = rw (delete_workflow_run, found) refl

-- Where the dictionaries that it pops from hold each key once, `delete_workflow_run` on a stored
-- run answers True; afterwards `get_graph` raises on that run and answers on every other as
-- before; no attempt, request or event of the run is listed, the rows that were listed for it are
-- gone, and those of other runs are as before.
pub delete_workflow_run_lem :
    (run other : String) (s : Repository) (graph : WorkflowGraph)
    → lookup run s.graphs ≡ some graph
    → Unique s.graphs
    → HasUniqueKeys s.attempts
    → HasUniqueKeys s.human_requests
    → HasUniqueKeys s.approval_requests
    → HasUniqueKeys s.events
    → let s' = (delete_workflow_run run s).1 in
      ((delete_workflow_run run s).0 ≡ ok true)
      × (get_graph other s' ≡ (if other == run then err key_error else get_graph other s))
      × (list_attempts_for_run run s' ≡ [])
      × (list_human_requests_for_run run s' ≡ [])
      × (list_approval_requests_for_run run s' ≡ [])
      × (list_events_for_run run s' ≡ [])
      × IsWithout run s.attempts s'.attempts
      × IsWithout run s.human_requests s'.human_requests
      × IsWithout run s.approval_requests s'.approval_requests
      × IsWithout run s.events s'.events
unfolding remove_run list_attempts_for_run list_human_requests_for_run
    list_approval_requests_for_run list_events_for_run
delete_workflow_run_lem run other s graph found g a h p e =
    let cleared : Repository = record s {
      graphs = erase run s.graphs;
      graphs_order = keep (λ run_id. not (run_id == run)) s.graphs_order;
      task_key_index = pop_keys run graph.tasks s.task_key_index;
    } in
    let left = pop_tasks graph.tasks cleared in
    let beside = pop_tasks-IsSameBeside graph.tasks cleared in
    rw (removed run s graph found) (
      refl,
      get_graph-erase run other s (remove_run run graph s) g beside.0,
      list_rows-pop_run run left.attempts (subst (λ t. Unique t.by_run) (sym beside.1) a.1),
      list_rows-pop_run run left.human_requests (subst (λ t. Unique t.by_run) (sym beside.2) h.1),
      list_rows-pop_run run left.approval_requests
          (subst (λ t. Unique t.by_run) (sym beside.3) p.1),
      list_rows-pop_run run left.events (subst (λ t. Unique t.by_run) (sym beside.4) e.1),
      subst (λ t. IsWithout run s.attempts (pop_run run t)) (sym beside.1)
          (pop_run-IsWithout run s.attempts a),
      subst (λ t. IsWithout run s.human_requests (pop_run run t)) (sym beside.2)
          (pop_run-IsWithout run s.human_requests h),
      subst (λ t. IsWithout run s.approval_requests (pop_run run t)) (sym beside.3)
          (pop_run-IsWithout run s.approval_requests p),
      subst (λ t. IsWithout run s.events (pop_run run t)) (sym beside.4)
          (pop_run-IsWithout run s.events e),
    )
