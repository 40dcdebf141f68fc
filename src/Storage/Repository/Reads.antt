-- ===== src/Storage/Repository/Reads.antt =====
-- What the repository answers after a write.
use autoweave_library.Common.{
  ◌≡◌, [], String, insert, get_or, lookup-insert, ok, string_eq, ◌==◌, if◌then◌else◌, arith,
  ==_refl,
}
use autoweave_library.Models.{TaskRecord}
use autoweave_library.Storage.Repository.{
  Repository, save_task, index_task, index_key, get_task, get_task_by_key,
}

saved_task : (t : TaskRecord) (s : Repository) → (save_task t s).1.tasks ≡ insert t.id t s.tasks
unfolding save_task index_task
saved_task t s = ground arith

saved_index :
    (t : TaskRecord) (s : Repository)
    → (save_task t s).1.task_key_index
      ≡ index_key t.workflow_run_id t.task_key t.id s.task_key_index
unfolding save_task index_task
saved_index t s = ground arith

-- What `save_task` has written is what `get_task` answers on the task's id and `get_task_by_key`
-- on its run and key; on every other id `get_task` answers as before.
pub save_task-get_task :
    (t : TaskRecord) (s : Repository) (other : String)
    → (get_task_by_key t.workflow_run_id t.task_key (save_task t s).1 ≡ ok t)
      × (get_task other (save_task t s).1 ≡ (if other == t.id then ok t else get_task other s))
unfolding get_task get_task_by_key index_key
save_task-get_task t s other = (
  ground (
    arith,
    saved_task t s,
    saved_index t s,
    lookup-insert t.id t.id t s.tasks,
    lookup-insert t.workflow_run_id t.workflow_run_id
        (insert t.task_key t.id (get_or [] t.workflow_run_id s.task_key_index)) s.task_key_index,
    lookup-insert t.task_key t.task_key t.id (get_or [] t.workflow_run_id s.task_key_index),
    ==_refl t.id,
    ==_refl t.task_key,
    ==_refl t.workflow_run_id,
  ),
  ground (arith, saved_task t s, lookup-insert other t.id t s.tasks),
)
