-- ===== src/Checklist/Tasklist/Deletion.antt =====
-- AddTask and DeleteTask of items/checklist.go.
use mathlib.Core.List.{append_assoc, append-nil}
use gosn_v.Prelude.{
  Bool, true, false, not, ◌||◌, ◌≡◌, refl, none, some, List, [], ◌∷◌, ◌++◌, arith, keep,
  if◌then◌else◌,
}
use gosn_v.Prelude.Bytes.{Bytes, same, same_refl}
use gosn_v.Checklist.Task.{Task, Tasklist, task_not_found}
use gosn_v.Checklist.Tasklist.{remove_loop, remove_task, delete_task, add_task}
use gosn_v.Checklist.Tasklist.Completion.{mentions}

-- The tasks with another title, in order.
abbrev pub without : Bytes → List Task → List Task
without task_title ts = keep (λ t. not (same t.title task_title)) ts

remove_loop_lem :
    (task_title : Bytes) (found : Bool) (updated ts : List Task)
    → remove_loop task_title found updated ts
      ≡ (updated ++ without task_title ts, found || mentions task_title ts)
unfolding remove_loop
remove_loop_lem task_title found updated [] = ground (arith, append-nil updated)
remove_loop_lem task_title found updated (t ∷ ts) = ground (
  arith,
  remove_loop_lem task_title found (updated ++ t ∷ []) ts,
  remove_loop_lem task_title true updated ts,
  append_assoc updated (t ∷ []) (without task_title ts),
)

-- DeleteTask drops every task with the title and keeps the others in order; without such a task it
-- returns an error and changes nothing.
pub delete_task_lem :
    (task_title : Bytes) (c : Tasklist)
    → delete_task task_title c ≡ (
        if mentions task_title c.tasks
        then (record c { tasks = without task_title c.tasks }, none)
        else (c, some task_not_found))
unfolding delete_task remove_task
delete_task_lem task_title c = ground (arith, remove_loop_lem task_title false [] c.tasks)

without_absent :
    (task_title : Bytes) (ts : List Task)
    → mentions task_title ts ≡ false
    → without task_title ts ≡ ts
without_absent task_title [] h = refl
without_absent task_title (t ∷ ts) h = ground (arith, without_absent task_title ts)

mentions-without :
    (task_title : Bytes) (ts : List Task) → mentions task_title (without task_title ts) ≡ false
mentions-without task_title [] = refl
mentions-without task_title (t ∷ ts) = ground (arith, mentions-without task_title ts)

-- Where no task has the title, deleting what was just added gives back the list.
pub delete_task-add_task :
    (task_title : Bytes) (c : Tasklist)
    → mentions task_title c.tasks ≡ false
    → delete_task task_title (add_task task_title c).0 ≡ (c, none)
unfolding add_task
delete_task-add_task task_title c h =
    rw delete_task_lem (ground (arith, same_refl task_title, without_absent task_title c.tasks))

-- After DeleteTask, failed or not, no task has the title.
pub mentions-delete_task :
    (task_title : Bytes) (c : Tasklist)
    → mentions task_title (delete_task task_title c).0.tasks ≡ false
mentions-delete_task task_title c =
    rw delete_task_lem (ground (arith, mentions-without task_title c.tasks))
