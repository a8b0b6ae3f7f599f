-- ===== src/Checklist/Tasklist.antt =====
-- The methods of Tasklist in items/checklist.go. A method returns the list that it leaves behind
-- and its error, none where it succeeds.
pub mod Completion
pub mod Deletion
use gosn_v.Prelude.{Bool, true, false, not, Option, none, some, List, [], ◌∷◌, ◌++◌, if◌then◌else◌}
use gosn_v.Prelude.Bytes.{Bytes, same}
use gosn_v.Checklist.Task.{
  Task, Tasklist, TaskError, task_not_found, task_already_completed, task_already_open,
}

-- How a loop over the tasks ends: by an early return, or with `taskFound` and `updatedTasks`.
pub data Loop : Type 0 where
  stopped : TaskError → Loop
  ended : Bool → List Task → Loop

-- What a method does when its loop is over.
abbrev pub conclude : Tasklist → Loop → Tasklist × Option TaskError
conclude c (stopped e) = (c, some e)
conclude c (ended false updated) = (c, some task_not_found)
conclude c (ended true updated) = (record c { tasks = updated }, none)

pub add_task : Bytes → Tasklist → Tasklist × Option TaskError
add_task task_title c =
    (record c { tasks = record { title = task_title; completed = false } ∷ c.tasks }, none)

complete_loop : Bytes → Bool → List Task → List Task → Loop
complete_loop task_title found updated [] = ended found updated
complete_loop task_title found updated (t ∷ ts) =
    let kept = complete_loop task_title found (updated ++ t ∷ []) ts in
    let done = complete_loop task_title true (updated ++ record t { completed = true } ∷ []) ts in
    if same t.title task_title
    then (if t.completed then stopped task_already_completed else done)
    else kept

unfoldable pub complete_task : Bytes → Tasklist → Tasklist × Option TaskError
unfolding complete_loop
complete_task task_title c = conclude c (complete_loop task_title false [] c.tasks)

reopen_loop : Bytes → Bool → List Task → List Task → Loop
reopen_loop task_title found updated [] = ended found updated
reopen_loop task_title found updated (t ∷ ts) =
    let kept = reopen_loop task_title found (updated ++ t ∷ []) ts in
    let open_again =
      reopen_loop task_title true (updated ++ record t { completed = false } ∷ []) ts in
    if same t.title task_title
    then (if not t.completed then stopped task_already_open else open_again)
    else kept

pub reopen_task : Bytes → Tasklist → Tasklist × Option TaskError
unfolding reopen_loop
reopen_task task_title c = conclude c (reopen_loop task_title false [] c.tasks)

remove_loop : Bytes → Bool → List Task → List Task → List Task × Bool
remove_loop task_title found updated [] = (updated, found)
remove_loop task_title found updated (task ∷ ts) =
    let gone = remove_loop task_title true updated ts in
    let kept = remove_loop task_title found (updated ++ task ∷ []) ts in
    if same task.title task_title then gone else kept

pub remove_task : Bytes → Tasklist → List Task × Bool
unfolding remove_loop
remove_task task_title c = remove_loop task_title false [] c.tasks

pub delete_task : Bytes → Tasklist → Tasklist × Option TaskError
unfolding remove_task
delete_task task_title c =
    let (updated, found) = remove_task task_title c in
    if not found then (c, some task_not_found) else (record c { tasks = updated }, none)
