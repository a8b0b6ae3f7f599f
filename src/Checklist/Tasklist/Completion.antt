-- ===== src/Checklist/Tasklist/Completion.antt =====
-- CompleteTask and ReopenTask of items/checklist.go, against a description without loops.
use mathlib.Core.List.{append_assoc, append-nil}
use gosn_v.Prelude.{
  Bool, true, false, not, ◌&&◌, ◌||◌, ◌≡◌, refl, none, some, List, [], ◌∷◌, ◌++◌, map, arith, any,
  if◌then◌else◌,
}
use gosn_v.Prelude.Bytes.{Bytes, same}
use gosn_v.Checklist.Task.{
  Task, Tasklist, task_not_found, task_already_completed, task_already_open,
}
use gosn_v.Checklist.Tasklist.{
  stopped, ended, complete_task, complete_loop, reopen_task, reopen_loop,
}

-- A task with the title gets the mark; any other stays.
abbrev pub mark : Bytes → Bool → Task → Task
mark task_title b t = if same t.title task_title then record t { completed = b } else t

-- There is a task with the title, and one whose mark is already `b`.
abbrev pub mentions : Bytes → List Task → Bool
mentions task_title ts = any (λ t. same t.title task_title) ts

abbrev pub completed_already : Bytes → List Task → Bool
completed_already task_title ts = any (λ t. same t.title task_title && t.completed) ts

abbrev pub open_already : Bytes → List Task → Bool
open_already task_title ts = any (λ t. same t.title task_title && not t.completed) ts

complete_loop_lem :
    (task_title : Bytes) (found : Bool) (updated ts : List Task)
    → complete_loop task_title found updated ts ≡ (
        if completed_already task_title ts
        then stopped task_already_completed
        else ended (found || mentions task_title ts) (updated ++ map (mark task_title true) ts))
unfolding complete_loop
complete_loop_lem task_title found updated [] = ground (arith, append-nil updated)
complete_loop_lem task_title found updated (t ∷ ts) =
    let t' = record t { completed = true } in
    ground (
      arith,
      complete_loop_lem task_title found (updated ++ t ∷ []) ts,
      complete_loop_lem task_title true (updated ++ t' ∷ []) ts,
      append_assoc updated (t ∷ []) (map (mark task_title true) ts),
      append_assoc updated (t' ∷ []) (map (mark task_title true) ts),
    )

reopen_loop_lem :
    (task_title : Bytes) (found : Bool) (updated ts : List Task)
    → reopen_loop task_title found updated ts ≡ (
        if open_already task_title ts
        then stopped task_already_open
        else ended (found || mentions task_title ts) (updated ++ map (mark task_title false) ts))
unfolding reopen_loop
reopen_loop_lem task_title found updated [] = ground (arith, append-nil updated)
reopen_loop_lem task_title found updated (t ∷ ts) =
    let t' = record t { completed = false } in
    ground (
      arith,
      reopen_loop_lem task_title found (updated ++ t ∷ []) ts,
      reopen_loop_lem task_title true (updated ++ t' ∷ []) ts,
      append_assoc updated (t ∷ []) (map (mark task_title false) ts),
      append_assoc updated (t' ∷ []) (map (mark task_title false) ts),
    )

-- What CompleteTask leaves and returns: an error and no change if no task has the title or one with
-- it is completed already; otherwise every task with the title is completed, and the others stay.
complete_task_lem :
    (task_title : Bytes) (c : Tasklist)
    → complete_task task_title c ≡ (
        if completed_already task_title c.tasks
        then (c, some task_already_completed)
        else if mentions task_title c.tasks
        then (record c { tasks = map (mark task_title true) c.tasks }, none)
        else (c, some task_not_found))
unfolding complete_task
complete_task_lem task_title c = ground (arith, complete_loop_lem task_title false [] c.tasks)

-- The same for ReopenTask, with the tasks that are open already.
pub reopen_task_lem :
    (task_title : Bytes) (c : Tasklist)
    → reopen_task task_title c ≡ (
        if open_already task_title c.tasks
        then (c, some task_already_open)
        else if mentions task_title c.tasks
        then (record c { tasks = map (mark task_title false) c.tasks }, none)
        else (c, some task_not_found))
unfolding reopen_task
reopen_task_lem task_title c = ground (arith, reopen_loop_lem task_title false [] c.tasks)

-- Marking keeps the titles, and after a mark every task with the title has it.
mentions-mark :
    (task_title : Bytes) (b : Bool) (ts : List Task)
    → mentions task_title (map (mark task_title b) ts) ≡ mentions task_title ts
mentions-mark task_title b [] = refl
mentions-mark task_title b (t ∷ ts) = ground (arith, mentions-mark task_title b ts)

open_already-mark :
    (task_title : Bytes) (ts : List Task)
    → open_already task_title (map (mark task_title true) ts) ≡ false
open_already-mark task_title [] = refl
open_already-mark task_title (t ∷ ts) = ground (arith, open_already-mark task_title ts)

mark-mark :
    (task_title : Bytes) (ts : List Task)
    → completed_already task_title ts ≡ false
    → map (mark task_title false) (map (mark task_title true) ts) ≡ ts
mark-mark task_title [] h = refl
mark-mark task_title (t ∷ ts) h = ground (arith, mark-mark task_title ts)

-- Where CompleteTask succeeds, ReopenTask with the same title succeeds after it and gives back the
-- list that was there before.
reopen_task-complete_task :
    (task_title : Bytes) (c : Tasklist)
    → (complete_task task_title c).1 ≡ none
    → reopen_task task_title (complete_task task_title c).0 ≡ (c, none)
reopen_task-complete_task task_title c = rw complete_task_lem (
    ground (
      arith,
      reopen_task_lem task_title (record c { tasks = map (mark task_title true) c.tasks }),
      open_already-mark task_title c.tasks,
      mentions-mark task_title true c.tasks,
      mark-mark task_title c.tasks,
    ))
