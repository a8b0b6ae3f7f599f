-- ===== src/AdvancedChecklist.antt =====
-- items/advancedChecklist.go: checklists whose tasks stand in named groups. A method returns the
-- checklist that it leaves behind and its error; time.Now() and GenUUID() are arguments.
pub mod Types
pub mod Marking
pub mod Groups
pub mod Names
mod Examples
use gosn_v.Prelude.{
  ℕ, String, Bool, true, false, not, ◌||◌, Option, none, some, List, [], ◌∷◌, ◌++◌, ◌==◌, any,
  if◌then◌else◌,
}
use gosn_v.Checklist.Task.{
  TaskError, group_not_found, task_not_found, task_already_completed, group_already_exists,
}
use gosn_v.AdvancedChecklist.Types.{
  Time, AdvancedChecklistTask, AdvancedChecklistSection, AdvancedChecklistGroup, AdvancedChecklist,
}

pub get_group : String → List AdvancedChecklistGroup → Option AdvancedChecklistGroup
get_group title [] = none
get_group title (g ∷ gs) = let rest = get_group title gs in if g.name == title then some g else rest

abbrev pub new_task : String → Time → String → AdvancedChecklistTask
new_task id now task_title = record {
  id = id;
  description = task_title;
  completed = false;
  created_at = now;
  updated_at = now;
}

abbrev pub new_group : String → Time → List AdvancedChecklistTask → AdvancedChecklistGroup
new_group group_name now tasks = record {
  name = group_name;
  last_active = now;
  sections =
      record { id = "open-tasks"; name = "Open"; collapsed = false }
      ∷ record { id = "completed-tasks"; name = "Completed"; collapsed = false }
      ∷ [];
  tasks = tasks;
  collapsed = false;
}

-- The last loop of AddTask: the first group with the name gets the task in front.
pub prepend_task :
    String → AdvancedChecklistTask → List AdvancedChecklistGroup → List AdvancedChecklistGroup
prepend_task group_name task [] = []
prepend_task group_name task (g ∷ gs) =
    let rest = g ∷ prepend_task group_name task gs in
    if g.name == group_name then record g { tasks = task ∷ g.tasks } ∷ gs else rest

-- The groups that AddTask leaves, by what GetGroup finds.
abbrev pub placed :
    String
    → Time
    → AdvancedChecklistTask
    → List AdvancedChecklistGroup
    → Option AdvancedChecklistGroup
    → List AdvancedChecklistGroup
placed group_name now task groups none = groups ++ new_group group_name now (task ∷ []) ∷ []
placed group_name now task groups (some g) = prepend_task group_name task groups

pub add_task :
    (id : String) (now : Time) (group_name task_title : String)
    → AdvancedChecklist
    → AdvancedChecklist × Option TaskError
unfolding get_group prepend_task
add_task id now group_name task_title c =
    let found = get_group group_name c.groups in
    let task = new_task id now task_title in
    (record c { groups = placed group_name now task c.groups found }, none)

-- How a loop over the tasks of a group ends: by an early return from the method, or with
-- `taskFound` and `updatedTasks`.
pub data Loop : Type 0 where
  stopped : TaskError → Loop
  ended : Bool → List AdvancedChecklistTask → Loop

abbrev pub Inner : Type 0
Inner = (found : Bool) (updated tasks : List AdvancedChecklistTask) → Loop

pub complete_inner : String → Inner
complete_inner task_title found updated [] = ended found updated
complete_inner task_title found updated (t ∷ ts) =
    let kept = complete_inner task_title found (updated ++ t ∷ []) ts in
    let done = complete_inner task_title true (updated ++ record t { completed = true } ∷ []) ts in
    if not (t.description == task_title)
    then kept
    else if t.completed
    then stopped task_already_completed
    else done

pub reopen_inner : String → Inner
reopen_inner task_title found updated [] = ended found updated
reopen_inner task_title found updated (t ∷ ts) =
    let kept = reopen_inner task_title found (updated ++ t ∷ []) ts in
    let open_again =
      reopen_inner task_title true (updated ++ record t { completed = false } ∷ []) ts in
    if not (t.description == task_title) then kept else open_again

pub delete_inner : String → Inner
delete_inner task_title found updated [] = ended found updated
delete_inner task_title found updated (t ∷ ts) =
    let kept = delete_inner task_title found (updated ++ t ∷ []) ts in
    let gone = delete_inner task_title true updated ts in
    if not (t.description == task_title) then kept else gone

-- The loop over the groups, with `groupFound`, `taskFound` and the new groups, and what follows it.
abbrev pub conclude :
    AdvancedChecklist
    → (group_found task_found : Bool) → List AdvancedChecklistGroup
    → AdvancedChecklist × Option TaskError
conclude c group_found task_found groups =
    if not group_found
    then (c, some group_not_found)
    else if not task_found
    then (c, some task_not_found)
    else (record c { groups = groups }, none)

module _ (inner : Inner) (group_name : String) (c : AdvancedChecklist) where
  pub over_groups :
      (group_found task_found : Bool) (groups rest : List AdvancedChecklistGroup)
      → AdvancedChecklist × Option TaskError
  over_groups group_found task_found groups [] = conclude c group_found task_found groups
  over_groups group_found task_found groups (g ∷ gs) =
      let kept = over_groups group_found task_found (groups ++ g ∷ []) gs in
      let entered : AdvancedChecklist × Option TaskError = elim (inner task_found [] g.tasks) [
        | stopped e ↦ (c, some e)
        | ended found updated ↦
            over_groups true found (groups ++ record g { tasks = updated } ∷ []) gs
      ] in
      if not (g.name == group_name) then kept else entered

pub complete_task : String → String → AdvancedChecklist → AdvancedChecklist × Option TaskError
unfolding over_groups complete_inner
complete_task group_name task_title c =
    over_groups (complete_inner task_title) group_name c false false [] c.groups

pub reopen_task : String → String → AdvancedChecklist → AdvancedChecklist × Option TaskError
unfolding over_groups reopen_inner
reopen_task group_name task_title c =
    over_groups (reopen_inner task_title) group_name c false false [] c.groups

pub delete_task : String → String → AdvancedChecklist → AdvancedChecklist × Option TaskError
unfolding over_groups delete_inner
delete_task group_name task_title c =
    over_groups (delete_inner task_title) group_name c false false [] c.groups

abbrev pub has_group : String → List AdvancedChecklistGroup → Bool
has_group group_name groups = any (λ g. g.name == group_name) groups

pub add_group : Time → String → AdvancedChecklist → AdvancedChecklist × Option TaskError
add_group now group_name c =
    if has_group group_name c.groups
    then (c, some group_already_exists)
    else (record c { groups = c.groups ++ new_group group_name now [] ∷ [] }, none)

pub delete_group_loop :
    String
    → (found : Bool) (groups rest : List AdvancedChecklistGroup)
    → List AdvancedChecklistGroup × Bool
delete_group_loop group_name found groups [] = (groups, found)
delete_group_loop group_name found groups (g ∷ gs) =
    let kept = delete_group_loop group_name found (groups ++ g ∷ []) gs in
    let gone = delete_group_loop group_name true groups gs in
    if not (g.name == group_name) then kept else gone

pub delete_group : String → AdvancedChecklist → AdvancedChecklist × Option TaskError
unfolding delete_group_loop
delete_group group_name c =
    let (groups, found) = delete_group_loop group_name false [] c.groups in
    if not found then (c, some group_not_found) else (record c { groups = groups }, none)
