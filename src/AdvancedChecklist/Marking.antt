-- ===== src/AdvancedChecklist/Marking.antt =====
-- CompleteTask, ReopenTask and DeleteTask, against a description without loops.
use mathlib.Core.Bool.{or_assoc, or-true}
use mathlib.Core.List.{append_assoc, append-nil}
use gosn_v.Prelude.{
  String, Bool, true, false, not, ◌&&◌, ◌||◌, ◌≡◌, refl, ◌∙◌, some, List, [], ◌∷◌, ◌++◌, map, arith,
  ◌==◌, any, keep, if◌then◌else◌, Bool-cases, inl, inr,
}
use gosn_v.Checklist.Task.{TaskError, task_not_found, task_already_completed}
use gosn_v.AdvancedChecklist.Types.{
  AdvancedChecklistTask, AdvancedChecklistGroup, AdvancedChecklist,
}
use gosn_v.AdvancedChecklist.{
  Inner, stopped, ended, complete_inner, reopen_inner, delete_inner, conclude, over_groups,
  complete_task, reopen_task, delete_task, has_group,
}

-- A task with the description gets the mark; any other stays.
abbrev pub mark : String → Bool → AdvancedChecklistTask → AdvancedChecklistTask
mark task_title b t = if t.description == task_title then record t { completed = b } else t

abbrev pub mentions : String → List AdvancedChecklistTask → Bool
mentions task_title ts = any (λ t. t.description == task_title) ts

abbrev pub completed_already : String → List AdvancedChecklistTask → Bool
completed_already task_title ts = any (λ t. (t.description == task_title) && t.completed) ts

abbrev pub without : String → List AdvancedChecklistTask → List AdvancedChecklistTask
without task_title ts = keep (λ t. not (t.description == task_title)) ts

module _ (task_title : String) where
  complete_inner_lem :
      (found : Bool) (updated ts : List AdvancedChecklistTask)
      → complete_inner task_title found updated ts ≡ (
          if completed_already task_title ts
          then stopped task_already_completed
          else ended (found || mentions task_title ts) (updated ++ map (mark task_title true) ts))
  unfolding complete_inner
  complete_inner_lem found updated [] = ground (arith, append-nil updated)
  complete_inner_lem found updated (t ∷ ts) =
      let t' = record t { completed = true } in
      ground (
        arith,
        complete_inner_lem found (updated ++ t ∷ []) ts,
        complete_inner_lem true (updated ++ t' ∷ []) ts,
        append_assoc updated (t ∷ []) (map (mark task_title true) ts),
        append_assoc updated (t' ∷ []) (map (mark task_title true) ts),
      )

  reopen_inner_lem :
      (found : Bool) (updated ts : List AdvancedChecklistTask)
      → reopen_inner task_title found updated ts
        ≡ ended (found || mentions task_title ts) (updated ++ map (mark task_title false) ts)
  unfolding reopen_inner
  reopen_inner_lem found updated [] = ground (arith, append-nil updated)
  reopen_inner_lem found updated (t ∷ ts) =
      let t' = record t { completed = false } in
      ground (
        arith,
        reopen_inner_lem found (updated ++ t ∷ []) ts,
        reopen_inner_lem true (updated ++ t' ∷ []) ts,
        append_assoc updated (t ∷ []) (map (mark task_title false) ts),
        append_assoc updated (t' ∷ []) (map (mark task_title false) ts),
      )

  delete_inner_lem :
      (found : Bool) (updated ts : List AdvancedChecklistTask)
      → delete_inner task_title found updated ts
        ≡ ended (found || mentions task_title ts) (updated ++ without task_title ts)
  unfolding delete_inner
  delete_inner_lem found updated [] = ground (arith, append-nil updated)
  delete_inner_lem found updated (t ∷ ts) = ground (
    arith,
    delete_inner_lem found (updated ++ t ∷ []) ts,
    delete_inner_lem true updated ts,
    append_assoc updated (t ∷ []) (without task_title ts),
  )

-- The groups with the name get new tasks; the others stay.
abbrev pub in_group :
    String
    → (List AdvancedChecklistTask → List AdvancedChecklistTask)
    → AdvancedChecklistGroup
    → AdvancedChecklistGroup
in_group group_name f g = if g.name == group_name then record g { tasks = f g.tasks } else g

-- Some group with the name has tasks that pass a test.
abbrev pub some_group :
    String → (List AdvancedChecklistTask → Bool) → List AdvancedChecklistGroup → Bool
some_group group_name p groups = any (λ g. (g.name == group_name) && p g.tasks) groups

never :
    (group_name : String) (gs : List AdvancedChecklistGroup)
    → some_group group_name (λ _. false) gs ≡ false
never group_name [] = refl
never group_name (g ∷ gs) = ground (arith, never group_name gs)

-- A method whose loop over the tasks of a group stops with `e` where `stop` holds, finds a task
-- where `finds` holds, and otherwise leaves the tasks `f`.
module _ (inner : Inner) (e : TaskError) (stop finds : List AdvancedChecklistTask → Bool)
    (f : List AdvancedChecklistTask → List AdvancedChecklistTask)
    (inner_lem : (found : Bool) (ts : List AdvancedChecklistTask)
      → inner found [] ts ≡ (if stop ts then stopped e else ended (found || finds ts) (f ts)))
    (group_name : String) (c : AdvancedChecklist) where
  over_groups_lem :
      (group_found task_found : Bool) (groups rest : List AdvancedChecklistGroup)
      → over_groups inner group_name c group_found task_found groups rest ≡ (
          if some_group group_name stop rest
          then (c, some e)
          else conclude c
              (group_found || has_group group_name rest)
              (task_found || some_group group_name finds rest)
              (groups ++ map (in_group group_name f) rest))
  unfolding over_groups
  over_groups_lem group_found task_found groups [] = ground (arith, append-nil groups)
  over_groups_lem group_found task_found groups (g ∷ gs) =
      elim (Bool-cases (g.name == group_name)) [
        | inr other ↦
            rw (other, over_groups_lem group_found task_found (groups ++ g ∷ []) gs)
              (rw append_assoc)
        | inl named ↦ elim (Bool-cases (stop g.tasks)) [
          | inl s ↦ rw (named, inner_lem task_found g.tasks, s)
          | inr s ↦
              rw (named, inner_lem task_found g.tasks, s)
                (rw (
                  over_groups_lem true (task_found || finds g.tasks)
                      (groups ++ record g { tasks = f g.tasks } ∷ []) gs,
                  append_assoc,
                  or_assoc,
                  or-true,
                ))
        ]
      ]

-- What CompleteTask leaves and returns. If a group with the name has a completed task with the
-- title: the error of a completed task, and no change. Else, without such a group or such a task:
-- its error, and no change. Else the tasks with the title in the groups with the name are completed,
-- and nothing else changes.
pub complete_task_in_group_lem :
    (group_name task_title : String) (c : AdvancedChecklist)
    → complete_task group_name task_title c ≡ (
        if some_group group_name (completed_already task_title) c.groups
        then (c, some task_already_completed)
        else conclude c
            (has_group group_name c.groups)
            (some_group group_name (mentions task_title) c.groups)
            (map (in_group group_name (map (mark task_title true))) c.groups))
unfolding complete_task
complete_task_in_group_lem group_name task_title c =
    over_groups_lem (complete_inner task_title) task_already_completed
      (completed_already task_title) (mentions task_title) (map (mark task_title true))
      (λ found ts. complete_inner_lem task_title found [] ts) group_name c false false [] c.groups

-- ReopenTask reopens the tasks with the title, open or not, in the groups with the name; without
-- such a group or such a task it returns the error of that, and changes nothing.
pub reopen_task_in_group_lem :
    (group_name task_title : String) (c : AdvancedChecklist)
    → reopen_task group_name task_title c
      ≡ conclude c
          (has_group group_name c.groups)
          (some_group group_name (mentions task_title) c.groups)
          (map (in_group group_name (map (mark task_title false))) c.groups)
unfolding reopen_task
reopen_task_in_group_lem group_name task_title c =
    over_groups_lem (reopen_inner task_title) task_not_found (λ _. false) (mentions task_title)
      (map (mark task_title false)) (λ found ts. reopen_inner_lem task_title found [] ts) group_name
      c false false [] c.groups
    ∙ rw (never group_name c.groups)

-- DeleteTask drops the tasks with the title from the groups with the name; without such a group or
-- such a task it returns the error of that, and changes nothing.
pub delete_task_in_group_lem :
    (group_name task_title : String) (c : AdvancedChecklist)
    → delete_task group_name task_title c
      ≡ conclude c
          (has_group group_name c.groups)
          (some_group group_name (mentions task_title) c.groups)
          (map (in_group group_name (without task_title)) c.groups)
unfolding delete_task
delete_task_in_group_lem group_name task_title c =
    over_groups_lem (delete_inner task_title) task_not_found (λ _. false) (mentions task_title)
      (without task_title) (λ found ts. delete_inner_lem task_title found [] ts) group_name c false
      false [] c.groups
    ∙ rw (never group_name c.groups)
