-- ===== src/AdvancedChecklist/Groups.antt =====
-- AddTask, AddGroup, DeleteGroup and GetGroup: what a client sees of the groups.
use mathlib.Core.List.{append_assoc, append-nil}
use gosn_v.Prelude.{
  String, Bool, true, false, not, ◌||◌, ◌≡◌, refl, Option, none, some, List, [], ◌∷◌, ◌++◌, arith,
  ◌==◌, eq_iff, eq_refl, keep, if◌then◌else◌, Bool-cases, inl, inr,
}
use gosn_v.Checklist.Task.{group_not_found}
use gosn_v.AdvancedChecklist.Types.{
  Time, AdvancedChecklistTask, AdvancedChecklistGroup, AdvancedChecklist,
}
use gosn_v.AdvancedChecklist.{
  get_group, new_task, new_group, prepend_task, placed, add_task, has_group, add_group,
  delete_group_loop, delete_group,
}

abbrev pub others : String → List AdvancedChecklistGroup → List AdvancedChecklistGroup
others group_name groups = keep (λ g. not (g.name == group_name)) groups

delete_group_loop_lem :
    (group_name : String) (found : Bool) (groups rest : List AdvancedChecklistGroup)
    → delete_group_loop group_name found groups rest
      ≡ (groups ++ others group_name rest, found || has_group group_name rest)
unfolding delete_group_loop
delete_group_loop_lem group_name found groups [] = ground (arith, append-nil groups)
delete_group_loop_lem group_name found groups (g ∷ gs) = ground (
  arith,
  delete_group_loop_lem group_name found (groups ++ g ∷ []) gs,
  delete_group_loop_lem group_name true groups gs,
  append_assoc groups (g ∷ []) (others group_name gs),
)

-- DeleteGroup drops every group with the name and keeps the others in order; without such a group
-- it returns an error and changes nothing.
pub delete_group_lem :
    (group_name : String) (c : AdvancedChecklist)
    → delete_group group_name c ≡ (
        if has_group group_name c.groups
        then (record c { groups = others group_name c.groups }, none)
        else (c, some group_not_found))
unfolding delete_group
delete_group_lem group_name c = ground (arith, delete_group_loop_lem group_name false [] c.groups)

pub has_group-append :
    (group_name : String) (xs ys : List AdvancedChecklistGroup)
    → has_group group_name (xs ++ ys) ≡ (has_group group_name xs || has_group group_name ys)
has_group-append group_name [] ys = refl
has_group-append group_name (x ∷ xs) ys = ground (arith, has_group-append group_name xs ys)

others_absent :
    (group_name : String) (g : AdvancedChecklistGroup) (gs : List AdvancedChecklistGroup)
    → has_group group_name gs ≡ false
    → (g.name == group_name) ≡ true
    → others group_name (gs ++ g ∷ []) ≡ gs
others_absent group_name g [] h k = ground arith
others_absent group_name g (x ∷ gs) h k = ground (arith, others_absent group_name g gs)

-- Where AddGroup succeeds, DeleteGroup with the same name succeeds after it and gives back the
-- checklist that was there before.
pub delete_group-add_group :
    (now : Time) (group_name : String) (c : AdvancedChecklist)
    → (add_group now group_name c).1 ≡ none
    → delete_group group_name (add_group now group_name c).0 ≡ (c, none)
unfolding add_group
delete_group-add_group now group_name c = rw delete_group_lem (
    ground (
      arith,
      has_group-append group_name c.groups (new_group group_name now [] ∷ []),
      eq_refl group_name,
      others_absent group_name (new_group group_name now []) c.groups,
    ))

-- GetGroup finds a group exactly if one has the name.
pub get_group-has_group :
    (group_name : String) (gs : List AdvancedChecklistGroup)
    → get_group group_name gs ≡ none
    → has_group group_name gs ≡ false
unfolding get_group
get_group-has_group group_name [] h = refl
get_group-has_group group_name (g ∷ gs) h = ground (arith, get_group-has_group group_name gs)

get_group-append :
    (group_name : String) (g : AdvancedChecklistGroup) (gs : List AdvancedChecklistGroup)
    → get_group group_name gs ≡ none
    → (g.name == group_name) ≡ true
    → get_group group_name (gs ++ g ∷ []) ≡ some g
unfolding get_group
get_group-append group_name g [] h k = ground arith
get_group-append group_name g (x ∷ gs) h k = ground (arith, get_group-append group_name g gs)

get_group-append_ne :
    (group_name : String) (g : AdvancedChecklistGroup) (gs : List AdvancedChecklistGroup)
    → (g.name == group_name) ≡ false
    → get_group group_name (gs ++ g ∷ []) ≡ get_group group_name gs
unfolding get_group
get_group-append_ne group_name g [] k = ground arith
get_group-append_ne group_name g (x ∷ gs) k = ground (arith, get_group-append_ne group_name g gs)

get_group-prepend_task :
    (group_name : String) (task : AdvancedChecklistTask) (g : AdvancedChecklistGroup)
    (gs : List AdvancedChecklistGroup)
    → get_group group_name gs ≡ some g
    → get_group group_name (prepend_task group_name task gs)
      ≡ some (record g { tasks = task ∷ g.tasks })
unfolding get_group prepend_task
get_group-prepend_task group_name task g [] h = ground arith
get_group-prepend_task group_name task g (x ∷ gs) h =
    ground (arith, get_group-prepend_task group_name task g gs)

get_group-prepend_task_ne :
    (group_name other : String) (task : AdvancedChecklistTask) (gs : List AdvancedChecklistGroup)
    → group_name == other ≡ false
    → get_group other (prepend_task group_name task gs) ≡ get_group other gs
unfolding get_group prepend_task
get_group-prepend_task_ne group_name other task [] k = refl
get_group-prepend_task_ne group_name other task (x ∷ gs) k = ground (
  arith,
  get_group-prepend_task_ne group_name other task gs,
  eq_iff x.name group_name,
  eq_iff x.name other,
  eq_iff group_name other,
)

-- The group that AddTask leaves under its name: the old one with the new task in front, or a new one
-- that holds the new task alone.
abbrev pub group_with :
    String → Time → AdvancedChecklistTask → Option AdvancedChecklistGroup → AdvancedChecklistGroup
group_with group_name now task none = new_group group_name now (task ∷ [])
group_with group_name now task (some g) = record g { tasks = task ∷ g.tasks }

get_group-placed_self :
    (group_name : String) (now : Time) (task : AdvancedChecklistTask)
    (gs : List AdvancedChecklistGroup) (found : Option AdvancedChecklistGroup)
    → get_group group_name gs ≡ found
    → get_group group_name (placed group_name now task gs found)
      ≡ some (group_with group_name now task found)
get_group-placed_self group_name now task gs none h =
    get_group-append group_name (new_group group_name now (task ∷ [])) gs h (eq_refl group_name)
get_group-placed_self group_name now task gs (some g) h =
    get_group-prepend_task group_name task g gs h

get_group-placed_ne :
    (group_name other : String) (now : Time) (task : AdvancedChecklistTask)
    (gs : List AdvancedChecklistGroup) (found : Option AdvancedChecklistGroup)
    → (group_name == other) ≡ false
    → get_group other (placed group_name now task gs found) ≡ get_group other gs
get_group-placed_ne group_name other now task gs none n =
    get_group-append_ne other (new_group group_name now (task ∷ [])) gs n
get_group-placed_ne group_name other now task gs (some g) n =
    get_group-prepend_task_ne group_name other task gs n

get_group-placed :
    (group_name other : String) (now : Time) (task : AdvancedChecklistTask)
    (gs : List AdvancedChecklistGroup)
    → get_group other (placed group_name now task gs (get_group group_name gs)) ≡ (
        if group_name == other
        then some (group_with group_name now task (get_group group_name gs))
        else get_group other gs)
get_group-placed group_name other now task gs = elim (Bool-cases (group_name == other)) [
  | inl e ↦ rw e (
      rw (← (eq_iff group_name other).0 e)
        (get_group-placed_self group_name now task gs (get_group group_name gs) refl))
  | inr n ↦ rw n (get_group-placed_ne group_name other now task gs (get_group group_name gs) n)
]

-- AddTask never fails; after it GetGroup finds the group with the new task, which is open, in front,
-- and finds under every other name what it found before.
pub get_group-add_task :
    (id : String) (now : Time) (group_name task_title other : String) (c : AdvancedChecklist)
    → ((add_task id now group_name task_title c).1 ≡ none)
      × (get_group other (add_task id now group_name task_title c).0.groups ≡ (
          if group_name == other
          then some (
              group_with group_name now
                (new_task id now task_title)
                (get_group group_name c.groups))
          else get_group other c.groups))
unfolding add_task
get_group-add_task id now group_name task_title other c =
    (refl, get_group-placed group_name other now (new_task id now task_title) c.groups)
