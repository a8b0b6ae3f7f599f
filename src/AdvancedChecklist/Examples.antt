-- ===== src/AdvancedChecklist/Examples.antt =====
-- Runs of the operations of an advanced checklist at small inputs.
use gosn_v.Prelude.{◌≡◌, refl, false, none, some, List, [], ◌∷◌}
use gosn_v.AdvancedChecklist.Types.{AdvancedChecklistGroup, AdvancedChecklist}
use gosn_v.AdvancedChecklist.{get_group, new_task, new_group, add_task}
use gosn_v.AdvancedChecklist.Groups.{get_group-add_task, group_with}
use gosn_v.AdvancedChecklist.Names.{
  IsUnique, Call, add_task_call, complete_task_call, add_group_call, run_all, run_all-IsUnique,
}

abbrev with_groups : List AdvancedChecklistGroup → AdvancedChecklist
with_groups groups = record {
  uuid = "c";
  title = "week";
  schema_version = "1.0.0";
  groups = groups;
  default_sections = [];
  updated_at = 0;
  trashed = false;
}

abbrev week : AdvancedChecklist
week = with_groups (
    new_group "home" 1 (new_task "a" 1 "wash" ∷ new_task "b" 2 "cook" ∷ [])
    ∷ new_group "work" 1 (new_task "c" 3 "wash" ∷ [])
    ∷ [])

get_group-add_task_example :
    ((add_task "d" 9 "work" "call" week).1 ≡ none)
    × (get_group "work" (add_task "d" 9 "work" "call" week).0.groups
        ≡ some (group_with "work" 9 (new_task "d" 9 "call") (get_group "work" week.groups)))
get_group-add_task_example = get_group-add_task "d" 9 "work" "call" "work" week

abbrev some_calls : List Call
some_calls =
    add_group_call 4 "home"
    ∷ add_task_call "d" 5 "play" "chess"
    ∷ complete_task_call "home" "cook"
    ∷ []

run_all-IsUnique_example : IsUnique (run_all some_calls week).groups
run_all-IsUnique_example = run_all-IsUnique some_calls week (refl, (refl, tt))
