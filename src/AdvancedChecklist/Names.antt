-- ===== src/AdvancedChecklist/Names.antt =====
-- Group names stay unique, whatever is called.
use gosn_v.Prelude.{
  String, Bool, true, false, ◌≡◌, refl, ◌∙◌, Option, none, some, List, [], ◌∷◌, ◌++◌, arith, ◌==◌,
  eq_iff, map, if◌then◌else◌, Bool-cases, inl, inr,
}
use gosn_v.Checklist.Task.{TaskError}
use gosn_v.AdvancedChecklist.Types.{
  Time, AdvancedChecklistTask, AdvancedChecklistGroup, AdvancedChecklist,
}
use gosn_v.AdvancedChecklist.{
  get_group, new_task, new_group, prepend_task, placed, add_task, has_group, add_group,
  delete_group, complete_task, reopen_task, delete_task, conclude,
}
use gosn_v.AdvancedChecklist.Marking.{
  in_group, some_group, mark, without, completed_already, complete_task_in_group_lem,
  reopen_task_in_group_lem, delete_task_in_group_lem,
}
use gosn_v.AdvancedChecklist.Groups.{
  others, delete_group_lem, has_group-append, get_group-has_group,
}

-- No two groups have one name.
abbrev pub IsUnique : List AdvancedChecklistGroup → Type 0
IsUnique [] = Unit
IsUnique (g ∷ gs) = (has_group g.name gs ≡ false) × IsUnique gs

-- A call of a method, with what the clock and the generator of ids give.
pub data Call : Type 0 where
  add_task_call : (id : String) (now : Time) (group_name task_title : String) → Call
  complete_task_call reopen_task_call delete_task_call : (group_name task_title : String) → Call
  add_group_call : Time → String → Call
  delete_group_call : String → Call

pub run : Call → AdvancedChecklist → AdvancedChecklist
run (add_task_call id now group_name task_title) c = (add_task id now group_name task_title c).0
run (complete_task_call group_name task_title) c = (complete_task group_name task_title c).0
run (reopen_task_call group_name task_title) c = (reopen_task group_name task_title c).0
run (delete_task_call group_name task_title) c = (delete_task group_name task_title c).0
run (add_group_call now group_name) c = (add_group now group_name c).0
run (delete_group_call group_name) c = (delete_group group_name c).0

pub run_all : List Call → AdvancedChecklist → AdvancedChecklist
unfolding run
run_all [] c = c
run_all (call ∷ calls) c = run_all calls (run call c)

module _ (group_name : String) (f : List AdvancedChecklistTask → List AdvancedChecklistTask) where
  has_group-map :
      (name : String) (gs : List AdvancedChecklistGroup)
      → has_group name (map (in_group group_name f) gs) ≡ has_group name gs
  has_group-map name [] = refl
  has_group-map name (g ∷ gs) = ground (arith, has_group-map name gs)

  IsUnique-map :
      (gs : List AdvancedChecklistGroup) → IsUnique gs → IsUnique (map (in_group group_name f) gs)
  IsUnique-map [] u = tt
  IsUnique-map (g ∷ gs) u = (ground (arith, has_group-map g.name gs), IsUnique-map gs u.1)

  IsUnique-conclude :
      (a b : Bool) (c : AdvancedChecklist)
      → IsUnique c.groups
      → IsUnique (conclude c a b (map (in_group group_name f) c.groups)).0.groups
  IsUnique-conclude false b c u = u
  IsUnique-conclude true false c u = u
  IsUnique-conclude true true c u = IsUnique-map c.groups u

has_group-prepend_task :
    (group_name name : String) (task : AdvancedChecklistTask) (gs : List AdvancedChecklistGroup)
    → has_group name (prepend_task group_name task gs) ≡ has_group name gs
unfolding prepend_task
has_group-prepend_task group_name name task [] = refl
has_group-prepend_task group_name name task (g ∷ gs) =
    ground (arith, has_group-prepend_task group_name name task gs)

IsUnique-prepend_task :
    (group_name : String) (task : AdvancedChecklistTask) (gs : List AdvancedChecklistGroup)
    → IsUnique gs
    → IsUnique (prepend_task group_name task gs)
unfolding prepend_task
IsUnique-prepend_task group_name task [] u = tt
IsUnique-prepend_task group_name task (g ∷ gs) u = elim (Bool-cases (g.name == group_name)) [
  | inl e ↦ rw e u
  | inr n ↦ rw n (
    has_group-prepend_task group_name g.name task gs ∙ u.0,
    IsUnique-prepend_task group_name task gs u.1,
  )
]

has_group-others :
    (group_name name : String) (gs : List AdvancedChecklistGroup)
    → has_group name gs ≡ false
    → has_group name (others group_name gs) ≡ false
has_group-others group_name name [] h = refl
has_group-others group_name name (g ∷ gs) h = ground (arith, has_group-others group_name name gs)

IsUnique-others :
    (group_name : String) (gs : List AdvancedChecklistGroup)
    → IsUnique gs
    → IsUnique (others group_name gs)
IsUnique-others group_name [] u = tt
IsUnique-others group_name (g ∷ gs) u = elim (Bool-cases (g.name == group_name)) [
  | inl e ↦ rw e (IsUnique-others group_name gs u.1)
  | inr n ↦ rw n (has_group-others group_name g.name gs u.0, IsUnique-others group_name gs u.1)
]

IsUnique-append :
    (g : AdvancedChecklistGroup) (gs : List AdvancedChecklistGroup)
    → has_group g.name gs ≡ false
    → IsUnique gs
    → IsUnique (gs ++ g ∷ [])
IsUnique-append g [] h u = (refl, tt)
IsUnique-append g (x ∷ gs) h u = (
  ground
      (arith, has_group-append x.name gs (g ∷ []), u.0, eq_iff x.name g.name, eq_iff g.name x.name),
  IsUnique-append g gs (ground (arith, h)) u.1,
)

IsUnique-placed :
    (group_name : String) (now : Time) (task : AdvancedChecklistTask)
    (gs : List AdvancedChecklistGroup) (found : Option AdvancedChecklistGroup)
    → get_group group_name gs ≡ found
    → IsUnique gs
    → IsUnique (placed group_name now task gs found)
IsUnique-placed group_name now task gs none h u =
    IsUnique-append (new_group group_name now (task ∷ [])) gs (get_group-has_group group_name gs h)
      u
IsUnique-placed group_name now task gs (some g) h u = IsUnique-prepend_task group_name task gs u

-- A method leaves groups with different names.
record LeavesUnique (r : AdvancedChecklist × Option TaskError) : Type 0 where
  unique : IsUnique r.0.groups

LeavesUnique-if :
    (b : Bool) {r s : AdvancedChecklist × Option TaskError}
    → (b ≡ true → LeavesUnique r)
    → (b ≡ false → LeavesUnique s)
    → LeavesUnique (if b then r else s)
LeavesUnique-if true ur us = ur refl
LeavesUnique-if false ur us = us refl

LeavesUnique-conclude :
    (group_name : String) (f : List AdvancedChecklistTask → List AdvancedChecklistTask) (a b : Bool)
    (c : AdvancedChecklist)
    → IsUnique c.groups
    → LeavesUnique (conclude c a b (map (in_group group_name f) c.groups))
LeavesUnique-conclude group_name f a b c u = record {
  unique = IsUnique-conclude group_name f a b c u;
}

complete_task-LeavesUnique :
    (group_name task_title : String) (c : AdvancedChecklist)
    → IsUnique c.groups
    → LeavesUnique (complete_task group_name task_title c)
complete_task-LeavesUnique group_name task_title c u = rw complete_task_in_group_lem (
    LeavesUnique-if (some_group group_name (completed_already task_title) c.groups)
      (λ _. record { unique = u })
      (λ _. LeavesUnique-conclude group_name (map (mark task_title true)) _ _ c u))

reopen_task-LeavesUnique :
    (group_name task_title : String) (c : AdvancedChecklist)
    → IsUnique c.groups
    → LeavesUnique (reopen_task group_name task_title c)
reopen_task-LeavesUnique group_name task_title c u =
    rw reopen_task_in_group_lem
      (LeavesUnique-conclude group_name (map (mark task_title false)) _ _ c u)

delete_task-LeavesUnique :
    (group_name task_title : String) (c : AdvancedChecklist)
    → IsUnique c.groups
    → LeavesUnique (delete_task group_name task_title c)
delete_task-LeavesUnique group_name task_title c u =
    rw delete_task_in_group_lem (LeavesUnique-conclude group_name (without task_title) _ _ c u)

add_group-LeavesUnique :
    (now : Time) (group_name : String) (c : AdvancedChecklist)
    → IsUnique c.groups
    → LeavesUnique (add_group now group_name c)
unfolding add_group
add_group-LeavesUnique now group_name c u =
    LeavesUnique-if (has_group group_name c.groups) (λ _. record { unique = u })
      (λ n. record { unique = IsUnique-append (new_group group_name now []) c.groups n u })

delete_group-LeavesUnique :
    (group_name : String) (c : AdvancedChecklist)
    → IsUnique c.groups
    → LeavesUnique (delete_group group_name c)
delete_group-LeavesUnique group_name c u = rw delete_group_lem (
    LeavesUnique-if (has_group group_name c.groups)
      (λ _. record { unique = IsUnique-others group_name c.groups u }) (λ _. record { unique = u }))

run-IsUnique :
    (call : Call) (c : AdvancedChecklist) → IsUnique c.groups → IsUnique (run call c).groups
unfolding run add_task
run-IsUnique (add_task_call id now group_name task_title) c u =
    IsUnique-placed group_name now (new_task id now task_title) c.groups
      (get_group group_name c.groups) refl u
run-IsUnique (complete_task_call group_name task_title) c u =
    (complete_task-LeavesUnique group_name task_title c u).unique
run-IsUnique (reopen_task_call group_name task_title) c u =
    (reopen_task-LeavesUnique group_name task_title c u).unique
run-IsUnique (delete_task_call group_name task_title) c u =
    (delete_task-LeavesUnique group_name task_title c u).unique
run-IsUnique (add_group_call now group_name) c u =
    (add_group-LeavesUnique now group_name c u).unique
run-IsUnique (delete_group_call group_name) c u = (delete_group-LeavesUnique group_name c u).unique

-- From a checklist whose groups have different names, whatever methods are called, with whatever
-- names and titles, the groups have different names.
pub run_all-IsUnique :
    (calls : List Call) (c : AdvancedChecklist)
    → IsUnique c.groups
    → IsUnique (run_all calls c).groups
unfolding run_all
run_all-IsUnique [] c u = u
run_all-IsUnique (call ∷ calls) c u = run_all-IsUnique calls (run call c) (run-IsUnique call c u)
