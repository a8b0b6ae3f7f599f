-- ===== src/Checklist/NoteText.antt =====
-- The note text of a simple task list: Sort, TasksToNoteText, NoteTextToTasks and splitTaskText of
-- items/checklist.go. The sort is an argument, since Go's sort.Slice is not stable.
pub mod RoundTrip
use mathlib.Core.Option
use gosn_v.Prelude.{
  ℕ, zero, suc, ◌+◌, Bool, true, false, not, ◌&&◌, Option, none, some, List, [], ◌∷◌, ◌++◌, map,
  any, length, take, drop, eqb, leb, if◌then◌else◌,
}
use gosn_v.Prelude.Bytes.{Bytes, codes, same, index_byte, split, replace_all}
use gosn_v.Checklist.Task.{Task, TaskError, missing_content}
use gosn_v.Checklist.SortSlice.{SortSlice}

-- The list and the error that a function returns, or a run-time panic (a slice out of range).
pub data Parsed : Type 0 where
  ok : List Task → Parsed
  err : TaskError → Parsed
  panic : Parsed

-- !dt[i].Completed && dt[j].Completed
abbrev pub open_first : Task → Task → Bool
open_first a b = not a.completed && b.completed

unfoldable pub sort_tasks : SortSlice Task → List Task → List Task
sort_tasks sorter ts = sorter.sort open_first ts

abbrev pub newline : ℕ
newline = 10

pub task_line : Task → Bytes
task_line t =
    codes "- [" ++ ((if t.completed then codes "x" else codes " ") ++ (codes "] " ++ t.title))

pub text_of : List Task → Bytes
unfolding task_line
text_of [] = []
text_of (t ∷ []) = task_line t
text_of (t ∷ u ∷ ts) = task_line t ++ newline ∷ text_of (u ∷ ts)

pub tasks_to_note_text : SortSlice Task → List Task → Bytes
unfolding sort_tasks text_of
tasks_to_note_text sorter tasks = text_of (sort_tasks sorter tasks)

-- A newline that is escaped twice, and one that is escaped once, as they stand in the text.
abbrev escaped_newline : Bytes
escaped_newline = 92 ∷ 92 ∷ 110 ∷ []

abbrev written_newline : Bytes
written_newline = 92 ∷ 110 ∷ []

abbrev placeholder : Bytes
placeholder = codes "ESC_NEWLINE_PLACEHOLDER"

pub split_task_text : Bytes → List Bytes
unfolding split replace_all
split_task_text text =
    map (λ part. replace_all part placeholder escaped_newline)
      (split (replace_all text escaped_newline placeholder) written_newline)

-- The byte before the first "]" is the mark, and the title starts two bytes after it. With no "]",
-- or with "]" at the start or at the end of the line, a slice is out of range.
abbrev task_at : Bytes → Option ℕ → Option Task
task_at line none = none
task_at line (some zero) = none
task_at line (some (suc k)) =
    if leb (k + 3) (length line)
    then some
        (record { title = drop (k + 3) line; completed = same (take 1 (drop k line)) (codes "x") })
    else none

pub parse_line : Bytes → Option Task
unfolding index_byte same
parse_line line = task_at line (index_byte b']' line)

pub parse_lines : List Bytes → Option (List Task)
unfolding parse_line
parse_lines [] = some []
parse_lines (line ∷ lines) = elim (parse_line line) [
  | none ↦ none
  | some task ↦ Option.map (λ tasks. task ∷ tasks) (parse_lines lines)
]

abbrev pub lines_of : Bytes → List Bytes
lines_of text = if any (eqb newline) text then split text (newline ∷ []) else split_task_text text

pub note_text_to_tasks : SortSlice Task → Bytes → Parsed
unfolding sort_tasks parse_lines split_task_text split
note_text_to_tasks sorter text =
    if eqb (length text) 0 then err missing_content else elim (parse_lines (lines_of text)) [
      | none ↦ panic
      | some tasks ↦ ok (sort_tasks sorter tasks)
    ]
