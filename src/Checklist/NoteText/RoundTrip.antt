-- ===== src/Checklist/NoteText/RoundTrip.antt =====
-- What TasksToNoteText writes, NoteTextToTasks reads back.
use mathlib.Core.List.Perm
use mathlib.Core.List.{Perm}
use gosn_v.Prelude.{
  ◌≤◌, Bool, true, false, ◌≡◌, refl, ◌∙◌, some, List, [], ◌∷◌, map, arith, length, any, any-append,
  all, eqb,
}
use gosn_v.Prelude.Bytes.{lacks, split, split-append, split_one, index_byte, same}
use gosn_v.Prelude.Perms.{length-perm, all-perm}
use gosn_v.Checklist.Task.{Task}
use gosn_v.Checklist.SortSlice.{SortSlice, IsWeakOrder, IsOrdered}
use gosn_v.Checklist.NoteText.{
  ok, open_first, sort_tasks, task_line, text_of, tasks_to_note_text, parse_line, parse_lines,
  newline, lines_of, note_text_to_tasks,
}

open_first-IsWeakOrder : IsWeakOrder open_first
open_first-IsWeakOrder = record { asym = λ a b h. ground arith; split = λ a b c h. ground arith }

abbrev pub one_line : Task → Bool
one_line t = lacks newline t.title

parse_line-task_line : (t : Task) → parse_line (task_line t) ≡ some t
unfolding parse_line task_line index_byte same
parse_line-task_line t = ground arith

lacks-task_line : (t : Task) → lacks newline (task_line t) ≡ one_line t
unfolding task_line
lacks-task_line t = ground arith

parse_lines-map : (ts : List Task) → parse_lines (map task_line ts) ≡ some ts
unfolding parse_lines
parse_lines-map [] = refl
parse_lines-map (t ∷ ts) = ground (arith, parse_line-task_line t, parse_lines-map ts)

split-text_of :
    (t : Task) (ts : List Task)
    → all one_line (t ∷ ts) ≡ true
    → split (text_of (t ∷ ts)) (newline ∷ []) ≡ task_line t ∷ map task_line ts
unfolding text_of
split-text_of t [] h = split_one newline (task_line t) (ground (arith, lacks-task_line t))
split-text_of t (u ∷ ts) h = ground (
  arith,
  split-append newline (task_line t) (text_of (u ∷ ts)),
  lacks-task_line t,
  split-text_of u ts,
)

text_of_many : (t u : Task) (ts : List Task) → any (eqb newline) (text_of (t ∷ u ∷ ts)) ≡ true
unfolding text_of
text_of_many t u ts =
    ground (arith, any-append (eqb newline) (task_line t) (newline ∷ text_of (u ∷ ts)))

lines_of-text_of :
    (t u : Task) (ts : List Task)
    → all one_line (t ∷ u ∷ ts) ≡ true
    → lines_of (text_of (t ∷ u ∷ ts)) ≡ map task_line (t ∷ u ∷ ts)
lines_of-text_of t u ts h = rw (text_of_many t u ts) (split-text_of t (u ∷ ts) h)

length-text_of : (t : Task) (ts : List Task) → eqb (length (text_of (t ∷ ts))) 0 ≡ false
unfolding text_of task_line
length-text_of t [] = ground arith
length-text_of t (u ∷ ts) = ground arith

module _ (sorter : SortSlice Task) where
  read_back :
      (ts : List Task)
      → 2 ≤ length ts
      → all one_line ts ≡ true
      → note_text_to_tasks sorter (text_of ts) ≡ ok (sort_tasks sorter ts)
  unfolding note_text_to_tasks
  read_back [] h k = elim h [ ]
  read_back (t ∷ []) h k = absurd (omega arith)
  read_back (t ∷ u ∷ ts) h k =
      ground
        (arith, length-text_of t (u ∷ ts), lines_of-text_of t u ts k, parse_lines-map (t ∷ u ∷ ts))

  -- Two tasks or more whose titles hold no newline: what TasksToNoteText writes, NoteTextToTasks
  -- reads back without an error or a panic, as the same tasks, each as often, with no open task
  -- behind a completed one.
  pub note_text_to_tasks-tasks_to_note_text :
      (ts : List Task)
      → 2 ≤ length ts
      → all one_line ts ≡ true
      → (us : List Task) × (note_text_to_tasks sorter (tasks_to_note_text sorter ts) ≡ ok us)
        × Perm us ts
        × IsOrdered open_first us
  unfolding tasks_to_note_text sort_tasks
  note_text_to_tasks-tasks_to_note_text ts h k =
      let sorted = sorter.sort open_first ts in
      let p = sorter.sort-perm open_first ts in
      (
        sorter.sort open_first sorted,
        read_back sorted (rw (length-perm p) h) (all-perm one_line p ∙ k),
        Perm.trans (sorter.sort-perm open_first sorted) p,
        sorter.sort-IsOrdered open_first sorted open_first-IsWeakOrder,
      )
