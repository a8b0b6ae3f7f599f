-- ===== src/Checklist/Examples.antt =====
-- Runs of the checklist operations at small inputs.
use mathlib.Core.List.{Perm}
use gosn_v.Prelude.{◌≡◌, refl, true, false, List, [], ◌∷◌, arith}
use gosn_v.Prelude.Bytes.{Bytes}
use gosn_v.Checklist.Task.{Task, Tasklist}
use gosn_v.Checklist.SortSlice.{IsOrdered, by_insertion}
use gosn_v.Checklist.NoteText.{ok, open_first, tasks_to_note_text, note_text_to_tasks}
use gosn_v.Checklist.NoteText.RoundTrip.{note_text_to_tasks-tasks_to_note_text}

abbrev milk : Bytes
milk = b'm' ∷ b'i' ∷ []

abbrev tea : Bytes
tea = b't' ∷ b'e' ∷ b'a' ∷ []

abbrev shopping : Tasklist
shopping = record {
  uuid = b'u' ∷ [];
  title = b's' ∷ [];
  tasks =
      record { title = milk; completed = false } ∷ record { title = tea; completed = true } ∷ [];
  updated_at = 0;
  trashed = false;
}

note_text_to_tasks-tasks_to_note_text_example :
    (us : List Task) × (note_text_to_tasks by_insertion
        (tasks_to_note_text by_insertion shopping.tasks)
      ≡ ok us)
    × Perm us shopping.tasks
    × IsOrdered open_first us
note_text_to_tasks-tasks_to_note_text_example =
    note_text_to_tasks-tasks_to_note_text by_insertion shopping.tasks (omega arith) refl
