-- ===== src/Checklist/Task.antt =====
-- The data of items/checklist.go. A title is a Go string, that is, a sequence of bytes.
use gosn_v.Prelude.{ℕ, Bool, List}
use gosn_v.Prelude.Bytes.{Bytes}

pub data TaskError : Type 0 where
  missing_content group_not_found task_not_found : TaskError
  task_already_completed task_already_open group_already_exists : TaskError

pub record Task : Type 0 where
  pub title : Bytes
  pub completed : Bool

-- The field Duplicates, which no operation reads or writes, is left out.
pub record Tasklist : Type 0 where
  pub uuid : Bytes
  pub title : Bytes
  pub tasks : List Task
  pub updated_at : ℕ
  pub trashed : Bool
