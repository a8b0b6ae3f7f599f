-- ===== src/Checklist.antt =====
-- The checklists that are kept in notes: items/checklist.go (simple task lists) and
-- items/advancedChecklist.go (checklists with groups).
pub mod Task
pub mod SortSlice
pub mod Tasklist
pub mod NoteText
mod Examples
