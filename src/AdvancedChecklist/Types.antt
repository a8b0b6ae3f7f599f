-- ===== src/AdvancedChecklist/Types.antt =====
-- The data of items/advancedChecklist.go. A time is a number of nanoseconds after 1970.
use gosn_v.Prelude.{ℕ, String, Bool, List}

abbrev pub Time : Type 0
Time = ℕ

pub record AdvancedChecklistTask : Type 0 where
  pub id : String
  pub description : String
  pub completed : Bool
  pub created_at : Time
  pub updated_at : Time

pub record DefaultSection : Type 0 where
  pub id : String
  pub name : String

pub record AdvancedChecklistSection : Type 0 where
  pub id : String
  pub name : String
  pub collapsed : Bool

pub record AdvancedChecklistGroup : Type 0 where
  pub name : String
  pub last_active : Time
  pub sections : List AdvancedChecklistSection
  pub tasks : List AdvancedChecklistTask
  pub collapsed : Bool

-- The field Duplicates, which no operation reads or writes, is left out.
pub record AdvancedChecklist : Type 0 where
  pub uuid : String
  pub title : String
  pub schema_version : String
  pub groups : List AdvancedChecklistGroup
  pub default_sections : List DefaultSection
  pub updated_at : Time
  pub trashed : Bool
