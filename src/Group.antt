-- ===== src/Group.antt =====
-- Groups of staff and the part of the classification that each one handles:
-- backend/internal/domain/group/group.go.
pub mod Store
pub mod Service
pub mod Scopes
mod Tests
use open_help_desk.Base.{Bool, true, false, Option, none, some, Uuid, if◌then◌else◌, ◌==◌}
use open_help_desk.Base.Text.{Text}

pub record Group : Type 0 where
  pub id : Uuid
  pub name : Text
  pub description : Text

-- No type stands for all types of the category.
pub record GroupScope : Type 0 where
  pub group_id : Uuid
  pub category_id : Uuid
  pub type_id : Option Uuid

unfoldable pub is_in_scope : GroupScope → Uuid → Option Uuid → Bool
is_in_scope s category_id type_id =
    if s.category_id == category_id
    then elim s.type_id [
      | none ↦ true
      | some own ↦ elim type_id [ none ↦ false | some other ↦ own == other ]
    ]
    else false
