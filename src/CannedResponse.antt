-- ===== src/CannedResponse.antt =====
-- Reply templates: backend/internal/domain/cannedresponse/cannedresponse.go.
pub mod Store
pub mod Service
pub mod Picker
pub mod Creation
mod Tests
use open_help_desk.Base.{Bool, true, false, Option, none, some, Uuid, Time, if◌then◌else◌, ◌==◌}
use open_help_desk.Base.Int.{ℤ}
use open_help_desk.Base.Text.{Text}

pub record CannedResponse : Type 0 where
  pub id : Uuid
  pub name : Text
  pub body : Text
  pub category_id : Option Uuid
  pub type_id : Option Uuid
  pub sort_order : ℤ
  pub created_at : Time

-- No category stands for all tickets, and no type for the whole category.
unfoldable pub available : CannedResponse → Uuid → Option Uuid → Bool
available cr category_id type_id = elim cr.category_id [
  | none ↦ true
  | some own ↦
      if own == category_id
      then elim cr.type_id [
        | none ↦ true
        | some own_type ↦ elim type_id [ none ↦ false | some other ↦ own_type == other ]
      ]
      else false
]
