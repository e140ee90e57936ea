-- ===== src/CustomField.antt =====
-- Custom fields of tickets: backend/internal/domain/customfield/customfield.go.
pub mod Store
pub mod Service
pub mod Values
pub mod Resolution
mod Tests
use open_help_desk.Base.{Bool, true, false, Option, List, Uuid, Time}
use open_help_desk.Base.Int.{ℤ}
use open_help_desk.Base.Text.{Text, codes}

-- A `FieldType`: a string, of which four are valid.
pub data FieldType : Type 0 where
  line area number select : FieldType
  other_type : Text → FieldType

pub data ScopeType : Type 0 where
  category type item : ScopeType
  other_scope : Text → ScopeType

-- `Options` is nil or empty if the column is NULL.
pub record FieldDef : Type 0 where
  pub id : Uuid
  pub name : Text
  pub field_type : FieldType
  pub options : List Text
  pub sort_order : ℤ
  pub active : Bool
  pub created_at : Time

-- `field_def` is filled in by lists.
pub record Assignment : Type 0 where
  pub id : Uuid
  pub field_def_id : Uuid
  pub field_def : Option FieldDef
  pub scope_type : ScopeType
  pub scope_id : Uuid
  pub sort_order : ℤ
  pub visible_on_new : Bool
  pub required_on_new : Bool

pub record TicketFieldValue : Type 0 where
  pub ticket_id : Uuid
  pub field_def_id : Uuid
  pub field_name : Text
  pub field_type : FieldType
  pub options : List Text
  pub value : Text
  pub updated_at : Time

abbrev pub scope_text : ScopeType → Text
scope_text category = codes "category"
scope_text type = codes "type"
scope_text item = codes "item"
scope_text (other_scope t) = t

abbrev pub is_select : FieldType → Bool
is_select select = true
is_select _ = false
