-- ===== src/Category.antt =====
-- The classification of tickets in categories, types and items:
-- backend/internal/domain/category/category.go. The source's `Type` and `Item` are `CtiType` and
-- `CtiItem`.
pub mod Store
pub mod Service
pub mod Operation
pub mod Tree
mod Tests
use open_help_desk.Base.{Bool, Uuid}
use open_help_desk.Base.Int.{ℤ}
use open_help_desk.Base.Text.{Text}

pub record Category : Type 0 where
  pub id : Uuid
  pub name : Text
  pub sort_order : ℤ
  pub active : Bool

pub record CtiType : Type 0 where
  pub id : Uuid
  pub category_id : Uuid
  pub name : Text
  pub sort_order : ℤ
  pub active : Bool

pub record CtiItem : Type 0 where
  pub id : Uuid
  pub type_id : Uuid
  pub name : Text
  pub sort_order : ℤ
  pub active : Bool
