-- ===== src/Tag.antt =====
-- Tags of tickets: backend/internal/domain/tag/tag.go.
pub mod Store
pub mod Service
pub mod Names
mod Tests
use open_help_desk.Base.{Option, Uuid, Time}
use open_help_desk.Base.Text.{Text}

pub record Tag : Type 0 where
  pub id : Uuid
  pub name : Text
  pub created_at : Time
  pub deleted_at : Option Time
