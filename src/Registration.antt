-- ===== src/Registration.antt =====
-- Sign-up with email verification: backend/internal/domain/registration, with the table of
-- backend/internal/database/registrationstore/registrationstore.go and the statements of
-- backend/queries/pending_registrations.sql.
pub mod Store
pub mod Service
pub mod Signup
mod Tests
use open_help_desk.Base.{ℕ, ◌*◌, ◌^◌, Uuid, Time}
use open_help_desk.Base.Text.{Text}

pub record PendingRegistration : Type 0 where
  pub id : Uuid
  pub email : Text
  pub display_name : Text
  pub password_hash : Text
  pub token : Uuid
  pub expires_at : Time
  pub created_at : Time

-- A day, in nanoseconds
abbrev pub token_ttl : ℕ
token_ttl = 24 * 3600 * 10 ^ 9
