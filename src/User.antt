-- ===== src/User.antt =====
-- Accounts: backend/internal/domain/user/user.go and, in the child modules, the table of users and
-- the user service.
pub mod Store
mod Tests
pub mod Service
pub mod Domains
pub mod Login
pub mod Accounts
pub mod Creation
pub mod Operation
pub mod Mfa
pub mod Enrolment
use open_help_desk.Base.{Bool, true, false, not, ◌&&◌, Option, Uuid, Time, is_none, if◌then◌else◌}
use open_help_desk.Base.Text.{Text, trim_space, is_empty}
use open_help_desk.Exec.{Done, Result, ok, err, invalid_user}
use open_help_desk.Ticket.{Role, is_admin, is_staff, is_user}

pub record User : Type 0 where
  pub id : Uuid
  pub email : Text
  pub display_name : Text
  pub role : Role
  pub password_hash : Text
  pub mfa_secret : Text
  pub mfa_enabled : Bool
  pub saml_subject : Text
  pub oidc_subject : Text
  pub disabled : Bool
  pub created_at : Time
  pub updated_at : Time
  pub deleted_at : Option Time

unfoldable pub is_active : User → Bool
is_active u = not u.disabled && is_none u.deleted_at

-- The switch on the role, whose cases are the three constants.
abbrev pub is_known : Role → Bool
is_known r = if is_admin r then true else if is_staff r then true else is_user r

unfoldable pub validate : User → Result Done
unfolding trim_space
validate u =
    if is_empty (trim_space u.email)
    then err invalid_user
    else if is_empty (trim_space u.display_name)
    then err invalid_user
    else if is_known u.role
    then ok tt
    else err invalid_user

unfoldable pub is_local_auth_allowed : User → Bool → Bool
is_local_auth_allowed u saml_enabled = if not saml_enabled then true else is_admin u.role
