-- ===== src/Auth.antt =====
-- Sessions, API keys and OAuth clients: backend/internal/domain/auth/session.go, apikey.go and
-- oauth.go, and the actor of backend/internal/middleware/auth.go.
pub mod Store
pub mod Middleware
pub mod Access
mod Tests
use open_help_desk.Base.{Bool, Option, List, Uuid, Time}
use open_help_desk.Base.Text.{Text, codes}
use open_help_desk.Ticket.{Role, admin, staff, user, other_role}

pub record SessionData : Type 0 where
  pub user_id : Uuid
  pub role : Role
  pub mfa_passed : Bool
  pub oidc_state : Text

pub record ApiKey : Type 0 where
  pub id : Uuid
  pub name : Text
  pub hashed_token : Text
  pub user_id : Uuid
  pub scopes : List Text
  pub last_used_at : Option Time
  pub expires_at : Option Time
  pub created_at : Time

pub record OauthClient : Type 0 where
  pub id : Uuid
  pub client_id : Text
  pub hashed_secret : Text
  pub name : Text
  pub scopes : List Text
  pub created_at : Time

-- The part of the claims of an access token that the middleware reads.
pub record Claims : Type 0 where
  pub client_id : Text
  pub scopes : List Text

pub record Actor : Type 0 where
  pub user_id : Uuid
  pub role : Role
  pub mfa_passed : Bool
  pub client_id : Text
  pub scopes : List Text

-- The string of a role, by which Go compares it.
abbrev pub role_text : Role → Text
role_text admin = codes "admin"
role_text staff = codes "staff"
role_text user = codes "user"
role_text (other_role t) = t
