-- ===== src/Auth/Middleware.antt =====
-- The authentication middleware: backend/internal/middleware/auth.go, with the lookup of API keys
-- of backend/cmd/server/main.go. Three libraries are parameters: `hash` is SHA-256 in hexadecimal,
-- `verify` is `VerifyAccessToken` under the server's secret (the JWT package), and a cookie holds
-- what the session store of gorilla/sessions makes of the request. The lookup is never nil, as in
-- main.go.
use open_help_desk.Base.{
  Bool, true, false, ◌||◌, Option, none, some, List, [], ◌∷◌, Time, ltb, if◌then◌else◌, ◌==◌, ℕ,
}
use open_help_desk.Base.Text.{Text, codes, text_eq}
use open_help_desk.Exec.{Exec, pure, try, zoom, now, ◌>>=◌}
use open_help_desk.Ticket.{Role, staff}
use open_help_desk.User.{User}
use open_help_desk.User.Store as Users
use open_help_desk.User.Store.{UserDb}
use open_help_desk.Auth.{SessionData, ApiKey, Claims, Actor, role_text}
use open_help_desk.Auth.Store
use open_help_desk.Auth.Store.{AuthDb}

-- The value under the key "session".
pub data Entry : Type 0 where
  missing foreign : Entry
  session : SessionData → Entry

pub record Cookie : Type 0 where
  pub failed : Bool
  pub is_new : Bool
  pub entry : Entry

pub record Request : Type 0 where
  pub cookie : Cookie
  pub authorization : Text

-- The tables that the middleware reads.
pub record AccessDb : Type 0 where
  pub auth : AuthDb
  pub users : UserDb

abbrev pub session_actor : Entry → Option Actor
session_actor missing = none
session_actor foreign = none
session_actor (session d) = some (record {
  user_id = d.user_id;
  role = d.role;
  mfa_passed = d.mfa_passed;
  client_id = [];
  scopes = [];
})

unfoldable pub session_auth : Cookie → Option Actor
session_auth c = if c.failed || c.is_new then none else session_actor c.entry

-- `strings.HasPrefix`, with what follows the prefix
unfoldable pub strip_prefix : Text → Text → Option Text
strip_prefix [] t = some t
strip_prefix (a ∷ p) [] = none
strip_prefix (a ∷ p) (b ∷ t) = if a == b then strip_prefix p t else none

abbrev pub api_key_prefix : Text
api_key_prefix = codes "ApiKey "

abbrev pub bearer_prefix : Text
bearer_prefix = codes "Bearer "

-- `time.Now().After(*key.ExpiresAt)`, where there is an expiry
abbrev pub is_expired : Option Time → Exec AccessDb Bool
is_expired none = pure false
is_expired (some at) = now >>= λ t. pure (ltb at t)

abbrev pub owner : ApiKey → User → Actor
owner key u = record {
  user_id = u.id;
  role = u.role;
  mfa_passed = true;
  client_id = [];
  scopes = key.scopes;
}

module _ (hash : Text → Text) where
  -- `apiKeyLookup`
  unfoldable pub lookup : Text → Exec AccessDb (ApiKey × User)
  lookup hashed = do
    key ← zoom (λ s. s.auth) (λ auth s. record s { auth = auth }) (Store.get_by_hash hashed)
    u ← zoom (λ s. s.users) (λ users s. record s { users = users }) (Users.get_by_id key.user_id)
    pure (key, u)

  abbrev pub key_actor : Option (ApiKey × User) → Exec AccessDb (Option Actor)
  key_actor none = pure none
  key_actor (some (key, u)) = do
    late ← is_expired key.expires_at
    pure (if late then none else some (owner key u))

  unfoldable pub api_key_auth : Text → Exec AccessDb (Option Actor)
  unfolding strip_prefix lookup
  api_key_auth authorization = elim (strip_prefix api_key_prefix authorization) [
    | none ↦ pure none
    | some token ↦ try (lookup (hash token)) >>= λ r. key_actor r
  ]

module _ (verify : Text → Option Claims) where
  abbrev pub client_actor : Option Claims → Option Actor
  client_actor none = none
  client_actor (some c) = some (record {
    user_id = 0;
    role = staff;
    mfa_passed = true;
    client_id = c.client_id;
    scopes = c.scopes;
  })

  unfoldable pub bearer_auth : Text → Option Actor
  unfolding strip_prefix
  bearer_auth authorization = elim (strip_prefix bearer_prefix authorization) [
    | none ↦ none
    | some token ↦ client_actor (verify token)
  ]

-- The chain: each layer leaves an actor that is set.
module _ (hash : Text → Text) (verify : Text → Option Claims) where
  abbrev pub or_bearer : Request → Option Actor → Option Actor
  or_bearer r none = bearer_auth verify r.authorization
  or_bearer r (some a) = some a

  unfoldable pub authenticate : Request → Exec AccessDb (Option Actor)
  unfolding session_auth api_key_auth bearer_auth
  authenticate r = elim (session_auth r.cookie) [
    | none ↦ api_key_auth hash r.authorization >>= λ a. pure (or_bearer r a)
    | some a ↦ pure (some a)
  ]

-- What a gate answers: the actor, or the status of the refusal.
pub data Gate : Type 0 where
  admitted : Actor → Gate
  refused : ℕ → Gate

unfoldable pub is_allowed : List Role → Role → Bool
is_allowed [] role = false
is_allowed (r ∷ rs) role =
    if text_eq (role_text r) (role_text role) then true else is_allowed rs role

unfoldable pub require_role : List Role → Option Actor → Gate
unfolding is_allowed
require_role roles none = refused 401
require_role roles (some a) = if is_allowed roles a.role then admitted a else refused 403

unfoldable pub require_mfa : Option Actor → Gate
require_mfa none = refused 403
require_mfa (some a) = if a.mfa_passed then admitted a else refused 403
