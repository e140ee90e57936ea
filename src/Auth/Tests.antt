-- ===== src/Auth/Tests.antt =====
-- The theorem on authentication at a request with an API key.
use open_help_desk.Base.{
  ℕ, ◌≡◌, refl, ◌↔◌, ◌⊎◌, true, false, Option, none, some, [], ◌∷◌, ◌++◌, Uuid, Time,
}
use open_help_desk.Base.Table.{find_row}
use open_help_desk.Base.Text.{Text, codes, text_eq}
use open_help_desk.Exec.{World, calm, ok, try, zoom, now, pure, query, statement, ◌>>=◌}
use open_help_desk.Ticket.{admin, staff, user}
use open_help_desk.User.{User}
use open_help_desk.User.Store as Users
use open_help_desk.Auth.{ApiKey, Claims, Actor}
use open_help_desk.Auth.Store
use open_help_desk.Auth.Middleware.{
  AccessDb, Request, missing, session_auth, api_key_auth, lookup, strip_prefix, authenticate,
  require_role, is_allowed, admitted,
}
use open_help_desk.Auth.Access.{IsKeyOwner, IsClient, authenticate_iff}

abbrev clock : ℕ → Time
clock n = n

abbrev ids : ℕ → Uuid
ids n = n

abbrev hash : Text → Text
hash t = codes "#" ++ t

abbrev verify : Text → Option Claims
verify t = none

abbrev ana : User
ana = record {
  id = 7;
  email = codes "a@x";
  display_name = codes "Ana";
  role = user;
  password_hash = [];
  mfa_secret = [];
  mfa_enabled = false;
  saml_subject = [];
  oidc_subject = [];
  disabled = true;
  created_at = 0;
  updated_at = 0;
  deleted_at = none;
}

abbrev key : ApiKey
key = record {
  id = 1;
  name = [];
  hashed_token = codes "#abc";
  user_id = 7;
  scopes = [];
  last_used_at = none;
  expires_at = some 9;
  created_at = 0;
}

abbrev desk : World AccessDb
desk = record {
  db = record {
    auth = record { api_keys = key ∷ []; clients = []; webhooks = [] };
    users = record { users = ana ∷ [] };
  };
  calls = 0;
}

abbrev request : Request
request = record {
  cookie = record { failed = false; is_new = true; entry = missing };
  authorization = codes "ApiKey abc";
}

abbrev ana_actor : Actor
ana_actor = record { user_id = 7; role = user; mfa_passed = true; client_id = []; scopes = [] }

-- A disabled account acts by its key.
disabled_acts : (authenticate hash verify request (calm clock ids) desk).0 ≡ ok (some ana_actor)
unfolding authenticate session_auth api_key_auth strip_prefix lookup text_eq Store.get_by_hash
    Users.get_by_id find_row try zoom now pure query statement ◌>>=◌
disabled_acts = refl

ana_is_no_admin : require_role (admin ∷ staff ∷ user ∷ []) (some ana_actor) ≡ admitted ana_actor
unfolding require_role is_allowed text_eq
ana_is_no_admin = refl

authenticate_iff_example :
    ((authenticate hash verify request (calm clock ids) desk).0 ≡ ok (some ana_actor)) ↔ (
      (session_auth request.cookie ≡ some ana_actor)
      ⊎ ((session_auth request.cookie ≡ none)
          × (IsKeyOwner hash verify request.authorization desk.db 2 ana_actor
              ⊎ IsClient hash verify request.authorization ana_actor)))
authenticate_iff_example = authenticate_iff hash verify request clock ids desk ana_actor
