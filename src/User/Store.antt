-- ===== src/User/Store.antt =====
-- The table of users: backend/internal/database/userstore/userstore.go, with the statements of
-- backend/queries/users.sql. The keys that the schema declares unique are the id and the email.
use open_help_desk.Base.{
  ℕ, Bool, true, false, not, ◌&&◌, ◌||◌, none, some, List, [], ◌∷◌, ◌++◌, Uuid, Time, if◌then◌else◌,
  ◌==◌, is_none,
}
use open_help_desk.Base.Table.{find_row, update_rows, count_rows}
use open_help_desk.Base.Text.{Text, text_eq, is_empty}
use open_help_desk.Exec.{Done, Exec, ok, err, database, found, statement, query, write, now, ◌>>=◌}
use open_help_desk.User.{User}

pub record UserDb : Type 0 where
  pub users : List User

-- `WHERE id = $1`, deleted or not
abbrev pub has_id : Uuid → User → Bool
has_id id u = u.id == id

-- `WHERE id = $1 AND deleted_at IS NULL`
abbrev pub is_live : Uuid → User → Bool
is_live id u = (u.id == id) && is_none u.deleted_at

abbrev pub has_email : Text → User → Bool
has_email email u = text_eq u.email email && is_none u.deleted_at

-- `saml_subject = $1 AND saml_subject != '' AND deleted_at IS NULL`
abbrev pub has_saml_subject : Text → User → Bool
has_saml_subject subject u =
    text_eq u.saml_subject subject && not (is_empty u.saml_subject) && is_none u.deleted_at

abbrev pub has_oidc_subject : Text → User → Bool
has_oidc_subject subject u =
    text_eq u.oidc_subject subject && not (is_empty u.oidc_subject) && is_none u.deleted_at

-- The columns that the insertion leaves to their defaults.
abbrev pub inserted : User → User
inserted u = record u { disabled = false; deleted_at = none }

-- No row, deleted ones included, has the key already.
abbrev pub is_free : User → List User → Bool
is_free u us = is_none (find_row (λ q. (q.id == u.id) || text_eq q.email u.email) us)

unfoldable pub create : User → Exec UserDb Done
create u = statement λ s.
    if is_free u s.users
    then (ok tt, record s { users = s.users ++ inserted u ∷ [] })
    else (err database, s)

unfoldable pub get_by_id : Uuid → Exec UserDb User
get_by_id id = query (λ s. found (find_row (is_live id) s.users))

unfoldable pub get_by_id_admin : Uuid → Exec UserDb User
get_by_id_admin id = query (λ s. found (find_row (has_id id) s.users))

unfoldable pub get_by_email : Text → Exec UserDb User
get_by_email email = query (λ s. found (find_row (has_email email) s.users))

unfoldable pub get_by_saml_subject : Text → Exec UserDb User
get_by_saml_subject subject = query (λ s. found (find_row (has_saml_subject subject) s.users))

unfoldable pub get_by_oidc_subject : Text → Exec UserDb User
get_by_oidc_subject subject = query (λ s. found (find_row (has_oidc_subject subject) s.users))

-- The columns that an update sets: not the state of the account.
unfoldable pub user_columns : User → Time → User → User
user_columns u at old = record old {
  email = u.email;
  display_name = u.display_name;
  role = u.role;
  password_hash = u.password_hash;
  mfa_secret = u.mfa_secret;
  mfa_enabled = u.mfa_enabled;
  saml_subject = u.saml_subject;
  oidc_subject = u.oidc_subject;
  updated_at = at;
}

-- The update hits no row, or no other row has the email.
abbrev pub is_email_free : User → List User → Bool
is_email_free u us =
    is_none (find_row (is_live u.id) us)
    || is_none (find_row (λ q. not (q.id == u.id) && text_eq q.email u.email) us)

unfoldable pub update : User → Exec UserDb Done
unfolding user_columns
update u = do
  at ← now
  statement λ s.
      if is_email_free u s.users
      then (ok tt, record s { users = update_rows (is_live u.id) (user_columns u at) s.users })
      else (err database, s)

-- `UPDATE users SET … WHERE id = $1`
abbrev pub set_user : Uuid → (Time → User → User) → Exec UserDb Done
set_user id change = do
  at ← now
  write (λ s. record s { users = update_rows (has_id id) (change at) s.users })

unfoldable pub soft_delete : Uuid → Exec UserDb Done
soft_delete id = set_user id (λ at u. record u { deleted_at = some at })

unfoldable pub restore : Uuid → Exec UserDb Done
restore id = set_user id (λ at u. record u { deleted_at = none; updated_at = at })

unfoldable pub disable : Uuid → Exec UserDb Done
disable id = set_user id (λ at u. record u { disabled = true; updated_at = at })

unfoldable pub enable : Uuid → Exec UserDb Done
enable id = set_user id (λ at u. record u { disabled = false; updated_at = at })

unfoldable pub clear_mfa : Uuid → Exec UserDb Done
clear_mfa id =
    set_user id (λ at u. record u { mfa_secret = []; mfa_enabled = false; updated_at = at })

unfoldable pub admin_set_password : Uuid → Text → Exec UserDb Done
admin_set_password id hash =
    set_user id (λ at u. record u { password_hash = hash; updated_at = at })

unfoldable pub count : Exec UserDb ℕ
count = query (λ s. ok (count_rows (λ u. is_none u.deleted_at && not u.disabled) s.users))
