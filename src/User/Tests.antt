-- ===== src/User/Tests.antt =====
-- Three accounts and plain stand-ins for the libraries, on which the theorems about accounts are
-- applied.
use open_help_desk.Base.{
  ℕ, ◌+◌, ◌≡◌, refl, Bool, true, false, ◌&&◌, none, some, [], ◌∷◌, ◌++◌, Uuid, Time, if◌then◌else◌,
  leb, inr, arith,
}
use open_help_desk.Base.Table.{find_row}
use open_help_desk.Base.Text.{Text, codes, text_eq, trim_space}
use open_help_desk.Exec.{Env, World, calm, ok, ◌>>=◌}
use open_help_desk.Ticket.{admin, staff, user, Role}
use open_help_desk.User.{User}
use open_help_desk.User.Store
use open_help_desk.User.Store.{UserDb, has_email, is_live, is_free, has_saml_subject}
use open_help_desk.User.Service
use open_help_desk.User.Service.{Libraries, CreateUserInput, normal, is_email_domain_allowed}
use open_help_desk.User.Domains.{is_email_domain_allowed_iff}
use open_help_desk.User.Login.{verify_password_iff}
use open_help_desk.User.Accounts.{upsert_oidc_user_ok, IsOidcAccount}
use open_help_desk.User.Operation
use open_help_desk.User.Operation.{run}
use open_help_desk.User.Mfa.{GeneratesSecrets, HasSecrets, run-HasSecrets}
use open_help_desk.User.Enrolment.{account, enroll_mfa_ok}

-- ASCII letters in lower case; a hash is the password behind a `#`, and a code is its secret.
abbrev library : Libraries
library = record {
  lower = λ c. if leb 65 c && leb c 90 then c + 32 else c;
  generate_hash = λ salt plain. some (35 ∷ plain);
  compare_hash = λ hash plain. text_eq hash (35 ∷ plain);
  generate_key = λ draw issuer name. some (83 ∷ [], issuer ++ name);
  validate_code = λ at code secret. text_eq code secret;
}

abbrev user_of : Uuid → Text → Role → Text → Bool → User
user_of id email role secret enabled = record {
  id = id;
  email = email;
  display_name = codes "Somebody";
  role = role;
  password_hash = codes "#key";
  mfa_secret = secret;
  mfa_enabled = enabled;
  saml_subject = email;
  oidc_subject = [];
  disabled = false;
  created_at = 5;
  updated_at = 5;
  deleted_at = none;
}

abbrev root : User
root = user_of 1 (codes "root@b.org") admin (codes "S") true

abbrev fresh_user : User
fresh_user = user_of 2 (codes "new@b.org") user (codes "S") false

abbrev accounts : World UserDb
accounts = record { db = record { users = root ∷ fresh_user ∷ [] }; calls = 0 }

abbrev clock : ℕ → Time
clock n = 100 + n

abbrev ids : ℕ → Uuid
ids n = 1000 + n

abbrev calm_env : Env
calm_env = calm clock ids

verify_password_iff_example :
    (Service.verify_password library (codes " ROOT@b.org") (codes "key") calm_env accounts).0
    ≡ ok root
unfolding find_row text_eq normal trim_space
verify_password_iff_example =
    (verify_password_iff library (codes " ROOT@b.org") (codes "key") root clock ids accounts).0.1
      (refl, refl, refl, refl)

is_email_domain_allowed_iff_example :
    is_email_domain_allowed library (codes "A@B.org") (codes "c.org" ∷ codes "b.org" ∷ []) ≡ true
unfolding normal trim_space
is_email_domain_allowed_iff_example =
    (is_email_domain_allowed_iff library (codes "A@B.org") (codes "c.org" ∷ codes "b.org" ∷ [])).1 (
      inr (
        codes "a",
        codes "b.org",
        (refl, tt),
        refl,
        (λ e. ground arith),
        (1, codes "b.org", refl, refl),
      ))

abbrev third : User
third = record {
  id = 1000;
  email = codes "third@b.org";
  display_name = codes "Third";
  role = staff;
  password_hash = codes "#key";
  mfa_secret = [];
  mfa_enabled = false;
  saml_subject = [];
  oidc_subject = [];
  disabled = false;
  created_at = 101;
  updated_at = 102;
  deleted_at = none;
}

-- The subject is new, the email is known.
upsert_oidc_user_ok_example :
    IsOidcAccount library calm_env accounts none
      (some fresh_user)
      (codes "sub")
      (codes "new@b.org")
      (record fresh_user { oidc_subject = codes "sub"; updated_at = 102 })
      accounts.db.users
      (Service.upsert_oidc_user library
        (codes "sub")
        (codes "new@b.org")
        []
        calm_env
        accounts).1.db.users
unfolding Service.upsert_oidc_user Store.get_by_oidc_subject Store.get_by_email Store.update ◌>>=◌
    find_row text_eq normal trim_space
upsert_oidc_user_ok_example =
    upsert_oidc_user_ok library calm_env accounts (codes "sub") (codes "new@b.org") []
      (record fresh_user { oidc_subject = codes "sub"; updated_at = 102 }) refl

library-GeneratesSecrets : GeneratesSecrets library
library-GeneratesSecrets draw issuer name key e = ground arith

run-HasSecrets_example :
    HasSecrets (run library (Operation.confirm_mfa_enrollment 2 (codes "S")) calm_env accounts).1.db
run-HasSecrets_example =
    run-HasSecrets library library-GeneratesSecrets (Operation.confirm_mfa_enrollment 2 (codes "S"))
      calm_env accounts tt (λ e. refl, (λ e. refl, tt))

-- The factor of the account is enabled, and stays so.
enroll_mfa_ok_example :
    (u : User) × (u' : User) × (account 1 accounts.db ≡ some u)
    × (account 1 (Service.enroll_mfa library 1 (codes "desk") calm_env accounts).1.db ≡ some u')
    × (u'.mfa_secret ≡ codes "S")
    × (u'.mfa_enabled ≡ u.mfa_enabled)
    × (u'.password_hash ≡ u.password_hash)
unfolding Service.enroll_mfa Store.get_by_id Store.update ◌>>=◌ find_row text_eq
enroll_mfa_ok_example =
    enroll_mfa_ok library calm_env accounts 1 (codes "desk") (codes "S", codes "deskroot@b.org")
      refl
