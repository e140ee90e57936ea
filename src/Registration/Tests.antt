-- ===== src/Registration/Tests.antt =====
-- The theorems on sign-up, applied to an empty help desk.
use open_help_desk.Base.{◌+◌, ◌≤◌, ◌≡◌, refl, true, false, none, some, [], ◌∷◌, ◌++◌, ◌==◌}
use open_help_desk.Base.Table.{find_row}
use open_help_desk.Base.Text.{Text, codes, text_eq, trim_space}
use open_help_desk.Exec.{World, calm, Env, ◌>>=◌}
use open_help_desk.Ticket.{user}
use open_help_desk.User.{User, validate}
use open_help_desk.User.Store.{is_free}
use open_help_desk.User.Service
use open_help_desk.User.Service.{Libraries, normal}
use open_help_desk.Registration.{PendingRegistration}
use open_help_desk.Registration.Store
use open_help_desk.Registration.Store.{RegistrationDb}
use open_help_desk.Registration.Service.{verify}
use open_help_desk.Registration.Signup.{verify_ok}

-- Texts are in lower case already; a hash is the password behind a `#`.
abbrev library : Libraries
library = record {
  lower = λ c. c;
  generate_hash = λ salt plain. some (35 ∷ plain);
  compare_hash = λ hash plain. text_eq hash (35 ∷ plain);
  generate_key = λ draw issuer name. some (83 ∷ [], issuer ++ name);
  validate_code = λ at code secret. text_eq code secret;
}

abbrev lower_text : Text → Text
lower_text s = s

abbrev calm_env : Env
calm_env = calm (λ n. 100 + n) (λ n. 1000 + n)

abbrev pending : PendingRegistration
pending = record {
  id = 7;
  email = codes "a@b.org";
  display_name = codes "A";
  password_hash = codes "#key";
  token = 8;
  expires_at = 500;
  created_at = 90;
}

abbrev waiting : World RegistrationDb
waiting = record {
  db = record { pending = pending ∷ []; users = record { users = [] }; mails = [] };
  calls = 0;
}

abbrev verified : User
verified = record {
  id = 1002;
  email = codes "a@b.org";
  display_name = codes "A";
  role = user;
  password_hash = codes "#key";
  mfa_secret = [];
  mfa_enabled = false;
  saml_subject = [];
  oidc_subject = [];
  disabled = false;
  created_at = 103;
  updated_at = 104;
  deleted_at = none;
}

verify_ok_example :
    (r : PendingRegistration) × (find_row (λ q. q.token == 8) waiting.db.pending ≡ some r)
    × (101 ≤ r.expires_at)
    × (verified.role ≡ user)
    × (verified.email ≡ normal library r.email)
    × (verified.password_hash ≡ r.password_hash)
    × (is_free verified waiting.db.users.users ≡ true)
    × ((verify library lower_text 8 calm_env waiting).1.db.users.users ≡ verified ∷ [])
unfolding verify Service.create Store.get_by_token validate ◌>>=◌ find_row text_eq normal trim_space
    open_help_desk.User.Store.create Store.delete
verify_ok_example = verify_ok library lower_text calm_env waiting 8 verified refl
