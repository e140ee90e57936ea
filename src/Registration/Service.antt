-- ===== src/Registration/Service.antt =====
-- The registration service: backend/internal/domain/registration/service.go.
use open_help_desk.Base.{
  Bool, false, not, none, some, List, [], ◌∷◌, ◌++◌, Uuid, ◌+◌, ltb, is_some, if◌then◌else◌,
}
use open_help_desk.Base.Table.{find_row}
use open_help_desk.Base.Text.{Text, text_eq, trim_space, is_empty}
use open_help_desk.Exec.{
  Done, Error, Exec, pure, raise, raise_if, try, attempt, write, now, fresh, zoom, mail,
  domain_not_allowed, open_registration_required, token_expired, ◌>>=◌, ◌>>◌,
}
use open_help_desk.Ticket.{user}
use open_help_desk.User.{User}
use open_help_desk.User.Store.{UserDb}
use open_help_desk.User.Service
use open_help_desk.User.Service.{Libraries, CreateUserInput, normal, after_at}
use open_help_desk.Registration.{PendingRegistration, token_ttl}
use open_help_desk.Registration.Store
use open_help_desk.Registration.Store.{RegistrationDb}

-- Code of the user service.
abbrev pub on_users : {A : Type 0} → Exec UserDb A → Exec RegistrationDb A
on_users m = zoom (λ s. s.users) (λ us s. record s { users = us }) m

module _ (lib : Libraries) (sql_lower : Text → Text) where
  -- Unlike the user service's test, this one takes the email as it is.
  unfoldable pub is_registration_allowed : Text → List Text → Bool → Bool
  unfolding normal after_at
  is_registration_allowed email [] open_reg = open_reg
  is_registration_allowed email (d ∷ ds) open_reg = elim (after_at email) [
    | none ↦ false
    | some domain ↦
        if is_empty domain
        then false
        else is_some (find_row (λ a. text_eq (normal lib a) domain) (d ∷ ds))
  ]

  -- The error of an email that is not allowed.
  abbrev pub refusal : List Text → Error
  refusal [] = open_registration_required
  refusal (d ∷ ds) = domain_not_allowed

  -- A mail that cannot be sent is an error.
  abbrev pub send_verification_email : Text → Uuid → Exec RegistrationDb Done
  send_verification_email to token = do
    sent ← try (write (λ s. record s { mails = s.mails ++ record { to = to; token = token } ∷ [] }))
    elim sent [ none ↦ raise mail | some done ↦ pure tt ]

  unfoldable pub register : Text → Text → Text → List Text → Bool → Exec RegistrationDb Done
  unfolding normal trim_space is_registration_allowed Store.upsert
  register email display_name password allowed open_reg = do
    raise_if (not (is_registration_allowed (normal lib email) allowed open_reg)) (refusal allowed)
    hash ← on_users (Service.hash_password lib password)
    at ← now
    id ← fresh
    token ← fresh
    stored ← Store.upsert sql_lower (record {
      id = id;
      email = normal lib email;
      display_name = trim_space display_name;
      password_hash = hash;
      token = token;
      expires_at = at + token_ttl;
      created_at = at;
    })
    send_verification_email (normal lib email) stored.token

  -- The account of a registration.
  abbrev pub verified_input : PendingRegistration → CreateUserInput
  verified_input r = record {
    email = r.email;
    display_name = r.display_name;
    role = user;
    password = [];
    password_hash = r.password_hash;
    saml_subject = [];
    oidc_subject = [];
  }

  unfoldable pub verify : Uuid → Exec RegistrationDb User
  unfolding Service.create Store.get_by_token Store.delete
  verify token = do
    r ← Store.get_by_token token
    at ← now
    raise_if (ltb r.expires_at at) token_expired
    u ← on_users (Service.create lib (verified_input r))
    attempt (Store.delete r.id)
    pure u
