-- ===== src/User/Service.antt =====
-- The user service: backend/internal/domain/user/service.go. The libraries that it calls
-- (`unicode`, bcrypt and TOTP) are a parameter.
use open_help_desk.Base.{
  ℕ, Bool, true, false, not, Option, none, some, List, [], ◌∷◌, Uuid, Time, if◌then◌else◌, ◌==◌,
  is_some, ltb,
}
use open_help_desk.Base.Table.{find_row}
use open_help_desk.Base.Text.{Text, text_eq, trim_space, to_lower, is_empty}
use open_help_desk.Exec.{
  Done, Exec, pure, raise, lift, raise_if, try, fresh, now, hashing, account_disabled,
  invalid_credentials, mfa_not_started, mfa_not_enabled, invalid_code, generating,
  password_required, domain_not_allowed, ◌>>=◌, ◌>>◌,
}
use open_help_desk.Ticket.{Role, staff, user}
use open_help_desk.User.{User, is_active, validate}
use open_help_desk.User.Store
use open_help_desk.User.Store.{UserDb}

-- What the service calls of third-party packages. A random draw is a 128-bit number.
pub record Libraries : Type 0 where
  -- `unicode.ToLower`
  pub lower : ℕ → ℕ
  -- `bcrypt.GenerateFromPassword`, from the salt and the password
  pub generate_hash : ℕ → Text → Option Text
  -- `bcrypt.CompareHashAndPassword(hash, password) == nil`
  pub compare_hash : Text → Text → Bool
  -- `totp.Generate`, from the random draw, the issuer and the account: the secret and the URL
  pub generate_key : ℕ → Text → Text → Option (Text × Text)
  -- `totp.Validate(code, secret)` at a time
  pub validate_code : Time → Text → Text → Bool

pub record CreateUserInput : Type 0 where
  pub email : Text
  pub display_name : Text
  pub role : Role
  pub password : Text
  pub password_hash : Text
  pub saml_subject : Text
  pub oidc_subject : Text

-- The domain of `strings.SplitN(email, "@", 2)`.
unfoldable pub after_at : Text → Option Text
after_at [] = none
after_at (c ∷ s) = if c == 64 then some s else after_at s

module _ (lib : Libraries) where
  -- `strings.ToLower(strings.TrimSpace(s))`
  unfoldable pub normal : Text → Text
  unfolding trim_space to_lower
  normal s = to_lower lib.lower (trim_space s)

  unfoldable pub is_email_domain_allowed : Text → List Text → Bool
  unfolding normal after_at
  is_email_domain_allowed email [] = true
  is_email_domain_allowed email (d ∷ ds) = elim (after_at (normal email)) [
    | none ↦ false
    | some domain ↦
        if is_empty domain
        then false
        else is_some (find_row (λ a. text_eq (normal a) domain) (d ∷ ds))
  ]

  -- `bcrypt.GenerateFromPassword`
  abbrev pub hash_password : Text → Exec UserDb Text
  hash_password plain = do
    salt ← fresh
    elim (lib.generate_hash salt plain) [ none ↦ raise hashing | some hash ↦ pure hash ]

  -- The switch on the two passwords of the input.
  abbrev pub initial_hash : CreateUserInput → Exec UserDb Text
  initial_hash i =
      if not (is_empty i.password)
      then hash_password i.password
      else if not (is_empty i.password_hash)
      then pure i.password_hash
      else pure []

  abbrev pub new_user : Uuid → CreateUserInput → Time → Time → User
  new_user id i created updated = record {
    id = id;
    email = normal i.email;
    display_name = trim_space i.display_name;
    role = i.role;
    password_hash = [];
    mfa_secret = [];
    mfa_enabled = false;
    saml_subject = i.saml_subject;
    oidc_subject = i.oidc_subject;
    disabled = false;
    created_at = created;
    updated_at = updated;
    deleted_at = none;
  }

  unfoldable pub create : CreateUserInput → Exec UserDb User
  unfolding normal trim_space validate Store.create
  create i = do
    id ← fresh
    created ← now
    updated ← now
    lift (validate (new_user id i created updated))
    hash ← initial_hash i
    Store.create (record (new_user id i created updated) { password_hash = hash })
    pure (record (new_user id i created updated) { password_hash = hash })

  unfoldable pub set_password : Uuid → Text → Exec UserDb Done
  set_password id plain = do
    u ← Store.get_by_id id
    hash ← hash_password plain
    at ← now
    Store.update (record u { password_hash = hash; updated_at = at })

  unfoldable pub verify_password : Text → Text → Exec UserDb User
  unfolding normal is_active
  verify_password email plain = do
    u ← Store.get_by_email (normal email)
    raise_if (not (is_active u)) account_disabled
    raise_if (not (lib.compare_hash u.password_hash plain)) invalid_credentials
    pure u

  -- `totp.Generate`
  abbrev pub generate_totp : Text → Text → Exec UserDb (Text × Text)
  generate_totp issuer account = do
    draw ← fresh
    elim (lib.generate_key draw issuer account) [ none ↦ raise generating | some key ↦ pure key ]

  unfoldable pub enroll_mfa : Uuid → Text → Exec UserDb (Text × Text)
  enroll_mfa id issuer = do
    u ← Store.get_by_id id
    key ← generate_totp issuer u.email
    at ← now
    Store.update (record u { mfa_secret = key.0; updated_at = at })
    pure key

  unfoldable pub confirm_mfa_enrollment : Uuid → Text → Exec UserDb Done
  confirm_mfa_enrollment id code = do
    u ← Store.get_by_id id
    raise_if (is_empty u.mfa_secret) mfa_not_started
    asked ← now
    raise_if (not (lib.validate_code asked code u.mfa_secret)) invalid_code
    at ← now
    Store.update (record u { mfa_enabled = true; updated_at = at })

  unfoldable pub verify_mfa_code : Uuid → Text → Exec UserDb Done
  verify_mfa_code id code = do
    u ← Store.get_by_id id
    raise_if (not u.mfa_enabled) mfa_not_enabled
    asked ← now
    raise_if (not (lib.validate_code asked code u.mfa_secret)) invalid_code

  -- The user with the profile that the identity provider sends.
  abbrev pub renamed : Text → User → User
  renamed name u = if is_empty name then u else record u { display_name = name }

  -- The account with the email gets the subject.
  abbrev pub link_oidc : Text → Text → User → Exec UserDb User
  link_oidc subject name u = do
    at ← now
    Store.update (record (renamed name u) { oidc_subject = subject; updated_at = at })
    pure (record (renamed name u) { oidc_subject = subject; updated_at = at })

  abbrev pub sync_oidc : Text → Text → User → Exec UserDb User
  sync_oidc email name u = do
    at ← now
    Store.update (record (renamed name u) { email = normal email; updated_at = at })
    pure (record (renamed name u) { email = normal email; updated_at = at })

  -- The input whose user a first login over OIDC creates.
  abbrev pub oidc_input : Text → Text → Text → CreateUserInput
  oidc_input subject email name = record {
    email = email;
    display_name = name;
    role = staff;
    password = [];
    password_hash = [];
    saml_subject = [];
    oidc_subject = subject;
  }

  abbrev pub insert_oidc : Text → Text → Text → Exec UserDb User
  insert_oidc subject email name = do
    id ← fresh
    created ← now
    updated ← now
    lift (validate (new_user id (oidc_input subject email name) created updated))
    Store.create (new_user id (oidc_input subject email name) created updated)
    pure (new_user id (oidc_input subject email name) created updated)

  abbrev pub oidc_by_email : Text → Text → Text → Exec UserDb User
  oidc_by_email subject email name =
      if is_empty email
      then insert_oidc subject email name
      else (try (Store.get_by_email (normal email)) >>= λ known. elim known [
        | some u ↦ link_oidc subject name u
        | none ↦ insert_oidc subject email name
      ])

  unfoldable pub upsert_oidc_user : Text → Text → Text → Exec UserDb User
  unfolding normal trim_space validate Store.get_by_oidc_subject Store.get_by_email Store.update
      Store.create
  upsert_oidc_user subject email name = do
    known ← try (Store.get_by_oidc_subject subject)
    elim known [ some u ↦ sync_oidc email name u | none ↦ oidc_by_email subject email name ]

  abbrev pub sync_saml : Text → Text → User → Exec UserDb User
  sync_saml email name u = do
    at ← now
    Store.update
        (record u { email = normal email; display_name = trim_space name; updated_at = at })
    pure (record u { email = normal email; display_name = trim_space name; updated_at = at })

  abbrev pub saml_input : Text → Text → Text → CreateUserInput
  saml_input subject email name = record {
    email = email;
    display_name = name;
    role = user;
    password = [];
    password_hash = [];
    saml_subject = subject;
    oidc_subject = [];
  }

  abbrev pub insert_saml : Text → Text → Text → List Text → Exec UserDb User
  insert_saml subject email name allowed = do
    raise_if (not (is_email_domain_allowed email allowed)) domain_not_allowed
    create (saml_input subject email name)

  unfoldable pub upsert_saml_user : Text → Text → Text → List Text → Exec UserDb User
  unfolding normal trim_space is_email_domain_allowed create Store.get_by_saml_subject Store.update
  upsert_saml_user subject email name allowed = do
    known ← try (Store.get_by_saml_subject subject)
    elim known [ some u ↦ sync_saml email name u | none ↦ insert_saml subject email name allowed ]

  unfoldable pub admin_set_password : Uuid → Text → Exec UserDb Done
  unfolding trim_space Store.admin_set_password
  admin_set_password id plain = do
    raise_if (is_empty (trim_space plain)) password_required
    hash ← hash_password plain
    Store.admin_set_password id hash

unfoldable pub has_users : Exec UserDb Bool
has_users = do n ← Store.count; pure (ltb 0 n)

unfoldable pub update : User → Exec UserDb Done
unfolding validate
update u = do lift (validate u); at ← now; Store.update (record u { updated_at = at })
