-- ===== src/User/Creation.antt =====
-- New accounts: `Create` and `UpsertSAMLUser` of backend/internal/domain/user/service.go.
use open_help_desk.Base.{
  ℕ, suc, ◌≡◌, true, false, some, List, [], ◌∷◌, ◌++◌, ◌⊎◌, inl, inr, arith, Option-cases,
  Bool-cases,
}
use open_help_desk.Base.Table.{find_row}
use open_help_desk.Base.Text.{Text, is_empty, trim_space}
use open_help_desk.Exec.{Env, World, Error, ok, err, ◌>>=◌}
use open_help_desk.Ticket.{user}
use open_help_desk.User.{User, validate}
use open_help_desk.User.Store
use open_help_desk.User.Store.{
  UserDb, is_free, has_saml_subject, has_oidc_subject, has_email, is_live, user_columns,
}
use open_help_desk.User.Service
use open_help_desk.User.Service.{Libraries, CreateUserInput, normal, is_email_domain_allowed}

module _ (lib : Libraries) (env : Env) (w : World UserDb) where
  -- Where the password hash of a new account comes from.
  abbrev pub HasInitialHash : CreateUserInput → Text → Type 0
  HasInitialHash i hash =
      ((is_empty i.password ≡ false)
        × ((salt : ℕ) × (lib.generate_hash salt i.password ≡ some hash)))
      ⊎ ((is_empty i.password ≡ true) × (hash ≡ i.password_hash))

  -- A creation that succeeds adds the result as the last row and changes no other; the result is
  -- valid, has the input's role, the email in lower case without outer space, no second factor and
  -- a fresh hash of the password, or the given hash without one; and no row, deleted or not, had
  -- its id or its email.
  create_ok :
      (i : CreateUserInput) (u : User)
      → (Service.create lib i env w).0 ≡ ok u
      → ((Service.create lib i env w).1.db.users ≡ w.db.users ++ u ∷ [])
        × (is_free u w.db.users ≡ true)
        × (validate u ≡ ok tt)
        × (u.email ≡ normal lib i.email)
        × (u.role ≡ i.role)
        × (u.mfa_enabled ≡ false)
        × HasInitialHash i u.password_hash
  unfolding Service.create validate Store.create ◌>>=◌
  create_ok i u h = (
    ground arith,
    ground arith,
    ground arith,
    ground arith,
    ground arith,
    ground arith,
    elim (Bool-cases (is_empty i.password)) [
      | inl without ↦ inr (without, ground arith)
      | inr given ↦ inl (given, (env.uuid_at (suc (suc (suc w.calls))), ground arith))
    ],
  )

  -- A creation that fails changes no account.
  create_err :
      (i : CreateUserInput) (e : Error)
      → (Service.create lib i env w).0 ≡ err e
      → (Service.create lib i env w).1.db ≡ w.db
  unfolding Service.create validate Store.create ◌>>=◌
  create_err i e h = ground arith

  -- A login over SAML that succeeds syncs the account with the subject and leaves its role and its
  -- password; without such an account it creates one with the user role, from an allowed domain.
  upsert_saml_user_ok :
      (subject email name : Text) (allowed : List Text) (u : User)
      → (Service.upsert_saml_user lib subject email name allowed env w).0 ≡ ok u
      → ((old : User) × (find_row (has_saml_subject subject) w.db.users ≡ some old)
          × (u.id ≡ old.id)
          × (u.role ≡ old.role)
          × (u.password_hash ≡ old.password_hash)
          × (u.email ≡ normal lib email)
          × (u.display_name ≡ trim_space name))
        ⊎ ((is_email_domain_allowed lib email allowed ≡ true)
            × (u.role ≡ user)
            × (u.saml_subject ≡ subject)
            × ((Service.upsert_saml_user lib subject email name allowed env w).1.db.users
                ≡ w.db.users ++ u ∷ []))
  unfolding Service.upsert_saml_user Service.create Store.get_by_saml_subject Store.update
      Store.create validate ◌>>=◌
  upsert_saml_user_ok subject email name allowed u h = elim (Bool-cases (env.fails_at w.calls)) [
    | inl refused ↦ inr (ground arith)
    | inr done ↦ elim (Option-cases (find_row (has_saml_subject subject) w.db.users)) [
      | inl e ↦ inr (ground arith)
      | inr (old, e) ↦
          inl (old, e, ground arith, ground arith, ground arith, ground arith, ground arith)
    ]
  ]
