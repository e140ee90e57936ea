-- ===== src/User/Mfa.antt =====
-- Second factors over the life of an account: all operations of
-- backend/internal/domain/user/service.go that write.
use open_help_desk.Base.{
  ℕ, suc, ◌≡◌, refl, Bool, true, false, Option, none, some, List, [], ◌∷◌, Uuid, Time, arith,
  Bool-cases, inl, inr,
}
use open_help_desk.Base.Table.{All, All-update_rows, All-append, find_row}
use open_help_desk.Base.Text.{Text, is_empty}
use open_help_desk.Exec.{
  Env, World, Exec, ok, raise, hashing, generating, mfa_not_started, fresh, now, query, found,
  ◌>>=◌, pure,
}
use open_help_desk.Exec.Keeps.{
  Keeps, keeps_rules, Keeps-bind, Keeps-now, Keeps-checked, Keeps-write, Keeps-lift, Keeps-read,
  Keeps-try_read, Keeps-guard, Keeps-fresh, Keeps-pure, Keeps-raise,
}
use open_help_desk.User.{User}
use open_help_desk.User.Store
use open_help_desk.User.Store.{UserDb, is_live, has_id, user_columns, set_user}
use open_help_desk.User.Service
use open_help_desk.User.Service.{Libraries, CreateUserInput}
use open_help_desk.User.Operation.{
  Operation, create, set_password, admin_set_password, enroll_mfa, confirm_mfa_enrollment,
  upsert_oidc_user, upsert_saml_user, soft_delete, restore, disable, enable, reset_mfa, update, run,
}

-- A second factor that is enabled has a secret.
abbrev pub HasSecret : User → Type 0
HasSecret u = u.mfa_enabled ≡ true → is_empty u.mfa_secret ≡ false

abbrev pub HasSecrets : UserDb → Type 0
HasSecrets s = All HasSecret s.users

-- The keys that `totp.Generate` returns have a secret.
abbrev pub GeneratesSecrets : Libraries → Type 0
GeneratesSecrets lib =
    (draw : ℕ) (issuer account : Text) (key : Text × Text)
    → lib.generate_key draw issuer account ≡ some key
    → is_empty key.0 ≡ false

-- What the caller of `Update` sees to.
abbrev pub IsCareful : Operation → Type 0
IsCareful (update u) = HasSecret u
IsCareful _ = Unit

update-HasSecrets : (u : User) → HasSecret u → Keeps HasSecrets (Store.update u)
unfolding Store.update user_columns
update-HasSecrets u h = Keeps-bind now _ Keeps-now λ at.
    Keeps-checked _ _ _ _ λ s k.
      All-update_rows HasSecret (is_live u.id) (user_columns u at) s.users (λ q live old. h) k

create-HasSecrets : (u : User) → HasSecret u → Keeps HasSecrets (Store.create u)
unfolding Store.create
create-HasSecrets u h = Keeps-checked _ _ _ _ (λ s k. All-append HasSecret s.users _ k (h, tt))

set_user-HasSecrets :
    (id : Uuid) (change : Time → User → User)
    → ((at : Time) (u : User) → HasSecret u → HasSecret (change at u))
    → Keeps HasSecrets (set_user id change)
set_user-HasSecrets id change h = Keeps-bind now _ Keeps-now λ at.
    Keeps-write _
      λ s k. All-update_rows HasSecret (has_id id) (change at) s.users (λ u found_. h at u) k

find_row-HasSecret :
    (test : User → Bool) (us : List User) (u : User)
    → All HasSecret us
    → found (find_row test us) ≡ ok u
    → HasSecret u
unfolding find_row
find_row-HasSecret test [] u h e = absurd (ground arith)
find_row-HasSecret test (q ∷ us) u h e = elim (Bool-cases (test q)) [
  | inl hit ↦ let same : q ≡ u = ground arith in λ on. ground arith
  | inr miss ↦ find_row-HasSecret test us u h.1 (ground arith)
]

-- Code that goes on with a row that it has read.
read-HasSecrets :
    {A : Type 0} (test : User → Bool) (k : User → Exec UserDb A)
    → ((u : User) → HasSecret u → Keeps HasSecrets (k u))
    → Keeps HasSecrets (query (λ s. found (find_row test s.users)) >>= k)
read-HasSecrets test k h = Keeps-read _ k (λ s u p e. h u (find_row-HasSecret test s.users u p e))

module _ (lib : Libraries) where
  hash-HasSecrets : (plain : Text) → Keeps HasSecrets (Service.hash_password lib plain)
  hash-HasSecrets plain = Keeps-bind fresh _ Keeps-fresh λ salt.
      elim (lib.generate_hash salt plain)
        as (λ o. Keeps HasSecrets (elim o [ none ↦ raise hashing | some hash ↦ pure hash ])) [
          | none ↦ Keeps-raise hashing
          | some hash ↦ Keeps-pure hash
        ]

  initial-HasSecrets : (i : CreateUserInput) → Keeps HasSecrets (Service.initial_hash lib i)
  initial-HasSecrets i = search (keeps_rules, hash-HasSecrets) depth 40

  insert-HasSecrets : (u : User) → u.mfa_enabled ≡ false → Keeps HasSecrets (Store.create u)
  insert-HasSecrets u off = create-HasSecrets u (λ on. absurd (ground arith))

  service_create-HasSecrets : (i : CreateUserInput) → Keeps HasSecrets (Service.create lib i)
  unfolding Service.create
  service_create-HasSecrets i =
      search (keeps_rules, Keeps-lift, initial-HasSecrets, insert-HasSecrets) depth 40

  set_password-HasSecrets :
      (id : Uuid) (plain : Text) → Keeps HasSecrets (Service.set_password lib id plain)
  unfolding Service.set_password Store.get_by_id
  set_password-HasSecrets id plain =
      read-HasSecrets (is_live id) _
        λ u h. search (keeps_rules, hash-HasSecrets, update-HasSecrets) depth 40

  confirm-HasSecrets :
      (id : Uuid) (code : Text) → Keeps HasSecrets (Service.confirm_mfa_enrollment lib id code)
  unfolding Service.confirm_mfa_enrollment Store.get_by_id
  confirm-HasSecrets id code = read-HasSecrets (is_live id) _ λ u h.
      Keeps-guard (is_empty u.mfa_secret) mfa_not_started _
        λ e. search (keeps_rules, update-HasSecrets, e) depth 40

  renamed-HasSecret :
      (name : Text) (u : User) → HasSecret u → HasSecret (Service.renamed lib name u)
  renamed-HasSecret [] u h = h
  renamed-HasSecret (c ∷ name) u h = h

  insert_oidc-HasSecrets :
      (subject email name : Text) → Keeps HasSecrets (Service.insert_oidc lib subject email name)
  insert_oidc-HasSecrets subject email name =
      search (keeps_rules, Keeps-lift, insert-HasSecrets) depth 40

  oidc_by_email-HasSecrets :
      (subject email name : Text) → Keeps HasSecrets (Service.oidc_by_email lib subject email name)
  unfolding Store.get_by_email
  oidc_by_email-HasSecrets subject [] name = insert_oidc-HasSecrets subject [] name
  oidc_by_email-HasSecrets subject (c ∷ email) name =
      Keeps-try_read _ _
        (λ s u p e.
          let h = renamed-HasSecret name u (find_row-HasSecret _ s.users u p e) in
          search (keeps_rules, update-HasSecrets) depth 40)
        (insert_oidc-HasSecrets subject (c ∷ email) name)

  oidc-HasSecrets :
      (subject email name : Text)
      → Keeps HasSecrets (Service.upsert_oidc_user lib subject email name)
  unfolding Service.upsert_oidc_user Store.get_by_oidc_subject
  oidc-HasSecrets subject email name =
      Keeps-try_read _ _
        (λ s u p e.
          let h = renamed-HasSecret name u (find_row-HasSecret _ s.users u p e) in
          search (keeps_rules, update-HasSecrets) depth 40)
        (oidc_by_email-HasSecrets subject email name)

  saml-HasSecrets :
      (subject email name : Text) (allowed : List Text)
      → Keeps HasSecrets (Service.upsert_saml_user lib subject email name allowed)
  unfolding Service.upsert_saml_user Store.get_by_saml_subject
  saml-HasSecrets subject email name allowed =
      Keeps-try_read _ _
        (λ s u p e.
          let h = find_row-HasSecret _ s.users u p e in
          search (keeps_rules, update-HasSecrets) depth 40)
        (search (keeps_rules, service_create-HasSecrets) depth 40)

  module _ (real : GeneratesSecrets lib) where
    -- Code that goes on with a key that has been generated.
    generate-HasSecrets :
        {A : Type 0} (issuer account : Text) (k : Text × Text → Exec UserDb A)
        → ((key : Text × Text) → is_empty key.0 ≡ false → Keeps HasSecrets (k key))
        → Keeps HasSecrets (Service.generate_totp lib issuer account >>= k)
    unfolding ◌>>=◌ fresh
    generate-HasSecrets issuer account k h = record {
      at = λ env w p. go env w p (lib.generate_key (env.uuid_at w.calls) issuer account) refl;
    }
      where
        go :
            (env : Env) (w : World UserDb)
            → HasSecrets w.db
            → (o : Option (Text × Text)) → lib.generate_key (env.uuid_at w.calls) issuer account ≡ o
            → HasSecrets
                (((λ env' w'.
                      elim o as (λ x. Exec UserDb (Text × Text)) [
                        | none ↦ raise generating
                        | some key ↦ pure key
                      ]
                        env
                        (record { db = w.db; calls = suc w.calls }))
                    >>= k)
                  env w).1.db
        go env w p none e = p
        go env w p (some key) e =
            (h key (real (env.uuid_at w.calls) issuer account key e)).at env _ p

    enroll-HasSecrets :
        (id : Uuid) (issuer : Text) → Keeps HasSecrets (Service.enroll_mfa lib id issuer)
    unfolding Service.enroll_mfa Store.get_by_id
    enroll-HasSecrets id issuer = read-HasSecrets (is_live id) _ λ u h.
        generate-HasSecrets issuer u.email _
          λ key some_. search (keeps_rules, update-HasSecrets) depth 40

    run-Keeps : (op : Operation) → IsCareful op → Keeps HasSecrets (run lib op)
    unfolding run Store.soft_delete Store.restore Store.disable Store.enable Store.clear_mfa
        Service.update Service.admin_set_password Store.admin_set_password
    run-Keeps (create i) careful = search (keeps_rules, service_create-HasSecrets) depth 40
    run-Keeps (set_password id plain) careful = set_password-HasSecrets id plain
    run-Keeps (admin_set_password id plain) careful =
        search (keeps_rules, hash-HasSecrets, set_user-HasSecrets) depth 40
    run-Keeps (enroll_mfa id issuer) careful = search (keeps_rules, enroll-HasSecrets) depth 40
    run-Keeps (confirm_mfa_enrollment id code) careful = confirm-HasSecrets id code
    run-Keeps (upsert_oidc_user subject email name) careful =
        search (keeps_rules, oidc-HasSecrets) depth 40
    run-Keeps (upsert_saml_user subject email name allowed) careful =
        search (keeps_rules, saml-HasSecrets) depth 40
    run-Keeps (soft_delete id) careful = set_user-HasSecrets id _ (λ at u h. h)
    run-Keeps (restore id) careful = set_user-HasSecrets id _ (λ at u h. h)
    run-Keeps (disable id) careful = set_user-HasSecrets id _ (λ at u h. h)
    run-Keeps (enable id) careful = set_user-HasSecrets id _ (λ at u h. h)
    run-Keeps (reset_mfa id) careful = set_user-HasSecrets id _ (λ at u h on. absurd (ground arith))
    run-Keeps (update u) careful =
        search (keeps_rules, Keeps-lift, update-HasSecrets, careful) depth 40

    -- If every enabled second factor has a secret and `totp.Generate` returns secrets, then no
    -- operation, whether it succeeds or fails and whatever the database refuses, leaves an account
    -- with an enabled second factor and no secret; the callers of `Update` see to it themselves.
    pub run-HasSecrets :
        (op : Operation) (env : Env) (w : World UserDb)
        → IsCareful op
        → HasSecrets w.db
        → HasSecrets (run lib op env w).1.db
    run-HasSecrets op env w careful h = (run-Keeps op careful).at env w h
