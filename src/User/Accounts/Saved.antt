-- ===== src/User/Accounts/Saved.antt =====
-- How a login over OIDC writes the account that it has found back: `UpsertOIDCUser` of
-- backend/internal/domain/user/service.go.
use open_help_desk.Base.{Time, suc, ◌≡◌, true, List, inl, inr, arith, sym, Bool-cases, is_none}
use open_help_desk.Base.Table.{update_rows}
use open_help_desk.Base.Order.{IsRow, IsRow-update_rows}
use open_help_desk.Base.Text.{Text, is_empty}
use open_help_desk.Exec.{Env, World, ok, pure, Result-cases, ◌>>=◌}
use open_help_desk.User.{User}
use open_help_desk.User.Store
use open_help_desk.User.Store.{
  UserDb, is_free, has_saml_subject, has_oidc_subject, has_email, is_live, user_columns,
}
use open_help_desk.User.Service
use open_help_desk.User.Service.{Libraries, CreateUserInput, normal, is_email_domain_allowed}

-- The account stands in the table, but for the time of its last change.
abbrev pub IsSaved : User → List User → Type 0
IsSaved u users = (at : Time) × IsRow (record u { updated_at = at }) users

-- The account that was found, with its role and password, the subject and the email
abbrev pub IsKept : User → User → Text → Text → List User → Type 0
IsKept old u subject email users =
    (u.id ≡ old.id)
    × (u.role ≡ old.role)
    × (u.password_hash ≡ old.password_hash)
    × (u.oidc_subject ≡ subject)
    × (u.email ≡ email)
    × IsSaved u users

module _ (lib : Libraries) (env : Env) where
  saved :
      (old u : User) (v : World UserDb)
      → (Store.update u env v).0 ≡ ok tt
      → IsRow old v.db.users
      → is_live u.id old ≡ true
      → ((at : Time) → user_columns u at old ≡ record u { updated_at = at })
      → IsSaved u (Store.update u env v).1.db.users
  unfolding Store.update ◌>>=◌
  saved old u v h row live same =
      let at = env.now_at v.calls in
      let hit = IsRow-update_rows (is_live u.id) (user_columns u at) v.db.users old row live in
      let written : (Store.update u env v).1.db.users
          ≡ update_rows (is_live u.id) (user_columns u at) v.db.users =
        ground arith in
      (at, rw written (rw (sym (same at)) hit))

  -- An update whose result is returned.
  IsSaved-pure :
      (old u' u : User) (v : World UserDb)
      → ((Store.update u' >>= λ _. pure u') env v).0 ≡ ok u
      → IsRow old v.db.users
      → is_live u'.id old ≡ true
      → ((at : Time) → user_columns u' at old ≡ record u' { updated_at = at })
      → (u ≡ u') × IsSaved u ((Store.update u' >>= λ _. pure u') env v).1.db.users
  unfolding ◌>>=◌
  IsSaved-pure old u' u v h row live same = elim (Result-cases (Store.update u' env v).0) [
    | inr (e, refused) ↦ absurd (ground arith)
    | inl (d, done) ↦
        let is : u ≡ u' = ground arith in
        let end : ((Store.update u' >>= λ _. pure u') env v).1.db.users
            ≡ (Store.update u' env v).1.db.users =
          ground arith in
        (is, rw is (rw end (saved old u' v done row live same)))
  ]

  -- The account after a login, as it was found.
  abbrev linked : Text → Text → User → Time → User
  linked subject name old at = record (Service.renamed lib name old) {
    oidc_subject = subject;
    updated_at = at;
  }

  abbrev synced : Text → Text → User → Time → User
  synced email name old at = record (Service.renamed lib name old) {
    email = normal lib email;
    updated_at = at;
  }

  linked_columns :
      (subject name : Text) (old : User) (t at : Time)
      → user_columns (linked subject name old t) at old ≡ linked subject name old at
  unfolding user_columns
  linked_columns subject name old t at = elim (Bool-cases (is_empty name)) [
    | inl unnamed ↦ ground arith
    | inr named ↦ ground arith
  ]

  synced_columns :
      (email name : Text) (old : User) (t at : Time)
      → user_columns (synced email name old t) at old ≡ synced email name old at
  unfolding user_columns
  synced_columns email name old t at = elim (Bool-cases (is_empty name)) [
    | inl unnamed ↦ ground arith
    | inr named ↦ ground arith
  ]

  renamed-id :
      (name : Text) (old : User)
      → let u = Service.renamed lib name old in
        (u.id ≡ old.id)
        × (u.role ≡ old.role)
        × (u.email ≡ old.email)
        × (u.password_hash ≡ old.password_hash)
        × (u.oidc_subject ≡ old.oidc_subject)
  renamed-id name old = elim (Bool-cases (is_empty name)) [
    | inl unnamed ↦ ground arith
    | inr named ↦ ground arith
  ]

  pub link_oidc_ok :
      (subject name : Text) (old u : User) (v : World UserDb)
      → (Service.link_oidc lib subject name old env v).0 ≡ ok u
      → IsRow old v.db.users
      → is_none old.deleted_at ≡ true
      → IsKept old u subject old.email (Service.link_oidc lib subject name old env v).1.db.users
  unfolding ◌>>=◌
  link_oidc_ok subject name old u v h row live =
      let t = env.now_at v.calls in
      let (is, stands) =
        IsSaved-pure old (linked subject name old t) u (record v { calls = suc v.calls }) h row
          (ground (arith, renamed-id name old)) (linked_columns subject name old t) in
      let (id, role, email, hash, sub) = renamed-id name old in
      (ground arith, ground arith, ground arith, ground arith, ground arith, stands)

  pub sync_oidc_ok :
      (email name : Text) (old u : User) (v : World UserDb)
      → (Service.sync_oidc lib email name old env v).0 ≡ ok u
      → IsRow old v.db.users
      → is_none old.deleted_at ≡ true
      → IsKept old u old.oidc_subject
          (normal lib email)
          (Service.sync_oidc lib email name old env v).1.db.users
  unfolding ◌>>=◌
  sync_oidc_ok email name old u v h row live =
      let t = env.now_at v.calls in
      let (is, stands) =
        IsSaved-pure old (synced email name old t) u (record v { calls = suc v.calls }) h row
          (ground (arith, renamed-id name old)) (synced_columns email name old t) in
      let (id, role, address, hash, sub) = renamed-id name old in
      (ground arith, ground arith, ground arith, ground arith, ground arith, stands)
