-- ===== src/User/Accounts.antt =====
-- Logins over OIDC: `UpsertOIDCUser` of backend/internal/domain/user/service.go.
pub mod Saved
use open_help_desk.Base.{
  Time, suc, ◌≡◌, refl, true, some, List, [], ◌∷◌, ◌++◌, Option, none, ◌||◌, inl, inr, arith,
  Option-cases, ap, sym, ◌∙◌, Bool-cases, is_none, if◌then◌else◌,
}
use open_help_desk.Base.Table.{find_row, find_row_sound, update_rows}
use open_help_desk.Base.Order.{IsRow, find_row-IsRow, IsRow-update_rows}
use open_help_desk.Base.Text.{Text, is_empty}
use open_help_desk.Exec.{Env, World, ok, pure, Result-cases, ◌>>=◌}
use open_help_desk.Ticket.{staff}
use open_help_desk.User.{User, validate}
use open_help_desk.User.Store
use open_help_desk.User.Store.{
  UserDb, is_free, has_saml_subject, has_oidc_subject, has_email, is_live, user_columns,
}
use open_help_desk.User.Service
use open_help_desk.User.Service.{Libraries, CreateUserInput, normal, is_email_domain_allowed}
use open_help_desk.User.Accounts.Saved.{IsKept, link_oidc_ok, sync_oidc_ok}

module _ (lib : Libraries) (env : Env) (w : World UserDb) where
  -- What the two lookups find: nothing where the database refuses them, and nothing by an empty email.
  abbrev pub by_subject : Text → Option User
  by_subject subject =
      if env.fails_at w.calls then none else find_row (has_oidc_subject subject) w.db.users

  abbrev pub by_email : Text → Option User
  by_email email =
      if is_empty email || env.fails_at (suc w.calls)
      then none
      else find_row (has_email (normal lib email)) w.db.users

  -- The account that a login over OIDC ends with, by what was found and by the table before and after.
  abbrev pub IsOidcAccount :
      Option User → Option User → Text → Text → User → List User → List User → Type 0
  IsOidcAccount (some old) _ subject email u before after =
      IsKept old u old.oidc_subject (normal lib email) after
  IsOidcAccount none (some old) subject email u before after = IsKept old u subject old.email after
  IsOidcAccount none none subject email u before after =
      (u.role ≡ staff)
      × (u.oidc_subject ≡ subject)
      × (u.email ≡ normal lib email)
      × (validate u ≡ ok tt)
      × (after ≡ before ++ u ∷ [])

  insert_oidc_ok :
      (subject email name : Text) (u : User) (v : World UserDb)
      → (Service.insert_oidc lib subject email name env v).0 ≡ ok u
      → IsOidcAccount none none subject email u v.db.users
          (Service.insert_oidc lib subject email name env v).1.db.users
  unfolding Store.create validate ◌>>=◌
  insert_oidc_ok subject email name u v h =
      (ground arith, ground arith, ground arith, ground arith, ground arith)

  oidc_by_email_ok :
      (subject email name : Text) (u : User)
      → let m =
          Service.oidc_by_email lib subject email name env (record w { calls = suc w.calls }) in
        m.0 ≡ ok u → IsOidcAccount none (by_email email) subject email u w.db.users m.1.db.users
  unfolding Store.get_by_email ◌>>=◌
  oidc_by_email_ok subject email name u h =
      let first : World UserDb = record w { calls = suc w.calls } in
      let second : World UserDb = record w { calls = suc (suc w.calls) } in
      let inserted : (v : World UserDb)
          → v.db ≡ w.db
          → Service.oidc_by_email lib subject email name env first
            ≡ Service.insert_oidc lib subject email name env v
          → by_email email ≡ none
          → IsOidcAccount none (by_email email) subject email u w.db.users
              (Service.oidc_by_email lib subject email name env first).1.db.users =
        λ v here same nothing. rw nothing (
          rw same (
            rw (sym here)
              (insert_oidc_ok subject email name u v (ap (λ r. r.0) (sym same) ∙ h)))) in
      elim (Bool-cases (is_empty email)) [
        | inl without ↦ inserted first refl (ground arith) (ground arith)
        | inr given ↦ elim (Bool-cases (env.fails_at (suc w.calls))) [
          | inl refused ↦ inserted second refl (ground arith) (ground arith)
          | inr done ↦ elim (Option-cases (find_row (has_email (normal lib email)) w.db.users)) [
            | inl unknown ↦ inserted second refl (ground arith) (ground arith)
            | inr (old, there) ↦
                let test = has_email (normal lib email) in
                let hit = find_row_sound test w.db.users old there in
                let same : Service.oidc_by_email lib subject email name env first
                    ≡ Service.link_oidc lib subject name old env second =
                  ground arith in
                let known : by_email email ≡ some old = ground arith in
                rw known (
                  rw same (
                    link_oidc_ok lib env subject name old u second (ap (λ r. r.0) (sym same) ∙ h)
                      (find_row-IsRow test w.db.users old there) (ground arith)))
          ]
        ]
      ]

  -- A login over OIDC that succeeds, whatever the database refuses: the account that is found by the
  -- subject or, only if none is, by a given email keeps its id, role and password; found by the subject
  -- it gets the email of the login, and found by the email it gets the subject; and so it stands in
  -- the table. If neither lookup finds an account, a valid one with the staff role, the subject and
  -- the email is added as the last row, whatever the email's domain. A lookup that the database
  -- refuses counts as one that finds nothing.
  pub upsert_oidc_user_ok :
      (subject email name : Text) (u : User)
      → (Service.upsert_oidc_user lib subject email name env w).0 ≡ ok u
      → IsOidcAccount
          (by_subject subject)
          (by_email email)
          subject
          email
          u
          w.db.users
          (Service.upsert_oidc_user lib subject email name env w).1.db.users
  unfolding Service.upsert_oidc_user Store.get_by_oidc_subject ◌>>=◌
  upsert_oidc_user_ok subject email name u h =
      let second : World UserDb = record w { calls = suc w.calls } in
      let searched : Service.upsert_oidc_user lib subject email name env w
            ≡ Service.oidc_by_email lib subject email name env second
          → by_subject subject ≡ none
          → IsOidcAccount (by_subject subject) (by_email email) subject email u w.db.users
              (Service.upsert_oidc_user lib subject email name env w).1.db.users =
        λ same nothing.
          rw nothing
            (rw same (oidc_by_email_ok subject email name u (ap (λ r. r.0) (sym same) ∙ h))) in
      elim (Bool-cases (env.fails_at w.calls)) [
        | inl refused ↦ searched (ground arith) (ground arith)
        | inr done ↦ elim (Option-cases (find_row (has_oidc_subject subject) w.db.users)) [
          | inl unknown ↦ searched (ground arith) (ground arith)
          | inr (old, there) ↦
              let hit = find_row_sound (has_oidc_subject subject) w.db.users old there in
              let same : Service.upsert_oidc_user lib subject email name env w
                  ≡ Service.sync_oidc lib email name old env second =
                ground arith in
              let known : by_subject subject ≡ some old = ground arith in
              rw known (
                rw same (
                  sync_oidc_ok lib env email name old u second (ap (λ r. r.0) (sym same) ∙ h)
                    (find_row-IsRow (has_oidc_subject subject) w.db.users old there)
                    (ground arith)))
        ]
      ]
