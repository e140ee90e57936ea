-- ===== src/User/Enrolment.antt =====
-- Enrolling a second factor and confirming it: `EnrollMFA` and `ConfirmMFAEnrollment` of
-- backend/internal/domain/user/service.go.
use open_help_desk.Base.{
  suc, ◌≡◌, refl, true, false, Option, some, List, [], ◌∷◌, Uuid, Time, arith, Option-cases, inl,
  inr,
}
use open_help_desk.Base.Table.{find_row, find_row_sound, update_rows}
use open_help_desk.Base.Text.{Text, is_empty}
use open_help_desk.Exec.{Env, World, ok, ◌>>=◌}
use open_help_desk.User.{User}
use open_help_desk.User.Store
use open_help_desk.User.Store.{UserDb, is_live, has_id, user_columns, set_user}
use open_help_desk.User.Service
use open_help_desk.User.Service.{Libraries, CreateUserInput}

-- The account of an id, unless it is deleted.
abbrev pub account : Uuid → UserDb → Option User
account id s = find_row (is_live id) s.users

account-update :
    (id : Uuid) (us : List User) (u u' : User) (at : Time)
    → u'.id ≡ id
    → find_row (is_live id) us ≡ some u
    → find_row (is_live id) (update_rows (is_live u'.id) (user_columns u' at) us)
      ≡ some (user_columns u' at u)
unfolding find_row update_rows user_columns
account-update id [] u u' at same h = cc
account-update id (q ∷ us) u u' at same h =
    ground (arith, find_row_sound (is_live id) (q ∷ us) u, account-update id us u u' at same)

module _ (lib : Libraries) (env : Env) (w : World UserDb) where
  -- An enrolment that succeeds replaces the secret at once and leaves the second factor enabled if
  -- it was: an account whose factor is enabled gets an unconfirmed secret.
  pub enroll_mfa_ok :
      (id : Uuid) (issuer : Text) (key : Text × Text)
      → (Service.enroll_mfa lib id issuer env w).0 ≡ ok key
      → (u : User) × (u' : User) × (account id w.db ≡ some u)
        × (account id (Service.enroll_mfa lib id issuer env w).1.db ≡ some u')
        × (u'.mfa_secret ≡ key.0)
        × (u'.mfa_enabled ≡ u.mfa_enabled)
        × (u'.password_hash ≡ u.password_hash)
  unfolding Service.enroll_mfa Store.get_by_id Store.update ◌>>=◌
  enroll_mfa_ok id issuer key h = elim (Option-cases (account id w.db)) [
    | inl e ↦ absurd (ground arith)
    | inr (u, e) ↦
        let live = find_row_sound (is_live id) w.db.users u e in
        let t2 = env.now_at (suc (suc w.calls)) in
        let t3 = env.now_at (suc (suc (suc w.calls))) in
        let back =
          account-update id w.db.users u (record u { mfa_secret = key.0; updated_at = t2 }) t3
            (ground arith) e in
        (
          u,
          user_columns (record u { mfa_secret = key.0; updated_at = t2 }) t3 u,
          e,
          ground arith,
          refl,
          refl,
          refl,
        )
  ]

  -- A confirmation that succeeds enables the second factor of an account that has a secret which
  -- the code fits, and leaves the secret and the password as they are.
  confirm_mfa_enrollment_ok :
      (id : Uuid) (code : Text)
      → (Service.confirm_mfa_enrollment lib id code env w).0 ≡ ok tt
      → (u : User) × (u' : User) × (account id w.db ≡ some u)
        × (is_empty u.mfa_secret ≡ false)
        × (lib.validate_code (env.now_at (suc w.calls)) code u.mfa_secret ≡ true)
        × (account id (Service.confirm_mfa_enrollment lib id code env w).1.db ≡ some u')
        × (u'.mfa_enabled ≡ true)
        × (u'.mfa_secret ≡ u.mfa_secret)
        × (u'.password_hash ≡ u.password_hash)
  unfolding Service.confirm_mfa_enrollment Store.get_by_id Store.update ◌>>=◌
  confirm_mfa_enrollment_ok id code h = elim (Option-cases (account id w.db)) [
    | inl e ↦ absurd (ground arith)
    | inr (u, e) ↦
        let live = find_row_sound (is_live id) w.db.users u e in
        let t2 = env.now_at (suc (suc w.calls)) in
        let t3 = env.now_at (suc (suc (suc w.calls))) in
        let back =
          account-update id w.db.users u (record u { mfa_enabled = true; updated_at = t2 }) t3
            (ground arith) e in
        (
          u,
          user_columns (record u { mfa_enabled = true; updated_at = t2 }) t3 u,
          e,
          ground arith,
          ground arith,
          ground arith,
          refl,
          refl,
          refl,
        )
  ]
