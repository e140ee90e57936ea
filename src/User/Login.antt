-- ===== src/User/Login.antt =====
-- Who may log in: `VerifyPassword` and `VerifyMFACode` of
-- backend/internal/domain/user/service.go.
use open_help_desk.Base.{
  ℕ, suc, ◌≡◌, ◌↔◌, true, false, none, some, inl, inr, Uuid, Time, arith, Option-cases,
}
use open_help_desk.Base.Table.{find_row}
use open_help_desk.Base.Text.{Text}
use open_help_desk.Exec.{Env, World, calm, ok, ◌>>=◌}
use open_help_desk.User.{User, is_active}
use open_help_desk.User.Store
use open_help_desk.User.Store.{UserDb, has_email, is_live}
use open_help_desk.User.Service.{Libraries, normal, verify_password, verify_mfa_code}

module _ (lib : Libraries) where
  -- A password is accepted, by a database that refuses nothing, exactly for the account that is not
  -- deleted and has the email, trimmed and in lower case, where the account is not disabled and the
  -- password fits its hash; and whatever happens, no account is changed.
  pub verify_password_iff :
      (email plain : Text) (u : User) (now_at : ℕ → Time) (uuid_at : ℕ → Uuid) (w : World UserDb)
      → (((verify_password lib email plain (calm now_at uuid_at) w).0 ≡ ok u) ↔ (
          (find_row (has_email (normal lib email)) w.db.users ≡ some u)
          × (u.disabled ≡ false)
          × (u.deleted_at ≡ none)
          × (lib.compare_hash u.password_hash plain ≡ true)))
        × ((env : Env) → (verify_password lib email plain env w).1.db ≡ w.db)
  unfolding verify_password is_active Store.get_by_email ◌>>=◌
  verify_password_iff email plain u now_at uuid_at w = (
    (
      λ h. elim (Option-cases (find_row (has_email (normal lib email)) w.db.users)) [
        | inl e ↦ absurd (ground arith)
        | inr (v, e) ↦ ground arith
      ],
      λ p. ground arith,
    ),
    λ env. ground arith,
  )

  -- A second factor is accepted, by a database that refuses nothing, exactly for an account that is
  -- not deleted and has its second factor enabled, where the code fits its secret at the time of
  -- the call; and whatever happens, no account is changed.
  verify_mfa_code_iff :
      (id : Uuid) (code : Text) (now_at : ℕ → Time) (uuid_at : ℕ → Uuid) (w : World UserDb)
      → (((verify_mfa_code lib id code (calm now_at uuid_at) w).0 ≡ ok tt) ↔ (
          (u : User) × (find_row (is_live id) w.db.users ≡ some u)
          × (u.mfa_enabled ≡ true)
          × (lib.validate_code (now_at (suc w.calls)) code u.mfa_secret ≡ true)))
        × ((env : Env) → (verify_mfa_code lib id code env w).1.db ≡ w.db)
  unfolding verify_mfa_code Store.get_by_id ◌>>=◌
  verify_mfa_code_iff id code now_at uuid_at w = (
    (
      λ h. elim (Option-cases (find_row (is_live id) w.db.users)) [
        | inl e ↦ absurd (ground arith)
        | inr (u, e) ↦ (u, e, ground arith, ground arith)
      ],
      λ p. ground arith,
    ),
    λ env. ground arith,
  )
