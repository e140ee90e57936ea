-- ===== src/Registration/Signup.antt =====
-- What a sign-up and its verification do: backend/internal/domain/registration/service.go.
use open_help_desk.Base.{
  suc, ◌≤◌, ◌≡◌, Bool, true, some, List, [], ◌∷◌, ◌++◌, inl, inr, Uuid, arith, Option-cases, ◌==◌,
}
use open_help_desk.Base.Table.{find_row}
use open_help_desk.Base.Text.{Text}
use open_help_desk.Exec.{Env, World, ok, ◌>>=◌}
use open_help_desk.Ticket.{user}
use open_help_desk.User.{User, validate}
use open_help_desk.User.Store.{is_free}
use open_help_desk.User.Service
use open_help_desk.User.Service.{Libraries, normal}
use open_help_desk.Registration.{PendingRegistration}
use open_help_desk.Registration.Store
use open_help_desk.Registration.Store.{RegistrationDb}
use open_help_desk.Registration.Service.{register, verify, is_registration_allowed}

module _ (lib : Libraries) (sql_lower : Text → Text) (env : Env) (w : World RegistrationDb) where
  -- A verification that succeeds found a registration with the token that had not expired at the
  -- time of the call, and added one account, last, with the user role and the registration's email
  -- and password hash; no account, deleted or not, had that email.
  pub verify_ok :
      (token : Uuid) (u : User)
      → (verify lib sql_lower token env w).0 ≡ ok u
      → (r : PendingRegistration) × (find_row (λ q. q.token == token) w.db.pending ≡ some r)
        × (env.now_at (suc w.calls) ≤ r.expires_at)
        × (u.role ≡ user)
        × (u.email ≡ normal lib r.email)
        × (u.password_hash ≡ r.password_hash)
        × (is_free u w.db.users.users ≡ true)
        × ((verify lib sql_lower token env w).1.db.users.users ≡ w.db.users.users ++ u ∷ [])
  unfolding verify Service.create Store.get_by_token validate ◌>>=◌
  verify_ok token u h = elim (Option-cases (find_row (λ q. q.token == token) w.db.pending)) [
    | inl e ↦ absurd (ground arith)
    | inr (r, e) ↦
        (r, e, ground arith, ground arith, ground arith, ground arith, ground arith, ground arith)
  ]

  -- A registration that succeeds is of an allowed email, mails a token to it, and leaves the
  -- accounts as they are.
  register_ok :
      (email name password : Text) (allowed : List Text) (open_reg : Bool)
      → (register lib sql_lower email name password allowed open_reg env w).0 ≡ ok tt
      → let v = (register lib sql_lower email name password allowed open_reg env w).1 in
        (is_registration_allowed lib sql_lower (normal lib email) allowed open_reg ≡ true)
        × (v.db.users.users ≡ w.db.users.users)
        × ((token : Uuid) × (v.db.mails
              ≡ w.db.mails ++ record { to = normal lib email; token = token } ∷ []))
  unfolding register Store.upsert ◌>>=◌
  register_ok email name password allowed open_reg h =
      (ground arith, ground arith, (env.uuid_at (suc (suc (suc w.calls))), ground arith))
