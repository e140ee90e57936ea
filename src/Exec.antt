-- ===== src/Exec.antt =====
-- Effectful code: what a service method does with its store, the clock and fresh identifiers.
-- The outside world answers by the number of calls made so far, so that two calls may differ.
pub mod Keeps
pub mod Triple
pub mod Total
use open_help_desk.Base.{
  ℕ, suc, ◌≡◌, refl, ◌⊎◌, inl, inr, Bool, true, false, Option, none, some, Uuid, Time,
  if◌then◌else◌,
}

-- What a Go function returns that returns only an error.
abbrev pub Done : Type 0
Done = Unit

-- The errors of the services: one constructor for each sentinel error of the program and for each
-- message that no sentinel wraps. `database` is any failure of a statement but a missing row.
pub data Error : Type 0 where
  database not_found forbidden ticket_closed validation : Error
  self_link ticket_not_closed system_status status_in_use status_not_found : Error
  name_required target_not_positive : Error
  invalid_user hashing account_disabled invalid_credentials : Error
  mfa_not_started mfa_not_enabled invalid_code generating password_required : Error
  domain_not_allowed open_registration_required token_expired mail : Error
  invalid_field_type options_required field_deactivated invalid_option : Error
  tag_deleted already_registered parse_failed : Error

pub data Result {ℓ} (A : Type ℓ) : Type ℓ where
  ok : A → Result A
  err : Error → Result A

-- To split on a result and keep the equation.
pub Result-cases {ℓ} :
    {A : Type ℓ} (r : Result A) → ((a : A) × (r ≡ ok a)) ⊎ ((e : Error) × (r ≡ err e))
Result-cases (ok a) = inl (a, refl)
Result-cases (err e) = inr (e, refl)

-- `time.Now()`, `uuid.New()` and whether the database refuses the statement, by call number.
pub record Env : Type 0 where
  pub now_at : ℕ → Time
  pub uuid_at : ℕ → Uuid
  pub fails_at : ℕ → Bool

-- A world whose database refuses no statement.
abbrev pub calm : (ℕ → Time) → (ℕ → Uuid) → Env
calm now_at uuid_at = record { now_at = now_at; uuid_at = uuid_at; fails_at = λ n. false }

pub record World {ℓ} (S : Type ℓ) : Type ℓ where
  pub db : S
  pub calls : ℕ

abbrev pub Exec {ℓ} : Type ℓ → Type ℓ → Type ℓ
Exec S A = Env → World S → Result A × World S

module _ {ℓ} {S A : Type ℓ} where
  unfoldable pub pure : A → Exec S A
  pure a env w = (ok a, w)

  unfoldable pub raise : Error → Exec S A
  raise e env w = (err e, w)

  unfoldable pub lift : Result A → Exec S A
  lift r env w = (r, w)

  abbrev pub settle : Bool → Result A × S → World S → Result A × World S
  settle true (r, s) w = (err database, record w { calls = suc w.calls })
  settle false (r, s) w = (r, record { db = s; calls = suc w.calls })

  -- One SQL statement. A statement that fails changes nothing.
  unfoldable pub statement : (S → Result A × S) → Exec S A
  statement f env w = settle (env.fails_at w.calls) (f w.db) w

  -- A statement that only reads.
  unfoldable pub query : (S → Result A) → Exec S A
  unfolding statement
  query f = statement (λ s. (f s, s))

  -- `if x, err := …; err == nil`: the value, if the call succeeds.
  unfoldable pub try : Exec S A → Exec S (Option A)
  try m env w = let (r, w') = m env w in (elim r [ ok a ↦ ok (some a) | err e ↦ ok none ], w')

-- The row that a query has found, or the error of `sql.ErrNoRows`.
abbrev pub found {ℓ} : {A : Type ℓ} → Option A → Result A
found none = err not_found
found (some a) = ok a

module _ {S : Type 0} where
  -- A statement that writes.
  unfoldable pub write : (S → S) → Exec S Done
  unfolding statement
  write f = statement (λ s. (ok tt, f s))

  -- `_ = f(…)`: the error is dropped.
  unfoldable pub attempt : {A : Type 0} → Exec S A → Exec S Done
  attempt m env w = (ok tt, (m env w).1)

  -- A change in memory, which cannot fail.
  unfoldable pub modify : (S → S) → Exec S Done
  modify f env w = (ok tt, record w { db = f w.db })

  unfoldable pub now : Exec S Time
  now env w = (ok (env.now_at w.calls), record w { calls = suc w.calls })

  unfoldable pub fresh : Exec S Uuid
  fresh env w = (ok (env.uuid_at w.calls), record w { calls = suc w.calls })

  unfoldable pub raise_if : Bool → Error → Exec S Done
  raise_if b e env w = (if b then err e else ok tt, w)

  -- Code over one part of the state.
  unfoldable pub zoom : {T A : Type 0} → (S → T) → (T → S → S) → Exec T A → Exec S A
  zoom get put m env w =
      let (r, w') = m env (record { db = get w.db; calls = w.calls }) in
      (r, record { db = put w'.db w.db; calls = w'.calls })

module _ {ℓ} {S A B : Type ℓ} where
  abbrev pub continue : Result A → (A → Exec S B) → Exec S B
  continue (ok a) f env w = f a env w
  continue (err e) f env w = (err e, w)

  infixl 5 ◌>>=◌ ◌>>◌
  -- Opening this opens every action of this file.
  unfoldable pub ◌>>=◌ : Exec S A → (A → Exec S B) → Exec S B
  unfolding pure raise lift raise_if statement query write try attempt modify now fresh zoom
  ◌>>=◌ m f env w = let (r, w') = m env w in continue r f env w'

  abbrev pub ◌>>◌ : Exec S A → Exec S B → Exec S B
  m >> k = m >>= λ _. k

-- The result is dropped, and the error kept.
abbrev pub forget {ℓ} : {S A : Type ℓ} → Exec S A → Exec S (Unit {ℓ})
forget m = m >>= λ _. pure tt
