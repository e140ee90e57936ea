-- ===== src/Exec/Keeps.antt =====
-- Invariants of actions: one rule for each way to build an action.
use open_help_desk.Base.{
  ◌≡◌, refl, Option, none, some, Bool, true, false, if◌then◌else◌, Bool-cases, inl, inr,
}
use open_help_desk.Exec.{
  Error, Result, ok, err, Exec, World, Env, pure, raise, lift, raise_if, settle, statement, query,
  write, try, attempt, modify, now, fresh, zoom, continue, ◌>>=◌,
}

-- The action keeps `P`, whether it returns or fails.
pub record Keeps {ℓ} {S A : Type ℓ} (P : S → Type ℓ) (action : Exec S A) : Type ℓ where
  pub at : (env : Env) (w : World S) → P w.db → P (action env w).1.db

branch-keeps {ℓ} :
    {S A : Type ℓ} (P : S → Type ℓ) (b : Bool) (r q : Result A × S)
    → P r.1
    → P q.1
    → P (if b then r else q).1
branch-keeps P true r q h k = h
branch-keeps P false r q h k = k

settle-keeps {ℓ} :
    {S A : Type ℓ} (P : S → Type ℓ) (b : Bool) (r : Result A × S) (w : World S)
    → P w.db
    → P r.1
    → P (settle b r w).1.db
settle-keeps P true (r, s) w h k = h
settle-keeps P false (r, s) w h k = k

module _ {ℓ} {S A : Type ℓ} {P : S → Type ℓ} where
  pub Keeps-raise : (error : Error) → Keeps P (raise {A = A} error)
  unfolding raise
  Keeps-raise error = record { at = λ env w start. start }

  pub Keeps-pure : (value : A) → Keeps P (pure value)
  unfolding pure
  Keeps-pure value = record { at = λ env w start. start }

  pub Keeps-lift : (result : Result A) → Keeps P (lift result)
  unfolding lift
  Keeps-lift result = record { at = λ env w start. start }

  pub Keeps-if : (b : Bool) (m n : Exec S A) → Keeps P m → Keeps P n → Keeps P (if b then m else n)
  Keeps-if true m n km kn = km
  Keeps-if false m n km kn = kn

  pub Keeps-statement : (f : S → Result A × S) → ((s : S) → P s → P (f s).1) → Keeps P (statement f)
  unfolding statement
  Keeps-statement f k = record {
    at = λ env w h. settle-keeps P (env.fails_at w.calls) (f w.db) w h (k w.db h);
  }

  -- A statement that takes effect only if a constraint holds.
  pub Keeps-checked :
      (test : S → Bool) (a : A) (e : Error) (f : S → S)
      → ((s : S) → P s → P (f s))
      → Keeps P (statement (λ s. if test s then (ok a, f s) else (err e, s)))
  Keeps-checked test a e f k =
      Keeps-statement _ (λ s h. branch-keeps P (test s) (ok a, f s) (err e, s) (k s h) h)

  -- A statement that takes effect only in states in which it keeps the property.
  pub Keeps-when :
      (test : S → Bool) (a : A) (e : Error) (f : S → S)
      → ((s : S) → test s ≡ true → P s → P (f s))
      → Keeps P (statement (λ s. if test s then (ok a, f s) else (err e, s)))
  Keeps-when test a e f k = Keeps-statement _ λ s h. elim (Bool-cases (test s)) [
    | inl fits ↦ rw fits (k s fits h)
    | inr refused ↦ rw refused h
  ]

  pub Keeps-query : (f : S → Result A) → Keeps P (query f)
  unfolding query
  Keeps-query f = Keeps-statement (λ s. (f s, s)) (λ s h. h)

  pub Keeps-try : (m : Exec S A) → Keeps P m → Keeps P (try m)
  unfolding try
  Keeps-try m k = record { at = λ env w h. k.at env w h }

module _ {S : Type 0} {P : S → Type 0} where
  pub Keeps-write : (f : S → S) → ((s : S) → P s → P (f s)) → Keeps P (write f)
  unfolding write
  Keeps-write f k = Keeps-statement (λ s. (ok tt, f s)) k

  pub Keeps-modify : (f : S → S) → ((s : S) → P s → P (f s)) → Keeps P (modify f)
  unfolding modify
  Keeps-modify f k = record { at = λ env w h. k w.db h }

  pub Keeps-attempt : {A : Type 0} (m : Exec S A) → Keeps P m → Keeps P (attempt m)
  unfolding attempt
  Keeps-attempt m k = record { at = λ env w h. k.at env w h }

  pub Keeps-now : Keeps P now
  unfolding now
  Keeps-now = record { at = λ env w h. h }

  pub Keeps-fresh : Keeps P fresh
  unfolding fresh
  Keeps-fresh = record { at = λ env w h. h }

  pub Keeps-raise_if : (b : Bool) (e : Error) → Keeps P (raise_if b e)
  unfolding raise_if
  Keeps-raise_if b e = record { at = λ env w h. h }

  -- Code over a part that `P` does not read.
  pub Keeps-zoom :
      {T A : Type 0} (get : S → T) (put : T → S → S) (m : Exec T A)
      → ((t : T) (s : S) → P s → P (put t s))
      → Keeps P (zoom get put m)
  unfolding zoom
  Keeps-zoom get put m k = record {
    at = λ env w h. k (m env (record { db = get w.db; calls = w.calls })).1.db w.db h;
  }

module _ {ℓ} {S A B : Type ℓ} {P : S → Type ℓ} where
  continue-keeps :
      (r : Result A) (f : A → Exec S B) (env : Env) (w : World S)
      → ((a : A) → Keeps P (f a))
      → P w.db
      → P (continue r f env w).1.db
  continue-keeps (ok a) f env w k h = (k a).at env w h
  continue-keeps (err e) f env w k h = h

  pub Keeps-bind :
      (first : Exec S A) (next : A → Exec S B)
      → Keeps P first
      → ((value : A) → Keeps P (next value))
      → Keeps P (first >>= next)
  unfolding ◌>>=◌
  Keeps-bind first next kept kept_next = record {
    at = λ env w start.
        continue-keeps (first env w).0 next env (first env w).1 kept_next (kept.at env w start);
  }

module _ {ℓ} {S A B : Type ℓ} {P : S → Type ℓ} (k : A → Exec S B) (env : Env) where
  settle-continue :
      (w : World S) (b : Bool) (r : Result A)
      → ((a : A) → r ≡ ok a → Keeps P (k a))
      → P w.db
      → P (continue (settle b (r, w.db) w).0 k env (settle b (r, w.db) w).1).1.db
  settle-continue w true r h p = p
  settle-continue w false (ok a) h p = (h a refl).at env _ p
  settle-continue w false (err e) h p = p

module _ {ℓ} {S A B : Type ℓ} {P : S → Type ℓ} where
  -- Code that goes on with what it has read, in a state with `P`.
  pub Keeps-read :
      (f : S → Result A) (k : A → Exec S B)
      → ((s : S) (a : A) → P s → f s ≡ ok a → Keeps P (k a))
      → Keeps P (query f >>= k)
  unfolding query statement ◌>>=◌
  Keeps-read f k h = record {
    at = λ env w p. settle-continue k env w (env.fails_at w.calls) (f w.db) (λ a e. h w.db a p e) p;
  }

  -- Code that goes on with what it has tried to read.
  pub Keeps-try_read :
      (f : S → Result A) (k : Option A → Exec S B)
      → ((s : S) (a : A) → P s → f s ≡ ok a → Keeps P (k (some a)))
      → Keeps P (k none)
      → Keeps P (try (query f) >>= k)
  unfolding query statement try ◌>>=◌
  Keeps-try_read f k h g = record {
    at = λ env w p. go env w (env.fails_at w.calls) (f w.db) (λ a e. h w.db a p e) p;
  }
    where
      go :
          (env : Env) (w : World S) (b : Bool) (r : Result A)
          → ((a : A) → r ≡ ok a → Keeps P (k (some a)))
          → P w.db
          → P ((try (λ env' w'. settle b (r, w.db) w) >>= k) env w).1.db
      go env w true r h p = g.at env _ p
      go env w false (ok a) h p = (h a refl).at env _ p
      go env w false (err e) h p = g.at env _ p

-- Code behind a guard.
pub Keeps-guard :
    {S B : Type 0} {P : S → Type 0} (b : Bool) (e : Error) (m : Exec S B)
    → (b ≡ false → Keeps P m)
    → Keeps P (raise_if b e >>= λ _. m)
unfolding raise_if ◌>>=◌
Keeps-guard true e m h = record { at = λ env w p. p }
Keeps-guard false e m h = record { at = λ env w p. (h refl).at env w p }

pub ruleset keeps_rules = (
  Keeps-pure, Keeps-raise, Keeps-lift, Keeps-if, Keeps-query, Keeps-try, Keeps-attempt, Keeps-now,
  Keeps-fresh, Keeps-raise_if, Keeps-bind,
)
