-- ===== src/Exec/Triple.antt =====
-- What an action ensures: a condition on its result and the state that it leaves, from a condition
-- on the state where it starts.
use open_help_desk.Base.{Bool, true, false}
use open_help_desk.Exec.{
  Error, database, Result, ok, err, Exec, World, Env, settle, statement, continue, ◌>>=◌,
}
use open_help_desk.Exec.Keeps.{Keeps}

pub record Triple {ℓ} {S A : Type ℓ} (P : S → Type ℓ) (m : Exec S A) (Q : Result A → S → Type ℓ)
    : Type ℓ where
  pub at : (env : Env) (w : World S) → P w.db → Q (m env w).0 (m env w).1.db

settle-triple {ℓ} :
    {S A : Type ℓ} (Q : Result A → S → Type ℓ) (b : Bool) (r : Result A × S) (w : World S)
    → Q (err database) w.db
    → Q r.0 r.1
    → Q (settle b r w).0 (settle b r w).1.db
settle-triple Q true (r, s) w refused done = refused
settle-triple Q false (r, s) w refused done = done

module _ {ℓ} {S A : Type ℓ} {P : S → Type ℓ} where
  pub Triple-Keeps : {m : Exec S A} → Keeps P m → Triple P m (λ r s. P s)
  Triple-Keeps k = record { at = k.at }

  pub Triple-statement :
      (Q : Result A → S → Type ℓ) {f : S → Result A × S}
      → ((s : S) → P s → Q (err database) s)
      → ((s : S) → P s → Q (f s).0 (f s).1)
      → Triple P (statement f) Q
  unfolding statement
  Triple-statement Q {f} refused done = record {
    at =
        λ env w h. settle-triple Q (env.fails_at w.calls) (f w.db) w (refused w.db h) (done w.db h);
  }

continue-triple {ℓ} :
    {S A B : Type ℓ} (Q : Result A → S → Type ℓ) (R : Result B → S → Type ℓ) (r : Result A)
    (f : A → Exec S B) (env : Env) (w : World S)
    → ((a : A) → Triple (Q (ok a)) (f a) R)
    → ((e : Error) (s : S) → Q (err e) s → R (err e) s)
    → Q r w.db
    → R (continue r f env w).0 (continue r f env w).1.db
continue-triple Q R (ok a) f env w k failed h = (k a).at env w h
continue-triple Q R (err e) f env w k failed h = failed e w.db h

module _ {ℓ} {S A B : Type ℓ} {P : S → Type ℓ} where
  pub Triple-bind :
      (Q : Result A → S → Type ℓ) (R : Result B → S → Type ℓ) {m : Exec S A} {f : A → Exec S B}
      → Triple P m Q
      → ((a : A) → Triple (Q (ok a)) (f a) R)
      → ((e : Error) (s : S) → Q (err e) s → R (err e) s)
      → Triple P (m >>= f) R
  unfolding ◌>>=◌
  Triple-bind Q R {m} {f} t k failed = record {
    at = λ env w h. continue-triple Q R (m env w).0 f env (m env w).1 k failed (t.at env w h);
  }
